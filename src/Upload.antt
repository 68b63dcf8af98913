-- ===== src/Upload.antt =====
-- The upload side of client/start.c: `do_upload` serves the pieces of a file to one worker of another
-- peer. Reading, writing and seeking are arguments.
pub mod Honest
use tele_sync.Prelude.{ℕ, ◌*◌, List, Option, none, some, ◌==◌, if◌then◌else◌, length}
use tele_sync.Download.Transfer.{my_read}
use tele_sync.Download.Sending.{my_write}

-- struct p2p_piece_request of client/packet.h.
pub record PieceRequest : Type 0 where
  pub piece_id : ℕ
  pub len : ℕ

-- How the loop of `do_upload` goes on after a request.
pub data Served {ℓ} (Conn : Type ℓ) : Type ℓ where
  stopped : Served Conn
  answered : Conn → Served Conn

module _ {ℓ} {File Conn : Type ℓ} (lseek : File → ℕ → File)
    (read : File → ℕ → File × Option (List ℕ)) (send : Conn → List ℕ → Conn × Option ℕ) where
  -- One request: a short read of the file ends the connection, a short write to it is only logged.
  unfoldable pub serve_piece : ℕ → File → Conn → PieceRequest → Served Conn
  serve_piece piece_len file conn req =
      let piece_buf = (my_read read (lseek file (req.piece_id * piece_len)) req.len).1 in
      if length piece_buf == req.len then answered (my_write send conn piece_buf).0 else stopped

-- The connection after a request.
abbrev pub after_request {ℓ} : {Conn : Type ℓ} → Conn → Served Conn → Conn
after_request conn stopped = conn
after_request conn (answered conn') = conn'

module _ {ℓ} {File Conn In : Type ℓ} (lseek : File → ℕ → File)
    (read : File → ℕ → File × Option (List ℕ)) (send : Conn → List ℕ → Conn × Option ℕ)
    (arrive : Conn → In) (recv : In → ℕ → In × Option (List ℕ)) where
  -- One piece between two peers, once its request has arrived: the owner serves it, and the worker of
  -- `piece_download_task` reads the answer, which has to have the length that it asked for. `arrive` is
  -- the other end of the connection.
  unfoldable pub fetch_piece : ℕ → File → Conn → PieceRequest → Option (List ℕ)
  fetch_piece piece_len file conn req =
      let conn' = after_request conn (serve_piece lseek read send piece_len file conn req) in
      let piece_buf = (my_read recv (arrive conn') req.len).1 in
      if length piece_buf == req.len then some piece_buf else none
