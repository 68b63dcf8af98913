-- ===== src/Tests/Copying.antt =====
-- A file of three bytes, fetched from its owners in pieces of two bytes.
use tele_sync.Prelude.{
  ℕ, ◌≡◌, refl, sym, List, [], ◌∷◌, ◌++◌, Option, some, Bool, true, arith, replicate, length, take,
  drop, length-take, take-drop, length-append, ap, ◌≤◌, ◌*◌,
}
use tele_sync.Download.{
  piece_finished, request_len, download_obj, first_available, set_flag, get_new_piece,
  mark_piece_finished,
}
use tele_sync.Download.Disk.{plain_disk, overlay}
use tele_sync.Download.Transfer.{my_read, read_loop}
use tele_sync.Download.Sending.{my_write, write_loop}
use tele_sync.Download.Workers.{step_as, start_workers, start_states, start_state, others, tally}
use tele_sync.Download.Copy.{
  Answer, Turn, run_copy, start_copy, copy_step, copy_as, brought, written, piece_request,
}
use tele_sync.Download.Content.{Honest, AllHonest, AllStored}
use tele_sync.Download.Result.{run_copy-content}
use tele_sync.Upload.{PieceRequest, fetch_piece, serve_piece}
use tele_sync.Upload.Honest.{Delivers, Takes, piece_of, fetch_piece-Honest}

abbrev content : List ℕ
content = b'a' ∷ b'b' ∷ b'c' ∷ []

-- An owner that serves everything.
abbrev serve_all : Answer
serve_all req = some (piece_of content 2 req)

serve_all-Honest : Honest content 2 serve_all
serve_all-Honest req d e = ground arith

-- The workers whose turn it is, each with such an owner and a disk that has room.
abbrev turns : List ℕ → List (ℕ × Turn)
turns [] = []
turns (w ∷ ws) = (w, record { answer = serve_all; stored = 3 }) ∷ turns ws

turns-AllHonest : (ws : List ℕ) → AllHonest content 2 (turns ws)
turns-AllHonest [] = _
turns-AllHonest (w ∷ ws) = (serve_all-Honest, turns-AllHonest ws)

part-le : (n m : ℕ) (s : List ℕ) → length (take n (drop m s)) ≤ length s
part-le n m s = omega (
  arith,
  length-append (take n (drop m s)) (drop n (drop m s)),
  ap length (take-drop n (drop m s)),
  length-append (take m s) (drop m s),
  ap length (take-drop m s),
)

-- No piece is longer than the three bytes.
some_same : {a b : List ℕ} → some a ≡ some b → a ≡ b
some_same e = ground arith

turns-AllStored : (ws : List ℕ) → AllStored (turns ws)
unfolding piece_of
turns-AllStored [] = _
turns-AllStored (w ∷ ws) =
    (λ req d e. rw (← some_same e) (part-le req.len (req.piece_id * 2) content), turns-AllStored ws)

-- A third worker has no part, because its owner is the peer itself.
abbrev owners : List (ℕ × Bool)
owners = (1, true) ∷ (2, true) ∷ (7, true) ∷ []

-- Two workers, of which the second fetches both pieces.
abbrev order : List ℕ
order = 1 ∷ 1 ∷ 1 ∷ 0 ∷ 1 ∷ 1 ∷ []

run_copy-content_example :
    (run_copy plain_disk 2 (start_copy 7 owners (download_obj 3 2)) (turns order)).file ≡ content
unfolding run_copy start_copy copy_step copy_as brought written piece_request step_as start_workers
    start_states start_state others download_obj get_new_piece first_available set_flag
    mark_piece_finished replicate tally
run_copy-content_example =
    run_copy-content plain_disk content 2 7 owners (turns order) (omega arith) (omega arith)
      (omega arith) (turns-AllHonest order) (turns-AllStored order) refl refl

-- An open file is what is left of it; a connection is what has been sent.
read_some : List ℕ → ℕ → List ℕ × Option (List ℕ)
read_some s n = (drop n s, some (take n s))

read_some-Delivers : Delivers read_some (λ s. s)
unfolding read_some
read_some-Delivers s n = (omega (arith, length-take n s), sym (take-drop n s))

seek_to : List ℕ → ℕ → List ℕ
seek_to s off = drop off content

send_all : List ℕ → List ℕ → List ℕ × Option ℕ
send_all s d = (s ++ d, some (length d))

take_whole : (d : List ℕ) → take (length d) d ≡ d
take_whole [] = refl
take_whole (x ∷ d) = cc (take_whole d)

send_all-Takes : Takes send_all (λ s. s)
unfolding send_all
send_all-Takes s d = (omega arith, cc (take_whole d))

abbrev second_piece : PieceRequest
second_piece = record { piece_id = 1; len = 1 }

fetch_piece-Honest_example : b'c' ∷ [] ≡ piece_of content 2 second_piece
unfolding fetch_piece serve_piece read_some seek_to send_all my_read read_loop my_write write_loop
fetch_piece-Honest_example =
    fetch_piece-Honest seek_to read_some send_all (λ c. c) read_some (λ s. s) (λ s. s) (λ s. s)
      read_some-Delivers send_all-Takes read_some-Delivers (λ c. refl) content 2 content []
      second_piece (λ off. refl) refl (b'c' ∷ []) refl

-- A disk that is full after the first byte: both pieces are marked as finished, and the download is said
-- to be complete.
abbrev one_byte : List ℕ → List (ℕ × Turn)
one_byte [] = []
one_byte (w ∷ ws) = (w, record { answer = serve_all; stored = 1 }) ∷ one_byte ws

short_write :
    ((run_copy plain_disk 2 (start_copy 7 owners (download_obj 3 2)) (one_byte order)).file
      ≡ b'a' ∷ 0 ∷ b'c' ∷ [])
    × ((run_copy plain_disk 2
          (start_copy 7 owners (download_obj 3 2))
          (one_byte order)).workers.obj.piece_flags
        ≡ piece_finished ∷ piece_finished ∷ [])
unfolding run_copy start_copy copy_step copy_as brought written piece_request step_as start_workers
    start_states start_state download_obj get_new_piece first_available set_flag mark_piece_finished
    replicate piece_of request_len plain_disk overlay
short_write = (refl, refl)
