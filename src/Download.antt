-- ===== src/Download.antt =====
-- client/download.c: a file is fetched in pieces, by one worker for each owner. `int` values stay in
-- range, `calloc` does not fail, and the calls to sockets and files are arguments.
pub mod Pieces
pub mod Disk
pub mod Loop
pub mod Workers
pub mod Exclusion
pub mod Progress
pub mod Starting
pub mod Together
pub mod Transfer
pub mod Sending
pub mod Copy
pub mod Offsets
pub mod Content
pub mod Result
pub mod Outcome
use tele_sync.Prelude.{
  ℕ, zero, suc, ◌+◌, ◌-◌, ◌*◌, ◌/◌, List, [], ◌∷◌, Option, none, some, Bool, true, false, ◌==◌,
  ◌&&◌, not, if◌then◌else◌, set, replicate,
}

pub data PieceStatus : Type 0 where
  piece_available piece_downloading piece_finished : PieceStatus

pub record DownloadObj : Type 0 where
  pub file_len : ℕ
  pub file_pieces : ℕ
  pub piece_flags : List PieceStatus

-- The object that `do_download` sets up: all flags are 0, which is PIECE_AVAILABLE.
unfoldable pub download_obj : ℕ → ℕ → DownloadObj
download_obj file_len piece_len =
    let pieces = (file_len + piece_len - 1) / piece_len in
    record {
      file_len = file_len;
      file_pieces = pieces;
      piece_flags = replicate pieces piece_available;
    }

-- The first available piece, as an index into the flags.
unfoldable pub first_available : List PieceStatus → Option ℕ
first_available [] = none
first_available (piece_available ∷ flags) = some 0
first_available (piece_downloading ∷ flags) = elim (first_available flags) [
  | none ↦ none
  | some i ↦ some (suc i)
]
first_available (piece_finished ∷ flags) = elim (first_available flags) [
  | none ↦ none
  | some i ↦ some (suc i)
]

unfoldable pub set_flag : DownloadObj → ℕ → PieceStatus → DownloadObj
set_flag obj piece_id status = record obj { piece_flags = set obj.piece_flags piece_id status }

-- The piece that is claimed, or -1.
unfoldable pub get_new_piece : DownloadObj → DownloadObj × Option ℕ
get_new_piece obj = elim (first_available obj.piece_flags) [
  | none ↦ (obj, none)
  | some i ↦ (set_flag obj i piece_downloading, some i)
]

unfoldable pub mark_piece_finished : DownloadObj → ℕ → DownloadObj
mark_piece_finished obj piece_id = set_flag obj piece_id piece_finished

unfoldable pub mark_piece_failed : DownloadObj → ℕ → DownloadObj
mark_piece_failed obj piece_id = set_flag obj piece_id piece_available

-- `req.len` of a piece.
unfoldable pub request_len : DownloadObj → ℕ → ℕ → ℕ
request_len obj piece_len piece_id =
    if piece_id == obj.file_pieces - 1
    then obj.file_len - piece_len * (obj.file_pieces - 1)
    else piece_len

-- How the exchange of one piece ends.
pub data Exchange : Type 0 where
  request_failed short_read transferred : Exchange

-- The loop of `piece_download_task`: what the exchanges come to is given piece by piece. The result
-- is true for status 0. One unit of fuel is a round.
unfoldable pub download_loop : ℕ → (ℕ → Exchange) → DownloadObj → DownloadObj × Bool
download_loop zero exchange obj = (obj, true)
download_loop (suc fuel) exchange obj = elim (get_new_piece obj).1 [
  | none ↦ ((get_new_piece obj).0, true)
  | some piece_id ↦ elim (exchange piece_id) [
    | request_failed ↦ (mark_piece_failed (get_new_piece obj).0 piece_id, false)
    | short_read ↦ (mark_piece_failed (get_new_piece obj).0 piece_id, false)
    | transferred ↦ download_loop fuel exchange (mark_piece_finished (get_new_piece obj).0 piece_id)
  ]
]

-- `piece_download_task`: what the steps before the loop come to, in the order of the code. The test
-- of the port is not here: `download_port < 0` is never true of a uint16_t.
unfoldable pub piece_download_task :
    (my_ip owner_ip : ℕ) (connected download_connected opened : Bool) (exchange : ℕ → Exchange)
    → DownloadObj
    → DownloadObj × Bool
piece_download_task my_ip owner_ip connected download_connected opened exchange obj =
    if owner_ip == my_ip
    then (obj, true)
    else if not connected
    then (obj, false)
    else if not download_connected
    then (obj, false)
    else if not opened
    then (obj, false)
    else download_loop (suc obj.file_pieces) exchange obj

-- The values of `ret` in `do_download`.
pub data Ret : Type 0 where
  ret_minus_one ret_zero ret_one : Ret

-- `ret = (int *)status && ret`, for a status that is 0 (true) or not.
unfoldable pub join_status : Bool → Ret → Ret
join_status true ret = ret_zero
join_status false ret_minus_one = ret_one
join_status false ret_zero = ret_zero
join_status false ret_one = ret_one

unfoldable pub join_all : List Bool → Ret → Ret
join_all [] ret = ret
join_all (ok ∷ oks) ret = join_all oks (join_status ok ret)

-- What `do_download` returns once its workers, at least one, have ended with these statuses.
unfoldable pub download_result : List Bool → Ret
download_result oks = join_all oks ret_minus_one
