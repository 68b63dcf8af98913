-- ===== src/Download/Copy.antt =====
-- The workers of client/download.c with the file that they write: what an exchange brings goes to the
-- offset of its piece.
use tele_sync.Prelude.{ℕ, ◌*◌, List, [], ◌∷◌, Option, none, some, get_elem?, take, Bool}
use tele_sync.Download.{DownloadObj, request_len, Exchange, short_read, transferred}
use tele_sync.Download.Disk.{Disk}
use tele_sync.Download.Workers.{
  WorkerState, idle, fetching, ended, skipped, Workers, step_as, start_workers,
}
use tele_sync.Upload.{PieceRequest}

abbrev pub Answer : Type 0
Answer = PieceRequest → Option (List ℕ)

-- One step of a schedule: what the owner of the worker's connection delivers for a request, and what
-- `my_write` of client/download.c returns then, the number of bytes that it has written.
pub record Turn : Type 0 where
  pub answer : Answer
  pub stored : ℕ

pub record Copying : Type 0 where
  pub workers : Workers
  pub file : List ℕ

unfoldable pub piece_request : DownloadObj → ℕ → ℕ → PieceRequest
piece_request obj piece_len i = record { piece_id = i; len = request_len obj piece_len i }

-- What comes back in this step: nothing, unless the worker holds a piece.
unfoldable pub brought : DownloadObj → ℕ → Answer → WorkerState → Option (List ℕ)
brought obj piece_len answer idle = none
brought obj piece_len answer (fetching i) = answer (piece_request obj piece_len i)
brought obj piece_len answer (ended ok) = none
brought obj piece_len answer skipped = none

abbrev pub outcome : Option (List ℕ) → Exchange
outcome none = short_read
outcome (some d) = transferred

module _ (disk : Disk) where
  -- `lseek` and `my_write` under the lock on the file. That the write may be short is not tested, so the
  -- piece is marked as finished in any case.
  unfoldable pub written : List ℕ → ℕ → WorkerState → Option (List ℕ) → ℕ → List ℕ
  written file piece_len idle d stored = file
  written file piece_len (fetching i) none stored = file
  written file piece_len (fetching i) (some d) stored =
      disk.write_at file (i * piece_len) (take stored d)
  written file piece_len (ended ok) d stored = file
  written file piece_len skipped d stored = file

  unfoldable pub copy_as : ℕ → Copying → ℕ → Turn → WorkerState → Copying
  copy_as piece_len s w turn state =
      let d = brought s.workers.obj piece_len turn.answer state in
      record {
        workers = step_as s.workers w (outcome d) state;
        file = written s.file piece_len state d turn.stored;
      }

  unfoldable pub copy_step : ℕ → Copying → ℕ → Turn → Copying
  copy_step piece_len s w turn = elim (get_elem? s.workers.states w) [
    | none ↦ s
    | some state ↦ copy_as piece_len s w turn state
  ]

  unfoldable pub run_copy : ℕ → Copying → List (ℕ × Turn) → Copying
  run_copy piece_len s [] = s
  run_copy piece_len s ((w, turn) ∷ schedule) =
      run_copy piece_len (copy_step piece_len s w turn) schedule

-- `do_download` has truncated the file when the workers start.
unfoldable pub start_copy : ℕ → List (ℕ × Bool) → DownloadObj → Copying
start_copy my_ip owners obj = record { workers = start_workers my_ip owners obj; file = [] }
