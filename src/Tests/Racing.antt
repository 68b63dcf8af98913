-- ===== src/Tests/Racing.antt =====
-- Three workers of client/download.c on a file of two pieces.
use tele_sync.Prelude.{
  ℕ, zero, ◌<◌, ◌≡◌, refl, List, [], ◌∷◌, some, Bool, true, false, arith, get_elem?, replicate,
}
use tele_sync.Download.{
  piece_available, piece_finished, download_obj, first_available, set_flag, get_new_piece,
  mark_piece_finished, mark_piece_failed, Exchange, transferred, short_read, download_result,
  join_all, join_status, ret_zero,
}
use tele_sync.Download.Workers.{
  fetching, ended, skipped, start_states, start_state, others, worker_step, step_as, run_workers,
  start_workers, tally,
}
use tele_sync.Download.Progress.{work}
use tele_sync.Download.Together.{
  after, worker_step-exclusive, run_workers-finished, worker_step-progress,
}

-- The third owner is the peer itself.
abbrev owners : List (ℕ × Bool)
owners = (1, true) ∷ (2, true) ∷ (7, true) ∷ []

-- Both claim a piece.
abbrev claims : List (ℕ × Exchange)
claims = (0, transferred) ∷ (1, transferred) ∷ []

-- Both fetch their pieces and end.
abbrev both_fetch : List (ℕ × Exchange)
both_fetch =
    (0, transferred)
    ∷ (1, transferred)
    ∷ (1, transferred)
    ∷ (0, transferred)
    ∷ (0, transferred)
    ∷ (1, transferred)
    ∷ []

-- The second ends while the first still holds a piece, which then fails.
abbrev one_lost : List (ℕ × Exchange)
one_lost =
    (0, transferred) ∷ (1, transferred) ∷ (1, transferred) ∷ (1, transferred) ∷ (0, short_read) ∷ []

-- `do_download` returns 0 then, and the piece has not been fetched.
one_lost_lem :
    ((after 7 owners 100 64 one_lost).states ≡ ended false ∷ ended true ∷ skipped ∷ [])
    × ((after 7 owners 100 64 one_lost).obj.piece_flags ≡ piece_available ∷ piece_finished ∷ [])
    × (download_result (false ∷ true ∷ true ∷ []) ≡ ret_zero)
unfolding run_workers worker_step step_as start_workers start_states start_state download_obj
    get_new_piece first_available set_flag mark_piece_finished mark_piece_failed download_result
    join_all join_status replicate
one_lost_lem = (refl, refl, refl)

worker_step-exclusive_example : zero ≡ zero
unfolding run_workers worker_step step_as start_workers start_states start_state download_obj
    get_new_piece first_available set_flag replicate
worker_step-exclusive_example = worker_step-exclusive 7 owners 100 64 claims 0 0 0 refl refl

run_workers-finished_example :
    get_elem? (after 7 owners 100 64 both_fetch).obj.piece_flags 1 ≡ some piece_finished
unfolding run_workers worker_step step_as start_workers start_states start_state download_obj
    get_new_piece first_available set_flag mark_piece_finished replicate tally others
run_workers-finished_example =
    run_workers-finished 7 owners 100 64 both_fetch (omega arith) refl refl 1 (omega arith)

worker_step-progress_example :
    work (worker_step (after 7 owners 100 64 claims) 1 short_read)
    < work (after 7 owners 100 64 claims)
unfolding run_workers worker_step step_as start_workers start_states start_state download_obj
    get_new_piece first_available set_flag replicate
worker_step-progress_example =
    worker_step-progress 7 owners 100 64 claims 1 short_read (fetching 1) refl (omega arith)
