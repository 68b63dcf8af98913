-- ===== src/Download/Progress.antt =====
-- The steps that the workers of client/download.c may still make.
use tele_sync.Prelude.{
  ℕ, ◌+◌, ◌*◌, ◌<◌, ◌≡◌, some, true, false, arith, set, get_elem?, Option-cases, inl, inr,
}
use tele_sync.Download.{
  piece_available, piece_downloading, piece_finished, first_available, set_flag,
  mark_piece_finished, mark_piece_failed, Exchange, request_failed, short_read, transferred,
}
use tele_sync.Download.Loop.{get_none, get_some}
use tele_sync.Download.Workers.{
  WorkerState, idle, fetching, ended, skipped, Workers, step_as, worker_step, tally, tally-set,
  work_left, is_available, first_available-get_elem, Inv,
}
use tele_sync.Download.Exclusion.{held_piece}

-- The steps that may still be made, at most.
unfoldable pub work : Workers → ℕ
work s = tally work_left s.states + 2 * tally is_available s.obj.piece_flags

work_idle :
    (s : Workers) (w : ℕ) (x : Exchange)
    → get_elem? s.states w ≡ some idle
    → work (step_as s w x idle) < work s
unfolding step_as work set_flag
work_idle s w x g = elim (Option-cases (first_available s.obj.piece_flags)) [
  | inl e ↦
      rw (get_none s.obj e, step_as)
        (omega (arith, tally-set work_left s.states w idle (ended true) g))
  | inr (i, e) ↦
      let free = first_available-get_elem s.obj.piece_flags i e in
      rw (get_some s.obj i e, step_as, get_some s.obj i e)
        (omega (
          arith,
          tally-set work_left s.states w idle (fetching i) g,
          tally-set is_available s.obj.piece_flags i piece_available piece_downloading free,
        ))
]

work_failed :
    {s : Workers} (inv : Inv s) (w i : ℕ)
    → get_elem? s.states w ≡ some (fetching i)
    → work (record { obj = mark_piece_failed s.obj i; states = set s.states w (ended false) })
      < work s
unfolding work set_flag mark_piece_failed
work_failed {s} inv w i g = omega (
  arith,
  tally-set work_left s.states w (fetching i) (ended false) g,
  tally-set is_available s.obj.piece_flags i piece_downloading piece_available
      (held_piece inv w i g),
)

work-step_as :
    {s : Workers} (inv : Inv s) (w : ℕ) (x : Exchange) (state : WorkerState)
    → get_elem? s.states w ≡ some state
    → 0 < work_left state
    → work (step_as s w x state) < work s
unfolding step_as work set_flag mark_piece_finished
work-step_as {s} inv w x idle g h = work_idle s w x g
work-step_as {s} inv w transferred (fetching i) g h = omega (
  arith,
  tally-set work_left s.states w (fetching i) idle g,
  tally-set is_available s.obj.piece_flags i piece_downloading piece_finished
      (held_piece inv w i g),
)
work-step_as inv w request_failed (fetching i) g h = work_failed inv w i g
work-step_as inv w short_read (fetching i) g h = work_failed inv w i g
work-step_as inv w x (ended ok) g h = absurd (omega arith)
work-step_as inv w x skipped g h = absurd (omega arith)

pub worker_step-lt :
    {s : Workers} (inv : Inv s) (w : ℕ) (x : Exchange) (state : WorkerState)
    → get_elem? s.states w ≡ some state
    → 0 < work_left state
    → work (worker_step s w x) < work s
unfolding worker_step
worker_step-lt inv w x state g h = rw (g, worker_step) (work-step_as inv w x state g h)
