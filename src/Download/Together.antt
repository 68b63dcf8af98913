-- ===== src/Download/Together.antt =====
-- The workers of client/download.c after any schedule.
use tele_sync.Prelude.{
  ℕ, zero, suc, ◌+◌, ◌≤◌, ◌<◌, ◌≡◌, ◌≢◌, refl, sym, ap, ◌∙◌, List, [], ◌∷◌, Option, none, some,
  Bool, true, false, arith, ◌==◌, ==_refl, get_elem?, length, length-set, replicate,
  length-replicate, Option-cases, Bool-cases, inl, inr,
}
use tele_sync.Download.{
  PieceStatus, piece_available, piece_downloading, piece_finished, download_obj, first_available,
  set_flag, mark_piece_finished, mark_piece_failed, Exchange, request_failed, short_read,
  transferred,
}
use tele_sync.Download.Loop.{get_none, get_some}
use tele_sync.Download.Workers.{
  WorkerState, idle, fetching, ended, skipped, others, skips, Workers, step_as, worker_step,
  run_workers, start_workers, tally, tally-set, holds, loads, succeeds, fails, work_left,
  is_available, Inv,
}
use tele_sync.Download.Starting.{
  holds-start_states, succeeds-start_states, skips-start_states, skips-run_workers,
}
use tele_sync.Download.Exclusion.{worker_step-Inv}
use tele_sync.Download.Progress.{work, worker_step-lt}

pub step_as-sizes :
    (s : Workers) (w : ℕ) (x : Exchange) (state : WorkerState)
    → (length (step_as s w x state).states ≡ length s.states)
      × (length (step_as s w x state).obj.piece_flags ≡ length s.obj.piece_flags)
unfolding step_as set_flag mark_piece_finished mark_piece_failed
step_as-sizes s w x idle = elim (Option-cases (first_available s.obj.piece_flags)) [
  | inl e ↦ rw (get_none s.obj e, step_as) (length-set s.states w (ended true), refl)
  | inr (i, e) ↦
      rw (get_some s.obj i e, step_as, get_some s.obj i e)
        (length-set s.states w (fetching i), length-set s.obj.piece_flags i piece_downloading)
]
step_as-sizes s w transferred (fetching i) =
    (length-set s.states w idle, length-set s.obj.piece_flags i piece_finished)
step_as-sizes s w request_failed (fetching i) =
    (length-set s.states w (ended false), length-set s.obj.piece_flags i piece_available)
step_as-sizes s w short_read (fetching i) =
    (length-set s.states w (ended false), length-set s.obj.piece_flags i piece_available)
step_as-sizes s w x (ended ok) = (refl, refl)
step_as-sizes s w x skipped = (refl, refl)

pub worker_step-sizes :
    (s : Workers) (w : ℕ) (x : Exchange)
    → (length (worker_step s w x).states ≡ length s.states)
      × (length (worker_step s w x).obj.piece_flags ≡ length s.obj.piece_flags)
unfolding worker_step
worker_step-sizes s w x = elim (Option-cases (get_elem? s.states w)) [
  | inl e ↦ rw (e, worker_step) (refl, refl)
  | inr (state, e) ↦ rw (e, worker_step) (step_as-sizes s w x state)
]

run_workers-Inv :
    (s : Workers) (schedule : List (ℕ × Exchange))
    → Inv s
    → Inv (run_workers s schedule)
      × (length (run_workers s schedule).states ≡ length s.states)
      × (length (run_workers s schedule).obj.piece_flags ≡ length s.obj.piece_flags)
unfolding run_workers
run_workers-Inv s [] inv = (inv, refl, refl)
run_workers-Inv s ((w, x) ∷ schedule) inv =
    let rest = run_workers-Inv (worker_step s w x) schedule (worker_step-Inv inv w x) in
    let here = worker_step-sizes s w x in (rest.0, rest.1 ∙ here.0, rest.2 ∙ here.1)

loads_fresh : (n i : ℕ) → loads (get_elem? (replicate n piece_available) i) ≡ 0
unfolding replicate
loads_fresh zero i = refl
loads_fresh (suc n) zero = refl
loads_fresh (suc n) (suc i) = loads_fresh n i

pub start_workers-Inv :
    (my_ip : ℕ) (owners : List (ℕ × Bool)) (file_len piece_len : ℕ)
    → Inv (start_workers my_ip owners (download_obj file_len piece_len))
unfolding start_workers download_obj
start_workers-Inv my_ip owners file_len piece_len = record {
  held = λ i. holds-start_states my_ip owners i ∙ sym (loads_fresh _ i);
  spent = λ f p. absurd (omega (arith, succeeds-start_states my_ip owners));
}

tally_one :
    (f : WorkerState → ℕ) (xs : List WorkerState) (a : ℕ) (x : WorkerState)
    → get_elem? xs a ≡ some x
    → f x ≤ tally f xs
unfolding tally
tally_one f [] a x g = absurd (cc)
tally_one f (z ∷ xs) zero x g = ground arith
tally_one f (z ∷ xs) (suc a) x g = omega (arith, tally_one f xs a x g)

tally_two :
    (f : WorkerState → ℕ) (xs : List WorkerState) (a b : ℕ) (x y : WorkerState)
    → get_elem? xs a ≡ some x
    → get_elem? xs b ≡ some y
    → a ≢ b
    → f x + f y ≤ tally f xs
unfolding tally
tally_two f [] a b x y ga gb ne = absurd (cc)
tally_two f (z ∷ xs) zero zero x y ga gb ne = absurd (ne refl)
tally_two f (z ∷ xs) zero (suc b) x y ga gb ne = ground (arith, tally_one f xs b y gb)
tally_two f (z ∷ xs) (suc a) zero x y ga gb ne = ground (arith, tally_one f xs a x ga)
tally_two f (z ∷ xs) (suc a) (suc b) x y ga gb ne =
    omega (arith, tally_two f xs a b x y ga gb (λ e. ne (ap suc e)))

-- A worker holds a piece, has work left, or has ended.
holds_work : (i : ℕ) (xs : List WorkerState) → tally (holds i) xs ≤ tally work_left xs
unfolding tally
holds_work i [] = omega arith
holds_work i (idle ∷ xs) = omega (arith, holds_work i xs)
holds_work i (fetching j ∷ xs) = ground (arith, holds_work i xs)
holds_work i (ended ok ∷ xs) = omega (arith, holds_work i xs)
holds_work i (skipped ∷ xs) = omega (arith, holds_work i xs)

length-tally :
    (xs : List WorkerState)
    → length xs ≤ tally work_left xs + tally fails xs + tally succeeds xs + tally skips xs
unfolding tally
length-tally [] = omega arith
length-tally (idle ∷ xs) = omega (arith, length-tally xs)
length-tally (fetching i ∷ xs) = omega (arith, length-tally xs)
length-tally (ended true ∷ xs) = omega (arith, length-tally xs)
length-tally (ended false ∷ xs) = omega (arith, length-tally xs)
length-tally (skipped ∷ xs) = omega (arith, length-tally xs)

length-none : (fs : List PieceStatus) (i : ℕ) → get_elem? fs i ≡ none → length fs ≤ i
length-none [] i e = omega arith
length-none (f ∷ fs) zero e = absurd (cc)
length-none (f ∷ fs) (suc i) e = omega (arith, length-none fs i e)

loads-le : (o : Option PieceStatus) → loads o ≤ 1
loads-le none = omega arith
loads-le (some piece_available) = omega arith
loads-le (some piece_downloading) = omega arith
loads-le (some piece_finished) = omega arith

module _ (my_ip : ℕ) (owners : List (ℕ × Bool)) (file_len piece_len : ℕ)
    (schedule : List (ℕ × Exchange)) where
  -- The workers after the schedule.
  abbrev pub after : Workers
  after = run_workers (start_workers my_ip owners (download_obj file_len piece_len)) schedule

  pub after-Inv :
      Inv after
      × (length after.states ≡ length owners)
      × (tally skips after.states + others my_ip owners ≡ length owners)
      × (length after.obj.piece_flags ≡ (download_obj file_len piece_len).file_pieces)
  unfolding start_workers download_obj
  after-Inv =
      let r = run_workers-Inv _ schedule (start_workers-Inv my_ip owners file_len piece_len) in
      let start = skips-start_states my_ip owners in
      (
        r.0,
        r.1 ∙ start.1,
        ap (λ k. k + others my_ip owners) (skips-run_workers _ schedule) ∙ start.0,
        r.2 ∙ length-replicate _ piece_available,
      )

  -- Whatever the workers of a download have done, two of them never hold the same piece.
  pub worker_step-exclusive :
      (a b i : ℕ)
      → get_elem? after.states a ≡ some (fetching i)
      → get_elem? after.states b ≡ some (fetching i)
      → a ≡ b
  worker_step-exclusive a b i ga gb =
      let inv = after-Inv.0 in
      let here : holds i (fetching i) ≡ 1 = rw (==_refl i) refl in
      elim (Bool-cases (a == b)) [
        | inl same ↦ ground arith
        | inr differ ↦
            let ne : a ≢ b = ground arith in
            absurd (
              omega (
                arith,
                tally_two (holds i) after.states a b (fetching i) (fetching i) ga gb ne,
                here,
                inv.held i,
                loads-le (get_elem? after.obj.piece_flags i),
              ))
      ]

  finished_flag :
      (i : ℕ) (status : PieceStatus)
      → tally work_left after.states ≡ 0
      → tally is_available after.obj.piece_flags ≡ 0
      → get_elem? after.obj.piece_flags i ≡ some status
      → status ≡ piece_finished
  finished_flag i piece_available w a e = absurd (
      omega
        (arith, tally-set is_available after.obj.piece_flags i piece_available piece_finished e))
  finished_flag i piece_downloading w a e =
      let l : loads (get_elem? after.obj.piece_flags i) ≡ 1 = ap loads e in
      absurd (omega (arith, holds_work i after.states, after-Inv.0.held i, l))
  finished_flag i piece_finished w a e = refl

  -- Once each of the workers has ended, at least one of them for an owner that is another peer, and none
  -- has failed, every piece of the file is finished.
  pub run_workers-finished :
      0 < others my_ip owners
      → tally work_left after.states ≡ 0
      → tally fails after.states ≡ 0
      → (i : ℕ) → i < (download_obj file_len piece_len).file_pieces
      → get_elem? after.obj.piece_flags i ≡ some piece_finished
  run_workers-finished pos no_work no_fail i h =
      let inv = after-Inv in
      let spent = inv.0.spent no_fail (omega (arith, length-tally after.states, inv.1, inv.2)) in
      elim (Option-cases (get_elem? after.obj.piece_flags i)) [
        | inl e ↦ absurd (omega (arith, length-none after.obj.piece_flags i e, inv.3))
        | inr (status, e) ↦ e ∙ ap some (finished_flag i status no_work spent e)
      ]

  -- A step of a worker that has not ended lowers `work`: 2 for each available piece and each worker that
  -- holds none, 3 for each worker that holds one.
  pub worker_step-progress :
      (w : ℕ) (x : Exchange) (state : WorkerState)
      → get_elem? after.states w ≡ some state
      → 0 < work_left state
      → work (worker_step after w x) < work after
  worker_step-progress w x state g h = worker_step-lt after-Inv.0 w x state g h
