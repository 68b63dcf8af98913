-- ===== src/Download/Starting.antt =====
-- The workers of client/download.c before their loops, and those that never get there.
use tele_sync.Prelude.{
  ℕ, ◌+◌, ◌≡◌, refl, ◌∙◌, List, [], ◌∷◌, some, Bool, true, false, arith, get_elem?, length,
  Option-cases, inl, inr,
}
use tele_sync.Download.{first_available, Exchange, request_failed, short_read, transferred}
use tele_sync.Download.Loop.{get_none, get_some}
use tele_sync.Download.Workers.{
  WorkerState, idle, fetching, ended, skipped, start_state, start_states, others, skips, Workers,
  step_as, worker_step, run_workers, tally, tally-set, holds, succeeds,
}

pub holds-start_states :
    (my_ip : ℕ) (owners : List (ℕ × Bool)) (i : ℕ) → tally (holds i) (start_states my_ip owners) ≡ 0
unfolding tally start_states start_state
holds-start_states my_ip [] i = refl
holds-start_states my_ip ((owner_ip, true) ∷ owners) i =
    ground (arith, holds-start_states my_ip owners i)
holds-start_states my_ip ((owner_ip, false) ∷ owners) i =
    ground (arith, holds-start_states my_ip owners i)

pub succeeds-start_states :
    (my_ip : ℕ) (owners : List (ℕ × Bool)) → tally succeeds (start_states my_ip owners) ≡ 0
unfolding tally start_states start_state
succeeds-start_states my_ip [] = refl
succeeds-start_states my_ip ((owner_ip, true) ∷ owners) =
    ground (arith, succeeds-start_states my_ip owners)
succeeds-start_states my_ip ((owner_ip, false) ∷ owners) =
    ground (arith, succeeds-start_states my_ip owners)

-- The workers that go past the test of the address are those of other peers.
pub skips-start_states :
    (my_ip : ℕ) (owners : List (ℕ × Bool))
    → (tally skips (start_states my_ip owners) + others my_ip owners ≡ length owners)
      × (length (start_states my_ip owners) ≡ length owners)
unfolding tally start_states start_state others
skips-start_states my_ip [] = (refl, refl)
skips-start_states my_ip ((owner_ip, true) ∷ owners) =
    ground (arith, skips-start_states my_ip owners)
skips-start_states my_ip ((owner_ip, false) ∷ owners) =
    ground (arith, skips-start_states my_ip owners)

skips-step_as :
    (s : Workers) (w : ℕ) (x : Exchange) (state : WorkerState)
    → get_elem? s.states w ≡ some state
    → tally skips (step_as s w x state).states ≡ tally skips s.states
unfolding step_as
skips-step_as s w x idle g = elim (Option-cases (first_available s.obj.piece_flags)) [
  | inl e ↦
      rw (get_none s.obj e, step_as) (omega (arith, tally-set skips s.states w idle (ended true) g))
  | inr (i, e) ↦
      rw (get_some s.obj i e, step_as)
        (omega (arith, tally-set skips s.states w idle (fetching i) g))
]
skips-step_as s w transferred (fetching i) g =
    omega (arith, tally-set skips s.states w (fetching i) idle g)
skips-step_as s w request_failed (fetching i) g =
    omega (arith, tally-set skips s.states w (fetching i) (ended false) g)
skips-step_as s w short_read (fetching i) g =
    omega (arith, tally-set skips s.states w (fetching i) (ended false) g)
skips-step_as s w x (ended ok) g = refl
skips-step_as s w x skipped g = refl

skips-worker_step :
    (s : Workers) (w : ℕ) (x : Exchange)
    → tally skips (worker_step s w x).states ≡ tally skips s.states
unfolding worker_step
skips-worker_step s w x = elim (Option-cases (get_elem? s.states w)) [
  | inl e ↦ rw (e, worker_step) refl
  | inr (state, e) ↦ rw (e, worker_step) (skips-step_as s w x state e)
]

pub skips-run_workers :
    (s : Workers) (schedule : List (ℕ × Exchange))
    → tally skips (run_workers s schedule).states ≡ tally skips s.states
unfolding run_workers
skips-run_workers s [] = refl
skips-run_workers s ((w, x) ∷ schedule) =
    skips-run_workers (worker_step s w x) schedule ∙ skips-worker_step s w x
