-- ===== src/Download/Exclusion.antt =====
-- The workers of client/download.c: their invariant, step by step.
use tele_sync.Prelude.{
  ℕ, ◌<◌, ◌≡◌, refl, Option, none, some, true, false, arith, ==_refl, set, get_elem?, Option-cases,
  inl, inr,
}
use tele_sync.Download.{
  PieceStatus, piece_available, piece_downloading, piece_finished, first_available, set_flag,
  mark_piece_finished, mark_piece_failed, Exchange, request_failed, short_read, transferred,
}
use tele_sync.Download.Loop.{get_none, get_some}
use tele_sync.Download.Workers.{
  WorkerState, idle, fetching, ended, skipped, Workers, step_as, worker_step, tally-set, holds,
  loads, succeeds, fails, is_available, get_elem-set, first_available-get_elem, none_available, Inv,
}

loads_one : (o : Option PieceStatus) → 0 < loads o → o ≡ some piece_downloading
loads_one none h = absurd (omega arith)
loads_one (some piece_available) h = absurd (omega arith)
loads_one (some piece_downloading) h = refl
loads_one (some piece_finished) h = absurd (omega arith)

module _ {s : Workers} (inv : Inv s) (w : ℕ) where
  claim-Inv :
      (i : ℕ)
      → get_elem? s.states w ≡ some idle
      → get_elem? s.obj.piece_flags i ≡ some piece_available
      → Inv (record {
        obj = set_flag s.obj i piece_downloading;
        states = set s.states w (fetching i);
      })
  unfolding set_flag
  claim-Inv i g e = record {
    held = λ j. ground (
      arith,
      tally-set (holds j) s.states w idle (fetching i) g,
      inv.held j,
      get_elem-set s.obj.piece_flags i j piece_available piece_downloading e,
    );
    spent = λ f p. omega (
      arith,
      f,
      p,
      tally-set fails s.states w idle (fetching i) g,
      tally-set succeeds s.states w idle (fetching i) g,
      tally-set is_available s.obj.piece_flags i piece_available piece_downloading e,
      inv.spent,
    );
  }

  stop-Inv :
      get_elem? s.states w ≡ some idle
      → first_available s.obj.piece_flags ≡ none
      → Inv (record s { states = set s.states w (ended true) })
  stop-Inv g e = record {
    held = λ j. omega (arith, tally-set (holds j) s.states w idle (ended true) g, inv.held j);
    spent = λ f p. none_available s.obj.piece_flags e;
  }

  -- The piece that a worker holds is marked as being downloaded.
  pub held_piece :
      (i : ℕ)
      → get_elem? s.states w ≡ some (fetching i)
      → get_elem? s.obj.piece_flags i ≡ some piece_downloading
  held_piece i g =
      let here : holds i (fetching i) ≡ 1 = rw (==_refl i) refl in
      loads_one (get_elem? s.obj.piece_flags i)
        (omega (arith, tally-set (holds i) s.states w (fetching i) idle g, inv.held i, here))

  finish-Inv :
      (i : ℕ)
      → get_elem? s.states w ≡ some (fetching i)
      → Inv (record { obj = set_flag s.obj i piece_finished; states = set s.states w idle })
  unfolding set_flag
  finish-Inv i g =
      let e = held_piece i g in
      record {
        held = λ j. ground (
          arith,
          tally-set (holds j) s.states w (fetching i) idle g,
          inv.held j,
          get_elem-set s.obj.piece_flags i j piece_downloading piece_finished e,
        );
        spent = λ f p. omega (
          arith,
          tally-set fails s.states w (fetching i) idle g,
          tally-set succeeds s.states w (fetching i) idle g,
          tally-set is_available s.obj.piece_flags i piece_downloading piece_finished e,
          inv.spent,
        );
      }

  fail-Inv :
      (i : ℕ)
      → get_elem? s.states w ≡ some (fetching i)
      → Inv
          (record { obj = set_flag s.obj i piece_available; states = set s.states w (ended false) })
  unfolding set_flag
  fail-Inv i g =
      let e = held_piece i g in
      record {
        held = λ j. ground (
          arith,
          tally-set (holds j) s.states w (fetching i) (ended false) g,
          inv.held j,
          get_elem-set s.obj.piece_flags i j piece_downloading piece_available e,
        );
        spent =
            λ f p. absurd (omega (arith, tally-set fails s.states w (fetching i) (ended false) g));
      }

  idle-Inv : (x : Exchange) → get_elem? s.states w ≡ some idle → Inv (step_as s w x idle)
  unfolding step_as
  idle-Inv x g = elim (Option-cases (first_available s.obj.piece_flags)) [
    | inl e ↦ rw (get_none s.obj e, step_as) (stop-Inv g e)
    | inr (i, e) ↦
        rw (get_some s.obj i e, step_as, get_some s.obj i e)
          (claim-Inv i g (first_available-get_elem s.obj.piece_flags i e))
  ]

  pub step_as-Inv :
      (x : Exchange) (state : WorkerState)
      → get_elem? s.states w ≡ some state
      → Inv (step_as s w x state)
  unfolding step_as mark_piece_finished mark_piece_failed
  step_as-Inv x idle g = idle-Inv x g
  step_as-Inv transferred (fetching i) g = finish-Inv i g
  step_as-Inv request_failed (fetching i) g = fail-Inv i g
  step_as-Inv short_read (fetching i) g = fail-Inv i g
  step_as-Inv x (ended ok) g = inv
  step_as-Inv x skipped g = inv

  pub worker_step-Inv : (x : Exchange) → Inv (worker_step s w x)
  unfolding worker_step
  worker_step-Inv x = elim (Option-cases (get_elem? s.states w)) [
    | inl e ↦ rw (e, worker_step) inv
    | inr (state, e) ↦ rw (e, worker_step) (step_as-Inv x state e)
  ]
