-- ===== src/Download/Workers.antt =====
-- The workers of client/download.c together: they share the flags, and a schedule says which of them
-- makes the next step and how its exchange ends. A step is what one critical section does.
use tele_sync.Prelude.{
  ℕ, zero, suc, ◌+◌, ◌<◌, ◌≡◌, refl, List, [], ◌∷◌, Option, none, some, Bool, true, false, arith,
  ◌==◌, if◌then◌else◌, set, get_elem?,
}
use tele_sync.Download.{
  PieceStatus, piece_available, piece_downloading, piece_finished, DownloadObj, first_available,
  get_new_piece, mark_piece_finished, mark_piece_failed, Exchange, request_failed, short_read,
  transferred,
}

-- In its loop, with a piece that it has claimed, ended with status 0 (true) or not, or ended with status 0
-- before its loop, because its owner is the peer itself.
pub data WorkerState : Type 0 where
  idle : WorkerState
  fetching : ℕ → WorkerState
  ended : Bool → WorkerState
  skipped : WorkerState

pub record Workers : Type 0 where
  pub obj : DownloadObj
  pub states : List WorkerState

unfoldable pub step_as : Workers → ℕ → Exchange → WorkerState → Workers
step_as s w x idle = elim (get_new_piece s.obj).1 [
  | none ↦ record s { states = set s.states w (ended true) }
  | some i ↦ record { obj = (get_new_piece s.obj).0; states = set s.states w (fetching i) }
]
step_as s w transferred (fetching i) = record {
  obj = mark_piece_finished s.obj i;
  states = set s.states w idle;
}
step_as s w request_failed (fetching i) = record {
  obj = mark_piece_failed s.obj i;
  states = set s.states w (ended false);
}
step_as s w short_read (fetching i) = record {
  obj = mark_piece_failed s.obj i;
  states = set s.states w (ended false);
}
step_as s w x (ended ok) = s
step_as s w x skipped = s

unfoldable pub worker_step : Workers → ℕ → Exchange → Workers
worker_step s w x = elim (get_elem? s.states w) [ none ↦ s | some state ↦ step_as s w x state ]

unfoldable pub run_workers : Workers → List (ℕ × Exchange) → Workers
run_workers s [] = s
run_workers s ((w, x) ∷ schedule) = run_workers (worker_step s w x) schedule

-- What comes before the loop of `piece_download_task`, for an owner of that address: `ready` says whether
-- both connections and the file could be opened. Nothing that is shared is touched there.
unfoldable pub start_state : ℕ → ℕ → Bool → WorkerState
start_state my_ip owner_ip ready =
    if owner_ip == my_ip then skipped else if ready then idle else ended false

unfoldable pub start_states : ℕ → List (ℕ × Bool) → List WorkerState
start_states my_ip [] = []
start_states my_ip ((owner_ip, ready) ∷ owners) =
    start_state my_ip owner_ip ready ∷ start_states my_ip owners

-- One worker for each owner.
unfoldable pub start_workers : ℕ → List (ℕ × Bool) → DownloadObj → Workers
start_workers my_ip owners obj = record { obj = obj; states = start_states my_ip owners }

-- The owners that are other peers.
unfoldable pub others : ℕ → List (ℕ × Bool) → ℕ
others my_ip [] = 0
others my_ip ((owner_ip, ready) ∷ owners) =
    (if owner_ip == my_ip then 0 else 1) + others my_ip owners

module _ {ℓ} {A : Type ℓ} where
  unfoldable pub tally : (A → ℕ) → List A → ℕ
  tally f [] = 0
  tally f (x ∷ xs) = f x + tally f xs

  -- A write moves the sum by the difference of the two values.
  pub tally-set :
      (f : A → ℕ) (xs : List A) (i : ℕ) (old new : A)
      → get_elem? xs i ≡ some old
      → tally f (set xs i new) + f old ≡ tally f xs + f new
  unfolding tally
  tally-set f [] i old new h = absurd (cc)
  tally-set f (x ∷ xs) zero old new h = ground arith
  tally-set f (x ∷ xs) (suc i) old new h = omega (arith, tally-set f xs i old new h)

abbrev pub holds : ℕ → WorkerState → ℕ
holds i idle = 0
holds i (fetching j) = if j == i then 1 else 0
holds i (ended ok) = 0
holds i skipped = 0

abbrev pub loads : Option PieceStatus → ℕ
loads (some piece_downloading) = 1
loads (some piece_available) = 0
loads (some piece_finished) = 0
loads none = 0

abbrev pub succeeds : WorkerState → ℕ
succeeds idle = 0
succeeds (fetching i) = 0
succeeds (ended true) = 1
succeeds (ended false) = 0
succeeds skipped = 0

abbrev pub fails : WorkerState → ℕ
fails idle = 0
fails (fetching i) = 0
fails (ended true) = 0
fails (ended false) = 1
fails skipped = 0

abbrev pub skips : WorkerState → ℕ
skips idle = 0
skips (fetching i) = 0
skips (ended ok) = 0
skips skipped = 1

-- What a worker may still do, in steps.
abbrev pub work_left : WorkerState → ℕ
work_left idle = 2
work_left (fetching i) = 3
work_left (ended ok) = 0
work_left skipped = 0

abbrev pub is_available : PieceStatus → ℕ
is_available piece_available = 1
is_available piece_downloading = 0
is_available piece_finished = 0

pub get_elem-set :
    (fs : List PieceStatus) (i j : ℕ) (old new : PieceStatus)
    → get_elem? fs i ≡ some old
    → get_elem? (set fs i new) j ≡ (if i == j then some new else get_elem? fs j)
get_elem-set [] i j old new h = absurd (cc)
get_elem-set (f ∷ fs) zero zero old new h = ground arith
get_elem-set (f ∷ fs) zero (suc j) old new h = ground arith
get_elem-set (f ∷ fs) (suc i) zero old new h = ground arith
get_elem-set (f ∷ fs) (suc i) (suc j) old new h = ground (arith, get_elem-set fs i j old new h)

pub first_available-get_elem :
    (fs : List PieceStatus) (i : ℕ)
    → first_available fs ≡ some i
    → get_elem? fs i ≡ some piece_available
unfolding first_available
first_available-get_elem [] i h = absurd (cc)
first_available-get_elem (piece_available ∷ fs) zero h = refl
first_available-get_elem (piece_available ∷ fs) (suc i) h = absurd (ground arith)
first_available-get_elem (piece_downloading ∷ fs) zero h = absurd (ground arith)
first_available-get_elem (piece_downloading ∷ fs) (suc i) h =
    ground (arith, first_available-get_elem fs i)
first_available-get_elem (piece_finished ∷ fs) zero h = absurd (ground arith)
first_available-get_elem (piece_finished ∷ fs) (suc i) h =
    ground (arith, first_available-get_elem fs i)

pub none_available : (fs : List PieceStatus) → first_available fs ≡ none → tally is_available fs ≡ 0
unfolding first_available tally
none_available [] h = refl
none_available (piece_available ∷ fs) h = absurd (cc)
none_available (piece_downloading ∷ fs) h = ground (arith, none_available fs)
none_available (piece_finished ∷ fs) h = ground (arith, none_available fs)

-- A piece that is being downloaded has one worker, any other piece has none; and if a worker has left
-- its loop well and none has failed, no piece is left to claim.
pub record Inv (s : Workers) : Type 0 where
  pub held : (i : ℕ) → tally (holds i) s.states ≡ loads (get_elem? s.obj.piece_flags i)
  pub spent :
      (tally fails s.states ≡ 0)
      → 0 < tally succeeds s.states
      → tally is_available s.obj.piece_flags ≡ 0
