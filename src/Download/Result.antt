-- ===== src/Download/Result.antt =====
-- A download of client/download.c from its start to its end: workers, pieces and bytes.
use tele_sync.Prelude.{
  Bool, ℕ, ◌-◌, ◌/◌, ◌<◌, ◌≡◌, refl, sym, ap, ◌∙◌, List, [], ◌∷◌, none, some, arith, length,
  get_or_ext, get_elem?, Option-cases, inl, inr,
}
use tele_sync.Download.{DownloadObj, download_obj, Exchange, short_read}
use tele_sync.Download.Workers.{
  WorkerState, worker_step, run_workers, start_workers, tally, fails, work_left, others,
}
use tele_sync.Download.Disk.{Disk}
use tele_sync.Download.Together.{run_workers-finished}
use tele_sync.Download.Offsets.{piece_exists}
use tele_sync.Download.Copy.{
  Turn, Copying, brought, outcome, copy_as, copy_step, run_copy, start_copy,
}
use tele_sync.Download.Content.{AllHonest, AllStored, run_copy-CopyInv, start_copy-CopyInv}

-- How the exchange of a step ends.
unfoldable pub outcome_at : ℕ → Copying → ℕ → Turn → Exchange
outcome_at piece_len s w turn = elim (get_elem? s.workers.states w) [
  | none ↦ short_read
  | some state ↦ outcome (brought s.workers.obj piece_len turn.answer state)
]

unfoldable pub exchanges : Disk → ℕ → Copying → List (ℕ × Turn) → List (ℕ × Exchange)
exchanges disk piece_len s [] = []
exchanges disk piece_len s ((w, turn) ∷ schedule) =
    (w, outcome_at piece_len s w turn)
    ∷ exchanges disk piece_len (copy_step disk piece_len s w turn) schedule

outcome_known :
    (piece_len : ℕ) (s : Copying) (w : ℕ) (turn : Turn) (state : WorkerState)
    → get_elem? s.workers.states w ≡ some state
    → outcome_at piece_len s w turn ≡ outcome (brought s.workers.obj piece_len turn.answer state)
unfolding outcome_at
outcome_known piece_len s w turn state e = rw (e, outcome_at) refl

copy_step-workers :
    (disk : Disk) (piece_len : ℕ) (s : Copying) (w : ℕ) (turn : Turn)
    → (copy_step disk piece_len s w turn).workers
      ≡ worker_step s.workers w (outcome_at piece_len s w turn)
unfolding copy_step copy_as worker_step
copy_step-workers disk piece_len s w turn = elim (Option-cases (get_elem? s.workers.states w)) [
  | inl e ↦ rw (e, copy_step, worker_step) refl
  | inr (state, e) ↦ rw (e, copy_step, worker_step, outcome_known piece_len s w turn state e) refl
]

-- With the file left out, the workers run as in Workers.antt.
run_copy-workers :
    (disk : Disk) (piece_len : ℕ) (s : Copying) (schedule : List (ℕ × Turn))
    → (run_copy disk piece_len s schedule).workers
      ≡ run_workers s.workers (exchanges disk piece_len s schedule)
unfolding run_copy run_workers exchanges
run_copy-workers disk piece_len s [] = refl
run_copy-workers disk piece_len s ((w, turn) ∷ schedule) =
    run_copy-workers disk piece_len (copy_step disk piece_len s w turn) schedule
    ∙ ap
        (λ ws.
          run_workers ws (exchanges disk piece_len (copy_step disk piece_len s w turn) schedule))
        (copy_step-workers disk piece_len s w turn)

start_copy-workers :
    (my_ip : ℕ) (owners : List (ℕ × Bool)) (obj : DownloadObj)
    → (start_copy my_ip owners obj).workers ≡ start_workers my_ip owners obj
unfolding start_copy
start_copy-workers my_ip owners obj = refl

-- If all owners serve the same content, which is not empty, and no write to the disk is short, then once
-- each of the workers has ended, at least one of them for an owner that is another peer, and none has
-- failed, the file on the disk is that content.
pub run_copy-content :
    (disk : Disk) (content : List ℕ) (piece_len my_ip : ℕ) (owners : List (ℕ × Bool))
    (schedule : List (ℕ × Turn))
    → 0 < piece_len
    → 0 < length content
    → 0 < others my_ip owners
    → AllHonest content piece_len schedule
    → AllStored schedule
    → tally work_left
        (run_copy disk piece_len
          (start_copy my_ip owners (download_obj (length content) piece_len))
          schedule).workers.states
      ≡ 0
    → tally fails
        (run_copy disk piece_len
          (start_copy my_ip owners (download_obj (length content) piece_len))
          schedule).workers.states
      ≡ 0
    → (run_copy disk piece_len
        (start_copy my_ip owners (download_obj (length content) piece_len))
        schedule).file
      ≡ content
run_copy-content disk content piece_len my_ip owners schedule pos some_bytes workers honest stored
      no_work no_fail =
    let s = start_copy my_ip owners (download_obj (length content) piece_len) in
    let inv =
      run_copy-CopyInv disk content piece_len pos some_bytes s schedule honest stored
        (start_copy-CopyInv disk content piece_len pos some_bytes my_ip owners) in
    let plan = exchanges disk piece_len s schedule in
    let same =
      run_copy-workers disk piece_len s schedule
      ∙ ap (λ ws. run_workers ws plan)
          (start_copy-workers my_ip owners (download_obj (length content) piece_len)) in
    let finished =
      run_workers-finished my_ip owners (length content) piece_len plan workers
        (ap (λ ws. tally work_left ws.states) (sym same) ∙ no_work)
        (ap (λ ws. tally fails ws.states) (sym same) ∙ no_fail) in
    let copied = λ (j : ℕ) (l : j < length content). inv.copied j l (
      ap (λ ws. get_elem? ws.obj.piece_flags (j / piece_len)) same
      ∙ finished (j / piece_len) (piece_exists content piece_len pos some_bytes j l)) in
    let whole = (copied (length content - 1) (omega arith)).0 in
    get_or_ext _ content 0 (omega (arith, inv.fits)) (λ j l. (copied j l).1)
