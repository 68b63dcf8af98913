-- ===== src/Download/Content.antt =====
-- The file that the workers of client/download.c leave on the disk, after any schedule.
use tele_sync.Prelude.{
  ℕ, zero, suc, ◌+◌, ◌-◌, ◌*◌, ◌/◌, ◌≤◌, ◌<◌, ◌≡◌, ◌≢◌, ◌⊎◌, refl, Bool, take, sym, ap, ◌∙◌, List,
  [], ◌∷◌, some, arith, ◌==◌, ltb, leb, ◌&&◌, length, get_or, get_elem?, replicate,
  length-replicate, Option-cases, Bool-cases, inl, inr,
}
use tele_sync.Download.{
  PieceStatus, piece_available, piece_downloading, piece_finished, DownloadObj, download_obj,
  first_available, set_flag, mark_piece_finished, mark_piece_failed, request_len, Exchange,
  request_failed, short_read, transferred,
}
use tele_sync.Download.Disk.{Disk}
use tele_sync.Download.Loop.{get_none, get_some}
use tele_sync.Download.Workers.{
  WorkerState, idle, fetching, ended, skipped, Workers, step_as, start_workers, get_elem-set,
  first_available-get_elem, Inv,
}
use tele_sync.Download.Exclusion.{step_as-Inv, held_piece}
use tele_sync.Download.Together.{step_as-sizes, start_workers-Inv}
use tele_sync.Download.Offsets.{div_bounds, piece_bounds, length-piece_of, get_or-piece_of}
use tele_sync.Download.Copy.{
  Answer, Turn, Copying, piece_request, brought, written, copy_as, copy_step, run_copy, start_copy,
}
use tele_sync.Upload.{PieceRequest}
use tele_sync.Upload.Honest.{piece_of}

-- What an owner that has the content may answer: nothing, or the piece.
abbrev pub Honest : List ℕ → ℕ → Answer → Type 0
Honest content piece_len answer =
    (req : PieceRequest) (d : List ℕ) → answer req ≡ some d → d ≡ piece_of content piece_len req

-- Every answer in the schedule is honest.
abbrev pub AllHonest : List ℕ → ℕ → List (ℕ × Turn) → Type 0
AllHonest content piece_len [] = Unit {0}
AllHonest content piece_len ((w, turn) ∷ schedule) =
    Honest content piece_len turn.answer × AllHonest content piece_len schedule

-- What is delivered in a turn is written in full.
abbrev pub Stored : Turn → Type 0
Stored turn = (req : PieceRequest) (d : List ℕ) → turn.answer req ≡ some d → length d ≤ turn.stored

-- No write in the schedule is short.
abbrev pub AllStored : List (ℕ × Turn) → Type 0
AllStored [] = Unit {0}
AllStored ((w, turn) ∷ schedule) = Stored turn × AllStored schedule

take_all : (n : ℕ) (d : List ℕ) → length d ≤ n → take n d ≡ d
take_all zero [] h = refl
take_all zero (x ∷ d) h = absurd (omega arith)
take_all (suc n) [] h = refl
take_all (suc n) (x ∷ d) h = ap (x ∷◌) (take_all n d (omega arith))

-- The flags after a step: which pieces are finished.
module _ {s : Workers} (inv : Inv s) (w : ℕ) (k : ℕ) where
  finished_idle :
      get_elem? s.states w ≡ some idle
      → (x : Exchange) → get_elem? (step_as s w x idle).obj.piece_flags k ≡ some piece_finished
      → get_elem? s.obj.piece_flags k ≡ some piece_finished
  unfolding step_as set_flag
  finished_idle g x = elim (Option-cases (first_available s.obj.piece_flags)) [
    | inl e ↦ rw (get_none s.obj e, step_as) (λ h. h)
    | inr (i, e) ↦
        rw (get_some s.obj i e, step_as, get_some s.obj i e)
          (λ h. ground (
            arith,
            get_elem-set s.obj.piece_flags i k piece_available piece_downloading
                (first_available-get_elem s.obj.piece_flags i e),
          ))
  ]

  finished_failed :
      (i : ℕ)
      → get_elem? s.states w ≡ some (fetching i)
      → get_elem? (step_as s w short_read (fetching i)).obj.piece_flags k ≡ some piece_finished
      → get_elem? s.obj.piece_flags k ≡ some piece_finished
  unfolding step_as set_flag mark_piece_failed
  finished_failed i g h = ground (
    arith,
    get_elem-set s.obj.piece_flags i k piece_downloading piece_available (held_piece inv w i g),
  )

  finished_transferred :
      (i : ℕ)
      → get_elem? s.states w ≡ some (fetching i)
      → get_elem? (step_as s w transferred (fetching i)).obj.piece_flags k ≡ some piece_finished
      → (i ≡ k) ⊎ (get_elem? s.obj.piece_flags k ≡ some piece_finished)
  unfolding step_as set_flag mark_piece_finished
  finished_transferred i g h = elim (Bool-cases (i == k)) [
    | inl same ↦ inl (ground arith)
    | inr differ ↦ inr (
        ground (
          arith,
          get_elem-set s.obj.piece_flags i k piece_downloading piece_finished
              (held_piece inv w i g),
        ))
  ]

-- The length and the number of pieces stay.
abbrev pub SameSize : DownloadObj → DownloadObj → Type 0
SameSize a b = (a.file_len ≡ b.file_len) × (a.file_pieces ≡ b.file_pieces)

step_as-SameSize :
    (s : Workers) (w : ℕ) (x : Exchange) (state : WorkerState)
    → SameSize (step_as s w x state).obj s.obj
unfolding step_as set_flag mark_piece_finished mark_piece_failed
step_as-SameSize s w x idle = elim (Option-cases (first_available s.obj.piece_flags)) [
  | inl e ↦ rw (get_none s.obj e, step_as) (refl, refl)
  | inr (i, e) ↦ rw (get_some s.obj i e, step_as, get_some s.obj i e) (refl, refl)
]
step_as-SameSize s w request_failed (fetching i) = (refl, refl)
step_as-SameSize s w short_read (fetching i) = (refl, refl)
step_as-SameSize s w transferred (fetching i) = (refl, refl)
step_as-SameSize s w x (ended ok) = (refl, refl)
step_as-SameSize s w x skipped = (refl, refl)

request_len-SameSize :
    (a b : DownloadObj) (piece_len i : ℕ)
    → SameSize a b
    → request_len a piece_len i ≡ request_len b piece_len i
unfolding request_len
request_len-SameSize a b piece_len i (l, p) = rw (l, p) refl

-- A byte of a finished piece is in the file, and it is that of the content.
abbrev pub Copied : List ℕ → ℕ → Copying → ℕ → Type 0
Copied content piece_len s j =
    get_elem? s.workers.obj.piece_flags (j / piece_len) ≡ some piece_finished
    → (j < length s.file) × (get_or s.file j 0 ≡ get_or content j 0)

pub record CopyInv (content : List ℕ) (piece_len : ℕ) (s : Copying) : Type 0 where
  pub workers : Inv s.workers
  pub size : SameSize s.workers.obj (download_obj (length content) piece_len)
  pub flags :
      length s.workers.obj.piece_flags ≡ (download_obj (length content) piece_len).file_pieces
  pub copied : (j : ℕ) → j < length content → Copied content piece_len s j
  pub fits : length s.file ≤ length content

get_elem-lt :
    (fs : List PieceStatus) (i : ℕ) (a : PieceStatus) → get_elem? fs i ≡ some a → i < length fs
get_elem-lt [] i a h = absurd (cc)
get_elem-lt (f ∷ fs) zero a h = omega arith
get_elem-lt (f ∷ fs) (suc i) a h = omega (arith, get_elem-lt fs i a h)

fresh_flag : (n k : ℕ) → get_elem? (replicate n piece_available) k ≢ some piece_finished
unfolding replicate
fresh_flag zero k h = cc
fresh_flag (suc n) zero h = cc
fresh_flag (suc n) (suc k) h = fresh_flag n k h

module _ (disk : Disk) (content : List ℕ) (piece_len : ℕ) (pos : 0 < piece_len)
    (some_bytes : 0 < length content) where
  -- The write of a piece that was delivered.
  write-Copied :
      {s : Copying} (inv : CopyInv content piece_len s) (w i : ℕ) (d : List ℕ)
      → get_elem? s.workers.states w ≡ some (fetching i)
      → d ≡ piece_of content piece_len (piece_request s.workers.obj piece_len i)
      → (length (disk.write_at s.file (i * piece_len) d) ≤ length content)
        × ((j : ℕ)
            → j < length content
            → (i ≡ j / piece_len)
              ⊎ (get_elem? s.workers.obj.piece_flags (j / piece_len) ≡ some piece_finished)
            → (j < length (disk.write_at s.file (i * piece_len) d))
              × (get_or (disk.write_at s.file (i * piece_len) d) j 0 ≡ get_or content j 0))
  unfolding piece_request
  write-Copied {s} inv w i d g e =
      let obj = download_obj (length content) piece_len in
      let here : i < obj.file_pieces = omega (
        arith,
        get_elem-lt s.workers.obj.piece_flags i _ (held_piece inv.workers w i g),
        inv.flags,
      ) in
      let len = request_len-SameSize s.workers.obj obj piece_len i inv.size in
      let d' : d ≡ piece_of content piece_len (piece_request obj piece_len i) =
        e
        ∙ ap
            (λ n.
              piece_of content piece_len
                (let r : PieceRequest = record { piece_id = i; len = n } in r))
            len in
      let size : length d ≡ request_len obj piece_len i =
        ap length d' ∙ length-piece_of content piece_len pos some_bytes i here in
      let (some_len, inside, short, last) = piece_bounds content piece_len pos some_bytes i here in
      let grown = disk.write_length s.file (i * piece_len) d (omega (arith, size, some_len)) in
      (
        omega (arith, grown, inv.fits, size, inside),
        λ j l which. elim (Bool-cases (leb (i * piece_len) j && ltb j (i * piece_len + length d))) [
          | inl within ↦
              let low : i * piece_len ≤ j = ground arith in
              let high : j < i * piece_len + length d = ground arith in
              (
                omega (arith, grown),
                disk.write_byte s.file (i * piece_len) d j
                    ∙ rw within (
                        ap (λ b. get_or b (j - i * piece_len) 0) d'
                        ∙ get_or-piece_of content piece_len pos some_bytes i j here low
                            (omega (arith, size))),
              )
          | inr outside ↦ elim which [
            | inl own ↦
                let up = last j l (sym own) in
                let start : i * piece_len ≡ j / piece_len * piece_len =
                  ap (λ k. k * piece_len) own in
                let low : i * piece_len ≤ j =
                  omega (arith, (div_bounds j piece_len pos).0, start) in
                let high : j < i * piece_len + length d = omega (arith, up, size) in
                absurd (ground arith)
            | inr before ↦
                let kept = inv.copied j l before in
                (
                  omega (arith, grown, kept.0),
                  disk.write_byte s.file (i * piece_len) d j ∙ rw outside kept.1,
                )
          ]
        ],
      )

  -- A step of the workers, with what it does to the file.
  step-CopyInv :
      {s : Copying} (inv : CopyInv content piece_len s) (w : ℕ) (x : Exchange) (state : WorkerState)
      → get_elem? s.workers.states w ≡ some state
      → (file : List ℕ) → length file ≤ length content
      → ((j : ℕ)
          → j < length content
          → Copied content piece_len
              (record { workers = step_as s.workers w x state; file = file })
              j)
      → CopyInv content piece_len (record { workers = step_as s.workers w x state; file = file })
  step-CopyInv {s} inv w x state g file fits copied =
      let same = step_as-SameSize s.workers w x state in
      record {
        workers = step_as-Inv inv.workers w x state g;
        size = (same.0 ∙ inv.size.0, same.1 ∙ inv.size.1);
        flags = (step_as-sizes s.workers w x state).1 ∙ inv.flags;
        copied = copied;
        fits = fits;
      }

  fetch-CopyInv :
      {s : Copying} (inv : CopyInv content piece_len s) (w : ℕ) (turn : Turn)
      → Honest content piece_len turn.answer
      → Stored turn
      → (i : ℕ) → get_elem? s.workers.states w ≡ some (fetching i)
      → CopyInv content piece_len (copy_as disk piece_len s w turn (fetching i))
  unfolding copy_as brought written
  fetch-CopyInv {s} inv w turn honest stored i g =
      elim (Option-cases (turn.answer (piece_request s.workers.obj piece_len i))) [
        | inl e ↦
            rw (e, written)
              (step-CopyInv inv w short_read (fetching i) g s.file inv.fits
                (λ j l h. inv.copied j l (finished_failed inv.workers w (j / piece_len) i g h)))
        | inr (d, e) ↦
            let wrote =
              write-Copied inv w i d g (honest (piece_request s.workers.obj piece_len i) d e) in
            rw
              (
                e,
                written,
                take_all turn.stored d (stored (piece_request s.workers.obj piece_len i) d e),
              )
              (step-CopyInv inv w transferred (fetching i) g
                (disk.write_at s.file (i * piece_len) d) wrote.0
                (λ j l h. wrote.1 j l (finished_transferred inv.workers w (j / piece_len) i g h)))
      ]

  copy_as-CopyInv :
      {s : Copying} (inv : CopyInv content piece_len s) (w : ℕ) (turn : Turn)
      → Honest content piece_len turn.answer
      → Stored turn
      → (state : WorkerState) → get_elem? s.workers.states w ≡ some state
      → CopyInv content piece_len (copy_as disk piece_len s w turn state)
  unfolding copy_as brought written step_as
  copy_as-CopyInv {s} inv w turn honest stored idle g =
      step-CopyInv inv w short_read idle g s.file inv.fits
        (λ j l h. inv.copied j l (finished_idle inv.workers w (j / piece_len) g short_read h))
  copy_as-CopyInv {s} inv w turn honest stored (fetching i) g =
      fetch-CopyInv inv w turn honest stored i g
  copy_as-CopyInv {s} inv w turn honest stored (ended ok) g =
      step-CopyInv inv w short_read (ended ok) g s.file inv.fits inv.copied
  copy_as-CopyInv {s} inv w turn honest stored skipped g =
      step-CopyInv inv w short_read skipped g s.file inv.fits inv.copied

  pub run_copy-CopyInv :
      (s : Copying) (schedule : List (ℕ × Turn))
      → AllHonest content piece_len schedule
      → AllStored schedule
      → CopyInv content piece_len s
      → CopyInv content piece_len (run_copy disk piece_len s schedule)
  unfolding run_copy copy_step
  run_copy-CopyInv s [] honest stored inv = inv
  run_copy-CopyInv s ((w, turn) ∷ schedule) honest stored inv =
      run_copy-CopyInv (copy_step disk piece_len s w turn) schedule honest.1 stored.1
        (elim (Option-cases (get_elem? s.workers.states w)) [
          | inl e ↦ rw (e, copy_step) inv
          | inr (state, e) ↦
              rw (e, copy_step) (copy_as-CopyInv inv w turn honest.0 stored.0 state e)
        ])

  pub start_copy-CopyInv :
      (my_ip : ℕ) (owners : List (ℕ × Bool))
      → CopyInv content piece_len
          (start_copy my_ip owners (download_obj (length content) piece_len))
  unfolding start_copy start_workers download_obj
  start_copy-CopyInv my_ip owners = record {
    workers = start_workers-Inv my_ip owners (length content) piece_len;
    size = (refl, refl);
    flags = length-replicate _ piece_available;
    copied = λ j l h. absurd (fresh_flag _ (j / piece_len) h);
    fits = omega arith;
  }
