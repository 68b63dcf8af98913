-- ===== src/Download/Loop.antt =====
-- The loop of a worker of client/download.c against one pass over the flags.
use tele_sync.Prelude.{
  ℕ, zero, suc, ◌<◌, ◌≡◌, ◌≢◌, ◌⊎◌, refl, ap, ◌∙◌, List, [], ◌∷◌, none, some, Bool, true, false,
  arith, set, Option-cases, inl, inr,
}
use tele_sync.Download.{
  PieceStatus, piece_available, piece_downloading, piece_finished, DownloadObj, first_available,
  set_flag, get_new_piece, mark_piece_finished, mark_piece_failed, Exchange, request_failed,
  short_read, transferred, download_loop,
}

-- One pass: every available piece is fetched in turn, up to the first exchange that fails.
unfoldable pub pass : (ℕ → Exchange) → List PieceStatus → List PieceStatus × Bool
pass exchange [] = ([], true)
pass exchange (piece_available ∷ fs) = elim (exchange 0) [
  | transferred ↦
      (piece_finished ∷ (pass (λ i. exchange (suc i)) fs).0, (pass (λ i. exchange (suc i)) fs).1)
  | _ ↦ (piece_available ∷ fs, false)
]
pass exchange (piece_downloading ∷ fs) =
    (piece_downloading ∷ (pass (λ i. exchange (suc i)) fs).0, (pass (λ i. exchange (suc i)) fs).1)
pass exchange (piece_finished ∷ fs) =
    (piece_finished ∷ (pass (λ i. exchange (suc i)) fs).0, (pass (λ i. exchange (suc i)) fs).1)

unfoldable pub available : List PieceStatus → ℕ
available [] = 0
available (piece_available ∷ fs) = suc (available fs)
available (piece_downloading ∷ fs) = available fs
available (piece_finished ∷ fs) = available fs

set-set : (fs : List PieceStatus) (i : ℕ) (a b : PieceStatus) → set (set fs i a) i b ≡ set fs i b
set-set [] i a b = refl
set-set (f ∷ fs) zero a b = refl
set-set (f ∷ fs) (suc i) a b = ap (λ xs. f ∷ xs) (set-set fs i a b)

pass-none :
    (exchange : ℕ → Exchange) (fs : List PieceStatus)
    → first_available fs ≡ none
    → pass exchange fs ≡ (fs, true)
unfolding pass first_available
pass-none exchange [] h = refl
pass-none exchange (piece_available ∷ fs) h = cc
pass-none exchange (piece_downloading ∷ fs) h = ground (arith, pass-none (λ i. exchange (suc i)) fs)
pass-none exchange (piece_finished ∷ fs) h = ground (arith, pass-none (λ i. exchange (suc i)) fs)

pass_next :
    (exchange : ℕ → Exchange) (fs : List PieceStatus) (k : ℕ)
    → first_available fs ≡ some k
    → exchange k ≡ transferred
    → (pass exchange (set fs k piece_finished) ≡ pass exchange fs)
      × (suc (available (set fs k piece_finished)) ≡ available fs)
unfolding pass first_available available
pass_next exchange [] k h e = absurd (cc)
pass_next exchange (piece_available ∷ fs) zero h e = (rw (e, pass) refl, refl)
pass_next exchange (piece_available ∷ fs) (suc k) h e = absurd (ground arith)
pass_next exchange (piece_downloading ∷ fs) zero h e = absurd (ground arith)
pass_next exchange (piece_downloading ∷ fs) (suc k) h e =
    let rest = pass_next (λ i. exchange (suc i)) fs k (ground arith) e in
    (ap (λ (r : List PieceStatus × Bool). (piece_downloading ∷ r.0, r.1)) rest.0, rest.1)
pass_next exchange (piece_finished ∷ fs) zero h e = absurd (ground arith)
pass_next exchange (piece_finished ∷ fs) (suc k) h e =
    let rest = pass_next (λ i. exchange (suc i)) fs k (ground arith) e in
    (ap (λ (r : List PieceStatus × Bool). (piece_finished ∷ r.0, r.1)) rest.0, rest.1)

pass_failed :
    (exchange : ℕ → Exchange) (fs : List PieceStatus) (k : ℕ)
    → first_available fs ≡ some k
    → exchange k ≢ transferred
    → pass exchange fs ≡ (set fs k piece_available, false)
unfolding pass first_available
pass_failed exchange [] k h e = absurd (cc)
pass_failed exchange (piece_available ∷ fs) zero h e = ground arith
pass_failed exchange (piece_available ∷ fs) (suc k) h e = absurd (ground arith)
pass_failed exchange (piece_downloading ∷ fs) zero h e = absurd (ground arith)
pass_failed exchange (piece_downloading ∷ fs) (suc k) h e =
    let rest = pass_failed (λ i. exchange (suc i)) fs k (ground arith) e in
    ap (λ (r : List PieceStatus × Bool). (piece_downloading ∷ r.0, r.1)) rest
pass_failed exchange (piece_finished ∷ fs) zero h e = absurd (ground arith)
pass_failed exchange (piece_finished ∷ fs) (suc k) h e =
    let rest = pass_failed (λ i. exchange (suc i)) fs k (ground arith) e in
    ap (λ (r : List PieceStatus × Bool). (piece_finished ∷ r.0, r.1)) rest

Exchange-cases : (x : Exchange) → (x ≡ transferred) ⊎ ((x ≡ request_failed) ⊎ (x ≡ short_read))
Exchange-cases transferred = inl refl
Exchange-cases request_failed = inr (inl refl)
Exchange-cases short_read = inr (inr refl)

pub get_none :
    (obj : DownloadObj) → first_available obj.piece_flags ≡ none → get_new_piece obj ≡ (obj, none)
unfolding get_new_piece
get_none obj h = ground (arith)

pub get_some :
    (obj : DownloadObj) (k : ℕ)
    → first_available obj.piece_flags ≡ some k
    → get_new_piece obj ≡ (set_flag obj k piece_downloading, some k)
unfolding get_new_piece
get_some obj k h = rw (h, get_new_piece) refl

-- The object after a piece that was claimed has been given a status.
settled :
    (obj : DownloadObj) (k : ℕ) (status : PieceStatus)
    → set_flag (set_flag obj k piece_downloading) k status ≡ set_flag obj k status
unfolding set_flag
settled obj k status =
    ap (λ fs. let o : DownloadObj = record obj { piece_flags = fs } in o)
      (set-set obj.piece_flags k piece_downloading status)

-- A worker alone, with a round for each available piece and one more, does what one pass over the
-- flags does: it fetches the available pieces in order, stops at the first that fails, which it makes
-- available again, and reports success if there is none.
pub download_loop-pass :
    (fuel : ℕ) (exchange : ℕ → Exchange) (obj : DownloadObj)
    → available obj.piece_flags < fuel
    → download_loop fuel exchange obj ≡ (
      record obj { piece_flags = (pass exchange obj.piece_flags).0 },
      (pass exchange obj.piece_flags).1,
    )
unfolding download_loop set_flag mark_piece_finished mark_piece_failed
download_loop-pass zero exchange obj enough = absurd (omega arith)
download_loop-pass (suc fuel) exchange obj enough =
    elim (Option-cases (first_available obj.piece_flags)) [
      | inl e ↦
          rw (get_none obj e, download_loop, get_none obj e, pass-none exchange obj.piece_flags e)
            refl
      | inr (k, e) ↦
          let fs = obj.piece_flags in
          elim (Exchange-cases (exchange k)) [
            | inl x ↦
                let next = pass_next exchange fs k e x in
                let rest =
                  download_loop-pass fuel exchange (set_flag obj k piece_finished)
                    (omega (arith, next.1)) in
                rw
                  (
                    get_some obj k e,
                    download_loop,
                    x,
                    get_some obj k e,
                    settled obj k piece_finished,
                  )
                  (rest ∙ rw next.0 refl)
            | inr (inl x) ↦
                rw
                  (
                    get_some obj k e,
                    download_loop,
                    x,
                    get_some obj k e,
                    settled obj k piece_available,
                    pass_failed exchange fs k e (λ y. cc),
                  )
                  refl
            | inr (inr x) ↦
                rw
                  (
                    get_some obj k e,
                    download_loop,
                    x,
                    get_some obj k e,
                    settled obj k piece_available,
                    pass_failed exchange fs k e (λ y. cc),
                  )
                  refl
          ]
    ]
