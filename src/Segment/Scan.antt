-- ===== src/Segment/Scan.antt =====
-- `recv_segment` of utility/segment.c against a search for the first "!#".
use tele_sync.Prelude.{
  ℕ, ◌≡◌, refl, ◌∙◌, List, [], ◌∷◌, ◌++◌, Option, none, some, true, false, ◌==◌, ◌&&◌,
  if◌then◌else◌, arith, Bool-cases, inl, inr, ==_iff, sym, ap,
}
use mathlib.Core.List.{append_assoc}
use tele_sync.Segment.{
  receiving, end_bang_seen, bang, start_mark, end_mark, recv_byte, recv_from, recv_segment,
}

abbrev pub cons_fst : ℕ → Option (List ℕ × List ℕ) → Option (List ℕ × List ℕ)
cons_fst c none = none
cons_fst c (some (a, b)) = some (c ∷ a, b)

abbrev pub append_fst : List ℕ → Option (List ℕ × List ℕ) → Option (List ℕ × List ℕ)
append_fst p none = none
append_fst p (some (a, b)) = some (p ++ a, b)

-- The bytes up to the first "!#", that mark included, and the bytes after it.
unfoldable pub split_end : List ℕ → Option (List ℕ × List ℕ)
split_end [] = none
split_end (c ∷ []) = none
split_end (c ∷ d ∷ ds) =
    if c == bang && d == end_mark
    then some (bang ∷ end_mark ∷ [], ds)
    else cons_fst c (split_end (d ∷ ds))

split_end-cons :
    (c : ℕ) (cs : List ℕ) → c == bang ≡ false → split_end (c ∷ cs) ≡ cons_fst c (split_end cs)
unfolding split_end
split_end-cons c [] h = refl
split_end-cons c (d ∷ ds) h = rw h refl

append_fst-cons_fst :
    (p : List ℕ) (c : ℕ) (o : Option (List ℕ × List ℕ))
    → append_fst (p ++ c ∷ []) o ≡ append_fst p (cons_fst c o)
append_fst-cons_fst p c none = refl
append_fst-cons_fst p c (some (a, b)) = rw append_assoc

-- The rounds of the loop inside a segment.
module _ (p : List ℕ) (c : ℕ) (cs : List ℕ) where
  recv_plain :
      c == bang ≡ false → recv_from receiving p (c ∷ cs) ≡ recv_from receiving (p ++ c ∷ []) cs
  unfolding recv_from recv_byte
  recv_plain h = rw h refl

  recv_end : c == end_mark ≡ true → recv_from end_bang_seen p (c ∷ cs) ≡ some (p ++ c ∷ [], cs)
  unfolding recv_from recv_byte
  recv_end h = ground arith

  recv_again :
      c == bang ≡ true
      → recv_from end_bang_seen p (c ∷ cs) ≡ recv_from end_bang_seen (p ++ c ∷ []) cs
  unfolding recv_from recv_byte
  recv_again h = ground arith

  recv_other :
      c == bang ≡ false
      → c == end_mark ≡ false
      → recv_from end_bang_seen p (c ∷ cs) ≡ recv_from receiving (p ++ c ∷ []) cs
  unfolding recv_from recv_byte
  recv_other h k = ground arith

  split_end_marks : c == end_mark ≡ true → split_end (bang ∷ c ∷ cs) ≡ some (bang ∷ c ∷ [], cs)
  unfolding split_end
  split_end_marks h = ground arith

  split_end_plain :
      c == end_mark ≡ false → split_end (bang ∷ c ∷ cs) ≡ cons_fst bang (split_end (c ∷ cs))
  unfolding split_end
  split_end_plain h = rw h refl

append_fst-nil : (o : Option (List ℕ × List ℕ)) → append_fst [] o ≡ o
append_fst-nil none = refl
append_fst-nil (some (a, b)) = refl

Scans : List ℕ → List ℕ → Type 0
Scans xs p = recv_from receiving p xs ≡ append_fst p (split_end xs)

ScansBang : List ℕ → List ℕ → Type 0
ScansBang xs p = recv_from end_bang_seen (p ++ bang ∷ []) xs ≡ append_fst p (split_end (bang ∷ xs))

scan_receiving :
    (c : ℕ) (cs p : List ℕ) → Scans cs (p ++ c ∷ []) → ScansBang cs p → Scans (c ∷ cs) p
unfolding Scans ScansBang recv_from recv_byte
scan_receiving c cs p plain banged = elim (Bool-cases (c == bang)) [
  | inl e ↦ rw ((==_iff c bang).0 e) banged
  | inr e ↦
      recv_plain p c cs e
      ∙ plain
      ∙ append_fst-cons_fst p c (split_end cs)
      ∙ ap (append_fst p) (sym (split_end-cons c cs e))
]

scan_bang :
    (c : ℕ) (cs p : List ℕ)
    → Scans cs ((p ++ bang ∷ []) ++ c ∷ [])
    → ScansBang cs (p ++ bang ∷ [])
    → ScansBang (c ∷ cs) p
unfolding Scans ScansBang
scan_bang c cs p plain banged = elim (Bool-cases (c == end_mark)) [
  | inl e ↦
      recv_end (p ++ bang ∷ []) c cs e
      ∙ rw append_assoc (ap (append_fst p) (sym (split_end_marks p c cs e)))
  | inr e ↦ elim (Bool-cases (c == bang)) [
    | inl b ↦
        recv_again (p ++ bang ∷ []) c cs b
        ∙ rw ((==_iff c bang).0 b) (
            banged
            ∙ append_fst-cons_fst p bang (split_end (bang ∷ cs))
            ∙ ap (append_fst p) (sym (split_end_plain p bang cs refl)))
    | inr b ↦
        recv_other (p ++ bang ∷ []) c cs b e
        ∙ plain
        ∙ append_fst-cons_fst (p ++ bang ∷ []) c (split_end cs)
        ∙ append_fst-cons_fst p bang (cons_fst c (split_end cs))
        ∙ ap (λ o. append_fst p (cons_fst bang o)) (sym (split_end-cons c cs b))
        ∙ ap (append_fst p) (sym (split_end_plain p c cs e))
  ]
]

scan : (xs p : List ℕ) → Scans xs p × ScansBang xs p
unfolding Scans ScansBang recv_from split_end
scan [] p = (refl, refl)
scan (c ∷ cs) p = (
  scan_receiving c cs p (scan cs (p ++ c ∷ [])).0 (scan cs p).1,
  scan_bang c cs p (scan cs ((p ++ bang ∷ []) ++ c ∷ [])).0 (scan cs (p ++ bang ∷ [])).1,
)

-- Once the two start marks have been read, `recv_segment` returns what stands up to the first "!#".
pub recv_segment-split_end :
    (input : List ℕ) → recv_segment (bang ∷ start_mark ∷ input) ≡ split_end input
unfolding recv_segment Scans recv_from recv_byte
recv_segment-split_end input = (scan input []).0 ∙ append_fst-nil (split_end input)
