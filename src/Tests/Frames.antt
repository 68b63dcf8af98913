-- ===== src/Tests/Frames.antt =====
-- utility/segment.c at small inputs. The connection of the tests takes every byte at once.
use tele_sync.Prelude.{
  ℕ, ◌≡◌, refl, List, [], ◌∷◌, ◌++◌, Option, some, length, take, take-append, sym, ap, ◌∙◌, arith,
}
use mathlib.Core.List.{append-nil}
use tele_sync.Segment.{recv_segment, send_segment}
use tele_sync.Segment.Scan.{split_end, recv_segment-split_end}
use tele_sync.Segment.RoundTrip.{frame, closed, unmarked, recv_segment_cut, recv-send_segment}

take_all : List ℕ → List ℕ → List ℕ × Option ℕ
take_all wire buf = (wire ++ buf, some (length buf))

take_all-delivers :
    (wire buf wire' : List ℕ) (n : ℕ)
    → take_all wire buf ≡ (wire', some n)
    → wire' ≡ wire ++ take n buf
unfolding take_all
take_all-delivers wire buf wire' n h =
    let whole : length buf ≡ n = ground arith in
    let same : take n buf ≡ buf =
      ap (λ k. take k buf) (sym whole)
      ∙ ap (take (length buf)) (sym (append-nil buf))
      ∙ take-append buf [] (length buf) refl in
    rw same (ground arith)

take_all-blocks :
    (wire buf wire' : List ℕ) (n : ℕ) → take_all wire buf ≡ (wire', some n) → n ≡ length buf
unfolding take_all
take_all-blocks wire buf wire' n h = ground arith

-- "hi!" ends in the first byte of the end mark.
abbrev hi : List ℕ
hi = b'h' ∷ b'i' ∷ b'!' ∷ []

recv-send_segment_example : (send_segment take_all [] hi).0 ≡ frame hi
unfolding take_all send_segment unmarked
recv-send_segment_example =
    (recv-send_segment take_all (λ wire. wire) take_all-delivers take_all-blocks [] _ hi 7 refl refl
      refl).0

recv_segment_cut_example :
    recv_segment (frame (closed hi ++ hi) ++ []) ≡ some (closed hi, closed hi ++ [])
unfolding unmarked
recv_segment_cut_example = recv_segment_cut hi hi [] refl

recv_segment-split_end_example : recv_segment (frame hi) ≡ split_end (closed hi)
recv_segment-split_end_example = recv_segment-split_end (closed hi)
