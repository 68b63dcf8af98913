-- ===== src/Segment/RoundTrip.antt =====
-- `send_segment` of utility/segment.c against `recv_segment`, frame by frame.
use tele_sync.Prelude.{
  ℕ, ◌+◌, ◌≡◌, refl, ◌∙◌, sym, ap, List, [], ◌∷◌, ◌++◌, Option, none, some, Bool, true, ◌==◌, ◌&&◌,
  not, length, length-append, arith, take, take-append, concat, map,
}
use mathlib.Core.List.{append_assoc, append-nil}
use tele_sync.Segment.{
  bang, start_mark, end_mark, recv_byte, recv_from, recv_segment, send_segment, send_end, send_buf,
  send_last,
}
use tele_sync.Segment.Scan.{split_end, recv_segment-split_end}

-- No '!' of the payload is followed by '#'.
unfoldable pub unmarked : List ℕ → Bool
unmarked [] = true
unmarked (c ∷ []) = true
unmarked (c ∷ d ∷ ds) = not (c == bang && d == end_mark) && unmarked (d ∷ ds)

-- The marks that close a frame, which `recv_segment` leaves in the buffer.
abbrev pub closed : List ℕ → List ℕ
closed p = p ++ bang ∷ end_mark ∷ []

abbrev pub frame : List ℕ → List ℕ
frame p = bang ∷ start_mark ∷ closed p

split_end-closed :
    (p rest : List ℕ) → unmarked p ≡ true → split_end (closed p ++ rest) ≡ some (closed p, rest)
unfolding split_end unmarked
split_end-closed [] rest h = refl
split_end-closed (c ∷ []) rest h = ground arith
split_end-closed (c ∷ d ∷ ds) rest h = ground (arith, split_end-closed (d ∷ ds) rest)

-- A frame with an unmarked payload is received whole, and nothing behind it is touched.
pub recv_segment-frame :
    (p rest : List ℕ) → unmarked p ≡ true → recv_segment (frame p ++ rest) ≡ some (closed p, rest)
recv_segment-frame p rest h = recv_segment-split_end (closed p ++ rest) ∙ split_end-closed p rest h

-- A payload that holds the end mark is cut there, and its tail stays on the connection.
pub recv_segment_cut :
    (a b rest : List ℕ)
    → unmarked a ≡ true
    → recv_segment (frame (closed a ++ b) ++ rest) ≡ some (closed a, closed b ++ rest)
recv_segment_cut a b rest h =
    let e : closed (closed a ++ b) ++ rest ≡ closed a ++ (closed b ++ rest) = simp append_assoc in
    rw e (recv_segment-frame a (closed b ++ rest) h)

-- No byte is a '!'.
unfoldable pub no_bang : List ℕ → Bool
no_bang [] = true
no_bang (c ∷ cs) = not (c == bang) && no_bang cs

-- Noise without a '!' in front of the input is skipped, whatever the input is.
pub recv_segment_noise :
    (noise input : List ℕ)
    → no_bang noise ≡ true
    → recv_segment (noise ++ input) ≡ recv_segment input
unfolding recv_segment recv_from recv_byte no_bang
recv_segment_noise [] input h = refl
recv_segment_noise (c ∷ cs) input h = ground (arith, recv_segment_noise cs input)

-- As many calls of `recv_segment` as there are frames.
unfoldable pub recv_segments : List (List ℕ) → List ℕ → Option (List (List ℕ) × List ℕ)
recv_segments [] input = some ([], input)
recv_segments (p ∷ ps) input = elim (recv_segment input) [
  | none ↦ none
  | some (buf, left) ↦ elim (recv_segments ps left) [
    | none ↦ none
    | some (bufs, last) ↦ some (buf ∷ bufs, last)
  ]
]

unfoldable pub all_unmarked : List (List ℕ) → Bool
all_unmarked [] = true
all_unmarked (p ∷ ps) = unmarked p && all_unmarked ps

-- A sequence of frames is received in order, one segment for each.
pub recv_segments-frames :
    (ps : List (List ℕ)) (rest : List ℕ)
    → all_unmarked ps ≡ true
    → recv_segments ps (concat (map frame ps) ++ rest) ≡ some (map closed ps, rest)
unfolding recv_segments all_unmarked concat
recv_segments-frames [] rest h = refl
recv_segments-frames (p ∷ ps) rest h = rw (
  append_assoc (closed p) (concat (map frame ps)) rest,
  recv_segments,
  recv_segment-frame p (concat (map frame ps) ++ rest) (ground arith),
  recv_segments-frames ps rest (ground arith),
)

-- `wire` is what a connection has taken so far: a `send` that succeeds has taken as many bytes as it
-- returns. `blocks` says that the socket makes a `send` wait until all its bytes are taken.
module _ {S : Type 0} (send : S → List ℕ → S × Option ℕ) (wire : S → List ℕ)
    (delivers : (conn : S) (buf : List ℕ) (conn' : S) (n : ℕ)
      → send conn buf ≡ (conn', some n)
      → wire conn' ≡ wire conn ++ take n buf)
    (blocks : (conn : S) (buf : List ℕ) (conn' : S) (n : ℕ)
      → send conn buf ≡ (conn', some n)
      → n ≡ length buf) where
  takes_all :
      (conn : S) (buf : List ℕ) (conn' : S) (n : ℕ)
      → send conn buf ≡ (conn', some n)
      → wire conn' ≡ wire conn ++ buf
  takes_all conn buf conn' n h =
      let whole : take n buf ≡ buf =
        ap (λ k. take k buf) (blocks conn buf conn' n h)
        ∙ ap (take (length buf)) (sym (append-nil buf))
        ∙ take-append buf [] (length buf) refl in
      delivers conn buf conn' n h ∙ ap (wire conn ++◌) whole

  send_end_inv :
      (len : ℕ) (r : S × Option ℕ) (conn' : S) (n : ℕ)
      → send_end send len r ≡ (conn', some n)
      → (k : ℕ) × (r ≡ (conn', some k)) × (n ≡ len + 4)
  unfolding send_end
  send_end_inv len (c, none) conn' n h = cc
  send_end_inv len (c, some k) conn' n h = (k, cc, ground arith)

  send_last_inv :
      (r : S × Option ℕ) (conn' : S) (n : ℕ)
      → send_last send r ≡ (conn', some n)
      → (c : S) × (k : ℕ) × (r ≡ (c, some k)) × (wire conn' ≡ wire c ++ bang ∷ end_mark ∷ [])
  unfolding send_last
  send_last_inv (c, none) conn' n h = cc
  send_last_inv (c, some k) conn' n h = (c, k, refl, takes_all c _ conn' n h)

  send_buf_inv :
      (buf : List ℕ) (r : S × Option ℕ) (conn' : S) (n : ℕ)
      → send_buf send buf r ≡ (conn', some n)
      → (c : S) × (k : ℕ) × (r ≡ (c, some k)) × (wire conn' ≡ wire c ++ buf)
  unfolding send_buf
  send_buf_inv buf (c, none) conn' n h = cc
  send_buf_inv buf (c, some k) conn' n h = (c, k, refl, takes_all c _ conn' n h)

  sent_frame :
      (conn conn' : S) (buf : List ℕ) (n : ℕ)
      → send_segment send conn buf ≡ (conn', some n)
      → (wire conn' ≡ wire conn ++ frame buf) × (n ≡ length (frame buf))
  unfolding send_segment
  sent_frame conn conn' buf n h =
      let (k, e, count) = send_end_inv _ _ conn' n h in
      let (c₂, k₂, e₂, w₂) = send_last_inv _ conn' k e in
      let (c₁, k₁, e₁, w₁) = send_buf_inv buf _ c₂ k₂ e₂ in
      (
        w₂
            ∙ ap (λ w. w ++ bang ∷ end_mark ∷ [])
                (w₁ ∙ ap (λ w. w ++ buf) (takes_all conn _ c₁ k₁ e₁))
            ∙ simp append_assoc,
        omega (arith, count, length-append {0} buf (bang ∷ end_mark ∷ [])),
      )

  -- If each `send` that succeeds takes all its bytes, nothing was on the wire, and the payload holds no end
  -- mark, then a segment that `send_segment` reports as sent has put one frame on the wire, of the length
  -- reported, and there `recv_segment` finds the payload.
  pub recv-send_segment :
      (conn conn' : S) (buf : List ℕ) (n : ℕ)
      → wire conn ≡ []
      → unmarked buf ≡ true
      → send_segment send conn buf ≡ (conn', some n)
      → (wire conn' ≡ frame buf)
        × (n ≡ length (frame buf))
        × (recv_segment (wire conn') ≡ some (closed buf, []))
  recv-send_segment conn conn' buf n idle plain h =
      let (w, count) = sent_frame conn conn' buf n h in
      let w' : wire conn' ≡ frame buf = w ∙ ap (λ x. x ++ frame buf) idle in
      (w', count, rw w' (ap recv_segment (sym (append-nil _)) ∙ recv_segment-frame buf [] plain))
