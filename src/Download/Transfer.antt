-- ===== src/Download/Transfer.antt =====
-- `my_read` of client/download.c on a stream that delivers in parts. `read` is an argument: it gives
-- the stream after the call and the bytes, or `none` for -1.
use tele_sync.Prelude.{
  ℕ, zero, suc, ◌+◌, ◌-◌, ◌≤◌, ◌<◌, ◌≡◌, ◌⊎◌, refl, sym, ap, subst, ◌∙◌, List, [], ◌∷◌, ◌++◌,
  Option, none, some, arith, length, length-append, inl, inr,
}
use mathlib.Core.List.{append_assoc, append-nil}

-- The bytes of a read; an error delivers none.
abbrev pub bytes : Option (List ℕ) → List ℕ
bytes none = []
bytes (some d) = d

module _ {ℓ} {Stream : Type ℓ} (read : Stream → ℕ → Stream × Option (List ℕ)) where
  -- The loop: `left` bytes are missing, `buf` holds those that have come.
  unfoldable pub read_loop : ℕ → Stream → (try_n left : ℕ) → List ℕ → Stream × List ℕ
  read_loop zero s try_n left buf = (s, buf)
  read_loop (suc fuel) s try_n zero buf = (s, buf)
  read_loop (suc fuel) s try_n (suc left) buf = elim (read s (suc left)).1 [
    | none ↦ ((read s (suc left)).0, buf)
    | some d ↦ elim d [
      | [] ↦ elim try_n [
        | zero ↦ ((read s (suc left)).0, buf)
        | suc k ↦ read_loop fuel (read s (suc left)).0 k (suc left) buf
      ]
      | c ∷ cs ↦
          read_loop fuel (read s (suc left)).0 try_n (suc left - suc (length cs)) (buf ++ c ∷ cs)
    ]
  ]

  -- `my_read` starts with 10 empty reads that it puts up with.
  unfoldable pub my_read : Stream → ℕ → Stream × List ℕ
  my_read s len = read_loop (len + 11) s 10 len []

  -- One round of the loop, by what the read comes to.
  module _ (fuel : ℕ) (s : Stream) (left : ℕ) (buf : List ℕ) where
    loop_failed :
        (try_n : ℕ)
        → (read s (suc left)).1 ≡ none
        → read_loop (suc fuel) s try_n (suc left) buf ≡ ((read s (suc left)).0, buf)
    unfolding read_loop
    loop_failed try_n e = rw (e, read_loop) refl

    loop_given_up :
        (read s (suc left)).1 ≡ some []
        → read_loop (suc fuel) s zero (suc left) buf ≡ ((read s (suc left)).0, buf)
    unfolding read_loop
    loop_given_up e = rw (e, read_loop) refl

    loop_empty :
        (k : ℕ)
        → (read s (suc left)).1 ≡ some []
        → read_loop (suc fuel) s (suc k) (suc left) buf
          ≡ read_loop fuel (read s (suc left)).0 k (suc left) buf
    unfolding read_loop
    loop_empty k e = rw (e, read_loop) refl

    loop_got :
        (try_n c : ℕ) (cs : List ℕ)
        → (read s (suc left)).1 ≡ some (c ∷ cs)
        → read_loop (suc fuel) s try_n (suc left) buf
          ≡ read_loop fuel (read s (suc left)).0 try_n (suc left - suc (length cs)) (buf ++ c ∷ cs)
    unfolding read_loop
    loop_got try_n c cs e = rw (e, read_loop) refl

  read-cases :
      (o : Option (List ℕ))
      → (o ≡ none) ⊎ ((o ≡ some []) ⊎ ((c : ℕ) × (cs : List ℕ) × (o ≡ some (c ∷ cs))))
  read-cases none = inl refl
  read-cases (some []) = inr (inl refl)
  read-cases (some (c ∷ cs)) = inr (inr (c, cs, refl))

  -- The fuel is enough: with more of it the loop does the same.
  read_loop-fuel :
      (f g : ℕ) (s : Stream) (try_n left : ℕ) (buf : List ℕ)
      → left + try_n < f
      → left + try_n < g
      → read_loop f s try_n left buf ≡ read_loop g s try_n left buf
  unfolding read_loop
  read_loop-fuel zero g s try_n left buf hf hg = absurd (omega arith)
  read_loop-fuel (suc f) zero s try_n left buf hf hg = absurd (omega arith)
  read_loop-fuel (suc f) (suc g) s try_n zero buf hf hg = refl
  read_loop-fuel (suc f) (suc g) s try_n (suc left) buf hf hg =
      elim (read-cases (read s (suc left)).1) [
        | inl e ↦ loop_failed f s left buf try_n e ∙ sym (loop_failed g s left buf try_n e)
        | inr (inl e) ↦
            elim try_n
                as (λ t.
                  suc left + t < suc f
                  → suc left + t < suc g
                  → read_loop (suc f) s t (suc left) buf ≡ read_loop (suc g) s t (suc left) buf) [
                    | zero ↦
                        λ hf hg. loop_given_up f s left buf e ∙ sym (loop_given_up g s left buf e)
                    | suc k ↦ λ hf hg.
                        loop_empty f s left buf k e
                        ∙ read_loop-fuel f g (read s (suc left)).0 k (suc left) buf (omega arith)
                            (omega arith)
                        ∙ sym (loop_empty g s left buf k e)
                  ]
              hf hg
        | inr (inr (c, cs, e)) ↦
            loop_got f s left buf try_n c cs e
            ∙ read_loop-fuel f g (read s (suc left)).0 try_n (suc left - suc (length cs))
                (buf ++ c ∷ cs) (omega arith) (omega arith)
            ∙ sym (loop_got g s left buf try_n c cs e)
      ]

  -- `pending` gives the bytes that a stream will still deliver. A read takes them in order, and no more
  -- than were asked for.
  module _ (pending : Stream → List ℕ)
      (delivers : (s : Stream) (n : ℕ)
        → (length (bytes (read s n).1) ≤ n)
          × (pending s ≡ bytes (read s n).1 ++ pending (read s n).0)) where
    -- What a run of the loop owes its caller.
    Served : Stream → ℕ → List ℕ → Stream × List ℕ → Type 0
    Served s left buf r = (length r.1 ≤ length buf + left) × (buf ++ pending s ≡ r.1 ++ pending r.0)

    Served-now :
        (s : Stream) (left : ℕ) (buf : List ℕ)
        → bytes (read s left).1 ≡ []
        → Served s left buf ((read s left).0, buf)
    unfolding Served
    Served-now s left buf e = (
      omega arith,
      ap (λ d. buf ++ d) ((delivers s left).1 ∙ ap (λ d. d ++ pending (read s left).0) e),
    )

    Served-then :
        (s : Stream) (left left' : ℕ) (buf buf' d : List ℕ) (r : Stream × List ℕ)
        → bytes (read s left).1 ≡ d
        → buf' ≡ buf ++ d
        → left' ≡ left - length d
        → Served (read s left).0 left' buf' r
        → Served s left buf r
    unfolding Served
    Served-then s left left' buf buf' d r e b l rest =
        let all = delivers s left in
        let fits : length d ≤ left = subst (λ x. length x ≤ left) e all.0 in
        let size : length buf' ≡ length buf + length d = ap length b ∙ length-append buf d in
        let moved : buf ++ pending s ≡ buf' ++ pending (read s left).0 =
          ap (λ x. buf ++ x) (all.1 ∙ ap (λ x. x ++ pending (read s left).0) e)
          ∙ sym (append_assoc buf d (pending (read s left).0))
          ∙ ap (λ x. x ++ pending (read s left).0) (sym b) in
        (omega (arith, rest.0, fits, size, l), moved ∙ rest.1)

    read_loop-Served :
        (fuel : ℕ) (s : Stream) (try_n left : ℕ) (buf : List ℕ)
        → Served s left buf (read_loop fuel s try_n left buf)
    unfolding read_loop Served
    read_loop-Served zero s try_n left buf = (omega arith, refl)
    read_loop-Served (suc fuel) s try_n zero buf = (omega arith, refl)
    read_loop-Served (suc fuel) s try_n (suc left) buf = elim (read-cases (read s (suc left)).1) [
      | inl e ↦ rw (loop_failed fuel s left buf try_n e) (Served-now s (suc left) buf (ap bytes e))
      | inr (inl e) ↦
          elim try_n as (λ t. Served s (suc left) buf (read_loop (suc fuel) s t (suc left) buf)) [
            | zero ↦ rw (loop_given_up fuel s left buf e) (Served-now s (suc left) buf (ap bytes e))
            | suc k ↦ rw (loop_empty fuel s left buf k e) (
                Served-then s (suc left) (suc left) buf buf [] _ (ap bytes e) (sym (append-nil buf))
                  (omega arith) (read_loop-Served fuel (read s (suc left)).0 k (suc left) buf))
          ]
      | inr (inr (c, cs, e)) ↦ rw (loop_got fuel s left buf try_n c cs e) (
          Served-then s (suc left) (suc left - suc (length cs)) buf (buf ++ c ∷ cs) (c ∷ cs) _
            (ap bytes e) refl refl
            (read_loop-Served fuel (read s (suc left)).0 try_n (suc left - suc (length cs))
              (buf ++ c ∷ cs)))
    ]

    -- `my_read` returns at most `len` bytes, the next ones of the stream in order, and leaves the rest;
    -- its rounds are enough: with more of them it does the same.
    pub my_read_lem :
        (s : Stream) (len more : ℕ)
        → (length (my_read s len).1 ≤ len)
          × (pending s ≡ (my_read s len).1 ++ pending (my_read s len).0)
          × (read_loop (len + 11 + more) s 10 len [] ≡ my_read s len)
    unfolding my_read Served
    my_read_lem s len more =
        let served = read_loop-Served (len + 11) s 10 len [] in
        (
          omega (arith, served.0),
          served.1,
          read_loop-fuel (len + 11 + more) (len + 11) s 10 len [] (omega arith) (omega arith),
        )
