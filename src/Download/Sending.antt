-- ===== src/Download/Sending.antt =====
-- `my_write` of client/download.c. `write` is an argument: it gives the sink after the call and how
-- many bytes it took, or `none` for -1.
use tele_sync.Prelude.{
  ℕ, zero, suc, ◌+◌, ◌≤◌, ◌<◌, ◌≡◌, ◌⊎◌, refl, sym, ap, subst, ◌∙◌, List, [], ◌∷◌, ◌++◌, Option,
  none, some, arith, length, take, drop, length-drop, take-take-drop, inl, inr,
}
use mathlib.Core.List.{append_assoc, append-nil}

-- How many bytes a write took; an error takes none.
abbrev pub count : Option ℕ → ℕ
count none = 0
count (some k) = k

module _ {ℓ} {Sink : Type ℓ} (write : Sink → List ℕ → Sink × Option ℕ) where
  -- The loop: `buf` holds the bytes that are left, `n` counts those that have gone. The first write that
  -- takes nothing ends it, since `try_n` starts at 0.
  unfoldable pub write_loop : ℕ → Sink → List ℕ → ℕ → Sink × ℕ
  write_loop zero s buf n = (s, n)
  write_loop (suc fuel) s [] n = (s, n)
  write_loop (suc fuel) s (b ∷ buf) n = elim (write s (b ∷ buf)).1 [
    | none ↦ ((write s (b ∷ buf)).0, n)
    | some k ↦ elim k [
      | zero ↦ ((write s (b ∷ buf)).0, n)
      | suc k ↦ write_loop fuel (write s (b ∷ buf)).0 (drop k buf) (n + suc k)
    ]
  ]

  unfoldable pub my_write : Sink → List ℕ → Sink × ℕ
  my_write s buf = write_loop (length buf + 1) s buf 0

  -- One round of the loop, by what the write comes to.
  module _ (fuel : ℕ) (s : Sink) (b : ℕ) (buf : List ℕ) (n : ℕ) where
    loop_failed :
        (write s (b ∷ buf)).1 ≡ none
        → write_loop (suc fuel) s (b ∷ buf) n ≡ ((write s (b ∷ buf)).0, n)
    unfolding write_loop
    loop_failed e = rw (e, write_loop) refl

    loop_given_up :
        (write s (b ∷ buf)).1 ≡ some 0
        → write_loop (suc fuel) s (b ∷ buf) n ≡ ((write s (b ∷ buf)).0, n)
    unfolding write_loop
    loop_given_up e = rw (e, write_loop) refl

    loop_took :
        (k : ℕ)
        → (write s (b ∷ buf)).1 ≡ some (suc k)
        → write_loop (suc fuel) s (b ∷ buf) n
          ≡ write_loop fuel (write s (b ∷ buf)).0 (drop k buf) (n + suc k)
    unfolding write_loop
    loop_took k e = rw (e, write_loop) refl

  write-cases : (o : Option ℕ) → (o ≡ none) ⊎ ((o ≡ some 0) ⊎ ((k : ℕ) × (o ≡ some (suc k))))
  write-cases none = inl refl
  write-cases (some zero) = inr (inl refl)
  write-cases (some (suc k)) = inr (inr (k, refl))

  write_loop-fuel :
      (f g : ℕ) (s : Sink) (buf : List ℕ) (n : ℕ)
      → length buf < f
      → length buf < g
      → write_loop f s buf n ≡ write_loop g s buf n
  unfolding write_loop
  write_loop-fuel zero g s buf n hf hg = absurd (omega arith)
  write_loop-fuel (suc f) zero s buf n hf hg = absurd (omega arith)
  write_loop-fuel (suc f) (suc g) s [] n hf hg = refl
  write_loop-fuel (suc f) (suc g) s (b ∷ buf) n hf hg = elim (write-cases (write s (b ∷ buf)).1) [
    | inl e ↦ loop_failed f s b buf n e ∙ sym (loop_failed g s b buf n e)
    | inr (inl e) ↦ loop_given_up f s b buf n e ∙ sym (loop_given_up g s b buf n e)
    | inr (inr (k, e)) ↦
        loop_took f s b buf n k e
        ∙ write_loop-fuel f g (write s (b ∷ buf)).0 (drop k buf) (n + suc k)
            (omega (arith, length-drop k buf)) (omega (arith, length-drop k buf))
        ∙ sym (loop_took g s b buf n k e)
  ]

  -- `sent` gives what a sink has taken. A write takes the first bytes of what it is given.
  module _ (sent : Sink → List ℕ)
      (takes : (s : Sink) (d : List ℕ)
        → (count (write s d).1 ≤ length d)
          × (sent (write s d).0 ≡ sent s ++ take (count (write s d).1) d)) where
    Took : Sink → List ℕ → ℕ → Sink × ℕ → Type 0
    Took s buf n r = (m : ℕ) × (r.1 ≡ n + m) × (m ≤ length buf) × (sent r.0 ≡ sent s ++ take m buf)

    Took-none :
        (s : Sink) (buf : List ℕ) (n : ℕ)
        → count (write s buf).1 ≡ 0
        → Took s buf n ((write s buf).0, n)
    unfolding Took
    Took-none s buf n e =
        (0, omega arith, omega arith, (takes s buf).1 ∙ ap (λ k. sent s ++ take k buf) e)

    write_loop-Took :
        (fuel : ℕ) (s : Sink) (buf : List ℕ) (n : ℕ) → Took s buf n (write_loop fuel s buf n)
    unfolding write_loop Took
    write_loop-Took zero s buf n = (0, omega arith, omega arith, sym (append-nil (sent s)))
    write_loop-Took (suc fuel) s [] n = (0, omega arith, omega arith, sym (append-nil (sent s)))
    write_loop-Took (suc fuel) s (b ∷ buf) n = elim (write-cases (write s (b ∷ buf)).1) [
      | inl e ↦ rw (loop_failed fuel s b buf n e) (Took-none s (b ∷ buf) n (ap count e))
      | inr (inl e) ↦ rw (loop_given_up fuel s b buf n e) (Took-none s (b ∷ buf) n (ap count e))
      | inr (inr (k, e)) ↦
          let (m, sum, fits, all) =
            write_loop-Took fuel (write s (b ∷ buf)).0 (drop k buf) (n + suc k) in
          let first = takes s (b ∷ buf) in
          let low : suc k ≤ length (b ∷ buf) =
            subst (λ c. c ≤ length (b ∷ buf)) (ap count e) first.0 in
          rw (loop_took fuel s b buf n k e) (
            suc k + m,
            omega (arith, sum),
            omega (arith, fits, low, length-drop k buf),
            all
                ∙ ap (λ d. d ++ take m (drop k buf))
                    (first.1 ∙ ap (λ c. sent s ++ take c (b ∷ buf)) (ap count e))
                ∙ append_assoc (sent s) (take (suc k) (b ∷ buf)) (take m (drop k buf))
                ∙ ap (λ d. sent s ++ d) (take-take-drop (suc k) m (b ∷ buf)),
          )
    ]

    -- `my_write` passes on the first bytes of the buffer, as many as it returns, in order; its rounds
    -- are enough: with more of them it does the same.
    pub my_write_lem :
        (s : Sink) (buf : List ℕ) (more : ℕ)
        → ((my_write s buf).1 ≤ length buf)
          × (sent (my_write s buf).0 ≡ sent s ++ take (my_write s buf).1 buf)
          × (write_loop (length buf + 1 + more) s buf 0 ≡ my_write s buf)
    unfolding my_write Took
    my_write_lem s buf more =
        let (m, sum, fits, all) = write_loop-Took (length buf + 1) s buf 0 in
        let same : (my_write s buf).1 ≡ m = omega (arith, sum) in
        (
          omega arith,
          all ∙ ap (λ k. sent s ++ take k buf) (sym same),
          write_loop-fuel (length buf + 1 + more) (length buf + 1) s buf 0 (omega arith)
              (omega arith),
        )
