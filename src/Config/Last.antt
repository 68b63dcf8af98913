-- ===== src/Config/Last.antt =====
-- The last line of a configuration file counts.
use tele_sync.Prelude.{
  ℕ, ◌≡◌, refl, List, [], ◌∷◌, Option, none, some, Bool, true, ◌||◌, ◌&&◌, if◌then◌else◌, same_name,
  Bool-cases, Option-cases, inl, inr,
}

-- The argument of the last line with a command.
unfoldable pub last_arg : List ℕ → List (List ℕ × List ℕ) → Option (List ℕ)
last_arg key [] = none
last_arg key ((cmd, arg) ∷ lines) = elim (last_arg key lines) [
  | some later ↦ some later
  | none ↦ if same_name cmd key then some arg else none
]

-- Is every line one of two commands?
unfoldable pub all_known : List ℕ → List ℕ → List (List ℕ × List ℕ) → Bool
all_known a b [] = true
all_known a b ((cmd, arg) ∷ lines) = (same_name cmd a || same_name cmd b) && all_known a b lines

-- What an argument means, or what was there before.
unfoldable pub or_else : {A : Type 0} → (List ℕ → A) → A → Option (List ℕ) → A
or_else read before none = before
or_else read before (some arg) = read arg

pub or_else-last_arg :
    {A : Type 0}
    → (read : List ℕ → A) (before : A) (key cmd arg : List ℕ) (lines : List (List ℕ × List ℕ))
    → or_else read before (last_arg key ((cmd, arg) ∷ lines))
      ≡ or_else read (if same_name cmd key then read arg else before) (last_arg key lines)
unfolding or_else last_arg
or_else-last_arg read before key cmd arg lines = elim (Option-cases (last_arg key lines)) [
  | inl e ↦ elim (Bool-cases (same_name cmd key)) [
    | inl h ↦ rw (e, h) refl
    | inr h ↦ rw (e, h) refl
  ]
  | inr (later, e) ↦ rw e refl
]
