-- ===== src/LinkedList/Shape.antt =====
-- When the nodes of a heap form a list, and what a walk over it comes to.
use tele_sync.Prelude.{
  ℕ, zero, suc, ◌<◌, ◌≡◌, refl, List, [], ◌∷◌, ◌++◌, Bool, true, false, arith, ◌==◌, ◌||◌, length,
}
use tele_sync.LinkedList.{Heap, null, list_for_each_from}

unfoldable pub mem : ℕ → List ℕ → Bool
mem x [] = false
mem x (y ∷ ys) = let rest = mem x ys in x == y || rest

-- The links from `a` through the nodes to `b`, in both directions.
unfoldable pub IsSegment : Heap → ℕ → List ℕ → ℕ → Type 0
IsSegment h a [] b = (h.next a ≡ b) × (h.prev b ≡ a)
IsSegment h a (x ∷ xs) b = (h.next a ≡ x) × (h.prev x ≡ a) × IsSegment h x xs b

unfoldable pub IsDistinct : List ℕ → Type 0
IsDistinct [] = Unit {0}
IsDistinct (x ∷ xs) = (mem x xs ≡ false) × IsDistinct xs

-- A list with this head and these nodes.
pub record IsList (h : Heap) (head : ℕ) (xs : List ℕ) : Type 0 where
  pub linked : IsSegment h head xs head
  pub distinct : IsDistinct (head ∷ xs)
  pub not_null : mem null (head ∷ xs) ≡ false

pub mem-append : (x : ℕ) (a b : List ℕ) → mem x (a ++ b) ≡ (mem x a || mem x b)
unfolding mem
mem-append x [] b = refl
mem-append x (y ∷ a) b = ground (arith, mem-append x a b)

-- Only the links of the segment matter.
pub IsSegment-frame :
    (h k : Heap) (a : ℕ) (xs : List ℕ) (b : ℕ)
    → ((x : ℕ) → mem x (a ∷ xs) ≡ true → k.next x ≡ h.next x)
    → ((x : ℕ) → mem x (xs ++ b ∷ []) ≡ true → k.prev x ≡ h.prev x)
    → IsSegment h a xs b
    → IsSegment k a xs b
unfolding IsSegment mem
IsSegment-frame h k a [] b n p (e, f) = (ground (arith, n a), ground (arith, p b))
IsSegment-frame h k a (x ∷ xs) b n p (e, f, s) = (
  ground (arith, n a),
  ground (arith, p x),
  IsSegment-frame h k x xs b (λ y m. ground (arith, n y)) (λ y m. ground (arith, p y)) s,
)

-- A walk with more rounds than the segment has nodes comes to them in order.
pub list_for_each_from-nodes :
    (h : Heap) (a : ℕ) (xs : List ℕ) (b fuel : ℕ)
    → IsSegment h a xs b
    → mem b xs ≡ false
    → length xs < fuel
    → list_for_each_from fuel h (h.next a) b ≡ xs
unfolding IsSegment mem list_for_each_from
list_for_each_from-nodes h a xs b zero s m lt = absurd (omega arith)
list_for_each_from-nodes h a [] b (suc fuel) (e, f) m lt = ground arith
list_for_each_from-nodes h a (x ∷ xs) b (suc fuel) (e, f, s) m lt =
    rw e (ground (arith, list_for_each_from-nodes h x xs b fuel s))
