-- ===== src/HashList/Chained.antt =====
-- The chains of include/list.h as sequences of nodes, under hlist_add_head.
use tele_sync.Prelude.{
  ℕ, ◌≡◌, ◌∙◌, List, [], ◌∷◌, some, Bool, true, false, arith, ◌==◌, if◌then◌else◌,
}
use tele_sync.LinkedList.{null}
use tele_sync.LinkedList.Shape.{mem, IsDistinct}
use tele_sync.HashList.{
  Slot, first_of, next_of, HashHeap, read_slot, write_slot, set_pprev, set_pprev_of, hlist_add_head,
}

-- The nodes that the slot leads to.
unfoldable pub IsChained : HashHeap → Slot → List ℕ → Type 0
IsChained h s [] = read_slot h s ≡ null
IsChained h s (x ∷ xs) =
    (read_slot h s ≡ x) × (h.pprev x ≡ some s) × (x == null ≡ false) × IsChained h (next_of x) xs

-- Is the slot in one of the nodes?
unfoldable pub in_nodes : Slot → List ℕ → Bool
in_nodes (first_of head) xs = false
in_nodes (next_of n) xs = mem n xs

pub IsChained-frame :
    (h k : HashHeap) (s : Slot) (xs : List ℕ)
    → read_slot k s ≡ read_slot h s
    → ((x : ℕ) → mem x xs ≡ true → k.next x ≡ h.next x)
    → ((x : ℕ) → mem x xs ≡ true → k.pprev x ≡ h.pprev x)
    → IsChained h s xs
    → IsChained k s xs
unfolding IsChained mem read_slot
IsChained-frame h k s [] r n p e = r ∙ e
IsChained-frame h k s (x ∷ xs) r n p (e, f, m, c) = (
  r ∙ e,
  ground (arith, p x),
  m,
  IsChained-frame h k (next_of x) xs (ground (arith, n x)) (λ y i. ground (arith, n y))
      (λ y i. ground (arith, p y)) c,
)

add_next :
    (h : HashHeap) (n head x : ℕ)
    → (hlist_add_head h n head).next x ≡ (if x == n then h.first head else h.next x)
unfolding hlist_add_head set_pprev set_pprev_of write_slot
add_next h n head x = ground arith

add_first : (h : HashHeap) (n head : ℕ) → (hlist_add_head h n head).first head ≡ n
unfolding hlist_add_head set_pprev set_pprev_of write_slot
add_first h n head = ground arith

add_pprev :
    (h : HashHeap) (n head x : ℕ)
    → (hlist_add_head h n head).pprev x ≡ (
        if x == n
        then some (first_of head)
        else if h.first head == null
        then h.pprev x
        else if x == h.first head
        then some (next_of n)
        else h.pprev x)
unfolding hlist_add_head set_pprev set_pprev_of write_slot
add_pprev h n head x = ground arith

-- A new node becomes the first of its chain.
pub hlist_add_head-IsChained :
    (h : HashHeap) (n head : ℕ) (xs : List ℕ)
    → IsChained h (first_of head) xs
    → IsDistinct xs
    → mem n (null ∷ xs) ≡ false
    → IsChained (hlist_add_head h n head) (first_of head) (n ∷ xs)
unfolding IsChained IsDistinct mem read_slot
hlist_add_head-IsChained h n head [] e d m = (
  add_first h n head,
  ground (arith, add_pprev h n head n),
  ground arith,
  ground (arith, add_next h n head n),
)
hlist_add_head-IsChained h n head (x ∷ xs) (e, f, z, c) (i, d) m = (
  add_first h n head,
  ground (arith, add_pprev h n head n),
  ground arith,
  (
    ground (arith, add_next h n head n),
    ground (arith, add_pprev h n head x),
    z,
    IsChained-frame h (hlist_add_head h n head) (next_of x) xs (ground (arith, add_next h n head x))
        (λ y j. ground (arith, add_next h n head y)) (λ y j. ground (arith, add_pprev h n head y))
        c,
  ),
)
