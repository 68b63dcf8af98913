-- ===== src/HashList/Deletion.antt =====
-- A node of a chain of include/list.h, taken out with hlist_del_init.
use tele_sync.Prelude.{
  ℕ, ◌≡◌, refl, sym, subst, ◌∙◌, List, [], ◌∷◌, ◌++◌, none, some, Bool, true, false, arith, ◌==◌,
  ◌||◌, if◌then◌else◌,
}
use tele_sync.LinkedList.{null}
use tele_sync.LinkedList.Shape.{mem, mem-append, IsDistinct}
use tele_sync.HashList.{
  Slot, first_of, next_of, HashHeap, read_slot, write_slot, set_pprev, init_hlist_node,
  set_pprev_of, hlist_del_at, hlist_del_as, hlist_del_init,
}
use tele_sync.HashList.Chained.{IsChained, in_nodes, IsChained-frame}

unfoldable slot_eq : Slot → Slot → Bool
slot_eq (first_of a) (first_of b) = a == b
slot_eq (first_of a) (next_of b) = false
slot_eq (next_of a) (first_of b) = false
slot_eq (next_of a) (next_of b) = a == b

unfoldable deleted : HashHeap → ℕ → Slot → HashHeap
deleted h x s = init_hlist_node (hlist_del_at h x s) x

deleted-next :
    (h : HashHeap) (x : ℕ) (s : Slot) (y : ℕ)
    → (deleted h x s).next y
      ≡ (if y == x then null else if slot_eq (next_of y) s then h.next x else h.next y)
unfolding deleted init_hlist_node hlist_del_at set_pprev set_pprev_of write_slot slot_eq
deleted-next h x (first_of a) y = ground arith
deleted-next h x (next_of a) y = ground arith

deleted-read_slot :
    (h : HashHeap) (x : ℕ) (s t : Slot)
    → read_slot (deleted h x s) t
      ≡ (if slot_eq t (next_of x) then null else if slot_eq t s then h.next x else read_slot h t)
unfolding deleted init_hlist_node hlist_del_at set_pprev set_pprev_of write_slot slot_eq read_slot
deleted-read_slot h x (first_of a) (first_of b) = ground arith
deleted-read_slot h x (next_of a) (first_of b) = ground arith
deleted-read_slot h x (first_of a) (next_of b) = ground arith
deleted-read_slot h x (next_of a) (next_of b) = ground arith

deleted-pprev :
    (h : HashHeap) (x : ℕ) (s : Slot) (y : ℕ)
    → (deleted h x s).pprev y ≡ (
        if y == x
        then none
        else if h.next x == null
        then h.pprev y
        else if y == h.next x
        then some s
        else h.pprev y)
unfolding deleted init_hlist_node hlist_del_at set_pprev set_pprev_of write_slot
deleted-pprev h x (first_of a) y = ground arith
deleted-pprev h x (next_of a) y = ground arith

slot_eq_refl : (s : Slot) → slot_eq s s ≡ true
unfolding slot_eq
slot_eq_refl (first_of a) = ground arith
slot_eq_refl (next_of a) = ground arith

slot_eq-in_nodes :
    (s t : Slot) (xs : List ℕ) → in_nodes s xs ≡ false → in_nodes t xs ≡ true → slot_eq s t ≡ false
unfolding slot_eq in_nodes
slot_eq-in_nodes (first_of a) (first_of b) xs m n = absurd (cc)
slot_eq-in_nodes (first_of a) (next_of b) xs m n = refl
slot_eq-in_nodes (next_of a) (first_of b) xs m n = refl
slot_eq-in_nodes (next_of a) (next_of b) xs m n = ground arith

in_nodes-append :
    (s : Slot) (xs ys : List ℕ) → in_nodes s (xs ++ ys) ≡ (in_nodes s xs || in_nodes s ys)
unfolding in_nodes
in_nodes-append (first_of a) xs ys = refl
in_nodes-append (next_of a) xs ys = mem-append a xs ys

in_nodes-cons :
    (s : Slot) (x : ℕ) (xs : List ℕ)
    → in_nodes s (x ∷ xs) ≡ (slot_eq s (next_of x) || in_nodes s xs)
unfolding in_nodes mem slot_eq
in_nodes-cons (first_of a) x xs = refl
in_nodes-cons (next_of a) x xs = refl

in_nodes_next : (n : ℕ) (xs : List ℕ) → in_nodes (next_of n) xs ≡ mem n xs
unfolding in_nodes
in_nodes_next n xs = refl

some_slot : {s t : Slot} → some s ≡ some t → s ≡ t
some_slot e = ground arith

pprev-in_nodes :
    (h : HashHeap) (s p : Slot) (z : ℕ) (xs : List ℕ) (x : ℕ) (ys : List ℕ)
    → IsChained h s (z ∷ (xs ++ x ∷ ys))
    → h.pprev x ≡ some p
    → in_nodes p (z ∷ xs) ≡ true
unfolding IsChained mem
pprev-in_nodes h s p z [] x ys (e, f, m, (e', f', m', c)) h' =
    subst (λ q. in_nodes q (z ∷ []) ≡ true) (some_slot (sym f' ∙ h'))
      (ground (arith, in_nodes_next z (z ∷ [])))
pprev-in_nodes h s p z (w ∷ xs) x ys (e, f, m, c) h' =
    ground (arith, pprev-in_nodes h (next_of z) p w xs x ys c h', in_nodes-cons p z (w ∷ xs))

next-mem_or_null :
    (h : HashHeap) (s : Slot) (xs : List ℕ) (x : ℕ) (ys : List ℕ)
    → IsChained h s (xs ++ x ∷ ys)
    → (h.next x == null || mem (h.next x) ys) ≡ true
unfolding IsChained mem read_slot
next-mem_or_null h s [] x [] (e, f, m, c) = ground arith
next-mem_or_null h s [] x (y ∷ ys) (e, f, m, (e', f', m', c)) = ground arith
next-mem_or_null h s (z ∷ xs) x ys (e, f, m, c) = next-mem_or_null h (next_of z) xs x ys c

read_next : (h : HashHeap) (n : ℕ) → read_slot h (next_of n) ≡ h.next n
unfolding read_slot
read_next h n = refl

slot_eq-nodes : (s : Slot) (n : ℕ) → slot_eq s (next_of n) ≡ slot_eq (next_of n) s
unfolding slot_eq
slot_eq-nodes (first_of a) n = refl
slot_eq-nodes (next_of a) n = ground arith

next_eq : (a b : ℕ) → slot_eq (next_of a) (next_of b) ≡ a == b
unfolding slot_eq
next_eq a b = refl

take_first :
    (h : HashHeap) (s : Slot) (x : ℕ) (ys : List ℕ)
    → IsChained h (next_of x) ys
    → mem x ys ≡ false
    → IsDistinct ys
    → in_nodes s (x ∷ ys) ≡ false
    → IsChained (deleted h x s) s ys
unfolding IsChained IsDistinct mem
take_first h s x [] c d ds o =
    ground (arith, deleted-read_slot h x s s, slot_eq_refl s, in_nodes-cons s x [], read_next h x)
take_first h s x (y ∷ ys) (e, f, m, c) d (d', ds) o = (
  ground
      (arith, deleted-read_slot h x s s, slot_eq_refl s, in_nodes-cons s x (y ∷ ys), read_next h x),
  ground (arith, deleted-pprev h x s y, read_next h x),
  m,
  IsChained-frame h (deleted h x s) (next_of y) ys
      (ground (
        arith,
        deleted-read_slot h x s (next_of y),
        slot_eq-nodes s y,
        in_nodes-cons s x (y ∷ ys),
        in_nodes-cons s y ys,
        next_eq y x,
      ))
      (λ z i. ground (
        arith,
        deleted-next h x s z,
        slot_eq-in_nodes s (next_of z) ys,
        in_nodes_next z ys,
        slot_eq-nodes s z,
        in_nodes-cons s x (y ∷ ys),
        in_nodes-cons s y ys,
      ))
      (λ z i. ground (arith, deleted-pprev h x s z, read_next h x)) c,
)

take_out :
    (h : HashHeap) (s p : Slot) (xs : List ℕ) (x : ℕ) (ys : List ℕ)
    → IsChained h s (xs ++ x ∷ ys)
    → IsDistinct (xs ++ x ∷ ys)
    → in_nodes s (xs ++ x ∷ ys) ≡ false
    → h.pprev x ≡ some p
    → IsChained (deleted h x p) s (xs ++ ys)
unfolding IsChained IsDistinct mem
take_out h s p [] x ys (e, f, m, c) (d, ds) o h' =
    subst (λ q. IsChained (deleted h x q) s ys) (some_slot (sym f ∙ h'))
      (take_first h s x ys c d ds o)
take_out h s p (z ∷ xs) x ys (e, f, m, c) (d, ds) o h' = (
  ground (
    arith,
    deleted-read_slot h x p s,
    in_nodes-append s (z ∷ xs) (x ∷ ys),
    in_nodes-cons s x ys,
    slot_eq-in_nodes s p (z ∷ xs),
    pprev-in_nodes h s p z xs x ys (e, f, m, c) h',
  ),
  ground (
    arith,
    deleted-pprev h x p z,
    next-mem_or_null h (next_of z) xs x ys c,
    mem-append z xs (x ∷ ys),
  ),
  m,
  take_out h (next_of z) p xs x ys c ds (ground (arith, in_nodes_next z (xs ++ x ∷ ys))) h',
)

-- A node anywhere in a chain is taken out and has no `pprev` any more; the others stay in their order.
pub hlist_del_init-IsChained :
    (h : HashHeap) (head : ℕ) (xs : List ℕ) (x : ℕ) (ys : List ℕ) (p : Slot)
    → IsChained h (first_of head) (xs ++ x ∷ ys)
    → IsDistinct (xs ++ x ∷ ys)
    → h.pprev x ≡ some p
    → IsChained (hlist_del_init h x) (first_of head) (xs ++ ys)
      × ((hlist_del_init h x).pprev x ≡ none)
unfolding hlist_del_init hlist_del_as deleted in_nodes
hlist_del_init-IsChained h head xs x ys p c d e =
    rw (hlist_del_init, e, hlist_del_as)
      (take_out h (first_of head) p xs x ys c d refl e, ground (arith, deleted-pprev h x p x))
