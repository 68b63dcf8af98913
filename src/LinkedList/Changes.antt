-- ===== src/LinkedList/Changes.antt =====
-- What list_add, list_add_tail and list_del of utility/list.c make of a list.
use tele_sync.Prelude.{ℕ, ◌≡◌, List, [], ◌∷◌, ◌++◌, true, false, arith, ◌==◌, if◌then◌else◌}
use tele_sync.LinkedList.{Heap, null, set_next, set_prev, listelm_detach, listelm_add}
use tele_sync.LinkedList.Shape.{mem, IsSegment, IsDistinct, mem-append, IsSegment-frame}

listelm_add-next :
    (h : Heap) (le before after x : ℕ)
    → (listelm_add h le before after).next x
      ≡ (if x == le then after else if x == before then le else h.next x)
unfolding listelm_add set_next set_prev
listelm_add-next h le before after x = ground arith

listelm_add-prev :
    (h : Heap) (le before after x : ℕ)
    → (listelm_add h le before after).prev x
      ≡ (if x == after then le else if x == le then before else h.prev x)
unfolding listelm_add set_next set_prev
listelm_add-prev h le before after x = ground arith

last-mem :
    (h : Heap) (a : ℕ) (xs : List ℕ) (b : ℕ) → IsSegment h a xs b → mem (h.prev b) (a ∷ xs) ≡ true
unfolding IsSegment mem
last-mem h a [] b (e, f) = ground arith
last-mem h a (x ∷ xs) b (e, f, s) = ground (arith, last-mem h x xs b s)

first-mem :
    (h : Heap) (a : ℕ) (xs : List ℕ) (b : ℕ)
    → IsSegment h a xs b
    → mem (h.next a) (xs ++ b ∷ []) ≡ true
unfolding IsSegment mem
first-mem h a [] b (e, f) = ground arith
first-mem h a (x ∷ xs) b (e, f, s) = ground arith

-- A new node before the end `b` of a segment.
pub add_before_end :
    (h : Heap) (le a : ℕ) (xs : List ℕ) (b : ℕ)
    → IsSegment h a xs b
    → IsDistinct (a ∷ xs)
    → mem le (a ∷ xs) ≡ false
    → le == b ≡ false
    → mem b xs ≡ false
    → IsSegment (listelm_add h le (h.prev b) b) a (xs ++ le ∷ []) b
unfolding IsSegment IsDistinct mem
add_before_end h le a [] b (e, f) d n m o =
    let k = listelm_add h le (h.prev b) b in
    (
      ground (arith, listelm_add-next h le (h.prev b) b a),
      ground (arith, listelm_add-prev h le (h.prev b) b le),
      (
        ground (arith, listelm_add-next h le (h.prev b) b le),
        ground (arith, listelm_add-prev h le (h.prev b) b b),
      ),
    )
add_before_end h le a (x ∷ xs) b (e, f, s) (d, ds) n m o = (
  ground (arith, listelm_add-next h le (h.prev b) b a, last-mem h x xs b s),
  ground (arith, listelm_add-prev h le (h.prev b) b x),
  add_before_end h le x xs b s ds (ground arith) m (ground arith),
)

-- A new node after the start `a` of a segment.
pub add_after_start :
    (h : Heap) (le a : ℕ) (xs : List ℕ) (b : ℕ)
    → IsSegment h a xs b
    → IsDistinct (a ∷ xs)
    → mem le (a ∷ xs) ≡ false
    → le == b ≡ false
    → mem b xs ≡ false
    → IsSegment (listelm_add h le a (h.next a)) a (le ∷ xs) b
unfolding IsSegment IsDistinct mem
add_after_start h le a [] b (e, f) d n m o = (
  ground (arith, listelm_add-next h le a (h.next a) a),
  ground (arith, listelm_add-prev h le a (h.next a) le),
  (
    ground (arith, listelm_add-next h le a (h.next a) le),
    ground (arith, listelm_add-prev h le a (h.next a) b),
  ),
)
add_after_start h le a (x ∷ xs) b (e, f, s) (d, (d', ds)) n m o = (
  ground (arith, listelm_add-next h le a (h.next a) a),
  ground (arith, listelm_add-prev h le a (h.next a) le),
  (
    ground (arith, listelm_add-next h le a (h.next a) le),
    ground (arith, listelm_add-prev h le a (h.next a) x),
    IsSegment-frame h (listelm_add h le a (h.next a)) x xs b
        (λ y i. ground (arith, listelm_add-next h le a (h.next a) y))
        (λ y i. ground (arith, listelm_add-prev h le a (h.next a) y, mem-append y xs (b ∷ []))) s,
  ),
)

unfoldable pub detached : Heap → ℕ → Heap
detached h x = set_next (set_prev (listelm_detach h (h.prev x) (h.next x)) x null) x null

detached-next :
    (h : Heap) (x y : ℕ)
    → (detached h x).next y
      ≡ (if y == x then null else if y == h.prev x then h.next x else h.next y)
unfolding detached listelm_detach set_next set_prev
detached-next h x y = ground arith

detached-prev :
    (h : Heap) (x y : ℕ)
    → (detached h x).prev y
      ≡ (if y == x then null else if y == h.next x then h.prev x else h.prev y)
unfolding detached listelm_detach set_next set_prev
detached-prev h x y = ground arith

prev-mem :
    (h : Heap) (a : ℕ) (xs : List ℕ) (x : ℕ) (ys : List ℕ) (b : ℕ)
    → IsSegment h a (xs ++ x ∷ ys) b
    → mem (h.prev x) (a ∷ xs) ≡ true
unfolding IsSegment mem
prev-mem h a [] x ys b (e, f, s) = ground arith
prev-mem h a (z ∷ xs) x ys b (e, f, s) = ground (arith, prev-mem h z xs x ys b s)

pub next-mem :
    (h : Heap) (a : ℕ) (xs : List ℕ) (x : ℕ) (ys : List ℕ) (b : ℕ)
    → IsSegment h a (xs ++ x ∷ ys) b
    → mem (h.next x) (ys ++ b ∷ []) ≡ true
unfolding IsSegment
next-mem h a [] x ys b (e, f, s) = first-mem h x ys b s
next-mem h a (z ∷ xs) x ys b (e, f, s) = next-mem h z xs x ys b s

-- A node between two parts of a segment, taken out.
pub take_out :
    (h : Heap) (a : ℕ) (xs : List ℕ) (x : ℕ) (ys : List ℕ) (b : ℕ)
    → IsSegment h a (xs ++ x ∷ ys) b
    → IsDistinct (a ∷ (xs ++ x ∷ ys))
    → mem b (xs ++ x ∷ ys) ≡ false
    → IsSegment (detached h x) a (xs ++ ys) b
unfolding IsSegment IsDistinct mem
take_out h a [] x [] b (e, f, (e', f')) d o =
    (ground (arith, detached-next h x a), ground (arith, detached-prev h x b))
take_out h a [] x (y ∷ ys) b (e, f, (e', f', s)) (d, (d', (d'', ds))) o = (
  ground (arith, detached-next h x a),
  ground (arith, detached-prev h x y),
  IsSegment-frame h (detached h x) y ys b (λ z i. ground (arith, detached-next h x z))
      (λ z i. ground (arith, detached-prev h x z, mem-append z ys (b ∷ []))) s,
)
take_out h a (z ∷ xs) x ys b (e, f, s) (d, ds) o = (
  ground (arith, detached-next h x a, prev-mem h z xs x ys b s, mem-append a xs (x ∷ ys)),
  ground (
    arith,
    detached-prev h x z,
    next-mem h z xs x ys b s,
    mem-append z xs (x ∷ ys),
    mem-append z ys (b ∷ []),
  ),
  take_out h z xs x ys b s ds (ground arith),
)
