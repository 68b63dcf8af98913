-- ===== src/LinkedList/Sequences.antt =====
-- The lists of utility/list.c as sequences of nodes: this is how the other files take them.
use tele_sync.Prelude.{ℕ, ◌<◌, ◌≡◌, refl, List, [], ◌∷◌, ◌++◌, false, arith, ◌==◌, ◌||◌, length}
use tele_sync.LinkedList.{
  Heap, null, init_list_head, set_next, set_prev, list_add, list_add_tail, list_unattached,
  list_del, list_for_each,
}
use tele_sync.LinkedList.Shape.{
  mem, IsSegment, IsDistinct, IsList, mem-append, list_for_each_from-nodes,
}
use tele_sync.LinkedList.Changes.{detached, add_before_end, add_after_start, take_out, next-mem}

append-IsDistinct :
    (xs : List ℕ) (le : ℕ) → IsDistinct xs → mem le xs ≡ false → IsDistinct (xs ++ le ∷ [])
unfolding IsDistinct mem
append-IsDistinct [] le d m = (refl, tt)
append-IsDistinct (x ∷ xs) le (n, d) m =
    (ground (arith, mem-append x xs (le ∷ [])), append-IsDistinct xs le d (ground arith))

delete-IsDistinct :
    (xs : List ℕ) (x : ℕ) (ys : List ℕ) → IsDistinct (xs ++ x ∷ ys) → IsDistinct (xs ++ ys)
unfolding IsDistinct mem
delete-IsDistinct [] x ys (n, d) = d
delete-IsDistinct (z ∷ xs) x ys (n, d) =
    (ground (arith, mem-append z xs (x ∷ ys), mem-append z xs ys), delete-IsDistinct xs x ys d)

pub init_list_head-IsList :
    (h : Heap) (head : ℕ) → head == null ≡ false → IsList (init_list_head h head) head []
unfolding init_list_head set_next set_prev IsSegment IsDistinct mem
init_list_head-IsList h head n = record {
  linked = (ground arith, ground arith);
  distinct = (refl, tt);
  not_null = ground arith;
}

module _ (h : Heap) (head : ℕ) where
  pub list_for_each-IsList :
      (xs : List ℕ) (fuel : ℕ)
      → IsList h head xs
      → length xs < fuel
      → list_for_each fuel h head ≡ xs
  unfolding list_for_each IsDistinct
  list_for_each-IsList xs fuel v lt =
      list_for_each_from-nodes h head xs head fuel v.linked (v.distinct.0) lt

  pub list_add-IsList :
      (le : ℕ) (xs : List ℕ)
      → IsList h head xs
      → mem le (null ∷ head ∷ xs) ≡ false
      → IsList (list_add h head le).0 head (le ∷ xs)
  unfolding list_add IsDistinct mem
  list_add-IsList le xs v n =
      let real : (head == null || le == null) ≡ false = ground (arith, v.not_null) in
      rw real (record {
        linked =
            add_after_start h le head xs head v.linked v.distinct (ground arith) (ground arith)
              (v.distinct.0);
        distinct = (ground (arith, v.distinct.0), (ground arith, v.distinct.1));
        not_null = ground (arith, v.not_null);
      })

  pub list_add_tail-IsList :
      (le : ℕ) (xs : List ℕ)
      → IsList h head xs
      → mem le (null ∷ head ∷ xs) ≡ false
      → IsList (list_add_tail h head le).0 head (xs ++ le ∷ [])
  unfolding list_add_tail IsDistinct mem
  list_add_tail-IsList le xs v n =
      let real : (head == null || le == null) ≡ false = ground (arith, v.not_null) in
      rw real (record {
        linked =
            add_before_end h le head xs head v.linked v.distinct (ground arith) (ground arith)
              (v.distinct.0);
        distinct = append-IsDistinct (head ∷ xs) le v.distinct (ground arith);
        not_null = ground (arith, v.not_null, mem-append null xs (le ∷ []));
      })

  pub list_del-IsList :
      (xs : List ℕ) (x : ℕ) (ys : List ℕ)
      → IsList h head (xs ++ x ∷ ys)
      → IsList (list_del h x).0 head (xs ++ ys)
  unfolding list_del IsDistinct mem detached list_unattached
  list_del-IsList xs x ys v =
      let real : (x == null) ≡ false = ground (arith, v.not_null, mem-append null xs (x ∷ ys)) in
      let attached : list_unattached h x ≡ false = ground (
        arith,
        v.not_null,
        mem-append null xs (x ∷ ys),
        mem-append null ys (head ∷ []),
        next-mem h head xs x ys head v.linked,
      ) in
      rw (real, attached)
        (record {
          linked = take_out h head xs x ys head v.linked v.distinct (v.distinct.0);
          distinct = delete-IsDistinct (head ∷ xs) x ys v.distinct;
          not_null = ground (arith, v.not_null, mem-append null xs (x ∷ ys), mem-append null xs ys);
        })

  -- On a list whose nodes are the sequence `xs`, `x`, `ys`, a new node goes to the front with list_add and
  -- to the end with list_add_tail, list_del takes `x` out, and a walk with more rounds than there are nodes
  -- comes to them in order.
  pub operations-IsList :
      (xs : List ℕ) (x : ℕ) (ys : List ℕ) (le fuel : ℕ)
      → IsList h head (xs ++ x ∷ ys)
      → mem le (null ∷ head ∷ (xs ++ x ∷ ys)) ≡ false
      → length (xs ++ x ∷ ys) < fuel
      → IsList (list_add h head le).0 head (le ∷ (xs ++ x ∷ ys))
        × IsList (list_add_tail h head le).0 head ((xs ++ x ∷ ys) ++ le ∷ [])
        × IsList (list_del h x).0 head (xs ++ ys)
        × (list_for_each fuel h head ≡ xs ++ x ∷ ys)
  operations-IsList xs x ys le fuel v n lt = (
    list_add-IsList le (xs ++ x ∷ ys) v n,
    list_add_tail-IsList le (xs ++ x ∷ ys) v n,
    list_del-IsList xs x ys v,
    list_for_each-IsList (xs ++ x ∷ ys) fuel v lt,
  )
