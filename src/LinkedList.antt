-- ===== src/LinkedList.antt =====
-- utility/list.c and the macros of include/list.h: circular lists with links in both directions. An
-- address is a number, 0 is NULL, and the heap holds the two pointers of each node.
pub mod Shape
pub mod Changes
pub mod Sequences
use tele_sync.Prelude.{
  ℕ, zero, suc, List, [], ◌∷◌, Bool, true, false, ◌==◌, ◌||◌, ◌&&◌, if◌then◌else◌,
}

pub record Heap : Type 0 where
  pub prev : ℕ → ℕ
  pub next : ℕ → ℕ

pub data ListStatus : Type 0 where
  list_success list_null : ListStatus

abbrev pub null : ℕ
null = 0

abbrev pub write : (ℕ → ℕ) → ℕ → ℕ → ℕ → ℕ
write f a v x = if x == a then v else f x

unfoldable pub set_next : Heap → ℕ → ℕ → Heap
set_next h a v = record h { next = write h.next a v }

unfoldable pub set_prev : Heap → ℕ → ℕ → Heap
set_prev h a v = record h { prev = write h.prev a v }

unfoldable pub init_list_head : Heap → ℕ → Heap
init_list_head h head = set_prev (set_next h head head) head head

unfoldable pub listelm_detach : Heap → ℕ → ℕ → Heap
listelm_detach h before after = set_next (set_prev h after before) before after

unfoldable pub listelm_add : Heap → ℕ → ℕ → ℕ → Heap
listelm_add h le before after =
    set_prev (set_next (set_prev (set_next h before le) le before) le after) after le

unfoldable pub list_add : Heap → ℕ → ℕ → Heap × ListStatus
list_add h head le =
    if head == null || le == null
    then (h, list_null)
    else (listelm_add h le head (h.next head), list_success)

unfoldable pub list_add_tail : Heap → ℕ → ℕ → Heap × ListStatus
list_add_tail h head le =
    if head == null || le == null
    then (h, list_null)
    else (listelm_add h le (h.prev head) head, list_success)

unfoldable pub list_unattached : Heap → ℕ → Bool
list_unattached h le = h.next le == null && h.prev le == null

unfoldable pub list_del : Heap → ℕ → Heap × ListStatus
list_del h le =
    if le == null then (h, list_null) else if list_unattached h le then (h, list_null) else (
      set_next (set_prev (listelm_detach h (h.prev le) (h.next le)) le null) le null,
      list_success,
    )

unfoldable pub list_del_init : Heap → ℕ → Heap × ListStatus
list_del_init h le = let (h₁, ret) = list_del h le in (set_next (set_prev h₁ le le) le le, ret)

unfoldable pub list_empty : Heap → ℕ → Bool
list_empty h head = head == h.next head

-- The nodes that `list_for_each` comes to from `curr` on, in so many rounds.
unfoldable pub list_for_each_from : ℕ → Heap → ℕ → ℕ → List ℕ
list_for_each_from zero h curr head = []
list_for_each_from (suc fuel) h curr head =
    let rest = list_for_each_from fuel h (h.next curr) head in
    if curr == head then [] else curr ∷ rest

unfoldable pub list_for_each : ℕ → Heap → ℕ → List ℕ
list_for_each fuel h head = list_for_each_from fuel h (h.next head) head
