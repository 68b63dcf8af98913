-- ===== src/HashList.antt =====
-- The hlist part of include/list.h: the chains of the hash tables. A node's `pprev` points to the pointer
-- that leads to it, which is the `first` of a head or the `next` of another node. 0 is NULL.
pub mod Chained
pub mod Deletion
use tele_sync.Prelude.{ℕ, Option, none, some, Bool, true, false, ◌==◌, if◌then◌else◌}
use tele_sync.LinkedList.{null, write}

-- Where a pointer to a node is stored.
pub data Slot : Type 0 where
  first_of : ℕ → Slot
  next_of : ℕ → Slot

pub record HashHeap : Type 0 where
  pub first : ℕ → ℕ
  pub next : ℕ → ℕ
  pub pprev : ℕ → Option Slot

unfoldable pub read_slot : HashHeap → Slot → ℕ
read_slot h (first_of head) = h.first head
read_slot h (next_of n) = h.next n

unfoldable pub write_slot : HashHeap → Slot → ℕ → HashHeap
write_slot h (first_of head) v = record h { first = write h.first head v }
write_slot h (next_of n) v = record h { next = write h.next n v }

unfoldable pub set_pprev : HashHeap → ℕ → Option Slot → HashHeap
set_pprev h n s = record h { pprev = λ x. if x == n then s else h.pprev x }

unfoldable pub init_hlist_head : HashHeap → ℕ → HashHeap
init_hlist_head h head = write_slot h (first_of head) null

unfoldable pub init_hlist_node : HashHeap → ℕ → HashHeap
init_hlist_node h n = set_pprev (write_slot h (next_of n) null) n none

-- `if (first) first->pprev = ...`
unfoldable pub set_pprev_of : HashHeap → ℕ → Slot → HashHeap
set_pprev_of h n s = if n == null then h else set_pprev h n (some s)

unfoldable pub hlist_add_head : HashHeap → ℕ → ℕ → HashHeap
hlist_add_head h n head =
    let first = h.first head in
    let h₁ = set_pprev_of (write_slot h (next_of n) first) first (next_of n) in
    set_pprev (write_slot h₁ (first_of head) n) n (some (first_of head))

unfoldable pub hlist_empty : HashHeap → ℕ → Bool
hlist_empty h head = h.first head == null

-- `__hlist_del`, with the `pprev` of the node.
unfoldable pub hlist_del_at : HashHeap → ℕ → Slot → HashHeap
hlist_del_at h n s = set_pprev_of (write_slot h s (h.next n)) (h.next n) s

-- `hlist_del_init`: nothing happens to a node without `pprev`.
unfoldable pub hlist_del_as : HashHeap → ℕ → Option Slot → HashHeap
hlist_del_as h n none = h
hlist_del_as h n (some s) = init_hlist_node (hlist_del_at h n s) n

unfoldable pub hlist_del_init : HashHeap → ℕ → HashHeap
hlist_del_init h n = hlist_del_as h n (h.pprev n)
