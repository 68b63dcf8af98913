-- ===== src/FileTable/Chain.antt =====
-- One chain of the hash table: how each write changes what a search finds, and how often a name
-- occurs.
use tele_sync.Prelude.{
  ℕ, ◌+◌, ◌≤◌, ◌≡◌, refl, List, [], ◌∷◌, ◌++◌, Option, none, some, arith, if◌then◌else◌, same_name,
  same_name_refl, same_name→eq, length,
}
use tele_sync.FileTable.{FileEntry, find_in_chain, delete_in_chain, write_in_chain}
use tele_sync.FileTable.Sweep.{remove_owner, list_empty, delete_owner_in_chain}

unfoldable pub name_count : List ℕ → List FileEntry → ℕ
name_count q [] = 0
name_count q (fe ∷ chain) = (if same_name fe.name q then 1 else 0) + name_count q chain

pub find_in_chain-name :
    (q : List ℕ) (c : List FileEntry) (fe : FileEntry) → find_in_chain q c ≡ some fe → fe.name ≡ q
unfolding find_in_chain
find_in_chain-name q [] fe h = cc
find_in_chain-name q (x ∷ c) fe h = ground (arith, same_name→eq x.name q, find_in_chain-name q c fe)

pub find_in_chain-cons :
    (q : List ℕ) (fe : FileEntry) (c : List FileEntry)
    → find_in_chain q (fe ∷ c) ≡ (if same_name fe.name q then some fe else find_in_chain q c)
unfolding find_in_chain
find_in_chain-cons q fe c = refl

pub name_count-cons :
    (q : List ℕ) (fe : FileEntry) (c : List FileEntry)
    → name_count q (fe ∷ c) ≡ (if same_name fe.name q then 1 else 0) + name_count q c
unfolding name_count
name_count-cons q fe c = refl

pub name_count_absent :
    (q : List ℕ) (c : List FileEntry) → find_in_chain q c ≡ none → name_count q c ≡ 0
unfolding find_in_chain name_count
name_count_absent q [] h = refl
name_count_absent q (x ∷ c) h = ground (arith, name_count_absent q c)

pub find_in_chain_absent :
    (q : List ℕ) (c : List FileEntry) → name_count q c ≡ 0 → find_in_chain q c ≡ none
unfolding find_in_chain name_count
find_in_chain_absent q [] h = refl
find_in_chain_absent q (x ∷ c) h = ground (arith, find_in_chain_absent q c)

pub name_count-append :
    (q : List ℕ) (c d : List FileEntry) → name_count q (c ++ d) ≡ name_count q c + name_count q d
unfolding name_count
name_count-append q [] d = omega arith
name_count-append q (x ∷ c) d = ground (arith, name_count-append q c d)

pub find_in_chain-append :
    (q : List ℕ) (c d : List FileEntry)
    → find_in_chain q (c ++ d)
      ≡ elim (find_in_chain q c) [ none ↦ find_in_chain q d | some fe ↦ some fe ]
unfolding find_in_chain
find_in_chain-append q [] d = refl
find_in_chain-append q (x ∷ c) d = ground (arith, find_in_chain-append q c d)

module _ (q : List ℕ) (new : FileEntry) where
  pub find-write_in_chain :
      (c : List FileEntry) (old : FileEntry)
      → find_in_chain new.name c ≡ some old
      → find_in_chain q (write_in_chain new c)
        ≡ (if same_name new.name q then some new else find_in_chain q c)
  unfolding find_in_chain write_in_chain
  find-write_in_chain [] old h = cc
  find-write_in_chain (x ∷ c) old h = ground (
    arith,
    find-write_in_chain c old,
    same_name→eq x.name new.name,
    same_name→eq x.name q,
    same_name→eq new.name q,
    same_name_refl q,
  )

  pub name_count-write_in_chain :
      (c : List FileEntry) → name_count q (write_in_chain new c) ≡ name_count q c
  unfolding name_count write_in_chain
  name_count-write_in_chain [] = refl
  name_count-write_in_chain (x ∷ c) =
      ground (arith, name_count-write_in_chain c, same_name→eq x.name new.name)

pub length-write_in_chain :
    (new : FileEntry) (c : List FileEntry) → length (write_in_chain new c) ≡ length c
unfolding write_in_chain
length-write_in_chain new [] = refl
length-write_in_chain new (x ∷ c) = ground (arith, length-write_in_chain new c)

module _ (name q : List ℕ) where
  pub find-delete_in_chain :
      (c : List FileEntry)
      → name_count q c ≤ 1
      → find_in_chain q (delete_in_chain name c)
        ≡ (if same_name name q then none else find_in_chain q c)
  unfolding find_in_chain delete_in_chain name_count
  find-delete_in_chain [] h = ground arith
  find-delete_in_chain (x ∷ c) h = ground (
    arith,
    find-delete_in_chain c,
    find_in_chain_absent q c,
    same_name→eq x.name name,
    same_name→eq x.name q,
    same_name→eq name q,
    same_name_refl q,
  )

  pub name_count-delete_in_chain :
      (c : List FileEntry) → name_count q (delete_in_chain name c) ≤ name_count q c
  unfolding name_count delete_in_chain
  name_count-delete_in_chain [] = omega arith
  name_count-delete_in_chain (x ∷ c) = ground (arith, name_count-delete_in_chain c)

pub length-delete_in_chain :
    (name : List ℕ) (c : List FileEntry) (old : FileEntry)
    → find_in_chain name c ≡ some old
    → length (delete_in_chain name c) + 1 ≡ length c
unfolding find_in_chain delete_in_chain
length-delete_in_chain name [] old h = cc
length-delete_in_chain name (x ∷ c) old h = ground (arith, length-delete_in_chain name c old)

-- What is left of an entry when one owner goes.
unfoldable pub without_owner : ℕ → Option FileEntry → Option FileEntry
without_owner ip none = none
without_owner ip (some fe) =
    if list_empty (remove_owner ip fe.owners)
    then none
    else some (record fe { owners = remove_owner ip fe.owners })

module _ (ip : ℕ) (q : List ℕ) where
  pub name_count-delete_owner_in_chain :
      (c : List FileEntry) → name_count q (delete_owner_in_chain ip c) ≤ name_count q c
  unfolding name_count delete_owner_in_chain
  name_count-delete_owner_in_chain [] = omega arith
  name_count-delete_owner_in_chain (x ∷ c) = ground (arith, name_count-delete_owner_in_chain c)

  pub find-delete_owner_in_chain :
      (c : List FileEntry)
      → name_count q c ≤ 1
      → find_in_chain q (delete_owner_in_chain ip c) ≡ without_owner ip (find_in_chain q c)
  unfolding name_count delete_owner_in_chain find_in_chain without_owner
  find-delete_owner_in_chain [] h = refl
  find-delete_owner_in_chain (x ∷ c) h =
      ground (arith, find-delete_owner_in_chain c, find_in_chain_absent q c)
