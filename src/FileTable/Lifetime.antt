-- ===== src/FileTable/Lifetime.antt =====
-- The empty table, the teardown of a table and its copy for the wire, of file_table.c.
use tele_sync.Prelude.{
  ℕ, zero, suc, ◌-◌, ◌^◌, ◌≤◌, ◌≡◌, refl, List, [], ◌∷◌, none, arith, same_name_refl, length,
  concat, replicate, length-replicate, get_or-replicate, Option-cases, inl, inr,
}
use tele_sync.FileTable.{
  FileEntry, FileTable, find_in_chain, chain_of, file_table_search, file_table_init, hash_init,
  file_entry_delete,
}
use tele_sync.FileTable.Sweep.{destroy_entries, file_table_destroy}
use tele_sync.FileTable.Chain.{name_count}
use tele_sync.FileTable.Valid.{IsValid}
use tele_sync.FileTable.Refines.{file_entry_delete-Writes}
use tele_sync.FileTable.Walk.{present, concat-search}

concat-replicate-nil : (n : ℕ) → concat (replicate {A = List FileEntry} n []) ≡ []
unfolding concat replicate
concat-replicate-nil zero = refl
concat-replicate-nil (suc n) = concat-replicate-nil n

-- A fresh array of 2 ^ width empty chains.
unfoldable pub fresh : ℕ → FileTable
unfolding hash_init
fresh width = record { n = 0; buckets = hash_init (2 ^ width) }

pub search-fresh : (width : ℕ) (q : List ℕ) → file_table_search (fresh width) q ≡ none
unfolding fresh file_table_search chain_of find_in_chain
search-fresh width q = rw (get_or-replicate {A = List FileEntry}) refl

pub fresh-IsValid : (width : ℕ) → width ≤ 32 → IsValid (fresh width)
unfolding fresh name_count
fresh-IsValid width h = record {
  width = width;
  narrow = h;
  sized = length-replicate (2 ^ width) [];
  placed = λ q i. rw (get_or-replicate {A = List FileEntry}) (omega arith);
  counted = rw (concat-replicate-nil (2 ^ width)) (omega arith);
  distinct = λ q fe e. cc (search-fresh width q);
}

-- `file_table_init` makes a valid table with no entry.
pub file_table_init-empty :
    IsValid file_table_init × ((q : List ℕ) → file_table_search file_table_init q ≡ none)
unfolding file_table_init fresh
file_table_init-empty = (fresh-IsValid 12 (omega arith), search-fresh 12)

module _ (t : FileTable) (es : List FileEntry) where
  -- `es` lists the entries of `t`, each name once.
  abbrev Lists : Type 0
  Lists = (q : List ℕ) → name_count q es ≡ present (file_table_search t q)

file_entry_delete-n : (t : FileTable) (fe : FileEntry) → (file_entry_delete t fe).n ≡ t.n - 1
unfolding file_entry_delete
file_entry_delete-n t fe = refl

destroy_lists :
    (es : List FileEntry) (t : FileTable)
    → IsValid t
    → Lists t es
    → IsValid (destroy_entries t es)
      × ((q : List ℕ) → file_table_search (destroy_entries t es) q ≡ none)
      × ((destroy_entries t es).n ≡ t.n - length es)
unfolding destroy_entries name_count
destroy_lists [] t v all = (v, λ q. ground (arith, all q), omega arith)
destroy_lists (fe ∷ es) t v all = elim (Option-cases (file_table_search t fe.name)) [
  | inl e ↦ absurd (ground (arith, all fe.name, same_name_refl fe.name))
  | inr (old, e) ↦
      let w = file_entry_delete-Writes v fe old e in
      let (valid, gone, count) =
        destroy_lists es (file_entry_delete t fe) w.valid (λ q. ground (arith, all q, w.reads q)) in
      (valid, gone, omega (arith, count, file_entry_delete-n t fe))
]

-- Teardown deletes every entry, in a table that stays valid, and takes their number off `n`.
pub file_table_destroy-empty :
    {t : FileTable}
    → IsValid t
    → IsValid (file_table_destroy t)
      × ((q : List ℕ) → file_table_search (file_table_destroy t) q ≡ none)
      × ((file_table_destroy t).n ≡ t.n - length (concat t.buckets))
unfolding file_table_destroy
file_table_destroy-empty {t} v = destroy_lists (concat t.buckets) t v (λ q. (concat-search v q).1)
