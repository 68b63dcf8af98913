-- ===== src/FileTable/Refines.antt =====
-- file_table.c as a map from names to entries: what each operation does to the map, on every branch.
use tele_sync.Prelude.{
  ℕ, ◌+◌, ◌-◌, ◌≤◌, ◌≡◌, refl, sym, ap, subst, ◌∙◌, List, [], ◌∷◌, Option, none, some, arith,
  if◌then◌else◌, ◌==◌, ltb, same_name, same_name→eq, length, concat, Option-cases, inl, inr,
}
use tele_sync.Hash.Bounds.{search_bucket-eq-add_bucket}
use tele_sync.TransTable.{TransFileEntry}
use tele_sync.FileTable.{
  FileEntry, FileTable, Status, success, failure, find_in_chain, chain_of, set_chain,
  file_table_search, file_entry_write, file_entry_add, file_entry_delete, file_entry_update,
  file_entry_fill_from, file_entry_alloc, file_table_add, file_table_update, file_table_delete,
  peer_id_list_add, peer_id_list_replace, write_in_chain, delete_in_chain,
}
use tele_sync.FileTable.Owners.{
  IsDistinct, nil-IsDistinct, peer_id_list_add-IsDistinct, peer_id_list_destroy-eq-nil,
}
use tele_sync.FileTable.Chain.{
  name_count, find_in_chain-name, find-write_in_chain, name_count-write_in_chain,
  length-write_in_chain, find-delete_in_chain, name_count-delete_in_chain, length-delete_in_chain,
  find_in_chain-cons, name_count-cons, name_count_absent,
}
use tele_sync.FileTable.Valid.{
  IsValid, name_count_home, name_count_chain, with_chain, search-with_chain, with_chain-IsValid,
}

-- From `t` to `t'` the map changes at `k` alone, where it becomes `r`.
pub record Writes (t : FileTable) (k : List ℕ) (r : Option FileEntry) (t' : FileTable)
    : Type 0 where
  pub valid : IsValid t'
  pub reads :
      (q : List ℕ) → file_table_search t' q ≡ (if same_name k q then r else file_table_search t q)

with_chain-Writes :
    {t : FileTable} (v : IsValid t) (k : List ℕ) (m : ℕ) (c : List FileEntry) (r : Option FileEntry)
    → ((q : List ℕ)
        → find_in_chain q c ≡ (if same_name k q then r else find_in_chain q (chain_of t k)))
    → ((q : List ℕ) → name_count q c ≤ (if same_name k q then 1 else name_count q (chain_of t k)))
    → length (concat t.buckets) + length c ≤ m + length (chain_of t k)
    → ((fe : FileEntry) → r ≡ some fe → IsDistinct fe.owners)
    → Writes t k r (with_chain t k m c)
with_chain-Writes v k m c r h few size own = record {
  valid = with_chain-IsValid v k m c r h few size own;
  reads = search-with_chain v k m c r h;
}

module _ {t : FileTable} (v : IsValid t) (fe : FileEntry) where
  some-IsDistinct :
      IsDistinct fe.owners → (fe' : FileEntry) → some fe ≡ some fe' → IsDistinct fe'.owners
  some-IsDistinct d fe' e ip = ground (arith, d ip)

  pub file_entry_write-Writes :
      (old : FileEntry)
      → file_table_search t fe.name ≡ some old
      → IsDistinct fe.owners
      → Writes t fe.name (some fe) (file_entry_write t fe)
  unfolding file_entry_write set_chain file_table_search
  file_entry_write-Writes old found d =
      with_chain-Writes v fe.name t.n (write_in_chain fe (chain_of t fe.name)) (some fe)
        (λ q. find-write_in_chain q fe (chain_of t fe.name) old found)
        (λ q. ground (
          arith,
          name_count-write_in_chain q fe (chain_of t fe.name),
          name_count_home v fe.name,
          same_name→eq fe.name q,
        ))
        (omega (arith, v.counted, length-write_in_chain fe (chain_of t fe.name)))
        (some-IsDistinct d)

  pub file_entry_add-Writes :
      file_table_search t fe.name ≡ none
      → IsDistinct fe.owners
      → Writes t fe.name (some fe) (file_entry_add t fe)
  unfolding file_entry_add file_table_search chain_of
  file_entry_add-Writes absent d = rw (← search_bucket-eq-add_bucket fe.name (length t.buckets)) (
      with_chain-Writes v fe.name (t.n + 1) (fe ∷ chain_of t fe.name) (some fe)
        (λ q. find_in_chain-cons q fe (chain_of t fe.name))
        (λ q. ground (
          arith,
          name_count-cons q fe (chain_of t fe.name),
          name_count_absent fe.name (chain_of t fe.name),
          same_name→eq fe.name q,
        ))
        (omega (arith, v.counted)) (some-IsDistinct d))

  pub file_entry_delete-Writes :
      (old : FileEntry)
      → file_table_search t fe.name ≡ some old
      → Writes t fe.name none (file_entry_delete t fe)
  unfolding file_entry_delete set_chain file_table_search
  file_entry_delete-Writes old found =
      with_chain-Writes v fe.name (t.n - 1) (delete_in_chain fe.name (chain_of t fe.name)) none
        (λ q. find-delete_in_chain fe.name q (chain_of t fe.name) (name_count_chain v fe.name q))
        (λ q. ground (
          arith,
          name_count-delete_in_chain fe.name q (chain_of t fe.name),
          name_count_home v fe.name,
          same_name→eq fe.name q,
        ))
        (omega (arith, v.counted, length-delete_in_chain fe.name (chain_of t fe.name) old found))
        (λ fe' e. cc)

-- What an entry, if there is one, becomes when `te` arrives: the newer time wins with its owners, at
-- the same time the owners are joined, and an older `te` changes nothing.
unfoldable pub merged : Option FileEntry → TransFileEntry → FileEntry
merged none te = record {
  name = te.name;
  timestamp = te.timestamp;
  type = te.file_type;
  owners = peer_id_list_add [] te.owners;
}
merged (some fe) te =
    if ltb fe.timestamp te.timestamp
    then record fe { timestamp = te.timestamp; owners = peer_id_list_add [] te.owners }
    else if fe.timestamp == te.timestamp
    then record fe { owners = peer_id_list_add fe.owners te.owners }
    else fe

unfoldable pub refreshed : Option FileEntry → TransFileEntry → Option FileEntry
refreshed none te = none
refreshed (some fe) te = some (merged (some fe) te)

unfoldable pub status_of : Option FileEntry → Status
status_of none = failure
status_of (some fe) = success

-- An update answers 0 unless `te` is older, and leaves what `merged` says.
pub file_entry_update-merged :
    (fe : FileEntry) (te : TransFileEntry)
    → file_entry_update fe te
      ≡ (merged (some fe) te, (if ltb te.timestamp fe.timestamp then failure else success))
unfolding file_entry_update merged peer_id_list_replace
file_entry_update-merged fe te = ground (arith, peer_id_list_destroy-eq-nil fe.owners)

pub file_entry_update-fst :
    (fe : FileEntry) (te : TransFileEntry) → (file_entry_update fe te).0 ≡ merged (some fe) te
file_entry_update-fst fe te = ap (λ (p : FileEntry × Status). p.0) (file_entry_update-merged fe te)

file_entry_fill_from-alloc :
    (te : TransFileEntry) → file_entry_fill_from file_entry_alloc te ≡ merged none te
unfolding file_entry_fill_from file_entry_alloc merged
file_entry_fill_from-alloc te = refl

merged-IsDistinct :
    (fe : FileEntry) (te : TransFileEntry)
    → IsDistinct fe.owners
    → IsDistinct (merged (some fe) te).owners
unfolding merged
merged-IsDistinct fe te d ip = ground (
  arith,
  d ip,
  peer_id_list_add-IsDistinct [] te.owners nil-IsDistinct ip,
  peer_id_list_add-IsDistinct fe.owners te.owners d ip,
)

pub merged-name : (fe : FileEntry) (te : TransFileEntry) → (merged (some fe) te).name ≡ fe.name
unfolding merged
merged-name fe te = ground arith

pub unchanged-Writes :
    {t : FileTable} → IsValid t → (k : List ℕ) → Writes t k (file_table_search t k) t
unchanged-Writes {t} v k = record { valid = v; reads = λ q. ground (arith, same_name→eq k q) }

module _ {t : FileTable} (v : IsValid t) (te : TransFileEntry) where
  pub search-name : (fe : FileEntry) → file_table_search t te.name ≡ some fe → te.name ≡ fe.name
  unfolding file_table_search
  search-name fe found = sym (find_in_chain-name te.name (chain_of t te.name) fe found)

  pub write_merged :
      (fe : FileEntry)
      → file_table_search t te.name ≡ some fe
      → Writes t te.name (some (merged (some fe) te)) (file_entry_write t (merged (some fe) te))
  write_merged fe found =
      let new = merged (some fe) te in
      let named = search-name fe found ∙ sym (merged-name fe te) in
      subst (λ k. Writes t k (some new) (file_entry_write t new)) (sym named)
        (file_entry_write-Writes v new fe (subst (λ k. file_table_search t k ≡ some fe) named found)
          (merged-IsDistinct fe te (v.distinct te.name fe found)))

  add_merged :
      file_table_search t te.name ≡ none
      → Writes t te.name (some (merged none te)) (file_entry_add t (merged none te))
  unfolding merged
  add_merged absent =
      file_entry_add-Writes v (merged none te) absent
        (peer_id_list_add-IsDistinct [] te.owners nil-IsDistinct)

  delete_found :
      (fe : FileEntry)
      → file_table_search t te.name ≡ some fe
      → Writes t te.name none (file_entry_delete t fe)
  delete_found fe found =
      let named = search-name fe found in
      subst (λ k. Writes t k none (file_entry_delete t fe)) (sym named)
        (file_entry_delete-Writes v fe fe
          (subst (λ k. file_table_search t k ≡ some fe) named found))

  -- `file_table_add` returns the merged entry and stores it under its name; nothing else changes.
  pub file_table_add-Writes :
      ((file_table_add t te).1 ≡ merged (file_table_search t te.name) te)
      × Writes t te.name (some (merged (file_table_search t te.name) te)) (file_table_add t te).0
  unfolding file_table_add
  file_table_add-Writes = elim (Option-cases (file_table_search t te.name)) [
    | inl e ↦ rw (e, file_table_add, file_entry_fill_from-alloc te) (refl, add_merged e)
    | inr (fe, e) ↦ rw (e, file_table_add, file_entry_update-fst fe te) (refl, write_merged fe e)
  ]

  -- `file_table_update` succeeds exactly on a name that is there, and then stores the merged entry.
  pub file_table_update-Writes :
      ((file_table_update t te).1 ≡ status_of (file_table_search t te.name))
      × Writes t te.name (refreshed (file_table_search t te.name) te) (file_table_update t te).0
  unfolding file_table_update refreshed status_of
  file_table_update-Writes = elim (Option-cases (file_table_search t te.name)) [
    | inl e ↦ rw (e, file_table_update) (refl, rw e at (unchanged-Writes v te.name))
    | inr (fe, e) ↦ rw (e, file_table_update, file_entry_update-fst fe te) (refl, write_merged fe e)
  ]

  -- `file_table_delete` succeeds exactly on a name that is there; afterwards the name is not there.
  pub file_table_delete-Writes :
      ((file_table_delete t te).1 ≡ status_of (file_table_search t te.name))
      × Writes t te.name none (file_table_delete t te).0
  unfolding file_table_delete status_of
  file_table_delete-Writes = elim (Option-cases (file_table_search t te.name)) [
    | inl e ↦ rw (e, file_table_delete) (refl, rw e at (unchanged-Writes v te.name))
    | inr (fe, e) ↦ rw (e, file_table_delete) (refl, delete_found fe e)
  ]
