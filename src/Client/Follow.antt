-- ===== src/Client/Follow.antt =====
-- What a peer's table holds after the handlers of client/start.c.
use Prim.Native.Nat.{max}
use tele_sync.Prelude.{
  ℕ, suc, ◌≤◌, ◌≡◌, sym, subst, List, [], ◌∷◌, Option, none, some, arith, same_name→eq,
  if◌then◌else◌, Option-cases, inl, inr, Bool-cases, false, ltb, ◌==◌,
}
use tele_sync.TransTable.{
  OperationType, file_none, file_add, file_delete, file_modify, unknown_op, PeerId, TransFileEntry,
  TransFileTable,
}
use tele_sync.FileTable.{
  FileEntry, FileTable, peer_id_list_add, peer_id_list_replace, file_entry_update_timestamp,
  file_entry_write, file_table_search, file_table_find,
}
use tele_sync.FileTable.Owners.{
  IsDistinct, owner_count, has_owner, nil-IsDistinct, peer_id_list_add-IsDistinct,
  peer_id_list_destroy-eq-nil, has_owner_absent,
}
use tele_sync.FileTable.Refines.{
  Writes, merged, file_table_add-Writes, file_entry_write-Writes, search-name,
  file_table_delete-Writes, unchanged-Writes,
}
use tele_sync.FileTable.Valid.{IsValid}
use tele_sync.Server.Sync.Versions.{version, latest, version-merged}
use tele_sync.Client.{
  handle_as, broadcast_entry_handler, remove_first, peer_id_list_remove_myself, follow_known,
  follow_new, follow, file_table_sync,
}

owner_count-remove_first :
    (me q : ℕ) (ps : List PeerId) → owner_count q (remove_first me ps) ≤ owner_count q ps
unfolding remove_first owner_count
owner_count-remove_first me q [] = omega arith
owner_count-remove_first me q (p ∷ ps) = ground (arith, owner_count-remove_first me q ps)

-- Of a list that holds an address once, the removal takes that address and no other.
has_owner-remove_first :
    (me q : ℕ) (ps : List PeerId)
    → owner_count me ps ≤ 1
    → has_owner q (remove_first me ps) ≡ (if me == q then false else has_owner q ps)
unfolding remove_first has_owner owner_count
has_owner-remove_first me q [] h = ground arith
has_owner-remove_first me q (p ∷ ps) h =
    ground (arith, has_owner-remove_first me q ps, has_owner_absent me ps)

-- The entry that the peer keeps for `te`: the owners are those of `te` but the peer itself, and the
-- time is the later one.
unfoldable pub followed : ℕ → FileEntry → TransFileEntry → FileEntry
followed me fe te = record fe {
  timestamp = max fe.timestamp te.timestamp;
  owners = remove_first me (peer_id_list_add [] te.owners);
}

follow_known-followed :
    (me : ℕ) (t : FileTable) (te : TransFileEntry) (fe : FileEntry)
    → (follow_known me t te fe).0 ≡ file_entry_write t (followed me fe te)
unfolding follow_known followed peer_id_list_remove_myself peer_id_list_replace
    file_entry_update_timestamp
follow_known-followed me t te fe = elim (Bool-cases (ltb fe.timestamp te.timestamp)) [
  | inl e ↦
      let m : max fe.timestamp te.timestamp ≡ te.timestamp = ground arith in
      rw (peer_id_list_destroy-eq-nil fe.owners, e, m)
  | inr e ↦
      let m : max fe.timestamp te.timestamp ≡ fe.timestamp = ground arith in
      rw (peer_id_list_destroy-eq-nil fe.owners, e, m)
]

followed-IsDistinct :
    (me : ℕ) (fe : FileEntry) (te : TransFileEntry) → IsDistinct (followed me fe te).owners
unfolding followed
followed-IsDistinct me fe te q = omega (
  arith,
  owner_count-remove_first me q (peer_id_list_add [] te.owners),
  peer_id_list_add-IsDistinct [] te.owners nil-IsDistinct q,
)

-- What `follow` stores under the name of `te`.
pub kept : ℕ → Option FileEntry → TransFileEntry → FileEntry
kept me none te = merged none te
kept me (some fe) te = followed me fe te

pub version-kept :
    (me : ℕ) (o : Option FileEntry) (te : TransFileEntry)
    → version (some (kept me o te)) ≡ max (version o) (suc te.timestamp)
unfolding kept version followed
version-kept me none te = version-merged none te
version-kept me (some fe) te = omega arith

module _ (me : ℕ) {t : FileTable} (v : IsValid t) (te : TransFileEntry) where
  write_followed :
      (fe : FileEntry)
      → file_table_search t te.name ≡ some fe
      → Writes t te.name (some (followed me fe te)) (file_entry_write t (followed me fe te))
  unfolding followed
  write_followed fe found =
      let new = followed me fe te in
      let named = search-name v te fe found in
      subst (λ k. Writes t k (some new) (file_entry_write t new)) (sym named)
        (file_entry_write-Writes v new fe (subst (λ k. file_table_search t k ≡ some fe) named found)
          (followed-IsDistinct me fe te))

  -- `follow` changes the table under the name of `te` alone.
  pub follow-Writes :
      Writes t te.name (some (kept me (file_table_search t te.name) te)) (follow me t te).0
  unfolding follow follow_new file_table_find kept
  follow-Writes = elim (Option-cases (file_table_search t te.name)) [
    | inl e ↦ rw (e, follow) (rw e at (file_table_add-Writes v te).1)
    | inr (fe, e) ↦ rw (e, follow, follow_known-followed me t te fe) (write_followed fe e)
  ]

-- The answer to PEER_SYNC leaves a valid table, in which every file has the greater of two versions.
pub file_table_sync-version :
    (me : ℕ) (tft : TransFileTable) {t : FileTable}
    → IsValid t
    → IsValid (file_table_sync me t tft).0
      × ((q : List ℕ)
          → version (file_table_search (file_table_sync me t tft).0 q)
            ≡ max (version (file_table_search t q)) (latest q tft))
unfolding file_table_sync latest
file_table_sync-version me [] v = (v, λ q. omega arith)
file_table_sync-version me (te ∷ tft) {t} v =
    let w = follow-Writes me v te in
    let (valid, reads) = file_table_sync-version me tft w.valid in
    (
      valid,
      λ q. ground (
        arith,
        reads q,
        w.reads q,
        version-kept me (file_table_search t te.name) te,
        same_name→eq te.name q,
      ),
    )

-- What a broadcast entry makes of the entry of that name.
unfoldable pub handled : ℕ → Option FileEntry → TransFileEntry → OperationType → Option FileEntry
handled me o te file_add = some (kept me o te)
handled me o te file_modify = some (kept me o te)
handled me o te file_delete = none
handled me o te file_none = o
handled me o te (unknown_op k) = o

handle_as-Writes :
    (me : ℕ) {t : FileTable}
    → IsValid t
    → (te : TransFileEntry) (op : OperationType)
    → Writes t te.name (handled me (file_table_search t te.name) te op) (handle_as op me t te).0
unfolding handle_as handled
handle_as-Writes me v te file_add = follow-Writes me v te
handle_as-Writes me v te file_modify = follow-Writes me v te
handle_as-Writes me v te file_delete = (file_table_delete-Writes v te).1
handle_as-Writes me v te file_none = unchanged-Writes v te.name
handle_as-Writes me v te (unknown_op k) = unchanged-Writes v te.name

-- A broadcast entry changes a peer's table under its name alone: additions and modifications are
-- followed, a deletion clears the name, and any other operation changes nothing.
pub broadcast_entry_handler-Writes :
    (me : ℕ) {t : FileTable}
    → IsValid t
    → (te : TransFileEntry)
    → Writes t te.name
        (handled me (file_table_search t te.name) te te.op_type)
        (broadcast_entry_handler me t te).0
unfolding broadcast_entry_handler
broadcast_entry_handler-Writes me v te = handle_as-Writes me v te te.op_type
