-- ===== src/Propagation.antt =====
-- A change of a file on its way from one peer through the tracker to another: `peer_file_update_task`
-- of server/start.c and the broadcast handler of client/start.c. The tables travel without loss.
use Prim.Native.Nat.{max}
use tele_sync.Prelude.{
  ℕ, suc, ◌≡◌, refl, sym, ap, subst, ◌∙◌, List, [], ◌∷◌, some, arith, same_name, same_name→eq,
  if◌then◌else◌, Option-cases, inl, inr,
}
use tele_sync.TransTable.{OperationType, file_add, file_modify, TransFileEntry}
use tele_sync.FileTable.{
  FileEntry, FileTable, file_table_search, file_table_find, trans_entry_fill_from,
}
use tele_sync.FileTable.Valid.{IsValid}
use tele_sync.FileTable.Refines.{
  Writes, merged, merged-name, file_table_add-Writes, search-name, file_entry_update-fst,
}
use tele_sync.Server.Sync.{filled_as}
use tele_sync.Server.Sync.Versions.{version}
use tele_sync.Server.Update.{update_entry, update_as, modify_entry}
use tele_sync.Server.Update.Stored.{update_entry-Writes, reported}
use tele_sync.Client.{broadcast_entry_handler, broadcast_handler}
use tele_sync.Client.Follow.{handled, version-kept, broadcast_entry_handler-Writes}

module _ (me : ℕ) {mine : FileTable} (u : IsValid mine) where
  one_entry :
      (te : TransFileEntry)
      → (broadcast_handler me mine (te ∷ [])).0 ≡ (broadcast_entry_handler me mine te).0
  unfolding broadcast_handler
  one_entry te = refl

  -- A peer that is told of `fe` ends with the greater version.
  handle_added :
      (fe : FileEntry) (q : List ℕ)
      → version
          (file_table_search (broadcast_handler me mine (filled_as file_add (some fe) ∷ [])).0 q)
        ≡ (if same_name fe.name q
            then max (version (file_table_search mine q)) (suc fe.timestamp)
            else version (file_table_search mine q))
  unfolding filled_as trans_entry_fill_from handled
  handle_added fe q =
      let te = filled_as file_add (some fe) in
      rw (one_entry te) (
        ground (
          arith,
          (broadcast_entry_handler-Writes me u te).reads q,
          version-kept me (file_table_search mine fe.name) te,
          same_name→eq fe.name q,
        ))

  handle_modified :
      (fe : FileEntry) (q : List ℕ)
      → version
          (file_table_search (broadcast_handler me mine (filled_as file_modify (some fe) ∷ [])).0 q)
        ≡ (if same_name fe.name q
            then max (version (file_table_search mine q)) (suc fe.timestamp)
            else version (file_table_search mine q))
  unfolding filled_as trans_entry_fill_from handled
  handle_modified fe q =
      let te = filled_as file_modify (some fe) in
      rw (one_entry te) (
        ground (
          arith,
          (broadcast_entry_handler-Writes me u te).reads q,
          version-kept me (file_table_search mine fe.name) te,
          same_name→eq fe.name q,
        ))

module _ {t : FileTable} (v : IsValid t) (te : TransFileEntry) where
  -- What the tracker stores for an addition or a modification.
  stored : FileEntry
  stored = merged (file_table_search t te.name) te

  stored-name : stored.name ≡ te.name
  unfolding stored merged
  stored-name = elim (Option-cases (file_table_search t te.name)) [
    | inl e ↦ rw (e, merged)
    | inr (fe, e) ↦ rw (e, merged) (merged-name fe te ∙ sym (search-name v te fe e))
  ]

  now_stored :
      (op : OperationType)
      → te.op_type ≡ op
      → Writes t te.name (reported (file_table_search t te.name) te op) (update_entry t te).0
  now_stored op e =
      subst
        (λ o. Writes t te.name (reported (file_table_search t te.name) te o) (update_entry t te).0)
        e (update_entry-Writes v te)

  sent_as : (op : OperationType) → te.op_type ≡ op → (update_entry t te).1 ≡ (update_as op t te).1
  unfolding update_entry
  sent_as op e = ap (λ o. (update_as o t te).1) e

  sent_added : te.op_type ≡ file_add → (update_entry t te).1 ≡ filled_as file_add (some stored) ∷ []
  unfolding update_as stored
  sent_added e =
      sent_as file_add e
      ∙ ap (λ fe. filled_as file_add (some fe) ∷ []) (file_table_add-Writes v te).0

  sent_modified :
      (old : FileEntry)
      → file_table_search t te.name ≡ some old
      → te.op_type ≡ file_modify
      → (update_entry t te).1 ≡ filled_as file_modify (some stored) ∷ []
  unfolding update_as modify_entry file_table_find stored
  sent_modified old found e =
      sent_as file_modify e
      ∙ rw (found, modify_entry)
          (ap (λ fe. filled_as file_modify (some fe) ∷ []) (file_entry_update-fst old te))

  module _ (me : ℕ) {mine : FileTable} (u : IsValid mine) where
    -- Another peer that handles the broadcast of an addition ends, for that file, with the greater of
    -- its own version and the version that the tracker has stored; its other files keep theirs.
    pub addition_propagates :
        te.op_type ≡ file_add
        → (q : List ℕ)
        → version (file_table_search (broadcast_handler me mine (update_entry t te).1).0 q) ≡ (
            if same_name te.name q
            then max
                (version (file_table_search mine q))
                (version (file_table_search (update_entry t te).0 q))
            else version (file_table_search mine q))
    unfolding stored reported version
    addition_propagates e q =
        rw (sent_added e)
          (ground (arith, handle_added me u stored q, stored-name, (now_stored file_add e).reads q))

    -- The same for the modification of a file that the tracker knows.
    pub modification_propagates :
        (old : FileEntry)
        → file_table_search t te.name ≡ some old
        → te.op_type ≡ file_modify
        → (q : List ℕ)
        → version (file_table_search (broadcast_handler me mine (update_entry t te).1).0 q) ≡ (
            if same_name te.name q
            then max
                (version (file_table_search mine q))
                (version (file_table_search (update_entry t te).0 q))
            else version (file_table_search mine q))
    unfolding stored reported version
    modification_propagates old found e q = rw (sent_modified old found e) (
        ground
          (arith, handle_modified me u stored q, stored-name, (now_stored file_modify e).reads q))
