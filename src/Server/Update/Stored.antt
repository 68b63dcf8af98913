-- ===== src/Server/Update/Stored.antt =====
-- What `peer_file_update_task` of server/start.c leaves in the tracker's table, and what it broadcasts.
use tele_sync.Prelude.{[], ◌∷◌, ◌++◌, Option, none, some, Option-cases, inl, inr}
use tele_sync.TransTable.{
  OperationType, file_none, file_add, file_delete, file_modify, unknown_op, TransFileEntry,
  TransFileTable,
}
use tele_sync.FileTable.{FileEntry, FileTable, file_table_search, file_table_find}
use tele_sync.FileTable.Refines.{
  Writes, merged, file_table_add-Writes, file_table_delete-Writes, file_entry_update-fst,
  write_merged, unchanged-Writes,
}
use tele_sync.FileTable.Valid.{IsValid}
use tele_sync.Server.Update.{modify_entry, update_as, update_entry, update_entries}

-- What the report makes of the entry of that name.
unfoldable pub reported : Option FileEntry → TransFileEntry → OperationType → Option FileEntry
reported o te file_add = some (merged o te)
reported o te file_modify = some (merged o te)
reported o te file_delete = none
reported o te file_none = o
reported o te (unknown_op k) = o

modify_entry-Writes :
    {t : FileTable}
    → IsValid t
    → (te : TransFileEntry)
    → Writes t te.name (some (merged (file_table_search t te.name) te)) (modify_entry t te).0
unfolding modify_entry file_table_find
modify_entry-Writes {t} v te = elim (Option-cases (file_table_search t te.name)) [
  | inl e ↦ rw (e, modify_entry) (rw e at (file_table_add-Writes v te).1)
  | inr (fe, e) ↦ rw (e, modify_entry, file_entry_update-fst fe te) (write_merged v te fe e)
]

update_as-Writes :
    {t : FileTable}
    → IsValid t
    → (te : TransFileEntry) (op : OperationType)
    → Writes t te.name (reported (file_table_search t te.name) te op) (update_as op t te).0
unfolding update_as reported
update_as-Writes v te file_add = (file_table_add-Writes v te).1
update_as-Writes v te file_modify = modify_entry-Writes v te
update_as-Writes v te file_delete = (file_table_delete-Writes v te).1
update_as-Writes v te file_none = unchanged-Writes v te.name
update_as-Writes v te (unknown_op k) = unchanged-Writes v te.name

-- One entry of a report changes the table under its name alone: an addition and a modification store
-- the merged entry, a deletion clears the name, and any other operation changes nothing.
pub update_entry-Writes :
    {t : FileTable}
    → IsValid t
    → (te : TransFileEntry)
    → Writes t te.name (reported (file_table_search t te.name) te te.op_type) (update_entry t te).0
unfolding update_entry
update_entry-Writes v te = update_as-Writes v te te.op_type

-- A whole report keeps the table valid.
pub update_entries-IsValid :
    (tft : TransFileTable) {t : FileTable} (new_tft : TransFileTable)
    → IsValid t
    → IsValid (update_entries t new_tft tft).0
unfolding update_entries
update_entries-IsValid [] new_tft v = v
update_entries-IsValid (te ∷ tft) {t} new_tft v =
    update_entries-IsValid tft (new_tft ++ (update_entry t te).1) (update_entry-Writes v te).valid
