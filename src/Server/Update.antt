-- ===== src/Server/Update.antt =====
-- `peer_file_update_task` of server/start.c: a peer reports changes of files, and the tracker tells the
-- other peers.
pub mod Stored
use tele_sync.Prelude.{List, [], ◌∷◌, ◌++◌, ℕ, Option, none, some}
use tele_sync.TransTable.{
  OperationType, file_none, file_add, file_delete, file_modify, unknown_op, TransFileEntry,
  TransFileTable,
}
use tele_sync.FileTable.{
  FileTable, Status, success, failure, file_entry_update, file_entry_write, file_table_find,
  file_table_add, file_table_delete,
}
use tele_sync.Server.{Tracker, Outbox, broadcast_update}
use tele_sync.Server.Sync.{filled_as}

-- The case FILE_MODIFY. For a name that is not there, `fe` stays null: `trans_entry_fill_from` then
-- leaves the slot blank.
unfoldable pub modify_entry : FileTable → TransFileEntry → FileTable × TransFileTable
modify_entry ft te = elim (file_table_find ft te) [
  | none ↦ ((file_table_add ft te).0, filled_as file_add none ∷ [])
  | some fe ↦
      let updated = (file_entry_update fe te).0 in
      (file_entry_write ft updated, filled_as file_modify (some updated) ∷ [])
]

unfoldable pub if_deleted : Status → TransFileEntry → TransFileTable
if_deleted success te = te ∷ []
if_deleted failure te = []

-- The switch over the operation: the table, and what goes into the broadcast.
unfoldable pub update_as : OperationType → FileTable → TransFileEntry → FileTable × TransFileTable
update_as file_add ft te =
    ((file_table_add ft te).0, filled_as file_add (some (file_table_add ft te).1) ∷ [])
update_as file_delete ft te =
    ((file_table_delete ft te).0, if_deleted (file_table_delete ft te).1 te)
update_as file_modify ft te = modify_entry ft te
update_as file_none ft te = (ft, [])
update_as (unknown_op k) ft te = (ft, [])

unfoldable pub update_entry : FileTable → TransFileEntry → FileTable × TransFileTable
update_entry ft te = update_as te.op_type ft te

unfoldable pub update_entries :
    FileTable → TransFileTable → TransFileTable → FileTable × TransFileTable
update_entries ft new_tft [] = (ft, new_tft)
update_entries ft new_tft (te ∷ tft) =
    update_entries (update_entry ft te).0 (new_tft ++ (update_entry ft te).1) tft

unfoldable pub peer_file_update_task : Tracker → ℕ → TransFileTable → Tracker × Outbox
peer_file_update_task tracker conn tft =
    let (ft, new_tft) = update_entries tracker.ft [] tft in
    (record tracker { ft = ft }, broadcast_update tracker.pt new_tft (some conn))
