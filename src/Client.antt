-- ===== src/Client.antt =====
-- client/start.c: how a peer follows the tracker. The functions change the peer's file table and list
-- what they start: downloads, by the entry handed to the new thread, and removals from the disk.
pub mod Follow
pub mod Ports
pub mod Held
pub mod Packets
use tele_sync.Prelude.{ℕ, List, [], ◌∷◌, ◌++◌, Option, none, some, ltb, ◌==◌, if◌then◌else◌}
use tele_sync.TransTable.{
  OperationType, file_none, file_add, file_delete, file_modify, unknown_op, PeerId, TransFileEntry,
  TransFileTable,
}
use tele_sync.FileTable.{
  FileEntry, FileTable, peer_id_list_replace, file_entry_update_timestamp, file_entry_write,
  file_table_find, file_table_add, file_table_delete,
}

-- What runs beside the handler: `ptop_download_task` for an entry, `file_delete` for a name.
pub data Action : Type 0 where
  download : FileEntry → Action
  remove : TransFileEntry → Action

-- The first owner with the peer's own address goes.
unfoldable pub remove_first : ℕ → List PeerId → List PeerId
remove_first my_ip [] = []
remove_first my_ip (p ∷ ps) = if p.ip == my_ip then ps else p ∷ remove_first my_ip ps

unfoldable pub peer_id_list_remove_myself : ℕ → FileEntry → FileEntry
peer_id_list_remove_myself my_ip fe = record fe { owners = remove_first my_ip fe.owners }

-- The branch for an entry that is in the table already.
unfoldable pub follow_known : ℕ → FileTable → TransFileEntry → FileEntry → FileTable × List Action
follow_known my_ip ft te fe =
    let owned = peer_id_list_remove_myself my_ip (peer_id_list_replace fe te) in
    let newer = file_entry_update_timestamp owned te.timestamp in
    if ltb owned.timestamp te.timestamp
    then (file_entry_write ft newer, download newer ∷ [])
    else (file_entry_write ft owned, [])

-- The branch for a new entry.
unfoldable pub follow_new : FileTable → TransFileEntry → FileTable × List Action
follow_new ft te = ((file_table_add ft te).0, download (file_table_add ft te).1 ∷ [])

unfoldable pub follow : ℕ → FileTable → TransFileEntry → FileTable × List Action
follow my_ip ft te = elim (file_table_find ft te) [
  | none ↦ follow_new ft te
  | some fe ↦ follow_known my_ip ft te fe
]

-- The loop over the answer to PEER_SYNC.
unfoldable pub file_table_sync : ℕ → FileTable → TransFileTable → FileTable × List Action
file_table_sync my_ip ft [] = (ft, [])
file_table_sync my_ip ft (te ∷ tft) =
    let (ft₁, acts₁) = follow my_ip ft te in
    let (ft₂, acts₂) = file_table_sync my_ip ft₁ tft in (ft₂, acts₁ ++ acts₂)

-- The switch over the operation.
unfoldable pub handle_as : OperationType → ℕ → FileTable → TransFileEntry → FileTable × List Action
handle_as file_add my_ip ft te = follow my_ip ft te
handle_as file_delete my_ip ft te = ((file_table_delete ft te).0, remove te ∷ [])
handle_as file_modify my_ip ft te = follow my_ip ft te
handle_as file_none my_ip ft te = (ft, [])
handle_as (unknown_op k) my_ip ft te = (ft, [])

unfoldable pub broadcast_entry_handler : ℕ → FileTable → TransFileEntry → FileTable × List Action
broadcast_entry_handler my_ip ft te = handle_as te.op_type my_ip ft te

-- The loop over a TRACKER_BROADCAST.
unfoldable pub broadcast_handler : ℕ → FileTable → TransFileTable → FileTable × List Action
broadcast_handler my_ip ft [] = (ft, [])
broadcast_handler my_ip ft (te ∷ tft) =
    let (ft₁, acts₁) = broadcast_entry_handler my_ip ft te in
    let (ft₂, acts₂) = broadcast_handler my_ip ft₁ tft in (ft₂, acts₁ ++ acts₂)
