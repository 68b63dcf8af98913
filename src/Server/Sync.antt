-- ===== src/Server/Sync.antt =====
-- `sync_task` of server/start.c: a peer sends its whole table, the tracker answers with what the peer
-- lacks, takes over what is new to itself, and tells the other peers.
pub mod Versions
use tele_sync.Prelude.{
  ℕ, List, [], ◌∷◌, ◌++◌, Option, none, some, ltb, ◌==◌, ◌&&◌, ◌||◌, not, if◌then◌else◌, concat,
}
use tele_sync.TransTable.{
  OperationType, file_add, file_modify, TransFileEntry, TransFileTable, blank_entry,
}
use tele_sync.FileTable.{
  FileEntry, FileTable, trans_entry_fill_from, file_table_find, file_table_add, file_table_update,
}
use tele_sync.FileTable.Sweep.{has_same_owners}
use tele_sync.Server.{Tracker, Outbox, tracker_sync, broadcast_update, trans_file_search}

-- An entry of the table, marked with an operation.
unfoldable pub filled_as : OperationType → Option FileEntry → TransFileEntry
filled_as op fe = record (trans_entry_fill_from blank_entry fe) { op_type = op }

-- What the peer is sent about one entry of the tracker: nothing, or the entry.
unfoldable pub sync_entry : TransFileTable → FileEntry → TransFileTable
sync_entry tft fe = elim (trans_file_search tft fe.name) [
  | none ↦ filled_as file_add (some fe) ∷ []
  | some te ↦
      if ltb te.timestamp fe.timestamp
        || (fe.timestamp == te.timestamp && not (has_same_owners fe te))
      then filled_as file_modify (some fe) ∷ []
      else []
]

unfoldable pub sync_entries : TransFileTable → List FileEntry → TransFileTable
sync_entries tft [] = []
sync_entries tft (fe ∷ fes) = sync_entry tft fe ++ sync_entries tft fes

-- One round of the loop that updates the tracker: the table, and the entries to broadcast.
unfoldable pub sync_self_entry : FileTable → TransFileEntry → FileTable × TransFileTable
sync_self_entry ft te = elim (file_table_find ft te) [
  | none ↦ ((file_table_add ft te).0, record te { op_type = file_add } ∷ [])
  | some fe ↦
      if ltb fe.timestamp te.timestamp
      then ((file_table_update ft te).0, record te { op_type = file_modify } ∷ [])
      else ((file_table_update ft te).0, [])
]

unfoldable pub sync_self : FileTable → TransFileTable → TransFileTable → FileTable × TransFileTable
sync_self ft broad [] = (ft, broad)
sync_self ft broad (te ∷ tft) =
    sync_self (sync_self_entry ft te).0 (broad ++ (sync_self_entry ft te).1) tft

unfoldable pub sync_task : Tracker → ℕ → TransFileTable → Tracker × Outbox
sync_task tracker conn tft =
    let peer_tft = sync_entries tft (concat tracker.ft.buckets) in
    let (ft, broad) = sync_self tracker.ft [] tft in
    (
      record tracker { ft = ft },
      (conn, tracker_sync peer_tft) ∷ broadcast_update tracker.pt broad (some conn),
    )
