-- ===== src/FileTable/Sweep.antt =====
-- The functions of file_table.c that walk over every bucket, and the comparison of two owner lists.
use tele_sync.Prelude.{
  ℕ, List, [], ◌∷◌, some, Bool, true, false, ◌==◌, ◌&&◌, if◌then◌else◌, length, concat, map,
}
use tele_sync.TransTable.{PeerId, TransFileEntry, TransFileTable, blank_entry}
use tele_sync.FileTable.{FileEntry, FileTable, trans_entry_fill_from, file_entry_delete}

unfoldable pub remove_owner : ℕ → List PeerId → List PeerId
remove_owner ip [] = []
remove_owner ip (p ∷ ps) = if p.ip == ip then remove_owner ip ps else p ∷ remove_owner ip ps

unfoldable pub list_empty : List PeerId → Bool
list_empty [] = true
list_empty (p ∷ ps) = false

unfoldable pub delete_owner_in_chain : ℕ → List FileEntry → List FileEntry
delete_owner_in_chain ip [] = []
delete_owner_in_chain ip (fe ∷ chain) =
    let owners = remove_owner ip fe.owners in
    let rest = delete_owner_in_chain ip chain in
    if list_empty owners then rest else record fe { owners = owners } ∷ rest

-- `table->n` keeps its value.
unfoldable pub file_table_delete_owner : FileTable → ℕ → FileTable
file_table_delete_owner table ip = record table {
  buckets = map (delete_owner_in_chain ip) table.buckets;
}

unfoldable pub destroy_entries : FileTable → List FileEntry → FileTable
destroy_entries table [] = table
destroy_entries table (fe ∷ entries) = destroy_entries (file_entry_delete table fe) entries

unfoldable pub file_table_destroy : FileTable → FileTable
file_table_destroy table = destroy_entries table (concat table.buckets)

unfoldable pub fill_entries : List FileEntry → TransFileTable
fill_entries [] = []
fill_entries (fe ∷ entries) = trans_entry_fill_from blank_entry (some fe) ∷ fill_entries entries

unfoldable pub trans_table_fill_from : FileTable → TransFileTable
trans_table_fill_from ft = fill_entries (concat ft.buckets)

-- The second loop, over lists that the first found equally long.
unfoldable pub same_owners : List PeerId → List PeerId → Bool
same_owners [] owners = true
same_owners (p ∷ ps) [] = true
same_owners (p ∷ ps) (o ∷ owners) =
    if p.ip == o.ip && p.port == o.port then same_owners ps owners else false

unfoldable pub has_same_owners : FileEntry → TransFileEntry → Bool
has_same_owners fe te =
    if length fe.owners == length te.owners then same_owners fe.owners te.owners else false
