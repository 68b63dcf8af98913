-- ===== src/FileTable.antt =====
-- file_table.c, include/file_table.h: the hash table of files and their owners, which the tracker
-- and every peer keep. Locks are not modelled: each function is one step. `calloc` does not fail.
-- A pointer to an entry is the entry of that name in its chain, a write through it replaces that
-- entry. The name buffers are taken to be long enough.
pub mod Sweep
pub mod Owners
pub mod Chain
pub mod Valid
pub mod Refines
pub mod Walk
pub mod Departure
pub mod Lifetime
use tele_sync.Prelude.{
  ℕ, ◌+◌, ◌-◌, ◌^◌, List, [], ◌∷◌, ◌++◌, Option, none, some, Bool, true, false, ltb, ◌==◌,
  if◌then◌else◌, same_name, length, get_or, set, replicate,
}
use tele_sync.Hash.{add_bucket, search_bucket}
use tele_sync.TransTable.{FileType, regular, file_none, PeerId, TransFileEntry}

pub record FileEntry : Type 0 where
  pub name : List ℕ
  pub timestamp : ℕ
  pub type : FileType
  pub owners : List PeerId

pub record FileTable : Type 0 where
  pub n : ℕ
  pub buckets : List (List FileEntry)

-- The `int` results 0 and -1.
pub data Status : Type 0 where
  success failure : Status

unfoldable pub already_in_owners : List PeerId → PeerId → Bool
already_in_owners [] owner = false
already_in_owners (p ∷ ps) owner = if p.ip == owner.ip then true else already_in_owners ps owner

unfoldable pub peer_id_list_add : List PeerId → List PeerId → List PeerId
peer_id_list_add head [] = head
peer_id_list_add head (owner ∷ owners) =
    peer_id_list_add (if already_in_owners head owner then head else head ++ owner ∷ []) owners

unfoldable pub peer_id_list_destroy : List PeerId → List PeerId
peer_id_list_destroy [] = []
peer_id_list_destroy (p ∷ ps) = peer_id_list_destroy ps

unfoldable pub peer_id_list_replace : FileEntry → TransFileEntry → FileEntry
peer_id_list_replace fe te = record fe {
  owners = peer_id_list_add (peer_id_list_destroy fe.owners) te.owners;
}

unfoldable pub file_entry_alloc : FileEntry
file_entry_alloc = record { name = []; timestamp = 0; type = regular; owners = [] }

unfoldable pub file_entry_fill_from : FileEntry → TransFileEntry → FileEntry
file_entry_fill_from fe te = record {
  name = te.name;
  timestamp = te.timestamp;
  type = te.file_type;
  owners = peer_id_list_add fe.owners te.owners;
}

-- `none` is a null `fe`, for which the slot is left as it was.
unfoldable pub trans_entry_fill_from : TransFileEntry → Option FileEntry → TransFileEntry
trans_entry_fill_from te none = te
trans_entry_fill_from te (some fe) = record {
  name = fe.name;
  timestamp = fe.timestamp;
  op_type = file_none;
  file_type = fe.type;
  owners = fe.owners;
}

unfoldable pub file_entry_update : FileEntry → TransFileEntry → FileEntry × Status
file_entry_update fe te =
    if ltb fe.timestamp te.timestamp
    then (peer_id_list_replace (record fe { timestamp = te.timestamp }) te, success)
    else if te.timestamp == fe.timestamp
    then (record fe { owners = peer_id_list_add fe.owners te.owners }, success)
    else (fe, failure)

unfoldable pub file_entry_update_timestamp : FileEntry → ℕ → FileEntry
file_entry_update_timestamp fe timestamp = record fe { timestamp = timestamp }

-- The search along one chain.
unfoldable pub find_in_chain : List ℕ → List FileEntry → Option FileEntry
find_in_chain name [] = none
find_in_chain name (fe ∷ chain) =
    if same_name fe.name name then some fe else find_in_chain name chain

-- `hash_del` of the entry that the search finds.
unfoldable pub delete_in_chain : List ℕ → List FileEntry → List FileEntry
delete_in_chain name [] = []
delete_in_chain name (fe ∷ chain) =
    if same_name fe.name name then chain else fe ∷ delete_in_chain name chain

-- A write through the pointer that the search returned.
unfoldable pub write_in_chain : FileEntry → List FileEntry → List FileEntry
write_in_chain new [] = []
write_in_chain new (fe ∷ chain) =
    if same_name fe.name new.name then new ∷ chain else fe ∷ write_in_chain new chain

-- The chain that a search for the name walks.
unfoldable pub chain_of : FileTable → List ℕ → List FileEntry
chain_of table name = get_or table.buckets (search_bucket name (length table.buckets)) []

unfoldable pub set_chain : FileTable → List ℕ → List FileEntry → List (List FileEntry)
set_chain table name chain = set table.buckets (search_bucket name (length table.buckets)) chain

unfoldable pub file_table_search : FileTable → List ℕ → Option FileEntry
file_table_search table name = find_in_chain name (chain_of table name)

unfoldable pub file_entry_write : FileTable → FileEntry → FileTable
file_entry_write table fe = record table {
  buckets = set_chain table fe.name (write_in_chain fe (chain_of table fe.name));
}

unfoldable pub file_entry_add : FileTable → FileEntry → FileTable
file_entry_add table fe =
    let bucket = add_bucket fe.name (length table.buckets) in
    record {
      n = table.n + 1;
      buckets = set table.buckets bucket (fe ∷ get_or table.buckets bucket []);
    }

unfoldable pub file_entry_delete : FileTable → FileEntry → FileTable
file_entry_delete table fe = record {
  n = table.n - 1;
  buckets = set_chain table fe.name (delete_in_chain fe.name (chain_of table fe.name));
}

unfoldable pub hash_init : ℕ → List (List FileEntry)
hash_init size = replicate size []

abbrev pub file_hash_bits : ℕ
file_hash_bits = 12

pub file_table_init : FileTable
file_table_init = record { n = 0; buckets = hash_init (2 ^ file_hash_bits) }

unfoldable pub file_table_find : FileTable → TransFileEntry → Option FileEntry
file_table_find table te = file_table_search table te.name

-- The table and the entry that the function returns.
unfoldable pub file_table_add : FileTable → TransFileEntry → FileTable × FileEntry
file_table_add table te = elim (file_table_search table te.name) [
  | none ↦ let fe = file_entry_fill_from file_entry_alloc te in (file_entry_add table fe, fe)
  | some fe ↦ let updated = (file_entry_update fe te).0 in (file_entry_write table updated, updated)
]

unfoldable pub file_table_update : FileTable → TransFileEntry → FileTable × Status
file_table_update table te = elim (file_table_search table te.name) [
  | none ↦ (table, failure)
  | some fe ↦ (file_entry_write table (file_entry_update fe te).0, success)
]

unfoldable pub file_table_delete : FileTable → TransFileEntry → FileTable × Status
file_table_delete table te = elim (file_table_search table te.name) [
  | none ↦ (table, failure)
  | some fe ↦ (file_entry_delete table fe, success)
]
