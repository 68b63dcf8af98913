-- ===== src/TransTable.antt =====
-- include/trans_file_table.h: the file table as it travels between the tracker and the peers.
use tele_sync.Prelude.{ℕ, List}

pub data FileType : Type 0 where
  regular directory soft_link : FileType

-- `op_type` is a uint16_t: `unknown_op` stands for the values that no enumerator has.
pub data OperationType : Type 0 where
  file_none file_add file_delete file_modify : OperationType
  unknown_op : ℕ → OperationType

pub record PeerId : Type 0 where
  pub ip : ℕ
  pub port : ℕ

-- `owners` holds the first `owner_n` slots, so `owner_n` is its length.
pub record TransFileEntry : Type 0 where
  pub name : List ℕ
  pub timestamp : ℕ
  pub op_type : OperationType
  pub file_type : FileType
  pub owners : List PeerId

-- The first `n` entries, so `n` is the length.
abbrev pub TransFileTable : Type 0
TransFileTable = List TransFileEntry

-- What `bzero` and `calloc` leave in a slot.
abbrev pub blank_entry : TransFileEntry
blank_entry = record {
  name = List.[];
  timestamp = 0;
  op_type = file_none;
  file_type = regular;
  owners = List.[];
}

abbrev pub max_peer_entries : ℕ
max_peer_entries = 16

abbrev pub max_file_entries : ℕ
max_file_entries = 4096
