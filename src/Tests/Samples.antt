-- ===== src/Tests/Samples.antt =====
-- The tables that the tests of file_table.c and of the handlers share: four buckets, two files.
use tele_sync.Prelude.{ℕ, ◌≡◌, refl, List, [], ◌∷◌, some, arith, same_name, replicate}
use tele_sync.Hash.{search_bucket, add_bucket, elf_hash, hash_min, hash_32, ilog2, int_key}
use tele_sync.TransTable.{PeerId, TransFileEntry, regular, file_add, file_modify}
use tele_sync.FileTable.{
  FileEntry, FileTable, file_table_add, file_table_search, chain_of, find_in_chain, file_entry_add,
  file_entry_alloc, file_entry_fill_from, peer_id_list_add, already_in_owners,
}
use tele_sync.FileTable.Lifetime.{fresh, fresh-IsValid}
use tele_sync.FileTable.Refines.{file_table_add-Writes}
use tele_sync.FileTable.Valid.{IsValid}

abbrev pub alice : PeerId
alice = record { ip = 1; port = 4192 }

abbrev pub bob : PeerId
bob = record { ip = 2; port = 4192 }

-- "1/a" and "1/b".
abbrev pub name_a : List ℕ
name_a = b'1' ∷ b'/' ∷ b'a' ∷ []

abbrev pub name_b : List ℕ
name_b = b'1' ∷ b'/' ∷ b'b' ∷ []

abbrev pub a_of_alice : TransFileEntry
a_of_alice = record {
  name = name_a;
  timestamp = 10;
  op_type = file_add;
  file_type = regular;
  owners = alice ∷ [];
}

abbrev pub newer_a_of_bob : TransFileEntry
newer_a_of_bob = record a_of_alice { timestamp = 20; op_type = file_modify; owners = bob ∷ [] }

abbrev pub b_of_bob : TransFileEntry
b_of_bob = record a_of_alice { name = name_b; owners = bob ∷ [] }

abbrev pub one_file : FileTable
one_file = (file_table_add (fresh 2) a_of_alice).0

pub one_file-IsValid : IsValid one_file
one_file-IsValid = (file_table_add-Writes (fresh-IsValid 2 (omega arith)) a_of_alice).1.valid

abbrev pub two_files : FileTable
two_files = (file_table_add one_file b_of_bob).0

pub two_files-IsValid : IsValid two_files
two_files-IsValid = (file_table_add-Writes one_file-IsValid b_of_bob).1.valid

abbrev pub entry_a : FileEntry
entry_a = record { name = name_a; timestamp = 10; type = regular; owners = alice ∷ [] }

-- The hash search finds the entry that was filled in.
pub search_a : file_table_search two_files name_a ≡ some entry_a
unfolding file_table_add file_table_search chain_of find_in_chain file_entry_add file_entry_alloc
    file_entry_fill_from peer_id_list_add already_in_owners fresh same_name search_bucket add_bucket
    elf_hash hash_min hash_32 ilog2 int_key replicate
search_a = refl
