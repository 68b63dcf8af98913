-- ===== src/Tests/Changes.antt =====
-- A change of a file at the tracker and at a peer, at small inputs.
use Prim.Native.Nat.{max}
use tele_sync.Prelude.{◌≡◌, refl, same_name}
use tele_sync.FileTable.{file_table_search}
use tele_sync.Server.Sync.Versions.{version}
use tele_sync.Server.Update.{update_entry}
use tele_sync.Client.{broadcast_handler}
use tele_sync.Propagation.{addition_propagates, modification_propagates}
use tele_sync.Tests.Samples.{
  name_a, name_b, b_of_bob, newer_a_of_bob, entry_a, search_a, one_file, one_file-IsValid,
  two_files, two_files-IsValid,
}

addition_propagates_example :
    version
      (file_table_search (broadcast_handler 1 one_file (update_entry one_file b_of_bob).1).0 name_b)
    ≡ max
        (version (file_table_search one_file name_b))
        (version (file_table_search (update_entry one_file b_of_bob).0 name_b))
unfolding same_name
addition_propagates_example =
    addition_propagates one_file-IsValid b_of_bob 1 one_file-IsValid refl name_b

modification_propagates_example :
    version (
      file_table_search
        (broadcast_handler 1 one_file (update_entry two_files newer_a_of_bob).1).0
        name_a)
    ≡ max
        (version (file_table_search one_file name_a))
        (version (file_table_search (update_entry two_files newer_a_of_bob).0 name_a))
unfolding same_name
modification_propagates_example =
    modification_propagates two_files-IsValid newer_a_of_bob 1 one_file-IsValid entry_a search_a
      refl name_a
