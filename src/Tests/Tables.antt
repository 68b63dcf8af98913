-- ===== src/Tests/Tables.antt =====
-- file_table.c at small inputs.
use tele_sync.Prelude.{◌^◌, ◌<◌, ◌≡◌, refl, none, some, arith, length, concat}
use tele_sync.Hash.{elf_hash, search_bucket, add_bucket}
use tele_sync.Hash.Bounds.{bucket_agrees}
use tele_sync.FileTable.{file_table_search, file_table_add, file_table_update, file_table_delete}
use tele_sync.FileTable.Sweep.{file_table_delete_owner, list_empty, remove_owner}
use tele_sync.FileTable.Refines.{
  Writes, merged, refreshed, status_of, file_table_add-Writes, file_table_update-Writes,
  file_table_delete-Writes,
}
use tele_sync.FileTable.Departure.{delete_owner-n_drifts}
use tele_sync.Tests.Samples.{
  name_a, name_b, newer_a_of_bob, b_of_bob, entry_a, search_a, two_files, two_files-IsValid,
}

a_hashes : elf_hash name_a ≡ 0x3451
unfolding elf_hash
a_hashes = refl

bucket_agrees_example :
    (search_bucket name_a (2 ^ 12) ≡ add_bucket name_a (2 ^ 12))
    × (search_bucket name_a (2 ^ 12) < 2 ^ 12)
bucket_agrees_example = bucket_agrees name_a 12 (omega arith)

file_table_add-Writes_example :
    ((file_table_add two_files newer_a_of_bob).1
      ≡ merged (file_table_search two_files name_a) newer_a_of_bob)
    × Writes two_files name_a
        (some (merged (file_table_search two_files name_a) newer_a_of_bob))
        (file_table_add two_files newer_a_of_bob).0
file_table_add-Writes_example = file_table_add-Writes two_files-IsValid newer_a_of_bob

file_table_update-Writes_example :
    ((file_table_update two_files newer_a_of_bob).1
      ≡ status_of (file_table_search two_files name_a))
    × Writes two_files name_a
        (refreshed (file_table_search two_files name_a) newer_a_of_bob)
        (file_table_update two_files newer_a_of_bob).0
file_table_update-Writes_example = file_table_update-Writes two_files-IsValid newer_a_of_bob

file_table_delete-Writes_example :
    ((file_table_delete two_files b_of_bob).1 ≡ status_of (file_table_search two_files name_b))
    × Writes two_files name_b none (file_table_delete two_files b_of_bob).0
file_table_delete-Writes_example = file_table_delete-Writes two_files-IsValid b_of_bob

delete_owner-n_drifts_example :
    length (concat (file_table_delete_owner two_files 1).buckets)
    < (file_table_delete_owner two_files 1).n
unfolding remove_owner list_empty
delete_owner-n_drifts_example =
    delete_owner-n_drifts two_files-IsValid 1 name_a entry_a search_a refl
