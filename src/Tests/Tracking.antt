-- ===== src/Tests/Tracking.antt =====
-- The tracker and a peer at small inputs.
use tele_sync.Prelude.{◌≡◌, refl}
use tele_sync.FileTable.{file_table_search}
use tele_sync.FileTable.Sweep.{trans_table_fill_from}
use tele_sync.PeerTable.{PeerEntry, peer_table_init, peer_table_add}
use tele_sync.Server.{Tracker}
use tele_sync.Server.Sync.{sync_task}
use tele_sync.Server.Sync.Versions.{version}
use tele_sync.Convergence.{newest, sync_converges}
use tele_sync.Tests.Samples.{bob, name_a, one_file, one_file-IsValid, two_files, two_files-IsValid}

abbrev entry_of_bob : PeerEntry
entry_of_bob = record { conn = 5; timestamp = 100; peerid = bob; tid = 7 }

abbrev pub tracker : Tracker
tracker = record {
  ft = one_file;
  pt = peer_table_add peer_table_init entry_of_bob;
  ctr_info = record { interval = 2000; piece_len = 64 };
}

sync_converges_example :
    version (file_table_search (sync_task tracker 5 (trans_table_fill_from two_files)).0.ft name_a)
    ≡ newest one_file two_files name_a
unfolding sync_task
sync_converges_example =
    (sync_converges tracker one_file-IsValid two_files-IsValid 5 2 _ _ refl name_a).0
