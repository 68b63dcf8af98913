-- ===== src/Tests/Departing.antt =====
-- The life of peers at the tracker, at small inputs.
use tele_sync.Prelude.{
  ℕ, ◌≡◌, refl, List, [], ◌∷◌, none, some, false, true, arith, if◌then◌else◌, ◌==◌,
}
use tele_sync.FileTable.{FileEntry, file_table_search}
use tele_sync.FileTable.Owners.{has_owner}
use tele_sync.FileTable.Valid
use tele_sync.PeerTable.{
  PeerEntry, PeerTable, peer_table_add, peer_table_delete, peer_table_find, peer_table_init,
  find_conn, find_ip,
}
use tele_sync.PeerTable.Laws.{
  ip_of, conn_count, peer_table_init-IsValid, peer_table_add_lem, peer_table_delete_lem,
}
use tele_sync.PeerTable.Laws
use tele_sync.Server.{Tracker}
use tele_sync.Server.Peers.{
  ThreadArg, PtotPacket, peer_register, run_task, register, dispatch_as, receiver_dispatch,
  peer_check_alive_task, cancelled, receiver_task_cleanup,
}
use tele_sync.Server.Peers.Alive.{rounds, silent, peer_check_alive_task-silent}
use tele_sync.Server.Peers.Steps.{
  mail, server_init, start, later, packet, leave, Inv, Reach-Inv, receiver_task_cleanup_lem,
}
use tele_sync.Tests.Samples.{alice, bob, two_files, two_files-IsValid}

abbrev entry_of_alice : PeerEntry
entry_of_alice = record { conn = 4; timestamp = 90; peerid = alice; tid = 6 }

abbrev entry_of_bob : PeerEntry
entry_of_bob = record { conn = 5; timestamp = 100; peerid = bob; tid = 7 }

abbrev alice_alone : PeerTable
alice_alone = peer_table_add peer_table_init entry_of_alice

abbrev both : PeerTable
both = peer_table_add alice_alone entry_of_bob

alice_alone-IsValid : Laws.IsValid alice_alone
unfolding peer_table_init find_conn
alice_alone-IsValid =
    (peer_table_add_lem peer_table_init entry_of_alice peer_table_init-IsValid refl).0

both-IsValid : Laws.IsValid both
unfolding peer_table_init peer_table_add find_conn
both-IsValid = (peer_table_add_lem alice_alone entry_of_bob alice_alone-IsValid refl).0

abbrev tracker : Tracker
tracker = record {
  ft = two_files;
  pt = both;
  ctr_info = record { interval = 2000; piece_len = 64 };
}

peer_table_delete_lem_example :
    Laws.IsValid (peer_table_delete both 4).0
    × ((peer_table_delete both 4).1 ≡ ip_of (find_conn 4 both.peers))
    × ((other : ℕ)
        → find_conn other (peer_table_delete both 4).0.peers
          ≡ (if 4 == other then none else find_conn other both.peers))
peer_table_delete_lem_example = peer_table_delete_lem both 4 both-IsValid

receiver_task_cleanup_lem_example :
    Valid.IsValid (receiver_task_cleanup tracker 4).0.ft
    × Laws.IsValid (receiver_task_cleanup tracker 4).0.pt
    × (find_conn 4 (receiver_task_cleanup tracker 4).0.pt.peers ≡ none)
    × ((q : List ℕ) (fe : FileEntry)
        → file_table_search (receiver_task_cleanup tracker 4).0.ft q ≡ some fe
        → has_owner 1 fe.owners ≡ false)
    × (mail 4 (receiver_task_cleanup tracker 4).1 ≡ none)
unfolding peer_table_add peer_table_init find_conn
receiver_task_cleanup_lem_example =
    receiver_task_cleanup_lem tracker 4 entry_of_alice two_files-IsValid both-IsValid refl

-- One keep-alive before the first round, none before the second.
peer_check_alive_task-silent_example :
    peer_check_alive_task 2 100 (rounds (1 ∷ 0 ∷ []) tracker 2) ≡ cancelled
unfolding peer_table_add peer_table_init peer_table_find find_ip silent
peer_check_alive_task-silent_example =
    peer_check_alive_task-silent (1 ∷ 0 ∷ []) tracker 2 100 (omega arith) (omega arith) refl
      (omega arith, (omega arith, _))

abbrev hello : PtotPacket
hello = record { type = peer_register; ip = 2; port = 4192; tft = [] }

abbrev bob_arg : ThreadArg
bob_arg = record { conn = 5; tid = 7; peerid = bob }

Reach-Inv_example :
    Inv
      (receiver_task_cleanup
        (run_task true 100 (server_init tracker.ctr_info) (register bob_arg)).0
        5).0
unfolding receiver_dispatch dispatch_as
Reach-Inv_example =
    Reach-Inv
      (later (later start (packet true 100 5 7 hello (register bob_arg) refl refl)) (leave 5 refl))
