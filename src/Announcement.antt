-- ===== src/Announcement.antt =====
-- A download that has ended well is announced: `notify_tracker_add_me` of client/start.c and
-- `peer_file_update_task` of server/start.c.
use tele_sync.Prelude.{
  ℕ, ◌≡◌, refl, ap, ◌∙◌, List, [], ◌∷◌, some, Bool, arith, ◌==◌, ◌||◌, same_name, if◌then◌else◌,
}
use tele_sync.TransTable.{PeerId, TransFileEntry}
use tele_sync.FileTable.{FileEntry, file_table_search, peer_id_list_add}
use tele_sync.FileTable.Owners.{has_owner, has_owner-peer_id_list_add}
use tele_sync.FileTable.Refines.{merged}
use tele_sync.FileTable.Valid.{IsValid}
use tele_sync.Server.{Tracker}
use tele_sync.Server.Update.{update_entries, peer_file_update_task}
use tele_sync.Server.Update.Stored.{reported, update_entry-Writes}
use tele_sync.Server.Peers.{Task, file_update, PtotPacket, dispatch_as, receiver_dispatch, run_task}
use tele_sync.Client.Packets.{
  p2p_port, add_me, notify_tracker_add_me, ptot_packet_init, ptot_packet_fill, is_fetched,
  ptop_download_task,
}

-- An entry of the same time adds its owners.
joined :
    (old : FileEntry) (te : TransFileEntry)
    → old.timestamp ≡ te.timestamp
    → merged (some old) te ≡ record old { owners = peer_id_list_add old.owners te.owners }
unfolding merged
joined old te same = ground arith

one_owner : (ip : ℕ) (p : PeerId) → has_owner ip (p ∷ []) ≡ p.ip == ip
unfolding has_owner
one_owner ip p = ground arith

-- A peer that has fetched a file in the version that the tracker has tells it so, and the tracker adds it
-- to the owners of the file: the others stay, the version stays, and no other file changes.
pub ptop_download_task-announces :
    (tr : Tracker) (conn my_tid my_ip now : ℕ) (fe old : FileEntry) (made downloaded : Bool)
    → IsValid tr.ft
    → is_fetched fe.type made downloaded ≡ Bool.true
    → file_table_search tr.ft fe.name ≡ some old
    → old.timestamp ≡ fe.timestamp
    → (pkt : PtotPacket) × (task : Task) × (new : FileEntry) × (ptop_download_task my_ip fe
          Bool.true made downloaded
        ≡ pkt ∷ [])
      × (receiver_dispatch conn my_tid pkt ≡ some task)
      × (new.timestamp ≡ old.timestamp)
      × ((ip : ℕ) → has_owner ip new.owners ≡ has_owner ip old.owners || my_ip == ip)
      × ((q : List ℕ)
          → file_table_search (run_task Bool.true now tr task).0.ft q
            ≡ (if same_name fe.name q then some new else file_table_search tr.ft q))
unfolding ptop_download_task notify_tracker_add_me add_me reported ptot_packet_init ptot_packet_fill
    receiver_dispatch dispatch_as run_task peer_file_update_task update_entries
ptop_download_task-announces tr conn my_tid my_ip now fe old made downloaded v fetched found same =
    let te = add_me my_ip fe in
    let w = update_entry-Writes v te in
    (
      notify_tracker_add_me my_ip fe,
      file_update conn (te ∷ []),
      merged (some old) te,
      rw fetched refl,
      refl,
      rw (joined old te same) refl,
      λ ip. rw (joined old te same) (
          has_owner-peer_id_list_add ip old.owners te.owners
          ∙ ap (λ b. has_owner ip old.owners || b)
              (one_owner ip (record { ip = my_ip; port = p2p_port }))),
      λ q. ground (arith, w.reads q),
    )
