-- ===== src/Startup.antt =====
-- The start of a peer, packet by packet: `sync_files` of client/start.c reads the target directories and
-- sends the table, `sync_task` of server/start.c answers, and the peer takes the answer in.
use Prim.Native.Nat.{max}
use tele_sync.Prelude.{true, ℕ, suc, ◌+◌, ◌≡◌, refl, ap, ◌∙◌, List, ◌∷◌, Option, none, some, get_or}
use tele_sync.TransTable.{FileType, TransFileTable}
use tele_sync.FileTable.{FileTable, file_table_search}
use tele_sync.FileTable.Valid.{IsValid}
use tele_sync.Server.{Tracker, Outbox, tracker_sync}
use tele_sync.Server.Sync.{sync_task}
use tele_sync.Server.Sync.Versions.{version}
use tele_sync.Convergence.{newest, sync_converges}
use tele_sync.Client.{Action}
use tele_sync.Client.Packets.{sync_packet, sync_files, ptot_packet_init, ptot_packet_fill}
use tele_sync.FileMonitor.{Listing, time_of, path, scanned, get_file_table}
use tele_sync.FileMonitor.Paths.{no_slash}
use tele_sync.FileMonitor.Resolve.{found_as}
use tele_sync.FileMonitor.Targets.{AllOpened, resolve_in, get_file_table-reads}

-- The version of what a path leads to: 0 for nothing, else its time plus 1.
unfoldable pub version_on_disk : Option (FileType × Option ℕ) → ℕ
version_on_disk none = 0
version_on_disk (some (type, time)) = suc (time_of time)

version-found_as :
    (ip : ℕ) (name : List ℕ) (o : Option (FileType × Option ℕ))
    → version (found_as ip name o) ≡ version_on_disk o
unfolding version found_as version_on_disk scanned
version-found_as ip name none = refl
version-found_as ip name (some (type, time)) = refl

module _ (decimal : ℕ → List ℕ) (decimal_inj : (i j : ℕ) → decimal i ≡ decimal j → i ≡ j)
    (decimal-no_slash : (i : ℕ) → no_slash (decimal i) ≡ true) (my_ip : ℕ) where
  -- A peer that starts with an empty table and can open its target directories gets through its first
  -- synchronisation with the answer of the tracker. Then for every path in a target the tracker and the
  -- peer have the same version, the greater of the tracker's and the one on the peer's disk.
  pub sync_files-from_disk :
      (ft : FileTable) (v : IsValid ft) (targets : List (Option Listing)) (tr : Tracker) (conn : ℕ)
      (peer_tft : TransFileTable) (others : Outbox)
      → AllOpened targets
      → ((q : List ℕ) → file_table_search ft q ≡ none)
      → IsValid tr.ft
      → (sync_task tr conn (sync_packet my_ip (get_file_table decimal my_ip ft 0 targets).0).tft).1
        ≡ (conn, tracker_sync peer_tft) ∷ others
      → (synced : FileTable × List Action) × (sync_files my_ip
            (get_file_table decimal my_ip ft 0 targets).0
            (some (tracker_sync peer_tft))
          ≡ some synced)
        × ((k : ℕ) (r : List ℕ)
            → (version (
                  file_table_search
                    (sync_task tr conn
                      (sync_packet my_ip (get_file_table decimal my_ip ft 0 targets).0).tft).0.ft
                    (path (decimal (k + 1)) r))
                ≡ max
                    (version (file_table_search tr.ft (path (decimal (k + 1)) r)))
                    (version_on_disk (resolve_in (get_or targets k none) r)))
              × (version (file_table_search synced.0 (path (decimal (k + 1)) r))
                  ≡ max
                      (version (file_table_search tr.ft (path (decimal (k + 1)) r)))
                      (version_on_disk (resolve_in (get_or targets k none) r))))
  unfolding sync_files sync_packet ptot_packet_init ptot_packet_fill
  sync_files-from_disk ft v targets tr conn peer_tft others o empty w sent =
      let (status, u, reads) =
        get_file_table-reads decimal decimal_inj decimal-no_slash my_ip ft v targets o empty in
      let on_disk : (k : ℕ) (r : List ℕ)
          → newest tr.ft (get_file_table decimal my_ip ft 0 targets).0 (path (decimal (k + 1)) r)
            ≡ max (version (file_table_search tr.ft (path (decimal (k + 1)) r)))
                (version_on_disk (resolve_in (get_or targets k none) r)) =
        λ k r. ap (max (version (file_table_search tr.ft (path (decimal (k + 1)) r)))) (
          ap version (reads k r)
          ∙ version-found_as my_ip (path (decimal (k + 1)) r)
              (resolve_in (get_or targets k none) r)) in
      (
        _,
        refl,
        λ k r.
            let same =
              sync_converges tr w u conn my_ip peer_tft others sent (path (decimal (k + 1)) r) in
            (same.0 ∙ on_disk k r, same.1 ∙ on_disk k r),
      )
