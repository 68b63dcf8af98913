-- ===== src/Convergence.antt =====
-- The synchronisation of a peer that has just registered, end to end: `sync_files` of client/start.c
-- sends the peer's table, `sync_task` of server/start.c answers, `file_table_sync` takes the answer in.
-- The tables travel without loss.
use Prim.Native.Nat.{max}
use tele_sync.Prelude.{ℕ, ◌≡◌, List, [], ◌∷◌, arith, concat}
use tele_sync.TransTable.{TransFileTable}
use tele_sync.FileTable.{FileTable, file_table_search}
use tele_sync.FileTable.Sweep.{trans_table_fill_from}
use tele_sync.FileTable.Valid.{IsValid}
use tele_sync.Server.{Tracker, Outbox, tracker_sync}
use tele_sync.Server.Sync.{sync_task, sync_entries}
use tele_sync.Server.Sync.Versions.{
  version, latest-trans_table_fill_from, sync_entries-version, sync_self-version,
}
use tele_sync.Client.{file_table_sync}
use tele_sync.Client.Follow.{file_table_sync-version}

-- The greater of the versions of a file in two tables.
abbrev pub newest : FileTable → FileTable → List ℕ → ℕ
newest a b q = max (version (file_table_search a q)) (version (file_table_search b q))

module _ (tracker : Tracker) (v : IsValid tracker.ft) {mine : FileTable} (u : IsValid mine)
    (conn me : ℕ) where
  tracker_side :
      (q : List ℕ)
      → version (file_table_search (sync_task tracker conn (trans_table_fill_from mine)).0.ft q)
        ≡ newest tracker.ft mine q
  unfolding sync_task
  tracker_side q = omega (
    arith,
    (sync_self-version (trans_table_fill_from mine) {t = tracker.ft} [] v).1 q,
    latest-trans_table_fill_from u q,
  )

  peer_side :
      (q : List ℕ)
      → version (
          file_table_search
            (file_table_sync me mine
              (sync_entries (trans_table_fill_from mine) (concat tracker.ft.buckets))).0
            q)
        ≡ newest tracker.ft mine q
  peer_side q = omega (
    arith,
    (file_table_sync-version me
          (sync_entries (trans_table_fill_from mine) (concat tracker.ft.buckets)) u).1
        q,
    sync_entries-version v (trans_table_fill_from mine) q,
    latest-trans_table_fill_from u q,
  )

  -- Once the peer has taken in the packet that the tracker sent it, tracker and peer have the same
  -- version of every file, and it is the greater of the two versions that they had before.
  pub sync_converges :
      (peer_tft : TransFileTable) (others : Outbox)
      → (sync_task tracker conn (trans_table_fill_from mine)).1
        ≡ (conn, tracker_sync peer_tft) ∷ others
      → (q : List ℕ)
      → (version (file_table_search (sync_task tracker conn (trans_table_fill_from mine)).0.ft q)
          ≡ newest tracker.ft mine q)
        × (version (file_table_search (file_table_sync me mine peer_tft).0 q)
            ≡ newest tracker.ft mine q)
  unfolding sync_task
  sync_converges peer_tft others sent q =
      let e : sync_entries (trans_table_fill_from mine) (concat tracker.ft.buckets) ≡ peer_tft =
        ground arith in
      (tracker_side q, rw (← e) (peer_side q))
