-- ===== src/FileMonitor/Removal.antt =====
-- What file_delete of client/start.c does to a file in a target directory.
use tele_sync.Prelude.{ℕ, ◌<◌, ◌≡◌, List, Option, some}
use tele_sync.FileMonitor.Watch.{wd_hash_size, MonitorTable}
use tele_sync.FileMonitor.Block.{Blocked}
use tele_sync.FileMonitor.MissingDirs.{NamesHere, Watches, Reached}

module _ (add_watch : List ℕ → Option ℕ)
    (add_watch_inj : (a b : List ℕ) (wd : ℕ)
      → add_watch a ≡ some wd
      → add_watch b ≡ some wd
      → a ≡ b)
    (add_watch_lt : (a : List ℕ) (wd : ℕ) → add_watch a ≡ some wd → wd < wd_hash_size)
    (target local_dir : List ℕ) where
  abbrev HasNames : List ℕ → List ℕ → Type 0
  HasNames = NamesHere add_watch add_watch_inj add_watch_lt target local_dir

  abbrev IsWatched : MonitorTable → Type 0
  IsWatched = Watches add_watch add_watch_inj add_watch_lt target local_dir

  abbrev IsReached : MonitorTable → Blocked → List ℕ → List ℕ → Type 0
  IsReached = Reached add_watch add_watch_inj add_watch_lt target local_dir
