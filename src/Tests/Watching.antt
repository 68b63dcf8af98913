-- ===== src/Tests/Watching.antt =====
-- A peer that watches one directory with a directory in it, `docs/sub`, which has the file `a`.
use Prim.Native.Nat.{max}
use tele_sync.Server.Sync.Versions.{version}
use tele_sync.Server.Update.{peer_file_update_task}
use tele_sync.Prelude.{
  replicate, ℕ, ◌+◌, ◌<◌, ◌≡◌, refl, List, [], ◌∷◌, Option, none, some, true, false, arith,
  same_name, same_name→eq, if◌then◌else◌,
}
use tele_sync.TransTable.{regular}
use tele_sync.FileTable.{FileEntry, FileTable, file_table_search}
use tele_sync.FileTable.Lifetime.{fresh, fresh-IsValid, search-fresh}
use tele_sync.PeerTable.{peer_table_init}
use tele_sync.Server.{Tracker}
use tele_sync.Server.Sync.{sync_task}
use tele_sync.Client.Packets.{sync_packet, ptop_download_task, is_fetched}
use tele_sync.Server.Peers.{PtotPacket}
use tele_sync.FileMonitor.{Listing, done, file, dir, is_dot, path, get_file_table}
use tele_sync.FileMonitor.Paths.{IsListing, no_slash, listed, below}
use tele_sync.FileMonitor.Resolve.{resolve}
use tele_sync.FileMonitor.Targets.{AllOpened, resolve_in}
use tele_sync.FileMonitor.Watch.{
  watch_entries, watch_target_add, watch_target_as, new_target, rindex, wd_hash_size, MonitorTable,
  monitor_table_init, watch_target_add_dir, get_sys_name,
}
use tele_sync.FileMonitor.SysNames.{place, is_directory, is_dir, watch_target_add_dir-get_sys_name}
use tele_sync.FileMonitor.Events.{
  tricky_string, event_names, after_slash, stamped, operation_of, InotifyEvent, monitor_turn,
  handle_event,
}
use tele_sync.FileMonitor.Agreement.{
  can_modify, monitor_turn-agrees, fine_events, fine_event, fine_for,
}
use tele_sync.Announcement.{ptop_download_task-announces}
use tele_sync.Startup.{version_on_disk, sync_files-from_disk}
use tele_sync.Tests.Samples.{name_a, entry_a, two_files, two_files-IsValid, search_a}

-- One character for each number, from '0' on.
abbrev pub digit : ℕ → List ℕ
digit i = (48 + i) ∷ []

digit_inj : (i j : ℕ) → digit i ≡ digit j → i ≡ j
digit_inj i j e = ground arith

digit-no_slash : (i : ℕ) → no_slash (digit i) ≡ true
unfolding no_slash
digit-no_slash i = ground arith

abbrev pub just_a : List ℕ
just_a = b'a' ∷ []

abbrev pub sub_dir : List ℕ
sub_dir = b's' ∷ []

abbrev docs : Listing
docs =
    dir (b'.' ∷ []) (some 1) done
      (dir sub_dir (some 5) (file just_a (some 7) done) (file just_a none done))

docs-IsListing : IsListing docs
unfolding IsListing listed no_slash same_name
docs-IsListing = (refl, refl, tt, (refl, refl, (refl, refl, tt), (refl, refl, tt)))

abbrev targets : List (Option Listing)
targets = some docs ∷ []

targets-AllOpened : AllOpened targets
unfolding AllOpened
targets-AllOpened = (docs-IsListing, tt)

resolve_a : resolve docs (path sub_dir just_a) ≡ some (regular, some 7)
unfolding resolve path is_dot same_name below
resolve_a = refl

abbrev tracker : Tracker
tracker = record {
  ft = two_files;
  pt = peer_table_init;
  ctr_info = record { interval = 2000; piece_len = 64 };
}

abbrev a_in_sub : List ℕ
a_in_sub = path (digit 1) (path sub_dir just_a)

abbrev table_of_peer : FileTable
table_of_peer = (get_file_table digit 2 (fresh 2) 0 targets).0

sync_files-from_disk_example :
    version
      (file_table_search (sync_task tracker 5 (sync_packet 2 table_of_peer).tft).0.ft a_in_sub)
    ≡ max
        (version (file_table_search two_files a_in_sub))
        (version_on_disk (resolve docs (path sub_dir just_a)))
unfolding sync_task resolve_in
sync_files-from_disk_example =
    ((sync_files-from_disk digit digit_inj digit-no_slash 2 (fresh 2)
        (fresh-IsValid 2 (omega arith)) targets tracker 5 _ _ targets-AllOpened (search-fresh 2)
        two_files-IsValid refl).2
      0 (path sub_dir just_a)).0

abbrev pub root_dir : List ℕ
root_dir = b'd' ∷ []

-- The kernel gives descriptors to two directories.
abbrev pub two_watches : List ℕ → Option ℕ
two_watches s =
    if same_name s root_dir
    then some 1
    else if same_name s (path root_dir sub_dir)
    then some 2
    else none

pub two_watches_inj :
    (a b : List ℕ) (wd : ℕ) → two_watches a ≡ some wd → two_watches b ≡ some wd → a ≡ b
two_watches_inj a b wd e f = ground (
  arith,
  same_name→eq a root_dir,
  same_name→eq b root_dir,
  same_name→eq a (path root_dir sub_dir),
  same_name→eq b (path root_dir sub_dir),
)

pub two_watches_lt : (a : List ℕ) (wd : ℕ) → two_watches a ≡ some wd → wd < wd_hash_size
two_watches_lt a wd e = ground arith

abbrev watches : MonitorTable
watches = (watch_target_add_dir two_watches monitor_table_init root_dir (digit 1) (some docs)).0

watch_target_add_dir-get_sys_name_example :
    get_sys_name watches (path (path (digit 1) sub_dir) just_a)
    ≡ some (path (path root_dir sub_dir) just_a)
unfolding is_directory is_dir resolve place path is_dot same_name below no_slash
watch_target_add_dir-get_sys_name_example =
    watch_target_add_dir-get_sys_name two_watches two_watches_inj two_watches_lt root_dir (digit 1)
      docs (some sub_dir) 2 just_a refl refl refl

-- A file `b` appears in `docs/sub`.
abbrev b_created : InotifyEvent
b_created = record {
  wd = 2;
  mask = record {
    in_isdir = false;
    in_create = true;
    in_delete = false;
    in_delete_self = false;
    in_modify = false;
    in_move_self = false;
    in_moved_from = false;
    in_moved_to = false;
    in_attrib = false;
  };
  len = 1;
  name = b'b' ∷ [];
}

abbrev at_nine : List ℕ → Option ℕ
at_nine s = some 9

monitor_turn-agrees_example :
    version (
      file_table_search
        (monitor_turn two_watches at_nine 2 watches two_files (b_created ∷ [])).0.ft
        name_a)
    ≡ version (
        file_table_search
          (peer_file_update_task tracker 5
            (monitor_turn two_watches at_nine 2 watches two_files (b_created ∷ [])).1.tft).0.ft
          name_a)
unfolding fine_events fine_event fine_for watch_target_add_dir handle_event watch_entries is_dot
    same_name watch_target_add watch_target_as path replicate new_target tricky_string rindex
    event_names after_slash stamped operation_of can_modify
monitor_turn-agrees_example =
    (monitor_turn-agrees two_watches at_nine 2 tracker 5 watches two_files (b_created ∷ [])
        two_files-IsValid two_files-IsValid (λ q. refl) refl).2
      name_a

abbrev fetched_a : FileEntry
fetched_a = record entry_a { owners = [] }

ptop_download_task-announces_example :
    (pkt : PtotPacket) × (ptop_download_task 2 fetched_a true false true ≡ pkt ∷ [])
unfolding is_fetched
ptop_download_task-announces_example =
    let r =
      ptop_download_task-announces tracker 5 7 2 100 fetched_a entry_a false true two_files-IsValid
        refl search_a refl in
    (r.0, r.3)
