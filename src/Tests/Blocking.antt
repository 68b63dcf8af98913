-- ===== src/Tests/Blocking.antt =====
-- A directory is made on the way to a file, and a file is removed, in client/file_monitor.c.
use tele_sync.Prelude.{◌≡◌, refl, List, [], none, some, false, same_name}
use tele_sync.TransTable.{TransFileEntry, regular, file_none}
use tele_sync.FileMonitor.{path, done}
use tele_sync.FileMonitor.Paths.{no_slash}
use tele_sync.FileMonitor.Watch.{
  MonitorTable, MonitorTarget, monitor_table_init, watch_target_add_dir, monitor_get_sys_name,
  get_sys_name,
}
use tele_sync.FileMonitor.SysNames.{Found-at, is_directory, place}
use tele_sync.FileMonitor.Block.{Syscall, blocked, file_monitor_block}
use tele_sync.FileMonitor.MissingDirs.{takes_on}
use tele_sync.FileMonitor.BlockNames.{file_monitor_block-get_sys_name}
use tele_sync.Tests.Watching.{
  two_watches, two_watches_inj, two_watches_lt, root_dir, digit, sub_dir, just_a,
}

abbrev root_only : MonitorTable
root_only = (watch_target_add_dir two_watches monitor_table_init root_dir (digit 1) (some done)).0

file_monitor_block-get_sys_name_example :
    (after : MonitorTable) × (t : MonitorTarget) × (calls : List Syscall) × (file_monitor_block
        two_watches root_only
        (path (digit 1) (path sub_dir just_a))
        false
      ≡ blocked after t calls)
    × (monitor_get_sys_name t (path (digit 1) (path sub_dir just_a))
        ≡ some (path root_dir (path sub_dir just_a)))
    × (get_sys_name after (path (digit 1) (path sub_dir just_a))
        ≡ some (path root_dir (path sub_dir just_a)))
unfolding no_slash takes_on path same_name is_directory place
file_monitor_block-get_sys_name_example =
    file_monitor_block-get_sys_name two_watches two_watches_inj two_watches_lt root_dir (digit 1)
      root_only (path sub_dir just_a)
      (Found-at two_watches two_watches_inj two_watches_lt root_dir (digit 1) done none 1 refl
        refl).0
      refl
      (Found-at two_watches two_watches_inj two_watches_lt root_dir (digit 1) done none 1 refl
        refl).1
      refl

abbrev a_gone : TransFileEntry
a_gone = record {
  name = path (digit 1) just_a;
  timestamp = 5;
  op_type = file_none;
  file_type = regular;
  owners = [];
}
