-- ===== src/FileMonitor/Block.antt =====
-- client/file_monitor.c: `file_monitor_block`, which silences the watch of the directory of a file and
-- makes the directories that are missing on the way to it, and file_delete of client/start.c, which uses
-- it.
use tele_sync.Prelude.{
  ℕ, suc, List, [], ◌∷◌, ◌++◌, Option, none, some, Bool, true, false, ◌==◌, ◌||◌, ◌&&◌,
  if◌then◌else◌, length, drop,
}
use tele_sync.TransTable.{FileType, regular, directory, soft_link, TransFileEntry}
use tele_sync.FileMonitor.{path}
use tele_sync.FileMonitor.Watch.{
  MonitorTarget, MonitorTable, watch_target_add, find_target, get_file_target, monitor_get_sys_name,
  file_monitor_rmdir,
}

-- What is asked of the kernel, on a name: to report nothing of a directory, to report it as before, to
-- make a directory, to remove a file. `system` is given the bytes of a command for the shell.
pub data Syscall : Type 0 where
  block_all default_mask make_dir unlink system : List ℕ → Syscall

-- The outcome: a null pointer is followed, NULL is answered, or the target.
pub data Blocked : Type 0 where
  null_target no_target : Blocked
  blocked : MonitorTable → MonitorTarget → List Syscall → Blocked

unfoldable pub has_slash : List ℕ → Bool
has_slash [] = false
has_slash (c ∷ cs) = c == b'/' || has_slash cs

unfoldable pub or_before : Option MonitorTarget → Option MonitorTarget → Option MonitorTarget
or_before none before = before
or_before (some t) before = some t

-- The search for a directory above: every slash but the last ends a name; the longest that has a target
-- counts. `name` is what stands before the rest of the logic name.
unfoldable pub closest :
    List MonitorTarget → Option MonitorTarget → List ℕ → List ℕ → Option MonitorTarget
closest head found name [] = found
closest head found name (c ∷ cs) =
    closest head
      (if c == b'/' && has_slash cs then or_before (find_target name head) found else found)
      (name ++ c ∷ []) cs

unfoldable pub before_that : List Syscall → Blocked → Blocked
before_that calls null_target = null_target
before_that calls no_target = no_target
before_that calls (blocked table t later) = blocked table t (calls ++ later)

-- The loop that makes the directories below `t`: `d` is the name since the last slash. Whether `mkdir`
-- succeeds is not tested; that the new directory cannot be watched is not tested either.
unfoldable pub make_dirs :
    (List ℕ → Option ℕ) → MonitorTable → MonitorTarget → List ℕ → List ℕ → Blocked
make_dirs add_watch table t d [] = blocked table t (block_all t.sys_name ∷ [])
make_dirs add_watch table t d (c ∷ cs) = elim (c == b'/') [
  | false ↦ make_dirs add_watch table t (d ++ c ∷ []) cs
  | true ↦
      let (table₁, target) =
        watch_target_add add_watch table (path t.sys_name d) (path t.logic_name d) in
      elim target [
        | none ↦ null_target
        | some t₁ ↦
            before_that
              (block_all t.sys_name ∷ make_dir (path t.sys_name d) ∷ default_mask t.sys_name ∷ [])
              (make_dirs add_watch table₁ t₁ [] cs)
      ]
]

-- From the target above on.
unfoldable pub make_below :
    (List ℕ → Option ℕ) → MonitorTable → List ℕ → Option MonitorTarget → Blocked
make_below add_watch table logic_name none = no_target
make_below add_watch table logic_name (some t) =
    make_dirs add_watch table t [] (drop (suc (length t.logic_name)) logic_name)

unfoldable pub block_as :
    (List ℕ → Option ℕ) → MonitorTable → List ℕ → Bool → Option MonitorTarget → Blocked
block_as add_watch table logic_name del (some t) = blocked table t (block_all t.sys_name ∷ [])
block_as add_watch table logic_name true none = null_target
block_as add_watch table logic_name false none =
    make_below add_watch table logic_name (closest table.head none [] logic_name)

unfoldable pub file_monitor_block : (List ℕ → Option ℕ) → MonitorTable → List ℕ → Bool → Blocked
file_monitor_block add_watch table logic_name del =
    if has_slash logic_name
    then block_as add_watch table logic_name del (get_file_target table logic_name)
    else no_target

-- The command of `file_monitor_rmdir`: the name is not quoted, so the shell takes it for one name only if
-- it holds no blank and no character that the shell reads.
unfoldable pub rm_command : List ℕ → List ℕ
rm_command sys_name = b'r' ∷ b'm' ∷ b' ' ∷ b'-' ∷ b'r' ∷ b' ' ∷ sys_name

-- What is done under the name on the disk, between the two changes of the watch.
unfoldable pub remove_as : FileType → MonitorTable → List ℕ → List ℕ → MonitorTable × Syscall
remove_as directory table sys_name name =
    (file_monitor_rmdir table name, system (rm_command sys_name))
remove_as regular table sys_name name = (table, unlink sys_name)
remove_as soft_link table sys_name name = (table, unlink sys_name)

unfoldable pub delete_at :
    TransFileEntry
    → MonitorTable
    → MonitorTarget
    → List Syscall
    → Option (List ℕ)
    → MonitorTable × List Syscall
delete_at te table t calls none = (table, calls ++ default_mask t.sys_name ∷ [])
delete_at te table t calls (some sys_name) =
    let (table₁, removal) = remove_as te.file_type table sys_name te.name in
    (table₁, calls ++ removal ∷ default_mask t.sys_name ∷ [])

unfoldable pub delete_in :
    TransFileEntry → MonitorTable → Blocked → Option (MonitorTable × List Syscall)
delete_in te table null_target = none
delete_in te table no_target = some (table, [])
delete_in te table (blocked table₁ t calls) =
    some (delete_at te table₁ t calls (monitor_get_sys_name t te.name))

-- `none` is where a null pointer is followed.
unfoldable pub file_delete :
    (List ℕ → Option ℕ) → MonitorTable → TransFileEntry → Option (MonitorTable × List Syscall)
file_delete add_watch table te =
    delete_in te table (file_monitor_block add_watch table te.name true)
