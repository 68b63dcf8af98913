-- ===== src/FileMonitor/Watch.antt =====
-- client/file_monitor.c: the directories that a peer watches. `add_watch` is what `inotify_add_watch`
-- answers for a name, `none` for an error.
use tele_sync.Prelude.{
  ℕ, ◌+◌, List, [], ◌∷◌, ◌++◌, Option, none, some, Bool, true, false, ◌==◌, ◌||◌, ◌&&◌,
  if◌then◌else◌, same_name, get_or, set, replicate,
}
use tele_sync.FileMonitor.{Listing, done, file, dir, closed_dir, is_dot, path}

abbrev pub wd_hash_size : ℕ
wd_hash_size = 128

pub record MonitorTarget : Type 0 where
  pub wd : ℕ
  pub sys_name : List ℕ
  pub logic_name : List ℕ

-- `head` is the list, and `targets` the array of pointers to its elements. The names in a target do not
-- change.
pub record MonitorTable : Type 0 where
  pub n : ℕ
  pub head : List MonitorTarget
  pub targets : List (Option MonitorTarget)

abbrev pub monitor_table_init : MonitorTable
monitor_table_init = record { n = 0; head = []; targets = replicate wd_hash_size none }

unfoldable pub remove_target : ℕ → List MonitorTarget → List MonitorTarget
remove_target wd [] = []
remove_target wd (t ∷ ts) = let rest = remove_target wd ts in if t.wd == wd then ts else t ∷ rest

unfoldable pub unwatch_and_free_target : MonitorTable → Option MonitorTarget → MonitorTable
unwatch_and_free_target table none = table
unwatch_and_free_target table (some target) = record table {
  head = remove_target target.wd table.head;
  targets = set table.targets target.wd none;
}

unfoldable pub new_target : MonitorTable → MonitorTarget → MonitorTable
new_target table target = record {
  n = table.n + 1;
  head = table.head ++ target ∷ [];
  targets = set table.targets target.wd (some target);
}

-- With the descriptor that `inotify_add_watch` has answered.
unfoldable pub watch_target_as :
    Option ℕ → MonitorTable → List ℕ → List ℕ → MonitorTable × Option MonitorTarget
watch_target_as none table sys_name logic_name = (table, none)
watch_target_as (some wd) table sys_name logic_name =
    let target : MonitorTarget = record { wd = wd; sys_name = sys_name; logic_name = logic_name } in
    elim (get_or table.targets wd none) [
      | none ↦ (new_target table target, some target)
      | some old ↦ (table, some old)
    ]

unfoldable pub watch_target_add :
    (List ℕ → Option ℕ) → MonitorTable → List ℕ → List ℕ → MonitorTable × Option MonitorTarget
watch_target_add add_watch table sys_name logic_name =
    watch_target_as (add_watch sys_name) table sys_name logic_name

-- The loop of `watch_target_add_dir` over what `readdir` gives: the table, and whether `ret` is not 0.
unfoldable pub watch_entries :
    (List ℕ → Option ℕ) → MonitorTable → List ℕ → List ℕ → Listing → MonitorTable × Bool
watch_entries add_watch table sys_dir local_dir done = (table, false)
watch_entries add_watch table sys_dir local_dir (file d_name time rest) =
    watch_entries add_watch table sys_dir local_dir rest
watch_entries add_watch table sys_dir local_dir (closed_dir d_name time rest) =
    let added =
      (watch_target_add add_watch table (path sys_dir d_name) (path local_dir d_name)).0 in
    let (table₁, failed) =
      watch_entries add_watch (if is_dot d_name then table else added) sys_dir local_dir rest in
    (table₁, if is_dot d_name then failed else true)
watch_entries add_watch table sys_dir local_dir (dir d_name time sub rest) =
    let added =
      (watch_target_add add_watch table (path sys_dir d_name) (path local_dir d_name)).0 in
    let (inner, below) =
      watch_entries add_watch added (path sys_dir d_name) (path local_dir d_name) sub in
    let (table₁, failed) =
      watch_entries add_watch (if is_dot d_name then table else inner) sys_dir local_dir rest in
    (table₁, if is_dot d_name then failed else below || failed)

-- `none` is a directory that cannot be opened.
unfoldable pub watch_target_add_dir :
    (List ℕ → Option ℕ) → MonitorTable → List ℕ → List ℕ → Option Listing → MonitorTable × Bool
watch_target_add_dir add_watch table sys_dir local_dir none =
    ((watch_target_add add_watch table sys_dir local_dir).0, true)
watch_target_add_dir add_watch table sys_dir local_dir (some l) =
    watch_entries add_watch (watch_target_add add_watch table sys_dir local_dir).0 sys_dir local_dir
      l

-- The loop of `file_monitor_task` over its targets, from the `i`th on: `failed` is `ret`.
unfoldable pub watch_all :
    (List ℕ → Option ℕ)
    → (ℕ → List ℕ)
    → MonitorTable
    → Bool
    → ℕ
    → List (List ℕ × Option Listing)
    → MonitorTable × Bool
watch_all add_watch decimal table ret i [] = (table, ret)
watch_all add_watch decimal table ret i ((target, listing) ∷ targets) =
    let (table₁, failed) = watch_target_add_dir add_watch table target (decimal (i + 1)) listing in
    watch_all add_watch decimal table₁ (failed && ret) (i + 1) targets

-- The search along the list, of `get_dir_target` and of `get_file_target`.
unfoldable pub find_target : List ℕ → List MonitorTarget → Option MonitorTarget
find_target name [] = none
find_target name (t ∷ ts) =
    let rest = find_target name ts in if same_name t.logic_name name then some t else rest

unfoldable pub get_dir_target : MonitorTable → List ℕ → Option MonitorTarget
get_dir_target table name = find_target name table.head

-- `rindex(name, '/')`: what stands before the last slash, and the rest from the slash on.
unfoldable pub rindex : List ℕ → Option (List ℕ × List ℕ)
rindex [] = none
rindex (c ∷ cs) = elim (rindex cs) [
  | some (before, rest) ↦ some (c ∷ before, rest)
  | none ↦ if c == b'/' then some ([], c ∷ cs) else none
]

-- A name without a slash has no target; the code would write through a null pointer.
unfoldable pub get_file_target : MonitorTable → List ℕ → Option MonitorTarget
get_file_target table logic_name = elim (rindex logic_name) [
  | none ↦ none
  | some (before, rest) ↦ get_dir_target table before
]

unfoldable pub monitor_get_sys_name : MonitorTarget → List ℕ → Option (List ℕ)
monitor_get_sys_name target logic_name = elim (rindex logic_name) [
  | none ↦ none
  | some (before, rest) ↦ some (target.sys_name ++ rest)
]

unfoldable pub get_sys_name : MonitorTable → List ℕ → Option (List ℕ)
get_sys_name table logic_name = elim (get_file_target table logic_name) [
  | none ↦ none
  | some target ↦ monitor_get_sys_name target logic_name
]

-- `made` says whether `mkdir` returned 0. The answer is whether the function returns 0.
unfoldable pub file_monitor_mkdir :
    (List ℕ → Option ℕ) → MonitorTable → (made : Bool) → List ℕ → List ℕ → MonitorTable × Bool
file_monitor_mkdir add_watch table false sys_name logic_name = (table, false)
file_monitor_mkdir add_watch table true sys_name logic_name =
    let (table₁, target) = watch_target_add add_watch table sys_name logic_name in
    (table₁, elim target [ none ↦ false | some t ↦ true ])

-- After `rm -r`; what the function returns is not set when there is a target.
unfoldable pub file_monitor_rmdir : MonitorTable → List ℕ → MonitorTable
file_monitor_rmdir table logic_name = elim (get_dir_target table logic_name) [
  | none ↦ table
  | some target ↦ unwatch_and_free_target table (some target)
]
