-- ===== src/FileMonitor/BlockNames.antt =====
-- What `file_monitor_block` of client/file_monitor.c answers for a file in a target directory.
use mathlib.Core.List.{append_assoc}
use tele_sync.Prelude.{
  ℕ, suc, ◌<◌, ◌≡◌, refl, sym, ap, subst, ◌∙◌, List, [], ◌∷◌, ◌++◌, Option, none, some, true, false,
  arith, Option-cases, Bool-cases, inl, inr, length, drop,
}
use tele_sync.FileMonitor.{path}
use tele_sync.FileMonitor.Paths.{no_slash}
use tele_sync.FileMonitor.Watch.{
  wd_hash_size, MonitorTarget, MonitorTable, find_target, rindex, get_file_target,
  monitor_get_sys_name, get_sys_name,
}
use tele_sync.FileMonitor.Lookup.{find_target-name, rindex-path, is_found, Found}
use tele_sync.FileMonitor.SysNames.{get_sys_name-some}
use tele_sync.FileMonitor.Block.{
  Syscall, block_all, Blocked, blocked, has_slash, closest, make_dirs, make_below, block_as,
  file_monitor_block,
}
use tele_sync.FileMonitor.Closest.{
  Above, closest-Above, closest-watched, split_last, drop-path, no_slash-has_slash,
}
use tele_sync.FileMonitor.MissingDirs.{takes_on, NamesHere, Watches, Reached, make_dirs-Reached}
use tele_sync.FileMonitor.NamesBelow.{has_slash-path, get_file_target-path, sys_path, takes_rest}

module _ (add_watch : List ℕ → Option ℕ)
    (add_watch_inj : (a b : List ℕ) (wd : ℕ)
      → add_watch a ≡ some wd
      → add_watch b ≡ some wd
      → a ≡ b)
    (add_watch_lt : (a : List ℕ) (wd : ℕ) → add_watch a ≡ some wd → wd < wd_hash_size)
    (target local_dir : List ℕ) where
  abbrev HasNames : List ℕ → List ℕ → Type 0
  HasNames = NamesHere add_watch add_watch_inj add_watch_lt target local_dir

  abbrev IsWatched : MonitorTable → Type 0
  IsWatched = Watches add_watch add_watch_inj add_watch_lt target local_dir

  abbrev IsReached : MonitorTable → Blocked → List ℕ → List ℕ → Type 0
  IsReached = Reached add_watch add_watch_inj add_watch_lt target local_dir

  -- The directory of the file is watched already.
  watched-Reached :
      (table : MonitorTable) (t : MonitorTarget) (below before name : List ℕ)
      → IsWatched table
      → find_target before table.head ≡ some t
      → path local_dir below ≡ path before name
      → no_slash name ≡ true
      → IsReached table
          (blocked table t (block_all t.sys_name ∷ []))
          (path local_dir below)
          (path target below)
  watched-Reached table t below before name v e split plain =
      let same : t.logic_name ≡ before = find_target-name before table.head t e in
      let named : HasNames t.logic_name t.sys_name = v.coherent before t e in
      let logic : path t.logic_name name ≡ path local_dir below =
        ap (λ l. path l name) same ∙ sym split in
      record {
        after = table;
        t = t;
        calls = block_all t.sys_name ∷ [];
        name = name;
        is = refl;
        valid = v;
        stays = λ q f. f;
        there = subst (λ l. Found l table) (sym same) (rw e refl);
        plain = plain;
        logic_is = logic;
        sys_is =
            sys_path add_watch add_watch_inj add_watch_lt target local_dir t.logic_name t.sys_name
              name below named logic;
      }

  path_begin : (a rest : List ℕ) → path a [] ++ rest ≡ path a rest
  unfolding path
  path_begin a rest = append_assoc a (b'/' ∷ []) rest

  below-Reached :
      (table : MonitorTable) (t : MonitorTarget) (below : List ℕ)
      → IsWatched table
      → Above table.head (path local_dir below) (some t)
      → takes_on add_watch target (b'/' ∷ below) ≡ true
      → IsReached table
          (make_below add_watch table (path local_dir below) (some t))
          (path local_dir below)
          (path target below)
  unfolding make_below Above no_slash
  below-Reached table t below v (e, (rest, logic)) takes =
      let named : HasNames t.logic_name t.sys_name = v.coherent t.logic_name t e in
      let cut : drop (suc (length t.logic_name)) (path local_dir below) ≡ rest =
        ap (drop (suc (length t.logic_name))) (sym logic) ∙ drop-path t.logic_name rest in
      let x =
        make_dirs-Reached add_watch add_watch_inj add_watch_lt target local_dir table t [] rest v
          named (rw e refl) refl
          (takes_rest add_watch add_watch_inj add_watch_lt target local_dir t.logic_name t.sys_name
            rest below named logic takes) in
      let found = make_dirs add_watch table t [] rest in
      rw cut (
        subst (λ l. IsReached table found l (path target below))
          (path_begin t.logic_name rest ∙ logic)
          (subst (IsReached table found (path t.logic_name [] ++ rest))
            (path_begin t.sys_name rest
              ∙ sys_path add_watch add_watch_inj add_watch_lt target local_dir t.logic_name
                  t.sys_name rest below named logic)
            x))

  -- The directory of the file is found, or there is a slash in the rest of its name.
  deeper :
      (table : MonitorTable) (below : List ℕ)
      → no_slash local_dir ≡ true
      → Found local_dir table
      → get_file_target table (path local_dir below) ≡ none
      → has_slash below ≡ true
  deeper table below root there e = elim (Bool-cases (has_slash below)) [
    | inl h ↦ h
    | inr h ↦
        let here : find_target local_dir table.head ≡ none =
          sym (get_file_target-path table local_dir below (no_slash-has_slash below h)) ∙ e in
        absurd (ground arith)
  ]

  has_closest :
      (table : MonitorTable) (below : List ℕ)
      → no_slash local_dir ≡ true
      → Found local_dir table
      → has_slash below ≡ true
      → (t : MonitorTarget) × (closest table.head none [] (path local_dir below) ≡ some t)
  unfolding path
  has_closest table below root there slash =
      let found : is_found (closest table.head none [] (path local_dir below)) ≡ true =
        closest-watched table.head none [] local_dir below root slash there in
      elim (Option-cases (closest table.head none [] (path local_dir below))) [
        | inl e ↦ absurd (ground arith)
        | inr (t, e) ↦ (t, e)
      ]

  pub file_monitor_block-Reached :
      (table : MonitorTable) (below : List ℕ)
      → IsWatched table
      → no_slash local_dir ≡ true
      → Found local_dir table
      → takes_on add_watch target (b'/' ∷ below) ≡ true
      → IsReached table
          (file_monitor_block add_watch table (path local_dir below) false)
          (path local_dir below)
          (path target below)
  unfolding file_monitor_block block_as Above
  file_monitor_block-Reached table below v root there takes =
      let logic = path local_dir below in
      rw (has_slash-path local_dir below) (elim (Option-cases (get_file_target table logic)) [
        | inl e ↦
            let (t, c) = has_closest table below root there (deeper table below root there e) in
            let above : Above table.head logic (some t) =
              subst (Above table.head logic) c (closest-Above table.head none [] logic tt) in
            rw (e, block_as, c) (below-Reached table t below v above takes)
        | inr (t, e) ↦
            let (before, name, split, plain) = split_last logic (has_slash-path local_dir below) in
            let found : find_target before table.head ≡ some t =
              sym (get_file_target-path table before name plain)
              ∙ ap (get_file_target table) (sym split)
              ∙ e in
            rw (e, block_as) (watched-Reached table t below before name v found split plain)
      ])

  -- A directory that is found gives the name on the disk.
  by_table :
      (table : MonitorTable) (dir name below : List ℕ)
      → IsWatched table
      → Found dir table
      → rindex (path local_dir below) ≡ some (dir, b'/' ∷ name)
      → path dir name ≡ path local_dir below
      → get_sys_name table (path local_dir below) ≡ some (path target below)
  unfolding path
  by_table table dir name below v there split logic =
      elim (Option-cases (find_target dir table.head)) [
        | inl e ↦ absurd (ground arith)
        | inr (t, e) ↦
            let same : t.logic_name ≡ dir = find_target-name dir table.head t e in
            get_sys_name-some table (path local_dir below) dir (b'/' ∷ name) t split e
            ∙ ap some (
                sys_path add_watch add_watch_inj add_watch_lt target local_dir t.logic_name
                  t.sys_name name below (v.coherent dir t e) (ap (λ l. path l name) same ∙ logic))
      ]

  -- If all that a peer watches lies in one target directory, with the same path below its logic name, the
  -- directory itself is watched, and inotify takes every directory on the way to a file in it, each with
  -- a descriptor of its own below 128, then the peer gets a target when it is about to write the file: the
  -- name on the disk that follows from the target is the same path below the target directory, and so is
  -- the name that the table gives from then on.
  pub file_monitor_block-get_sys_name :
      (table : MonitorTable) (below : List ℕ)
      → IsWatched table
      → no_slash local_dir ≡ true
      → Found local_dir table
      → takes_on add_watch target (b'/' ∷ below) ≡ true
      → (after : MonitorTable) × (t : MonitorTarget) × (calls : List Syscall) × (file_monitor_block
            add_watch table
            (path local_dir below)
            false
          ≡ blocked after t calls)
        × (monitor_get_sys_name t (path local_dir below) ≡ some (path target below))
        × (get_sys_name after (path local_dir below) ≡ some (path target below))
  unfolding monitor_get_sys_name path
  file_monitor_block-get_sys_name table below v root there takes =
      let x = file_monitor_block-Reached table below v root there takes in
      let logic = path local_dir below in
      let split : rindex logic ≡ some (x.t.logic_name, b'/' ∷ x.name) =
        ap rindex (sym x.logic_is) ∙ rindex-path x.t.logic_name x.name x.plain in
      (
        x.after,
        x.t,
        x.calls,
        x.is,
        rw (monitor_get_sys_name, split) (ap some x.sys_is),
        by_table x.after x.t.logic_name x.name below x.valid x.there split x.logic_is,
      )
