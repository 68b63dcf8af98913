-- ===== src/FileMonitor/SysNames.antt =====
-- From logic names to names on the disk and back, in one target directory of client/file_monitor.c.
use tele_sync.Prelude.{
  ℕ, ◌<◌, ◌≡◌, refl, sym, ap, ◌∙◌, List, [], ◌∷◌, ◌++◌, Option, none, some, Bool, true, false,
  arith, get_or-replicate, Option-cases, inl, inr, length-replicate,
}
use mathlib.Core.List.{append_assoc, append-nil}
use tele_sync.TransTable.{FileType, regular, directory, soft_link}
use tele_sync.FileMonitor.{Listing, path}
use tele_sync.FileMonitor.Paths.{no_slash}
use tele_sync.FileMonitor.Resolve.{resolve}
use tele_sync.FileMonitor.Watch.{
  wd_hash_size, MonitorTarget, MonitorTable, monitor_table_init, watch_target_add,
  watch_target_add_dir, find_target, get_dir_target, rindex, get_file_target, monitor_get_sys_name,
  get_sys_name,
}
use tele_sync.FileMonitor.Lookup.{find_target-name, rindex-path, append_cancel, Found}
use tele_sync.FileMonitor.Coherence.{Watching, watch_target_add-Grown, watch_entries-Walked}

-- The target directory itself, or what is below it.
unfoldable pub place : List ℕ → Option (List ℕ) → List ℕ
place a none = a
place a (some r) = path a r

-- What a place adds to the name of the target directory.
tail_of : Option (List ℕ) → List ℕ
tail_of none = []
tail_of (some r) = b'/' ∷ r

place-tail : (a : List ℕ) (r : Option (List ℕ)) → place a r ≡ a ++ tail_of r
unfolding place tail_of path
place-tail a none = sym (append-nil a)
place-tail a (some r) = refl

-- Is it a directory?
unfoldable pub is_dir : Option (FileType × Option ℕ) → Bool
is_dir none = false
is_dir (some (regular, time)) = false
is_dir (some (directory, time)) = true
is_dir (some (soft_link, time)) = false

unfoldable pub is_directory : Listing → Option (List ℕ) → Bool
is_directory l none = true
is_directory l (some r) = is_dir (resolve l r)

is_dir-eq :
    (o : Option (FileType × Option ℕ))
    → is_dir o ≡ true
    → (time : Option ℕ) × (o ≡ some (directory, time))
unfolding is_dir
is_dir-eq none h = absurd (cc)
is_dir-eq (some (regular, time)) h = absurd (cc)
is_dir-eq (some (directory, time)) h = (time, refl)
is_dir-eq (some (soft_link, time)) h = absurd (cc)

pub get_sys_name-some :
    (table : MonitorTable) (q before rest : List ℕ) (t : MonitorTarget)
    → rindex q ≡ some (before, rest)
    → find_target before table.head ≡ some t
    → get_sys_name table q ≡ some (t.sys_name ++ rest)
unfolding get_sys_name get_file_target get_dir_target monitor_get_sys_name
get_sys_name-some table q before rest t split found =
    rw (get_sys_name, get_file_target, split, get_dir_target, found, monitor_get_sys_name, split)
      refl

module _ (add_watch : List ℕ → Option ℕ)
    (add_watch_inj : (a b : List ℕ) (wd : ℕ)
      → add_watch a ≡ some wd
      → add_watch b ≡ some wd
      → a ≡ b)
    (add_watch_lt : (a : List ℕ) (wd : ℕ) → add_watch a ≡ some wd → wd < wd_hash_size)
    (target local_dir : List ℕ) where
  -- The same path below the logic name and below the directory.
  unfoldable pub Names : List ℕ → List ℕ → Type 0
  Names l s = (rel : List ℕ) × (l ≡ local_dir ++ rel) × (s ≡ target ++ rel)

  pub Names_inj : (l l' s : List ℕ) → Names l s → Names l' s → l ≡ l'
  unfolding Names
  Names_inj l l' s (rel, e, f) (rel', e', f') =
      let same : rel ≡ rel' = append_cancel target rel rel' (sym f ∙ f') in
      e ∙ ap (local_dir ++◌) same ∙ sym e'

  pub Names-path : (l s d : List ℕ) → Names l s → Names (path l d) (path s d)
  unfolding Names path
  Names-path l s d (rel, e, f) = (
    rel ++ b'/' ∷ d,
    rw e (append_assoc local_dir rel (b'/' ∷ d)),
    rw f (append_assoc target rel (b'/' ∷ d)),
  )

  init-Watching :
      Watching add_watch add_watch_inj add_watch_lt Names Names_inj Names-path monitor_table_init
  unfolding find_target
  init-Watching = record {
    roomy = length-replicate wd_hash_size none;
    held = λ wd t h.
        absurd (ground (arith, get_or-replicate {A = Option MonitorTarget} wd_hash_size wd none));
    coherent = λ q t h. absurd (cc);
  }

  sys_of :
      (r : Option (List ℕ)) (rel : List ℕ) (t : MonitorTarget)
      → t.logic_name ≡ local_dir ++ rel
      → t.sys_name ≡ target ++ rel
      → t.logic_name ≡ place local_dir r
      → t.sys_name ≡ place target r
  sys_of r rel t logic sys found =
      let same : rel ≡ tail_of r =
        append_cancel local_dir rel (tail_of r) (sym logic ∙ found ∙ place-tail local_dir r) in
      sys ∙ ap (target ++◌) same ∙ sym (place-tail target r)

  -- A target that is found under a logic name gives the name on the disk.
  Found-get_sys_name :
      (table : MonitorTable)
      (v : Watching add_watch add_watch_inj add_watch_lt Names Names_inj Names-path table)
      (r : Option (List ℕ)) (name : List ℕ)
      → Found (place local_dir r) table
      → no_slash name ≡ true
      → get_sys_name table (path (place local_dir r) name) ≡ some (path (place target r) name)
  unfolding Names path
  Found-get_sys_name table v r name found plain =
      elim (Option-cases (find_target (place local_dir r) table.head)) [
        | inl e ↦ absurd (ground (arith))
        | inr (t, e) ↦
            let (rel, logic, sys) = v.coherent (place local_dir r) t e in
            let s : t.sys_name ≡ place target r =
              sys_of r rel t logic sys (find_target-name (place local_dir r) table.head t e) in
            get_sys_name-some table (path (place local_dir r) name) (place local_dir r)
              (b'/' ∷ name) t (rindex-path (place local_dir r) name plain) e
            ∙ ap (λ x. some (x ++ b'/' ∷ name)) s
      ]

  pub Found-at :
      (l : Listing) (r : Option (List ℕ)) (wd : ℕ)
      → is_directory l r ≡ true
      → add_watch (place target r) ≡ some wd
      → Watching add_watch add_watch_inj add_watch_lt Names Names_inj Names-path
          (watch_target_add_dir add_watch monitor_table_init target local_dir (some l)).0
        × Found
            (place local_dir r)
            (watch_target_add_dir add_watch monitor_table_init target local_dir (some l)).0
  unfolding watch_target_add_dir Names place is_directory
  Found-at l r wd h a =
      let root : Names local_dir target =
        ([], sym (append-nil local_dir), sym (append-nil target)) in
      let (g, there) =
        watch_target_add-Grown add_watch add_watch_inj add_watch_lt Names Names_inj Names-path
          monitor_table_init init-Watching local_dir target root in
      let first = (watch_target_add add_watch monitor_table_init target local_dir).0 in
      let w =
        watch_entries-Walked add_watch add_watch_inj add_watch_lt Names Names_inj Names-path first
          g.valid local_dir target l root in
      (
        w.grown.valid,
        elim r
              as (λ r.
                is_directory l r ≡ true
                → add_watch (place target r) ≡ some wd
                → Found (place local_dir r)
                    (watch_target_add_dir add_watch monitor_table_init target local_dir
                      (some l)).0) [
                        | none ↦ λ h a. w.grown.stays local_dir (there wd a)
                        | some x ↦ λ h a.
                            let (time, e) = is_dir-eq (resolve l x) h in w.finds x time wd e a
                      ]
            h a,
      )

  -- If inotify gives each directory that it takes a descriptor of its own below 128, then a peer that has
  -- walked through a target directory knows for a file in any directory there that inotify took which
  -- name on the disk belongs to the logic name: the same path below the target.
  pub watch_target_add_dir-get_sys_name :
      (l : Listing) (r : Option (List ℕ)) (wd : ℕ) (name : List ℕ)
      → is_directory l r ≡ true
      → add_watch (place target r) ≡ some wd
      → no_slash name ≡ true
      → get_sys_name
          (watch_target_add_dir add_watch monitor_table_init target local_dir (some l)).0
          (path (place local_dir r) name)
        ≡ some (path (place target r) name)
  watch_target_add_dir-get_sys_name l r wd name h a plain =
      let (v, found) = Found-at l r wd h a in
      Found-get_sys_name
        (watch_target_add_dir add_watch monitor_table_init target local_dir (some l)).0 v r name
        found plain
