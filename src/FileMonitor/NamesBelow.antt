-- ===== src/FileMonitor/NamesBelow.antt =====
-- The two names of what is below a target directory of client/file_monitor.c.
use mathlib.Core.List.{append_assoc}
use tele_sync.Prelude.{
  ℕ, ◌<◌, ◌≡◌, refl, sym, ap, subst, ◌∙◌, List, [], ◌∷◌, ◌++◌, Option, some, true, arith,
}
use tele_sync.FileMonitor.{path}
use tele_sync.FileMonitor.Paths.{no_slash}
use tele_sync.FileMonitor.Watch.{
  wd_hash_size, MonitorTable, find_target, get_dir_target, get_file_target,
}
use tele_sync.FileMonitor.Lookup.{rindex-path, append_cancel}
use tele_sync.FileMonitor.SysNames.{Names}
use tele_sync.FileMonitor.Block.{Blocked, has_slash}
use tele_sync.FileMonitor.MissingDirs.{takes_on, takes_on-append, NamesHere, Watches, Reached}

pub has_slash-path : (a b : List ℕ) → has_slash (path a b) ≡ true
unfolding has_slash path
has_slash-path [] b = refl
has_slash-path (x ∷ a) b = ground (arith, has_slash-path a b)

pub get_file_target-path :
    (table : MonitorTable) (before name : List ℕ)
    → no_slash name ≡ true
    → get_file_target table (path before name) ≡ find_target before table.head
unfolding get_file_target get_dir_target
get_file_target-path table before name plain =
    rw (get_file_target, rindex-path before name plain) refl

module _ (add_watch : List ℕ → Option ℕ)
    (add_watch_inj : (a b : List ℕ) (wd : ℕ)
      → add_watch a ≡ some wd
      → add_watch b ≡ some wd
      → a ≡ b)
    (add_watch_lt : (a : List ℕ) (wd : ℕ) → add_watch a ≡ some wd → wd < wd_hash_size)
    (target local_dir : List ℕ) where
  abbrev HasNames : List ℕ → List ℕ → Type 0
  HasNames = NamesHere add_watch add_watch_inj add_watch_lt target local_dir

  abbrev IsWatched : MonitorTable → Type 0
  IsWatched = Watches add_watch add_watch_inj add_watch_lt target local_dir

  abbrev IsReached : MonitorTable → Blocked → List ℕ → List ℕ → Type 0
  IsReached = Reached add_watch add_watch_inj add_watch_lt target local_dir

  -- The same rest stands behind both names of a directory.
  rest_of :
      (logic sys rest below : List ℕ)
      → HasNames logic sys
      → path logic rest ≡ path local_dir below
      → (rel : List ℕ) × (b'/' ∷ below ≡ rel ++ b'/' ∷ rest) × (sys ≡ target ++ rel)
  unfolding Names path
  rest_of logic sys rest below (rel, e, f) h =
      let both : local_dir ++ b'/' ∷ below ≡ local_dir ++ (rel ++ b'/' ∷ rest) =
        sym h ∙ ap (λ l. l ++ b'/' ∷ rest) e ∙ append_assoc local_dir rel (b'/' ∷ rest) in
      (rel, append_cancel local_dir (b'/' ∷ below) (rel ++ b'/' ∷ rest) both, f)

  pub sys_path :
      (logic sys rest below : List ℕ)
      → HasNames logic sys
      → path logic rest ≡ path local_dir below
      → path sys rest ≡ path target below
  unfolding path
  sys_path logic sys rest below n h =
      let (rel, e, f) = rest_of logic sys rest below n h in
      ap (λ s. s ++ b'/' ∷ rest) f ∙ append_assoc target rel (b'/' ∷ rest) ∙ ap (target ++◌) (sym e)

  pub takes_rest :
      (logic sys rest below : List ℕ)
      → HasNames logic sys
      → path logic rest ≡ path local_dir below
      → takes_on add_watch target (b'/' ∷ below) ≡ true
      → takes_on add_watch (path sys []) rest ≡ true
  unfolding path
  takes_rest logic sys rest below n h takes =
      let (rel, e, f) = rest_of logic sys rest below n h in
      let from_target : takes_on add_watch (target ++ rel) (b'/' ∷ rest) ≡ true =
        takes_on-append add_watch target rel (b'/' ∷ rest)
          (subst (λ x. takes_on add_watch target x ≡ true) e takes) in
      subst (λ s. takes_on add_watch (s ++ b'/' ∷ []) rest ≡ true) (sym f)
        (takes_on-append add_watch (target ++ rel) (b'/' ∷ []) rest from_target)
