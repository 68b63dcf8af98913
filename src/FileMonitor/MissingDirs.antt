-- ===== src/FileMonitor/MissingDirs.antt =====
-- The directories that `file_monitor_block` of client/file_monitor.c makes.
use mathlib.Core.List.{append_assoc, append-nil}
use tele_sync.Prelude.{
  ℕ, ◌<◌, ◌≡◌, refl, sym, ap, subst, ◌∙◌, List, [], ◌∷◌, ◌++◌, Option, none, some, Bool, true,
  false, ◌==◌, ◌&&◌, if◌then◌else◌, arith, Option-cases, Bool-cases, inl, inr, get_or,
}
use tele_sync.FileMonitor.{path}
use tele_sync.FileMonitor.Paths.{no_slash}
use tele_sync.FileMonitor.Watch.{
  wd_hash_size, MonitorTarget, MonitorTable, watch_target_add, watch_target_as,
}
use tele_sync.FileMonitor.Lookup.{Found}
use tele_sync.FileMonitor.Coherence.{Watching, watch_target_add-Grown}
use tele_sync.FileMonitor.SysNames.{Names, Names_inj, Names-path}
use tele_sync.FileMonitor.Block.{
  Syscall, Blocked, null_target, no_target, blocked, before_that, make_dirs,
}

-- Does inotify take every directory on the way, from `sys_name` on?
unfoldable pub takes_on : (List ℕ → Option ℕ) → List ℕ → List ℕ → Bool
takes_on add_watch sys_name [] = true
takes_on add_watch sys_name (c ∷ cs) =
    (if c == b'/' then elim (add_watch sys_name) [ none ↦ false | some wd ↦ true ] else true)
    && takes_on add_watch (sys_name ++ c ∷ []) cs

pub takes_on-append :
    (add_watch : List ℕ → Option ℕ) (s x y : List ℕ)
    → takes_on add_watch s (x ++ y) ≡ true
    → takes_on add_watch (s ++ x) y ≡ true
unfolding takes_on
takes_on-append add_watch s [] y h = rw (append-nil s) h
takes_on-append add_watch s (c ∷ x) y h =
    let later : takes_on add_watch (s ++ c ∷ []) (x ++ y) ≡ true = ground arith in
    subst (λ z. takes_on add_watch z y ≡ true) (append_assoc s (c ∷ []) x)
      (takes_on-append add_watch (s ++ c ∷ []) x y later)

no_slash-append :
    (d : List ℕ) (c : ℕ) → no_slash d ≡ true → (c == b'/') ≡ false → no_slash (d ++ c ∷ []) ≡ true
unfolding no_slash
no_slash-append [] c h e = ground arith
no_slash-append (x ∷ d) c h e = ground (arith, no_slash-append d c)

module _ (add_watch : List ℕ → Option ℕ)
    (add_watch_inj : (a b : List ℕ) (wd : ℕ)
      → add_watch a ≡ some wd
      → add_watch b ≡ some wd
      → a ≡ b)
    (add_watch_lt : (a : List ℕ) (wd : ℕ) → add_watch a ≡ some wd → wd < wd_hash_size)
    (target local_dir : List ℕ) where
  -- The table of a peer that watches directories in this target.
  abbrev pub NamesHere : List ℕ → List ℕ → Type 0
  NamesHere = Names add_watch add_watch_inj add_watch_lt target local_dir

  abbrev pub Watches : MonitorTable → Type 0
  Watches =
      Watching add_watch add_watch_inj add_watch_lt NamesHere
        (Names_inj add_watch add_watch_inj add_watch_lt target local_dir)
        (Names-path add_watch add_watch_inj add_watch_lt target local_dir)

  -- A directory that inotify takes gets a target of its names.
  watch_target_add-target :
      (table : MonitorTable) (l s : List ℕ) (wd : ℕ)
      → Watches table
      → NamesHere l s
      → add_watch s ≡ some wd
      → (t : MonitorTarget) × ((watch_target_add add_watch table s l).1 ≡ some t)
        × (t.sys_name ≡ s)
        × (t.logic_name ≡ l)
  unfolding watch_target_add watch_target_as
  watch_target_add-target table l s wd v named e =
      rw e (elim (Option-cases (get_or table.targets wd none)) [
        | inl free ↦
            rw (watch_target_as, free)
              (record { wd = wd; sys_name = s; logic_name = l }, refl, refl, refl)
        | inr (old, taken) ↦
            let (answer, names, there) = v.held wd old taken in
            let same : s ≡ old.sys_name = add_watch_inj s old.sys_name wd e answer in
            rw (watch_target_as, taken)
              (
                old,
                refl,
                sym same,
                Names_inj add_watch add_watch_inj add_watch_lt target local_dir old.logic_name l s
                    (subst (NamesHere old.logic_name) (sym same) names) named,
              )
      ])

  taken :
      (s : List ℕ) (c : ℕ) (cs : List ℕ)
      → takes_on add_watch s (c ∷ cs) ≡ true
      → (c == b'/') ≡ true
      → (wd : ℕ) × (add_watch s ≡ some wd)
  unfolding takes_on
  taken s c cs h e = elim (Option-cases (add_watch s)) [
    | inl refused ↦ absurd (ground arith)
    | inr (wd, answer) ↦ (wd, answer)
  ]

  -- The target that is answered is that of the directory of the file: what stands behind it in the name,
  -- `name`, is the last part of both names.
  pub record Reached (table : MonitorTable) (r : Blocked) (logic sys : List ℕ) : Type 0 where
    pub after : MonitorTable
    pub t : MonitorTarget
    pub calls : List Syscall
    pub name : List ℕ
    pub is : r ≡ blocked after t calls
    pub valid : Watches after
    pub stays : (q : List ℕ) → Found q table → Found q after
    pub there : Found t.logic_name after
    pub plain : no_slash name ≡ true
    pub logic_is : path t.logic_name name ≡ logic
    pub sys_is : path t.sys_name name ≡ sys

  Reached-by :
      (table table₁ : MonitorTable) (r : Blocked) (logic logic' sys sys' : List ℕ)
      (calls : List Syscall)
      → ((q : List ℕ) → Found q table → Found q table₁)
      → logic ≡ logic'
      → sys ≡ sys'
      → Reached table₁ r logic sys
      → Reached table (before_that calls r) logic' sys'
  unfolding before_that
  Reached-by table table₁ r logic logic' sys sys' calls grows e e' x = record {
    after = x.after;
    t = x.t;
    calls = calls ++ x.calls;
    name = x.name;
    is = ap (before_that calls) x.is;
    valid = x.valid;
    stays = λ q f. x.stays q (grows q f);
    there = x.there;
    plain = x.plain;
    logic_is = x.logic_is ∙ e;
    sys_is = x.sys_is ∙ e';
  }

  before_nothing : (r : Blocked) → before_that [] r ≡ r
  unfolding before_that
  before_nothing null_target = refl
  before_nothing no_target = refl
  before_nothing (blocked table t calls) = refl

  path_further :
      (l d : List ℕ) (c : ℕ) (cs : List ℕ) → path l (d ++ c ∷ []) ++ cs ≡ path l d ++ c ∷ cs
  unfolding path
  path_further l d c cs = simp append_assoc

  pub path_start : (s : List ℕ) (c : ℕ) → (c == b'/') ≡ true → s ++ c ∷ [] ≡ path s []
  unfolding path
  path_start s c e = let same : c ≡ b'/' = ground arith in rw same refl

  path_below :
      (l d : List ℕ) (c : ℕ) (cs : List ℕ)
      → (c == b'/') ≡ true
      → path (path l d) [] ++ cs ≡ path l d ++ c ∷ cs
  unfolding path
  path_below l d c cs e =
      let same : c ≡ b'/' = ground arith in rw same (append_assoc (l ++ b'/' ∷ d) (b'/' ∷ []) cs)

  pub make_dirs-Reached :
      (table : MonitorTable) (t : MonitorTarget) (d cs : List ℕ)
      → Watches table
      → NamesHere t.logic_name t.sys_name
      → Found t.logic_name table
      → no_slash d ≡ true
      → takes_on add_watch (path t.sys_name d) cs ≡ true
      → Reached table
          (make_dirs add_watch table t d cs)
          (path t.logic_name d ++ cs)
          (path t.sys_name d ++ cs)
  unfolding make_dirs no_slash path
  make_dirs-Reached table t d [] v named there plain h = record {
    after = table;
    t = t;
    calls = _;
    name = d;
    is = refl;
    valid = v;
    stays = λ q f. f;
    there = there;
    plain = plain;
    logic_is = sym (append-nil (path t.logic_name d));
    sys_is = sym (append-nil (path t.sys_name d));
  }
  make_dirs-Reached table t d (c ∷ cs) v named there plain h = elim (Bool-cases (c == b'/')) [
    | inl e ↦
        let sys = path t.sys_name d in
        let logic = path t.logic_name d in
        let (wd, answer) = taken sys c cs h e in
        let below : NamesHere logic sys =
          Names-path add_watch add_watch_inj add_watch_lt target local_dir t.logic_name t.sys_name d
            named in
        let (t₁, got, sys₁, logic₁) = watch_target_add-target table logic sys wd v below answer in
        let (g, found) =
          watch_target_add-Grown add_watch add_watch_inj add_watch_lt NamesHere
            (Names_inj add_watch add_watch_inj add_watch_lt target local_dir)
            (Names-path add_watch add_watch_inj add_watch_lt target local_dir) table v logic sys
            below in
        let table₁ = (watch_target_add add_watch table sys logic).0 in
        let x =
          make_dirs-Reached table₁ t₁ [] cs g.valid
            (subst (λ l. NamesHere l t₁.sys_name) (sym logic₁)
              (subst (NamesHere logic) (sym sys₁) below))
            (subst (λ l. Found l table₁) (sym logic₁) (found wd answer)) refl
            (subst (λ z. takes_on add_watch z cs ≡ true)
              (path_start sys c e ∙ ap (λ z. path z []) (sym sys₁))
              (takes_on-append add_watch sys (c ∷ []) cs h)) in
        rw (make_dirs, e, got)
          (Reached-by table table₁ (make_dirs add_watch table₁ t₁ [] cs)
            (path t₁.logic_name [] ++ cs) (logic ++ c ∷ cs) (path t₁.sys_name [] ++ cs)
            (sys ++ c ∷ cs) _ g.stays
            (ap (λ z. path z [] ++ cs) logic₁ ∙ path_below t.logic_name d c cs e)
            (ap (λ z. path z [] ++ cs) sys₁ ∙ path_below t.sys_name d c cs e) x)
    | inr e ↦
        let x =
          make_dirs-Reached table t (d ++ c ∷ []) cs v named there (no_slash-append d c plain e) (
            subst (λ z. takes_on add_watch z cs ≡ true)
              (append_assoc t.sys_name (b'/' ∷ d) (c ∷ []))
              (takes_on-append add_watch (path t.sys_name d) (c ∷ []) cs h)) in
        rw (make_dirs, e)
          (subst
            (λ r. Reached table r (path t.logic_name d ++ c ∷ cs) (path t.sys_name d ++ c ∷ cs))
            (before_nothing (make_dirs add_watch table t (d ++ c ∷ []) cs))
            (Reached-by table table (make_dirs add_watch table t (d ++ c ∷ []) cs) _
              (path t.logic_name d ++ c ∷ cs) _ (path t.sys_name d ++ c ∷ cs) [] (λ q f. f)
              (path_further t.logic_name d c cs) (path_further t.sys_name d c cs) x))
  ]
