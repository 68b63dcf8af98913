-- ===== src/FileMonitor/Coherence.antt =====
-- The names of the directories that client/file_monitor.c watches.
use tele_sync.Prelude.{
  ℕ, ◌<◌, ◌≡◌, sym, ap, subst, ◌∙◌, List, Option, none, some, true, arith, ◌==◌, if◌then◌else◌,
  same_name, same_name→eq, same_name_refl, length, length-set, get_or, get_or-set, Option-cases,
  Bool-cases, inl, inr,
}
use tele_sync.TransTable.{directory}
use tele_sync.FileMonitor.{Listing, done, file, dir, closed_dir, is_dot, path}
use tele_sync.FileMonitor.Paths.{below, below-eq, path-path}
use tele_sync.FileMonitor.Resolve.{resolve}
use tele_sync.FileMonitor.Watch.{
  wd_hash_size, MonitorTarget, MonitorTable, new_target, watch_target_as, watch_target_add,
  watch_entries, find_target,
}
use tele_sync.FileMonitor.Lookup.{find_target-append, Found, some_inj, last_found}

-- `Names` relates the logic name of a directory to its name on the disk, one to one.
module _ (add_watch : List ℕ → Option ℕ)
    (add_watch_inj : (a b : List ℕ) (wd : ℕ)
      → add_watch a ≡ some wd
      → add_watch b ≡ some wd
      → a ≡ b)
    (add_watch_lt : (a : List ℕ) (wd : ℕ) → add_watch a ≡ some wd → wd < wd_hash_size)
    (Names : List ℕ → List ℕ → Type 0)
    (Names_inj : (l l' s : List ℕ) → Names l s → Names l' s → l ≡ l')
    (Names-path : (l s d : List ℕ) → Names l s → Names (path l d) (path s d)) where
  pub record Watching (table : MonitorTable) : Type 0 where
    pub roomy : length table.targets ≡ wd_hash_size
    pub held :
        (wd : ℕ) (t : MonitorTarget)
        → get_or table.targets wd none ≡ some t
        → (add_watch t.sys_name ≡ some wd)
          × Names t.logic_name t.sys_name
          × Found t.logic_name table
    pub coherent :
        (q : List ℕ) (t : MonitorTarget)
        → find_target q table.head ≡ some t
        → Names t.logic_name t.sys_name

  -- From one table to a later one.
  pub record Grown (table table' : MonitorTable) : Type 0 where
    pub valid : Watching table'
    pub stays : (q : List ℕ) → Found q table → Found q table'

  Grown-refl : (table : MonitorTable) → Watching table → Grown table table
  Grown-refl table v = record { valid = v; stays = λ q h. h }

  Grown-trans : (a b c : MonitorTable) → Grown a b → Grown b c → Grown a c
  Grown-trans a b c g h = record { valid = h.valid; stays = λ q f. h.stays q (g.stays q f) }

  Found-later :
      (q : List ℕ) (table : MonitorTable) (t : MonitorTarget)
      → Found q table
      → Found q (new_target table t)
  unfolding new_target
  Found-later q table t h = ground (arith, find_target-append q table.head t)

  Found-now : (table : MonitorTable) (t : MonitorTarget) → Found t.logic_name (new_target table t)
  unfolding new_target
  Found-now table t =
      ground (arith, find_target-append t.logic_name table.head t, same_name_refl t.logic_name)

  slot :
      (table : MonitorTable) (v : Watching table) (t : MonitorTarget)
      → add_watch t.sys_name ≡ some t.wd
      → (wd : ℕ)
      → get_or (new_target table t).targets wd none
        ≡ (if t.wd == wd then some t else get_or table.targets wd none)
  unfolding new_target
  slot table v t answer wd =
      get_or-set table.targets t.wd wd (some t) none
        (rw (v.roomy) (add_watch_lt t.sys_name t.wd answer))

  new_target-Grown :
      (table : MonitorTable) (v : Watching table) (t : MonitorTarget)
      → add_watch t.sys_name ≡ some t.wd
      → Names t.logic_name t.sys_name
      → Grown table (new_target table t)
  unfolding new_target
  new_target-Grown table v t answer named = record {
    valid = record {
      roomy = length-set table.targets t.wd (some t) ∙ v.roomy;
      held = λ wd u h. elim (Bool-cases (t.wd == wd)) [
        | inl e ↦
            let same : t ≡ u = some_inj (rw (slot table v t answer wd, e) at h) in
            let at_wd : t.wd ≡ wd = ground arith in
            subst
              (λ x.
                (add_watch x.sys_name ≡ some wd)
                × Names x.logic_name x.sys_name
                × Found x.logic_name (new_target table t))
              same
              (subst (λ w. add_watch t.sys_name ≡ some w) at_wd answer, named, Found-now table t)
        | inr e ↦
            let (old, names, there) = v.held wd u (rw (slot table v t answer wd, e) at h) in
            (old, names, Found-later u.logic_name table t there)
      ];
      coherent = λ q u h. elim (Option-cases (find_target q table.head)) [
        | inl e ↦ subst (λ x. Names x.logic_name x.sys_name) (last_found q table.head t u e h) named
        | inr (old, e) ↦ v.coherent q u (e ∙ rw (find_target-append q table.head t, e) at h)
      ];
    };
    stays = λ q h. Found-later q table t h;
  }

  pub watch_target_add-Grown :
      (table : MonitorTable) (v : Watching table) (l s : List ℕ)
      → Names l s
      → Grown table (watch_target_add add_watch table s l).0
        × ((wd : ℕ) → add_watch s ≡ some wd → Found l (watch_target_add add_watch table s l).0)
  unfolding watch_target_add watch_target_as
  watch_target_add-Grown table v l s named = elim (Option-cases (add_watch s)) [
    | inl e ↦ rw e (Grown-refl table v, λ wd h. absurd (ground arith))
    | inr (wd, e) ↦ rw e (elim (Option-cases (get_or table.targets wd none)) [
      | inl free ↦
          rw (watch_target_as, free)
            (
              new_target-Grown table v (record { wd = wd; sys_name = s; logic_name = l }) e named,
              λ x h. Found-now table (record { wd = wd; sys_name = s; logic_name = l }),
            )
      | inr (old, taken) ↦
          let (answer, names, there) = v.held wd old taken in
          let same : s ≡ old.sys_name = add_watch_inj s old.sys_name wd e answer in
          rw (watch_target_as, taken)
            (
              Grown-refl table v,
              λ x h.
                  subst (λ y. Found y table)
                    (Names_inj old.logic_name l s (subst (Names old.logic_name) (sym same) names)
                      named)
                    there,
            )
    ])
  ]

  -- What walking a directory leaves: the directories in it that `inotify_add_watch` took are found.
  pub record Walked (table table' : MonitorTable) (l s : List ℕ) (listing : Listing) : Type 0 where
    pub grown : Grown table table'
    pub finds :
        (r : List ℕ) (time : Option ℕ) (wd : ℕ)
        → resolve listing r ≡ some (directory, time)
        → add_watch (path s r) ≡ some wd
        → Found (path l r) table'

  at_name :
      (d r l s : List ℕ) (table : MonitorTable) (wd : ℕ)
      → (add_watch (path s d) ≡ some wd → Found (path l d) table)
      → same_name d r ≡ true
      → add_watch (path s r) ≡ some wd
      → Found (path l r) table
  at_name d r l s table wd h same =
      subst (λ x. add_watch (path s x) ≡ some wd → Found (path l x) table) (same_name→eq d r same) h

  at_path :
      (d r x l s : List ℕ) (table : MonitorTable) (wd : ℕ)
      → below d r ≡ some x
      → (add_watch (path (path s d) x) ≡ some wd → Found (path (path l d) x) table)
      → add_watch (path s r) ≡ some wd
      → Found (path l r) table
  at_path d r x l s table wd b h a =
      let e = below-eq d r x b in
      let sys : path s r ≡ path (path s d) x = ap (path s) e ∙ sym (path-path s d x) in
      let logic : path (path l d) x ≡ path l r = path-path l d x ∙ ap (path l) (sym e) in
      subst (λ y. Found y table) logic (h (subst (λ y. add_watch y ≡ some wd) sys a))

  pub watch_entries-Walked :
      (table : MonitorTable) (v : Watching table) (l s : List ℕ) (listing : Listing)
      → Names l s
      → Walked table (watch_entries add_watch table s l listing).0 l s listing
  unfolding watch_entries resolve
  watch_entries-Walked table v l s done named = record {
    grown = Grown-refl table v;
    finds = λ r time wd e a. absurd (cc);
  }
  watch_entries-Walked table v l s (file d t rest) named =
      let w = watch_entries-Walked table v l s rest named in
      record { grown = w.grown; finds = λ r time wd e a. w.finds r time wd (ground arith) a }
  watch_entries-Walked table v l s (closed_dir d t rest) named =
      let added = (watch_target_add add_watch table (path s d) (path l d)).0 in
      let (g, there) =
        watch_target_add-Grown table v (path l d) (path s d) (Names-path l s d named) in
      elim (Bool-cases (is_dot d)) [
        | inl dot ↦
            let w = watch_entries-Walked table v l s rest named in
            rw dot (record {
              grown = w.grown;
              finds = λ r time wd h a. w.finds r time wd (rw dot at h) a;
            })
        | inr e ↦
            let w = watch_entries-Walked added g.valid l s rest named in
            rw e (record {
              grown = Grown-trans table added _ g w.grown;
              finds = λ r time wd h a. elim (Bool-cases (same_name d r)) [
                | inl same ↦ w.grown.stays (path l r) (at_name d r l s added wd (there wd) same a)
                | inr other ↦ w.finds r time wd (rw (e, other) at h) a
              ];
            })
      ]
  watch_entries-Walked table v l s (dir d t sub rest) named =
      let added = (watch_target_add add_watch table (path s d) (path l d)).0 in
      let inner = (watch_entries add_watch added (path s d) (path l d) sub).0 in
      let (g, there) =
        watch_target_add-Grown table v (path l d) (path s d) (Names-path l s d named) in
      elim (Bool-cases (is_dot d)) [
        | inl dot ↦
            let w = watch_entries-Walked table v l s rest named in
            rw dot (record {
              grown = w.grown;
              finds = λ r time wd h a. w.finds r time wd (rw dot at h) a;
            })
        | inr e ↦
            let w₁ =
              watch_entries-Walked added g.valid (path l d) (path s d) sub
                (Names-path l s d named) in
            let w₂ = watch_entries-Walked inner w₁.grown.valid l s rest named in
            rw e (record {
              grown = Grown-trans table added _ g (Grown-trans added inner _ w₁.grown w₂.grown);
              finds = λ r time wd h a. elim (Bool-cases (same_name d r)) [
                | inl same ↦
                    w₂.grown.stays (path l r)
                      (w₁.grown.stays (path l r) (at_name d r l s added wd (there wd) same a))
                | inr other ↦ elim (Option-cases (below d r)) [
                  | inl b ↦ w₂.finds r time wd (rw (e, other, b) at h) a
                  | inr (x, b) ↦
                      w₂.grown.stays (path l r) (
                        at_path d r x l s inner wd b (w₁.finds x time wd (rw (e, other, b) at h)) a)
                ]
              ];
            })
      ]
