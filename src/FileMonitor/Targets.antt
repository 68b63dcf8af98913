-- ===== src/FileMonitor/Targets.antt =====
-- `get_file_table` of client/file_monitor.c over all target directories. `decimal` is what `sprintf` makes
-- of a number with "%d".
use tele_sync.Prelude.{
  ℕ, zero, suc, ◌+◌, ◌≤◌, ◌≡◌, refl, sym, ap, subst, ◌∙◌, List, [], ◌∷◌, Option, none, some, true,
  false, arith, get_or, ◌==◌, Option-cases, inl, inr,
}
use tele_sync.TransTable.{FileType}
use tele_sync.FileTable.{FileEntry, FileTable, Status, success, file_table_search}
use tele_sync.FileTable.Valid.{IsValid}
use tele_sync.FileMonitor.{Listing, path, get_file_table_r, get_file_table}
use tele_sync.FileMonitor.Paths.{
  IsListing, no_slash, below, head_name, below-path, below-eq, head_name-path,
}
use tele_sync.FileMonitor.Resolve.{first_of, first_of-none, resolve, found_as, find-entries}
use tele_sync.FileMonitor.Scan.{get_file_table_r-Added, find-entries_elsewhere}

-- All target directories could be opened.
unfoldable pub AllOpened : List (Option Listing) → Type 0
AllOpened [] = Unit {0}
AllOpened (none ∷ targets) = false ≡ true
AllOpened (some l ∷ targets) = IsListing l × AllOpened targets

first_of-some : (o : Option FileEntry) → first_of none o ≡ o
unfolding first_of
first_of-some o = refl

-- What a path leads to in a target.
unfoldable pub resolve_in : Option Listing → List ℕ → Option (FileType × Option ℕ)
resolve_in none r = none
resolve_in (some l) r = resolve l r

module _ (decimal : ℕ → List ℕ) (decimal_inj : (i j : ℕ) → decimal i ≡ decimal j → i ≡ j)
    (decimal-no_slash : (i : ℕ) → no_slash (decimal i) ≡ true) (my_ip : ℕ) where
  -- No name is below two logic names.
  apart :
      (i j : ℕ) (q r : List ℕ)
      → i == j ≡ false
      → below (decimal j) q ≡ some r
      → below (decimal i) q ≡ none
  apart i j q r lt e = elim (Option-cases (below (decimal i) q)) [
    | inl e' ↦ e'
    | inr (r', e') ↦
        let same : path (decimal i) r' ≡ path (decimal j) r =
          sym (below-eq (decimal i) q r' e') ∙ below-eq (decimal j) q r e in
        let heads : decimal i ≡ decimal j =
          sym (head_name-path (decimal i) r' (decimal-no_slash i))
          ∙ ap head_name same
          ∙ head_name-path (decimal j) r (decimal-no_slash j) in
        absurd (ground (arith, decimal_inj i j heads))
  ]

  -- The table has what is in the target under the number `m`.
  abbrev Reads : FileTable → ℕ → Option Listing → Type 0
  Reads t m target =
      (r : List ℕ)
      → file_table_search t (path (decimal m) r)
        ≡ found_as my_ip (path (decimal m) r) (resolve_in target r)

  Reads-cons :
      (t : FileTable) (i : ℕ) (target : Option Listing) (targets : List (Option Listing))
      → Reads t (i + 1) target
      → ((k : ℕ) → Reads t (k + (i + 1) + 1) (get_or targets k none))
      → (k : ℕ) → Reads t (k + i + 1) (get_or (target ∷ targets) k none)
  Reads-cons t i target targets first rest zero =
      let e : i ≡ 0 + i = omega arith in subst (λ m. Reads t (m + 1) target) e first
  Reads-cons t i target targets first rest (suc k) =
      let e : k + (i + 1) + 1 ≡ suc k + i + 1 = omega arith in
      subst (λ m. Reads t m (get_or targets k none)) e (rest k)

  -- What the loop leaves, from the target `i` on.
  record Scanned (t : FileTable) (i : ℕ) (targets : List (Option Listing)) (t' : FileTable × Status)
      : Type 0 where
    pub status : t'.1 ≡ success
    pub valid : IsValid t'.0
    pub reads : (k : ℕ) → Reads t'.0 (k + i + 1) (get_or targets k none)
    pub keeps :
        (q : List ℕ)
        → ((j : ℕ) → i ≤ j → below (decimal (j + 1)) q ≡ none)
        → file_table_search t'.0 q ≡ file_table_search t q

  get_file_table-Scanned :
      (t : FileTable) (v : IsValid t) (i : ℕ) (targets : List (Option Listing))
      → AllOpened targets
      → ((j : ℕ) (q r : List ℕ)
          → i ≤ j
          → below (decimal (j + 1)) q ≡ some r
          → file_table_search t q ≡ none)
      → Scanned t i targets (get_file_table decimal my_ip t i targets)
  unfolding get_file_table AllOpened resolve_in found_as
  get_file_table-Scanned t v i [] o new = record {
    status = refl;
    valid = v;
    reads = λ k r.
        new (k + i) (path (decimal (k + i + 1)) r) r (omega arith)
          (below-path (decimal (k + i + 1)) r);
    keeps = λ q h. refl;
  }
  get_file_table-Scanned t v i (none ∷ targets) o new = absurd (cc)
  get_file_table-Scanned t v i (some l ∷ targets) (u, o) new =
      let a = decimal (i + 1) in
      let w = get_file_table_r-Added my_ip v a l u (λ q r e. new i q r (omega arith) e) in
      let elsewhere : (q : List ℕ)
          → below a q ≡ none
          → file_table_search (get_file_table_r my_ip t a l).0 q ≡ file_table_search t q =
        λ q e.
          w.reads q
          ∙ rw (find-entries_elsewhere my_ip a q l u e) (first_of-some (file_table_search t q)) in
      let rest =
        get_file_table-Scanned (get_file_table_r my_ip t a l).0 w.valid (i + 1) targets o
          (λ j q r le e.
            elsewhere q (apart (i + 1) (j + 1) q r (ground arith) e) ∙ new j q r (omega arith) e) in
      let t' = (get_file_table decimal my_ip (get_file_table_r my_ip t a l).0 (i + 1) targets).0 in
      let first : (r : List ℕ)
          → file_table_search t' (path a r) ≡ found_as my_ip (path a r) (resolve l r) =
        λ r.
          rest.keeps (path a r)
            (λ j le. apart (j + 1) (i + 1) (path a r) r (ground arith) (below-path a r))
          ∙ w.reads (path a r)
          ∙ rw (find-entries my_ip a r l u, new i (path a r) r (omega arith) (below-path a r))
              (first_of-none (found_as my_ip (path a r) (resolve l r))) in
      record {
        status = rest.status;
        valid = rest.valid;
        reads = Reads-cons t' i (some l) targets first rest.reads;
        keeps = λ q h. rest.keeps q (λ j le. h j (omega arith)) ∙ elsewhere q (h i (omega arith));
      }

  pub get_file_table-reads :
      (ft : FileTable) (v : IsValid ft) (targets : List (Option Listing))
      → AllOpened targets
      → ((q : List ℕ) → file_table_search ft q ≡ none)
      → ((get_file_table decimal my_ip ft 0 targets).1 ≡ success)
        × IsValid (get_file_table decimal my_ip ft 0 targets).0
        × ((k : ℕ) (r : List ℕ)
            → file_table_search
                (get_file_table decimal my_ip ft 0 targets).0
                (path (decimal (k + 1)) r)
              ≡ found_as my_ip (path (decimal (k + 1)) r) (resolve_in (get_or targets k none) r))
  get_file_table-reads ft v targets o empty =
      let at_start : (k : ℕ) → k + 0 ≡ k = λ k. omega arith in
      let s = get_file_table-Scanned ft v 0 targets o (λ j q r le e. empty q) in
      (
        s.status,
        s.valid,
        λ k r.
            subst
              (λ m.
                Reads (get_file_table decimal my_ip ft 0 targets).0 (m + 1) (get_or targets k none))
              (at_start k) (s.reads k) r,
      )
