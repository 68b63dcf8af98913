-- ===== src/FileMonitor/Resolve.antt =====
-- Following a path through a listing, against the entries that the walk of client/file_monitor.c makes.
use tele_sync.Prelude.{
  ℕ, ◌≡◌, refl, sym, ap, subst, ◌∙◌, List, [], ◌++◌, Option, none, some, true, arith, if◌then◌else◌,
  same_name, same_name→eq, Option-cases, Bool-cases, inl, inr,
}
use tele_sync.FileTable.{FileEntry, find_in_chain}
use tele_sync.FileTable.Chain.{find_in_chain_absent, find_in_chain-append}
use tele_sync.TransTable.{FileType, regular, directory}
use tele_sync.FileMonitor.{Listing, done, file, dir, closed_dir, is_dot, path, scanned}
use tele_sync.FileMonitor.Paths.{
  one_entry, entries, no_slash, listed, IsListing, below, below-path, below-eq, head_name-path,
  path-path, below-below, same_name-path, listed_below,
}
use tele_sync.FileMonitor.Names.{count_le}

-- What a path leads to below a directory: a name, or names with slashes between them.
unfoldable pub resolve : Listing → List ℕ → Option (FileType × Option ℕ)
resolve done r = none
resolve (file d time rest) r =
    let others = resolve rest r in
    if is_dot d then others else if same_name d r then some (regular, time) else others
resolve (closed_dir d time rest) r =
    let others = resolve rest r in
    if is_dot d then others else if same_name d r then some (directory, time) else others
resolve (dir d time sub rest) r =
    let others = resolve rest r in
    let inside : Option (FileType × Option ℕ) = elim (below d r) [
      | none ↦ others
      | some r' ↦ resolve sub r'
    ] in
    if is_dot d then others else if same_name d r then some (directory, time) else inside

-- The entry of what was found.
unfoldable pub found_as : ℕ → List ℕ → Option (FileType × Option ℕ) → Option FileEntry
found_as ip name none = none
found_as ip name (some (type, time)) = some (scanned ip type name time)

unfoldable pub first_of : Option FileEntry → Option FileEntry → Option FileEntry
first_of none o = o
first_of (some fe) o = some fe

pub first_of-none : (o : Option FileEntry) → first_of o none ≡ o
unfolding first_of
first_of-none none = refl
first_of-none (some fe) = refl

find_in_chain-append_first :
    (q : List ℕ) (c d : List FileEntry)
    → find_in_chain q (c ++ d) ≡ first_of (find_in_chain q c) (find_in_chain q d)
unfolding first_of
find_in_chain-append_first q c d = elim (Option-cases (find_in_chain q c)) [
  | inl e ↦ find_in_chain-append q c d ∙ rw e refl
  | inr (fe, e) ↦ find_in_chain-append q c d ∙ rw e refl
]

find-one_entry :
    (ip : ℕ) (a d r : List ℕ) (type : FileType) (time : Option ℕ)
    → find_in_chain (path a r) (one_entry ip a type d time) ≡ (
        if is_dot d
        then none
        else if same_name d r
        then some (scanned ip type (path a r) time)
        else none)
unfolding one_entry find_in_chain scanned
find-one_entry ip a d r type time = ground (arith, same_name-path a d r, same_name→eq d r)

-- Nothing below another directory.
absent_below :
    (ip : ℕ) (a d r : List ℕ) (sub : Listing)
    → IsListing sub
    → below d r ≡ none
    → find_in_chain (path a r) (entries ip (path a d) sub) ≡ none
unfolding listed_below
absent_below ip a d r sub u e =
    find_in_chain_absent (path a r) (entries ip (path a d) sub)
      (omega (arith, rw (below-below a d r ∙ e) at (count_le ip (path a d) (path a r) sub u)))

-- Nothing of a directory among the later entries.
absent_later :
    (ip : ℕ) (a d r : List ℕ) (rest : Listing)
    → IsListing rest
    → no_slash d ≡ true
    → listed d rest ≡ 0
    → find_in_chain (path a (path d r)) (entries ip a rest) ≡ none
unfolding listed_below
absent_later ip a d r rest w v once = find_in_chain_absent (path a (path d r)) (entries ip a rest) (
    omega (
      arith,
      rw (below-path a (path d r), head_name-path d r v, once) at
          (count_le ip a (path a (path d r)) rest w),
    ))

-- A file or a directory that cannot be opened, before the later entries.
leaf :
    (ip : ℕ) (a d r : List ℕ) (type : FileType) (time : Option ℕ) (later : List FileEntry)
    (others : Option (FileType × Option ℕ))
    → find_in_chain (path a r) later ≡ found_as ip (path a r) others
    → find_in_chain (path a r) (one_entry ip a type d time ++ later)
      ≡ found_as ip
          (path a r)
          (if is_dot d then others else if same_name d r then some (type, time) else others)
unfolding found_as first_of
leaf ip a d r type time later others h = ground (
  arith,
  find_in_chain-append_first (path a r) (one_entry ip a type d time) later,
  find-one_entry ip a d r type time,
)

find_nothing : (ip : ℕ) (q : List ℕ) → find_in_chain q [] ≡ found_as ip q none
unfolding find_in_chain found_as
find_nothing ip q = refl

-- What is behind a directory `d` that could be opened, and what comes after it.
inside_found :
    (ip : ℕ) (a d r : List ℕ) (sub rest : Listing) (u : IsListing sub) (w : IsListing rest)
    → no_slash d ≡ true
    → listed d rest ≡ 0
    → ((x : List ℕ)
        → find_in_chain (path (path a d) x) (entries ip (path a d) sub)
          ≡ found_as ip (path (path a d) x) (resolve sub x))
    → find_in_chain (path a r) (entries ip a rest) ≡ found_as ip (path a r) (resolve rest r)
    → find_in_chain (path a r) (entries ip (path a d) sub ++ entries ip a rest)
      ≡ found_as ip (path a r) (elim (below d r) [ none ↦ resolve rest r | some x ↦ resolve sub x ])
unfolding first_of
inside_found ip a d r sub rest u w v once h_sub h_rest =
    find_in_chain-append_first (path a r) (entries ip (path a d) sub) (entries ip a rest)
    ∙ elim (Option-cases (below d r)) [
      | inl e ↦ rw (absent_below ip a d r sub u e, h_rest, e) refl
      | inr (x, e) ↦
          let name : path (path a d) x ≡ path a r =
            path-path a d x ∙ ap (path a) (sym (below-eq d r x e)) in
          let late : find_in_chain (path a r) (entries ip a rest) ≡ none =
            subst (λ y. find_in_chain (path a y) (entries ip a rest) ≡ none)
              (sym (below-eq d r x e)) (absent_later ip a d x rest w v once) in
          rw (e, late, ← name, h_sub x)
            (first_of-none (found_as ip (path (path a d) x) (resolve sub x)))
    ]

-- The walk makes one entry for what each path leads to, and no other.
pub find-entries :
    (ip : ℕ) (a r : List ℕ) (l : Listing)
    → IsListing l
    → find_in_chain (path a r) (entries ip a l) ≡ found_as ip (path a r) (resolve l r)
unfolding entries IsListing resolve
find-entries ip a r done v = find_nothing ip (path a r)
find-entries ip a r (file d time rest) (v, once, w) =
    leaf ip a d r regular time (entries ip a rest) (resolve rest r) (find-entries ip a r rest w)
find-entries ip a r (closed_dir d time rest) (v, once, w) =
    leaf ip a d r directory time (entries ip a rest) (resolve rest r) (find-entries ip a r rest w)
find-entries ip a r (dir d time sub rest) (v, once, u, w) =
    let inside =
      inside_found ip a d r sub rest u w v once (λ x. find-entries ip (path a d) x sub u)
        (find-entries ip a r rest w) in
    elim (Bool-cases (is_dot d)) [
      | inl e ↦ rw e (
          rw e at (
            leaf ip a d r directory time (entries ip a rest) (resolve rest r)
              (find-entries ip a r rest w)))
      | inr e ↦ rw e (
          rw e at (
            leaf ip a d r directory time (entries ip (path a d) sub ++ entries ip a rest)
              (elim (below d r) [ none ↦ resolve rest r | some x ↦ resolve sub x ]) inside))
    ]
