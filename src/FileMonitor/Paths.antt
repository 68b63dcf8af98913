-- ===== src/FileMonitor/Paths.antt =====
-- The entries that the walk of client/file_monitor.c meets, and why their names differ.
use tele_sync.Prelude.{
  ℕ, ◌+◌, ◌≤◌, ◌≡◌, refl, ap, List, [], ◌∷◌, ◌++◌, Option, none, some, Bool, true, arith, ◌==◌,
  ◌&&◌, not, if◌then◌else◌, same_name, same_name_refl, same_name→eq,
}
use tele_sync.TransTable.{FileType, regular, directory}
use tele_sync.FileTable.{FileEntry}
use tele_sync.FileTable.Chain.{name_count}
use tele_sync.FileMonitor.{Listing, done, file, dir, closed_dir, is_dot, path, scanned}

-- The entry that a name of the directory makes, if any.
unfoldable pub one_entry : ℕ → List ℕ → FileType → List ℕ → Option ℕ → List FileEntry
one_entry my_ip logic_name type d_name time =
    if is_dot d_name then [] else scanned my_ip type (path logic_name d_name) time ∷ []

-- All entries below a directory, in the order of the walk.
unfoldable pub entries : ℕ → List ℕ → Listing → List FileEntry
entries my_ip logic_name done = []
entries my_ip logic_name (file d_name time rest) =
    one_entry my_ip logic_name regular d_name time ++ entries my_ip logic_name rest
entries my_ip logic_name (dir d_name time sub rest) =
    let below = entries my_ip (path logic_name d_name) sub in
    one_entry my_ip logic_name directory d_name time
    ++ ((if is_dot d_name then [] else below) ++ entries my_ip logic_name rest)
entries my_ip logic_name (closed_dir d_name time rest) =
    one_entry my_ip logic_name directory d_name time ++ entries my_ip logic_name rest

unfoldable pub no_slash : List ℕ → Bool
no_slash [] = true
no_slash (c ∷ cs) = not (c == b'/') && no_slash cs

-- How often a directory lists a name.
unfoldable pub listed : List ℕ → Listing → ℕ
listed q done = 0
listed q (file d_name time rest) = (if same_name d_name q then 1 else 0) + listed q rest
listed q (dir d_name time sub rest) = (if same_name d_name q then 1 else 0) + listed q rest
listed q (closed_dir d_name time rest) = (if same_name d_name q then 1 else 0) + listed q rest

-- A directory lists a name once, and no name has a slash.
unfoldable pub IsListing : Listing → Type 0
IsListing done = Unit {0}
IsListing (file d_name time rest) =
    (no_slash d_name ≡ true) × (listed d_name rest ≡ 0) × IsListing rest
IsListing (dir d_name time sub rest) =
    (no_slash d_name ≡ true) × (listed d_name rest ≡ 0) × IsListing sub × IsListing rest
IsListing (closed_dir d_name time rest) =
    (no_slash d_name ≡ true) × (listed d_name rest ≡ 0) × IsListing rest

-- What stands behind `dir` and a slash in a name.
unfoldable pub below : List ℕ → List ℕ → Option (List ℕ)
below [] [] = none
below [] (c ∷ q) = if c == b'/' then some q else none
below (x ∷ d) [] = none
below (x ∷ d) (c ∷ q) = let rest = below d q in if x == c then rest else none

-- The name up to the first slash.
unfoldable pub head_name : List ℕ → List ℕ
head_name [] = []
head_name (c ∷ q) = let rest = head_name q in if c == b'/' then [] else c ∷ rest

pub below-path : (d r : List ℕ) → below d (path d r) ≡ some r
unfolding below path
below-path [] r = refl
below-path (x ∷ d) r = ground (arith, below-path d r)

pub below-eq : (d q r : List ℕ) → below d q ≡ some r → q ≡ path d r
unfolding below path
below-eq [] [] r h = absurd (cc)
below-eq [] (c ∷ q) r h = ground arith
below-eq (x ∷ d) [] r h = absurd (cc)
below-eq (x ∷ d) (c ∷ q) r h = ground (arith, below-eq d q r)

pub head_name-path : (d r : List ℕ) → no_slash d ≡ true → head_name (path d r) ≡ d
unfolding head_name path no_slash
head_name-path [] r h = refl
head_name-path (x ∷ d) r h = ground (arith, head_name-path d r)

pub head_name-no_slash : (d : List ℕ) → no_slash d ≡ true → head_name d ≡ d
unfolding head_name no_slash
head_name-no_slash [] h = refl
head_name-no_slash (x ∷ d) h = ground (arith, head_name-no_slash d)

pub path-path : (a d r : List ℕ) → path (path a d) r ≡ path a (path d r)
unfolding path
path-path [] d r = refl
path-path (x ∷ a) d r = ap (x ∷◌) (path-path a d r)

pub below_self : (d : List ℕ) → below d d ≡ none
unfolding below
below_self [] = refl
below_self (x ∷ d) = ground (arith, below_self d)

-- Two levels of directories.
pub below-below : (a d q : List ℕ) → below (path a d) (path a q) ≡ below d q
unfolding below path
below-below [] d q = ground (arith, same_name_refl [])
below-below (x ∷ a) d q = ground (arith, below-below a d q)

pub same_name-path : (a d r : List ℕ) → same_name (path a d) (path a r) ≡ same_name d r
unfolding path same_name
same_name-path [] d r = ground arith
same_name-path (x ∷ a) d r = ground (arith, same_name-path a d r)

pub listed_le_one : (q : List ℕ) (l : Listing) → IsListing l → listed q l ≤ 1
unfolding listed IsListing
listed_le_one q done v = omega arith
listed_le_one q (file d_name time rest) (_, once, v) =
    ground (arith, same_name→eq d_name q, listed_le_one q rest v)
listed_le_one q (dir d_name time sub rest) (_, once, _, v) =
    ground (arith, same_name→eq d_name q, listed_le_one q rest v)
listed_le_one q (closed_dir d_name time rest) (_, once, v) =
    ground (arith, same_name→eq d_name q, listed_le_one q rest v)

-- How often a directory lists the first component of what stands behind it in a name.
unfoldable pub listed_below : Option (List ℕ) → Listing → ℕ
listed_below none l = 0
listed_below (some r) l = listed (head_name r) l

pub one_entry-count :
    (ip : ℕ) (a q d_name : List ℕ) (type : FileType) (time : Option ℕ)
    → name_count q (one_entry ip a type d_name time)
      ≤ (if same_name (path a d_name) q then 1 else 0)
unfolding one_entry name_count scanned
one_entry-count ip a q d_name type time = ground arith
