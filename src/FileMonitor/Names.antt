-- ===== src/FileMonitor/Names.antt =====
-- How often a name occurs among the entries that the walk of client/file_monitor.c makes.
use tele_sync.Prelude.{
  ℕ, ◌+◌, ◌≤◌, ◌≡◌, refl, sym, subst, ◌∙◌, List, [], ◌++◌, Option, none, some, Bool, true, false,
  arith, if◌then◌else◌, same_name, same_name→eq, same_name_refl, Option-cases, Bool-cases, inl, inr,
}
use tele_sync.FileTable.{FileEntry}
use tele_sync.FileTable.Chain.{name_count, name_count-append}
use tele_sync.TransTable.{regular, directory}
use tele_sync.FileMonitor.{Listing, done, file, dir, closed_dir, is_dot, path}
use tele_sync.FileMonitor.Paths.{
  one_entry, entries, no_slash, listed, IsListing, below, head_name, below-path, below-eq,
  head_name-path, head_name-no_slash, path-path, below_self, listed_le_one, listed_below,
  one_entry-count,
}

name_count_nil : (q : List ℕ) → name_count q [] ≡ 0
unfolding name_count
name_count_nil q = refl

name_count_unless :
    (q : List ℕ) (b : Bool) (c : List FileEntry)
    → name_count q (if b then [] else c) ≤ name_count q c
unfolding name_count
name_count_unless q true c = omega arith
name_count_unless q false c = omega arith

-- Is there something behind the directory in the name?
abbrev behind : Option (List ℕ) → ℕ
behind none = 0
behind (some r) = 1

-- Is the name what stands first behind the directory?
abbrev first_behind : List ℕ → Option (List ℕ) → ℕ
first_behind d none = 0
first_behind d (some r) = if same_name d (head_name r) then 1 else 0

here_le :
    (a q d : List ℕ)
    → no_slash d ≡ true
    → (if same_name (path a d) q then 1 else 0) + behind (below (path a d) q)
      ≤ first_behind d (below a q)
here_le a q d v = elim (Option-cases (below (path a d) q)) [
  | inl e ↦ elim (Bool-cases (same_name (path a d) q)) [
    | inl same ↦
        let found : below a q ≡ some d =
          subst (λ x. below a x ≡ some d) (same_name→eq (path a d) q same) (below-path a d) in
        rw (e, same, found, head_name-no_slash d v, same_name_refl d) (omega arith)
    | inr other ↦ rw (e, other) (omega arith)
  ]
  | inr (r, e) ↦
      let q_eq : q ≡ path a (path d r) = below-eq (path a d) q r e ∙ path-path a d r in
      let found : below a q ≡ some (path d r) =
        subst (λ x. below a x ≡ some (path d r)) (sym q_eq) (below-path a (path d r)) in
      let other : same_name (path a d) q ≡ false =
        ground (arith, same_name→eq (path a d) q, below_self (path a d)) in
      rw (e, other, found, head_name-path d r v, same_name_refl d) (omega arith)
]

listed_below-behind :
    (o : Option (List ℕ)) (l : Listing) → IsListing l → listed_below o l ≤ behind o
unfolding listed_below
listed_below-behind none l v = omega arith
listed_below-behind (some r) l v = listed_le_one (head_name r) l v

listed_below-file :
    (o : Option (List ℕ)) (d : List ℕ) (time : Option ℕ) (rest : Listing)
    → listed_below o (file d time rest) ≡ first_behind d o + listed_below o rest
unfolding listed_below listed
listed_below-file none d time rest = refl
listed_below-file (some r) d time rest = refl

listed_below-closed_dir :
    (o : Option (List ℕ)) (d : List ℕ) (time : Option ℕ) (rest : Listing)
    → listed_below o (closed_dir d time rest) ≡ first_behind d o + listed_below o rest
unfolding listed_below listed
listed_below-closed_dir none d time rest = refl
listed_below-closed_dir (some r) d time rest = refl

listed_below-dir :
    (o : Option (List ℕ)) (d : List ℕ) (time : Option ℕ) (sub rest : Listing)
    → listed_below o (dir d time sub rest) ≡ first_behind d o + listed_below o rest
unfolding listed_below listed
listed_below-dir none d time sub rest = refl
listed_below-dir (some r) d time sub rest = refl

-- A name has as many entries at most as the directory lists its first component.
pub count_le :
    (ip : ℕ) (a q : List ℕ) (l : Listing)
    → IsListing l
    → name_count q (entries ip a l) ≤ listed_below (below a q) l
unfolding entries IsListing
count_le ip a q done v = omega (arith, name_count_nil q)
count_le ip a q (file d time rest) (v, once, w) = omega (
  arith,
  name_count-append q (one_entry ip a regular d time) (entries ip a rest),
  one_entry-count ip a q d regular time,
  here_le a q d v,
  listed_below-file (below a q) d time rest,
  count_le ip a q rest w,
)
count_le ip a q (closed_dir d time rest) (v, once, w) = omega (
  arith,
  name_count-append q (one_entry ip a directory d time) (entries ip a rest),
  one_entry-count ip a q d directory time,
  here_le a q d v,
  listed_below-closed_dir (below a q) d time rest,
  count_le ip a q rest w,
)
count_le ip a q (dir d time sub rest) (v, once, u, w) =
    let subs = if is_dot d then [] else entries ip (path a d) sub in
    omega (
      arith,
      name_count-append q (one_entry ip a directory d time) (subs ++ entries ip a rest),
      name_count-append q subs (entries ip a rest),
      one_entry-count ip a q d directory time,
      here_le a q d v,
      name_count_unless q (is_dot d) (entries ip (path a d) sub),
      count_le ip (path a d) q sub u,
      listed_below-behind (below (path a d) q) sub u,
      listed_below-dir (below a q) d time sub rest,
      count_le ip a q rest w,
    )

-- No name has two entries.
pub count_le_one :
    (ip : ℕ) (a q : List ℕ) (l : Listing) → IsListing l → name_count q (entries ip a l) ≤ 1
count_le_one ip a q l v = ground (arith, count_le ip a q l v, listed_below-behind (below a q) l v)
