-- ===== src/FileMonitor/Scan.antt =====
-- What the walk of client/file_monitor.c leaves in the file table.
use tele_sync.Prelude.{
  ℕ, ◌+◌, ◌≤◌, ◌≡◌, refl, sym, List, [], ◌∷◌, ◌++◌, Option, none, some, arith, if◌then◌else◌,
  same_name_refl, Bool-cases, Option-cases, inl, inr,
}
use tele_sync.TransTable.{FileType, regular, directory}
use tele_sync.FileTable.{FileEntry, FileTable, file_entry_add, file_table_search, find_in_chain}
use tele_sync.FileTable.Chain.{
  name_count, name_count-cons, find_in_chain-cons, find_in_chain_absent,
}
use tele_sync.FileTable.Owners.{IsDistinct, owner_count}
use tele_sync.FileTable.Refines.{file_entry_add-Writes}
use tele_sync.FileTable.Valid.{IsValid}
use tele_sync.FileTable.Walk.{present}
use tele_sync.FileMonitor.{
  Listing, done, file, dir, closed_dir, is_dot, path, scanned, add_scanned, get_file_table_r,
}
use tele_sync.FileMonitor.Paths.{one_entry, entries, IsListing, below, listed_below}
use tele_sync.FileMonitor.Names.{count_le, count_le_one}
use tele_sync.FileMonitor.Resolve.{first_of}

-- All entries of a list, added in turn.
unfoldable pub add_all : FileTable → List FileEntry → FileTable
add_all ft [] = ft
add_all ft (fe ∷ es) = add_all (file_entry_add ft fe) es

add_all-append :
    (ft : FileTable) (c d : List FileEntry) → add_all ft (c ++ d) ≡ add_all (add_all ft c) d
unfolding add_all
add_all-append ft [] d = refl
add_all-append ft (fe ∷ c) d = add_all-append (file_entry_add ft fe) c d

add_all-one_entry :
    (ip : ℕ) (ft : FileTable) (a d : List ℕ) (type : FileType) (time : Option ℕ)
    → add_all ft (one_entry ip a type d time) ≡ add_scanned ip ft a type d time
unfolding add_all one_entry add_scanned
add_all-one_entry ip ft a d type time = ground arith

add_all-nil : (ft : FileTable) → add_all ft [] ≡ ft
unfolding add_all
add_all-nil ft = refl

-- The walk adds the entries, one by one.
pub get_file_table_r-add_all :
    (ip : ℕ) (ft : FileTable) (a : List ℕ) (l : Listing)
    → (get_file_table_r ip ft a l).0 ≡ add_all ft (entries ip a l)
unfolding get_file_table_r entries
get_file_table_r-add_all ip ft a done = sym (add_all-nil ft)
get_file_table_r-add_all ip ft a (file d time rest) =
    rw
      (
        add_all-append ft (one_entry ip a regular d time) (entries ip a rest),
        add_all-one_entry ip ft a d regular time,
      )
      (get_file_table_r-add_all ip (add_scanned ip ft a regular d time) a rest)
get_file_table_r-add_all ip ft a (closed_dir d time rest) =
    rw
      (
        add_all-append ft (one_entry ip a directory d time) (entries ip a rest),
        add_all-one_entry ip ft a d directory time,
      )
      (get_file_table_r-add_all ip (add_scanned ip ft a directory d time) a rest)
get_file_table_r-add_all ip ft a (dir d time sub rest) =
    let ft₁ = add_scanned ip ft a directory d time in
    let ft₂ = (get_file_table_r ip ft₁ (path a d) sub).0 in
    let subs = if is_dot d then [] else entries ip (path a d) sub in
    let walked : add_all ft₁ subs ≡ (if is_dot d then ft₁ else ft₂) = elim (Bool-cases (is_dot d)) [
      | inl e ↦ rw e (add_all-nil ft₁)
      | inr e ↦ rw e (sym (get_file_table_r-add_all ip ft₁ (path a d) sub))
    ] in
    rw
      (
        add_all-append ft (one_entry ip a directory d time) (subs ++ entries ip a rest),
        add_all-one_entry ip ft a d directory time,
        add_all-append ft₁ subs (entries ip a rest),
        walked,
      )
      (get_file_table_r-add_all ip (if is_dot d then ft₁ else ft₂) a rest)

-- Entries whose owners are distinct.
unfoldable pub OwnersDistinct : List FileEntry → Type 0
OwnersDistinct [] = Unit {0}
OwnersDistinct (fe ∷ es) = IsDistinct fe.owners × OwnersDistinct es

pub record Added (t : FileTable) (es : List FileEntry) (t' : FileTable) : Type 0 where
  pub valid : IsValid t'
  pub reads :
      (q : List ℕ) → file_table_search t' q ≡ first_of (find_in_chain q es) (file_table_search t q)

first_of-nil : (q : List ℕ) (o : Option FileEntry) → o ≡ first_of (find_in_chain q []) o
unfolding first_of find_in_chain
first_of-nil q o = refl

absent_if : (m : ℕ) (o : Option FileEntry) → 1 + m + present o ≤ 1 → o ≡ none
absent_if m none h = refl
absent_if m (some fe) h = absurd (omega arith)

-- Entries with new and different names are all there afterwards, beside the old ones.
pub add_all-Added :
    {t : FileTable} (v : IsValid t) (es : List FileEntry)
    → OwnersDistinct es
    → ((q : List ℕ) → name_count q es + present (file_table_search t q) ≤ 1)
    → Added t es (add_all t es)
unfolding add_all OwnersDistinct first_of
add_all-Added {t} v [] d new = record {
  valid = v;
  reads = λ q. first_of-nil q (file_table_search t q);
}
add_all-Added {t} v (fe ∷ es) (own, d) new =
    let absent : file_table_search t fe.name ≡ none =
      absent_if (name_count fe.name es) (file_table_search t fe.name)
        (ground (arith, new fe.name, name_count-cons fe.name fe es, same_name_refl fe.name)) in
    let w = file_entry_add-Writes v fe absent own in
    let rest =
      add_all-Added {t = file_entry_add t fe} w.valid es d
        (λ q. ground (arith, w.reads q, new q, name_count-cons q fe es)) in
    record {
      valid = rest.valid;
      reads = λ q. ground (
        arith,
        rest.reads q,
        w.reads q,
        new q,
        name_count-cons q fe es,
        find_in_chain-cons q fe es,
        find_in_chain_absent q es,
      );
    }

nil-OwnersDistinct : OwnersDistinct []
unfolding OwnersDistinct
nil-OwnersDistinct = tt

OwnersDistinct-append :
    (c d : List FileEntry) → OwnersDistinct c → OwnersDistinct d → OwnersDistinct (c ++ d)
unfolding OwnersDistinct
OwnersDistinct-append [] d u v = v
OwnersDistinct-append (fe ∷ c) d (own, u) v = (own, OwnersDistinct-append c d u v)

one_entry-OwnersDistinct :
    (ip : ℕ) (a d : List ℕ) (type : FileType) (time : Option ℕ)
    → OwnersDistinct (one_entry ip a type d time)
unfolding OwnersDistinct one_entry scanned owner_count
one_entry-OwnersDistinct ip a d type time = elim (Bool-cases (is_dot d)) [
  | inl e ↦ rw e tt
  | inr e ↦ rw e (λ x. ground arith, tt)
]

entries-OwnersDistinct : (ip : ℕ) (a : List ℕ) (l : Listing) → OwnersDistinct (entries ip a l)
unfolding entries
entries-OwnersDistinct ip a done = nil-OwnersDistinct
entries-OwnersDistinct ip a (file d time rest) =
    OwnersDistinct-append (one_entry ip a regular d time) (entries ip a rest)
      (one_entry-OwnersDistinct ip a d regular time) (entries-OwnersDistinct ip a rest)
entries-OwnersDistinct ip a (closed_dir d time rest) =
    OwnersDistinct-append (one_entry ip a directory d time) (entries ip a rest)
      (one_entry-OwnersDistinct ip a d directory time) (entries-OwnersDistinct ip a rest)
entries-OwnersDistinct ip a (dir d time sub rest) =
    let below : OwnersDistinct (if is_dot d then [] else entries ip (path a d) sub) =
      elim (Bool-cases (is_dot d)) [
        | inl e ↦ rw e nil-OwnersDistinct
        | inr e ↦ rw e (entries-OwnersDistinct ip (path a d) sub)
      ] in
    let subs = if is_dot d then [] else entries ip (path a d) sub in
    OwnersDistinct-append (one_entry ip a directory d time) (subs ++ entries ip a rest)
      (one_entry-OwnersDistinct ip a d directory time)
      (OwnersDistinct-append subs (entries ip a rest) below (entries-OwnersDistinct ip a rest))

present_le_one : (o : Option FileEntry) → present o ≤ 1
present_le_one none = omega arith
present_le_one (some fe) = omega arith

-- Walking a directory leaves a valid table. A path below the logic name leads to the entry of what is
-- there, if the table had none, and all other names keep what they had.
pub get_file_table_r-Added :
    (ip : ℕ) {t : FileTable} (v : IsValid t) (a : List ℕ) (l : Listing)
    → IsListing l
    → ((q r : List ℕ) → below a q ≡ some r → file_table_search t q ≡ none)
    → Added t (entries ip a l) (get_file_table_r ip t a l).0
unfolding listed_below
get_file_table_r-Added ip {t} v a l u new = rw (get_file_table_r-add_all ip t a l) (
    add_all-Added v (entries ip a l) (entries-OwnersDistinct ip a l) (λ q.
      elim (Option-cases (below a q)) [
        | inl e ↦
            omega (arith, rw e at (count_le ip a q l u), present_le_one (file_table_search t q))
        | inr (r, e) ↦ rw (new q r e) (omega (arith, count_le_one ip a q l u))
      ]))

-- A name that is not below the logic name has no entry.
pub find-entries_elsewhere :
    (ip : ℕ) (a q : List ℕ) (l : Listing)
    → IsListing l
    → below a q ≡ none
    → find_in_chain q (entries ip a l) ≡ none
unfolding listed_below
find-entries_elsewhere ip a q l u e =
    find_in_chain_absent q (entries ip a l) (omega (arith, rw e at (count_le ip a q l u)))
