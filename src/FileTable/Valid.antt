-- ===== src/FileTable/Valid.antt =====
-- The invariant of the hash table of file_table.c: a name has at most one entry, in the bucket of its
-- hash, and an entry lists an address once. What one write to a chain does to the whole table.
use tele_sync.Prelude.{
  ℕ, zero, suc, ◌+◌, ◌^◌, ◌≤◌, ◌<◌, ◌≡◌, ap, List, [], ◌∷◌, Option, some, arith, if◌then◌else◌,
  ◌==◌, same_name, same_name→eq, length, length-append, length-set, concat, get_or, get_or-set, set,
}
use tele_sync.Hash.{search_bucket}
use tele_sync.Hash.Bounds.{hash_min-lt}
use tele_sync.FileTable.{FileEntry, FileTable, find_in_chain, chain_of, file_table_search}
use tele_sync.FileTable.Owners.{IsDistinct}
use tele_sync.FileTable.Chain.{name_count}

abbrev pub home : FileTable → List ℕ → ℕ
home t q = search_bucket q (length t.buckets)

-- `n` bounds the number of entries; `file_table_delete_owner` lets the two drift apart.
pub record IsValid (t : FileTable) : Type 0 where
  pub width : ℕ
  pub narrow : width ≤ 32
  pub sized : length t.buckets ≡ 2 ^ width
  pub placed :
      (q : List ℕ) (i : ℕ) → name_count q (get_or t.buckets i []) ≤ (if home t q == i then 1 else 0)
  pub counted : length (concat t.buckets) ≤ t.n
  pub distinct :
      (q : List ℕ) (fe : FileEntry) → file_table_search t q ≡ some fe → IsDistinct fe.owners

pub home-lt : {t : FileTable} (v : IsValid t) (q : List ℕ) → home t q < length t.buckets
unfolding search_bucket
home-lt {t} v q = rw (v.sized) (hash_min-lt _ v.width v.narrow)

pub name_count_home : {t : FileTable} (v : IsValid t) (q : List ℕ) → name_count q (chain_of t q) ≤ 1
unfolding chain_of
name_count_home {t} v q = ground (arith, v.placed q (home t q))

pub name_count_chain :
    {t : FileTable} (v : IsValid t) (k q : List ℕ) → name_count q (chain_of t k) ≤ 1
unfolding chain_of
name_count_chain {t} v k q = ground (arith, v.placed q (home t k))

pub length-concat-set :
    (bs : List (List FileEntry)) (i : ℕ) (c : List FileEntry)
    → i < length bs
    → length (concat (set bs i c)) + length (get_or bs i []) ≡ length (concat bs) + length c
unfolding concat
length-concat-set [] i c h = absurd (omega arith)
length-concat-set (b ∷ bs) zero c h =
    omega (arith, length-append c (concat bs), length-append b (concat bs))
length-concat-set (b ∷ bs) (suc i) c h = omega (
  arith,
  length-append b (concat bs),
  length-append b (concat (set bs i c)),
  length-concat-set bs i c,
)

-- A table whose chain for `k` has been replaced.
abbrev pub with_chain : FileTable → List ℕ → ℕ → List FileEntry → FileTable
with_chain t k m c = record { n = m; buckets = set t.buckets (home t k) c }

module _ {t : FileTable} (v : IsValid t) (k : List ℕ) (m : ℕ) (c : List FileEntry) where
  home-with_chain : (q : List ℕ) → home (with_chain t k m c) q ≡ home t q
  home-with_chain q = ap (search_bucket q) (length-set t.buckets (home t k) c)

  pub search-with_chain :
      (r : Option FileEntry)
      → ((q : List ℕ)
          → find_in_chain q c ≡ (if same_name k q then r else find_in_chain q (chain_of t k)))
      → (q : List ℕ)
      → file_table_search (with_chain t k m c) q
        ≡ (if same_name k q then r else file_table_search t q)
  unfolding file_table_search chain_of
  search-with_chain r h q =
      rw (home-with_chain q, get_or-set t.buckets (home t k) (home t q) c [] (home-lt v k))
        (ground (arith, h q, same_name→eq k q))

  pub with_chain-IsValid :
      (r : Option FileEntry)
      → ((q : List ℕ)
          → find_in_chain q c ≡ (if same_name k q then r else find_in_chain q (chain_of t k)))
      → ((q : List ℕ) → name_count q c ≤ (if same_name k q then 1 else name_count q (chain_of t k)))
      → length (concat t.buckets) + length c ≤ m + length (chain_of t k)
      → ((fe : FileEntry) → r ≡ some fe → IsDistinct fe.owners)
      → IsValid (with_chain t k m c)
  unfolding chain_of
  with_chain-IsValid r h few size own = record {
    width = v.width;
    narrow = v.narrow;
    sized = rw (length-set t.buckets (home t k) c) v.sized;
    placed = λ q i.
        rw (home-with_chain q, get_or-set t.buckets (home t k) i c [] (home-lt v k))
          (ground (arith, v.placed q i, few q, same_name→eq k q));
    counted = omega (arith, length-concat-set t.buckets (home t k) c (home-lt v k));
    distinct = λ q fe e. ground (arith, search-with_chain r h q, own fe, v.distinct q fe);
  }
