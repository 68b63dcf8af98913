-- ===== src/FileTable/Walk.antt =====
-- The walk of file_table.c over all buckets, against the search for a name.
use tele_sync.Prelude.{
  ℕ, zero, suc, ◌≤◌, ◌<◌, ◌≡◌, refl, sym, ◌∙◌, List, [], ◌∷◌, Option, none, some, false, arith,
  ◌==◌, length, concat, get_or, map, ap, length-append,
}
use tele_sync.FileTable.{FileEntry, FileTable, find_in_chain, chain_of, file_table_search}
use tele_sync.FileTable.Chain.{
  name_count, name_count-append, name_count_absent, find_in_chain_absent, find_in_chain-append,
}
use tele_sync.FileTable.Valid.{IsValid, home, name_count_home}

-- Is the name there, as a number?
abbrev pub present : Option FileEntry → ℕ
present none = 0
present (some fe) = 1

pub name_count-present :
    (q : List ℕ) (c : List FileEntry)
    → name_count q c ≤ 1
    → name_count q c ≡ present (find_in_chain q c)
unfolding name_count find_in_chain
name_count-present q [] h = refl
name_count-present q (x ∷ c) h =
    ground (arith, name_count-present q c, name_count_absent q c, find_in_chain_absent q c)

absent-concat :
    (q : List ℕ) (bs : List (List FileEntry))
    → ((i : ℕ) → name_count q (get_or bs i []) ≡ 0)
    → name_count q (concat bs) ≡ 0
unfolding concat name_count
absent-concat q [] h = refl
absent-concat q (b ∷ bs) h =
    omega (arith, name_count-append q b (concat bs), h 0, absent-concat q bs (λ i. h (suc i)))

only-concat :
    (q : List ℕ) (bs : List (List FileEntry)) (j : ℕ)
    → ((i : ℕ) → (j == i) ≡ false → name_count q (get_or bs i []) ≡ 0)
    → (find_in_chain q (concat bs) ≡ find_in_chain q (get_or bs j []))
      × (name_count q (concat bs) ≡ name_count q (get_or bs j []))
unfolding concat
only-concat q [] j h = (refl, refl)
only-concat q (b ∷ bs) zero h =
    let rest = absent-concat q bs (λ i. h (suc i) (ground arith)) in
    (
      ground (arith, find_in_chain-append q b (concat bs), find_in_chain_absent q (concat bs)),
      omega (arith, name_count-append q b (concat bs)),
    )
only-concat q (b ∷ bs) (suc j) h =
    let rest = only-concat q bs j (λ i n. h (suc i) (ground arith)) in
    let here : name_count q b ≡ 0 = h 0 (ground arith) in
    (
      ground (arith, rest.0, find_in_chain-append q b (concat bs), find_in_chain_absent q b),
      omega (arith, rest.1, name_count-append q b (concat bs)),
    )

module _ {t : FileTable} (v : IsValid t) (q : List ℕ) where
  -- A search in the walk finds what the hash search finds, and the name occurs at most once.
  pub concat-search :
      (find_in_chain q (concat t.buckets) ≡ file_table_search t q)
      × (name_count q (concat t.buckets) ≡ present (file_table_search t q))
  unfolding file_table_search chain_of
  concat-search =
      let only = only-concat q t.buckets (home t q) (λ i n. ground (arith, v.placed q i)) in
      (only.0, only.1 ∙ name_count-present q (chain_of t q) (name_count_home v q))

-- Walking through buckets that each shrink.
module _ (f : List FileEntry → List FileEntry)
    (shrinks : (c : List FileEntry) → length (f c) ≤ length c) where
  pub length-concat-map-le :
      (bs : List (List FileEntry)) → length (concat (map f bs)) ≤ length (concat bs)
  unfolding concat
  length-concat-map-le [] = omega arith
  length-concat-map-le (b ∷ bs) = omega (
    arith,
    length-append b (concat bs),
    length-append (f b) (concat (map f bs)),
    shrinks b,
    length-concat-map-le bs,
  )

  pub length-concat-map-lt :
      (bs : List (List FileEntry)) (i : ℕ)
      → length (f (get_or bs i [])) < length (get_or bs i [])
      → length (concat (map f bs)) < length (concat bs)
  unfolding concat
  length-concat-map-lt [] i h = absurd (omega arith)
  length-concat-map-lt (b ∷ bs) zero h = omega (
    arith,
    length-append b (concat bs),
    length-append (f b) (concat (map f bs)),
    length-concat-map-le bs,
  )
  length-concat-map-lt (b ∷ bs) (suc i) h = omega (
    arith,
    length-append b (concat bs),
    length-append (f b) (concat (map f bs)),
    shrinks b,
    length-concat-map-lt bs i h,
  )

pub length-map-buckets :
    (f : List FileEntry → List FileEntry) (bs : List (List FileEntry))
    → length (map f bs) ≡ length bs
length-map-buckets f [] = refl
length-map-buckets f (b ∷ bs) = ap suc (length-map-buckets f bs)

pub get_or-map-buckets :
    (f : List FileEntry → List FileEntry)
    → f [] ≡ []
    → (bs : List (List FileEntry)) (i : ℕ) → get_or (map f bs) i [] ≡ f (get_or bs i [])
get_or-map-buckets f e [] i = sym e
get_or-map-buckets f e (b ∷ bs) zero = refl
get_or-map-buckets f e (b ∷ bs) (suc i) = get_or-map-buckets f e bs i
