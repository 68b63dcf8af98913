-- ===== src/FileTable/Departure.antt =====
-- `file_table_delete_owner` of file_table.c: a peer leaves.
use tele_sync.Prelude.{
  ℕ, ◌≤◌, ◌<◌, ◌≡◌, refl, List, [], ◌∷◌, Option, none, some, true, false, arith, length, concat,
  get_or, ap, ◌∙◌,
}
use tele_sync.Hash.{search_bucket}
use tele_sync.FileTable.{FileEntry, FileTable, find_in_chain, chain_of, file_table_search}
use tele_sync.FileTable.Sweep.{
  remove_owner, list_empty, delete_owner_in_chain, file_table_delete_owner,
}
use tele_sync.FileTable.Owners.{
  IsDistinct, has_owner, owner_count-remove_owner, has_owner-remove_owner,
}
use tele_sync.FileTable.Chain.{
  without_owner, name_count-delete_owner_in_chain, find-delete_owner_in_chain,
}
use tele_sync.FileTable.Valid.{IsValid, home, name_count_home}
use tele_sync.FileTable.Walk.{
  length-concat-map-le, length-concat-map-lt, length-map-buckets, get_or-map-buckets,
}

length-delete_owner_in_chain :
    (ip : ℕ) (c : List FileEntry) → length (delete_owner_in_chain ip c) ≤ length c
unfolding delete_owner_in_chain
length-delete_owner_in_chain ip [] = omega arith
length-delete_owner_in_chain ip (fe ∷ c) = ground (arith, length-delete_owner_in_chain ip c)

-- A chain with an entry that only the departing peer owns gets shorter.
length-delete_owner_in_chain-lt :
    (ip : ℕ) (q : List ℕ) (c : List FileEntry) (fe : FileEntry)
    → find_in_chain q c ≡ some fe
    → list_empty (remove_owner ip fe.owners) ≡ true
    → length (delete_owner_in_chain ip c) < length c
unfolding delete_owner_in_chain find_in_chain
length-delete_owner_in_chain-lt ip q [] fe found gone = cc
length-delete_owner_in_chain-lt ip q (x ∷ c) fe found gone =
    ground (arith, length-delete_owner_in_chain-lt ip q c fe, length-delete_owner_in_chain ip c)

without_owner-IsDistinct :
    (ip : ℕ) (o : Option FileEntry) (fe : FileEntry)
    → ((fe' : FileEntry) → o ≡ some fe' → IsDistinct fe'.owners)
    → without_owner ip o ≡ some fe
    → IsDistinct fe.owners
unfolding without_owner
without_owner-IsDistinct ip none fe d e q = cc
without_owner-IsDistinct ip (some old) fe d e q =
    ground (arith, d old refl q, owner_count-remove_owner ip q old.owners)

without_owner-gone :
    (ip : ℕ) (o : Option FileEntry) (fe : FileEntry)
    → without_owner ip o ≡ some fe
    → (has_owner ip fe.owners ≡ false) × (list_empty fe.owners ≡ false)
unfolding without_owner
without_owner-gone ip none fe e = cc
without_owner-gone ip (some old) fe e = ground (arith, has_owner-remove_owner ip ip old.owners)

module _ {t : FileTable} (v : IsValid t) (ip : ℕ) where
  home-delete_owner : (q : List ℕ) → home (file_table_delete_owner t ip) q ≡ home t q
  unfolding file_table_delete_owner
  home-delete_owner q =
      ap (search_bucket q) (length-map-buckets (delete_owner_in_chain ip) t.buckets)

  chain-delete_owner :
      (i : ℕ)
      → get_or (file_table_delete_owner t ip).buckets i []
        ≡ delete_owner_in_chain ip (get_or t.buckets i [])
  unfolding file_table_delete_owner delete_owner_in_chain
  chain-delete_owner i = get_or-map-buckets (delete_owner_in_chain ip) refl t.buckets i

  -- Every entry loses the owner `ip`, and an entry with no other owner goes.
  pub search-delete_owner :
      (q : List ℕ)
      → file_table_search (file_table_delete_owner t ip) q
        ≡ without_owner ip (file_table_search t q)
  unfolding file_table_search chain_of
  search-delete_owner q =
      rw (home-delete_owner q, chain-delete_owner (home t q))
        (find-delete_owner_in_chain ip q (chain_of t q) (name_count_home v q))

  delete_owner-IsValid : IsValid (file_table_delete_owner t ip)
  delete_owner-IsValid = record {
    width = v.width;
    narrow = v.narrow;
    sized =
        unfold file_table_delete_owner in
        (length-map-buckets (delete_owner_in_chain ip) t.buckets ∙ v.sized);
    placed = λ q i.
        rw (home-delete_owner q, chain-delete_owner i)
          (ground
            (arith, v.placed q i, name_count-delete_owner_in_chain ip q (get_or t.buckets i [])));
    counted =
        unfold file_table_delete_owner in
        omega (
          arith,
          v.counted,
          length-concat-map-le (delete_owner_in_chain ip) (length-delete_owner_in_chain ip)
              t.buckets,
        );
    distinct = λ q fe e.
        without_owner-IsDistinct ip (file_table_search t q) fe (v.distinct q)
          (rw (search-delete_owner q) at e);
  }

  pub file_table_delete_owner_lem :
      IsValid (file_table_delete_owner t ip)
      × ((q : List ℕ)
          → file_table_search (file_table_delete_owner t ip) q
            ≡ without_owner ip (file_table_search t q))
      × ((q : List ℕ) (fe : FileEntry)
          → file_table_search (file_table_delete_owner t ip) q ≡ some fe
          → (has_owner ip fe.owners ≡ false) × (list_empty fe.owners ≡ false))
  file_table_delete_owner_lem = (
    delete_owner-IsValid,
    search-delete_owner,
    λ q fe e. without_owner-gone ip (file_table_search t q) fe (rw (search-delete_owner q) at e),
  )

  -- The counter `n` is not adjusted: once an entry has gone with its only owner, `n` is greater than
  -- the number of entries.
  pub delete_owner-n_drifts :
      (q : List ℕ) (fe : FileEntry)
      → file_table_search t q ≡ some fe
      → list_empty (remove_owner ip fe.owners) ≡ true
      → length (concat (file_table_delete_owner t ip).buckets) < (file_table_delete_owner t ip).n
  unfolding file_table_delete_owner file_table_search chain_of
  delete_owner-n_drifts q fe found gone = omega (
    arith,
    v.counted,
    length-concat-map-lt (delete_owner_in_chain ip) (length-delete_owner_in_chain ip) t.buckets
        (home t q) (length-delete_owner_in_chain-lt ip q (chain_of t q) fe found gone),
  )
