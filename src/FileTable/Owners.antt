-- ===== src/FileTable/Owners.antt =====
-- The owner lists of file_table.c.
use tele_sync.Prelude.{
  ℕ, ◌+◌, ◌≤◌, ◌≡◌, refl, List, [], ◌∷◌, ◌++◌, Bool, true, false, arith, ◌==◌, ◌&&◌, ◌||◌, not,
  if◌then◌else◌, length,
}
use tele_sync.TransTable.{PeerId, TransFileEntry}
use tele_sync.FileTable.{FileEntry, already_in_owners, peer_id_list_add, peer_id_list_destroy}
use tele_sync.FileTable.Sweep.{remove_owner, same_owners, has_same_owners}

-- How often an address is listed.
unfoldable pub owner_count : ℕ → List PeerId → ℕ
owner_count ip [] = 0
owner_count ip (p ∷ ps) = (if p.ip == ip then 1 else 0) + owner_count ip ps

unfoldable pub has_owner : ℕ → List PeerId → Bool
has_owner ip [] = false
has_owner ip (p ∷ ps) = p.ip == ip || has_owner ip ps

abbrev pub IsDistinct : List PeerId → Type 0
IsDistinct owners = (ip : ℕ) → owner_count ip owners ≤ 1

pub nil-IsDistinct : IsDistinct []
unfolding owner_count
nil-IsDistinct ip = omega arith

pub already_in_owners-eq-has_owner :
    (head : List PeerId) (o : PeerId) → already_in_owners head o ≡ has_owner o.ip head
unfolding already_in_owners has_owner
already_in_owners-eq-has_owner [] o = refl
already_in_owners-eq-has_owner (p ∷ ps) o = ground (arith, already_in_owners-eq-has_owner ps o)

pub owner_count_absent :
    (ip : ℕ) (ps : List PeerId) → has_owner ip ps ≡ false → owner_count ip ps ≡ 0
unfolding owner_count has_owner
owner_count_absent ip [] h = refl
owner_count_absent ip (p ∷ ps) h = ground (arith, owner_count_absent ip ps)

pub has_owner_absent : (ip : ℕ) (ps : List PeerId) → owner_count ip ps ≡ 0 → has_owner ip ps ≡ false
unfolding owner_count has_owner
has_owner_absent ip [] h = refl
has_owner_absent ip (p ∷ ps) h = ground (arith, has_owner_absent ip ps)

owner_count-append :
    (ip : ℕ) (ps qs : List PeerId)
    → owner_count ip (ps ++ qs) ≡ owner_count ip ps + owner_count ip qs
unfolding owner_count
owner_count-append ip [] qs = omega arith
owner_count-append ip (p ∷ ps) qs = ground (arith, owner_count-append ip ps qs)

has_owner-append :
    (ip : ℕ) (ps qs : List PeerId) → has_owner ip (ps ++ qs) ≡ has_owner ip ps || has_owner ip qs
unfolding has_owner
has_owner-append ip [] qs = ground arith
has_owner-append ip (p ∷ ps) qs = ground (arith, has_owner-append ip ps qs)

-- One round of the loop, in the words of the specification.
insert_owner : List PeerId → PeerId → List PeerId
insert_owner head o = if has_owner o.ip head then head else head ++ o ∷ []

peer_id_list_add-cons :
    (head : List PeerId) (o : PeerId) (os : List PeerId)
    → peer_id_list_add head (o ∷ os) ≡ peer_id_list_add (insert_owner head o) os
unfolding peer_id_list_add insert_owner
peer_id_list_add-cons head o os = rw (already_in_owners-eq-has_owner head o)

insert_owner-IsDistinct :
    (head : List PeerId) (o : PeerId) → IsDistinct head → IsDistinct (insert_owner head o)
unfolding insert_owner owner_count
insert_owner-IsDistinct head o d ip =
    ground (arith, d ip, owner_count_absent o.ip head, owner_count-append ip head (o ∷ []))

has_owner-insert_owner :
    (ip : ℕ) (head : List PeerId) (o : PeerId)
    → has_owner ip (insert_owner head o) ≡ has_owner ip head || o.ip == ip
unfolding insert_owner has_owner
has_owner-insert_owner ip head o = ground (arith, has_owner-append ip head (o ∷ []))

-- The list keeps one owner for an address.
pub peer_id_list_add-IsDistinct :
    (head owners : List PeerId) → IsDistinct head → IsDistinct (peer_id_list_add head owners)
unfolding peer_id_list_add
peer_id_list_add-IsDistinct head [] d = d
peer_id_list_add-IsDistinct head (o ∷ os) d =
    rw (peer_id_list_add-cons head o os)
      (peer_id_list_add-IsDistinct (insert_owner head o) os (insert_owner-IsDistinct head o d))

-- The addresses are those of both lists.
pub has_owner-peer_id_list_add :
    (ip : ℕ) (head owners : List PeerId)
    → has_owner ip (peer_id_list_add head owners) ≡ has_owner ip head || has_owner ip owners
unfolding peer_id_list_add has_owner
has_owner-peer_id_list_add ip head [] = ground arith
has_owner-peer_id_list_add ip head (o ∷ os) = ground (
  arith,
  peer_id_list_add-cons head o os,
  has_owner-peer_id_list_add ip (insert_owner head o) os,
  has_owner-insert_owner ip head o,
)

-- Adding owners keeps a list with one owner for an address so, and the addresses are those of both.
pub peer_id_list_add_lem :
    (head owners : List PeerId)
    → IsDistinct head
    → IsDistinct (peer_id_list_add head owners)
      × ((ip : ℕ)
          → has_owner ip (peer_id_list_add head owners) ≡ has_owner ip head || has_owner ip owners)
peer_id_list_add_lem head owners d =
    (peer_id_list_add-IsDistinct head owners d, λ ip. has_owner-peer_id_list_add ip head owners)

pub peer_id_list_destroy-eq-nil : (ps : List PeerId) → peer_id_list_destroy ps ≡ []
unfolding peer_id_list_destroy
peer_id_list_destroy-eq-nil [] = refl
peer_id_list_destroy-eq-nil (p ∷ ps) = peer_id_list_destroy-eq-nil ps

pub owner_count-remove_owner :
    (ip q : ℕ) (ps : List PeerId)
    → owner_count q (remove_owner ip ps) ≡ (if ip == q then 0 else owner_count q ps)
unfolding owner_count remove_owner
owner_count-remove_owner ip q [] = ground arith
owner_count-remove_owner ip q (p ∷ ps) = ground (arith, owner_count-remove_owner ip q ps)

pub has_owner-remove_owner :
    (ip q : ℕ) (ps : List PeerId)
    → has_owner q (remove_owner ip ps) ≡ has_owner q ps && not (ip == q)
unfolding has_owner remove_owner
has_owner-remove_owner ip q [] = ground arith
has_owner-remove_owner ip q (p ∷ ps) = ground (arith, has_owner-remove_owner ip q ps)

pub same_owners_iff :
    (ps qs : List PeerId) → length ps ≡ length qs → same_owners ps qs ≡ true → ps ≡ qs
unfolding same_owners
same_owners_iff [] [] e h = refl
same_owners_iff [] (q ∷ qs) e h = absurd (omega arith)
same_owners_iff (p ∷ ps) [] e h = absurd (omega arith)
same_owners_iff (p ∷ ps) (q ∷ qs) e h = ground (arith, same_owners_iff ps qs)

same_owners_refl : (ps : List PeerId) → same_owners ps ps ≡ true
unfolding same_owners
same_owners_refl [] = refl
same_owners_refl (p ∷ ps) = ground (arith, same_owners_refl ps)

-- The comparison is equality of the two lists, order and ports included.
pub has_same_owners-eq_true :
    (fe : FileEntry) (te : TransFileEntry)
    → (has_same_owners fe te ≡ true → fe.owners ≡ te.owners)
      × (fe.owners ≡ te.owners → has_same_owners fe te ≡ true)
unfolding has_same_owners
has_same_owners-eq_true fe te = (
  ground (arith, same_owners_iff fe.owners te.owners),
  λ e. ground (arith, same_owners_refl fe.owners),
)
