-- ===== src/PeerTable/Laws.antt =====
-- The peer list of server/peer_table.c: its invariant, and what each operation does to a search.
use tele_sync.Prelude.{
  ℕ, ◌+◌, ◌≤◌, ◌≡◌, refl, List, [], ◌∷◌, Option, none, some, arith, ◌==◌, if◌then◌else◌, length,
  Option-cases, inl, inr,
}
use tele_sync.PeerTable.{
  PeerEntry, PeerTable, minus_one, peer_table_init, peer_table_add, find_conn, unlink_conn,
  peer_table_delete, find_ip, peer_table_find, stamp_ip,
}

pub conn_count : ℕ → List PeerEntry → ℕ
conn_count conn [] = 0
conn_count conn (pe ∷ ps) = (if pe.conn == conn then 1 else 0) + conn_count conn ps

pub record IsValid (pt : PeerTable) : Type 0 where
  pub counted : pt.peer_num ≡ length pt.peers
  pub single : (conn : ℕ) → conn_count conn pt.peers ≤ 1

pub peer_table_init-IsValid : IsValid peer_table_init
unfolding peer_table_init conn_count
peer_table_init-IsValid = record { counted = refl; single = λ conn. omega arith }

pub conn_count_absent :
    (conn : ℕ) (ps : List PeerEntry) → find_conn conn ps ≡ none → conn_count conn ps ≡ 0
unfolding find_conn conn_count
conn_count_absent conn [] h = refl
conn_count_absent conn (pe ∷ ps) h = ground (arith, conn_count_absent conn ps)

find_conn_absent :
    (conn : ℕ) (ps : List PeerEntry) → conn_count conn ps ≡ 0 → find_conn conn ps ≡ none
unfolding find_conn conn_count
find_conn_absent conn [] h = refl
find_conn_absent conn (pe ∷ ps) h = ground (arith, find_conn_absent conn ps)

find-unlink_conn :
    (conn other : ℕ) (ps : List PeerEntry)
    → conn_count conn ps ≤ 1
    → find_conn other (unlink_conn conn ps) ≡ (if conn == other then none else find_conn other ps)
unfolding find_conn conn_count unlink_conn
find-unlink_conn conn other [] h = ground arith
find-unlink_conn conn other (pe ∷ ps) h =
    ground (arith, find-unlink_conn conn other ps, find_conn_absent conn ps)

conn_count-unlink_conn :
    (conn other : ℕ) (ps : List PeerEntry)
    → conn_count other (unlink_conn conn ps) ≤ conn_count other ps
unfolding conn_count unlink_conn
conn_count-unlink_conn conn other [] = omega arith
conn_count-unlink_conn conn other (pe ∷ ps) = ground (arith, conn_count-unlink_conn conn other ps)

length-unlink_conn :
    (conn : ℕ) (ps : List PeerEntry) (pe : PeerEntry)
    → find_conn conn ps ≡ some pe
    → length (unlink_conn conn ps) + 1 ≡ length ps
unfolding find_conn unlink_conn
length-unlink_conn conn [] pe h = cc
length-unlink_conn conn (x ∷ ps) pe h = ground (arith, length-unlink_conn conn ps pe)

-- A peer on a new connection is found under its address at once, the other addresses as before, and
-- the table stays valid.
pub peer_table_add_lem :
    (pt : PeerTable) (pe : PeerEntry)
    → IsValid pt
    → find_conn pe.conn pt.peers ≡ none
    → IsValid (peer_table_add pt pe)
      × ((ip : ℕ)
          → peer_table_find (peer_table_add pt pe) ip
            ≡ (if pe.peerid.ip == ip then some pe else peer_table_find pt ip))
unfolding peer_table_add peer_table_find find_ip conn_count
peer_table_add_lem pt pe v fresh = (
  record {
    counted = omega (arith, v.counted);
    single = λ conn. ground (arith, v.single conn, conn_count_absent pe.conn pt.peers);
  },
  λ ip. refl,
)

abbrev pub ip_of : Option PeerEntry → ℕ
ip_of none = minus_one
ip_of (some pe) = pe.peerid.ip

-- A deletion answers the address of the connection, or -1, keeps the table valid, and removes the
-- entry of that connection and no other.
pub peer_table_delete_lem :
    (pt : PeerTable) (conn : ℕ)
    → IsValid pt
    → IsValid (peer_table_delete pt conn).0
      × ((peer_table_delete pt conn).1 ≡ ip_of (find_conn conn pt.peers))
      × ((other : ℕ)
          → find_conn other (peer_table_delete pt conn).0.peers
            ≡ (if conn == other then none else find_conn other pt.peers))
unfolding peer_table_delete
peer_table_delete_lem pt conn v = elim (Option-cases (find_conn conn pt.peers)) [
  | inl e ↦ rw (e, peer_table_delete) (v, refl, λ other. ground arith)
  | inr (pe, e) ↦
      rw (e, peer_table_delete)
        (
          record {
            counted = omega (arith, v.counted, length-unlink_conn conn pt.peers pe e);
            single = λ c. omega (arith, v.single c, conn_count-unlink_conn conn c pt.peers);
          },
          refl,
          λ other. find-unlink_conn conn other pt.peers (v.single conn),
        )
]

stamp_conn :
    (ip time conn : ℕ) (ps : List PeerEntry)
    → conn_count conn (stamp_ip ip time ps) ≡ conn_count conn ps
unfolding conn_count stamp_ip
stamp_conn ip time conn [] = refl
stamp_conn ip time conn (pe ∷ ps) = ground (arith, stamp_conn ip time conn ps)

pub length-stamp_ip : (ip time : ℕ) (ps : List PeerEntry) → length (stamp_ip ip time ps) ≡ length ps
unfolding stamp_ip
length-stamp_ip ip time [] = refl
length-stamp_ip ip time (pe ∷ ps) = ground (arith, length-stamp_ip ip time ps)

pub stamp_ip-IsValid :
    (pt : PeerTable) (ip time : ℕ)
    → IsValid pt
    → IsValid (record pt { peers = stamp_ip ip time pt.peers })
stamp_ip-IsValid pt ip time v = record {
  counted = omega (arith, v.counted, length-stamp_ip ip time pt.peers);
  single = λ conn. omega (arith, v.single conn, stamp_conn ip time conn pt.peers);
}

abbrev pub stamped : ℕ → Option PeerEntry → Option PeerEntry
stamped time none = none
stamped time (some pe) = some (record pe { timestamp = time })

pub find-stamp_ip :
    (ip other time : ℕ) (ps : List PeerEntry)
    → find_ip other (stamp_ip ip time ps)
      ≡ (if ip == other then stamped time (find_ip other ps) else find_ip other ps)
unfolding find_ip stamp_ip
find-stamp_ip ip other time [] = ground arith
find-stamp_ip ip other time (pe ∷ ps) = ground (arith, find-stamp_ip ip other time ps)

pub peer_table_delete-counted :
    (pt : PeerTable) (conn : ℕ)
    → pt.peer_num ≡ length pt.peers
    → (peer_table_delete pt conn).0.peer_num ≡ length (peer_table_delete pt conn).0.peers
unfolding peer_table_delete
peer_table_delete-counted pt conn h = elim (Option-cases (find_conn conn pt.peers)) [
  | inl e ↦ rw (e, peer_table_delete) h
  | inr (pe, e) ↦ rw (e, peer_table_delete) (omega (arith, length-unlink_conn conn pt.peers pe e))
]
