-- ===== src/PeerTable.antt =====
-- server/peer_table.c: the tracker's list of connected peers. The newest peer stands first. Locks are
-- not modelled, `calloc` does not fail, and the clock is an argument.
pub mod Laws
use tele_sync.Prelude.{
  ℕ, ◌+◌, ◌-◌, ◌%◌, ◌^◌, List, [], ◌∷◌, Option, none, some, ◌==◌, if◌then◌else◌,
}
use tele_sync.TransTable.{PeerId}

pub record PeerEntry : Type 0 where
  pub conn : ℕ
  pub timestamp : ℕ
  pub peerid : PeerId
  pub tid : ℕ

pub record PeerTable : Type 0 where
  pub peer_num : ℕ
  pub peers : List PeerEntry

-- -1, stored in a `uint32_t`.
abbrev pub minus_one : ℕ
minus_one = 2 ^ 32 - 1

unfoldable pub peer_entry_alloc : ℕ → PeerEntry
peer_entry_alloc now = record {
  conn = 0;
  timestamp = now;
  peerid = record { ip = 0; port = 0 };
  tid = 0;
}

unfoldable pub peer_table_init : PeerTable
peer_table_init = record { peer_num = 0; peers = [] }

unfoldable pub peer_table_add : PeerTable → PeerEntry → PeerTable
peer_table_add pt pe = record { peer_num = pt.peer_num + 1; peers = pe ∷ pt.peers }

unfoldable pub find_conn : ℕ → List PeerEntry → Option PeerEntry
find_conn conn [] = none
find_conn conn (pe ∷ ps) = if pe.conn == conn then some pe else find_conn conn ps

unfoldable pub unlink_conn : ℕ → List PeerEntry → List PeerEntry
unlink_conn conn [] = []
unlink_conn conn (pe ∷ ps) = if pe.conn == conn then ps else pe ∷ unlink_conn conn ps

-- The first entry of the connection goes. The result is its address, or -1.
unfoldable pub peer_table_delete : PeerTable → ℕ → PeerTable × ℕ
peer_table_delete pt conn = elim (find_conn conn pt.peers) [
  | none ↦ (pt, minus_one)
  | some pe ↦
      (record { peer_num = pt.peer_num - 1; peers = unlink_conn conn pt.peers }, pe.peerid.ip)
]

unfoldable pub find_ip : ℕ → List PeerEntry → Option PeerEntry
find_ip ip [] = none
find_ip ip (pe ∷ ps) = if pe.peerid.ip == ip then some pe else find_ip ip ps

unfoldable pub peer_table_find : PeerTable → ℕ → Option PeerEntry
peer_table_find pt ip = find_ip ip pt.peers

-- A write of `timestamp` through the pointer that `peer_table_find` returned.
unfoldable pub stamp_ip : ℕ → ℕ → List PeerEntry → List PeerEntry
stamp_ip ip time [] = []
stamp_ip ip time (pe ∷ ps) =
    if pe.peerid.ip == ip then record pe { timestamp = time } ∷ ps else pe ∷ stamp_ip ip time ps
