-- ===== src/Server.antt =====
-- server/start.c: the tracker. Its tasks are functions on the tables; each runs as one step. What a
-- task sends is listed in order, with the connection; a send that fails is only logged by the code.
pub mod Sync
pub mod Update
pub mod Peers
use tele_sync.Prelude.{
  ℕ, List, [], ◌∷◌, Option, none, some, Bool, true, false, ◌==◌, if◌then◌else◌, same_name,
}
use tele_sync.TransTable.{TransFileEntry, TransFileTable}
use tele_sync.FileTable.{FileTable}
use tele_sync.PeerTable.{PeerEntry, PeerTable}

pub record ControlInfo : Type 0 where
  pub interval : ℕ
  pub piece_len : ℕ

-- A packet to a peer: the type with the data that the tracker fills in for it.
pub data TtopPacket : Type 0 where
  tracker_accept : ControlInfo → TtopPacket
  tracker_broadcast tracker_sync : TransFileTable → TtopPacket
  tracker_close : TtopPacket

abbrev pub Outbox : Type 0
Outbox = List (ℕ × TtopPacket)

pub record Tracker : Type 0 where
  pub ft : FileTable
  pub pt : PeerTable
  pub ctr_info : ControlInfo

-- `none` stands for the connection -1, which is nobody's.
unfoldable pub is_excluded : Option ℕ → ℕ → Bool
is_excluded none conn = false
is_excluded (some c) conn = conn == c

unfoldable pub broadcast_to : TtopPacket → List PeerEntry → Option ℕ → Outbox
broadcast_to pkt [] exclusive_conn = []
broadcast_to pkt (pe ∷ ps) exclusive_conn =
    let rest = broadcast_to pkt ps exclusive_conn in
    if is_excluded exclusive_conn pe.conn then rest else (pe.conn, pkt) ∷ rest

unfoldable pub broadcast_update : PeerTable → TransFileTable → Option ℕ → Outbox
broadcast_update pt [] exclusive_conn = []
broadcast_update pt (te ∷ tft) exclusive_conn =
    broadcast_to (tracker_broadcast (te ∷ tft)) pt.peers exclusive_conn

unfoldable pub trans_file_search : TransFileTable → List ℕ → Option TransFileEntry
trans_file_search [] name = none
trans_file_search (te ∷ tft) name =
    if same_name te.name name then some te else trans_file_search tft name
