-- ===== src/Server/Peers.antt =====
-- server/start.c: the life of a peer at the tracker, from registration through keep-alive to departure,
-- and the dispatch of its packets. The clock, and whether a send succeeds, are arguments.
pub mod Alive
pub mod Steps
use tele_sync.Prelude.{
  ℕ, ◌+◌, ◌%◌, ◌^◌, List, [], ◌∷◌, Option, none, some, Bool, true, false, ◌==◌, if◌then◌else◌,
}
use tele_sync.TransTable.{PeerId, TransFileEntry, TransFileTable, file_modify}
use tele_sync.FileTable.Sweep.{file_table_delete_owner, trans_table_fill_from}
use tele_sync.PeerTable.{
  PeerEntry, PeerTable, peer_entry_alloc, peer_table_add, peer_table_delete, peer_table_find,
  stamp_ip,
}
use tele_sync.Server.{Tracker, Outbox, tracker_accept, broadcast_update}
use tele_sync.Server.Sync.{sync_task}
use tele_sync.Server.Update.{peer_file_update_task}

pub record ThreadArg : Type 0 where
  pub conn : ℕ
  pub tid : ℕ
  pub peerid : PeerId

-- The table entry that a registration fills in.
unfoldable pub registered : ℕ → ThreadArg → PeerEntry
registered now arg = record (peer_entry_alloc now) {
  conn = arg.conn;
  peerid = arg.peerid;
  tid = arg.tid;
}

-- `accepted` says whether ACCEPT could be sent. Otherwise the peer is not entered.
unfoldable pub peer_register_handler_task : Bool → ℕ → Tracker → ThreadArg → Tracker × Outbox
peer_register_handler_task accepted now tracker arg =
    if accepted
    then (
      record tracker { pt = peer_table_add tracker.pt (registered now arg) },
      (arg.conn, tracker_accept tracker.ctr_info) ∷ [],
    )
    else (tracker, [])

-- The timestamp is a uint64_t.
unfoldable pub peer_life_update_task : Tracker → ℕ → Tracker
peer_life_update_task tracker ip = elim (peer_table_find tracker.pt ip) [
  | none ↦ tracker
  | some pe ↦
      let time = (pe.timestamp + tracker.ctr_info.interval) % 2 ^ 64 in
      record tracker { pt = record (tracker.pt) { peers = stamp_ip ip time tracker.pt.peers } }
]

-- One round of `peer_check_alive_task` after its sleep: `none` cancels the receiver, else the new
-- `last_timestamp`.
unfoldable pub check_alive_round : PeerTable → ℕ → ℕ → Option ℕ
check_alive_round pt ip last_timestamp = elim (peer_table_find pt ip) [
  | none ↦ none
  | some pe ↦ if pe.timestamp == last_timestamp then none else some pe.timestamp
]

pub data Watch : Type 0 where
  watching cancelled : Watch

-- The rounds, each with the peer table that it meets.
unfoldable pub peer_check_alive_task : ℕ → ℕ → List PeerTable → Watch
peer_check_alive_task ip last_timestamp [] = watching
peer_check_alive_task ip last_timestamp (pt ∷ pts) = elim (check_alive_round pt ip last_timestamp) [
  | none ↦ cancelled
  | some time ↦ peer_check_alive_task ip time pts
]

unfoldable pub as_modified : TransFileTable → TransFileTable
as_modified [] = []
as_modified (te ∷ tft) = record te { op_type = file_modify } ∷ as_modified tft

unfoldable pub receiver_task_cleanup : Tracker → ℕ → Tracker × Outbox
receiver_task_cleanup tracker conn =
    let (pt, peer_ip) = peer_table_delete tracker.pt conn in
    let ft = file_table_delete_owner tracker.ft peer_ip in
    (
      record tracker { ft = ft; pt = pt },
      broadcast_update pt (as_modified (trans_table_fill_from ft)) none,
    )

pub data PtotPacketType : Type 0 where
  peer_register peer_keep_alive peer_file_update peer_sync : PtotPacketType
  unknown_packet : ℕ → PtotPacketType

-- A packet from a peer: the header fields that the tracker reads, and the table in the data.
pub record PtotPacket : Type 0 where
  pub type : PtotPacketType
  pub ip : ℕ
  pub port : ℕ
  pub tft : TransFileTable

-- What the receiver of a connection runs for a packet. `none` for an unknown type.
pub data Task : Type 0 where
  register : ThreadArg → Task
  life_update : ℕ → Task
  sync file_update : ℕ → TransFileTable → Task

unfoldable pub dispatch_as : PtotPacketType → ℕ → ℕ → PtotPacket → Option Task
dispatch_as peer_register conn my_tid pkt = some (
    register
      (record { conn = conn; tid = my_tid; peerid = record { ip = pkt.ip; port = pkt.port } }))
dispatch_as peer_keep_alive conn my_tid pkt = some (life_update pkt.ip)
dispatch_as peer_sync conn my_tid pkt = some (sync conn pkt.tft)
dispatch_as peer_file_update conn my_tid pkt = some (file_update conn pkt.tft)
dispatch_as (unknown_packet k) conn my_tid pkt = none

unfoldable pub receiver_dispatch : ℕ → ℕ → PtotPacket → Option Task
receiver_dispatch conn my_tid pkt = dispatch_as pkt.type conn my_tid pkt

unfoldable pub run_task : Bool → ℕ → Tracker → Task → Tracker × Outbox
run_task accepted now tracker (register arg) = peer_register_handler_task accepted now tracker arg
run_task accepted now tracker (life_update ip) = (peer_life_update_task tracker ip, [])
run_task accepted now tracker (sync conn tft) = sync_task tracker conn tft
run_task accepted now tracker (file_update conn tft) = peer_file_update_task tracker conn tft
