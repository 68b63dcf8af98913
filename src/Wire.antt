-- ===== src/Wire.antt =====
-- The bytes of the packets: include/packet_def.h, include/trans_file_table.h, client/packet.c and
-- server/packet.c. The layout is that of a machine with little-endian numbers and natural alignment.
-- Memory that no byte was written to is zero, and so reads what is behind the end of a byte string.
pub mod Bytes
pub mod Entries
pub mod Tables
pub mod RoundTrip
pub mod Delivery
use tele_sync.Prelude.{
  Bool, true, false, ℕ, zero, suc, ◌+◌, ◌-◌, ◌*◌, ◌%◌, ◌^◌, List, [], ◌∷◌, ◌++◌, Option, none, some,
  ◌==◌, if◌then◌else◌, length, replicate, take, drop,
}
use tele_sync.TransTable.{
  FileType, regular, directory, soft_link, OperationType, file_none, file_add, file_delete,
  file_modify, unknown_op, PeerId, TransFileEntry, TransFileTable, max_peer_entries,
}
use tele_sync.Segment.{recv_segment}
use tele_sync.Server.{TtopPacket, tracker_accept, tracker_broadcast, tracker_sync, tracker_close}
use tele_sync.Server.Peers.{
  PtotPacketType, peer_register, peer_keep_alive, peer_file_update, peer_sync, unknown_packet,
  PtotPacket,
}
use tele_sync.Wire.Bytes.{to_bytes, from_bytes, padded, c_string}

abbrev pub max_name_len : ℕ
max_name_len = 128

-- sizeof(struct peer_id), with two bytes of padding.
abbrev pub peer_id_size : ℕ
peer_id_size = 8

-- sizeof(struct trans_file_entry).
abbrev pub entry_size : ℕ
entry_size = 272

-- sizeof(struct ptot_packet_header).
abbrev pub ptot_header_size : ℕ
ptot_header_size = 140

unfoldable pub op_number : OperationType → ℕ
op_number file_none = 0
op_number file_add = 1
op_number file_delete = 2
op_number file_modify = 3
op_number (unknown_op k) = k

unfoldable pub op_of : ℕ → OperationType
op_of k =
    if k == 0
    then file_none
    else if k == 1
    then file_add
    else if k == 2
    then file_delete
    else if k == 3
    then file_modify
    else unknown_op k

unfoldable pub type_number : FileType → ℕ
type_number regular = 0
type_number directory = 1
type_number soft_link = 2

-- The model has no other file types; no number above 2 is sent.
unfoldable pub type_of : ℕ → FileType
type_of k = if k == 0 then regular else if k == 1 then directory else soft_link

unfoldable pub peer_id_bytes : PeerId → List ℕ
peer_id_bytes p = to_bytes 4 p.ip ++ (to_bytes 2 p.port ++ replicate 2 0)

unfoldable pub owners_bytes : List PeerId → List ℕ
owners_bytes [] = []
owners_bytes (p ∷ ps) = peer_id_bytes p ++ owners_bytes ps

-- struct trans_file_entry up to its last owner.
unfoldable pub entry_used : TransFileEntry → List ℕ
entry_used te =
    padded max_name_len te.name
    ++ (to_bytes 8 te.timestamp
        ++ (to_bytes 2 (op_number te.op_type)
            ++ (to_bytes 2 (type_number te.file_type)
                ++ (to_bytes 2 (length te.owners) ++ (replicate 2 0 ++ owners_bytes te.owners)))))

unfoldable pub entry_bytes : TransFileEntry → List ℕ
entry_bytes te = entry_used te ++ replicate (peer_id_size * (max_peer_entries - length te.owners)) 0

unfoldable pub entries_bytes : TransFileTable → List ℕ
entries_bytes [] = []
entries_bytes (te ∷ tft) = entry_bytes te ++ entries_bytes tft

-- struct trans_file_table: `n`, four bytes of padding, the entries.
unfoldable pub table_bytes : TransFileTable → List ℕ
table_bytes tft = to_bytes 4 (length tft) ++ (replicate 4 0 ++ entries_bytes tft)

-- The macro leaves out the padding behind `n`.
unfoldable pub trans_table_len : TransFileTable → ℕ
trans_table_len tft = 4 + length tft * entry_size

unfoldable pub packet_number : PtotPacketType → ℕ
packet_number peer_register = 0
packet_number peer_keep_alive = 1
packet_number peer_file_update = 2
packet_number peer_sync = 3
packet_number (unknown_packet k) = k

unfoldable pub packet_type_of : ℕ → PtotPacketType
packet_type_of k =
    if k == 0
    then peer_register
    else if k == 1
    then peer_keep_alive
    else if k == 2
    then peer_file_update
    else if k == 3
    then peer_sync
    else unknown_packet k

-- struct ptot_packet_header; `to_bytes` cuts `data_len` to its 16 bits.
unfoldable pub ptot_header_bytes : PtotPacketType → ℕ → ℕ → ℕ → List ℕ
ptot_header_bytes type ip port data_len =
    replicate max_name_len 0
    ++ (to_bytes 2 (packet_number type)
        ++ (replicate 2 0 ++ (to_bytes 4 ip ++ (to_bytes 2 port ++ to_bytes 2 data_len))))

-- A registration has nothing filled in.
unfoldable pub is_bare : PtotPacketType → TransFileTable → Bool
is_bare peer_register [] = true
is_bare peer_register (te ∷ tft) = false
is_bare peer_keep_alive tft = false
is_bare peer_file_update tft = false
is_bare peer_sync tft = false
is_bare (unknown_packet k) tft = false

-- The data and their length, of which the header has 16 bits. A keep-alive packet carries a timestamp
-- where this has a table; the tracker does not look at it.
unfoldable pub ptot_data : PtotPacket → List ℕ
ptot_data pkt =
    if is_bare pkt.type pkt.tft then [] else take (trans_table_len pkt.tft) (table_bytes pkt.tft)

unfoldable pub ptot_data_len : PtotPacket → ℕ
ptot_data_len pkt = if is_bare pkt.type pkt.tft then 0 else trans_table_len pkt.tft

-- `ptot_packet_init` and `ptot_packet_fill`, and the bytes that `send_ptot_packet` hands on:
-- `ptot_packet_len` of them.
unfoldable pub ptot_packet_bytes : PtotPacket → List ℕ
ptot_packet_bytes pkt =
    take (ptot_header_size + ptot_data_len pkt % 2 ^ 16)
      (ptot_header_bytes pkt.type pkt.ip pkt.port (ptot_data_len pkt) ++ ptot_data pkt)

unfoldable pub read_number : ℕ → ℕ → List ℕ → ℕ
read_number offset size bytes = from_bytes (take size (drop offset bytes))

unfoldable pub read_peer_id : List ℕ → PeerId
read_peer_id bytes = record { ip = read_number 0 4 bytes; port = read_number 4 2 bytes }

unfoldable pub read_owners : ℕ → List ℕ → List PeerId
read_owners zero bytes = []
read_owners (suc k) bytes = read_peer_id bytes ∷ read_owners k (drop peer_id_size bytes)

unfoldable pub read_entry : List ℕ → TransFileEntry
read_entry bytes = record {
  name = c_string (take max_name_len bytes);
  timestamp = read_number 128 8 bytes;
  op_type = op_of (read_number 136 2 bytes);
  file_type = type_of (read_number 138 2 bytes);
  owners = read_owners (read_number 140 2 bytes) (drop 144 bytes);
}

unfoldable pub read_entries : ℕ → List ℕ → TransFileTable
read_entries zero bytes = []
read_entries (suc n) bytes =
    read_entry (take entry_size bytes) ∷ read_entries n (drop entry_size bytes)

unfoldable pub read_table : List ℕ → TransFileTable
read_table bytes = read_entries (read_number 0 4 bytes) (drop 8 bytes)

-- What `recv_ptot_packet` leaves in the packet, and the table that `receiver_task` copies out of its data.
unfoldable pub read_ptot_packet : List ℕ → PtotPacket
read_ptot_packet bytes = record {
  type = packet_type_of (read_number 128 2 bytes);
  ip = read_number 132 4 bytes;
  port = read_number 136 2 bytes;
  tft = read_table (take (read_number 138 2 bytes) (drop ptot_header_size bytes));
}

-- The segment is copied into the packet.
unfoldable pub read_received {ℓ} :
    {A : Type ℓ} → (List ℕ → A) → Option (List ℕ × List ℕ) → Option (A × List ℕ)
read_received read none = none
read_received read (some (buf, rest)) = some (read buf, rest)

unfoldable pub recv_ptot_packet : List ℕ → Option (PtotPacket × List ℕ)
recv_ptot_packet input = read_received read_ptot_packet (recv_segment input)

-- The data of a packet from the tracker, as the tasks of server/start.c fill it in: the two ints of struct
-- ttop_control_info, or a table.
unfoldable pub ttop_data : TtopPacket → List ℕ
ttop_data (tracker_accept ctr_info) = to_bytes 4 ctr_info.interval ++ to_bytes 4 ctr_info.piece_len
ttop_data (tracker_broadcast tft) = take (trans_table_len tft) (table_bytes tft)
ttop_data (tracker_sync tft) = take (trans_table_len tft) (table_bytes tft)
ttop_data tracker_close = []

unfoldable pub ttop_number : TtopPacket → ℕ
ttop_number (tracker_accept ctr_info) = 0
ttop_number (tracker_broadcast tft) = 1
ttop_number (tracker_sync tft) = 2
ttop_number tracker_close = 3

-- struct ttop_packet_header and the data: `ttop_packet_len` bytes.
unfoldable pub ttop_packet_bytes : TtopPacket → List ℕ
ttop_packet_bytes pkt =
    let content = ttop_data pkt in
    take (4 + length content % 2 ^ 16)
      (to_bytes 2 (ttop_number pkt) ++ (to_bytes 2 (length content) ++ content))

-- What a peer makes of the data, which it copies over memory that holds `old`.
unfoldable pub read_ttop : ℕ → List ℕ → Option TtopPacket
read_ttop k memory =
    if k == 0
    then some (
        tracker_accept
          (record { interval = read_number 0 4 memory; piece_len = read_number 4 4 memory }))
    else if k == 1
    then some (tracker_broadcast (read_table memory))
    else if k == 2
    then some (tracker_sync (read_table memory))
    else if k == 3
    then some tracker_close
    else none

unfoldable pub copied_over : List ℕ → List ℕ → List ℕ
copied_over old content = content ++ drop (length content) old

unfoldable pub read_ttop_packet : List ℕ → List ℕ → Option TtopPacket
read_ttop_packet old bytes =
    read_ttop (read_number 0 2 bytes)
      (copied_over old (take (read_number 2 2 bytes) (drop 4 bytes)))

-- `none` within is a type that no packet has.
unfoldable pub recv_ttop_packet : List ℕ → List ℕ → Option (Option TtopPacket × List ℕ)
recv_ttop_packet old input = read_received (read_ttop_packet old) (recv_segment input)
