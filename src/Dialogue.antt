-- ===== src/Dialogue.antt =====
-- What two peers say to each other before pieces are fetched: the packets of client/packet.h,
-- `ptop_upload_task` of client/start.c on the one side, `get_file_len_from` and `get_p2p_download_port` of
-- client/download.c on the other.
pub mod Answers
pub mod Packets
use tele_sync.Prelude.{
  ℕ, ◌+◌, ◌%◌, ◌^◌, List, [], ◌∷◌, ◌++◌, Option, none, some, Bool, true, false, ◌==◌, if◌then◌else◌,
  length, take, drop,
}
use tele_sync.Segment.{recv_segment}
use tele_sync.Wire.{read_number, read_received}
use tele_sync.Wire.Bytes.{to_bytes, from_bytes, c_string}
use tele_sync.Client.Ports.{get_free_p2p_port, put_p2p_port}

pub data P2pPacketType : Type 0 where
  p2p_file_len_req p2p_port_req p2p_piece_req p2p_finish p2p_file_len_ret p2p_port_ret
        p2p_piece_ret :
      P2pPacketType

-- `content` is the first `data_len` bytes of the data.
pub record P2pPacket : Type 0 where
  pub type : P2pPacketType
  pub content : List ℕ

unfoldable pub p2p_packet_init : P2pPacketType → P2pPacket
p2p_packet_init type = record { type = type; content = [] }

unfoldable pub p2p_packet_fill : P2pPacket → List ℕ → P2pPacket
p2p_packet_fill pkt buf = record pkt { content = buf }

-- The request for the length of a file or for a port: the name with its NUL.
unfoldable pub name_request : P2pPacketType → List ℕ → P2pPacket
name_request type name = p2p_packet_fill (p2p_packet_init type) (name ++ 0 ∷ [])

-- -1 as a uint16_t and as a uint32_t.
abbrev pub no_port : ℕ
no_port = 65535

abbrev pub no_len : ℕ
no_len = 4294967295

unfoldable pub is_type : P2pPacketType → P2pPacketType → Bool
is_type p2p_file_len_ret p2p_file_len_ret = true
is_type p2p_port_ret p2p_port_ret = true
is_type a b = false

-- The first bytes of an answer of the type that is asked for.
unfoldable pub number_of : P2pPacketType → ℕ → ℕ → Option P2pPacket → ℕ
number_of type size failed none = failed
number_of type size failed (some pkt) =
    if is_type type pkt.type then from_bytes (take size pkt.content) else failed

-- `exchange` is the connection: the answer to a request, `none` where connecting, sending or receiving
-- fails.
unfoldable pub get_file_len_from : (P2pPacket → Option P2pPacket) → List ℕ → ℕ
get_file_len_from exchange file_name =
    number_of p2p_file_len_ret 4 no_len (exchange (name_request p2p_file_len_req file_name))

unfoldable pub get_p2p_download_port : (P2pPacket → Option P2pPacket) → List ℕ → ℕ
get_p2p_download_port exchange logic_name =
    number_of p2p_port_ret 2 no_port (exchange (name_request p2p_port_req logic_name))

-- The loop of `ptop_upload_task` after a packet: the answer, if one was sent, the ports, and whether the
-- loop goes on.
pub record Uploading : Type 0 where
  pub reply : Option P2pPacket
  pub ports : List ℕ
  pub goes_on : Bool

unfoldable pub stop : List ℕ → Uploading
stop ports = record { reply = none; ports = ports; goes_on = false }

-- The port, or -1, as it is stored.
unfoldable pub stored_port : Option ℕ → ℕ
stored_port none = no_port
stored_port (some port) = port % 2 ^ 16

-- `put_p2p_port`, which writes outside of the array for a port that is not its own.
unfoldable pub ports_after : List ℕ → Option (List ℕ) → List ℕ
ports_after ports none = ports
ports_after ports (some ports') = ports'

-- `stat` gives the size of a file. `sent` says whether the answer could be sent, `listens` whether the
-- new port could be opened.
unfoldable pub answer_len : (List ℕ → Option ℕ) → Bool → List ℕ → List ℕ → Uploading
answer_len stat sent ports sys_name = elim (stat sys_name) [
  | none ↦ stop ports
  | some size ↦
      if sent
      then record {
        reply = some (p2p_packet_fill (p2p_packet_init p2p_file_len_ret) (to_bytes 8 size));
        ports = ports;
        goes_on = true;
      }
      else stop ports
]

-- Between the answer and `put_p2p_port` runs `do_upload`.
unfoldable pub answer_port : Bool → Bool → List ℕ → Uploading
answer_port sent listens ports =
    let (taken, port) = get_free_p2p_port ports in
    let reply = p2p_packet_fill (p2p_packet_init p2p_port_ret) (to_bytes 2 (stored_port port)) in
    if sent
    then record {
      reply = some reply;
      ports = if listens then ports_after taken (put_p2p_port taken (stored_port port)) else taken;
      goes_on = listens;
    }
    else stop taken

unfoldable pub with_name : Option (List ℕ) → List ℕ → (List ℕ → Uploading) → Uploading
with_name none ports answer = stop ports
with_name (some sys_name) ports answer = answer sys_name

unfoldable pub answer_as :
    (List ℕ → Option (List ℕ))
    → (List ℕ → Option ℕ)
    → Bool
    → Bool
    → List ℕ
    → P2pPacketType
    → List ℕ
    → Uploading
answer_as get_sys_name stat sent listens ports p2p_file_len_req name =
    with_name (get_sys_name name) ports (answer_len stat sent ports)
answer_as get_sys_name stat sent listens ports p2p_port_req name =
    with_name (get_sys_name name) ports (λ sys_name. answer_port sent listens ports)
answer_as get_sys_name stat sent listens ports type name = record {
  reply = none;
  ports = ports;
  goes_on = true;
}

-- One packet in `ptop_upload_task`; every name comes with its NUL.
unfoldable pub ptop_upload :
    (List ℕ → Option (List ℕ)) → (List ℕ → Option ℕ) → Bool → Bool → List ℕ → P2pPacket → Uploading
ptop_upload get_sys_name stat sent listens ports pkt =
    answer_as get_sys_name stat sent listens ports pkt.type (c_string pkt.content)

-- The loop, over the packets that arrive.
unfoldable pub ptop_upload_task :
    (List ℕ → Option (List ℕ))
    → (List ℕ → Option ℕ)
    → Bool
    → Bool
    → List ℕ
    → List P2pPacket
    → List P2pPacket × List ℕ
ptop_upload_task get_sys_name stat sent listens ports [] = ([], ports)
ptop_upload_task get_sys_name stat sent listens ports (pkt ∷ pkts) =
    let u = ptop_upload get_sys_name stat sent listens ports pkt in
    let (replies, ports') = ptop_upload_task get_sys_name stat sent listens u.ports pkts in
    let first = elim u.reply as (λ r. List P2pPacket) [ none ↦ [] | some reply ↦ reply ∷ [] ] in
    if u.goes_on then (first ++ replies, ports') else (first, u.ports)
