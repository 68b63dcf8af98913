-- ===== src/Dialogue/Packets.antt =====
-- The bytes of struct p2p_packet of client/packet.h, and how client/packet.c sends and receives them.
use mathlib.Core.List.{append_assoc}
use tele_sync.Prelude.{
  ℕ, ◌+◌, ◌%◌, ◌^◌, ◌<◌, ◌≡◌, refl, ap, ◌∙◌, List, [], ◌∷◌, ◌++◌, Option, none, some, true, arith,
  ◌==◌, if◌then◌else◌, length, length-append, take, drop, take-append, drop-append,
}
use tele_sync.Segment.{bang, end_mark, recv_segment}
use tele_sync.Segment.RoundTrip.{unmarked, closed, frame, recv_segment-frame}
use tele_sync.Wire.{read_number, read_received}
use tele_sync.Wire.Bytes.{to_bytes, length-to_bytes}
use tele_sync.Wire.Entries.{read_here, read_later, drop_later}
use tele_sync.Wire.Delivery.{take_whole}
use tele_sync.Dialogue.{
  P2pPacketType, P2pPacket, p2p_file_len_req, p2p_port_req, p2p_piece_req, p2p_finish,
  p2p_file_len_ret, p2p_port_ret, p2p_piece_ret,
}

unfoldable pub p2p_number : P2pPacketType → ℕ
p2p_number p2p_file_len_req = 0
p2p_number p2p_port_req = 1
p2p_number p2p_piece_req = 2
p2p_number p2p_finish = 3
p2p_number p2p_file_len_ret = 4
p2p_number p2p_port_ret = 5
p2p_number p2p_piece_ret = 6

-- `none` is a number that is no type.
unfoldable pub p2p_type_of : ℕ → Option P2pPacketType
p2p_type_of k =
    if k == 0
    then some p2p_file_len_req
    else if k == 1
    then some p2p_port_req
    else if k == 2
    then some p2p_piece_req
    else if k == 3
    then some p2p_finish
    else if k == 4
    then some p2p_file_len_ret
    else if k == 5
    then some p2p_port_ret
    else if k == 6
    then some p2p_piece_ret
    else none

-- The `p2p_packet_len` bytes that `send_p2p_packet` hands on.
unfoldable pub p2p_packet_bytes : P2pPacket → List ℕ
p2p_packet_bytes pkt =
    take (4 + length pkt.content % 2 ^ 16)
      (to_bytes 2 (p2p_number pkt.type) ++ (to_bytes 2 (length pkt.content) ++ pkt.content))

unfoldable pub with_content : List ℕ → Option P2pPacketType → Option P2pPacket
with_content content none = none
with_content content (some type) = some (record { type = type; content = content })

unfoldable pub read_p2p_packet : List ℕ → Option P2pPacket
read_p2p_packet bytes =
    with_content (take (read_number 2 2 bytes) (drop 4 bytes)) (p2p_type_of (read_number 0 2 bytes))

-- `none` within is a packet with a type of no name.
unfoldable pub recv_p2p_packet : List ℕ → Option (Option P2pPacket × List ℕ)
recv_p2p_packet input = read_received read_p2p_packet (recv_segment input)

p2p_type_of-number : (type : P2pPacketType) → p2p_type_of (p2p_number type) ≡ some type
unfolding p2p_type_of p2p_number
p2p_type_of-number p2p_file_len_req = refl
p2p_type_of-number p2p_port_req = refl
p2p_type_of-number p2p_piece_req = refl
p2p_type_of-number p2p_finish = refl
p2p_type_of-number p2p_file_len_ret = refl
p2p_type_of-number p2p_port_ret = refl
p2p_type_of-number p2p_piece_ret = refl

p2p_number-small : (type : P2pPacketType) → p2p_number type < 256 ^ 2
unfolding p2p_number
p2p_number-small p2p_file_len_req = omega arith
p2p_number-small p2p_port_req = omega arith
p2p_number-small p2p_piece_req = omega arith
p2p_number-small p2p_finish = omega arith
p2p_number-small p2p_file_len_ret = omega arith
p2p_number-small p2p_port_ret = omega arith
p2p_number-small p2p_piece_ret = omega arith

module _ (pkt : P2pPacket) (few : length pkt.content < 2 ^ 16) where
  abbrev type_bytes : List ℕ
  type_bytes = to_bytes 2 (p2p_number pkt.type)

  abbrev len_bytes : List ℕ
  len_bytes = to_bytes 2 (length pkt.content)

  p2p_packet_bytes-whole : p2p_packet_bytes pkt ≡ type_bytes ++ (len_bytes ++ pkt.content)
  unfolding p2p_packet_bytes
  p2p_packet_bytes-whole =
      take_whole (type_bytes ++ (len_bytes ++ pkt.content)) (4 + length pkt.content % 2 ^ 16) (
        omega (
          arith,
          length-append type_bytes (len_bytes ++ pkt.content),
          length-append len_bytes pkt.content,
          length-to_bytes 2 (p2p_number pkt.type),
          length-to_bytes 2 (length pkt.content),
        ))

  read_p2p_packet-bytes :
      (tail : List ℕ)
      → read_p2p_packet (type_bytes ++ (len_bytes ++ (pkt.content ++ tail))) ≡ some pkt
  unfolding read_p2p_packet with_content
  read_p2p_packet-bytes tail =
      let rest : List ℕ = pkt.content ++ tail in
      rw
        (
          read_here 2 (p2p_number pkt.type) (len_bytes ++ rest) (p2p_number-small pkt.type),
          read_later type_bytes (len_bytes ++ rest) 2 0 2 (length-to_bytes 2 (p2p_number pkt.type)),
          read_here 2 (length pkt.content) rest (omega arith),
          drop_later type_bytes (len_bytes ++ rest) 2 2 (length-to_bytes 2 (p2p_number pkt.type)),
          drop-append len_bytes rest 2 (length-to_bytes 2 (length pkt.content)),
          take-append pkt.content tail (length pkt.content) refl,
          p2p_type_of-number pkt.type,
        )
        refl

  -- A packet between peers with less than 2 ^ 16 bytes of data and without an end mark in its bytes is
  -- received as it was sent, and what follows stays on the connection.
  pub recv_p2p_packet-bytes :
      (rest : List ℕ)
      → unmarked (p2p_packet_bytes pkt) ≡ true
      → recv_p2p_packet (frame (p2p_packet_bytes pkt) ++ rest) ≡ some (some pkt, rest)
  unfolding recv_p2p_packet read_received
  recv_p2p_packet-bytes rest plain =
      let tail : List ℕ = bang ∷ end_mark ∷ [] in
      let e : closed (p2p_packet_bytes pkt) ≡ type_bytes ++ (len_bytes ++ (pkt.content ++ tail)) =
        ap closed p2p_packet_bytes-whole ∙ simp append_assoc in
      ap (read_received read_p2p_packet) (recv_segment-frame (p2p_packet_bytes pkt) rest plain)
      ∙ ap (λ b. some (read_p2p_packet b, rest)) e
      ∙ ap (λ p. some (p, rest)) (read_p2p_packet-bytes tail)
