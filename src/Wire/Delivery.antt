-- ===== src/Wire/Delivery.antt =====
-- A packet between a peer and the tracker, sent and received: the functions of client/packet.c and
-- server/packet.c on the frames of utility/segment.c.
use mathlib.Core.List.{append_assoc, append-nil}
use tele_sync.Prelude.{
  Bool-cases, inl, inr, ℕ, ◌+◌, ◌%◌, ◌^◌, ◌≤◌, ◌<◌, ◌≡◌, refl, sym, ap, ◌∙◌, List, [], ◌∷◌, ◌++◌,
  some, true, arith, length, length-append, length-replicate, replicate, take, drop, take-append,
  drop-append,
}
use tele_sync.TransTable.{TransFileTable}
use tele_sync.Server.{TtopPacket, tracker_accept, tracker_broadcast, tracker_sync, tracker_close}
use tele_sync.Server.Peers.{
  PtotPacketType, peer_register, peer_keep_alive, peer_file_update, peer_sync, unknown_packet,
  PtotPacket,
}
use tele_sync.Segment.{bang, end_mark}
use tele_sync.Segment.RoundTrip.{unmarked, closed, frame, recv_segment-frame}
use tele_sync.Wire.{
  is_bare, ptot_data, ptot_data_len, read_entries, read_number, max_name_len, ptot_header_size,
  trans_table_len, packet_number, ptot_header_bytes, ptot_packet_bytes, read_table,
  read_ptot_packet, recv_ptot_packet, read_received, ttop_data, ttop_number, ttop_packet_bytes,
  read_ttop, copied_over, read_ttop_packet, recv_ttop_packet,
}
use tele_sync.Wire.Bytes.{from_bytes, to_bytes, length-to_bytes}
use tele_sync.Wire.Entries.{read_here, read_later, drop_later}
use tele_sync.Wire.Tables.{AllFit}
use tele_sync.Wire.RoundTrip.{
  content, length-content, read_table-content, HeaderFits, header, read_type, read_ip, read_port,
  read_data_len,
}

-- The most entries that the 16 bits of data_len have room for.
abbrev pub max_sent : ℕ
max_sent = 240

pub take_whole : (xs : List ℕ) (n : ℕ) → length xs ≡ n → take n xs ≡ xs
take_whole xs n e = ap (take n) (sym (append-nil xs)) ∙ take-append xs [] n e

trans_table_len-small :
    (tft : TransFileTable) → length tft ≤ max_sent → trans_table_len tft < 2 ^ 16
unfolding trans_table_len
trans_table_len-small tft h = omega arith

bare-nil : (type : PtotPacketType) (tft : TransFileTable) → is_bare type tft ≡ true → tft ≡ []
unfolding is_bare
bare-nil peer_register [] h = refl
bare-nil peer_register (te ∷ tft) h = absurd (cc)
bare-nil peer_keep_alive tft h = absurd (cc)
bare-nil peer_file_update tft h = absurd (cc)
bare-nil peer_sync tft h = absurd (cc)
bare-nil (unknown_packet k) tft h = absurd (cc)

ptot_data_len-small : (pkt : PtotPacket) → length pkt.tft ≤ max_sent → ptot_data_len pkt < 2 ^ 16
unfolding ptot_data_len
ptot_data_len-small pkt few = elim (Bool-cases (is_bare pkt.type pkt.tft)) [
  | inl bare ↦ rw bare (omega arith)
  | inr filled ↦ rw filled (trans_table_len-small pkt.tft few)
]

length-ptot_data : (pkt : PtotPacket) → AllFit pkt.tft → length (ptot_data pkt) ≡ ptot_data_len pkt
unfolding ptot_data ptot_data_len
length-ptot_data pkt v = elim (Bool-cases (is_bare pkt.type pkt.tft)) [
  | inl bare ↦ rw bare refl
  | inr filled ↦ rw filled (length-content pkt.tft v)
]

read_nothing : read_table [] ≡ []
unfolding read_table read_entries read_number from_bytes
read_nothing = refl

read_table-ptot_data :
    (pkt : PtotPacket)
    → AllFit pkt.tft
    → length pkt.tft ≤ max_sent
    → read_table (ptot_data pkt) ≡ pkt.tft
unfolding ptot_data
read_table-ptot_data pkt v few = elim (Bool-cases (is_bare pkt.type pkt.tft)) [
  | inl bare ↦ rw bare (read_nothing ∙ sym (bare-nil pkt.type pkt.tft bare))
  | inr filled ↦ rw filled (
      ap read_table (sym (append-nil (content pkt.tft)))
      ∙ read_table-content pkt.tft [] v (omega arith))
]

length-header : (pkt : PtotPacket) → length (header pkt) ≡ ptot_header_size
unfolding ptot_header_bytes
length-header pkt = omega (
  arith,
  length-append (replicate max_name_len 0) (
      to_bytes 2 (packet_number pkt.type)
      ++ (replicate 2 0
          ++ (to_bytes 4 pkt.ip ++ (to_bytes 2 pkt.port ++ to_bytes 2 (ptot_data_len pkt))))),
  length-append (to_bytes 2 (packet_number pkt.type)) (
      replicate 2 0
      ++ (to_bytes 4 pkt.ip ++ (to_bytes 2 pkt.port ++ to_bytes 2 (ptot_data_len pkt)))),
  length-append (replicate 2 0)
      (to_bytes 4 pkt.ip ++ (to_bytes 2 pkt.port ++ to_bytes 2 (ptot_data_len pkt))),
  length-append (to_bytes 4 pkt.ip) (to_bytes 2 pkt.port ++ to_bytes 2 (ptot_data_len pkt)),
  length-append (to_bytes 2 pkt.port) (to_bytes 2 (ptot_data_len pkt)),
  length-to_bytes 2 (packet_number pkt.type),
  length-to_bytes 4 pkt.ip,
  length-to_bytes 2 pkt.port,
  length-to_bytes 2 (ptot_data_len pkt),
  length-replicate {A = ℕ} max_name_len 0,
  length-replicate {A = ℕ} 2 0,
)

ptot_packet_bytes-small :
    (pkt : PtotPacket)
    → AllFit pkt.tft
    → length pkt.tft ≤ max_sent
    → ptot_packet_bytes pkt ≡ header pkt ++ ptot_data pkt
unfolding ptot_packet_bytes
ptot_packet_bytes-small pkt v few =
    take_whole (header pkt ++ ptot_data pkt) (ptot_header_size + ptot_data_len pkt % 2 ^ 16) (
      omega (
        arith,
        length-append (header pkt) (ptot_data pkt),
        length-header pkt,
        length-ptot_data pkt v,
        ptot_data_len-small pkt few,
      ))

read_ptot_packet-bytes :
    (pkt : PtotPacket) (tail : List ℕ)
    → HeaderFits pkt
    → AllFit pkt.tft
    → length pkt.tft ≤ max_sent
    → read_ptot_packet (header pkt ++ (ptot_data pkt ++ tail)) ≡ pkt
unfolding read_ptot_packet
read_ptot_packet-bytes pkt tail u v few =
    let rest : List ℕ = ptot_data pkt ++ tail in
    rw
      (
        read_type pkt rest u,
        read_ip pkt rest u,
        read_port pkt rest u,
        read_data_len pkt rest (omega (arith, ptot_data_len-small pkt few)),
        drop-append (header pkt) rest ptot_header_size (length-header pkt),
        take-append (ptot_data pkt) tail (ptot_data_len pkt) (length-ptot_data pkt v),
        u.type,
        read_table-ptot_data pkt v few,
      )
      refl

-- A registration of a peer, or a packet filled with a table of at most 240 entries whose fields fit, the
-- last entry with at most 15 owners, and whose bytes hold no end mark, is received as it was sent, and what
-- follows stays on the connection.
pub recv_ptot_packet-bytes :
    (pkt : PtotPacket) (rest : List ℕ)
    → HeaderFits pkt
    → AllFit pkt.tft
    → length pkt.tft ≤ max_sent
    → unmarked (ptot_packet_bytes pkt) ≡ true
    → recv_ptot_packet (frame (ptot_packet_bytes pkt) ++ rest) ≡ some (pkt, rest)
unfolding recv_ptot_packet read_received
recv_ptot_packet-bytes pkt rest u v few plain =
    let tail : List ℕ = bang ∷ end_mark ∷ [] in
    let e : closed (ptot_packet_bytes pkt) ≡ header pkt ++ (ptot_data pkt ++ tail) =
      ap closed (ptot_packet_bytes-small pkt v few)
      ∙ append_assoc (header pkt) (ptot_data pkt) tail in
    ap (read_received read_ptot_packet) (recv_segment-frame (ptot_packet_bytes pkt) rest plain)
    ∙ ap (λ b. some (read_ptot_packet b, rest)) e
    ∙ ap (λ p. some (p, rest)) (read_ptot_packet-bytes pkt tail u v few)

-- The fields of what the tracker sends fit.
unfoldable pub TtopFits : TtopPacket → Type 0
TtopFits (tracker_accept ctr_info) = (ctr_info.interval < 256 ^ 4) × (ctr_info.piece_len < 256 ^ 4)
TtopFits (tracker_broadcast tft) = AllFit tft × (length tft ≤ max_sent)
TtopFits (tracker_sync tft) = AllFit tft × (length tft ≤ max_sent)
TtopFits tracker_close = Unit {0}

length-ttop_data : (pkt : TtopPacket) → TtopFits pkt → length (ttop_data pkt) < 2 ^ 16
unfolding ttop_data TtopFits
length-ttop_data (tracker_accept c) v = omega (
  arith,
  length-append (to_bytes 4 c.interval) (to_bytes 4 c.piece_len),
  length-to_bytes 4 c.interval,
  length-to_bytes 4 c.piece_len,
)
length-ttop_data (tracker_broadcast tft) (v, few) =
    omega (arith, length-content tft v, trans_table_len-small tft few)
length-ttop_data (tracker_sync tft) (v, few) =
    omega (arith, length-content tft v, trans_table_len-small tft few)
length-ttop_data tracker_close v = omega arith

ttop_number-lt : (pkt : TtopPacket) → ttop_number pkt < 256 ^ 2
unfolding ttop_number
ttop_number-lt (tracker_accept c) = omega arith
ttop_number-lt (tracker_broadcast tft) = omega arith
ttop_number-lt (tracker_sync tft) = omega arith
ttop_number-lt tracker_close = omega arith

-- The data are read back, whatever was in memory.
read_ttop-data :
    (pkt : TtopPacket) (junk : List ℕ)
    → TtopFits pkt
    → read_ttop (ttop_number pkt) (ttop_data pkt ++ junk) ≡ some pkt
unfolding read_ttop ttop_number ttop_data TtopFits
read_ttop-data (tracker_accept c) junk (i, p) =
    let e : (to_bytes 4 c.interval ++ to_bytes 4 c.piece_len) ++ junk
        ≡ to_bytes 4 c.interval ++ (to_bytes 4 c.piece_len ++ junk) =
      append_assoc (to_bytes 4 c.interval) (to_bytes 4 c.piece_len) junk in
    rw
      (
        e,
        read_here 4 c.interval (to_bytes 4 c.piece_len ++ junk) i,
        read_later (to_bytes 4 c.interval) (to_bytes 4 c.piece_len ++ junk) 4 0 4
            (length-to_bytes 4 c.interval),
        read_here 4 c.piece_len junk p,
      )
      refl
read_ttop-data (tracker_broadcast tft) junk (v, few) =
    ap (λ t. some (tracker_broadcast t)) (read_table-content tft junk v (omega arith))
read_ttop-data (tracker_sync tft) junk (v, few) =
    ap (λ t. some (tracker_sync t)) (read_table-content tft junk v (omega arith))
read_ttop-data tracker_close junk v = refl

module _ (pkt : TtopPacket) (v : TtopFits pkt) where
  abbrev type_bytes : List ℕ
  type_bytes = to_bytes 2 (ttop_number pkt)

  abbrev len_bytes : List ℕ
  len_bytes = to_bytes 2 (length (ttop_data pkt))

  ttop_packet_bytes-small : ttop_packet_bytes pkt ≡ type_bytes ++ (len_bytes ++ ttop_data pkt)
  unfolding ttop_packet_bytes
  ttop_packet_bytes-small =
      take_whole (type_bytes ++ (len_bytes ++ ttop_data pkt)) (4 + length (ttop_data pkt) % 2 ^ 16)
        (omega (
          arith,
          length-append type_bytes (len_bytes ++ ttop_data pkt),
          length-append len_bytes (ttop_data pkt),
          length-to_bytes 2 (ttop_number pkt),
          length-to_bytes 2 (length (ttop_data pkt)),
          length-ttop_data pkt v,
        ))

  read_ttop_packet-bytes :
      (old tail : List ℕ)
      → read_ttop_packet old (type_bytes ++ (len_bytes ++ (ttop_data pkt ++ tail))) ≡ some pkt
  unfolding read_ttop_packet copied_over
  read_ttop_packet-bytes old tail =
      let rest : List ℕ = ttop_data pkt ++ tail in
      rw
        (
          read_here 2 (ttop_number pkt) (len_bytes ++ rest) (ttop_number-lt pkt),
          read_later type_bytes (len_bytes ++ rest) 2 0 2 (length-to_bytes 2 (ttop_number pkt)),
          read_here 2 (length (ttop_data pkt)) rest (omega (arith, length-ttop_data pkt v)),
          drop_later type_bytes (len_bytes ++ rest) 2 2 (length-to_bytes 2 (ttop_number pkt)),
          drop-append len_bytes rest 2 (length-to_bytes 2 (length (ttop_data pkt))),
          take-append (ttop_data pkt) tail (length (ttop_data pkt)) refl,
        )
        (read_ttop-data pkt (drop (length (ttop_data pkt)) old) v)

  -- A packet of the tracker, if it is a table with at most 240 entries whose fields fit, the last entry
  -- with at most 15 owners, and if its bytes hold no end mark, is received as it was sent, whatever was in
  -- the memory of the peer, and what follows stays on the connection.
  pub recv_ttop_packet-bytes :
      (old rest : List ℕ)
      → unmarked (ttop_packet_bytes pkt) ≡ true
      → recv_ttop_packet old (frame (ttop_packet_bytes pkt) ++ rest) ≡ some (some pkt, rest)
  unfolding recv_ttop_packet read_received
  recv_ttop_packet-bytes old rest plain =
      let tail : List ℕ = bang ∷ end_mark ∷ [] in
      let e : closed (ttop_packet_bytes pkt)
          ≡ type_bytes ++ (len_bytes ++ (ttop_data pkt ++ tail)) =
        ap closed ttop_packet_bytes-small ∙ simp append_assoc in
      ap (read_received (read_ttop_packet old))
        (recv_segment-frame (ttop_packet_bytes pkt) rest plain)
      ∙ ap (λ b. some (read_ttop_packet old b, rest)) e
      ∙ ap (λ p. some (p, rest)) (read_ttop_packet-bytes old tail)
