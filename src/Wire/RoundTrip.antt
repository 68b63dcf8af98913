-- ===== src/Wire/RoundTrip.antt =====
-- A packet with a table on its way from a peer to the tracker: client/packet.c and server/packet.c.
use mathlib.Core.List.{append_assoc}
use tele_sync.Prelude.{
  ℕ, ◌+◌, ◌-◌, ◌*◌, ◌^◌, ◌<◌, ◌≡◌, refl, ap, ◌∙◌, List, [], ◌∷◌, ◌++◌, arith, length, length-take,
  length-append, length-replicate, replicate, take, drop, drop-append,
}
use tele_sync.TransTable.{TransFileTable}
use tele_sync.Server.Peers.{PtotPacket}
use tele_sync.Wire.{
  max_name_len, entry_size, entries_bytes, table_bytes, trans_table_len, ptot_data_len,
  packet_number, packet_type_of, ptot_header_bytes, read_number, read_entries, read_table,
}
use tele_sync.Wire.Bytes.{to_bytes, length-to_bytes}
use tele_sync.Wire.Entries.{read_here, read_later, drop_later}
use tele_sync.Wire.Tables.{AllFit, take_later, read_entries-bytes, length-entries_bytes}

-- The data of a packet with a table.
abbrev pub content : TransFileTable → List ℕ
content tft = take (trans_table_len tft) (table_bytes tft)

pub length-content :
    (tft : TransFileTable) → AllFit tft → length (content tft) ≡ trans_table_len tft
unfolding table_bytes trans_table_len
length-content tft v = ground (
  arith,
  length-take (4 + length tft * entry_size)
      (to_bytes 4 (length tft) ++ (replicate 4 0 ++ entries_bytes tft)),
  length-append (to_bytes 4 (length tft)) (replicate 4 0 ++ entries_bytes tft),
  length-append (replicate 4 0) (entries_bytes tft),
  length-to_bytes 4 (length tft),
  length-replicate {A = ℕ} 4 0,
  length-entries_bytes tft v,
)

-- The part of the data behind the number of entries.
abbrev behind_n : TransFileTable → List ℕ
behind_n tft = take (length tft * entry_size) (replicate 4 0 ++ entries_bytes tft)

content-split : (tft : TransFileTable) → content tft ≡ to_bytes 4 (length tft) ++ behind_n tft
unfolding table_bytes trans_table_len
content-split tft =
    let n = to_bytes 4 (length tft) in
    ap (λ k. take k (n ++ (replicate 4 0 ++ entries_bytes tft)))
      (let e : 4 + length tft * entry_size ≡ length n + length tft * entry_size =
          omega (arith, length-to_bytes 4 (length tft)) in
        e)
    ∙ take_later n (replicate 4 0 ++ entries_bytes tft) (length tft * entry_size)

read_behind_n :
    (tft : TransFileTable) (junk : List ℕ)
    → AllFit tft
    → read_entries (length tft) (drop 4 (behind_n tft ++ junk)) ≡ tft
unfolding read_entries
read_behind_n [] junk v = refl
read_behind_n (te ∷ tft) junk v =
    let m = length (te ∷ tft) * entry_size - 4 in
    let tail : List ℕ = take m (entries_bytes (te ∷ tft)) in
    let e : behind_n (te ∷ tft) ++ junk ≡ replicate 4 0 ++ (tail ++ junk) =
      ap (λ k. take k (replicate 4 0 ++ entries_bytes (te ∷ tft)) ++ junk)
        (let h : length (te ∷ tft) * entry_size ≡ length (replicate {A = ℕ} 4 0) + m =
            omega (arith, length-replicate {A = ℕ} 4 0) in
          h)
      ∙ ap (λ l. l ++ junk) (take_later (replicate 4 0) (entries_bytes (te ∷ tft)) m)
      ∙ append_assoc (replicate 4 0) tail junk in
    ap (λ l. read_entries (length (te ∷ tft)) (drop 4 l)) e
    ∙ ap (read_entries (length (te ∷ tft)))
        (drop-append (replicate 4 0) (tail ++ junk) 4 (length-replicate {A = ℕ} 4 0))
    ∙ read_entries-bytes (te ∷ tft) junk v

-- The table is read from the data, whatever stands behind it in memory.
pub read_table-content :
    (tft : TransFileTable) (junk : List ℕ)
    → AllFit tft
    → length tft < 256 ^ 4
    → read_table (content tft ++ junk) ≡ tft
unfolding read_table
read_table-content tft junk v small =
    let n = to_bytes 4 (length tft) in
    let e : content tft ++ junk ≡ n ++ (behind_n tft ++ junk) =
      ap (λ l. l ++ junk) (content-split tft) ∙ append_assoc n (behind_n tft) junk in
    rw
      (
        e,
        read_here 4 (length tft) (behind_n tft ++ junk) small,
        drop_later n (behind_n tft ++ junk) 4 4 (length-to_bytes 4 (length tft)),
      )
      (read_behind_n tft junk v)

-- The header fields fit.
pub record HeaderFits (pkt : PtotPacket) : Type 0 where
  pub type : packet_type_of (packet_number pkt.type) ≡ pkt.type
  pub type_small : packet_number pkt.type < 256 ^ 2
  pub ip : pkt.ip < 256 ^ 4
  pub port : pkt.port < 256 ^ 2

abbrev pub header : PtotPacket → List ℕ
header pkt = ptot_header_bytes pkt.type pkt.ip pkt.port (ptot_data_len pkt)

module _ (pkt : PtotPacket) (tail : List ℕ) where
  abbrev at_len : List ℕ
  at_len = to_bytes 2 (ptot_data_len pkt) ++ tail

  abbrev at_port : List ℕ
  at_port = to_bytes 2 pkt.port ++ at_len

  abbrev at_ip : List ℕ
  at_ip = to_bytes 4 pkt.ip ++ at_port

  abbrev at_pad : List ℕ
  at_pad = replicate 2 0 ++ at_ip

  abbrev at_type : List ℕ
  at_type = to_bytes 2 (packet_number pkt.type) ++ at_pad

  header-split : header pkt ++ tail ≡ replicate max_name_len 0 ++ at_type
  unfolding ptot_header_bytes
  header-split = simp append_assoc

  skip_name : (o n : ℕ) → read_number (128 + o) n (header pkt ++ tail) ≡ read_number o n at_type
  skip_name o n =
      ap (read_number (128 + o) n) header-split
      ∙ read_later (replicate max_name_len 0) at_type 128 o n
          (length-replicate {A = ℕ} max_name_len 0)

  pub read_type : HeaderFits pkt → read_number 128 2 (header pkt ++ tail) ≡ packet_number pkt.type
  read_type v = skip_name 0 2 ∙ read_here 2 (packet_number pkt.type) at_pad v.type_small

  skip_pad :
      (o n : ℕ) → read_number (128 + (2 + (2 + o))) n (header pkt ++ tail) ≡ read_number o n at_ip
  skip_pad o n =
      skip_name (2 + (2 + o)) n
      ∙ read_later (to_bytes 2 (packet_number pkt.type)) at_pad 2 (2 + o) n
          (length-to_bytes 2 (packet_number pkt.type))
      ∙ read_later (replicate 2 0) at_ip 2 o n (length-replicate {A = ℕ} 2 0)

  pub read_ip : HeaderFits pkt → read_number 132 4 (header pkt ++ tail) ≡ pkt.ip
  read_ip v = skip_pad 0 4 ∙ read_here 4 pkt.ip at_port v.ip

  pub read_port : HeaderFits pkt → read_number 136 2 (header pkt ++ tail) ≡ pkt.port
  read_port v =
      skip_pad 4 2
      ∙ read_later (to_bytes 4 pkt.ip) at_port 4 0 2 (length-to_bytes 4 pkt.ip)
      ∙ read_here 2 pkt.port at_len v.port

  pub read_data_len :
      ptot_data_len pkt < 256 ^ 2 → read_number 138 2 (header pkt ++ tail) ≡ ptot_data_len pkt
  read_data_len small =
      skip_pad 6 2
      ∙ read_later (to_bytes 4 pkt.ip) at_port 4 2 2 (length-to_bytes 4 pkt.ip)
      ∙ read_later (to_bytes 2 pkt.port) at_len 2 0 2 (length-to_bytes 2 pkt.port)
      ∙ read_here 2 (ptot_data_len pkt) tail small
