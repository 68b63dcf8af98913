-- ===== src/Wire/Tables.antt =====
-- A whole table as the data of a packet, and back: `trans_table_len` of include/trans_file_table.h bytes of
-- the table are sent.
use mathlib.Core.List.{append_assoc}
use tele_sync.Prelude.{
  ℕ, suc, ◌+◌, ◌-◌, ◌*◌, ◌≤◌, ◌≡◌, refl, ap, ◌∙◌, List, [], ◌∷◌, ◌++◌, arith, length, length-append,
  length-replicate, replicate, take, take-append, drop-append,
}
use tele_sync.TransTable.{TransFileEntry, TransFileTable, max_peer_entries}
use tele_sync.Wire.{
  max_name_len, peer_id_size, entry_size, op_number, type_number, owners_bytes, entry_used,
  entry_bytes, entries_bytes, read_entry, read_entries,
}
use tele_sync.Wire.Bytes.{to_bytes, length-to_bytes, padded}
use tele_sync.Wire.Entries.{Fits, length-name, length-owners_bytes, read_entry-used}

-- A take that ends behind a first part, or at its end.
pub take_later : (a rest : List ℕ) (n : ℕ) → take (length a + n) (a ++ rest) ≡ a ++ take n rest
take_later [] rest n = ap (λ k. take k rest) (let h : 0 + n ≡ n = omega arith in h)
take_later (x ∷ a) rest n =
    ap (λ k. take k (x ∷ (a ++ rest)))
      (let h : suc (length a) + n ≡ suc (length a + n) = omega arith in h)
    ∙ ap (x ∷◌) (take_later a rest n)

pub take_behind :
    (a rest : List ℕ) (n : ℕ) → length a ≤ n → take n (a ++ rest) ≡ a ++ take (n - length a) rest
take_behind a rest n h =
    ap (λ m. take m (a ++ rest)) (let e : n ≡ length a + (n - length a) = omega arith in e)
    ∙ take_later a rest (n - length a)

length-entry_used :
    (te : TransFileEntry) (k : ℕ)
    → Fits k te
    → length (entry_used te) ≡ 144 + peer_id_size * length te.owners
unfolding entry_used
length-entry_used te k v = omega (
  arith,
  length-name te [] k v,
  length-append (padded max_name_len te.name) (
      to_bytes 8 te.timestamp
      ++ (to_bytes 2 (op_number te.op_type)
          ++ (to_bytes 2 (type_number te.file_type)
              ++ (to_bytes 2 (length te.owners) ++ (replicate 2 0 ++ owners_bytes te.owners))))),
  length-append (to_bytes 8 te.timestamp) (
      to_bytes 2 (op_number te.op_type)
      ++ (to_bytes 2 (type_number te.file_type)
          ++ (to_bytes 2 (length te.owners) ++ (replicate 2 0 ++ owners_bytes te.owners)))),
  length-append (to_bytes 2 (op_number te.op_type)) (
      to_bytes 2 (type_number te.file_type)
      ++ (to_bytes 2 (length te.owners) ++ (replicate 2 0 ++ owners_bytes te.owners))),
  length-append (to_bytes 2 (type_number te.file_type))
      (to_bytes 2 (length te.owners) ++ (replicate 2 0 ++ owners_bytes te.owners)),
  length-append (to_bytes 2 (length te.owners)) (replicate 2 0 ++ owners_bytes te.owners),
  length-append (replicate 2 0) (owners_bytes te.owners),
  length-to_bytes 8 te.timestamp,
  length-to_bytes 2 (op_number te.op_type),
  length-to_bytes 2 (type_number te.file_type),
  length-to_bytes 2 (length te.owners),
  length-replicate {A = ℕ} 2 0,
  length-owners_bytes te.owners,
)

length-entry_bytes :
    (te : TransFileEntry) → Fits max_peer_entries te → length (entry_bytes te) ≡ entry_size
unfolding entry_bytes
length-entry_bytes te v = omega (
  arith,
  length-entry_used te max_peer_entries v,
  v.few,
  length-append (entry_used te)
      (replicate (peer_id_size * (max_peer_entries - length te.owners)) 0),
  length-replicate {A = ℕ} (peer_id_size * (max_peer_entries - length te.owners)) 0,
)

-- The last entry has room for one owner less: `trans_table_len` is four bytes short.
unfoldable pub owners_left : TransFileTable → ℕ
owners_left [] = 15
owners_left (te ∷ tft) = max_peer_entries

unfoldable pub AllFit : TransFileTable → Type 0
AllFit [] = Unit {0}
AllFit (te ∷ tft) = Fits (owners_left tft) te × AllFit tft

-- An entry is read from the start of the bytes up to its last owner.
read_entry-start :
    (te : TransFileEntry) (k n : ℕ) (junk : List ℕ)
    → Fits k te
    → k ≤ max_peer_entries
    → 144 + peer_id_size * k ≤ n
    → read_entry (take n (entry_used te ++ junk)) ≡ te
read_entry-start te k n junk v small h =
    ap read_entry
      (take_behind (entry_used te) junk n (omega (arith, length-entry_used te k v, v.few)))
    ∙ read_entry-used te k (take (n - length (entry_used te)) junk) v small

-- The last entry, of which four bytes are missing.
last_entry :
    (te : TransFileEntry) (junk : List ℕ)
    → Fits 15 te
    → read_entry (take entry_size (take 268 (entry_bytes te ++ []) ++ junk)) ≡ te
unfolding entry_bytes
last_entry te junk v =
    let zeros : List ℕ = replicate (peer_id_size * (max_peer_entries - length te.owners)) 0 ++ [] in
    let cut : List ℕ = take (268 - length (entry_used te)) zeros in
    let e : take 268 (entry_bytes te ++ []) ++ junk ≡ entry_used te ++ (cut ++ junk) =
      ap (λ l. take 268 l ++ junk)
        (append_assoc (entry_used te)
          (replicate (peer_id_size * (max_peer_entries - length te.owners)) 0) [])
      ∙ ap (λ l. l ++ junk)
          (take_behind (entry_used te) zeros 268 (omega (arith, length-entry_used te 15 v, v.few)))
      ∙ append_assoc (entry_used te) cut junk in
    ap (λ l. read_entry (take entry_size l)) e
    ∙ read_entry-start te 15 entry_size (cut ++ junk) v (omega arith) (omega arith)

first_entry : (te : TransFileEntry) → Fits max_peer_entries te → read_entry (entry_bytes te) ≡ te
unfolding entry_bytes
first_entry te v =
    read_entry-used te max_peer_entries
      (replicate (peer_id_size * (max_peer_entries - length te.owners)) 0) v (omega arith)

-- The entries, less four bytes, and anything behind them.
pub read_entries-bytes :
    (tft : TransFileTable) (junk : List ℕ)
    → AllFit tft
    → read_entries (length tft) (take (length tft * entry_size - 4) (entries_bytes tft) ++ junk)
      ≡ tft
unfolding read_entries entries_bytes AllFit owners_left
read_entries-bytes [] junk v = refl
read_entries-bytes (te ∷ []) junk (v, _) = ap (λ x. x ∷ []) (last_entry te junk v)
read_entries-bytes (te ∷ te' ∷ tft) junk (v, w) =
    let m = length (te' ∷ tft) * entry_size - 4 in
    let rest = take m (entries_bytes (te' ∷ tft)) ++ junk in
    let e : take (length (te ∷ te' ∷ tft) * entry_size - 4)
            (entry_bytes te ++ entries_bytes (te' ∷ tft))
          ++ junk
        ≡ entry_bytes te ++ rest =
      ap (λ k. take k (entry_bytes te ++ entries_bytes (te' ∷ tft)) ++ junk)
        (let h : length (te ∷ te' ∷ tft) * entry_size - 4 ≡ length (entry_bytes te) + m =
            omega (arith, length-entry_bytes te v) in
          h)
      ∙ ap (λ l. l ++ junk) (take_later (entry_bytes te) (entries_bytes (te' ∷ tft)) m)
      ∙ append_assoc (entry_bytes te) (take m (entries_bytes (te' ∷ tft))) junk in
    rw
      (
        e,
        take-append (entry_bytes te) rest entry_size (length-entry_bytes te v),
        drop-append (entry_bytes te) rest entry_size (length-entry_bytes te v),
        read_entries-bytes (te' ∷ tft) junk w,
      )
      (ap (λ x. x ∷ (te' ∷ tft)) (first_entry te v))

Fits-more : (te : TransFileEntry) → Fits 15 te → Fits max_peer_entries te
Fits-more te v = record {
  short = v.short;
  plain = v.plain;
  time = v.time;
  op = v.op;
  op_small = v.op_small;
  owners = v.owners;
  few = omega (arith, v.few);
}

pub length-entries_bytes :
    (tft : TransFileTable) → AllFit tft → length (entries_bytes tft) ≡ length tft * entry_size
unfolding entries_bytes AllFit owners_left
length-entries_bytes [] v = refl
length-entries_bytes (te ∷ []) (v, w) = omega (
  arith,
  length-append (entry_bytes te) (entries_bytes []),
  length-entry_bytes te (Fits-more te v),
  length-entries_bytes [] w,
)
length-entries_bytes (te ∷ te' ∷ tft) (v, w) = omega (
  arith,
  length-append (entry_bytes te) (entries_bytes (te' ∷ tft)),
  length-entry_bytes te v,
  length-entries_bytes (te' ∷ tft) w,
)
