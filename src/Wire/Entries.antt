-- ===== src/Wire/Entries.antt =====
-- An entry of a table, as bytes and back: struct trans_file_entry of include/trans_file_table.h.
use mathlib.Core.List.{append_assoc}
use tele_sync.Prelude.{
  ℕ, zero, suc, ◌+◌, ◌*◌, ◌^◌, ◌≤◌, ◌<◌, ◌≡◌, refl, ap, ◌∙◌, List, [], ◌∷◌, ◌++◌, true, arith,
  length, length-append, length-replicate, replicate, take, drop, take-append, drop-append,
}
use tele_sync.TransTable.{
  FileType, regular, directory, soft_link, PeerId, TransFileEntry, max_peer_entries,
}
use tele_sync.Wire.{
  max_name_len, peer_id_size, op_number, op_of, type_number, type_of, peer_id_bytes, owners_bytes,
  entry_used, read_number, read_peer_id, read_owners, read_entry,
}
use tele_sync.Wire.Bytes.{
  to_bytes, from_bytes, from_bytes-to_bytes, length-to_bytes, padded, length-padded,
  c_string-padded, no_nul,
}

pub drop_later : (a rest : List ℕ) (k o : ℕ) → length a ≡ k → drop (k + o) (a ++ rest) ≡ drop o rest
drop_later [] rest k o e = ap (λ n. drop n rest) (let h : k + o ≡ o = omega arith in h)
drop_later (x ∷ a) rest zero o e = absurd (omega arith)
drop_later (x ∷ a) rest (suc k) o e =
    ap (λ n. drop n (x ∷ (a ++ rest))) (let h : suc k + o ≡ suc (k + o) = omega arith in h)
    ∙ drop_later a rest k o (omega arith)

pub read_later :
    (a rest : List ℕ) (k o n : ℕ)
    → length a ≡ k
    → read_number (k + o) n (a ++ rest) ≡ read_number o n rest
unfolding read_number
read_later a rest k o n e = ap (λ r. from_bytes (take n r)) (drop_later a rest k o e)

pub read_here : (w v : ℕ) (rest : List ℕ) → v < 256 ^ w → read_number 0 w (to_bytes w v ++ rest) ≡ v
unfolding read_number
read_here w v rest h =
    ap from_bytes (take-append (to_bytes w v) rest w (length-to_bytes w v))
    ∙ from_bytes-to_bytes w v h

-- The fields of an owner fit.
abbrev pub IsPeerId : PeerId → Type 0
IsPeerId p = (p.ip < 256 ^ 4) × (p.port < 256 ^ 2)

unfoldable pub AllPeerIds : List PeerId → Type 0
AllPeerIds [] = Unit {0}
AllPeerIds (p ∷ ps) = IsPeerId p × AllPeerIds ps

length-peer_id_bytes : (p : PeerId) → length (peer_id_bytes p) ≡ peer_id_size
unfolding peer_id_bytes
length-peer_id_bytes p = omega (
  arith,
  length-append (to_bytes 4 p.ip) (to_bytes 2 p.port ++ replicate 2 0),
  length-append (to_bytes 2 p.port) (replicate 2 0),
  length-to_bytes 4 p.ip,
  length-to_bytes 2 p.port,
  length-replicate {A = ℕ} 2 0,
)

pub length-owners_bytes : (ps : List PeerId) → length (owners_bytes ps) ≡ peer_id_size * length ps
unfolding owners_bytes
length-owners_bytes [] = refl
length-owners_bytes (p ∷ ps) = omega (
  arith,
  length-append (peer_id_bytes p) (owners_bytes ps),
  length-peer_id_bytes p,
  length-owners_bytes ps,
)

read_peer_id-bytes :
    (p : PeerId) (rest : List ℕ) → IsPeerId p → read_peer_id (peer_id_bytes p ++ rest) ≡ p
unfolding read_peer_id peer_id_bytes
read_peer_id-bytes p rest (h, g) =
    let tail = to_bytes 2 p.port ++ (replicate 2 0 ++ rest) in
    let e : (to_bytes 4 p.ip ++ (to_bytes 2 p.port ++ replicate 2 0)) ++ rest
        ≡ to_bytes 4 p.ip ++ tail =
      simp append_assoc in
    rw
      (
        e,
        read_here 4 p.ip tail h,
        read_later (to_bytes 4 p.ip) tail 4 0 2 (length-to_bytes 4 p.ip),
        read_here 2 p.port (replicate 2 0 ++ rest) g,
      )
      refl

pub read_owners-bytes :
    (ps : List PeerId) (rest : List ℕ)
    → AllPeerIds ps
    → read_owners (length ps) (owners_bytes ps ++ rest) ≡ ps
unfolding read_owners owners_bytes AllPeerIds
read_owners-bytes [] rest v = refl
read_owners-bytes (p ∷ ps) rest (h, v) =
    rw
      (
        append_assoc (peer_id_bytes p) (owners_bytes ps) rest,
        read_peer_id-bytes p (owners_bytes ps ++ rest) h,
        drop-append (peer_id_bytes p) (owners_bytes ps ++ rest) peer_id_size
            (length-peer_id_bytes p),
        read_owners-bytes ps rest v,
      )
      refl

type_of-number : (t : FileType) → type_of (type_number t) ≡ t
unfolding type_of type_number
type_of-number regular = refl
type_of-number directory = refl
type_of-number soft_link = refl

type_number-lt : (t : FileType) → type_number t < 256 ^ 2
unfolding type_number
type_number-lt regular = omega arith
type_number-lt directory = omega arith
type_number-lt soft_link = omega arith

-- The fields of an entry fit, and it has at most `k` owners.
pub record Fits (k : ℕ) (te : TransFileEntry) : Type 0 where
  pub short : length te.name < max_name_len
  pub plain : no_nul te.name ≡ true
  pub time : te.timestamp < 256 ^ 8
  pub op : op_of (op_number te.op_type) ≡ te.op_type
  pub op_small : op_number te.op_type < 256 ^ 2
  pub owners : AllPeerIds te.owners
  pub few : length te.owners ≤ k

abbrev pub laid_out : TransFileEntry → List ℕ → List ℕ
laid_out te tail =
    padded max_name_len te.name
    ++ (to_bytes 8 te.timestamp
        ++ (to_bytes 2 (op_number te.op_type)
            ++ (to_bytes 2 (type_number te.file_type)
                ++ (to_bytes 2 (length te.owners) ++ (replicate 2 0 ++ tail)))))

pub laid_out-used :
    (te : TransFileEntry) (junk : List ℕ)
    → entry_used te ++ junk ≡ laid_out te (owners_bytes te.owners ++ junk)
unfolding entry_used
laid_out-used te junk = simp append_assoc

module _ (te : TransFileEntry) (tail : List ℕ) (k : ℕ) (v : Fits k te) where
  abbrev at_owners : List ℕ
  at_owners = replicate 2 0 ++ tail

  abbrev at_owner_n : List ℕ
  at_owner_n = to_bytes 2 (length te.owners) ++ at_owners

  abbrev at_type : List ℕ
  at_type = to_bytes 2 (type_number te.file_type) ++ at_owner_n

  abbrev at_op : List ℕ
  at_op = to_bytes 2 (op_number te.op_type) ++ at_type

  abbrev at_time : List ℕ
  at_time = to_bytes 8 te.timestamp ++ at_op

  pub length-name : length (padded max_name_len te.name) ≡ max_name_len
  length-name = length-padded max_name_len te.name (omega (arith, v.short))

  read_time : read_number 128 8 (laid_out te tail) ≡ te.timestamp
  read_time =
      read_later (padded max_name_len te.name) at_time 128 0 8 length-name
      ∙ read_here 8 te.timestamp at_op v.time

  -- Behind the name and the time.
  skip_time : (o n : ℕ) → read_number (128 + (8 + o)) n (laid_out te tail) ≡ read_number o n at_op
  skip_time o n =
      read_later (padded max_name_len te.name) at_time 128 (8 + o) n length-name
      ∙ read_later (to_bytes 8 te.timestamp) at_op 8 o n (length-to_bytes 8 te.timestamp)

  read_op : read_number 136 2 (laid_out te tail) ≡ op_number te.op_type
  read_op = skip_time 0 2 ∙ read_here 2 (op_number te.op_type) at_type v.op_small

  skip_op : (o n : ℕ) → read_number (2 + o) n at_op ≡ read_number o n at_type
  skip_op o n =
      read_later (to_bytes 2 (op_number te.op_type)) at_type 2 o n
        (length-to_bytes 2 (op_number te.op_type))

  read_type : read_number 138 2 (laid_out te tail) ≡ type_number te.file_type
  read_type =
      skip_time 2 2
      ∙ skip_op 0 2
      ∙ read_here 2 (type_number te.file_type) at_owner_n (type_number-lt te.file_type)

  read_owner_n :
      length te.owners < 256 ^ 2 → read_number 140 2 (laid_out te tail) ≡ length te.owners
  read_owner_n few =
      skip_time 4 2
      ∙ skip_op 2 2
      ∙ read_later (to_bytes 2 (type_number te.file_type)) at_owner_n 2 0 2
          (length-to_bytes 2 (type_number te.file_type))
      ∙ read_here 2 (length te.owners) at_owners few

  drop-owners : drop 144 (laid_out te tail) ≡ tail
  drop-owners =
      drop_later (padded max_name_len te.name) at_time 128 16 length-name
      ∙ drop_later (to_bytes 8 te.timestamp) at_op 8 8 (length-to_bytes 8 te.timestamp)
      ∙ drop_later (to_bytes 2 (op_number te.op_type)) at_type 2 6
          (length-to_bytes 2 (op_number te.op_type))
      ∙ drop_later (to_bytes 2 (type_number te.file_type)) at_owner_n 2 4
          (length-to_bytes 2 (type_number te.file_type))
      ∙ drop_later (to_bytes 2 (length te.owners)) at_owners 2 2
          (length-to_bytes 2 (length te.owners))
      ∙ drop-append (replicate 2 0) tail 2 (length-replicate {A = ℕ} 2 0)

-- An entry is read from the bytes up to its last owner, whatever follows them.
pub read_entry-used :
    (te : TransFileEntry) (k : ℕ) (junk : List ℕ)
    → Fits k te
    → k ≤ max_peer_entries
    → read_entry (entry_used te ++ junk) ≡ te
unfolding read_entry
read_entry-used te k junk v small =
    let tail = owners_bytes te.owners ++ junk in
    rw
      (
        laid_out-used te junk,
        read_time te tail k v,
        read_op te tail k v,
        read_type te tail k v,
        read_owner_n te tail k v (omega (arith, v.few)),
        drop-owners te tail k v,
        read_owners-bytes te.owners junk v.owners,
        v.op,
        type_of-number te.file_type,
        take-append (padded max_name_len te.name) (at_time te tail k v) max_name_len
            (length-name te tail k v),
        c_string-padded max_name_len te.name v.short v.plain,
      )
      refl
