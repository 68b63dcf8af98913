-- ===== src/Tests/Syncing.antt =====
-- A synchronisation byte by byte at small inputs.
use tele_sync.Prelude.{
  some, true, sym, ap, subst, ◌∙◌, length, ◌≤◌, ℕ, ◌≡◌, refl, List, [], ◌∷◌, arith, concat,
  replicate, same_name,
}
use tele_sync.TransTable.{TransFileTable, file_none}
use tele_sync.Hash.{search_bucket, add_bucket, elf_hash, hash_min, hash_32, ilog2, int_key}
use tele_sync.FileTable.Lifetime.{fresh}
use tele_sync.FileTable.{
  FileTable, file_table_search, file_table_add, chain_of, find_in_chain, file_entry_add,
  file_entry_alloc, file_entry_fill_from, peer_id_list_add, already_in_owners,
  trans_entry_fill_from,
}
use tele_sync.FileTable.Sweep.{fill_entries, has_same_owners, same_owners, trans_table_fill_from}
use tele_sync.Server.Sync.{sync_entries, sync_entry}
use tele_sync.Server.{Tracker, tracker_sync, trans_file_search}
use tele_sync.Server.Sync.Versions.{version}
use tele_sync.Convergence.{newest}
use tele_sync.Wire.Tables.{AllFit, owners_left}
use tele_sync.Wire.Entries.{Fits, AllPeerIds}
use tele_sync.Wire.Bytes.{to_bytes, padded, no_nul}
use tele_sync.Wire.Delivery.{max_sent}
use tele_sync.Wire.{
  ptot_packet_bytes, is_bare, ptot_data, ptot_data_len, ttop_packet_bytes, table_bytes,
  entries_bytes, entry_bytes, entry_used, owners_bytes, peer_id_bytes, trans_table_len,
  ptot_header_bytes, packet_number, op_number, op_of, type_number, ttop_number, ttop_data,
}
use tele_sync.Segment.RoundTrip.{unmarked}
use tele_sync.Client.{Action}
use tele_sync.Client.Packets.{sync_packet, ptot_packet_init, ptot_packet_fill}
use tele_sync.Server.Peers.{peer_sync}
use tele_sync.OnTheWire.{sync_on_wire, sync_on_wire-converges}
use tele_sync.Tests.Samples.{
  one_file, one_file-IsValid, two_files, two_files-IsValid, a_of_alice, b_of_bob,
}
use tele_sync.Tests.Tracking.{tracker}

-- What is sent of the two files.
abbrev two_sent : TransFileTable
two_sent = record a_of_alice { op_type = file_none } ∷ record b_of_bob { op_type = file_none } ∷ []

two_files_sent : trans_table_fill_from two_files ≡ two_sent
unfolding trans_table_fill_from fill_entries trans_entry_fill_from fresh file_table_add
    file_table_search chain_of find_in_chain file_entry_add file_entry_alloc file_entry_fill_from
    peer_id_list_add already_in_owners same_name search_bucket add_bucket elf_hash hash_min hash_32
    ilog2 int_key replicate concat
two_files_sent = refl

nothing_answered : sync_entries two_sent (concat one_file.buckets) ≡ []
unfolding sync_entries sync_entry trans_file_search has_same_owners same_owners fresh file_table_add
    file_table_search chain_of find_in_chain file_entry_add file_entry_alloc file_entry_fill_from
    peer_id_list_add already_in_owners same_name search_bucket add_bucket elf_hash hash_min hash_32
    ilog2 int_key replicate concat
nothing_answered = refl

a_sent-Fits : Fits 16 (record a_of_alice { op_type = file_none })
unfolding no_nul op_number op_of AllPeerIds
a_sent-Fits = record {
  short = omega arith;
  plain = refl;
  time = omega arith;
  op = refl;
  op_small = omega arith;
  owners = ((omega arith, omega arith), tt);
  few = omega arith;
}

b_sent-Fits : Fits 15 (record b_of_bob { op_type = file_none })
unfolding no_nul op_number op_of AllPeerIds
b_sent-Fits = record {
  short = omega arith;
  plain = refl;
  time = omega arith;
  op = refl;
  op_small = omega arith;
  owners = ((omega arith, omega arith), tt);
  few = omega arith;
}

two_sent-AllFit : AllFit two_sent
unfolding AllFit owners_left
two_sent-AllFit = (a_sent-Fits, (b_sent-Fits, tt))

two_sent_plain :
    unmarked (ptot_packet_bytes (ptot_packet_fill (ptot_packet_init 1 peer_sync) two_sent)) ≡ true
unfolding ptot_packet_fill ptot_packet_init unmarked ptot_packet_bytes is_bare ptot_data
    ptot_data_len table_bytes entries_bytes entry_bytes entry_used owners_bytes peer_id_bytes
    trans_table_len ptot_header_bytes packet_number op_number type_number to_bytes padded replicate
two_sent_plain = refl

two_files_plain : unmarked (ptot_packet_bytes (sync_packet 1 two_files)) ≡ true
unfolding sync_packet
two_files_plain =
    ap (λ t. unmarked (ptot_packet_bytes (ptot_packet_fill (ptot_packet_init 1 peer_sync) t)))
      two_files_sent
    ∙ two_sent_plain

answer_to_two : sync_entries (trans_table_fill_from two_files) (concat one_file.buckets) ≡ []
answer_to_two = ap (λ t. sync_entries t (concat one_file.buckets)) two_files_sent ∙ nothing_answered

nothing_plain : unmarked (ttop_packet_bytes (tracker_sync [])) ≡ true
unfolding ttop_packet_bytes ttop_number ttop_data unmarked table_bytes entries_bytes entry_bytes
    entry_used owners_bytes peer_id_bytes trans_table_len ptot_header_bytes packet_number op_number
    type_number to_bytes padded replicate
nothing_plain = refl

sync_on_wire-converges_example :
    (tracker' : Tracker) × (synced : FileTable × List Action) × (sync_on_wire 5 7 100 tracker 1
        two_files
        (7 ∷ [])
        (9 ∷ [])
        []
      ≡ some (tracker', synced))
    × ((q : List ℕ)
        → (version (file_table_search tracker'.ft q) ≡ newest one_file two_files q)
          × (version (file_table_search synced.0 q) ≡ newest one_file two_files q))
unfolding AllFit
sync_on_wire-converges_example =
    sync_on_wire-converges 5 7 100 1 tracker one_file-IsValid two_files two_files-IsValid (7 ∷ [])
      (9 ∷ []) [] (omega arith) (subst AllFit (sym two_files_sent) two_sent-AllFit)
      (subst (λ t. length t ≤ max_sent) (sym two_files_sent) (omega arith)) two_files_plain
      (subst AllFit (sym answer_to_two) tt)
      (subst (λ t. length t ≤ max_sent) (sym answer_to_two) (omega arith))
      (ap (λ t. unmarked (ttop_packet_bytes (tracker_sync t))) answer_to_two ∙ nothing_plain)
