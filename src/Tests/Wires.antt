-- ===== src/Tests/Wires.antt =====
-- Packets on the connection, and what two peers learn from each other, at small inputs.
use tele_sync.Prelude.{
  if◌then◌else◌, ℕ, ◌≡◌, refl, List, [], ◌∷◌, ◌++◌, Option, some, arith, true, false, replicate,
  ◌+◌, ◌^◌,
}
use tele_sync.TransTable.{TransFileTable}
use tele_sync.Server.{tracker_broadcast}
use tele_sync.Server.Peers.{PtotPacket, peer_file_update}
use tele_sync.Segment.RoundTrip.{frame, unmarked}
use tele_sync.Wire.{
  ptot_packet_bytes, is_bare, ptot_data, ptot_data_len, recv_ptot_packet, ttop_packet_bytes,
  recv_ttop_packet, table_bytes, entries_bytes, entry_bytes, entry_used, owners_bytes,
  peer_id_bytes, trans_table_len, ptot_header_bytes, packet_number, packet_type_of, op_number,
  op_of, type_number, ttop_number, ttop_data,
}
use tele_sync.Wire.Bytes.{to_bytes, padded, no_nul}
use tele_sync.Wire.Entries.{Fits, AllPeerIds}
use tele_sync.Wire.Tables.{AllFit, owners_left}
use tele_sync.Wire.RoundTrip.{HeaderFits}
use tele_sync.Wire.Delivery.{recv_ptot_packet-bytes, recv_ttop_packet-bytes, TtopFits}
use tele_sync.Dialogue.{
  p2p_port_req, get_file_len_from, get_p2p_download_port, ptop_upload, name_request,
}
use tele_sync.Dialogue.Answers.{get_file_len_from-ptop_upload, get_p2p_download_port-ptop_upload}
use tele_sync.Client.Ports.{get_free_p2p_port, first_free}
use tele_sync.ThreadWait.{
  thread_failed, blocked, thread_running, Call, woken, calls_from, notify, wait_init, wait_for,
  at_start, pthread_wait_init, pthread_wait_for, pthread_wait_notify, signalled, call,
}
use tele_sync.ThreadWait.Wakeup.{calls_from-notified, is_woken, has_waited, no_wake_up, is_wake_up}
use tele_sync.Tests.Samples.{a_of_alice, b_of_bob}

abbrev two_entries : TransFileTable
two_entries = a_of_alice ∷ b_of_bob ∷ []

a_of_alice-Fits : Fits 16 a_of_alice
unfolding no_nul op_number op_of AllPeerIds
a_of_alice-Fits = record {
  short = omega arith;
  plain = refl;
  time = omega arith;
  op = refl;
  op_small = omega arith;
  owners = ((omega arith, omega arith), tt);
  few = omega arith;
}

b_of_bob-Fits : Fits 15 b_of_bob
unfolding no_nul op_number op_of AllPeerIds
b_of_bob-Fits = record {
  short = omega arith;
  plain = refl;
  time = omega arith;
  op = refl;
  op_small = omega arith;
  owners = ((omega arith, omega arith), tt);
  few = omega arith;
}

two_entries-AllFit : AllFit two_entries
unfolding AllFit owners_left
two_entries-AllFit = (a_of_alice-Fits, (b_of_bob-Fits, tt))

abbrev update : PtotPacket
update = record { type = peer_file_update; ip = 1; port = 4192; tft = two_entries }

update-HeaderFits : HeaderFits update
unfolding packet_number packet_type_of
update-HeaderFits = record {
  type = refl;
  type_small = omega arith;
  ip = omega arith;
  port = omega arith;
}

recv_ptot_packet-bytes_example :
    recv_ptot_packet (frame (ptot_packet_bytes update) ++ 7 ∷ []) ≡ some (update, 7 ∷ [])
unfolding unmarked ptot_packet_bytes is_bare ptot_data ptot_data_len table_bytes entries_bytes
    entry_bytes entry_used owners_bytes peer_id_bytes trans_table_len ptot_header_bytes
    packet_number op_number type_number to_bytes padded replicate
recv_ptot_packet-bytes_example =
    recv_ptot_packet-bytes update (7 ∷ []) update-HeaderFits two_entries-AllFit (omega arith) refl

recv_ttop_packet-bytes_example :
    recv_ttop_packet (9 ∷ 9 ∷ []) (frame (ttop_packet_bytes (tracker_broadcast two_entries)) ++ [])
    ≡ some (some (tracker_broadcast two_entries), [])
unfolding unmarked ttop_packet_bytes ttop_number ttop_data table_bytes entries_bytes entry_bytes
    entry_used owners_bytes peer_id_bytes trans_table_len op_number type_number to_bytes padded
    replicate TtopFits
recv_ttop_packet-bytes_example =
    recv_ttop_packet-bytes (tracker_broadcast two_entries) (two_entries-AllFit, omega arith)
      (9 ∷ 9 ∷ []) [] refl

-- The owner keeps "a" under another name, and it is longer than 32 bits can say.
disk_name : List ℕ → Option (List ℕ)
disk_name logic_name = some (b'/' ∷ logic_name)

huge : List ℕ → Option ℕ
huge sys_name = some (2 ^ 32 + 5)

get_file_len_from-ptop_upload_example :
    get_file_len_from (λ req. (ptop_upload disk_name huge true false [] req).reply) (b'a' ∷ []) ≡ 5
unfolding no_nul disk_name huge
get_file_len_from-ptop_upload_example =
    get_file_len_from-ptop_upload disk_name huge false [] (b'a' ∷ []) (b'/' ∷ b'a' ∷ []) refl refl
      (2 ^ 32 + 5) refl

get_p2p_download_port-ptop_upload_example :
    (get_p2p_download_port
        (λ req. (ptop_upload disk_name huge true true (1 ∷ 0 ∷ []) req).reply)
        (b'a' ∷ [])
      ≡ 5101)
    × ((ptop_upload disk_name huge true true
          (1 ∷ 0 ∷ [])
          (name_request p2p_port_req (b'a' ∷ []))).ports
        ≡ 1 ∷ 0 ∷ [])
unfolding no_nul disk_name get_free_p2p_port first_free
get_p2p_download_port-ptop_upload_example =
    get_p2p_download_port-ptop_upload disk_name huge (1 ∷ 0 ∷ []) (b'a' ∷ []) (b'/' ∷ b'a' ∷ [])
      refl refl 5101 (omega arith) refl

-- The client waits before the monitor is ready.
abbrev waits_first : List Call
waits_first = wait_init ∷ wait_for ∷ []

calls_from-notified_example :
    (is_woken woken ≡ has_waited waits_first)
    × ((if has_waited waits_first then thread_running else thread_running) ≡ thread_running)
unfolding calls_from call pthread_wait_init pthread_wait_for pthread_wait_notify signalled
    no_wake_up is_wake_up
calls_from-notified_example =
    calls_from-notified waits_first [] thread_running
      (record { status = thread_running; waiter = woken; notified = true }) refl refl

-- The monitor is ready before the client waits: the client stays where it is.
too_late :
    calls_from (some at_start) (notify thread_running ∷ wait_init ∷ wait_for ∷ [])
    ≡ some (record { status = thread_failed; waiter = blocked; notified = true })
unfolding calls_from call pthread_wait_init pthread_wait_for pthread_wait_notify signalled
too_late = refl
