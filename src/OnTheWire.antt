-- ===== src/OnTheWire.antt =====
-- The first synchronisation byte by byte: `sync_files` of client/start.c sends its packet through
-- utility/segment.c, `receiver_task` of server/start.c receives it, starts its task and sends the answer,
-- and the peer receives that.
use tele_sync.Prelude.{
  ℕ, ◌<◌, ◌≤◌, ◌^◌, ◌≡◌, refl, ap, ◌∙◌, List, [], ◌∷◌, ◌++◌, Option, none, some, true, ◌==◌,
  if◌then◌else◌, length, arith, concat,
}
use tele_sync.TransTable.{TransFileTable}
use tele_sync.FileTable.{FileTable, file_table_search}
use tele_sync.FileTable.Sweep.{trans_table_fill_from}
use tele_sync.FileTable.Valid.{IsValid}
use tele_sync.Server.{Tracker, Outbox, TtopPacket, tracker_sync}
use tele_sync.Server.Sync.{sync_task, sync_entries}
use tele_sync.Server.Sync.Versions.{version}
use tele_sync.Server.Peers.{PtotPacket, Task, dispatch_as, receiver_dispatch, run_task}
use tele_sync.Client.{Action}
use tele_sync.Client.Packets.{sync_packet, sync_files, ptot_packet_init, ptot_packet_fill}
use tele_sync.Convergence.{newest, sync_converges}
use tele_sync.Segment.RoundTrip.{frame, unmarked}
use tele_sync.Wire.{
  ptot_packet_bytes, recv_ptot_packet, ttop_packet_bytes, recv_ttop_packet, packet_number,
  packet_type_of,
}
use tele_sync.Wire.Tables.{AllFit}
use tele_sync.Wire.RoundTrip.{HeaderFits}
use tele_sync.Wire.Delivery.{max_sent, TtopFits, recv_ptot_packet-bytes, recv_ttop_packet-bytes}

-- The first packet that is sent on a connection.
unfoldable pub first_to : ℕ → Outbox → Option TtopPacket
first_to conn [] = none
first_to conn ((c, pkt) ∷ out) = if c == conn then some pkt else first_to conn out

unfoldable pub run_if : ℕ → Tracker → Option Task → Tracker × Outbox
run_if now tracker none = (tracker, [])
run_if now tracker (some task) = run_task true now tracker task

-- A round of the loop of `receiver_task`.
unfoldable pub receive_on :
    ℕ → ℕ → ℕ → Tracker → Option (PtotPacket × List ℕ) → Option (Tracker × Outbox)
receive_on conn my_tid now tracker none = none
receive_on conn my_tid now tracker (some (pkt, rest)) =
    some (run_if now tracker (receiver_dispatch conn my_tid pkt))

unfoldable pub only_packet : Option (Option TtopPacket × List ℕ) → Option TtopPacket
only_packet none = none
only_packet (some (pkt, rest)) = pkt

-- The answer on its way to the peer: `old` is in the peer's memory, `later` comes behind.
unfoldable pub delivered : List ℕ → List ℕ → Option TtopPacket → Option TtopPacket
delivered old later none = none
delivered old later (some pkt) =
    only_packet (recv_ttop_packet old (frame (ttop_packet_bytes pkt) ++ later))

unfoldable pub both_sides :
    Tracker → Option (FileTable × List Action) → Option (Tracker × (FileTable × List Action))
both_sides tracker none = none
both_sides tracker (some synced) = some (tracker, synced)

unfoldable pub answer_taken :
    ℕ
    → ℕ
    → FileTable
    → List ℕ
    → List ℕ
    → Option (Tracker × Outbox)
    → Option (Tracker × (FileTable × List Action))
answer_taken conn my_ip mine old later none = none
answer_taken conn my_ip mine old later (some (tracker, out)) =
    both_sides tracker (sync_files my_ip mine (delivered old later (first_to conn out)))

-- The whole exchange; `more` comes behind the packet of the peer.
unfoldable pub sync_on_wire :
    ℕ
    → ℕ
    → ℕ
    → Tracker
    → ℕ
    → FileTable
    → List ℕ
    → List ℕ
    → List ℕ
    → Option (Tracker × (FileTable × List Action))
sync_on_wire conn my_tid now tracker my_ip mine more old later =
    answer_taken conn my_ip mine old later (
      receive_on conn my_tid now tracker
        (recv_ptot_packet (frame (ptot_packet_bytes (sync_packet my_ip mine)) ++ more)))

first_to-head :
    (conn : ℕ) (pkt : TtopPacket) (out : Outbox) → first_to conn ((conn, pkt) ∷ out) ≡ some pkt
unfolding first_to
first_to-head conn pkt out = ground arith

sync_packet-HeaderFits :
    (my_ip : ℕ) (mine : FileTable) → my_ip < 256 ^ 4 → HeaderFits (sync_packet my_ip mine)
unfolding sync_packet ptot_packet_init ptot_packet_fill packet_number packet_type_of
sync_packet-HeaderFits my_ip mine small = record {
  type = refl;
  type_small = omega arith;
  ip = small;
  port = omega arith;
}

module _ (conn my_tid now my_ip : ℕ) (tracker : Tracker) (v : IsValid tracker.ft) (mine : FileTable)
    (u : IsValid mine) where
  -- The table of the peer, and what the tracker answers.
  abbrev sent : TransFileTable
  sent = trans_table_fill_from mine

  abbrev answer : TransFileTable
  answer = sync_entries sent (concat tracker.ft.buckets)

  exchange :
      (more old later : List ℕ)
      → my_ip < 256 ^ 4
      → AllFit sent
      → length sent ≤ max_sent
      → unmarked (ptot_packet_bytes (sync_packet my_ip mine)) ≡ true
      → AllFit answer
      → length answer ≤ max_sent
      → unmarked (ttop_packet_bytes (tracker_sync answer)) ≡ true
      → sync_on_wire conn my_tid now tracker my_ip mine more old later
        ≡ both_sides
            (sync_task tracker conn sent).0
            (sync_files my_ip mine (some (tracker_sync answer)))
  unfolding sync_on_wire answer_taken receive_on run_if receiver_dispatch dispatch_as run_task
      sync_packet ptot_packet_init ptot_packet_fill sync_task delivered only_packet TtopFits
  exchange more old later small fits few plain fits' few' plain' =
      let arrives =
        recv_ptot_packet-bytes (sync_packet my_ip mine) more
          (sync_packet-HeaderFits my_ip mine small) fits few plain in
      let answers : delivered old later (some (tracker_sync answer)) ≡ some (tracker_sync answer) =
        ap only_packet
          (recv_ttop_packet-bytes (tracker_sync answer) (fits', few') old later plain') in
      ap (λ p. answer_taken conn my_ip mine old later (receive_on conn my_tid now tracker p))
        arrives
      ∙ ap
          (λ p.
            both_sides (sync_task tracker conn sent).0
              (sync_files my_ip mine (delivered old later p)))
          (first_to-head conn (tracker_sync answer) _)
      ∙ ap (λ p. both_sides (sync_task tracker conn sent).0 (sync_files my_ip mine p)) answers

  -- If the tables that a peer and the tracker exchange fit into their packets, the peer's address fits,
  -- and no packet holds an end mark, then the synchronisation of a peer, byte by byte over the connection,
  -- succeeds, whatever comes behind the packets and whatever was in the peer's memory, and both sides have
  -- the greater of their two versions of every file.
  pub sync_on_wire-converges :
      (more old later : List ℕ)
      → my_ip < 256 ^ 4
      → AllFit sent
      → length sent ≤ max_sent
      → unmarked (ptot_packet_bytes (sync_packet my_ip mine)) ≡ true
      → AllFit answer
      → length answer ≤ max_sent
      → unmarked (ttop_packet_bytes (tracker_sync answer)) ≡ true
      → (tracker' : Tracker) × (synced : FileTable × List Action) × (sync_on_wire conn my_tid now
            tracker my_ip mine more old later
          ≡ some (tracker', synced))
        × ((q : List ℕ)
            → (version (file_table_search tracker'.ft q) ≡ newest tracker.ft mine q)
              × (version (file_table_search synced.0 q) ≡ newest tracker.ft mine q))
  unfolding both_sides sync_files sync_task
  sync_on_wire-converges more old later small fits few plain fits' few' plain' = (
    _,
    _,
    exchange more old later small fits few plain fits' few' plain',
    λ q. sync_converges tracker v u conn my_ip answer _ refl q,
  )
