-- ===== src/FileMonitor/Agreement.antt =====
-- The file monitor of a peer and the tracker: `handle_event` of client/file_monitor.c changes the peer's
-- table, `peer_file_update_task` of server/start.c does the same to the tracker's.
use tele_sync.Prelude.{
  ℕ, ◌≡◌, refl, sym, ap, ◌∙◌, List, [], ◌∷◌, ◌++◌, Option, none, some, Bool, true, false, arith,
  ◌&&◌, get_or, ltb, length, Bool-cases, inl, inr,
}
use tele_sync.TransTable.{
  OperationType, file_none, file_add, file_delete, file_modify, unknown_op, TransFileEntry,
  TransFileTable, blank_entry, max_file_entries,
}
use tele_sync.FileTable.{FileEntry, FileTable, file_table_search}
use tele_sync.FileTable.Refines.{
  Writes, merged, refreshed, file_table_add-Writes, file_table_update-Writes,
  file_table_delete-Writes, unchanged-Writes,
}
use tele_sync.FileTable.Valid.{IsValid}
use tele_sync.Server.{Tracker}
use tele_sync.Client.Packets.{ptot_packet_init, ptot_packet_fill}
use tele_sync.Server.Update.{update_as, update_entry, update_entries, peer_file_update_task}
use tele_sync.Server.Update.Stored.{reported, update_entry-Writes}
use tele_sync.Server.Sync.Versions.{version, version-merged}
use tele_sync.FileMonitor.Watch.{MonitorTarget, MonitorTable}
use tele_sync.FileMonitor.Events.{
  InotifyEvent, operation_of, tricky_string, update_local, filled_slot, Handled, handle_event,
  Round, event_names, next_slot, event_for, one_event, all_events, monitor_turn,
}

-- Two tables with the same versions.
record Agree (a b : FileTable) : Type 0 where
  pub left : IsValid a
  pub right : IsValid b
  pub same : (q : List ℕ) → version (file_table_search a q) ≡ version (file_table_search b q)

-- What the local update makes of the entry of that name.
unfoldable stored : Option FileEntry → TransFileEntry → OperationType → Option FileEntry
stored o te file_add = some (merged o te)
stored o te file_modify = refreshed o te
stored o te file_delete = none
stored o te file_none = o
stored o te (unknown_op k) = o

update_local-Writes :
    {t : FileTable} (v : IsValid t) (te : TransFileEntry) (op : OperationType)
    → Writes t te.name (stored (file_table_search t te.name) te op) (update_local op t te)
unfolding update_local stored
update_local-Writes v te file_add = (file_table_add-Writes v te).1
update_local-Writes v te file_modify = (file_table_update-Writes v te).1
update_local-Writes v te file_delete = (file_table_delete-Writes v te).1
update_local-Writes v te file_none = unchanged-Writes v te.name
update_local-Writes v te (unknown_op k) = unchanged-Writes v te.name

-- A modification needs an entry to modify.
unfoldable pub can_modify : OperationType → Option FileEntry → Bool
can_modify file_modify none = false
can_modify file_modify (some fe) = true
can_modify file_none o = true
can_modify file_add o = true
can_modify file_delete o = true
can_modify (unknown_op k) o = true

-- The same report makes the same version.
same_versions :
    (a b : Option FileEntry) (te : TransFileEntry) (op : OperationType)
    → version a ≡ version b
    → can_modify op a ≡ true
    → version (stored a te op) ≡ version (reported b te op)
unfolding stored reported refreshed can_modify
same_versions a b te file_add h m = version-merged a te ∙ rw h (sym (version-merged b te))
same_versions none b te file_modify h m = absurd (cc)
same_versions (some fe) b te file_modify h m =
    version-merged (some fe) te ∙ rw h (sym (version-merged b te))
same_versions a b te file_delete h m = refl
same_versions a b te file_none h m = h
same_versions a b te (unknown_op k) h m = h

both_updated :
    (a b : FileTable) (te : TransFileEntry)
    → Agree a b
    → can_modify te.op_type (file_table_search a te.name) ≡ true
    → Agree (update_local te.op_type a te) (update_entry b te).0
both_updated a b te g m =
    let w = update_local-Writes g.left te te.op_type in
    let u = update_entry-Writes g.right te in
    record {
      left = w.valid;
      right = u.valid;
      same = λ q. ground (
        arith,
        w.reads q,
        u.reads q,
        g.same q,
        same_versions (file_table_search a te.name) (file_table_search b te.name) te te.op_type
            (g.same te.name) m,
      );
    }

update_entry-none :
    (t : FileTable) (te : TransFileEntry) → te.op_type ≡ file_none → (update_entry t te).0 ≡ t
unfolding update_entry update_as
update_entry-none t te h = rw h refl

update_entries-append :
    (t : FileTable) (new a : TransFileTable) (te : TransFileEntry)
    → (update_entries t new (a ++ te ∷ [])).0 ≡ (update_entry (update_entries t new a).0 te).0
unfolding update_entries
update_entries-append t new [] te = refl
update_entries-append t new (x ∷ a) te =
    update_entries-append (update_entry t x).0 (new ++ (update_entry t x).1) a te

both_true : (a b : Bool) → (a && b) ≡ true → (a ≡ true) × (b ≡ true)
both_true a b h = (ground arith, ground arith)

module _ (add_watch stat : List ℕ → Option ℕ) (my_ip : ℕ) where
  -- `handle_event` answers 0, and what is modified is in the table.
  unfoldable pub fine_for : Round → InotifyEvent → Option MonitorTarget → Bool
  fine_for round event none = true
  fine_for round event (some target) =
      let (logic, sys) = event_names target event in
      (handle_event add_watch stat my_ip round.table round.ft event
        (record round.slot { name = logic }) sys).ok
      && can_modify (operation_of event.mask) (file_table_search round.ft logic)

  unfoldable pub fine_event : Round → InotifyEvent → Bool
  fine_event round event = fine_for round event (get_or round.table.targets event.wd none)

  unfoldable pub fine_events : Round → List InotifyEvent → Bool
  fine_events round [] = true
  fine_events round (event ∷ events) =
      let later = fine_events (one_event add_watch stat my_ip round event) events in
      fine_event round event && later

  -- The slot is blank, and the tracker that gets the packet has the versions of the peer.
  record Kept (tr : FileTable) (round : Round) : Type 0 where
    pub blank : round.slot ≡ blank_entry
    pub agree : Agree round.ft (update_entries tr [] round.tft).0

  handled-Agree :
      (table : MonitorTable) (ft tr : FileTable) (event : InotifyEvent) (te : TransFileEntry)
      (sys : List ℕ)
      → Agree ft tr
      → te.op_type ≡ file_none
      → can_modify (operation_of event.mask) (file_table_search ft te.name) ≡ true
      → Agree
          (handle_event add_watch stat my_ip table ft event te sys).ft
          (update_entry tr (handle_event add_watch stat my_ip table ft event te sys).te).0
  unfolding handle_event filled_slot
  handled-Agree table ft tr event te sys g fresh m = elim (Bool-cases (tricky_string sys)) [
    | inl e ↦ rw (e, update_entry-none tr te fresh) g
    | inr e ↦ rw e (both_updated ft tr (filled_slot my_ip event.mask (stat sys) te) g m)
  ]

  next_slot-Kept :
      (tr : FileTable) (tft : TransFileTable) (h : Handled)
      → Agree h.ft (update_entry (update_entries tr [] tft).0 h.te).0
      → h.ok ≡ true
      → Kept tr (next_slot tft h)
  unfolding next_slot
  next_slot-Kept tr tft h g ok =
      rw ok (record { blank = refl; agree = rw (update_entries-append tr [] tft h.te) g })

  event_for-Kept :
      (tr : FileTable) (round : Round) (event : InotifyEvent) (o : Option MonitorTarget)
      → Kept tr round
      → fine_for round event o ≡ true
      → Kept tr (event_for add_watch stat my_ip round event o)
  unfolding event_for fine_for
  event_for-Kept tr round event none k fine = k
  event_for-Kept tr round event (some target) k fine =
      let (logic, sys) = event_names target event in
      let te = record round.slot { name = logic } in
      let h = handle_event add_watch stat my_ip round.table round.ft event te sys in
      let (ok, m) =
        both_true h.ok (can_modify (operation_of event.mask) (file_table_search round.ft logic))
          fine in
      next_slot-Kept tr round.tft h
        (handled-Agree round.table round.ft (update_entries tr [] round.tft).0 event te sys k.agree
          (ap (λ (x : TransFileEntry). x.op_type) k.blank) m)
        ok

  all_events-Kept :
      (tr : FileTable) (round : Round) (events : List InotifyEvent)
      → Kept tr round
      → fine_events round events ≡ true
      → Kept tr (all_events add_watch stat my_ip round events)
  unfolding all_events fine_events fine_event one_event
  all_events-Kept tr round [] k fine = k
  all_events-Kept tr round (event ∷ events) k fine =
      let next =
        event_for add_watch stat my_ip round event (get_or round.table.targets event.wd none) in
      let (first, later) =
        both_true (fine_for round event (get_or round.table.targets event.wd none))
          (fine_events next events) fine in
      elim (Bool-cases (ltb (length round.tft) max_file_entries)) [
        | inl e ↦ rw e (
            all_events-Kept tr next events
              (event_for-Kept tr round event (get_or round.table.targets event.wd none) k first)
              later)
        | inr e ↦ rw e k
      ]

  -- If a peer and the tracker have the same version of every file, and the peer can read the time of
  -- every file that its events name and has an entry for every file that they modify, then they have the
  -- same version of every file again when the tracker has taken in the packet of the peer, and both tables
  -- are valid.
  pub monitor_turn-agrees :
      (tracker : Tracker) (conn : ℕ) (table : MonitorTable) (ft : FileTable)
      (events : List InotifyEvent)
      → IsValid ft
      → IsValid tracker.ft
      → ((q : List ℕ) → version (file_table_search ft q) ≡ version (file_table_search tracker.ft q))
      → fine_events (record { table = table; ft = ft; tft = []; slot = blank_entry }) events ≡ true
      → IsValid (monitor_turn add_watch stat my_ip table ft events).0.ft
        × IsValid
            (peer_file_update_task tracker conn
              (monitor_turn add_watch stat my_ip table ft events).1.tft).0.ft
        × ((q : List ℕ)
            → version (file_table_search (monitor_turn add_watch stat my_ip table ft events).0.ft q)
              ≡ version (
                  file_table_search
                    (peer_file_update_task tracker conn
                      (monitor_turn add_watch stat my_ip table ft events).1.tft).0.ft
                    q))
  unfolding monitor_turn peer_file_update_task ptot_packet_init ptot_packet_fill update_entries
  monitor_turn-agrees tracker conn table ft events v w same fine =
      let start : Kept tracker.ft
          (record { table = table; ft = ft; tft = []; slot = blank_entry }) =
        record { blank = refl; agree = record { left = v; right = w; same = same } } in
      let k = all_events-Kept tracker.ft _ events start fine in
      (k.agree.left, k.agree.right, k.agree.same)
