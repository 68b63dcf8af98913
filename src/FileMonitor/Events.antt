-- ===== src/FileMonitor/Events.antt =====
-- client/file_monitor.c: what a peer makes of the events of inotify. `add_watch` and `stat` are what
-- `inotify_add_watch` and `stat` answer for a name, the latter the modification time.
use tele_sync.Prelude.{
  ℕ, List, [], ◌∷◌, ◌++◌, Option, none, some, Bool, true, false, if◌then◌else◌, same_name, get_or,
  ltb, length,
}
use tele_sync.TransTable.{
  FileType, regular, directory, soft_link, OperationType, file_none, file_add, file_delete,
  file_modify, unknown_op, TransFileEntry, TransFileTable, blank_entry, max_file_entries,
}
use tele_sync.FileTable.{FileTable, file_table_add, file_table_update, file_table_delete}
use tele_sync.Server.Peers.{peer_file_update, PtotPacket}
use tele_sync.Client.Packets.{p2p_port, ptot_packet_init, ptot_packet_fill}
use tele_sync.FileMonitor.{path}
use tele_sync.FileMonitor.Watch.{
  MonitorTarget, MonitorTable, unwatch_and_free_target, watch_target_add, rindex,
}

-- The bits of `event->mask` that the code tests.
pub record Mask : Type 0 where
  pub in_isdir : Bool
  pub in_create : Bool
  pub in_delete : Bool
  pub in_delete_self : Bool
  pub in_modify : Bool
  pub in_move_self : Bool
  pub in_moved_from : Bool
  pub in_moved_to : Bool
  pub in_attrib : Bool

-- `name` is the string that stands at `event->name`, also where `len` is 0.
pub record InotifyEvent : Type 0 where
  pub wd : ℕ
  pub mask : Mask
  pub len : ℕ
  pub name : List ℕ

abbrev pub tricky_name : List ℕ
tricky_name = b'4' ∷ b'9' ∷ b'1' ∷ b'3' ∷ []

unfoldable pub after_slash : List ℕ → List ℕ
after_slash [] = []
after_slash (c ∷ cs) = cs

unfoldable pub tricky_string : List ℕ → Bool
tricky_string sys_name = elim (rindex sys_name) [
  | none ↦ false
  | some (before, rest) ↦ same_name (after_slash rest) tricky_name
]

-- The operation that the chain of tests finds.
unfoldable pub operation_of : Mask → OperationType
operation_of mask =
    if mask.in_create
    then file_add
    else if mask.in_delete
    then file_delete
    else if mask.in_delete_self
    then file_delete
    else if mask.in_modify
    then file_modify
    else if mask.in_move_self
    then file_delete
    else if mask.in_moved_from
    then file_delete
    else if mask.in_moved_to
    then file_add
    else if mask.in_attrib
    then file_modify
    else file_none

-- Has the chain stopped at IN_DELETE_SELF or IN_MOVE_SELF?
unfoldable pub target_gone : Mask → Bool
target_gone mask =
    if mask.in_create
    then false
    else if mask.in_delete
    then false
    else if mask.in_delete_self
    then true
    else if mask.in_modify
    then false
    else mask.in_move_self

-- IN_ISDIR, or the target itself.
unfoldable pub type_of_event : Mask → FileType
type_of_event mask =
    if target_gone mask then directory else if mask.in_isdir then directory else regular

unfoldable pub is_dir_type : FileType → Bool
is_dir_type directory = true
is_dir_type regular = false
is_dir_type soft_link = false

unfoldable pub unwatch_gone : MonitorTable → InotifyEvent → MonitorTable
unwatch_gone table event =
    if target_gone event.mask
    then unwatch_and_free_target table (get_or table.targets event.wd none)
    else table

unfoldable pub watch_created :
    (List ℕ → Option ℕ) → MonitorTable → OperationType → FileType → List ℕ → List ℕ → MonitorTable
watch_created add_watch table file_add type sys_name logic_name =
    if is_dir_type type then (watch_target_add add_watch table sys_name logic_name).0 else table
watch_created add_watch table file_none type sys_name logic_name = table
watch_created add_watch table file_delete type sys_name logic_name = table
watch_created add_watch table file_modify type sys_name logic_name = table
watch_created add_watch table (unknown_op k) type sys_name logic_name = table

-- `get_trans_timestamp`, for an operation that asks for the time: the time, and whether `ret` is 0.
unfoldable pub stamped : OperationType → Option ℕ → ℕ → ℕ × Bool
stamped file_delete time old = (old, true)
stamped file_none time old = (old, false)
stamped file_add none old = (old, false)
stamped file_add (some time) old = (time, true)
stamped file_modify none old = (old, false)
stamped file_modify (some time) old = (time, true)
stamped (unknown_op k) none old = (old, false)
stamped (unknown_op k) (some time) old = (time, true)

-- The switch at the end.
unfoldable pub update_local : OperationType → FileTable → TransFileEntry → FileTable
update_local file_add ft te = (file_table_add ft te).0
update_local file_modify ft te = (file_table_update ft te).0
update_local file_delete ft te = (file_table_delete ft te).0
update_local file_none ft te = ft
update_local (unknown_op k) ft te = ft

-- The slot as `handle_event` leaves it.
unfoldable pub filled_slot : ℕ → Mask → Option ℕ → TransFileEntry → TransFileEntry
filled_slot my_ip mask time te = record {
  name = te.name;
  timestamp = (stamped (operation_of mask) time te.timestamp).0;
  op_type = operation_of mask;
  file_type = type_of_event mask;
  owners = te.owners ++ record { ip = my_ip; port = p2p_port } ∷ [];
}

pub record Handled : Type 0 where
  pub table : MonitorTable
  pub ft : FileTable
  pub te : TransFileEntry
  pub ok : Bool

-- The watches, the file table, the slot and whether the answer is 0.
unfoldable pub handle_event :
    (List ℕ → Option ℕ)
    → (List ℕ → Option ℕ)
    → ℕ
    → MonitorTable
    → FileTable
    → InotifyEvent
    → TransFileEntry
    → List ℕ
    → Handled
handle_event add_watch stat my_ip table ft event te sys_name =
    let op = operation_of event.mask in
    let slot = filled_slot my_ip event.mask (stat sys_name) te in
    if tricky_string sys_name
    then record { table = table; ft = ft; te = te; ok = true }
    else record {
      table =
          watch_created add_watch (unwatch_gone table event) op (type_of_event event.mask) sys_name
            te.name;
      ft = update_local op ft slot;
      te = slot;
      ok = (stamped op (stat sys_name) te.timestamp).1;
    }

-- The loop over the events of one `read`: what is in the packet so far, and the slot after it.
pub record Round : Type 0 where
  pub table : MonitorTable
  pub ft : FileTable
  pub tft : TransFileTable
  pub slot : TransFileEntry

-- The logic name and the name on the disk.
unfoldable pub event_names : MonitorTarget → InotifyEvent → List ℕ × List ℕ
event_names target event =
    if ltb 0 event.len
    then (path target.logic_name event.name, path target.sys_name event.name)
    else (target.logic_name, event.name)

-- The slot counts if the answer is 0. Else the next event gets it as it is.
unfoldable pub next_slot : TransFileTable → Handled → Round
next_slot tft h =
    if h.ok
    then record { table = h.table; ft = h.ft; tft = tft ++ h.te ∷ []; slot = blank_entry }
    else record { table = h.table; ft = h.ft; tft = tft; slot = h.te }

-- An event whose descriptor has no target is skipped. A descriptor outside of the array counts as one
-- without a target; the code reads what stands there.
unfoldable pub event_for :
    (List ℕ → Option ℕ)
    → (List ℕ → Option ℕ)
    → ℕ
    → Round
    → InotifyEvent
    → Option MonitorTarget
    → Round
event_for add_watch stat my_ip round event none = round
event_for add_watch stat my_ip round event (some target) =
    let (logic, sys) = event_names target event in
    next_slot round.tft (
      handle_event add_watch stat my_ip round.table round.ft event
        (record round.slot { name = logic }) sys)

unfoldable pub one_event :
    (List ℕ → Option ℕ) → (List ℕ → Option ℕ) → ℕ → Round → InotifyEvent → Round
one_event add_watch stat my_ip round event =
    event_for add_watch stat my_ip round event (get_or round.table.targets event.wd none)

unfoldable pub all_events :
    (List ℕ → Option ℕ) → (List ℕ → Option ℕ) → ℕ → Round → List InotifyEvent → Round
all_events add_watch stat my_ip round [] = round
all_events add_watch stat my_ip round (event ∷ events) =
    if ltb (length round.tft) max_file_entries
    then all_events add_watch stat my_ip (one_event add_watch stat my_ip round event) events
    else round

-- One turn of the loop of `file_monitor_task`: the watches and the table, and the packet for the tracker.
unfoldable pub monitor_turn :
    (List ℕ → Option ℕ)
    → (List ℕ → Option ℕ)
    → ℕ
    → MonitorTable
    → FileTable
    → List InotifyEvent
    → Round × PtotPacket
monitor_turn add_watch stat my_ip table ft events =
    let round =
      all_events add_watch stat my_ip
        (record { table = table; ft = ft; tft = []; slot = blank_entry }) events in
    (round, ptot_packet_fill (ptot_packet_init my_ip peer_file_update) round.tft)
