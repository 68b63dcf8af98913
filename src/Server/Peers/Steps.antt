-- ===== src/Server/Peers/Steps.antt =====
-- The tracker of server/start.c as a transition system: a connection delivers a packet, or ends. What
-- holds in every state that it reaches, and who is told of a departure.
use tele_sync.Prelude.{
  ℕ, ◌≡◌, refl, sym, subst, ap, ◌∙◌, List, [], ◌∷◌, Option, none, some, Bool, true, false, arith,
  ◌==◌, if◌then◌else◌, length, Option-cases, inl, inr,
}
use tele_sync.TransTable.{TransFileEntry, TransFileTable}
use tele_sync.FileTable.{FileEntry, file_table_search, file_table_init}
use tele_sync.FileTable.Owners.{has_owner}
use tele_sync.FileTable.Departure.{file_table_delete_owner_lem}
use tele_sync.FileTable.Lifetime.{file_table_init-empty}
use tele_sync.FileTable.Valid
use tele_sync.PeerTable.{
  PeerEntry, PeerTable, peer_table_init, peer_table_add, peer_table_delete, peer_table_find,
  find_conn,
}
use tele_sync.PeerTable.Laws.{
  ip_of, peer_table_delete_lem, peer_table_delete-counted, length-stamp_ip,
}
use tele_sync.PeerTable.Laws
use tele_sync.Server.{
  Tracker, ControlInfo, TtopPacket, tracker_broadcast, Outbox, is_excluded, broadcast_to,
  broadcast_update,
}
use tele_sync.Server.Sync.{sync_task}
use tele_sync.Server.Sync.Versions.{sync_self-version}
use tele_sync.Server.Update.{peer_file_update_task}
use tele_sync.Server.Update.Stored.{update_entries-IsValid}
use tele_sync.Server.Peers.{
  Task, register, life_update, sync, file_update, run_task, receiver_dispatch, PtotPacket,
  receiver_task_cleanup, peer_register_handler_task, peer_life_update_task,
}

-- The first message for a connection.
unfoldable pub mail : ℕ → Outbox → Option TtopPacket
mail conn [] = none
mail conn ((c, pkt) ∷ out) = if c == conn then some pkt else mail conn out

abbrev pub if_connected : Option PeerEntry → TtopPacket → Option TtopPacket
if_connected none pkt = none
if_connected (some pe) pkt = some pkt

mail-broadcast_to :
    (conn : ℕ) (pkt : TtopPacket) (ps : List PeerEntry) (exclusive_conn : Option ℕ)
    → mail conn (broadcast_to pkt ps exclusive_conn)
      ≡ (if is_excluded exclusive_conn conn then none else if_connected (find_conn conn ps) pkt)
unfolding mail broadcast_to find_conn is_excluded
mail-broadcast_to conn pkt [] none = refl
mail-broadcast_to conn pkt [] (some c) = ground arith
mail-broadcast_to conn pkt (pe ∷ ps) none = ground (arith, mail-broadcast_to conn pkt ps none)
mail-broadcast_to conn pkt (pe ∷ ps) (some c) =
    ground (arith, mail-broadcast_to conn pkt ps (some c))

-- A broadcast that has an entry reaches every connected peer but the excluded one, and nobody else.
pub broadcast_update-mail :
    (pt : PeerTable) (te : TransFileEntry) (tft : TransFileTable) (exclusive_conn : Option ℕ)
    (conn : ℕ)
    → mail conn (broadcast_update pt (te ∷ tft) exclusive_conn) ≡ (
        if is_excluded exclusive_conn conn
        then none
        else if_connected (find_conn conn pt.peers) (tracker_broadcast (te ∷ tft)))
unfolding broadcast_update
broadcast_update-mail pt te tft exclusive_conn conn =
    mail-broadcast_to conn (tracker_broadcast (te ∷ tft)) pt.peers exclusive_conn

-- A packet of a connection runs its task; the end of a connection runs the cleanup.
pub data Step (tr tr' : Tracker) (out : Outbox) : Type 0 where
  packet :
      (accepted : Bool) (now conn my_tid : ℕ) (pkt : PtotPacket) (task : Task)
      → receiver_dispatch conn my_tid pkt ≡ some task
      → run_task accepted now tr task ≡ (tr', out)
      → Step tr tr' out
  leave : (conn : ℕ) → receiver_task_cleanup tr conn ≡ (tr', out) → Step tr tr' out

unfoldable pub server_init : ControlInfo → Tracker
server_init ctr = record { ft = file_table_init; pt = peer_table_init; ctr_info = ctr }

pub data Reach (ctr : ControlInfo) : Tracker → Type 0 where
  start : Reach ctr (server_init ctr)
  later : {tr tr' : Tracker} {out : Outbox} → Reach ctr tr → Step tr tr' out → Reach ctr tr'

pub record Inv (tr : Tracker) : Type 0 where
  pub files : Valid.IsValid tr.ft
  pub peers : tr.pt.peer_num ≡ length tr.pt.peers

init-Inv : (ctr : ControlInfo) → Inv (server_init ctr)
unfolding server_init peer_table_init
init-Inv ctr = record { files = file_table_init-empty.0; peers = refl }

life_update-Inv : (tr : Tracker) (ip : ℕ) → Inv tr → Inv (peer_life_update_task tr ip)
unfolding peer_life_update_task
life_update-Inv tr ip i = elim (Option-cases (peer_table_find tr.pt ip)) [
  | inl e ↦ rw (e, peer_life_update_task) i
  | inr (pe, e) ↦
      rw (e, peer_life_update_task)
        (record { files = i.files; peers = i.peers ∙ sym (length-stamp_ip ip _ tr.pt.peers) })
]

run_task-Inv :
    (accepted : Bool) (now : ℕ) (tr : Tracker) (task : Task)
    → Inv tr
    → Inv (run_task accepted now tr task).0
unfolding run_task peer_register_handler_task peer_table_add sync_task peer_file_update_task
run_task-Inv true now tr (register arg) i = record {
  files = i.files;
  peers = omega (arith, i.peers);
}
run_task-Inv false now tr (register arg) i = i
run_task-Inv accepted now tr (life_update ip) i = life_update-Inv tr ip i
run_task-Inv accepted now tr (sync conn tft) i = record {
  files = (sync_self-version tft [] i.files).0;
  peers = i.peers;
}
run_task-Inv accepted now tr (file_update conn tft) i = record {
  files = update_entries-IsValid tft [] i.files;
  peers = i.peers;
}

cleanup-Inv : (tr : Tracker) (conn : ℕ) → Inv tr → Inv (receiver_task_cleanup tr conn).0
unfolding receiver_task_cleanup
cleanup-Inv tr conn i = record {
  files = (file_table_delete_owner_lem i.files (peer_table_delete tr.pt conn).1).0;
  peers = peer_table_delete-counted tr.pt conn i.peers;
}

Step-Inv : {tr tr' : Tracker} {out : Outbox} → Step tr tr' out → Inv tr → Inv tr'
Step-Inv {tr} (packet accepted now conn my_tid pkt task d e) i =
    subst Inv (ap (λ (r : Tracker × Outbox). r.0) e) (run_task-Inv accepted now tr task i)
Step-Inv {tr} (leave conn e) i =
    subst Inv (ap (λ (r : Tracker × Outbox). r.0) e) (cleanup-Inv tr conn i)

-- In every state that the tracker reaches its file table is valid, and `peer_num` counts the peers.
pub Reach-Inv : {ctr : ControlInfo} {tr : Tracker} → Reach ctr tr → Inv tr
Reach-Inv {ctr} start = init-Inv ctr
Reach-Inv (later r s) = Step-Inv s (Reach-Inv r)

mail_gone :
    (conn : ℕ) (pt : PeerTable) (tft : TransFileTable)
    → find_conn conn pt.peers ≡ none
    → mail conn (broadcast_update pt tft none) ≡ none
unfolding broadcast_update mail is_excluded
mail_gone conn pt [] h = refl
mail_gone conn pt (te ∷ tft) h = rw (broadcast_update-mail pt te tft none conn, h)

-- When the connection of a registered peer ends, that peer owns no file any more and its connection
-- has no entry; both tables stay valid, and the departed peer is told nothing.
pub receiver_task_cleanup_lem :
    (tr : Tracker) (conn : ℕ) (pe : PeerEntry)
    → Valid.IsValid tr.ft
    → Laws.IsValid tr.pt
    → find_conn conn tr.pt.peers ≡ some pe
    → Valid.IsValid (receiver_task_cleanup tr conn).0.ft
      × Laws.IsValid (receiver_task_cleanup tr conn).0.pt
      × (find_conn conn (receiver_task_cleanup tr conn).0.pt.peers ≡ none)
      × ((q : List ℕ) (fe : FileEntry)
          → file_table_search (receiver_task_cleanup tr conn).0.ft q ≡ some fe
          → has_owner pe.peerid.ip fe.owners ≡ false)
      × (mail conn (receiver_task_cleanup tr conn).1 ≡ none)
unfolding receiver_task_cleanup
receiver_task_cleanup_lem tr conn pe v p found =
    let (valid, ip, others) = peer_table_delete_lem tr.pt conn p in
    let gone = file_table_delete_owner_lem v (peer_table_delete tr.pt conn).1 in
    let gone_conn : find_conn conn (peer_table_delete tr.pt conn).0.peers ≡ none =
      ground (arith, others conn) in
    (
      gone.0,
      valid,
      gone_conn,
      λ q fe e. subst (λ i. has_owner i fe.owners ≡ false) (ip ∙ ap ip_of found) (gone.2 q fe e).0,
      mail_gone conn (peer_table_delete tr.pt conn).0 _ gone_conn,
    )
