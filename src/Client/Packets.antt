-- ===== src/Client/Packets.antt =====
-- What a peer and the tracker exchange: `ptot_packet_init` and `ptot_packet_fill` of client/packet.c, and the
-- packets that client/start.c makes with them. A packet carries a table, not bytes.
use tele_sync.Prelude.{ℕ, List, [], ◌∷◌, ◌++◌, Option, none, some, Bool, ◌&&◌, if◌then◌else◌}
use tele_sync.TransTable.{
  FileType, regular, directory, soft_link, file_modify, TransFileEntry, TransFileTable,
}
use tele_sync.FileTable.{FileEntry, FileTable}
use tele_sync.FileTable.Sweep.{trans_table_fill_from}
use tele_sync.Server.{
  ControlInfo, TtopPacket, tracker_accept, tracker_broadcast, tracker_sync, tracker_close,
}
use tele_sync.Server.Peers.{PtotPacketType, peer_register, peer_file_update, peer_sync, PtotPacket}
use tele_sync.Client.{Action, file_table_sync, broadcast_handler}

abbrev pub p2p_port : ℕ
p2p_port = 4192

unfoldable pub ptot_packet_init : ℕ → PtotPacketType → PtotPacket
ptot_packet_init my_ip type = record { type = type; ip = my_ip; port = p2p_port; tft = [] }

unfoldable pub ptot_packet_fill : PtotPacket → TransFileTable → PtotPacket
ptot_packet_fill pkt tft = record pkt { tft = tft }

-- The entry that `notify_tracker_add_me` fills in.
unfoldable pub add_me : ℕ → FileEntry → TransFileEntry
add_me my_ip fe = record {
  name = fe.name;
  timestamp = fe.timestamp;
  op_type = file_modify;
  file_type = fe.type;
  owners = record { ip = my_ip; port = p2p_port } ∷ [];
}

unfoldable pub notify_tracker_add_me : ℕ → FileEntry → PtotPacket
notify_tracker_add_me my_ip fe =
    ptot_packet_fill (ptot_packet_init my_ip peer_file_update) (add_me my_ip fe ∷ [])

-- Whether the file or the directory is there at the end: `made` is the answer of `file_monitor_mkdir`, and
-- `downloaded` that of `do_download`.
unfoldable pub is_fetched : FileType → (made downloaded : Bool) → Bool
is_fetched directory made downloaded = made
is_fetched regular made downloaded = downloaded
is_fetched soft_link made downloaded = downloaded

-- What `ptop_download_task` sends. `blocked` says whether a monitor target was found for the name.
unfoldable pub ptop_download_task :
    ℕ → FileEntry → (blocked made downloaded : Bool) → List PtotPacket
ptop_download_task my_ip fe blocked made downloaded =
    if blocked && is_fetched fe.type made downloaded
    then notify_tracker_add_me my_ip fe ∷ []
    else []

-- `register_to_tracker`: the packet that it sends, and what it makes of the answer.
unfoldable pub register_packet : ℕ → PtotPacket
register_packet my_ip = ptot_packet_init my_ip peer_register

unfoldable pub register_to_tracker : Option TtopPacket → Option ControlInfo
register_to_tracker none = none
register_to_tracker (some (tracker_accept ctr_info)) = some ctr_info
register_to_tracker (some (tracker_broadcast tft)) = none
register_to_tracker (some (tracker_sync tft)) = none
register_to_tracker (some tracker_close) = none

-- `sync_files`, once the local table is there: the packet that it sends, and what it makes of the answer.
unfoldable pub sync_packet : ℕ → FileTable → PtotPacket
sync_packet my_ip ft =
    ptot_packet_fill (ptot_packet_init my_ip peer_sync) (trans_table_fill_from ft)

unfoldable pub sync_files : ℕ → FileTable → Option TtopPacket → Option (FileTable × List Action)
sync_files my_ip ft none = none
sync_files my_ip ft (some (tracker_sync tft)) = some (file_table_sync my_ip ft tft)
sync_files my_ip ft (some (tracker_accept ctr_info)) = none
sync_files my_ip ft (some (tracker_broadcast tft)) = none
sync_files my_ip ft (some tracker_close) = none

-- One packet from the tracker in `ttop_receiver_task`; only broadcasts have an effect.
unfoldable pub receive_ttop : ℕ → FileTable → TtopPacket → FileTable × List Action
receive_ttop my_ip ft (tracker_broadcast tft) = broadcast_handler my_ip ft tft
receive_ttop my_ip ft (tracker_accept ctr_info) = (ft, [])
receive_ttop my_ip ft (tracker_sync tft) = (ft, [])
receive_ttop my_ip ft tracker_close = (ft, [])

-- The packets that arrive before the connection ends.
unfoldable pub ttop_receiver_task : ℕ → FileTable → List TtopPacket → FileTable × List Action
ttop_receiver_task my_ip ft [] = (ft, [])
ttop_receiver_task my_ip ft (pkt ∷ pkts) =
    let (ft₁, acts₁) = receive_ttop my_ip ft pkt in
    let (ft₂, acts₂) = ttop_receiver_task my_ip ft₁ pkts in (ft₂, acts₁ ++ acts₂)
