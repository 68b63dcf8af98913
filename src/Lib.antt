-- ===== src/Lib.antt =====
-- TeleSync keeps the directories of several peers in sync. A tracker holds a table of all files with
-- their timestamps and owners; a peer registers, sends its own table, reports its changes, follows the
-- broadcasts of the tracker, and fetches the content of a file in pieces from the other owners.
--
-- The parts, and the files that model them:
--   * Hash (Hash.antt): the macros of include/hash.h, ELFhash, hash_32, ilog2, the choice of a bucket.
--   * Lists (LinkedList.antt, LinkedList/): utility/list.c and the list_head macros of include/list.h, on a
--     heap of links, and the sequences that they stand for. HashList.antt and HashList/ are the hlist
--     functions of include/list.h, on which the hash tables stand.
--   * File table (TransTable.antt, FileTable.antt, FileTable/): file_table.c, include/file_table.h and
--     include/trans_file_table.h. `FileTable` is struct file_table: the counter n and the array of
--     chains. `file_table_add`, `file_table_update`, `file_table_delete`, `file_table_find` and the
--     owner lists keep their names. FileTable/Sweep.antt has the functions that walk over all chains.
--     `merged` in FileTable/Refines.antt is what an entry becomes when a report arrives for it, and
--     `Writes` says that a table changes under one name only.
--   * Segments (Segment.antt, Segment/): the framing of utility/segment.c, as a state machine on bytes.
--   * Peer table (PeerTable.antt): server/peer_table.c.
--   * Tracker (Server.antt, Server/): server/start.c. `Tracker` is the state in its globals ft, pt and
--     ctr_info. Server/Sync.antt is sync_task, Server/Update.antt peer_file_update_task, and
--     Server/Peers.antt registration, keep-alive, departure and the dispatch of packets. Each handler
--     takes a tracker and gives the tracker after it and the messages it sends, in order.
--     Server/Peers/Steps.antt makes them the steps of a transition system.
--   * Peer (Client.antt, Client/): the handlers of client/start.c for what the tracker sends.
--     `Action` is what they start besides: the download or the removal of a file. Client/Ports.antt and Held.antt have
--     the ports that uploads take, Client/Packets.antt the packets of client/packet.c that a peer sends
--     and what it makes of the answers.
--   * Download (Download.antt, Download/): client/download.c, a worker alone and several workers that
--     share the flags of the pieces, under every schedule (the worker of an owner that is the peer itself
--     ends before its loop), `my_read` and `my_write`. The file on the disk
--     is an interface, `Disk` in Download/Disk.antt; Download/Copy.antt has the workers write to it.
--   * Upload (Upload.antt): the loop of do_upload in client/start.c, one request for a piece at a time.
--   * Packets as bytes (Wire.antt, Wire/): the structs of include/packet_def.h and
--     include/trans_file_table.h, and how client/packet.c and server/packet.c send and receive them.
--   * Dialogue (Dialogue.antt, Dialogue/): the packets between peers, of client/packet.h, and the requests
--     for a length and for a port: `ptop_upload_task` of client/start.c answers, `get_file_len_from` and
--     `get_p2p_download_port` of client/download.c ask.
--   * Waiting (ThreadWait.antt, ThreadWait/): utility/pthread_wait.c between the thread that waits and the
--     one that notifies.
--   * File monitor (FileMonitor.antt, FileMonitor/): client/file_monitor.c. `Listing` is what readdir
--     gives for a directory and those below it. FileMonitor.antt is get_file_table, FileMonitor/Watch.antt
--     the table of watches and the names on the disk, FileMonitor/Events.antt handle_event and the loop
--     of file_monitor_task, FileMonitor/Block.antt file_monitor_block and, of client/start.c, file_delete,
--     with what they ask of the kernel.
--   * Convergence.antt and Propagation.antt put tracker and peer together: a synchronisation, and a
--     change on its way from one peer to another. Startup.antt is the first synchronisation of a peer from
--     its directories, Announcement.antt what the tracker makes of a download that has ended, OnTheWire.antt
--     the synchronisation with the bytes of its packets.
--   * Start (Config.antt, Config/): the configuration files of server/start.c and client/start.c, and the
--     options of dartsync.c.
-- Tests.antt and Tests/ run the model at small inputs.
--
-- What stands for what. Outside of LinkedList.antt and HashList.antt lists are sequences, in the order
-- of the C lists. A pointer to an entry that a search returned is written through by
-- `file_entry_write`, which replaces the entry of that name. Strings are their bytes before the NUL,
-- and the buffers for names and owners are long enough. Numbers are natural numbers; the hash wraps at
-- 32 and 64 bits and the timestamp of a peer at 64 bits, as in the C code; other counters stay in
-- range. Subtraction of a counter stops at 0.
--
-- A function that holds a lock is one step; locks are not modelled, and neither are the data races of
-- code that takes none. Allocation does not fail. The handlers take packets as data; Wire.antt has their
-- bytes, for a machine with little-endian numbers and natural alignment, and data_len with its 16 bits,
-- which has room for a table of 240 entries; the timestamp in a keep-alive packet is left out. Whether a send succeeds, how the exchange
-- of a piece ends, and the clock are arguments. `send_segment` takes the stream's send, `my_read` its
-- read and `my_write` its write as a parameter. What inotify_add_watch and stat answer is a function of
-- the name. The decimal numbers that sprintf makes are a parameter.
--
-- Fuel: `ilog2` shifts at most 64 times, for the 64 bits of an unsigned long. `download_loop` takes one
-- round for each piece and one more to find none; the theorem about it asks for just that. `my_read`
-- takes len + 11 rounds, since each read brings a byte, uses up one of 10 empty reads, or ends the loop.
-- `my_write` takes len + 1, since each write takes a byte or ends the loop.
--
-- Not modelled: printing, what fscanf and getopt_long read, sockets, thread creation, the order of steps
-- in client_start, and the times of files on the disk.
pub mod Prelude
pub mod Hash
pub mod LinkedList
pub mod HashList
pub mod TransTable
pub mod FileTable
pub mod Segment
pub mod PeerTable
pub mod Server
pub mod Client
pub mod Download
pub mod Convergence
pub mod Propagation
mod Tests
pub mod Upload
pub mod Announcement
pub mod FileMonitor
pub mod Startup
pub mod Wire
pub mod ThreadWait
pub mod Dialogue
pub mod OnTheWire
pub mod Config
