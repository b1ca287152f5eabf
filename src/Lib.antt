-- ===== src/Lib.antt =====
-- libctorrent: a BitTorrent client library in C.
--
-- The parts and the files that model them; a name in the model is the C name, without its prefix
-- `bt_` where that leaves it clear:
--   Wire          the macros PUT_ and GET_ of src/util/common.h
--   Message       src/message.h and src/message.c: messages and handshakes, packed and unpacked
--   Event         src/event.h
--   Ring          the circular array that src/eventqueue.h and src/peer.c both write out
--   EventQueue    src/eventqueue.h, over Ring
--   TimerQueue    src/timer_queue.h and src/timer_queue.c: many timers over one timerfd
--   Bitset        src/bitset.h and src/bitset.c
--   Piece         src/piece.h and src/piece.c: a piece and its blocks, over Bitset
--   Bcode         src/bcode.h and src/bcode.c: decoder, encoder, the format between them, look-up
--                 (Bcode.Lookup) and printing (Bcode.Print)
--   Disk          src/disk.h and src/disk.c: the files of a torrent as one array of bytes
--   Peer          src/peer.h and src/peer.c: the messages that wait for a peer and how they are packed
--                 (Peer.Send), the framing of what it sends, the blocks that it was asked for
--                 (Peer.Requests, Peer.Schedule), the handlers (Peer.Handlers), and
--                 reading from and writing to its socket (Peer.Receive, Peer.Transmit)
--   Net           src/net.c: sending and receiving on a socket, by what the system answers
--   Vector        src/util/vector.h: arrays that grow
--   EventLoop     src/eventloop.c: the producers of events and what epoll reports of them
--   Tracker       src/tracker.c: URLs of trackers; src/tracker_udp.c: the exchange of datagrams with one
--                 (Tracker.Udp); bt_torrent_tracker_request of src/torrent.c (Tracker.Collect)
--   Metainfo      src/torrent.c: a torrent set up from its decoded metainfo (Metainfo.Load)
--   Torrent       src/torrentx.h: the torrent as the handlers of its peers see it
--   Swarm         src/torrent.c: the torrent with all its peers, and the main loop (Swarm.Step)
--   Sha1          src/crypt/sha1.c
--   Tests         the theorems at concrete inputs
-- The event loop calls back the producers whose descriptors are ready (on_read and on_write of a peer,
-- the firing of the timer queue), and these push to the event queue.
-- A peer queues messages (Message) on its circular array (Ring) and books blocks of pieces (Piece).
-- The timer queue pushes events (Event) to the event queue. The main loop (Swarm) pops them and calls
-- the handlers of a peer (Peer.Handlers.dispatch) and its scheduler (bt_peer_updaterequests), which
-- change the peer and the table of pieces, and tells the peers of complete pieces and of interest.
--
-- Numbers are natural numbers, and what wraps in C is reduced by `%` where it does. An array is a
-- list; an object that a function changes is passed and returned. A call ends in a value, in NULL or
-- -1, or in a failed assertion or a fault, which a use of NULL or a place outside an array is
-- (Prelude.Outcome). Whether `malloc` succeeds, what the timerfd reports, whether a file can be opened
-- and written, and what the sockets, epoll, the name service and `rand` answer are parameters. There is memory for the
-- pieces that a peer has and for the handshake that answers a connection.
--
-- Fuel: `bdecode_str` gives its parser twice the length of the text and three more; a call takes a
-- byte, or its callee does, so at most two calls share a byte. `filevec_write` has a turn for each
-- byte and each file, and every turn moves a byte or leaves a file behind. `rounds` has one for
-- each byte of the message, and every turn takes 64. `bdict_loop` halves its range. `pieces_loop`
-- has one turn for each byte of the torrent, and every turn takes a byte at least. `ask_piece` has
-- one turn more than its piece has blocks, and every turn takes a free block. `txqueue_loop` has
-- one for each message that waits. `peers_loop` has one for each byte of a datagram, and every turn
-- takes six. `read_loop` has two more than there are arrivals: every turn but
-- the last uses one up or fills the buffer. `write_loop` has one more than the socket has answers, of
-- which every turn but the last uses one up. `path_loop` and `files_loop` have one for each entry and one
-- for the end.
--
-- In the main loop (Swarm.Step), what `bt_eventloop_run` does is any new queue of events, any timers
-- and any messages taken off or put back; the callbacks of a user are taken to leave the torrent alone.
--
-- Not modelled: the set-up of sockets (src/peerserver.c, and src/net.c but for sending and
-- receiving), the unused priority queue (src/pqueue.c), the earlier threaded design
-- (src/thread.c) and what serves only it (bt_msg_send, bt_msg_recv), the program (src/main.c), and of
-- the modelled files what releases memory, the rates and the progress, which are floating-point
-- quotients, and functions that nothing calls (hex_decode, bt_chokealgo, bt_peer_fromsock).
pub mod Prelude
pub mod Ring
pub mod Vector
pub mod EventLoop
pub mod Wire
pub mod Message
pub mod Event
pub mod Bitset
pub mod Piece
pub mod EventQueue
pub mod TimerQueue
pub mod Bcode
pub mod Disk
pub mod Peer
pub mod Metainfo
pub mod Tracker
pub mod Net
pub mod Torrent
pub mod Swarm
pub mod Sha1
pub mod Tests
