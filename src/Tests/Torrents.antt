-- ===== src/Tests/Torrents.antt =====
-- src/torrent.c and the handlers of src/peer.c at concrete inputs.
use libctorrent.Prelude.{
  ℕ, zero, suc, ◌/◌, ◌%◌, ◌^◌, ◌≤◌, ◌<◌, ◌≡◌, refl, Bool, true, false, not, ◌&&◌, none, some, List,
  [], ◌∷◌, arith, replicate, ◌+◌, Option, ◌-◌,
}
use libctorrent.Event.{
  peer_handshake, peer_have, EventKind, Event, peer_unchoke, peer_reqtimeout, peer,
}
use libctorrent.Peer.Handlers.{
  peer_onhandshake, peer_onhave, World, serve, dispatch, peer_onunchoke,
}
use libctorrent.Peer.Schedule.{
  bt_peer_keepalivetimeout, ask_pieces, ask_piece, bt_peer_requesttimeout, Session,
  bt_peer_updaterequests,
}
use libctorrent.Message.{have, Msg, msg_new, fixed, m_unchoke}
use libctorrent.Torrent.{restart_timer, Torrent}
use libctorrent.TimerQueue.{timerqueue_remove, timerqueue_insert, timerqueue_init}
use libctorrent.Bitset.{bitset_set, with_bit, Bitset, bitset_new, holds, bitset_get}
use libctorrent.Piece.{
  piece_incrfreq, piece_allocblock, alloc_from, piece_blockoffset, piece_blocklength, Piece,
}
use libctorrent.Swarm.{
  interest_loop, bt_torrent_has_piece, Swarm, handle_event, bt_torrent_start, fresh_peers,
  bt_peer_connect, bt_markinterest, bt_torrent_announce_have, bt_peer_haspiece,
}
use libctorrent.Piece
use libctorrent.Peer.{
  bt_peer_interested, queue_push, bt_peer_requestpiece, Peer, peer_init, txq_cap, no_msg,
}
use libctorrent.Ring.{push, init, pop}
use libctorrent.Peer.Requests.{bt_peer_addrequest}
use libctorrent.EventQueue.{eventqueue_isempty, EventQueue, blank, eventqueue_init, eventqueue_pop}
use libctorrent.Swarm.Step.{
  settled, Sent, Steps, waiting, handling, woken, handled, sent, none_left, here, then_step, popped,
  polled,
}
use libctorrent.Prelude.Outcome.{failed, aborted, Outcome, ok, Keeps, Returns}
use libctorrent.Ring.Laws.{init-IsValid}
use libctorrent.Disk.{disk_init}
use libctorrent.Peer.Laws.{HasRoom}
use libctorrent.Peer.Booked.{requested_at}
use libctorrent.Peer.Sound.{HasBlocks, IsSound}
use libctorrent.Peer.Sound.Serving.{serve-IsSound}
use libctorrent.Swarm.Books.{total}
use libctorrent.Swarm.Exclusive.{one_request_per_block}
use libctorrent.Swarm.Announce.{
  AllPairs, AllRoom, Told, ToldHave, bt_markinterest_lem, bt_torrent_announce_have_lem,
}

abbrev plenty : ℕ → Bool
plenty n = true

-- A torrent of one piece of two blocks.
abbrev two_blocks : Piece
two_blocks = record {
  hash = replicate 20 0;
  off = 0;
  length = 32768;
  nblocks = 2;
  nhave = 0;
  freq = 0;
  have = record { len = 1; bits = 0 ∷ [] };
  requested = record { len = 1; bits = 0 ∷ [] };
}

abbrev small_torrent : Torrent
small_torrent = record {
  info_hash = replicate 20 7;
  npieces = 1;
  piecetab = two_blocks ∷ [];
  mgr = disk_init;
  evqueue = eventqueue_init;
  tmqueue = timerqueue_init;
}

small_torrent-HasBlocks : HasBlocks small_torrent.piecetab
small_torrent-HasBlocks zero = (omega arith, omega arith)
small_torrent-HasBlocks (suc i) = (omega arith, omega arith)

abbrev one_word : Bitset
one_word = record { len = 1; bits = 0 ∷ [] }

abbrev two_peers : List Peer
two_peers =
    record (peer_init one_word) { socket_open = true }
    ∷ record (peer_init one_word) { socket_open = true }
    ∷ []

abbrev at_start : Swarm
at_start = record { torrent = small_torrent; peers = two_peers }

started : bt_torrent_start plenty plenty 2 small_torrent ≡ ok at_start
unfolding bt_torrent_start fresh_peers bitset_new bt_peer_connect
started = refl

-- The first peer shakes hands and has the piece; a turn later it lets the client download.
abbrev event_of : EventKind → Option Msg → Event
event_of kind m = record { kind = kind; subject = peer 0; payload = m }

abbrev first_events : EventQueue
first_events = record {
  slots = event_of peer_handshake none ∷ event_of peer_have (some (have 5 0)) ∷ replicate 126 blank;
  qhead = 0;
  qtail = 2;
  n = 2;
}

abbrev last_event : EventQueue
last_event = record {
  slots = event_of peer_unchoke (some (fixed m_unchoke)) ∷ replicate 127 blank;
  qhead = 0;
  qtail = 1;
  n = 1;
}

abbrev world : World
world = record {
  alloc = plenty;
  gettime = λ q. none;
  settime = λ q. true;
  can_open = λ path. true;
  can_write = λ path at bytes. true;
  now = 100;
  id = 0;
  slack = 0;
}

abbrev the_swarm : Outcome Swarm → Swarm
the_swarm (ok s) = s
the_swarm _ = at_start

abbrev popped_of : EventQueue → EventQueue
popped_of q = record q { qhead = q.qhead + 1; n = q.n - 1 }

abbrev after : Event → Swarm → Swarm
after e s = the_swarm (handle_event world e (popped s (popped_of s.torrent.evqueue)))

abbrev s1 : Swarm
s1 = polled at_start first_events timerqueue_init two_peers

abbrev s2 : Swarm
s2 = after (event_of peer_handshake none) s1

abbrev s3 : Swarm
s3 = after (event_of peer_have (some (have 5 0))) s2

abbrev asked_peers : Outcome (List Peer) → List Peer
asked_peers (ok v) = v
asked_peers _ = []

-- Between the turns the client becomes interested.
abbrev s4 : Swarm
s4 = record s3 { peers = asked_peers (bt_markinterest plenty s3.torrent s3.peers) }

abbrev s5 : Swarm
s5 = polled s4 last_event s3.torrent.tmqueue s4.peers

abbrev s6 : Swarm
s6 = after (event_of peer_unchoke (some (fixed m_unchoke))) s5

abbrev succeeds : {A : Type 0} → Outcome A → Bool
succeeds (ok a) = true
succeeds _ = false

swarm_ok : (m : Outcome Swarm) → succeeds m ≡ true → m ≡ ok (the_swarm m)
swarm_ok (ok s) e = refl
swarm_ok failed e = absurd (ground arith)
swarm_ok aborted e = absurd (ground arith)

peers_ok : (m : Outcome (List Peer)) → succeeds m ≡ true → m ≡ ok (asked_peers m)
peers_ok (ok s) e = refl
peers_ok failed e = absurd (ground arith)
peers_ok aborted e = absurd (ground arith)

first_pop :
    eventqueue_pop s1.torrent.evqueue
    ≡ some (event_of peer_handshake none, popped_of s1.torrent.evqueue)
unfolding eventqueue_pop pop
first_pop = refl

first_handled :
    succeeds
      (handle_event world (event_of peer_handshake none) (popped s1 (popped_of s1.torrent.evqueue)))
    ≡ true
unfolding handle_event serve dispatch peer_onhandshake bt_peer_keepalivetimeout restart_timer
    timerqueue_init timerqueue_remove timerqueue_insert bt_peer_updaterequests peer_init init
    peer_onhave bitset_set with_bit piece_incrfreq bt_markinterest interest_loop
    bt_torrent_has_piece Piece.piece_complete bt_peer_haspiece holds bitset_get bt_peer_interested
    msg_new queue_push push peer_onunchoke ask_pieces ask_piece piece_allocblock alloc_from
    bt_peer_addrequest bt_peer_requesttimeout bt_peer_requestpiece piece_blockoffset
    piece_blocklength
first_handled = refl

second_pop :
    eventqueue_pop s2.torrent.evqueue
    ≡ some (event_of peer_have (some (have 5 0)), popped_of s2.torrent.evqueue)
unfolding handle_event serve dispatch peer_onhandshake bt_peer_keepalivetimeout restart_timer
    timerqueue_init timerqueue_remove timerqueue_insert bt_peer_updaterequests peer_init init
    peer_onhave bitset_set with_bit piece_incrfreq bt_markinterest interest_loop
    bt_torrent_has_piece Piece.piece_complete bt_peer_haspiece holds bitset_get bt_peer_interested
    msg_new queue_push push peer_onunchoke ask_pieces ask_piece piece_allocblock alloc_from
    bt_peer_addrequest bt_peer_requesttimeout bt_peer_requestpiece piece_blockoffset
    piece_blocklength eventqueue_pop pop
second_pop = refl

second_handled :
    succeeds (
      handle_event world
        (event_of peer_have (some (have 5 0)))
        (popped s2 (popped_of s2.torrent.evqueue)))
    ≡ true
unfolding handle_event serve dispatch peer_onhandshake bt_peer_keepalivetimeout restart_timer
    timerqueue_init timerqueue_remove timerqueue_insert bt_peer_updaterequests peer_init init
    peer_onhave bitset_set with_bit piece_incrfreq bt_markinterest interest_loop
    bt_torrent_has_piece Piece.piece_complete bt_peer_haspiece holds bitset_get bt_peer_interested
    msg_new queue_push push peer_onunchoke ask_pieces ask_piece piece_allocblock alloc_from
    bt_peer_addrequest bt_peer_requesttimeout bt_peer_requestpiece piece_blockoffset
    piece_blocklength
second_handled = refl

none_waits : eventqueue_isempty s3.torrent.evqueue ≡ true
unfolding handle_event serve dispatch peer_onhandshake bt_peer_keepalivetimeout restart_timer
    timerqueue_init timerqueue_remove timerqueue_insert bt_peer_updaterequests peer_init init
    peer_onhave bitset_set with_bit piece_incrfreq bt_markinterest interest_loop
    bt_torrent_has_piece Piece.piece_complete bt_peer_haspiece holds bitset_get bt_peer_interested
    msg_new queue_push push peer_onunchoke ask_pieces ask_piece piece_allocblock alloc_from
    bt_peer_addrequest bt_peer_requesttimeout bt_peer_requestpiece piece_blockoffset
    piece_blocklength eventqueue_isempty
none_waits = refl

interest : succeeds (bt_markinterest plenty s3.torrent s3.peers) ≡ true
unfolding handle_event serve dispatch peer_onhandshake bt_peer_keepalivetimeout restart_timer
    timerqueue_init timerqueue_remove timerqueue_insert bt_peer_updaterequests peer_init init
    peer_onhave bitset_set with_bit piece_incrfreq bt_markinterest interest_loop
    bt_torrent_has_piece Piece.piece_complete bt_peer_haspiece holds bitset_get bt_peer_interested
    msg_new queue_push push peer_onunchoke ask_pieces ask_piece piece_allocblock alloc_from
    bt_peer_addrequest bt_peer_requesttimeout bt_peer_requestpiece piece_blockoffset
    piece_blocklength
interest = refl

last_pop :
    eventqueue_pop s5.torrent.evqueue
    ≡ some (event_of peer_unchoke (some (fixed m_unchoke)), popped_of s5.torrent.evqueue)
unfolding eventqueue_pop pop
last_pop = refl

last_handled :
    succeeds (
      handle_event world
        (event_of peer_unchoke (some (fixed m_unchoke)))
        (popped s5 (popped_of s5.torrent.evqueue)))
    ≡ true
unfolding handle_event serve dispatch peer_onhandshake bt_peer_keepalivetimeout restart_timer
    timerqueue_init timerqueue_remove timerqueue_insert bt_peer_updaterequests peer_init init
    peer_onhave bitset_set with_bit piece_incrfreq bt_markinterest interest_loop
    bt_torrent_has_piece Piece.piece_complete bt_peer_haspiece holds bitset_get bt_peer_interested
    msg_new queue_push push peer_onunchoke ask_pieces ask_piece piece_allocblock alloc_from
    bt_peer_addrequest bt_peer_requesttimeout bt_peer_requestpiece piece_blockoffset
    piece_blocklength
last_handled = refl

abbrev booked_by : List Peer → List ℕ
booked_by [] = []
booked_by (p ∷ v) = p.nrequests ∷ []

-- Both blocks of the piece are booked.
two_booked : booked_by s6.peers ≡ 2 ∷ []
unfolding handle_event serve dispatch peer_onhandshake bt_peer_keepalivetimeout restart_timer
    timerqueue_init timerqueue_remove timerqueue_insert bt_peer_updaterequests peer_init init
    peer_onhave bitset_set with_bit piece_incrfreq bt_markinterest interest_loop
    bt_torrent_has_piece Piece.piece_complete bt_peer_haspiece holds bitset_get bt_peer_interested
    msg_new queue_push push peer_onunchoke ask_pieces ask_piece piece_allocblock alloc_from
    bt_peer_addrequest bt_peer_requesttimeout bt_peer_requestpiece piece_blockoffset
    piece_blocklength
two_booked = refl

Sent-same : (v : List Peer) → Sent v v
Sent-same [] = none_left
Sent-same (p ∷ v) = sent refl (Sent-same v)

-- Two turns: the second ends in the requests.
two_turns : Steps waiting at_start handling s6
two_turns =
    then_step
      (then_step
        (then_step
          (then_step
            (then_step
              (then_step here
                (woken at_start first_events timerqueue_init two_peers (Sent-same two_peers)))
              (handled world s1 s2 _ _ first_pop (swarm_ok _ first_handled)))
            (handled world s2 s3 _ _ second_pop (swarm_ok _ second_handled)))
          (settled plenty s3 s4.peers none_waits (peers_ok _ interest)))
        (woken s4 last_event s3.torrent.tmqueue s4.peers (Sent-same s4.peers)))
      (handled world s5 s6 _ _ last_pop (swarm_ok _ last_handled))

one_request_per_block_example :
    ((y : ℕ) → total y s6.peers ≤ 1)
    × ((y : ℕ)
        → 0 < total y s6.peers
        → requested_at s6.torrent.piecetab (y / 2 ^ 32) (y % 2 ^ 32) ≡ true)
one_request_per_block_example =
    one_request_per_block plenty plenty 2 small_torrent small_torrent-HasBlocks started two_turns

-- A peer that was asked for the second block of the piece.
abbrev asked_peer : Peer
asked_peer = record (peer_init one_word) {
  am_interested = true;
  pieceshas = 0 ∷ [];
  request_queue = 1 ∷ replicate 2047 0;
  nrequests = 1;
}

abbrev second_asked : Torrent
second_asked = record small_torrent {
  piecetab = record two_blocks { requested = record { len = 1; bits = 2 ^ 30 ∷ [] } } ∷ [];
}

abbrev asking : Session
asking = record { torrent = second_asked; remote = asked_peer }

second_asked-HasBlocks : HasBlocks second_asked.piecetab
second_asked-HasBlocks zero = (omega arith, omega arith)
second_asked-HasBlocks (suc i) = (omega arith, omega arith)

asking-IsSound : IsSound (λ y. 0) asking
unfolding peer_init holds bitset_get
asking-IsSound = (
  second_asked-HasBlocks,
  (
    refl,
    omega arith,
    λ y. ground arith,
    λ y there. let same : y ≡ 1 = ground arith in rw same refl,
  ),
)

serve-IsSound_example : Keeps (IsSound (λ y. 0)) (serve world peer_reqtimeout none asking)
serve-IsSound_example = serve-IsSound (λ y. 0) world peer_reqtimeout none asking asking-IsSound

-- Two peers that shook hands; the first of them has the piece.
abbrev greeted : List Peer
greeted =
    record (peer_init (record { len = 1; bits = 2 ^ 31 ∷ [] })) { handshake_done = true }
    ∷ record (peer_init one_word) { handshake_done = true }
    ∷ []

fresh-HasRoom : (set : Bitset) → HasRoom (record (peer_init set) { handshake_done = true })
unfolding peer_init init
fresh-HasRoom set = ((init-IsValid txq_cap no_msg (omega arith)).0, omega arith)

greeted-AllRoom : AllRoom greeted
greeted-AllRoom = (fresh-HasRoom _, (fresh-HasRoom _, tt))

bt_markinterest_lem_example :
    Returns
      (AllPairs (λ p q. Told small_torrent p p.handshake_done q) greeted)
      (bt_markinterest plenty small_torrent greeted)
bt_markinterest_lem_example = bt_markinterest_lem plenty small_torrent greeted greeted-AllRoom

bt_torrent_announce_have_lem_example :
    Returns
      (AllPairs (λ p q. ToldHave 0 p (p.handshake_done && not (bt_peer_haspiece p 0)) q) greeted)
      (bt_torrent_announce_have plenty 0 greeted)
bt_torrent_announce_have_lem_example =
    bt_torrent_announce_have_lem plenty 0 greeted refl greeted-AllRoom
