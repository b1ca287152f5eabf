-- ===== src/Tests/Queues.antt =====
-- src/eventqueue.h, src/timer_queue.c and the queues of src/peer.c at concrete inputs.
use libctorrent.Prelude.{
  ℕ, ◌+◌, ◌*◌, ◌^◌, ◌≡◌, refl, Bool, true, false, none, some, List, [], ◌∷◌, arith, if◌then◌else◌,
  set,
}
use libctorrent.Prelude.Outcome.{ok, Returns}
use libctorrent.Ring
use libctorrent.Ring.{Ring, init, push, pop}
use libctorrent.Ring.Laws.{init-IsValid}
use libctorrent.Event.{Event, peer_keepalive, null}
use libctorrent.EventQueue.{EventQueue, eventqueue_max, blank, eventqueue_push}
use libctorrent.TimerQueue.{
  TimeSpec, Timer, TimerQueue, total, adjust, timerqueue_insert, timerqueue_remove,
  timerqueue_extend, timer_fire, timerqueue_init, new_timer, nsec_per_sec,
}
use libctorrent.TimerQueue.Deadlines.{deadlines, enqueue, dequeue, postpone}
use libctorrent.TimerQueue.Calls.{
  pending, timerqueue_insert_lem, timerqueue_remove_lem, timerqueue_extend_lem, timer_fire_stalls,
}
use libctorrent.Bitset.{Bitset}
use libctorrent.Piece.{Piece}
use libctorrent.Peer.{Peer, txq_cap, no_msg}
use libctorrent.Peer.Laws.{HasRoom}
use libctorrent.Peer.Requests.{
  bt_peer_removerequest, pending as pending_requests, bt_peer_flushreqqueue,
}
use libctorrent.Peer.Booked.{
  Removal, asked, requested_at, bt_peer_flushreqqueue_lem, bt_peer_removerequest_lem,
}

abbrev plenty : ℕ → Bool
plenty n = true

abbrev alive : Event
alive = record { kind = peer_keepalive; subject = null; payload = none }

abbrev no_events : EventQueue
no_events = init eventqueue_max blank

abbrev seconds : ℕ → TimeSpec
seconds s = record { sec = s; nsec = 0 }

abbrev two_timers : TimerQueue
two_timers = record {
  queue = new_timer 1 4 alive ∷ new_timer 2 6 alive ∷ [];
  setting = seconds 4;
  registered = true;
}

timerqueue_insert_lem_example :
    Returns
      (λ q'.
        deadlines 100 q'.queue
        ≡ enqueue
            (3, 100 + total (new_timer 3 5 alive))
            (pending 100 (some (seconds 1)) two_timers))
      (timerqueue_insert (some (seconds 1)) true two_timers (new_timer 3 5 alive))
timerqueue_insert_lem_example =
    timerqueue_insert_lem 100 (some (seconds 1)) true two_timers (new_timer 3 5 alive) (omega arith)

timerqueue_remove_lem_example :
    deadlines 100 (timerqueue_remove (some (seconds 1)) true two_timers 1).queue
    ≡ dequeue 1 (pending 100 (some (seconds 1)) two_timers)
timerqueue_remove_lem_example =
    timerqueue_remove_lem 100 (some (seconds 1)) true two_timers 1
      (unfold adjust total in omega arith)

timerqueue_extend_lem_example :
    deadlines 100 (timerqueue_extend (some (seconds 1)) true two_timers 1 10).queue
    ≡ postpone 1 (10 * nsec_per_sec) (pending 100 (some (seconds 1)) two_timers)
timerqueue_extend_lem_example =
    timerqueue_extend_lem 100 (some (seconds 1)) true two_timers 1 10
      (unfold adjust in (omega arith, (omega arith, tt))) (unfold adjust total in omega arith)

abbrev one_event : EventQueue
one_event = record no_events { slots = set no_events.slots 0 alive; qtail = 1; n = 1 }

push_alive : eventqueue_push no_events alive ≡ some one_event
unfolding eventqueue_push Ring.push init
push_alive = refl

abbrev expired : TimeSpec
expired = record { sec = 0; nsec = 0 }

abbrev with_queue : List Timer → TimeSpec → TimerQueue
with_queue v s = record { queue = v; setting = s; registered = true }

abbrev one_timer : TimerQueue
one_timer = with_queue (new_timer 1 4 alive ∷ []) (seconds 4)

abbrev both_timers : TimerQueue
both_timers = with_queue (new_timer 1 4 alive ∷ new_timer 2 0 alive ∷ []) (seconds 4)

abbrev second_timer : TimerQueue
second_timer = with_queue (new_timer 2 0 alive ∷ []) expired

first_in : timerqueue_insert none true timerqueue_init (new_timer 1 4 alive) ≡ ok one_timer
unfolding timerqueue_insert timerqueue_init
first_in = refl

second_in :
    timerqueue_insert (some (seconds 4)) true one_timer (new_timer 2 4 alive) ≡ ok both_timers
unfolding timerqueue_insert
second_in = refl

first_out : timer_fire (some expired) true both_timers no_events ≡ ok (second_timer, one_event)
unfolding timer_fire eventqueue_push init
first_out = refl

timer_fire_stalls_example :
    (second_timer.queue ≡ new_timer 2 0 alive ∷ []) × (second_timer.setting ≡ expired)
timer_fire_stalls_example =
    timer_fire_stalls 1 2 4 alive alive no_events first_in second_in first_out

-- A peer with three requests, to which no message waits to be sent.
abbrev some_peer : Peer
some_peer = record {
  connected = true;
  handshake_done = true;
  am_choking = true;
  am_interested = false;
  peer_choking = true;
  peer_interested = false;
  pieces = record { len = 1; bits = 0 ∷ [] };
  pieceshas = [];
  request_queue = (2 ^ 32 + 2) ∷ 7 ∷ (2 ^ 32 + 1) ∷ [];
  nrequests = 3;
  last_request = 0;
  connect_time = 0;
  uploaded = 0;
  downloaded = 0;
  attached = true;
  socket_open = true;
  txqueue = init txq_cap no_msg;
}

some_peer-HasRoom : HasRoom some_peer
some_peer-HasRoom = ((init-IsValid txq_cap no_msg (omega arith)).0, unfold init in omega arith)

bt_peer_removerequest_lem_example : Removal some_peer 7 (bt_peer_removerequest some_peer 0 7)
bt_peer_removerequest_lem_example = bt_peer_removerequest_lem some_peer 0 7 (omega arith)

abbrev block_set : ℕ → Bitset
block_set w = record { len = 1; bits = w ∷ [] }

abbrev asked_piece : Piece
asked_piece = record {
  hash = [];
  off = 0;
  length = 262144;
  nblocks = 16;
  nhave = 0;
  freq = 0;
  have = block_set 0;
  requested = block_set (2 ^ 24 * 255);
}

bt_peer_flushreqqueue_lem_example :
    let (p, t) = bt_peer_flushreqqueue some_peer (asked_piece ∷ asked_piece ∷ []) in
    (pending_requests p ≡ [])
    × ((i j : ℕ)
        → requested_at t i j ≡ (
            if asked (pending_requests some_peer) i j
            then false
            else requested_at (asked_piece ∷ asked_piece ∷ []) i j))
bt_peer_flushreqqueue_lem_example =
    bt_peer_flushreqqueue_lem some_peer (asked_piece ∷ asked_piece ∷ [])
      (omega arith, (omega arith, (omega arith, tt)))
