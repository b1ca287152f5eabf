-- ===== src/Swarm/Step.antt =====
-- The main loop of `bt_torrent_start` in src/torrent.c as a step relation.
use libctorrent.Prelude.{ℕ, ◌≡◌, Bool, true, some, List, [], ◌∷◌}
use libctorrent.Prelude.Outcome.{ok}
use libctorrent.Event.{Event}
use libctorrent.EventQueue.{EventQueue, eventqueue_isempty, eventqueue_pop}
use libctorrent.TimerQueue.{TimerQueue}
use libctorrent.Peer.{Peer}
use libctorrent.Peer.Handlers.{World}
use libctorrent.Swarm.{Swarm, handle_event, bt_markinterest}

-- Where the loop is: before `bt_eventloop_run`, or in the loop over the events.
pub data Phase : Type 0 where
  waiting handling : Phase

-- What the callbacks that `bt_eventloop_run` calls do to the peers: they take messages off the
-- queues of messages, or put one back.
pub data Sent : List Peer → List Peer → Type 0 where
  none_left : Sent [] []
  sent :
      {p q : Peer} {v u : List Peer}
      → q ≡ record p { txqueue = q.txqueue }
      → Sent v u
      → Sent (p ∷ v) (q ∷ u)

-- The swarm while an event that was popped is handled.
abbrev pub popped : Swarm → EventQueue → Swarm
popped s q = record s { torrent = record s.torrent { evqueue = q } }

abbrev pub polled : Swarm → EventQueue → TimerQueue → List Peer → Swarm
polled s q timers v = record {
  torrent = record s.torrent { evqueue = q; tmqueue = timers };
  peers = v;
}

-- `woken`: `bt_eventloop_run` returns with any events, timers and messages. `handled`: an event is
-- popped and handled. `settled`: no event is left, and `bt_markinterest` ends the turn.
pub data Step : Phase → Swarm → Phase → Swarm → Type 0 where
  woken :
      (s : Swarm) (q : EventQueue) (timers : TimerQueue) (v : List Peer)
      → Sent s.peers v
      → Step waiting s handling (polled s q timers v)
  handled :
      (w : World) (s s' : Swarm) (e : Event) (q : EventQueue)
      → eventqueue_pop s.torrent.evqueue ≡ some (e, q)
      → handle_event w e (popped s q) ≡ ok s'
      → Step handling s handling s'
  settled :
      (alloc : ℕ → Bool) (s : Swarm) (v : List Peer)
      → eventqueue_isempty s.torrent.evqueue ≡ true
      → bt_markinterest alloc s.torrent s.peers ≡ ok v
      → Step handling s waiting (record s { peers = v })

-- Any number of turns.
pub data Steps : Phase → Swarm → Phase → Swarm → Type 0 where
  here : {f : Phase} {s : Swarm} → Steps f s f s
  then_step : {f g h : Phase} {s t u : Swarm} → Steps f s g t → Step g t h u → Steps f s h u
