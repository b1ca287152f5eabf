-- ===== src/EventQueue.antt =====
-- src/eventqueue.h: the queue of events between the producers and the torrent's main loop, a
-- circular array of 128 events (`Ring`).
use libctorrent.Prelude.{ℕ, ◌==◌, Bool, Option, none}
use libctorrent.Ring
use libctorrent.Ring.{Ring}
use libctorrent.Event.{Event, none_event, null}

abbrev pub eventqueue_max : ℕ
eventqueue_max = 128

-- What zeroed memory holds: `EVENTQUEUE_INIT` names only the indices.
abbrev pub blank : Event
blank = record { kind = none_event; subject = null; payload = none }

abbrev pub EventQueue : Type 0
EventQueue = Ring Event

unfoldable pub eventqueue_init : EventQueue
unfolding Ring.init
eventqueue_init = Ring.init eventqueue_max blank

-- `none` is the failed `assert` on a full queue.
unfoldable pub eventqueue_push : EventQueue → Event → Option EventQueue
unfolding Ring.push
eventqueue_push q e = Ring.push eventqueue_max blank q e

unfoldable pub eventqueue_isempty : EventQueue → Bool
eventqueue_isempty q = q.n == 0

-- `none` is the answer BT_EVNONE to an empty queue.
unfoldable pub eventqueue_pop : EventQueue → Option (Event × EventQueue)
unfolding Ring.pop
eventqueue_pop q = Ring.pop eventqueue_max blank q
