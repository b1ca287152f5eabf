-- ===== src/Tests/Loops.antt =====
-- src/eventloop.c and src/util/vector.h at concrete inputs.
use libctorrent.Prelude.{
  ℕ, ◌≤◌, ◌<◌, ◌≡◌, ◌⊎◌, refl, Bool, true, false, none, some, List, [], ◌∷◌, ◌++◌, length, arith,
}
use libctorrent.Prelude.Int.{pos}
use libctorrent.Prelude.Outcome.{ok, failed, aborted}
use libctorrent.Ring.Laws.{init-IsValid}
use libctorrent.Event.{Event, peer_disconnect, peer}
use libctorrent.EventQueue.{EventQueue, eventqueue_max, blank, eventqueue_init}
use libctorrent.Vector.{Vector, vector_pushback}
use libctorrent.Vector.Laws.{IsSized, vector_pushback_lem}
use libctorrent.EventLoop.{
  EventProducer, EventLoop, returns, bt_eventloop_register, bt_eventloop_unregister,
  bt_eventloop_run,
}
use libctorrent.EventLoop.Burst.{
  events, IsValid, push_one, readable_all, each, bt_eventloop_run_burst,
}
use libctorrent.EventLoop.Registry.{bt_eventloop_unregister-register}

abbrev eight : Vector ℕ
eight = record { cap = 8; data_of = 1 ∷ 2 ∷ 3 ∷ 4 ∷ 5 ∷ 6 ∷ 7 ∷ 8 ∷ [] }

vector_pushback_lem_example :
    ((w : Vector ℕ) × (vector_pushback (λ n. true) 8 eight 9 ≡ ok w)
      × (w.data_of ≡ eight.data_of ++ 9 ∷ [])
      × IsSized w)
    ⊎ ((true ≡ false) × (vector_pushback (λ n. true) 8 eight 9 ≡ failed))
vector_pushback_lem_example =
    vector_pushback_lem (λ n. true) 8 eight 9 (omega arith, λ e. absurd (omega (arith, e)))

-- A producer that tells of a disconnect when it is read from.
abbrev gone : ℕ → Event
gone i = record { kind = peer_disconnect; subject = peer i; payload = none }

abbrev quitters : ℕ → EventProducer Bool
quitters i = record { on_read = push_one (pos 1) (gone i); on_write = none; on_destroy = none }

abbrev two : List ℕ
two = 3 ∷ 4 ∷ []

abbrev loop : EventLoop
loop = record { emitters = eight; watched = [] }

bt_eventloop_unregister-register_example :
    (busy : EventLoop) × (bt_eventloop_register (λ n. true) true loop 40 9 (quitters 9) ≡ ok busy)
    × ((idle : EventLoop) × (bt_eventloop_unregister busy 40 9 ≡ ok (true, idle))
        × (idle.emitters.data_of ≡ loop.emitters.data_of)
        × (idle.watched ≡ loop.watched))
bt_eventloop_unregister-register_example =
    bt_eventloop_unregister-register (λ n. true) loop 40 9 (quitters 9) (λ n. refl)
      (omega arith, λ e. absurd (omega (arith, e)))
      (
        omega arith,
        (
          omega arith,
          (
            omega arith,
            (omega arith, (omega arith, (omega arith, (omega arith, (omega arith, tt))))),
          ),
        ),
      )
      refl

no_events-IsValid : IsValid eventqueue_init
unfolding eventqueue_init
no_events-IsValid = (init-IsValid eventqueue_max blank (omega arith)).0

no_events_none : eventqueue_init.n ≡ 0
unfolding eventqueue_init
no_events_none = refl

bt_eventloop_run_burst_example :
    ((length two ≤ eventqueue_max)
      × (r : EventQueue) × (bt_eventloop_run quitters
            (some (readable_all two) ∷ [])
            true
            eventqueue_init
          ≡ ok (record { end = returns (pos 1); state = true; queue = r }))
      × (events r ≡ each gone two))
    ⊎ ((eventqueue_max < length two)
        × (bt_eventloop_run quitters (some (readable_all two) ∷ []) true eventqueue_init ≡ aborted))
bt_eventloop_run_burst_example =
    bt_eventloop_run_burst quitters (pos 1) gone 3 (4 ∷ []) [] true eventqueue_init (λ i. refl)
      no_events-IsValid no_events_none
