-- ===== src/TimerQueue.antt =====
-- src/timer_queue.h and src/timer_queue.c: one timerfd serves many timers. The queue keeps each
-- timer's delay after the one before it. What `timerfd_gettime` reports (`none` when it fails) and
-- whether `timerfd_settime` succeeds are arguments. A timer is shared with its owner by address;
-- its value lives in the queue while it is queued.
pub mod Deadlines
pub mod Calls
use libctorrent.Prelude.{
  ℕ, ◌+◌, ◌-◌, ◌*◌, ◌/◌, ◌%◌, ◌^◌, Bool, true, false, Option, none, some, List, [], ◌∷◌, ltb, ◌==◌,
  if◌then◌else◌, length,
}
use libctorrent.Prelude.Outcome.{Outcome, ok, failed, aborted}
use libctorrent.Event.{Event}
use libctorrent.EventQueue.{EventQueue, eventqueue_push}

abbrev pub timerqueue_cap : ℕ
timerqueue_cap = 128

abbrev pub nsec_per_sec : ℕ
nsec_per_sec = 1000000000

-- `it_value` of a `struct itimerspec`; the interval is always zero.
pub record TimeSpec : Type 0 where
  pub sec : ℕ
  pub nsec : ℕ

pub record Timer : Type 0 where
  pub address : ℕ
  pub value : TimeSpec
  pub payload : Event

-- `setting` is what the timerfd was last set to, and zero switches it off.
pub record TimerQueue : Type 0 where
  pub queue : List Timer
  pub setting : TimeSpec
  pub registered : Bool

-- The nanoseconds of a timer, as `timer_cmp`, `timer_sub` and `timer_add` compute them in `uint64`.
unfoldable pub total : Timer → ℕ
total t = (t.value.sec * nsec_per_sec + t.value.nsec) % 2 ^ 64

-- `timer_cmp(a, b) < 0`
unfoldable pub timer_before : Timer → Timer → Bool
unfolding total
timer_before a b = ltb (total a) (total b)

unfoldable pub timer_sub : Timer → Timer → Timer
unfolding total
timer_sub a b =
    let diff = (total a + 2 ^ 64 - total b) % 2 ^ 64 in
    record a { value = record { sec = diff / nsec_per_sec; nsec = diff % nsec_per_sec } }

unfoldable pub timer_add : Timer → Timer → Timer
unfolding total
timer_add a b =
    let sum = (total a + total b) % 2 ^ 64 in
    record a { value = record { sec = sum / nsec_per_sec; nsec = sum % nsec_per_sec } }

-- `sink`: the list is the part of the array from the loop's `i` on.
unfoldable pub sink : Timer → List Timer → List Timer
unfolding timer_before timer_sub
sink timer [] = timer ∷ []
sink timer (x ∷ v) =
    let further = x ∷ sink (timer_sub timer x) v in
    if timer_before timer x then timer ∷ timer_sub x timer ∷ v else further

-- `tq->queue[0]->value = rem`, where `timerfd_gettime` succeeded.
unfoldable pub adjust : Option TimeSpec → List Timer → List Timer
adjust rem [] = []
adjust none (x ∷ v) = x ∷ v
adjust (some r) (x ∷ v) = record x { value = r } ∷ v

-- `timerqueue_disarm`; its result is never looked at.
unfoldable pub disarm : Option TimeSpec → TimerQueue → TimerQueue
unfolding adjust
disarm rem q = elim q.queue [
  | [] ↦ q
  | x ∷ v ↦ record q { queue = adjust rem (x ∷ v); registered = false }
]

-- `timerqueue_arm`; its result is never looked at.
unfoldable pub arm : Bool → TimerQueue → TimerQueue
arm set q = elim q.queue [
  | [] ↦ q
  | x ∷ v ↦ if set then record q { setting = x.value; registered = true } else q
]

-- `bt_timerqueue_insert`
unfoldable pub timerqueue_insert : Option TimeSpec → Bool → TimerQueue → Timer → Outcome TimerQueue
unfolding disarm arm sink
timerqueue_insert rem set q timer =
    if ltb (length q.queue) timerqueue_cap
    then (let q' = disarm rem q in ok (arm set (record q' { queue = sink timer q'.queue })))
    else aborted

-- The loop of `bt_timerqueue_remove`: the slot that is freed hands its delay to the next.
unfoldable pub remove_from : ℕ → List Timer → List Timer
unfolding timer_add
remove_from address [] = []
remove_from address (x ∷ []) = if x.address == address then [] else x ∷ []
remove_from address (x ∷ y ∷ v) =
    let rest = x ∷ remove_from address (y ∷ v) in
    if x.address == address then timer_add y x ∷ v else rest

-- `bt_timerqueue_remove`
unfoldable pub timerqueue_remove : Option TimeSpec → Bool → TimerQueue → ℕ → TimerQueue
unfolding disarm arm remove_from
timerqueue_remove rem set q address =
    let q' = disarm rem q in arm set (record q' { queue = remove_from address q'.queue })

-- `timer->value.it_value.tv_sec += incr`
abbrev pub later : ℕ → Timer → Timer
later incr t = record t { value = record { sec = t.value.sec + incr; nsec = t.value.nsec } }

-- The loop of `bt_timerqueue_extend`.
unfoldable pub extend_from : ℕ → ℕ → List Timer → List Timer
unfolding timer_add sink
extend_from address incr [] = []
extend_from address incr (x ∷ []) = if x.address == address then later incr x ∷ [] else x ∷ []
extend_from address incr (x ∷ y ∷ v) =
    let rest = x ∷ extend_from address incr (y ∷ v) in
    if x.address == address then sink (later incr x) (timer_add y x ∷ v) else rest

-- `bt_timerqueue_extend`
unfoldable pub timerqueue_extend : Option TimeSpec → Bool → TimerQueue → ℕ → ℕ → TimerQueue
unfolding disarm arm extend_from
timerqueue_extend rem set q address incr =
    let q' = disarm rem q in arm set (record q' { queue = extend_from address incr q'.queue })

-- `timer_fire`, called when the timerfd has expired. On an empty queue `pop` would move memory
-- from before the array, and on a full event queue the push fails its `assert`.
unfoldable pub timer_fire :
    Option TimeSpec → Bool → TimerQueue → EventQueue → Outcome (TimerQueue × EventQueue)
unfolding disarm arm eventqueue_push
timer_fire rem set q events = elim (disarm rem q).queue [
  | [] ↦ aborted
  | x ∷ v ↦ elim (eventqueue_push events x.payload) [
    | none ↦ aborted
    | some events' ↦ ok (arm set (record (disarm rem q) { queue = v }), events')
  ]
]

-- `bt_timerqueue_init`, once `timerfd_create` has succeeded.
unfoldable pub timerqueue_init : TimerQueue
timerqueue_init = record { queue = []; setting = record { sec = 0; nsec = 0 }; registered = false }

-- TIMER(v, e) at an address.
abbrev pub new_timer : ℕ → ℕ → Event → Timer
new_timer address v e = record {
  address = address;
  value = record { sec = v; nsec = 0 };
  payload = e;
}
