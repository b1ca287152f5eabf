-- ===== src/TimerQueue/Calls.antt =====
-- The calls of the timer queue on the deadlines that are pending.
use libctorrent.Prelude.{
  ℕ, ◌+◌, ◌-◌, ◌*◌, ◌^◌, ◌%◌, ◌<◌, ◌≡◌, refl, ap, sym, ◌∙◌, Bool, true, Option, none, some, List,
  [], ◌∷◌, arith, ltb, length, Option-cases, ◌⊎◌, inl, inr,
}
use libctorrent.Prelude.Outcome.{ok, Returns}
use libctorrent.Event.{Event}
use libctorrent.EventQueue.{EventQueue, eventqueue_push}
use libctorrent.TimerQueue.{
  TimeSpec, Timer, TimerQueue, timerqueue_cap, nsec_per_sec, total, sink, adjust, disarm, arm,
  remove_from, extend_from, timerqueue_insert, timerqueue_remove, timerqueue_extend, timer_fire,
  timerqueue_init, new_timer,
}
use libctorrent.TimerQueue.Deadlines.{
  Due, deadlines, enqueue, dequeue, postpone, span, Unwrapped, deadlines-sink,
  deadlines-remove_from, deadlines-extend_from,
}

queue-disarm : (rem : Option TimeSpec) (q : TimerQueue) → (disarm rem q).queue ≡ adjust rem q.queue
unfolding disarm
queue-disarm rem q = by_queue q.queue refl
  where
    by_queue : (v : List Timer) → q.queue ≡ v → (disarm rem q).queue ≡ adjust rem q.queue
    by_queue [] e = ground (arith, e)
    by_queue (x ∷ v) e = ground (arith, e)

queue-arm : (set : Bool) (q : TimerQueue) → (arm set q).queue ≡ q.queue
unfolding arm
queue-arm set q = by_queue q.queue refl
  where
    by_queue : (v : List Timer) → q.queue ≡ v → (arm set q).queue ≡ q.queue
    by_queue [] e = ground (arith, e)
    by_queue (x ∷ v) e = ground (arith, e)

-- The deadlines of a queue at time `now`, when the timerfd reports `rem` for the first timer.
abbrev pub pending : ℕ → Option TimeSpec → TimerQueue → List Due
pending now rem q = deadlines now (adjust rem q.queue)

-- `bt_timerqueue_insert` on a queue with room adds the timer's deadline behind every one that is
-- not later and moves none that was pending.
pub timerqueue_insert_lem :
    (now : ℕ) (rem : Option TimeSpec) (set : Bool) (q : TimerQueue) (t : Timer)
    → length q.queue < timerqueue_cap
    → Returns
        (λ q'. deadlines now q'.queue ≡ enqueue (t.address, now + total t) (pending now rem q))
        (timerqueue_insert rem set q t)
unfolding timerqueue_insert
timerqueue_insert_lem now rem set q t h =
    let room : ltb (length q.queue) timerqueue_cap ≡ true = ground arith in
    let q' = disarm rem q in
    rw room (
      ap (deadlines now) (queue-arm set (record q' { queue = sink t q'.queue }))
      ∙ deadlines-sink now t q'.queue
      ∙ ap (λ v. enqueue (t.address, now + total t) (deadlines now v)) (queue-disarm rem q))

-- `bt_timerqueue_remove` takes the timer's deadline out and moves no other, if the pending delays
-- add up to less than 2^64 nanoseconds.
pub timerqueue_remove_lem :
    (now : ℕ) (rem : Option TimeSpec) (set : Bool) (q : TimerQueue) (address : ℕ)
    → span (adjust rem q.queue) < 2 ^ 64
    → deadlines now (timerqueue_remove rem set q address).queue
      ≡ dequeue address (pending now rem q)
unfolding timerqueue_remove
timerqueue_remove_lem now rem set q address h =
    let q' = disarm rem q in
    ap (deadlines now) (queue-arm set (record q' { queue = remove_from address q'.queue }))
    ∙ ap (λ v. deadlines now (remove_from address v)) (queue-disarm rem q)
    ∙ deadlines-remove_from now address (adjust rem q.queue) h

-- `bt_timerqueue_extend` by `incr` seconds moves the timer's deadline by that much, behind every one
-- that is not later, and moves no other, if no sum of delays reaches 2^64 nanoseconds.
pub timerqueue_extend_lem :
    (now : ℕ) (rem : Option TimeSpec) (set : Bool) (q : TimerQueue) (address incr : ℕ)
    → Unwrapped (adjust rem q.queue)
    → span (adjust rem q.queue) + incr * nsec_per_sec < 2 ^ 64
    → deadlines now (timerqueue_extend rem set q address incr).queue
      ≡ postpone address (incr * nsec_per_sec) (pending now rem q)
unfolding timerqueue_extend
timerqueue_extend_lem now rem set q address incr u h =
    let q' = disarm rem q in
    ap (deadlines now) (queue-arm set (record q' { queue = extend_from address incr q'.queue }))
    ∙ ap (λ v. deadlines now (extend_from address incr v)) (queue-disarm rem q)
    ∙ deadlines-extend_from now address incr (adjust rem q.queue) u h

abbrev expired : TimeSpec
expired = record { sec = 0; nsec = 0 }

-- When the timerfd has expired and the event queue takes the event, firing pushes the first timer's
-- event and takes that timer out; it was due now, and every other deadline stays.
pub timer_fire_lem :
    (now : ℕ) (set : Bool) (q : TimerQueue) (x : Timer) (v : List Timer)
    (events events' : EventQueue)
    → q.queue ≡ x ∷ v
    → eventqueue_push events x.payload ≡ some events'
    → (q' : TimerQueue) × (timer_fire (some expired) set q events ≡ ok (q', events'))
      × (q'.queue ≡ v)
      × (pending now (some expired) q ≡ (x.address, now) ∷ deadlines now q'.queue)
unfolding timer_fire deadlines total
timer_fire_lem now set q x v events events' e pushed =
    let q' = record (disarm (some expired) q) { queue = v } in
    let due : (disarm (some expired) q).queue ≡ record x { value = expired } ∷ v =
      queue-disarm (some expired) q ∙ ap (adjust (some expired)) e in
    let zero : now + 0 ≡ now = omega arith in
    (
      arm set q',
      ground (arith, due, pushed),
      queue-arm set q',
      ap (λ u. deadlines now (adjust (some expired) u)) e
          ∙ rw zero (ap (λ u. (x.address, now) ∷ deadlines now u) (sym (queue-arm set q'))),
    )

ok-injective : {A : Type 0} {a b : A} → ok a ≡ ok b → a ≡ b
ok-injective e = cc

sink_tie :
    (x y : Timer) → total x ≡ total y → sink y (x ∷ []) ≡ x ∷ record y { value = expired } ∷ []
unfolding sink
sink_tie x y e =
    let zero : (total y + 2 ^ 64 - total y) % 2 ^ 64 ≡ 0 = omega arith in ground (arith, e, zero)

-- Two timers of the same whole number of seconds, inserted at the same moment into a fresh queue:
-- when the first fires, the second is still queued but the timerfd is set to zero, which switches
-- it off.
pub timer_fire_stalls :
    (a b sec : ℕ) (e f : Event) (events : EventQueue) {q₁ q₂ q₃ : TimerQueue} {after : EventQueue}
    → timerqueue_insert none true timerqueue_init (new_timer a sec e) ≡ ok q₁
    → timerqueue_insert (some (record { sec = sec; nsec = 0 })) true q₁ (new_timer b sec f) ≡ ok q₂
    → timer_fire (some expired) true q₂ events ≡ ok (q₃, after)
    → (q₃.queue ≡ new_timer b 0 f ∷ []) × (q₃.setting ≡ expired)
unfolding timerqueue_insert timer_fire timerqueue_init total
timer_fire_stalls a b sec e f events {q₁} {q₂} {q₃} {after} p q r =
    let first : q₁ ≡ alone = ground arith in
    let second : q₂ ≡ both = ok-injective (sym q ∙ rw (first, tie) refl) in
    fired (Option-cases (eventqueue_push events e)) (rw second at r)
  where
    x : Timer
    x = new_timer a sec e

    y : Timer
    y = new_timer b sec f

    alone : TimerQueue
    alone = record { queue = x ∷ []; setting = x.value; registered = true }

    both : TimerQueue
    both = record { queue = x ∷ new_timer b 0 f ∷ []; setting = x.value; registered = true }

    tie : sink y (x ∷ []) ≡ x ∷ new_timer b 0 f ∷ []
    tie = sink_tie x y refl

    fired :
        (eventqueue_push events e ≡ none) ⊎ ((o : EventQueue) × (eventqueue_push events e ≡ some o))
        → timer_fire (some expired) true both events ≡ ok (q₃, after)
        → (q₃.queue ≡ new_timer b 0 f ∷ []) × (q₃.setting ≡ expired)
    fired (inl full) k = ground (arith, full)
    fired (inr (o, pushed)) k = ground (arith, pushed)
