-- ===== src/EventLoop/Burst.antt =====
-- The queue of events when many producers are ready at once (src/eventloop.c, src/eventqueue.h).
use libctorrent.Prelude.{
  ℕ, ◌+◌, ◌≤◌, ◌<◌, ◌≡◌, ◌⊎◌, refl, ap, sym, ◌∙◌, true, false, none, some, Option, List, [], ◌∷◌,
  ◌++◌, append_assoc, append-nil, ◌==◌, length, length-append, arith, inl, inr,
}
use libctorrent.Prelude.Int.{ℤ, pos}
use libctorrent.Prelude.Outcome.{Outcome, ok, failed, aborted, ◌>>=◌}
use libctorrent.Ring.Laws
use libctorrent.Ring.Laws.{contents, push_refines, length-window, window}
use libctorrent.Event.{Event}
use libctorrent.EventQueue.{EventQueue, eventqueue_max, blank, eventqueue_push, eventqueue_isempty}
use libctorrent.EventLoop.{
  Called, Callback, EventProducer, Ready, returns, ended, batch_loop, run_loop, bt_eventloop_run,
}

-- The events that wait, oldest first.
abbrev pub events : EventQueue → List Event
events q = contents eventqueue_max blank q

abbrev pub IsValid : EventQueue → Type 0
IsValid q = Laws.IsValid eventqueue_max blank q

-- A callback that pushes an event and returns `code`; the queue's assertion may fail.
abbrev pub stored_by : {S : Type 0} → ℤ → S → Option EventQueue → Outcome (Called S)
stored_by code state none = aborted
stored_by code state (some q) = ok (record { err = code; state = state; queue = q })

abbrev pub push_one : {S : Type 0} → ℤ → Event → Callback S
push_one code e = some (λ state q. stored_by code state (eventqueue_push q e))

-- Producers that can be read from, and their events.
abbrev pub readable_all : List ℕ → List Ready
readable_all [] = []
readable_all (i ∷ v) =
    record { producer = i; hangup = false; readable = true; writable = false } ∷ readable_all v

abbrev pub each : (ℕ → Event) → List ℕ → List Event
each e [] = []
each e (i ∷ v) = e i ∷ each e v

-- One event more, or none for a full queue.
pub push_cases :
    (q : EventQueue) (e : Event)
    → IsValid q
    → ((q.n ≡ eventqueue_max) × (eventqueue_push q e ≡ none))
      ⊎ ((r : EventQueue) × (eventqueue_push q e ≡ some r)
          × (r.n ≡ q.n + 1)
          × IsValid r
          × (events r ≡ events q ++ e ∷ []))
unfolding eventqueue_push
push_cases q e valid = elim (push_refines eventqueue_max blank q e valid) [
  | inl (full, refused) ↦ inl (full, refused)
  | inr (r, room, done, good, grown) ↦
      let more = ap (λ (v : List Event). length v) grown in
      let old_size = length-window eventqueue_max blank q.slots q.qhead q.n in
      let new_size = length-window eventqueue_max blank r.slots r.qhead r.n in
      let both = length-append (events q) (e ∷ []) in
      inr (r, done, omega (arith, more, old_size, new_size, both), good, grown)
]

module _ {S : Type 0} (producers : ℕ → EventProducer S) (code : ℤ) (e : ℕ → Event)
    (tells : (i : ℕ) → (producers i).on_read ≡ push_one code (e i)) where
  abbrev after : S → EventQueue → Called S
  after state q = record { err = code; state = state; queue = q }

  -- A producer that is read.
  read_one :
      (i : ℕ) (v : List ℕ) (err : ℤ) (state : S) (q : EventQueue)
      → batch_loop producers (readable_all (i ∷ v)) (record { err = err; state = state; queue = q })
        ≡ stored_by code state (eventqueue_push q (e i)) >>= λ c.
            batch_loop producers (readable_all v) c
  unfolding batch_loop
  read_one i v err state q =
      rw (tells i) (bind_ok (stored_by code state (eventqueue_push q (e i))) v)
    where
      bind_ok :
          (m : Outcome (Called S)) (v : List ℕ)
          → (m >>= (λ c. ok c) >>= λ c. batch_loop producers (readable_all v) c)
            ≡ (m >>= λ c. batch_loop producers (readable_all v) c)
      bind_ok (ok c) v = refl
      bind_ok failed v = refl
      bind_ok aborted v = refl

  -- All of their events, in order, or too many.
  abbrev Burst : List ℕ → Called S → EventQueue → S → Type 0
  Burst v c q state =
      ((q.n + length v ≤ eventqueue_max)
        × (r : EventQueue) × (batch_loop producers (readable_all v) c ≡ ok (after state r))
        × IsValid r
        × (r.n ≡ q.n + length v)
        × (events r ≡ events q ++ each e v))
      ⊎ ((eventqueue_max < q.n + length v) × (batch_loop producers (readable_all v) c ≡ aborted))

  next-Burst :
      (i : ℕ) (v : List ℕ) (err : ℤ) (state : S) (q : EventQueue)
      → IsValid q
      → ((r : EventQueue) → IsValid r → Burst v (after state r) r state)
      → Burst (i ∷ v) (record { err = err; state = state; queue = q }) q state
  next-Burst i v err state q valid further = elim (push_cases q (e i) valid) [
    | inl (full, refused) ↦ inr (
      omega (arith, full),
      read_one i v err state q
          ∙ ap (λ m. stored_by code state m >>= λ c. batch_loop producers (readable_all v) c)
              refused,
    )
    | inr (r, done, one_more, good, grown) ↦
        let step =
          read_one i v err state q
          ∙ ap (λ m. stored_by code state m >>= λ c. batch_loop producers (readable_all v) c)
              done in
        elim (further r good) [
          | inr (many, stops) ↦ inr (omega (arith, one_more, many), step ∙ stops)
          | inl (few, w, goes, fine, size, whole) ↦ inl (
            omega (arith, one_more, few),
            w,
            step ∙ goes,
            fine,
            omega (arith, one_more, size),
            whole ∙ ap (λ u. u ++ each e v) grown ∙ append_assoc (events q) (e i ∷ []) (each e v),
          )
        ]
  ]

  burst_lem :
      (v : List ℕ) (state : S) (q : EventQueue) → IsValid q → Burst v (after state q) q state
  unfolding batch_loop
  burst_lem [] state q valid =
      inl (omega (arith, valid.bounded), q, refl, valid, omega arith, sym (append-nil (events q)))
  burst_lem (i ∷ v) state q valid =
      next-Burst i v code state q valid (λ r good. burst_lem v state r good)

-- With an event in the queue the loop ends.
run_loop_busy :
    {S : Type 0} (producers : ℕ → EventProducer S) (s : List (Option (List Ready))) (c : Called S)
    → eventqueue_isempty c.queue ≡ false
    → run_loop producers s c ≡ ended (returns c.err) c
unfolding run_loop
run_loop_busy producers [] c busy = rw busy refl
run_loop_busy producers (none ∷ s) c busy = rw busy refl
run_loop_busy producers (some batch ∷ s) c busy = rw busy refl

-- Let the producers push one event each when they are read from, and let epoll report that any of
-- them, at least one, can be read from, while no event waits. When there are at most 128 of them,
-- `bt_eventloop_run` returns with exactly their events, in order. When there are more, of which
-- epoll reports up to 256 at once, the assertion of the queue fails.
pub bt_eventloop_run_burst :
    {S : Type 0} (producers : ℕ → EventProducer S) (code : ℤ) (e : ℕ → Event) (i : ℕ) (v : List ℕ)
    (s : List (Option (List Ready))) (state : S) (q : EventQueue)
    → ((i : ℕ) → (producers i).on_read ≡ push_one code (e i))
    → IsValid q
    → q.n ≡ 0
    → let out = bt_eventloop_run producers (some (readable_all (i ∷ v)) ∷ s) state q in
      ((length (i ∷ v) ≤ eventqueue_max)
        × (r : EventQueue) × (out ≡ ok (record { end = returns code; state = state; queue = r }))
        × (events r ≡ each e (i ∷ v)))
      ⊎ ((eventqueue_max < length (i ∷ v)) × (out ≡ aborted))
unfolding bt_eventloop_run run_loop eventqueue_isempty
bt_eventloop_run_burst {S = S} producers code e i v s state q tells valid none_waits =
    let c : Called S = record { err = pos 0; state = state; queue = q } in
    let idle : eventqueue_isempty q ≡ true = ground arith in
    let empty : events q ≡ [] =
      ap (λ n. window eventqueue_max blank q.slots q.qhead n) none_waits in
    elim (next-Burst producers code e tells i v (pos 0) state q valid
      (λ r good. burst_lem producers code e tells v state r good)) [
        | inr (many, stops) ↦ inr (omega (arith, none_waits, many), rw (idle, stops) refl)
        | inl (few, r, goes, fine, size, whole) ↦ inl (
          omega (arith, none_waits, few),
          r,
          rw (idle, goes)
              (run_loop_busy producers s (record { err = code; state = state; queue = r })
                (busy_by (omega (arith, size)))),
          whole ∙ ap (λ u. u ++ each e (i ∷ v)) empty,
        )
      ]
  where
    busy_by : {n : ℕ} → 0 < n → (n == 0) ≡ false
    busy_by h = ground arith
