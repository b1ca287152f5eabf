-- ===== src/EventLoop.antt =====
-- src/eventloop.h and src/eventloop.c: the producers of events and the descriptors that they wait on.
-- What epoll answers to the calls of it is an argument; `S` is all that the producers' callbacks change
-- besides the queue of events.
pub mod Registry
pub mod Burst
use libctorrent.Prelude.{
  ℕ, zero, suc, ◌+◌, Bool, true, false, not, ◌&&◌, Option, none, some, List, [], ◌∷◌, ◌++◌, ltb,
  ◌==◌, if◌then◌else◌,
}
use libctorrent.Prelude.Int.{ℤ, pos, negsuc}
use libctorrent.Prelude.Outcome.{Outcome, ok, failed, aborted, ◌>>=◌}
use libctorrent.EventQueue.{EventQueue, eventqueue_isempty}
use libctorrent.Vector.{Vector, vector, vector_pushback, vector_remove}

-- What a callback returns and leaves.
pub record Called (S : Type 0) : Type 0 where
  pub err : ℤ
  pub state : S
  pub queue : EventQueue

abbrev pub Callback : Type 0 → Type 0
Callback S = Option (S → EventQueue → Outcome (Called S))

-- `struct bt_eventproducer`
pub record EventProducer (S : Type 0) : Type 0 where
  pub on_read : Callback S
  pub on_write : Callback S
  pub on_destroy : Callback S

-- An entry of epoll for a descriptor: the producer and what it waits for.
pub record Watch : Type 0 where
  pub fd : ℕ
  pub producer : ℕ
  pub input : Bool
  pub output : Bool
  pub oneshot : Bool

-- The loop with its producers, by number, and what epoll holds.
pub record EventLoop : Type 0 where
  pub emitters : Vector ℕ
  pub watched : List Watch

-- `bt_eventloop_init`
unfoldable pub bt_eventloop_init : Bool → Outcome EventLoop
bt_eventloop_init creates =
    if creates then ok (record { emitters = vector ℕ; watched = [] }) else failed

abbrev pub is_set : {S : Type 0} → Callback S → Bool
is_set none = false
is_set (some f) = true

abbrev pub watch_for : {S : Type 0} → EventProducer S → ℕ → ℕ → Bool → Watch
watch_for prod fd id oneshot = record {
  fd = fd;
  producer = id;
  input = is_set prod.on_read;
  output = is_set prod.on_write;
  oneshot = oneshot;
}

-- `epoll_ctl` adds the entry, or the process exits.
abbrev pub add_watch : Bool → EventLoop → Watch → Outcome EventLoop
add_watch accepts loop w =
    if not (w.input) && not (w.output)
    then aborted
    else if accepts
    then ok (record loop { watched = w ∷ loop.watched })
    else aborted

-- `bt_eventloop_register`; a pointer takes 8 bytes.
unfoldable pub bt_eventloop_register :
    {S : Type 0} → (ℕ → Bool) → Bool → EventLoop → ℕ → ℕ → EventProducer S → Outcome EventLoop
bt_eventloop_register alloc accepts loop fd id prod =
    vector_pushback alloc 8 loop.emitters id >>= λ v.
    add_watch accepts (record loop { emitters = v }) (watch_for prod fd id false)

-- The entry for a descriptor is replaced.
abbrev pub modify : ℕ → Watch → List Watch → List Watch
modify fd w [] = []
modify fd w (x ∷ v) = let rest = modify fd w v in if x.fd == fd then w ∷ v else x ∷ rest

-- `bt_eventloop_oneshot`
unfoldable pub bt_eventloop_oneshot :
    {S : Type 0} → Bool → EventLoop → ℕ → ℕ → EventProducer S → Outcome EventLoop
bt_eventloop_oneshot accepts loop fd id prod =
    if accepts
    then ok (record loop { watched = modify fd (watch_for prod fd id true) loop.watched })
    else aborted

abbrev pub next_index : Option ℕ → Option ℕ
next_index none = none
next_index (some i) = some (suc i)

-- The index of the producer's first occurrence.
unfoldable pub index_of : ℕ → List ℕ → Option ℕ
index_of id [] = none
index_of id (x ∷ v) = let rest = index_of id v in if x == id then some 0 else next_index rest

abbrev pub forget : ℕ → List Watch → List Watch
forget fd [] = []
forget fd (x ∷ v) = let rest = forget fd v in if x.fd == fd then v else x ∷ rest

abbrev pub unregister_at : EventLoop → ℕ → Option ℕ → Outcome (Bool × EventLoop)
unregister_at loop fd none = ok (false, loop)
unregister_at loop fd (some i) = vector_remove loop.emitters i >>= λ v.
    ok (true, record { emitters = v; watched = forget fd loop.watched })

-- `bt_eventloop_unregister`; what `epoll_ctl` answers is not looked at.
unfoldable pub bt_eventloop_unregister : EventLoop → ℕ → ℕ → Outcome (Bool × EventLoop)
bt_eventloop_unregister loop fd id = unregister_at loop fd (index_of id loop.emitters.data_of)

-- A descriptor that epoll reports.
pub record Ready : Type 0 where
  pub producer : ℕ
  pub hangup : Bool
  pub readable : Bool
  pub writable : Bool

-- How `bt_eventloop_run` ends: it returns, or it waits for events that do not come.
pub data End : Type 0 where
  returns : ℤ → End
  waits : End

pub record Ran (S : Type 0) : Type 0 where
  pub end : End
  pub state : S
  pub queue : EventQueue

abbrev pub ended : {S : Type 0} → End → Called S → Outcome (Ran S)
ended e c = ok (record { end = e; state = c.state; queue = c.queue })

-- A call through NULL is a fault.
abbrev pub call : {S : Type 0} → Callback S → Called S → Outcome (Called S)
call none c = aborted
call (some f) c = f c.state c.queue

abbrev pub call_if_set : {S : Type 0} → Callback S → Called S → Outcome (Called S)
call_if_set none c = ok c
call_if_set (some f) c = f c.state c.queue

module _ {S : Type 0} (producers : ℕ → EventProducer S) where
  -- The body of the `for` loop.
  abbrev pub serve_ready : Ready → Called S → Outcome (Called S)
  serve_ready r c =
      let prod = producers r.producer in
      (if r.hangup then call_if_set prod.on_destroy c else ok c) >>= λ c.
      (if r.readable then call prod.on_read c else ok c) >>= λ c.
      if r.writable then call prod.on_write c else ok c

  unfoldable pub batch_loop : List Ready → Called S → Outcome (Called S)
  batch_loop [] c = ok c
  batch_loop (r ∷ v) c = serve_ready r c >>= λ c. batch_loop v c

  -- The `while` loop over what `epoll_wait` answers, where `none` is -1.
  unfoldable pub run_loop : List (Option (List Ready)) → Called S → Outcome (Ran S)
  run_loop [] c = if eventqueue_isempty c.queue then ended waits c else ended (returns c.err) c
  run_loop (none ∷ s) c =
      if eventqueue_isempty c.queue then ended (returns (negsuc 0)) c else ended (returns c.err) c
  run_loop (some batch ∷ s) c =
      if eventqueue_isempty c.queue
      then (batch_loop batch c >>= λ c. run_loop s c)
      else ended (returns c.err) c

  -- `bt_eventloop_run`
  unfoldable pub bt_eventloop_run : List (Option (List Ready)) → S → EventQueue → Outcome (Ran S)
  bt_eventloop_run s state q = run_loop s (record { err = pos 0; state = state; queue = q })
