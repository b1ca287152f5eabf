-- ===== src/EventLoop/Registry.antt =====
-- Registering a producer with the loop of src/eventloop.c, and taking it off again.
use libctorrent.Prelude.{
  ℕ, suc, ◌+◌, ◌≡◌, ◌≢◌, refl, ap, ap₂, ◌∙◌, Bool, true, false, not, ◌&&◌, some, List, [], ◌∷◌,
  ◌++◌, append-nil, ltb, ◌==◌, length, length-append, take, drop, arith, inl, inr,
}
use libctorrent.Prelude.Outcome.{ok}
use libctorrent.Vector.{vector_remove}
use libctorrent.Vector.Laws.{IsSized, vector_pushback_lem}
use libctorrent.EventLoop.{
  EventProducer, EventLoop, is_set, watch_for, index_of, bt_eventloop_register,
  bt_eventloop_unregister,
}

-- The producer is not registered.
abbrev pub IsAbsent : ℕ → List ℕ → Type 0
IsAbsent id [] = Unit {0}
IsAbsent id (x ∷ v) = (x ≢ id) × IsAbsent id v

index_of-last : (id : ℕ) (v : List ℕ) → IsAbsent id v → index_of id (v ++ id ∷ []) ≡ some (length v)
unfolding index_of
index_of-last id [] h = let same : (id == id) ≡ true = ground arith in rw same refl
index_of-last id (x ∷ v) (other, h) =
    let differs : (x == id) ≡ false = ground (arith, other) in
    rw (differs, index_of-last id v h) refl

take_front : (v w : List ℕ) → take (length v) (v ++ w) ≡ v
take_front [] w = refl
take_front (x ∷ v) w = ap (λ u. x ∷ u) (take_front v w)

drop_behind : (v : List ℕ) (x : ℕ) → drop (length v + 1) (v ++ x ∷ []) ≡ []
drop_behind [] x = refl
drop_behind (y ∷ v) x =
    ap (λ n. drop n (y ∷ (v ++ x ∷ []))) {x = suc (length v) + 1} {y = suc (length v + 1)}
      (omega arith)
    ∙ drop_behind v x

true-false : {b : Bool} → b ≡ true → b ≡ false → ⊥
true-false h e = ground arith

-- Let no producer `id` be registered, let `realloc` give memory and epoll accept the descriptor, and
-- let the producer have a callback for reading or writing. Then `bt_eventloop_register` succeeds, and
-- `bt_eventloop_unregister` then finds the producer and restores the producers and what epoll holds.
pub bt_eventloop_unregister-register :
    {S : Type 0} (alloc : ℕ → Bool) (loop : EventLoop) (fd id : ℕ) (prod : EventProducer S)
    → ((n : ℕ) → alloc n ≡ true)
    → IsSized loop.emitters
    → IsAbsent id loop.emitters.data_of
    → (not (is_set prod.on_read) && not (is_set prod.on_write)) ≡ false
    → (busy : EventLoop) × (bt_eventloop_register alloc true loop fd id prod ≡ ok busy)
      × ((idle : EventLoop) × (bt_eventloop_unregister busy fd id ≡ ok (true, idle))
          × (idle.emitters.data_of ≡ loop.emitters.data_of)
          × (idle.watched ≡ loop.watched))
unfolding bt_eventloop_register bt_eventloop_unregister vector_remove
bt_eventloop_unregister-register alloc loop fd id prod memory sized absent waits =
    elim (vector_pushback_lem alloc 8 loop.emitters id sized) [
      | inr (refused, stops) ↦ absurd (true-false (memory _) refused)
      | inl (v, pushed, grown, still) ↦
          let busy : EventLoop = record {
            emitters = v;
            watched = watch_for prod fd id false ∷ loop.watched;
          } in
          let found =
            ap (λ u. index_of id u) grown ∙ index_of-last id loop.emitters.data_of absent in
          let size = ap (λ (u : List ℕ). length u) grown in
          let inside : ltb (length loop.emitters.data_of) (length v.data_of) ≡ true =
            ground (arith, size, length-append loop.emitters.data_of (id ∷ [])) in
          let same : (fd == fd) ≡ true = ground arith in
          let kept =
            ap₂ (λ a b. a ++ b)
              (ap (λ u. take (length loop.emitters.data_of) u) grown
                ∙ take_front loop.emitters.data_of (id ∷ []))
              (ap (λ u. drop (length loop.emitters.data_of + 1) u) grown
                ∙ drop_behind loop.emitters.data_of id)
            ∙ append-nil loop.emitters.data_of in
          let idle : EventLoop = record {
            emitters = record v {
              data_of =
                  take (length loop.emitters.data_of) v.data_of
                  ++ drop (length loop.emitters.data_of + 1) v.data_of;
            };
            watched = loop.watched;
          } in
          (busy, rw (pushed, waits) refl, (idle, rw (found, inside, same) refl, kept, refl))
    ]
