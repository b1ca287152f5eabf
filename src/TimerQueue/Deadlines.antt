-- ===== src/TimerQueue/Deadlines.antt =====
-- The delays in the queue stand for deadlines, and the loops of the queue act on these.
use libctorrent.Prelude.{
  ℕ, ◌+◌, ◌-◌, ◌*◌, ◌/◌, ◌%◌, ◌^◌, ◌≤◌, ◌<◌, ◌≡◌, refl, ap, ◌∙◌, true, false, List, [], ◌∷◌, arith,
  ltb, ◌==◌, if◌then◌else◌, Bool-cases, inl, inr,
}
use libctorrent.TimerQueue.{
  Timer, nsec_per_sec, total, timer_before, timer_sub, timer_add, sink, remove_from, extend_from,
  later,
}

-- A timer's address and the time at which it is due, in nanoseconds.
abbrev pub Due : Type 0
Due = ℕ × ℕ

-- The deadlines of a queue whose first delay counts from `now`.
unfoldable pub deadlines : ℕ → List Timer → List Due
deadlines now [] = []
deadlines now (x ∷ v) = (x.address, now + total x) ∷ deadlines (now + total x) v

-- Insertion behind every deadline that is not later.
unfoldable pub enqueue : Due → List Due → List Due
enqueue d [] = d ∷ []
enqueue d (e ∷ l) = if ltb d.1 e.1 then d ∷ e ∷ l else e ∷ enqueue d l

-- The list without the first entry for an address.
unfoldable pub dequeue : ℕ → List Due → List Due
dequeue address [] = []
dequeue address (e ∷ l) = if e.0 == address then l else e ∷ dequeue address l

-- The sum of all the delays.
abbrev pub span : List Timer → ℕ
span [] = 0
span (x ∷ v) = total x + span v

total-lt : (t : Timer) → total t < 2 ^ 64
unfolding total
total-lt t = omega arith

total-timer_sub : (a b : Timer) → total b ≤ total a → total (timer_sub a b) ≡ total a - total b
unfolding timer_sub
total-timer_sub a b h = exact (total a) (total b) h (total-lt a)
  where
    exact :
        (x y : ℕ)
        → y ≤ x
        → x < 2 ^ 64
        → ((x + 2 ^ 64 - y) % 2 ^ 64 / nsec_per_sec * nsec_per_sec
              + (x + 2 ^ 64 - y) % 2 ^ 64 % nsec_per_sec)
            % 2 ^ 64
          ≡ x - y
    exact x y p q = omega arith

total-timer_add :
    (a b : Timer) → total a + total b < 2 ^ 64 → total (timer_add a b) ≡ total a + total b
unfolding timer_add
total-timer_add a b h = exact (total a + total b) h
  where
    exact :
        (x : ℕ)
        → x < 2 ^ 64
        → (x % 2 ^ 64 / nsec_per_sec * nsec_per_sec + x % 2 ^ 64 % nsec_per_sec) % 2 ^ 64 ≡ x
    exact x p = omega arith

-- Sinking a timer into a queue puts its deadline, its delay from `now`, behind every deadline that
-- is not later, and moves no other deadline.
pub deadlines-sink :
    (now : ℕ) (t : Timer) (v : List Timer)
    → deadlines now (sink t v) ≡ enqueue (t.address, now + total t) (deadlines now v)
unfolding sink deadlines enqueue timer_before
deadlines-sink now t [] = refl
deadlines-sink now t (x ∷ v) = elim (Bool-cases (ltb (total t) (total x))) [
  | inl before ↦
      let test : ltb (now + total t) (now + total x) ≡ true = ground arith in
      let left : now + total t + total (timer_sub x t) ≡ now + total x =
        omega (arith, total-timer_sub x t (ground arith)) in
      rw (before, test, left) refl
  | inr behind ↦
      let test : ltb (now + total t) (now + total x) ≡ false = ground arith in
      let left : now + total x + total (timer_sub t x) ≡ now + total t =
        omega (arith, total-timer_sub t x (ground arith)) in
      rw (behind, test)
        (ap (◌∷◌ (x.address, now + total x))
          (deadlines-sink (now + total x) (timer_sub t x) v ∙ rw left refl))
]

-- Removing a timer takes its deadline out and moves no other, if the delays add up to less than
-- 2^64 nanoseconds.
pub deadlines-remove_from :
    (now address : ℕ) (v : List Timer)
    → span v < 2 ^ 64
    → deadlines now (remove_from address v) ≡ dequeue address (deadlines now v)
unfolding remove_from deadlines dequeue
deadlines-remove_from now address [] h = refl
deadlines-remove_from now address (x ∷ []) h = elim (Bool-cases (x.address == address)) [
  | inl e ↦ rw e refl
  | inr e ↦ rw e refl
]
deadlines-remove_from now address (x ∷ y ∷ v) h = elim (Bool-cases (x.address == address)) [
  | inl e ↦
      let joined : now + total (timer_add y x) ≡ now + total x + total y =
        omega (arith, total-timer_add y x (omega arith)) in
      rw (e, joined) refl
  | inr e ↦ rw e (
      ap (◌∷◌ (x.address, now + total x))
        (deadlines-remove_from (now + total x) address (y ∷ v) (omega arith)))
]

-- No timer's value wraps.
abbrev pub Unwrapped : List Timer → Type 0
Unwrapped [] = Unit {0}
Unwrapped (x ∷ v) = (x.value.sec * nsec_per_sec + x.value.nsec < 2 ^ 64) × Unwrapped v

-- The first entry for an address moves to a later deadline.
unfoldable pub postpone : ℕ → ℕ → List Due → List Due
postpone address delay [] = []
postpone address delay (e ∷ l) =
    if e.0 == address then enqueue (e.0, e.1 + delay) l else e ∷ postpone address delay l

total-later :
    (incr : ℕ) (x : Timer)
    → x.value.sec * nsec_per_sec + x.value.nsec < 2 ^ 64
    → total x + incr * nsec_per_sec < 2 ^ 64
    → total (later incr x) ≡ total x + incr * nsec_per_sec
unfolding total
total-later incr x h k = omega arith

enqueue-nil : (d : Due) → enqueue d [] ≡ d ∷ []
unfolding enqueue
enqueue-nil d = refl

-- Extending a timer by `incr` seconds moves its deadline by that much, behind every deadline that
-- is not later, and moves no other, if no sum reaches 2^64 nanoseconds.
pub deadlines-extend_from :
    (now address incr : ℕ) (v : List Timer)
    → Unwrapped v
    → span v + incr * nsec_per_sec < 2 ^ 64
    → deadlines now (extend_from address incr v)
      ≡ postpone address (incr * nsec_per_sec) (deadlines now v)
unfolding extend_from deadlines postpone
deadlines-extend_from now address incr [] u h = refl
deadlines-extend_from now address incr (x ∷ []) u h = elim (Bool-cases (x.address == address)) [
  | inl e ↦
      let moved : now + total (later incr x) ≡ now + total x + incr * nsec_per_sec =
        omega (arith, total-later incr x u.0 (omega arith)) in
      rw (e, moved, enqueue-nil) refl
  | inr e ↦ rw e refl
]
deadlines-extend_from now address incr (x ∷ y ∷ v) u h = elim (Bool-cases (x.address == address)) [
  | inl e ↦
      let moved : now + total (later incr x) ≡ now + total x + incr * nsec_per_sec =
        omega (arith, total-later incr x u.0 (omega arith)) in
      let joined : now + total (timer_add y x) ≡ now + total x + total y =
        omega (arith, total-timer_add y x (omega arith)) in
      rw e (deadlines-sink now (later incr x) (timer_add y x ∷ v) ∙ rw (moved, joined) refl)
  | inr e ↦ rw e (
      ap (◌∷◌ (x.address, now + total x))
        (deadlines-extend_from (now + total x) address incr (y ∷ v) u.1 (omega arith)))
]
