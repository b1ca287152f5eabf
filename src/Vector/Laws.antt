-- ===== src/Vector/Laws.antt =====
-- The growing array of src/util/vector.h.
use libctorrent.Prelude.{
  ℕ, zero, suc, ◌*◌, ◌≤◌, ◌<◌, ◌≡◌, ◌≢◌, ◌⊎◌, refl, Bool, true, false, [], ◌∷◌, ◌++◌, ltb, ◌==◌,
  length, length-append, arith, Bool-cases, inl, inr,
}
use libctorrent.Prelude.Outcome.{ok, failed, aborted}
use libctorrent.Vector.{Vector, next_cap, vector_pushback}

-- The items have memory, and there is not memory for exactly one, which would not grow.
abbrev pub IsSized {ℓ} : {A : Type ℓ} → Vector A → Type 0
IsSized v = (length v.data_of ≤ v.cap) × (v.cap ≢ 1)

next_cap-grows : (cap : ℕ) → cap ≢ 1 → (cap < next_cap cap) × (next_cap cap ≢ 1)
unfolding next_cap
next_cap-grows zero h = (ground arith, λ e. ground arith)
next_cap-grows (suc zero) h = absurd (h refl)
next_cap-grows (suc (suc n)) h =
    let some_cap : (suc (suc n) == 0) ≡ false = ground arith in
    rw some_cap (omega arith, λ e. omega arith)

-- Pushing to a well-formed array puts the item behind the others, in memory that it has, and the
-- array stays well formed; only without memory it returns -1.
pub vector_pushback_lem {ℓ} :
    {A : Type ℓ} (alloc : ℕ → Bool) (size : ℕ) (v : Vector A) (x : A)
    → IsSized v
    → ((w : Vector A) × (vector_pushback alloc size v x ≡ ok w)
        × (w.data_of ≡ v.data_of ++ x ∷ [])
        × IsSized w)
      ⊎ ((alloc (next_cap v.cap * size) ≡ false) × (vector_pushback alloc size v x ≡ failed))
unfolding vector_pushback
vector_pushback_lem alloc size v x (fits, sized) =
    elim (Bool-cases (ltb (length v.data_of) v.cap)) [
      | inl room ↦ inl (
        record v { data_of = v.data_of ++ x ∷ [] },
        rw room refl,
        refl,
        (ground (arith, length-append v.data_of (x ∷ [])), sized),
      )
      | inr full ↦ elim (Bool-cases (alloc (next_cap v.cap * size))) [
        | inr refused ↦ inr (refused, rw (full, refused) refl)
        | inl memory ↦
            let (larger, other) = next_cap-grows v.cap sized in
            let room : ltb (length v.data_of) (next_cap v.cap) ≡ true = ground (arith, larger) in
            inl (
              record { cap = next_cap v.cap; data_of = v.data_of ++ x ∷ [] },
              rw (full, memory, room) refl,
              refl,
              (omega (arith, larger, length-append v.data_of (x ∷ [])), other),
            )
      ]
    ]

-- With memory for exactly one item, a second one is written behind it.
pub vector_pushback_overflow {ℓ} :
    {A : Type ℓ} (alloc : ℕ → Bool) (size : ℕ) (x y : A)
    → alloc (1 * size) ≡ true
    → vector_pushback alloc size (record { cap = 1; data_of = x ∷ [] }) y ≡ aborted
unfolding vector_pushback next_cap
vector_pushback_overflow alloc size x y memory = rw memory refl
