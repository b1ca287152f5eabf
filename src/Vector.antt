-- ===== src/Vector.antt =====
-- src/util/vector.h: an array that grows. `n` is the length of `data`, and there is memory for `cap`
-- items. Half as much again is computed in floating point, which is exact below 2^52.
pub mod Laws
use libctorrent.Prelude.{
  ℕ, ◌+◌, ◌-◌, ◌*◌, ◌/◌, Bool, List, [], ◌∷◌, ◌++◌, ltb, ◌==◌, if◌then◌else◌, length, take, drop,
}
use libctorrent.Prelude.Outcome.{Outcome, ok, failed, aborted}

pub record Vector {ℓ} (A : Type ℓ) : Type ℓ where
  pub cap : ℕ
  pub data_of : List A

-- `VECTOR()`
abbrev pub vector {ℓ} : (A : Type ℓ) → Vector A
vector A = record { cap = 0; data_of = [] }

unfoldable pub next_cap : ℕ → ℕ
next_cap cap = if cap == 0 then 8 else cap * 3 / 2

-- The write to `data[n]`; there is no memory from `cap` on.
abbrev pub store_last {ℓ} : {A : Type ℓ} → Vector A → A → Outcome (Vector A)
store_last v x =
    if ltb (length v.data_of) v.cap
    then ok (record v { data_of = v.data_of ++ x ∷ [] })
    else aborted

-- `vector_pushback`, and `vector_pushbackx`, which does the same. `alloc` is whether `realloc`
-- succeeds for so many bytes, and an item takes `size` of them; `failed` leaves the array alone.
unfoldable pub vector_pushback {ℓ} :
    {A : Type ℓ} → (ℕ → Bool) → ℕ → Vector A → A → Outcome (Vector A)
vector_pushback alloc size v x =
    if ltb (length v.data_of) v.cap
    then store_last v x
    else if alloc (next_cap v.cap * size)
    then store_last (record v { cap = next_cap v.cap }) x
    else failed

-- `vector_resizex`
unfoldable pub vector_resize {ℓ} : {A : Type ℓ} → (ℕ → Bool) → ℕ → Vector A → ℕ → Outcome (Vector A)
vector_resize alloc size v newcap =
    if alloc (size * newcap) then ok (record v { cap = newcap }) else failed

-- `vector_remove`. From `n` on, the count of `memmove` wraps round, which is a fault.
unfoldable pub vector_remove {ℓ} : {A : Type ℓ} → Vector A → ℕ → Outcome (Vector A)
vector_remove v i =
    if ltb i (length v.data_of)
    then ok (record v { data_of = take i v.data_of ++ drop (i + 1) v.data_of })
    else aborted
