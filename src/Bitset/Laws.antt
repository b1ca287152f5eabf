-- ===== src/Bitset/Laws.antt =====
-- What `bt_bitset_get` answers after each operation of src/bitset.c.
use libctorrent.Prelude.{
  ℕ, zero, suc, ◌-◌, ◌*◌, ◌/◌, ◌%◌, ◌^◌, ◌≤◌, ◌<◌, ◌≡◌, refl, ap, ◌∙◌, Bool, true, false, not, List,
  [], ◌∷◌, arith, ◌==◌, if◌then◌else◌, get_or, set, length, replicate, length-set, get_or-set_self,
  get_or-set_ne, length-replicate, bit_and, bit_or, bit_xor,
}
use libctorrent.Prelude.Outcome.{ok}
use libctorrent.Prelude.Bits.{
  bit, bit-lt, bit-bit_or, bit-bit_and, bit-pow, bit_and-pow, bit-complement, bit_xor-31, bit_or-lt,
  bit_and-lt,
}
use native.Mathlib.Decide.{ℕ_discrete}
use native.Mathlib.Nat.{one-le-pow, pow-le-pow_right}
use libctorrent.Bitset.{
  Bitset, bitset_new, mask, word, with_bit, bitset_clear, bitset_get, holds, ceil_div,
}

-- Every word has 32 bits.
abbrev pub Words : List ℕ → Type 0
Words [] = Unit {0}
Words (x ∷ xs) = (x < 2 ^ 32) × Words xs

pub record IsValid (b : Bitset) : Type 0 where
  pub sized : length b.bits ≡ b.len
  pub words : Words b.bits

-- The numbers that the set has room for.
abbrev pub room : Bitset → ℕ
room b = 32 * length b.bits

pub get_or-lt : (xs : List ℕ) (i : ℕ) → Words xs → get_or xs i 0 < 2 ^ 32
get_or-lt [] i h = omega arith
get_or-lt (x ∷ xs) zero h = h.0
get_or-lt (x ∷ xs) (suc i) h = get_or-lt xs i h.1

set-Words : (xs : List ℕ) (i v : ℕ) → v < 2 ^ 32 → Words xs → Words (set xs i v)
set-Words [] i v p h = h
set-Words (x ∷ xs) zero v p h = (p, h.1)
set-Words (x ∷ xs) (suc i) v p h = (h.0, set-Words xs i v p h.1)

-- The test of the code reads one bit of one word.
pub holds-bit : (b : Bitset) (i : ℕ) → holds b i ≡ (bit (word b i) (31 - i % 32) == 1)
unfolding holds bitset_get
holds-bit b i =
    let e = bit_and-pow (word b i) (31 - i % 32) in
    let pos = one-le-pow (31 - i % 32) 2 in
    rw (bit_xor-31 i, e)
      (test (bit (word b i) (31 - i % 32)) (2 ^ (31 - i % 32)) (pos (omega arith))
        (bit-lt (word b i) (31 - i % 32)))
  where
    test : (x p : ℕ) → 1 ≤ p → x < 2 → not (x * p == 0) ≡ (x == 1)
    test zero p h k = ground arith
    test (suc zero) p h k = ground arith
    test (suc (suc x)) p h k = absurd (omega arith)

same_bit : (i j : ℕ) → i / 32 ≡ j / 32 → 31 - i % 32 ≡ 31 - j % 32 → i ≡ j
same_bit i j p q = omega arith

-- Setting a number that the set has room for adds it and leaves every other number as it was.
pub holds-with_bit :
    (b : Bitset) (i j : ℕ)
    → i < room b
    → holds (with_bit b i) j ≡ (if i == j then true else holds b j)
unfolding with_bit
holds-with_bit b i j h =
    let k = 31 - j % 32 in
    rw (holds-bit (with_bit b i) j, holds-bit b j)
      (elim (ℕ_discrete (i / 32) (j / 32)) [
        | yes e ↦
            let at : get_or (with_bit b i).bits (j / 32) 0 ≡ bit_or (word b i) (mask i) =
              rw (← e) (get_or-set_self b.bits (i / 32) _ 0 (omega arith)) in
            rw at (
              ground (
                arith,
                bit-bit_or (word b i) (mask i) k,
                bit_xor-31 i,
                bit-pow (31 - i % 32) k,
                bit-lt (word b i) k,
                ap (λ t. get_or b.bits t 0) e,
                same_bit i j,
              ))
        | no ne ↦
            let at : get_or (with_bit b i).bits (j / 32) 0 ≡ word b j =
              get_or-set_ne b.bits (i / 32) (j / 32) _ 0 ne in
            rw at (ground arith)
      ])

mask-lt : (i : ℕ) → mask i < 2 ^ 32
mask-lt i =
    let le =
      pow-le-pow_right {n = 2} (omega arith) {i = bit_xor i 31 % 32} {j = 31} (omega arith) in
    omega (arith, le)

-- Clearing a number that the set has room for removes it and leaves every other number as it was.
pub holds-bitset_clear :
    (b : Bitset) (i j : ℕ)
    → i < room b
    → holds (bitset_clear b i) j ≡ (if i == j then false else holds b j)
unfolding bitset_clear
holds-bitset_clear b i j h =
    let k = 31 - j % 32 in
    let rest = 2 ^ 32 - 1 - mask i in
    rw (holds-bit (bitset_clear b i) j, holds-bit b j)
      (elim (ℕ_discrete (i / 32) (j / 32)) [
        | yes e ↦
            let at : get_or (bitset_clear b i).bits (j / 32) 0 ≡ bit_and (word b i) rest =
              rw (← e) (get_or-set_self b.bits (i / 32) _ 0 (omega arith)) in
            rw at (
              ground (
                arith,
                bit-bit_and (word b i) rest k,
                bit-complement 32 (mask i) k (mask-lt i) (omega arith),
                bit_xor-31 i,
                bit-pow (31 - i % 32) k,
                bit-lt (word b i) k,
                ap (λ t. get_or b.bits t 0) e,
                same_bit i j,
              ))
        | no ne ↦
            let at : get_or (bitset_clear b i).bits (j / 32) 0 ≡ word b j =
              get_or-set_ne b.bits (i / 32) (j / 32) _ 0 ne in
            rw at (ground arith)
      ])

pub room-with_bit : (b : Bitset) (i : ℕ) → room (with_bit b i) ≡ room b
unfolding with_bit
room-with_bit b i = ap (λ (t : ℕ). 32 * t) (length-set b.bits (i / 32) _)

pub room-bitset_clear : (b : Bitset) (i : ℕ) → room (bitset_clear b i) ≡ room b
unfolding bitset_clear
room-bitset_clear b i = ap (λ (t : ℕ). 32 * t) (length-set b.bits (i / 32) _)

pub with_bit-IsValid : {b : Bitset} (i : ℕ) → IsValid b → IsValid (with_bit b i)
unfolding with_bit
with_bit-IsValid {b} i v = record {
  sized = length-set b.bits (i / 32) _ ∙ v.sized;
  words =
      set-Words b.bits (i / 32) _
        (bit_or-lt 32 (word b i) (mask i) (get_or-lt b.bits (i / 32) v.words) (mask-lt i)) v.words;
}

pub bitset_clear-IsValid : {b : Bitset} (i : ℕ) → IsValid b → IsValid (bitset_clear b i)
unfolding bitset_clear
bitset_clear-IsValid {b} i v = record {
  sized = length-set b.bits (i / 32) _ ∙ v.sized;
  words =
      set-Words b.bits (i / 32) _
        (bit_and-lt 32 (word b i) (2 ^ 32 - 1 - mask i) (get_or-lt b.bits (i / 32) v.words)
          (omega arith))
        v.words;
}

blank-Words : (n : ℕ) → Words (replicate n 0)
blank-Words zero = tt
blank-Words (suc n) = (omega arith, blank-Words n)

blank_word : (n i : ℕ) → get_or {A = ℕ} (replicate n 0) i 0 ≡ 0
blank_word zero i = refl
blank_word (suc n) zero = refl
blank_word (suc n) (suc i) = blank_word n i

zero_bit : (k : ℕ) → bit 0 k ≡ 0
zero_bit zero = refl
zero_bit (suc k) = zero_bit k

-- A set made for `n` numbers, with `n` not 0, has room for them, holds none, and is valid.
pub bitset_new_empty :
    (alloc : ℕ → Bool) (n : ℕ) {b : Bitset}
    → 0 < n
    → n < 2 ^ 64
    → bitset_new alloc n ≡ ok b
    → IsValid b × (n ≤ room b) × ((i : ℕ) → holds b i ≡ false)
unfolding bitset_new
bitset_new_empty alloc n {b} pos h e =
    let made : b ≡ record { len = ceil_div 64 n 32; bits = replicate (ceil_div 64 n 32) 0 } =
      ground arith in
    let size = length-replicate {A = ℕ} (ceil_div 64 n 32) 0 in
    rw made (
      record { sized = size; words = blank-Words (ceil_div 64 n 32) },
      omega (arith, size),
      λ i. rw (holds-bit _ i, blank_word (ceil_div 64 n 32) (i / 32), zero_bit (31 - i % 32)) refl,
    )
