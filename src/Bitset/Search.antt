-- ===== src/Bitset/Search.antt =====
-- `bt_bitset_next0` finds the least number that the set does not hold.
use libctorrent.Prelude.{
  ℕ, zero, suc, ◌+◌, ◌-◌, ◌*◌, ◌/◌, ◌%◌, ◌^◌, ◌≤◌, ◌<◌, ◌≡◌, ◌⊎◌, inl, inr, refl, ap, ◌∙◌, true,
  false, List, [], ◌∷◌, arith, ◌==◌, get_or, length, take, bit_and, bit_or, Bool-cases, ==→eq,
  mod-eq_of_lt,
}
use native.Mathlib.Decide.{dec_lt}
use native.Mathlib.Nat.{pow-suc, one-le-pow}
use libctorrent.Prelude.Bits.{bit, bit-lt, bit_and-pow, bit_or_disjoint, bit_or_step}
use libctorrent.Bitset.{Bitset, holds, top_zero, next_from, bitset_next0}
use libctorrent.Bitset.Laws.{Words, IsValid, room, holds-bit}

bit_or_ones : (k x : ℕ) → x < 2 ^ k → bit_or x (2 ^ k - 1) ≡ 2 ^ k - 1
bit_or_ones zero zero h = refl
bit_or_ones zero (suc x) h = absurd (omega arith)
bit_or_ones (suc k) x h =
    let half : (2 ^ suc k - 1) / 2 ≡ 2 ^ k - 1 = omega (arith, pow-suc 2 k) in
    omega (
      arith,
      bit_or_step x (2 ^ suc k - 1),
      ap (λ (t : ℕ). bit_or (x / 2) t) half,
      bit_or_ones k (x / 2) (omega (arith, pow-suc 2 k)),
      pow-suc 2 k,
      one-le-pow k 2,
    )

-- A word with no zero bit is all ones, and one of all ones has none.
ones-bits : (k x : ℕ) → x < 2 ^ k → ((j : ℕ) → j < k → bit x j ≡ 1) → x ≡ 2 ^ k - 1
ones-bits zero x h all = omega arith
ones-bits (suc k) x h all =
    let rest =
      ones-bits k (x / 2) (omega (arith, pow-suc 2 k)) (λ j p. all (suc j) (omega arith)) in
    omega (arith, rest, all 0 (omega arith), pow-suc 2 k, one-le-pow k 2)

bits-ones : (k j : ℕ) → j < k → bit (2 ^ k - 1) j ≡ 1
bits-ones zero j h = absurd (omega arith)
bits-ones (suc k) zero h = omega (arith, pow-suc 2 k, one-le-pow k 2)
bits-ones (suc k) (suc j) h =
    let half : (2 ^ suc k - 1) / 2 ≡ 2 ^ k - 1 = omega (arith, pow-suc 2 k) in
    rw half (bits-ones k j (omega arith))

mask_test : (x j : ℕ) → (bit_and x (2 ^ j) == 0) ≡ (bit x j == 0)
mask_test x j = rw bit_and-pow (by_value (bit x j) (2 ^ j) (one-le-pow j 2 (omega arith)))
  where
    by_value : (b p : ℕ) → 1 ≤ p → (b * p == 0) ≡ (b == 0)
    by_value zero p h = ground arith
    by_value (suc b) p h = grind arith

-- What the inner loop finds among the low `n` bits.
abbrev Top : ℕ → ℕ → ℕ → Type 0
Top x n r =
    ((r ≡ 0) × ((k : ℕ) → k < n → bit x k ≡ 1))
    ⊎ ((j : ℕ) × (r ≡ suc j) × (j < n) × (bit x j ≡ 0) × ((k : ℕ) → j < k → k < n → bit x k ≡ 1))

top_zero_lem : (x n : ℕ) → Top x n (top_zero x n)
unfolding top_zero
top_zero_lem x zero = inl (refl, λ k h. absurd (omega arith))
top_zero_lem x (suc n) = rw (mask_test x n) (elim (Bool-cases (bit x n == 0)) [
  | inl e ↦ rw e (inr (n, refl, omega arith, ==→eq _ 0 e, λ k p q. absurd (omega arith)))
  | inr e ↦ rw e (widen (ground (arith, bit-lt x n)) (top_zero_lem x n))
])
  where
    last : (j k : ℕ) → bit x n ≡ 1 → (k < n → bit x k ≡ 1) → k < suc n → bit x k ≡ 1
    last j k one below h = elim (dec_lt k n) [
      | yes p ↦ below p
      | no p ↦ let e : k ≡ n = omega arith in rw e one
    ]

    widen : bit x n ≡ 1 → Top x n (top_zero x n) → Top x (suc n) (top_zero x n)
    widen one (inl (e, all)) = inl (e, λ k h. last 0 k one (all k) h)
    widen one (inr (j, e, p, z, all)) =
        inr (j, e, omega arith, z, λ k q h. last j k one (all k q) h)

-- Whether number `n` is held by these words.
abbrev member : List ℕ → ℕ → ℕ
member xs n = bit (get_or xs (n / 32) 0) (31 - n % 32)

member-cons : (x : ℕ) (xs : List ℕ) (n : ℕ) → 32 ≤ n → member (x ∷ xs) n ≡ member xs (n - 32)
member-cons x xs n h =
    let w : n / 32 ≡ suc ((n - 32) / 32) = omega arith in
    let b : n % 32 ≡ (n - 32) % 32 = omega arith in rw (w, b)

member-head : (x : ℕ) (xs : List ℕ) (n : ℕ) → n < 32 → member (x ∷ xs) n ≡ bit x (31 - n)
member-head x xs n h =
    let w : n / 32 ≡ 0 = omega arith in let b : n % 32 ≡ n = omega arith in rw (w, b)

-- The search ended with `r`: at the least number that is missing, or past the last word.
abbrev Found : List ℕ → ℕ → ℕ → Type 0
Found xs i r =
    (((j : ℕ) → j < 32 * length xs → member xs j ≡ 1) × (r ≡ 2 ^ 64 - 1))
    ⊎ ((n : ℕ) × (n < 32 * length xs)
        × (r ≡ i * 32 + n)
        × (member xs n ≡ 0)
        × ((j : ℕ) → j < n → member xs j ≡ 1))

next_from_lem :
    (xs : List ℕ) (i : ℕ) → Words xs → (i + length xs) * 32 < 2 ^ 64 → Found xs i (next_from xs i)
unfolding next_from
next_from_lem [] i h small = inl (
  λ j p. absurd (omega arith),
  rw (mod-eq_of_lt {n = i * 32} {m = 2 ^ 64} (omega arith)) (bit_or_ones 64 (i * 32) (omega arith)),
)
next_from_lem (x ∷ xs) i h small = elim (Bool-cases (2 ^ 32 - 1 - x == 0)) [
  | inl e ↦ rw e (skip (full e) (next_from_lem xs (i + 1) h.1 (omega arith)))
  | inr e ↦ rw e (stop e (top_zero_lem x 32))
]
  where
    full : (2 ^ 32 - 1 - x == 0) ≡ true → x ≡ 2 ^ 32 - 1
    full e = omega (arith, ==→eq (2 ^ 32 - 1 - x) 0 e, h.0)

    held : x ≡ 2 ^ 32 - 1 → (j : ℕ) → (32 ≤ j → member xs (j - 32) ≡ 1) → member (x ∷ xs) j ≡ 1
    held e j later = elim (dec_lt j 32) [
      | yes p ↦ member-head x xs j p ∙ rw e (bits-ones 32 (31 - j) (omega arith))
      | no p ↦ member-cons x xs j (omega arith) ∙ later (omega arith)
    ]

    skip :
        x ≡ 2 ^ 32 - 1
        → Found xs (i + 1) (next_from xs (i + 1))
        → Found (x ∷ xs) i (next_from xs (i + 1))
    skip e (inl (all, r)) = inl (λ j p. held e j (λ q. all (j - 32) (omega arith)), r)
    skip e (inr (n, p, r, z, all)) =
        let back : n + 32 - 32 ≡ n = omega arith in
        inr (
          n + 32,
          omega arith,
          omega arith,
          member-cons x xs (n + 32) (omega arith) ∙ rw back z,
          λ j q. held e j (λ s. all (j - 32) (omega arith)),
        )

    stop :
        (2 ^ 32 - 1 - x == 0) ≡ false
        → Top x 32 (top_zero x 32)
        → Found (x ∷ xs) i (bit_or (i * 32 % 2 ^ 64) ((31 + 1 + 2 ^ 64 - top_zero x 32) % 2 ^ 64))
    stop e (inl (r, all)) = absurd (ground (arith, ones-bits 32 x h.0 all))
    stop e (inr (j, r, p, z, all)) =
        let low : (31 + 1 + 2 ^ 64 - suc j) % 2 ^ 64 ≡ 31 - j = omega arith in
        let place : 31 - (31 - j) ≡ j = omega arith in
        inr (
          31 - j,
          omega arith,
          rw (mod-eq_of_lt {n = i * 32} {m = 2 ^ 64} (omega arith), r, low)
              (bit_or_disjoint 5 i (31 - j) (omega arith)),
          member-head x xs (31 - j) (omega arith) ∙ rw place z,
          λ k q. member-head x xs k (omega arith) ∙ all (31 - k) (omega arith) (omega arith),
        )

take_len : (xs : List ℕ) (n : ℕ) → length xs ≡ n → take n xs ≡ xs
take_len [] zero h = refl
take_len [] (suc n) h = refl
take_len (x ∷ xs) zero h = absurd (omega arith)
take_len (x ∷ xs) (suc n) h = ap (◌∷◌ x) (take_len xs n (omega arith))

-- For a valid set with room for less than 2^64 numbers, the search returns the least number that
-- the set does not hold; if it holds all that it has room for, it returns 2^64 - 1.
pub bitset_next0_lem :
    (b : Bitset)
    → IsValid b
    → room b < 2 ^ 64
    → (((j : ℕ) → j < room b → holds b j ≡ true) × (bitset_next0 b ≡ 2 ^ 64 - 1))
      ⊎ ((bitset_next0 b < room b)
          × (holds b (bitset_next0 b) ≡ false)
          × ((j : ℕ) → j < bitset_next0 b → holds b j ≡ true))
unfolding bitset_next0
bitset_next0_lem b v small =
    rw (take_len b.bits b.len v.sized) (read (next_from_lem b.bits 0 v.words (omega arith)))
  where
    seen : (j : ℕ) → member b.bits j ≡ 1 → holds b j ≡ true
    seen j e = rw (holds-bit, e) refl

    read :
        {r : ℕ}
        → Found b.bits 0 r
        → (((j : ℕ) → j < room b → holds b j ≡ true) × (r ≡ 2 ^ 64 - 1))
          ⊎ ((r < room b) × (holds b r ≡ false) × ((j : ℕ) → j < r → holds b j ≡ true))
    read (inl (all, e)) = inl (λ j p. seen j (all j p), e)
    read {r} (inr (n, p, e, z, all)) =
        let same : r ≡ n = omega arith in
        rw same (inr (p, rw (holds-bit, z) refl, λ j q. seen j (all j q)))
