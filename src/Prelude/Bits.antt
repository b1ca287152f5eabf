-- ===== src/Prelude/Bits.antt =====
-- Laws of `&`, `|` and `^` at variables, for the words of the bitset and the byte order macros.
-- Each operation is unfolded one binary digit at a time.
use Prim.Native.Nat.{
  ℕ, zero, suc, ◌+◌, ◌-◌, ◌*◌, ◌/◌, ◌%◌, ◌^◌, ◌≤◌, ◌<◌, min, max, differ, digits, bit_and, bit_or,
  bit_xor, bit_and-bitwise, bit_or-bitwise, bit_xor-bitwise,
}
use mathlib.Core.Path.{◌≡◌, refl, ap, sym, ◌∙◌}
use native.Mathlib.Nat.{pow-suc, pow-succ', one-le-pow, div-add-mod, div-div-eq-div-mul}
use native.Mathlib.Omega.{arith}
use libctorrent.Prelude.Tests.{◌==◌, if◌then◌else◌}

-- The digit recursion does not depend on its fuel, once that covers the first number.
digits_enough :
    (rest : ℕ → ℕ) (op : ℕ → ℕ → ℕ) (n m a b : ℕ)
    → a ≤ n
    → a ≤ m
    → digits rest op n a b ≡ digits rest op m a b
digits_enough rest op zero zero a b p q = refl
digits_enough rest op zero (suc m) zero b p q = refl
digits_enough rest op zero (suc m) (suc a) b p q = absurd (omega arith)
digits_enough rest op (suc n) zero zero b p q = refl
digits_enough rest op (suc n) zero (suc a) b p q = absurd (omega arith)
digits_enough rest op (suc n) (suc m) zero b p q = refl
digits_enough rest op (suc n) (suc m) (suc a) b p q =
    omega (arith, digits_enough rest op n m (suc a / 2) (b / 2) (omega arith) (omega arith))

pub bit_and_step : (a b : ℕ) → bit_and a b ≡ bit_and (a / 2) (b / 2) * 2 + min (a % 2) (b % 2)
bit_and_step zero b = omega (arith, bit_and-bitwise 0 b, bit_and-bitwise 0 (b / 2))
bit_and_step (suc a) b =
    let more = digits_enough (λ b. zero) min a (suc a / 2) (suc a / 2) (b / 2) in
    omega (
      arith,
      bit_and-bitwise (suc a) b,
      bit_and-bitwise (suc a / 2) (b / 2),
      more (omega arith) (omega arith),
    )

pub bit_or_step : (a b : ℕ) → bit_or a b ≡ bit_or (a / 2) (b / 2) * 2 + max (a % 2) (b % 2)
bit_or_step zero b = omega (arith, bit_or-bitwise 0 b, bit_or-bitwise 0 (b / 2))
bit_or_step (suc a) b =
    let more = digits_enough (λ b. b) max a (suc a / 2) (suc a / 2) (b / 2) in
    omega (
      arith,
      bit_or-bitwise (suc a) b,
      bit_or-bitwise (suc a / 2) (b / 2),
      more (omega arith) (omega arith),
    )

pub bit_xor_step : (a b : ℕ) → bit_xor a b ≡ bit_xor (a / 2) (b / 2) * 2 + differ (a % 2) (b % 2)
bit_xor_step zero b = omega (arith, bit_xor-bitwise 0 b, bit_xor-bitwise 0 (b / 2))
bit_xor_step (suc a) b =
    let more = digits_enough (λ b. b) differ a (suc a / 2) (suc a / 2) (b / 2) in
    omega (
      arith,
      bit_xor-bitwise (suc a) b,
      bit_xor-bitwise (suc a / 2) (b / 2),
      more (omega arith) (omega arith),
    )

-- Bit `k` of a word, from the low end, as 0 or 1.
abbrev pub bit : ℕ → ℕ → ℕ
bit w zero = w % 2
bit w (suc k) = bit (w / 2) k

pub bit-lt : (w k : ℕ) → bit w k < 2
bit-lt w zero = omega arith
bit-lt w (suc k) = bit-lt (w / 2) k

zero-bit : (k : ℕ) → bit 0 k ≡ 0
zero-bit zero = refl
zero-bit (suc k) = zero-bit k

pub bit-bit_or : (a b k : ℕ) → bit (bit_or a b) k ≡ max (bit a k) (bit b k)
bit-bit_or a b zero = omega (arith, bit_or_step a b)
bit-bit_or a b (suc k) =
    let half : bit_or a b / 2 ≡ bit_or (a / 2) (b / 2) = omega (arith, bit_or_step a b) in
    rw half (bit-bit_or (a / 2) (b / 2) k)

pub bit-bit_and : (a b k : ℕ) → bit (bit_and a b) k ≡ min (bit a k) (bit b k)
bit-bit_and a b zero = omega (arith, bit_and_step a b)
bit-bit_and a b (suc k) =
    let half : bit_and a b / 2 ≡ bit_and (a / 2) (b / 2) = omega (arith, bit_and_step a b) in
    rw half (bit-bit_and (a / 2) (b / 2) k)

half_pow : (k : ℕ) → 2 ^ suc k / 2 ≡ 2 ^ k
half_pow k = omega (arith, pow-suc 2 k)

pub bit-pow : (j k : ℕ) → bit (2 ^ j) k ≡ (if j == k then 1 else 0)
bit-pow zero zero = refl
bit-pow zero (suc k) = ground (arith, zero-bit k)
bit-pow (suc j) zero = ground (arith, pow-suc 2 j)
bit-pow (suc j) (suc k) = rw half_pow (ground (arith, bit-pow j k))

bit_and-zero : (n w : ℕ) → w ≤ n → bit_and w 0 ≡ 0
bit_and-zero n zero h = refl
bit_and-zero zero (suc w) h = absurd (omega arith)
bit_and-zero (suc n) (suc w) h =
    omega (arith, bit_and_step (suc w) 0, bit_and-zero n (suc w / 2) (omega arith))

-- A mask of one bit keeps that bit.
pub bit_and-pow : (w k : ℕ) → bit_and w (2 ^ k) ≡ bit w k * 2 ^ k
bit_and-pow w zero = omega (arith, bit_and_step w 1, bit_and-zero (w / 2) (w / 2) (omega arith))
bit_and-pow w (suc k) =
    let rest = bit_and-pow (w / 2) k in
    omega (
      arith,
      bit_and_step w (2 ^ suc k),
      pow-suc 2 k,
      ap (λ (t : ℕ). bit_and (w / 2) t) (half_pow k),
      rest,
      ap (λ (t : ℕ). bit w (suc k) * t) (pow-suc 2 k),
    )

-- The complement of an `n`-bit word flips each of its bits.
pub bit-complement : (n w k : ℕ) → w < 2 ^ n → k < n → bit (2 ^ n - 1 - w) k ≡ 1 - bit w k
bit-complement zero w k h p = absurd (omega arith)
bit-complement (suc n) w zero h p = omega (arith, pow-suc 2 n)
bit-complement (suc n) w (suc k) h p =
    let half : (2 ^ suc n - 1 - w) / 2 ≡ 2 ^ n - 1 - w / 2 = omega (arith, pow-suc 2 n) in
    rw half (bit-complement n (w / 2) k (omega (arith, pow-suc 2 n)) (omega arith))

-- The operations stay within a word's width.
pub bit_or-lt : (n a b : ℕ) → a < 2 ^ n → b < 2 ^ n → bit_or a b < 2 ^ n
bit_or-lt zero zero zero p q = omega arith
bit_or-lt zero (suc a) b p q = absurd (omega arith)
bit_or-lt zero zero (suc b) p q = absurd (omega arith)
bit_or-lt (suc n) a b p q =
    let small = bit_or-lt n (a / 2) (b / 2) in
    omega (
      arith,
      pow-suc 2 n,
      bit_or_step a b,
      small (omega (arith, pow-suc 2 n)) (omega (arith, pow-suc 2 n)),
    )

pub bit_and-lt : (n a b : ℕ) → a < 2 ^ n → b < 2 ^ n → bit_and a b < 2 ^ n
bit_and-lt zero zero zero p q = omega arith
bit_and-lt zero (suc a) b p q = absurd (omega arith)
bit_and-lt zero zero (suc b) p q = absurd (omega arith)
bit_and-lt (suc n) a b p q =
    let small = bit_and-lt n (a / 2) (b / 2) in
    omega (
      arith,
      pow-suc 2 n,
      bit_and_step a b,
      small (omega (arith, pow-suc 2 n)) (omega (arith, pow-suc 2 n)),
    )

differ-one : (x : ℕ) → x < 2 → differ x 1 ≡ 1 - x
differ-one zero h = refl
differ-one (suc zero) h = refl
differ-one (suc (suc x)) h = absurd (omega arith)

-- `i ^ 31` counts a bit's place in its word from the other end.
pub bit_xor-31 : (i : ℕ) → bit_xor i 31 % 32 ≡ 31 - i % 32
bit_xor-31 i = omega (
  arith,
  differ-one (i % 2) (omega arith),
  differ-one (i / 2 % 2) (omega arith),
  differ-one (i / 2 / 2 % 2) (omega arith),
  differ-one (i / 2 / 2 / 2 % 2) (omega arith),
  differ-one (i / 2 / 2 / 2 / 2 % 2) (omega arith),
  bit_xor_step i 31,
  bit_xor_step (i / 2) 15,
  bit_xor_step (i / 2 / 2) 7,
  bit_xor_step (i / 2 / 2 / 2) 3,
  bit_xor_step (i / 2 / 2 / 2 / 2) 1,
)

-- Fields that do not overlap: `(q << k) | r` is a sum.
mul-pow-suc : (q k : ℕ) → q * 2 ^ suc k ≡ 2 * (q * 2 ^ k)
mul-pow-suc q k = omega (arith, ap (λ (t : ℕ). q * t) (pow-suc 2 k))

bit_or-zero : (n w : ℕ) → w ≤ n → bit_or w 0 ≡ w
bit_or-zero n zero h = refl
bit_or-zero zero (suc w) h = absurd (omega arith)
bit_or-zero (suc n) (suc w) h =
    omega (arith, bit_or_step (suc w) 0, bit_or-zero n (suc w / 2) (omega arith))

pub bit_or_disjoint : (k q r : ℕ) → r < 2 ^ k → bit_or (q * 2 ^ k) r ≡ q * 2 ^ k + r
bit_or_disjoint zero q zero h = omega (arith, bit_or-zero (q * 1) (q * 1) (omega arith))
bit_or_disjoint zero q (suc r) h = absurd (omega arith)
bit_or_disjoint (suc k) q r h =
    let low = bit_or_disjoint k q (r / 2) (omega (arith, pow-suc 2 k)) in
    let half : q * 2 ^ suc k / 2 ≡ q * 2 ^ k = omega (arith, mul-pow-suc q k) in
    omega (
      arith,
      bit_or_step (q * 2 ^ suc k) r,
      ap (λ (t : ℕ). bit_or t (r / 2)) half,
      mul-pow-suc q k,
      low,
    )

mod_halves : (k x : ℕ) → x % 2 ^ suc k ≡ x / 2 % 2 ^ k * 2 + x % 2
mod_halves k x =
    let same : x / 2 ^ suc k ≡ x / 2 / 2 ^ k =
      ap (λ (t : ℕ). x / t) (pow-succ' 2 k) ∙ sym (div-div-eq-div-mul x 2 (2 ^ k)) in
    omega (
      arith,
      div-add-mod x (2 ^ suc k),
      div-add-mod (x / 2) (2 ^ k),
      ap (λ (t : ℕ). 2 ^ suc k * t) same,
      ap (λ (t : ℕ). t * (x / 2 / 2 ^ k)) (pow-succ' 2 k),
    )

-- `x & (2^k - 1)` is the remainder by `2^k`.
pub bit_and_mask : (k x : ℕ) → bit_and x (2 ^ k - 1) ≡ x % 2 ^ k
bit_and_mask zero x = omega (arith, bit_and-zero x x (omega arith))
bit_and_mask (suc k) x =
    let half : (2 ^ suc k - 1) / 2 ≡ 2 ^ k - 1 = omega (arith, pow-suc 2 k) in
    omega (
      arith,
      bit_and_step x (2 ^ suc k - 1),
      ap (λ (t : ℕ). bit_and (x / 2) t) half,
      bit_and_mask k (x / 2),
      pow-suc 2 k,
      one-le-pow k 2,
      mod_halves k x,
    )
