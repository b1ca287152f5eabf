-- ===== src/Bcode/Decimal.antt =====
-- The decoder reads back the decimal numbers that the encoder prints.
use libctorrent.Prelude.{
  ℕ, zero, suc, ◌+◌, ◌-◌, ◌*◌, ◌/◌, ◌%◌, ◌^◌, ◌≤◌, ◌<◌, ◌≡◌, refl, ap, ◌∙◌, true, false, List, [],
  ◌∷◌, ◌++◌, append_assoc, arith, ltb, Bool-cases, inl, inr,
}
use libctorrent.Prelude.Int.{ℤ, pos, negsuc, negate}
use libctorrent.Bcode.Decode.{ok, is_digit, read_digits, read_natural, read_num}
use libctorrent.Bcode.Encode.{digits_of, decimal, print_int}

-- The digits of `n`, read from 0 on, bring the loop to `n`, if `n` is below 2^63.
read_digits-digits_of :
    (f n : ℕ) (rest : List ℕ)
    → n < f
    → n < 2 ^ 63
    → read_digits 0 (digits_of f n ++ rest) ≡ read_digits n rest
unfolding digits_of read_digits
read_digits-digits_of zero n rest h k = absurd (omega arith)
read_digits-digits_of (suc f) n rest h k = elim (Bool-cases (ltb n 10)) [
  | inl small ↦ rw small (ground arith)
  | inr big ↦
      let ih =
        read_digits-digits_of f (n / 10) ((b'0' + n % 10) ∷ rest) (ground arith) (omega arith) in
      let sum : (10 * (n / 10) + (b'0' + n % 10 - b'0')) % 2 ^ 64 ≡ n = omega arith in
      rw (big, append_assoc (digits_of f (n / 10)) ((b'0' + n % 10) ∷ []) rest)
        (ih ∙ ground (arith, sum))
]

-- The first digit of a positive number is not 0.
record Leads (l : List ℕ) : Type 0 where
  first : ℕ
  others : List ℕ
  shape : l ≡ first ∷ others
  low : b'1' ≤ first
  high : first ≤ b'9'

digits_of-Leads : (f n : ℕ) → n < f → 0 < n → Leads (digits_of f n)
unfolding digits_of
digits_of-Leads zero n h k = absurd (omega arith)
digits_of-Leads (suc f) n h k = elim (Bool-cases (ltb n 10)) [
  | inl small ↦ record {
    first = b'0' + n;
    others = [];
    shape = rw small;
    low = omega arith;
    high = ground arith;
  }
  | inr big ↦
      let ih = digits_of-Leads f (n / 10) (ground arith) (ground arith) in
      record {
        first = ih.first;
        others = ih.others ++ (b'0' + n % 10) ∷ [];
        shape = rw big (ap (λ l. l ++ (b'0' + n % 10) ∷ []) ih.shape);
        low = ih.low;
        high = ih.high;
      }
]

-- Reading stops at a character that is no digit.
stops : (n c : ℕ) (rest : List ℕ) → is_digit c ≡ false → read_digits n (c ∷ rest) ≡ ok n (c ∷ rest)
unfolding read_digits
stops n c rest h = rw h

read_natural-decimal :
    (n c : ℕ) (rest : List ℕ)
    → 0 < n
    → n < 2 ^ 63
    → is_digit c ≡ false
    → read_natural (decimal n ++ c ∷ rest) ≡ ok n (c ∷ rest)
unfolding read_natural decimal
read_natural-decimal n c rest some_digit h out =
    let lead = digits_of-Leads (n + 1) n (omega arith) some_digit in
    let all = read_digits-digits_of (n + 1) n (c ∷ rest) (omega arith) h ∙ stops n c rest out in
    let digit : is_digit lead.first ≡ true = ground (arith, lead.low, lead.high) in
    rw lead.shape (rw digit (rw lead.shape at all))

read_num-decimal :
    (n c : ℕ) (rest : List ℕ)
    → 0 < n
    → n < 2 ^ 63
    → is_digit c ≡ false
    → read_num (decimal n ++ c ∷ rest) ≡ ok (pos n) (c ∷ rest)
unfolding read_num decimal
read_num-decimal n c rest some_digit h out =
    let lead = digits_of-Leads (n + 1) n (omega arith) some_digit in
    let shaped = rw lead.shape at (read_natural-decimal n c rest some_digit h out) in
    ground (arith, lead.shape, lead.low, lead.high, shaped)

-- The magnitude of an integer.
abbrev pub magnitude : ℤ → ℕ
magnitude (pos n) = n
magnitude (negsuc n) = n + 1

-- `sc_read_num` reads back an integer that `%ld` printed, if its magnitude is below 2^63, up to the
-- next character that is no digit. After a single 0 it stops whatever follows.
pub read_num-print_int :
    (z : ℤ) (c : ℕ) (rest : List ℕ)
    → is_digit c ≡ false
    → magnitude z < 2 ^ 63
    → read_num (print_int z ++ c ∷ rest) ≡ ok z (c ∷ rest)
unfolding print_int
read_num-print_int (pos zero) c rest out h = unfold read_num decimal digits_of in refl
read_num-print_int (pos (suc n)) c rest out h = read_num-decimal (suc n) c rest (omega arith) h out
read_num-print_int (negsuc n) c rest out h =
    let read = read_natural-decimal (n + 1) c rest (omega arith) h out in
    let e : n + 1 ≡ suc n = omega arith in unfold read_num in ground (arith, read, ap negate e)

-- A printed number begins with a digit.
pub decimal-head : (n : ℕ) → (c : ℕ) × (l : List ℕ) × (decimal n ≡ c ∷ l) × (is_digit c ≡ true)
unfolding decimal
decimal-head zero = unfold digits_of in (b'0', [], refl, refl)
decimal-head (suc n) =
    let lead = digits_of-Leads (suc n + 1) (suc n) (omega arith) (omega arith) in
    (lead.first, lead.others, lead.shape, ground (arith, lead.low, lead.high))
