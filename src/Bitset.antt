-- ===== src/Bitset.antt =====
-- src/bitset.c: sets of small numbers in 32-bit words, the lowest number in the highest bit.
-- `1 << (i ^ 31)` shifts an `int` by a count that is 32 or more whenever `i` is; C leaves that
-- open, and the model takes the count modulo 32, as the shift instruction of x86-64 does.
-- A word outside the array reads as 0, and `with_bit` and `bitset_clear` write inside it; the callers
-- see to that, and `bitset_set` and `bitset_read_arr`, which get what peers send, test it.
pub mod Laws
pub mod Search
pub mod Bytes
use libctorrent.Prelude.{
  ℕ, zero, suc, ◌+◌, ◌-◌, ◌*◌, ◌/◌, ◌%◌, ◌^◌, Bool, not, List, [], ◌∷◌, ◌++◌, ◌==◌, if◌then◌else◌,
  get_or, set, take, length, ltb, replicate, bit_and, bit_or, bit_xor,
}
use libctorrent.Prelude.Outcome.{Outcome, ok, failed, aborted}

pub record Bitset : Type 0 where
  pub len : ℕ
  pub bits : List ℕ

-- CEIL_DIV of src/util/common.h in unsigned arithmetic of `w` bits: `a - 1` wraps at 0.
abbrev pub ceil_div : ℕ → ℕ → ℕ → ℕ
ceil_div w a b = (a + (2 ^ w - 1)) % 2 ^ w / b + 1

-- `bt_bitset_new`: a header of 8 bytes and 4 bytes a word.
unfoldable pub bitset_new : (ℕ → Bool) → ℕ → Outcome Bitset
bitset_new alloc n =
    let len = ceil_div 64 n 32 in
    if alloc ((8 + 4 * len) % 2 ^ 64)
    then ok (record { len = len; bits = replicate len 0 })
    else failed

-- `1 << (i ^ 31)`
abbrev pub mask : ℕ → ℕ
mask i = 2 ^ (bit_xor i 31 % 32)

abbrev pub word : Bitset → ℕ → ℕ
word b i = get_or b.bits (i / 32) 0

-- What `bt_bitset_set` does to a set that has the word.
unfoldable pub with_bit : Bitset → ℕ → Bitset
with_bit b i = record b { bits = set b.bits (i / 32) (bit_or (word b i) (mask i)) }

-- `bt_bitset_set`; a word outside the array is a fault.
unfoldable pub bitset_set : Bitset → ℕ → Outcome Bitset
bitset_set b i = if ltb (i / 32) (length b.bits) then ok (with_bit b i) else aborted

-- `~x` on 32 bits is `2^32 - 1 - x`.
unfoldable pub bitset_clear : Bitset → ℕ → Bitset
bitset_clear b i = record b {
  bits = set b.bits (i / 32) (bit_and (word b i) (2 ^ 32 - 1 - mask i));
}

unfoldable pub bitset_get : Bitset → ℕ → ℕ
bitset_get b i = bit_and (word b i) (mask i)

-- The result of `bt_bitset_get` in a condition.
unfoldable pub holds : Bitset → ℕ → Bool
unfolding bitset_get
holds b i = not (bitset_get b i == 0)

-- The `while (j--)` of `bt_bitset_next0` from `j`: the value of `j` after the loop, plus one.
unfoldable pub top_zero : ℕ → ℕ → ℕ
top_zero x zero = 0
top_zero x (suc j) = let rest = top_zero x j in if bit_and x (2 ^ j) == 0 then suc j else rest

-- The `for` of `bt_bitset_next0`: the words left, and `i`.
unfoldable pub next_from : List ℕ → ℕ → ℕ
unfolding top_zero
next_from [] i = bit_or (i * 32 % 2 ^ 64) (2 ^ 64 - 1)
next_from (x ∷ xs) i =
    let rest = next_from xs (i + 1) in
    if 2 ^ 32 - 1 - x == 0
    then rest
    else bit_or (i * 32 % 2 ^ 64) ((31 + 1 + 2 ^ 64 - top_zero x 32) % 2 ^ 64)

unfoldable pub bitset_next0 : Bitset → ℕ
unfolding next_from
bitset_next0 b = next_from (take b.len b.bits) 0

-- The four bytes of a word as they lie in memory: the low byte first.
unfoldable pub bytes_of : List ℕ → List ℕ
bytes_of [] = []
bytes_of (x ∷ xs) = x % 256 ∷ x / 2 ^ 8 % 256 ∷ x / 2 ^ 16 % 256 ∷ x / 2 ^ 24 % 256 ∷ bytes_of xs

unfoldable pub words_of : List ℕ → List ℕ
words_of (a ∷ b ∷ c ∷ d ∷ m) = (((d * 256 + c) * 256 + b) * 256 + a) ∷ words_of m
words_of m = []

-- `memcpy` to the front of an array; all of it fits.
unfoldable pub copy_front : List ℕ → List ℕ → List ℕ
copy_front [] m = m
copy_front (x ∷ v) [] = []
copy_front (x ∷ v) (y ∷ m) = x ∷ copy_front v m

-- What `bt_bitset_read_arr` does to a set that has room for the bytes.
unfoldable pub with_bytes : Bitset → List ℕ → ℕ → Bitset
unfolding bytes_of words_of copy_front
with_bytes b v sz = record b { bits = words_of (copy_front (take sz v) (bytes_of b.bits)) }

-- `bt_bitset_read_arr`; bytes behind the array are a fault.
unfoldable pub bitset_read_arr : Bitset → List ℕ → ℕ → Outcome Bitset
bitset_read_arr b v sz = if ltb (4 * length b.bits) sz then aborted else ok (with_bytes b v sz)

-- The digits that `uint32_fprint` writes: one for each mask from `1 << j - 1` down.
unfoldable pub word_digits : ℕ → ℕ → List ℕ
word_digits x zero = []
word_digits x (suc j) = (if bit_and x (2 ^ j) == 0 then b'0' else b'1') ∷ word_digits x j

unfoldable pub fprint_words : List ℕ → List ℕ
unfolding word_digits
fprint_words [] = 10 ∷ []
fprint_words (x ∷ xs) = word_digits x 32 ++ fprint_words xs

-- `bt_bitset_fprint`: the characters written.
unfoldable pub bitset_fprint : Bitset → List ℕ
unfolding fprint_words
bitset_fprint b = fprint_words (take b.len b.bits)
