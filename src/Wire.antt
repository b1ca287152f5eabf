-- ===== src/Wire.antt =====
-- The byte order macros of src/util/common.h: PUT_U16BE, PUT_U32BE, PUT_U64BE and their GET_
-- counterparts. A PUT is the list of the bytes that it stores from `m` on; a GET reads from a
-- list that begins at `m`. Storing into a `uint8` keeps the low eight bits.
pub mod Laws
use libctorrent.Prelude.{ℕ, ◌*◌, ◌/◌, ◌%◌, ◌^◌, List, [], ◌∷◌, ◌++◌, get_or, drop, bit_and, bit_or}

-- Reading past the end of the list is a read past the array, which the callers rule out.
abbrev pub byte_at : List ℕ → ℕ → ℕ
byte_at m i = get_or m i 0

-- `x >> k`
abbrev pub shr : ℕ → ℕ → ℕ
shr x k = x / 2 ^ k

-- `(u << 8) | b` in a word of `w` bits
abbrev pub shift_in : ℕ → ℕ → ℕ → ℕ
shift_in w u b = bit_or (u * 2 ^ 8 % 2 ^ w) b

unfoldable pub put_u16be : ℕ → List ℕ
put_u16be u = shr u 8 % 2 ^ 8 ∷ bit_and u 255 ∷ []

unfoldable pub put_u32be : ℕ → List ℕ
put_u32be u = shr u 24 % 2 ^ 8 ∷ bit_and (shr u 16) 255 ∷ bit_and (shr u 8) 255 ∷ bit_and u 255 ∷ []

unfoldable pub put_u64be : ℕ → List ℕ
unfolding put_u32be
put_u64be u = put_u32be (shr u 32) ++ put_u32be (bit_and u 0xffffffff)

-- Into a `uint16`.
unfoldable pub get_u16be : List ℕ → ℕ
get_u16be m = shift_in 16 (byte_at m 0) (byte_at m 1)

-- Into a `uint32`.
unfoldable pub get_u32be : List ℕ → ℕ
get_u32be m =
    shift_in 32 (shift_in 32 (shift_in 32 (byte_at m 0) (byte_at m 1)) (byte_at m 2)) (byte_at m 3)

-- Into a `uint64`.
unfoldable pub get_u64be : List ℕ → ℕ
get_u64be m =
    let high =
      shift_in 64 (shift_in 64 (shift_in 64 (byte_at m 0) (byte_at m 1)) (byte_at m 2))
        (byte_at m 3) in
    shift_in 64
      (shift_in 64 (shift_in 64 (shift_in 64 high (byte_at m 4)) (byte_at m 5)) (byte_at m 6))
      (byte_at m 7)
