-- ===== src/Wire/Laws.antt =====
-- Each GET reads back what its PUT stored, and a PUT stores bytes only.
use libctorrent.Prelude.{
  ℕ, ◌+◌, ◌*◌, ◌%◌, ◌^◌, ◌<◌, ◌≡◌, refl, ◌∙◌, List, ◌∷◌, ◌++◌, arith, length, bit_and, mod-eq_of_lt,
}
use libctorrent.Prelude.Bits.{bit_and_mask, bit_or_disjoint}
use libctorrent.Wire.{
  shr, shift_in, put_u16be, put_u32be, put_u64be, get_u16be, get_u32be, get_u64be,
}

mask_255 : (x : ℕ) → bit_and x 255 ≡ x % 256
mask_255 x = bit_and_mask 8 x

-- While the high byte stays free, shifting a byte in is arithmetic.
shift_in_lem : (w u b : ℕ) → u * 2 ^ 8 < 2 ^ w → b < 2 ^ 8 → shift_in w u b ≡ u * 256 + b
shift_in_lem w u b h k = rw (mod-eq_of_lt {n = u * 2 ^ 8} {m = 2 ^ w} h) (bit_or_disjoint 8 u b k)

pub get_u16be-bytes :
    (a b : ℕ) (m : List ℕ) → a < 256 → b < 256 → get_u16be (a ∷ b ∷ m) ≡ a * 256 + b
unfolding get_u16be
get_u16be-bytes a b m p q = shift_in_lem 16 a b (omega arith) q

pub get_u32be-bytes :
    (a b c d : ℕ) (m : List ℕ)
    → a < 256
    → b < 256
    → c < 256
    → d < 256
    → get_u32be (a ∷ b ∷ c ∷ d ∷ m) ≡ ((a * 256 + b) * 256 + c) * 256 + d
unfolding get_u32be
get_u32be-bytes a b c d m p q r s =
    rw (shift_in_lem 32 a b (omega arith) q, shift_in_lem 32 (a * 256 + b) c (omega arith) r)
      (shift_in_lem 32 ((a * 256 + b) * 256 + c) d (omega arith) s)

pub length-put_u32be : (u : ℕ) → length (put_u32be u) ≡ 4
unfolding put_u32be
length-put_u32be u = refl

-- A 16-bit value written in network order reads back unchanged, whatever follows it.
pub get_u16be-put_u16be : (u : ℕ) (rest : List ℕ) → u < 2 ^ 16 → get_u16be (put_u16be u ++ rest) ≡ u
unfolding put_u16be
get_u16be-put_u16be u rest h =
    rw mask_255 (get_u16be-bytes _ _ rest (omega arith) (omega arith) ∙ omega arith)

-- A 32-bit value written in network order reads back unchanged, whatever follows it.
pub get_u32be-put_u32be : (u : ℕ) (rest : List ℕ) → u < 2 ^ 32 → get_u32be (put_u32be u ++ rest) ≡ u
unfolding put_u32be
get_u32be-put_u32be u rest h =
    rw (mask_255 (shr u 16), mask_255 (shr u 8), mask_255 u)
      (get_u32be-bytes _ _ _ _ rest (omega arith) (omega arith) (omega arith) (omega arith)
        ∙ omega arith)

module _ (a b c d e f g h : ℕ) (m : List ℕ) where
  abbrev in_order : ℕ
  in_order = ((((((a * 256 + b) * 256 + c) * 256 + d) * 256 + e) * 256 + f) * 256 + g) * 256 + h

  pub get_u64be-bytes :
      a < 256
      → b < 256
      → c < 256
      → d < 256
      → e < 256
      → f < 256
      → g < 256
      → h < 256
      → get_u64be (a ∷ b ∷ c ∷ d ∷ e ∷ f ∷ g ∷ h ∷ m) ≡ in_order
  unfolding get_u64be
  get_u64be-bytes pa pb pc pd pe pf pg ph =
      let ab = a * 256 + b in
      let abc = ab * 256 + c in
      let abcd = abc * 256 + d in
      let abcde = abcd * 256 + e in
      let abcdef = abcde * 256 + f in
      let abcdefg = abcdef * 256 + g in
      rw
        (
          shift_in_lem 64 a b (omega arith) pb,
          shift_in_lem 64 ab c (omega arith) pc,
          shift_in_lem 64 abc d (omega arith) pd,
          shift_in_lem 64 abcd e (omega arith) pe,
          shift_in_lem 64 abcde f (omega arith) pf,
          shift_in_lem 64 abcdef g (omega arith) pg,
        )
        (shift_in_lem 64 abcdefg h (omega arith) ph)

mask_32 : (x : ℕ) → bit_and x 0xffffffff ≡ x % 2 ^ 32
mask_32 x = bit_and_mask 32 x

-- A 64-bit value written in network order reads back unchanged, whatever follows it.
pub get_u64be-put_u64be : (u : ℕ) (rest : List ℕ) → u < 2 ^ 64 → get_u64be (put_u64be u ++ rest) ≡ u
unfolding put_u64be
get_u64be-put_u64be u rest h =
    rw
      (
        mask_32 u,
        mask_255 (shr (shr u 32) 16),
        mask_255 (shr (shr u 32) 8),
        mask_255 (shr u 32),
        mask_255 (shr (u % 2 ^ 32) 16),
        mask_255 (shr (u % 2 ^ 32) 8),
        mask_255 (u % 2 ^ 32),
      )
      (get_u64be-bytes _ _ _ _ _ _ _ _ rest (omega arith) (omega arith) (omega arith) (omega arith)
          (omega arith) (omega arith) (omega arith) (omega arith)
        ∙ omega arith)
