-- ===== src/Bitset/Bytes.antt =====
-- What `bt_bitset_read_arr` makes of the bytes of a bitfield message.
use libctorrent.Prelude.{
  ℕ, zero, suc, ◌+◌, ◌-◌, ◌*◌, ◌/◌, ◌%◌, ◌^◌, ◌<◌, ◌≡◌, refl, ap, sym, ◌∙◌, List, [], ◌∷◌, arith,
  ◌==◌, ◌⊎◌, inl, inr, get_or, length, take,
}
use libctorrent.Prelude.Bits.{bit}
use libctorrent.Bitset.{Bitset, with_bytes, bytes_of, words_of, copy_front, holds}
use libctorrent.Bitset.Laws.{holds-bit, room}

-- Every entry is a byte.
abbrev pub Bytes : List ℕ → Type 0
Bytes [] = Unit {0}
Bytes (x ∷ xs) = (x < 2 ^ 8) × Bytes xs

length-bytes_of : (xs : List ℕ) → length (bytes_of xs) ≡ 4 * length xs
unfolding bytes_of
length-bytes_of [] = refl
length-bytes_of (x ∷ xs) = omega (arith, length-bytes_of xs)

-- Overwriting a whole array leaves the bytes written.
copy_whole : (v m : List ℕ) → length v ≡ length m → copy_front v m ≡ v
unfolding copy_front
copy_whole [] [] h = refl
copy_whole [] (y ∷ m) h = absurd (omega arith)
copy_whole (x ∷ v) [] h = absurd (omega arith)
copy_whole (x ∷ v) (y ∷ m) h = ap (◌∷◌ x) (copy_whole v m (omega arith))

take_all : (v : List ℕ) (n : ℕ) → length v ≡ n → take n v ≡ v
take_all [] zero h = refl
take_all [] (suc n) h = refl
take_all (x ∷ v) zero h = absurd (omega arith)
take_all (x ∷ v) (suc n) h = ap (◌∷◌ x) (take_all v n (omega arith))

bit-high : (h l k : ℕ) → l < 256 → bit (h * 256 + l) (8 + k) ≡ bit h k
bit-high h l k p =
    let shift : (h * 256 + l) / 2 / 2 / 2 / 2 / 2 / 2 / 2 / 2 ≡ h = omega arith in
    let count : 8 + k ≡ suc (suc (suc (suc (suc (suc (suc (suc k))))))) = omega arith in
    rw (count, shift)

bit-low : (h l k : ℕ) → k < 8 → bit (h * 256 + l) k ≡ bit l k
bit-low h l zero p = omega arith
bit-low h l (suc zero) p = omega arith
bit-low h l (suc (suc zero)) p = omega arith
bit-low h l (suc (suc (suc zero))) p = omega arith
bit-low h l (suc (suc (suc (suc zero)))) p = omega arith
bit-low h l (suc (suc (suc (suc (suc zero))))) p = omega arith
bit-low h l (suc (suc (suc (suc (suc (suc zero)))))) p = omega arith
bit-low h l (suc (suc (suc (suc (suc (suc (suc zero))))))) p = omega arith
bit-low h l (suc (suc (suc (suc (suc (suc (suc (suc k)))))))) p = absurd (omega arith)

-- The highest bit of a word lies in the byte that memory holds last.
module _ (a b c d : ℕ) (m : List ℕ) (k : ℕ) (p : a < 256) (q : b < 256) (r : c < 256) where
  abbrev whole : ℕ
  whole = ((d * 256 + c) * 256 + b) * 256 + a

  word-bit :
      k < 32 → bit whole (31 - k) ≡ bit (get_or (a ∷ b ∷ c ∷ d ∷ m) (3 - k / 8) 0) (7 - k % 8)
  word-bit h = elim (split (k / 8) (omega arith)) [
    | inl e ↦
        let at : 31 - k ≡ 8 + (8 + (8 + (7 - k % 8))) = omega arith in
        rw
          (
            at,
            e,
            bit-high ((d * 256 + c) * 256 + b) a (8 + (8 + (7 - k % 8))) p,
            bit-high (d * 256 + c) b (8 + (7 - k % 8)) q,
          )
          (bit-high d c (7 - k % 8) r)
    | inr (inl e) ↦
        let at : 31 - k ≡ 8 + (8 + (7 - k % 8)) = omega arith in
        rw
          (
            at,
            e,
            bit-high ((d * 256 + c) * 256 + b) a (8 + (7 - k % 8)) p,
            bit-high (d * 256 + c) b (7 - k % 8) q,
          )
          (bit-low d c (7 - k % 8) (omega arith))
    | inr (inr (inl e)) ↦
        let at : 31 - k ≡ 8 + (7 - k % 8) = omega arith in
        rw (at, e, bit-high ((d * 256 + c) * 256 + b) a (7 - k % 8) p)
          (bit-low (d * 256 + c) b (7 - k % 8) (omega arith))
    | inr (inr (inr e)) ↦
        let at : 31 - k ≡ 7 - k % 8 = omega arith in
        rw (at, e) (bit-low ((d * 256 + c) * 256 + b) a (7 - k % 8) (omega arith))
  ]
    where
      split : (n : ℕ) → n < 4 → (n ≡ 0) ⊎ ((n ≡ 1) ⊎ ((n ≡ 2) ⊎ (n ≡ 3)))
      split zero h = inl refl
      split (suc zero) h = inr (inl refl)
      split (suc (suc zero)) h = inr (inr (inl refl))
      split (suc (suc (suc zero))) h = inr (inr (inr refl))
      split (suc (suc (suc (suc n)))) h = absurd (omega arith)

words-bit :
    (v : List ℕ) (n w k : ℕ)
    → Bytes v
    → length v ≡ 4 * n
    → w < n
    → k < 32
    → bit (get_or (words_of v) w 0) (31 - k) ≡ bit (get_or v (w * 4 + (3 - k / 8)) 0) (7 - k % 8)
unfolding words_of
words-bit (a ∷ b ∷ c ∷ d ∷ m) n zero k h e p q =
    let at : 0 * 4 + (3 - k / 8) ≡ 3 - k / 8 = omega arith in
    rw at (word-bit a b c d m k h.0 h.1.0 h.1.1.0 q)
words-bit (a ∷ b ∷ c ∷ d ∷ m) zero (suc w) k h e p q = absurd (omega arith)
words-bit (a ∷ b ∷ c ∷ d ∷ m) (suc n) (suc w) k h e p q =
    let at : suc w * 4 + (3 - k / 8) ≡ suc (suc (suc (suc (w * 4 + (3 - k / 8))))) = omega arith in
    rw at (words-bit m n w k h.1.1.1.1 (omega arith) (omega arith) q)
words-bit v n w k h e p q = absurd (omega arith)

-- After a whole array of bytes is copied in, number `i` is in the set exactly when the bit that the
-- bitfield keeps for it is set in the byte at the mirrored place of its group of four: byte
-- `3 - i / 8 % 4` of the group, not byte `i / 8 % 4`, where the protocol puts it.
pub holds-with_bytes :
    (b : Bitset) (v : List ℕ) (i : ℕ)
    → Bytes v
    → length v ≡ 4 * length b.bits
    → i < room b
    → holds (with_bytes b v (length v)) i
      ≡ (bit (get_or v (i / 32 * 4 + (3 - i % 32 / 8)) 0) (7 - i % 8) == 1)
unfolding with_bytes
holds-with_bytes b v i h e p =
    let all = take_all v (length v) refl in
    let copied = copy_whole v (bytes_of b.bits) (e ∙ sym (length-bytes_of b.bits)) in
    let last : i % 32 % 8 ≡ i % 8 = omega arith in
    rw
      (
        holds-bit (with_bytes b v (length v)) i,
        all,
        copied,
        words-bit v (length b.bits) (i / 32) (i % 32) h e (omega arith) (omega arith),
        last,
      )
      refl
