-- ===== src/Sha1/Blocks.antt =====
-- `bt_sha1` of src/crypt/sha1.c digests the padded message of the standard block by block.
use libctorrent.Prelude.{
  ℕ, zero, suc, ◌+◌, ◌-◌, ◌*◌, ◌/◌, ◌%◌, ◌^◌, ◌≤◌, ◌<◌, ◌≡◌, refl, ap, ap₂, sym, ◌∙◌, List, [], ◌∷◌,
  ◌++◌, ltb, length, take, drop, replicate, arith, append_assoc, append-nil, length-append,
  length-replicate, length-drop, take-append, drop-append, Bool-cases, inl, inr,
}
use libctorrent.Wire.{put_u64be}
use libctorrent.Sha1.{Regs, padding, sha1_round, finish, rounds, first_regs, digest_of, bt_sha1}

-- What the standard puts behind a message of `n` bytes, whose count of bits is `blen`.
abbrev pub tail : ℕ → ℕ → List ℕ
tail n blen = 128 ∷ (replicate ((119 - n % 64) % 64) 0 ++ put_u64be blen)

-- The rounds over the first `k` blocks.
unfoldable pub fold_blocks : ℕ → Regs → List ℕ → Regs
fold_blocks zero h m = h
fold_blocks (suc k) h m = fold_blocks k (sha1_round h (take 64 m)) (drop 64 m)

take_long : (n : ℕ) (xs ys : List ℕ) → n ≤ length xs → take n (xs ++ ys) ≡ take n xs
take_long zero xs ys h = refl
take_long (suc n) [] ys h = absurd (omega arith)
take_long (suc n) (x ∷ xs) ys h = ap (◌∷◌ x) (take_long n xs ys (omega arith))

drop_long : (n : ℕ) (xs ys : List ℕ) → n ≤ length xs → drop n (xs ++ ys) ≡ drop n xs ++ ys
drop_long zero xs ys h = refl
drop_long (suc n) [] ys h = absurd (omega arith)
drop_long (suc n) (x ∷ xs) ys h = drop_long n xs ys (omega arith)

take_exact : (n : ℕ) (xs ys : List ℕ) → length xs ≡ n → take n (xs ++ ys) ≡ xs
take_exact n xs ys h = ap (λ k. take k (xs ++ ys)) (sym h) ∙ take-append xs ys

drop_exact : (n : ℕ) (xs ys : List ℕ) → length xs ≡ n → drop n (xs ++ ys) ≡ ys
drop_exact n xs ys h = ap (λ k. drop k (xs ++ ys)) (sym h) ∙ drop-append xs ys

abbrev zeros : ℕ → List ℕ
zeros n = replicate n 0

take-replicate : (n k : ℕ) → n ≤ k → take n (zeros k) ≡ zeros n
take-replicate zero k h = refl
take-replicate (suc n) zero h = absurd (omega arith)
take-replicate (suc n) (suc k) h = ap (◌∷◌ 0) (take-replicate n k (omega arith))

replicate-add : (n k : ℕ) → zeros (n + k) ≡ zeros n ++ zeros k
replicate-add zero k = ap zeros {x = 0 + k} {y = k} (omega arith)
replicate-add (suc n) k =
    ap zeros {x = suc n + k} {y = suc (n + k)} (omega arith) ∙ ap (◌∷◌ 0) (replicate-add n k)

length-zeros : (n : ℕ) → length (zeros n) ≡ n
length-zeros n = length-replicate n 0

take-padding : (n : ℕ) → n < 64 → take (n + 1) padding ≡ 128 ∷ zeros n
take-padding n h =
    ap (λ m. take m padding) {x = n + 1} {y = suc n} (omega arith)
    ∙ ap (◌∷◌ 128) (take-replicate n 63 (omega arith))

length-put_u64be : (u : ℕ) → length (put_u64be u) ≡ 8
unfolding put_u64be libctorrent.Wire.put_u32be
length-put_u64be u = refl

take_all : (n : ℕ) (xs : List ℕ) → length xs ≡ n → take n xs ≡ xs
take_all n xs h = ap (take n) (sym (append-nil xs)) ∙ take_exact n xs [] h

two_blocks :
    (h : Regs) (m a b : List ℕ)
    → m ≡ a ++ b
    → length a ≡ 64
    → length b ≡ 64
    → sha1_round (sha1_round h a) b ≡ sha1_round (sha1_round h (take 64 m)) (take 64 (drop 64 m))
two_blocks h m a b e p q =
    let front : take 64 m ≡ a = ap (take 64) e ∙ take_exact 64 a b p in
    let back : take 64 (drop 64 m) ≡ b =
      ap (λ l. take 64 (drop 64 l)) e ∙ ap (take 64) (drop_exact 64 a b p) ∙ take_all 64 b q in
    rw (front, back) refl

-- One block, or two, behind the loop.
finish_lem :
    (blen : ℕ) (h : Regs) (msg : List ℕ)
    → length msg < 64
    → finish blen h msg ≡ fold_blocks ((length msg + 72) / 64) h (msg ++ tail (length msg) blen)
unfolding finish fold_blocks put_u64be
finish_lem blen h msg short = elim (Bool-cases (ltb (length msg) 56)) [
  | inl one ↦
      let count : (length msg + 72) / 64 ≡ 1 = ground arith in
      let filler : (119 - length msg % 64) % 64 ≡ 55 - length msg = ground arith in
      let cut : 56 - length msg ≡ 55 - length msg + 1 = ground arith in
      let pad = take-padding (55 - length msg) (omega arith) in
      let size_one : length (msg ++ 128 ∷ (zeros (55 - length msg) ++ put_u64be blen)) ≡ 64 =
        ground (
          arith,
          length-append msg (128 ∷ (zeros (55 - length msg) ++ put_u64be blen)),
          length-append (zeros (55 - length msg)) (put_u64be blen),
          length-zeros (55 - length msg),
          length-put_u64be blen,
        ) in
      rw (one, count, filler, cut, pad)
        (ap (sha1_round h) (
          append_assoc msg (128 ∷ zeros (55 - length msg)) (put_u64be blen)
          ∙ sym (take_all 64 (msg ++ 128 ∷ (zeros (55 - length msg) ++ put_u64be blen)) size_one)))
  | inr two ↦
      let count : (length msg + 72) / 64 ≡ 2 = ground arith in
      let filler : (119 - length msg % 64) % 64 ≡ (63 - length msg) + 56 = ground arith in
      let cut : 64 - length msg ≡ 63 - length msg + 1 = ground arith in
      let pad = take-padding (63 - length msg) (omega arith) in
      let joined =
        ap (λ z. msg ++ 128 ∷ (z ++ put_u64be blen)) (replicate-add (63 - length msg) 56)
        ∙ ap (λ z. msg ++ 128 ∷ z)
            (append_assoc (zeros (63 - length msg)) (zeros 56) (put_u64be blen))
        ∙ sym (append_assoc msg (128 ∷ zeros (63 - length msg)) (zeros 56 ++ put_u64be blen)) in
      rw (two, count, filler, cut, pad)
        (two_blocks h (msg ++ 128 ∷ (zeros (63 - length msg + 56) ++ put_u64be blen))
          (msg ++ 128 ∷ zeros (63 - length msg)) (zeros 56 ++ put_u64be blen) joined
          (ground (
            arith,
            length-append msg (128 ∷ zeros (63 - length msg)),
            length-zeros (63 - length msg),
          ))
          (ap (λ n. 56 + n) (length-put_u64be blen)))
]

next_count : (n : ℕ) → 64 ≤ n → (n + 72) / 64 ≡ suc ((n - 64 + 72) / 64)
next_count n h = omega arith

next_rest : (n : ℕ) → 64 ≤ n → (n - 64) % 64 ≡ n % 64
next_rest n h = omega arith

fold_next :
    (n : ℕ) (h : Regs) (m t : List ℕ)
    → 64 ≤ length m
    → fold_blocks n (sha1_round h (take 64 m)) (drop 64 m ++ t) ≡ fold_blocks (suc n) h (m ++ t)
unfolding fold_blocks
fold_next n h m t e =
    ap₂ (λ a b. fold_blocks n (sha1_round h a) b) (sym (take_long 64 m t e))
      (sym (drop_long 64 m t e))

rounds_lem :
    (k blen : ℕ) (h : Regs) (msg : List ℕ)
    → length msg ≤ k
    → rounds k blen h msg ≡ fold_blocks ((length msg + 72) / 64) h (msg ++ tail (length msg) blen)
unfolding rounds
rounds_lem zero blen h msg e = finish_lem blen h msg (omega arith)
rounds_lem (suc k) blen h msg e = elim (Bool-cases (ltb (length msg) 64)) [
  | inl short ↦ rw short (finish_lem blen h msg (ground arith))
  | inr long ↦
      let enough : 64 ≤ length msg = ground arith in
      let left : length (drop 64 msg) ≡ length msg - 64 = length-drop 64 msg in
      let ih = rounds_lem k blen (sha1_round h (take 64 msg)) (drop 64 msg) (omega (arith, left)) in
      rw (long, ih, left, next_count (length msg) enough, next_rest (length msg) enough)
        (fold_next ((length msg - 64 + 72) / 64) h msg (tail (length msg) blen) enough)
]

-- `bt_sha1` of a message that is shorter than 2^61 bytes is the digest of the rounds over all the
-- blocks of the padded message: the message, a byte 128, the fewest zeros that fill the last block
-- but for eight bytes, and the count of the message's bits in network order. The padded message is
-- a whole number of blocks.
pub bt_sha1_lem :
    (msg : List ℕ)
    → length msg < 2 ^ 61
    → let padded = msg ++ tail (length msg) (length msg * 8) in
      let n = (length msg + 72) / 64 in
      (bt_sha1 msg ≡ digest_of (fold_blocks n first_regs padded)) × (length padded ≡ n * 64)
unfolding bt_sha1
bt_sha1_lem msg h =
    let bits : length msg * 8 % 2 ^ 64 ≡ length msg * 8 = omega arith in
    let tail_size =
      length-append (zeros ((119 - length msg % 64) % 64)) (put_u64be (length msg * 8)) in
    (
      rw bits
          (ap digest_of (rounds_lem (length msg) (length msg * 8) first_regs msg (omega arith))),
      omega (
        arith,
        length-append msg (tail (length msg) (length msg * 8)),
        tail_size,
        length-zeros ((119 - length msg % 64) % 64),
        length-put_u64be (length msg * 8),
      ),
    )
