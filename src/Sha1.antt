-- ===== src/Sha1.antt =====
-- src/crypt/sha1.c: SHA-1. The names of the five registers go round with every step of
-- `sha1_round`; the model moves their values instead, and after 80 steps both agree.
-- The file writes out its own macros for byte order; on 32- and 64-bit words they store and read what
-- those of Wire do.
pub mod Blocks
use libctorrent.Prelude.{
  ℕ, zero, suc, ◌+◌, ◌-◌, ◌*◌, ◌/◌, ◌%◌, ◌^◌, List, [], ◌∷◌, ◌++◌, ltb, if◌then◌else◌, length, take,
  drop, replicate, get_or, set, bit_and, bit_or, bit_xor,
}
use libctorrent.Wire.{get_u32be, put_u32be, put_u64be}

-- `padding`
abbrev pub padding : List ℕ
padding = 128 ∷ replicate 63 0

-- `lt_rot`
abbrev pub lt_rot : ℕ → ℕ → ℕ
lt_rot x n = bit_or (x * 2 ^ n % 2 ^ 32) (x / 2 ^ (32 - n))

-- The registers A to E, and the state `h`.
pub record Regs : Type 0 where
  pub ra : ℕ
  pub rb : ℕ
  pub rc : ℕ
  pub rd : ℕ
  pub re : ℕ

-- F of step `t`
abbrev pub f_of : ℕ → ℕ → ℕ → ℕ → ℕ
f_of t x y z =
    if ltb t 20
    then bit_xor z (bit_and x (bit_xor y z))
    else if ltb t 40
    then bit_xor (bit_xor x y) z
    else if ltb t 60
    then bit_or (bit_and x y) (bit_and z (bit_or x y))
    else bit_xor (bit_xor x y) z

-- K of step `t`
abbrev pub k_of : ℕ → ℕ
k_of t =
    if ltb t 20
    then 0x5A827999
    else if ltb t 40
    then 0x6ED9EBA1
    else if ltb t 60
    then 0x8F1BBCDC
    else 0xCA62C1D6

-- P
abbrev pub p_step : ℕ → ℕ → Regs → Regs
p_step t x r = record {
  ra = (r.re + (lt_rot r.ra 5 + f_of t r.rb r.rc r.rd + k_of t + x)) % 2 ^ 32;
  rb = r.ra;
  rc = lt_rot r.rb 30;
  rd = r.rc;
  re = r.rd;
}

-- W[t & 0x0F] after R(t), for a step past the first 16.
abbrev pub next_word : ℕ → List ℕ → ℕ
next_word t w =
    lt_rot
      (bit_xor
        (bit_xor (bit_xor (get_or w ((t - 3) % 16) 0) (get_or w ((t - 8) % 16) 0))
          (get_or w ((t - 14) % 16) 0))
        (get_or w (t % 16) 0))
      1

-- The word of step `t`, and the words after it.
abbrev pub r_step : ℕ → List ℕ → ℕ × List ℕ
r_step t w = if ltb t 16 then (get_or w t 0, w) else (next_word t w, set w (t % 16) (next_word t w))

-- `k` steps from step `t` on.
unfoldable pub steps : ℕ → ℕ → List ℕ → Regs → Regs
steps zero t w r = r
steps (suc k) t w r = let (x, w') = r_step t w in steps k (t + 1) w' (p_step t x r)

-- The words of a chunk: W[0] to W[15].
unfoldable pub chunk_words : ℕ → List ℕ → List ℕ
chunk_words zero chunk = []
chunk_words (suc k) chunk = get_u32be chunk ∷ chunk_words k (drop 4 chunk)

-- `sha1_round`
unfoldable pub sha1_round : Regs → List ℕ → Regs
sha1_round h chunk =
    let r = steps 80 0 (chunk_words 16 chunk) h in
    record {
      ra = (h.ra + r.ra) % 2 ^ 32;
      rb = (h.rb + r.rb) % 2 ^ 32;
      rc = (h.rc + r.rc) % 2 ^ 32;
      rd = (h.rd + r.rd) % 2 ^ 32;
      re = (h.re + r.re) % 2 ^ 32;
    }

abbrev pub first_regs : Regs
first_regs = record {
  ra = 0x67452301;
  rb = 0xEFCDAB89;
  rc = 0x98BADCFE;
  rd = 0x10325476;
  re = 0xC3D2E1F0;
}

-- What `bt_sha1` does with the less than 64 bytes that the loop leaves.
unfoldable pub finish : ℕ → Regs → List ℕ → Regs
finish blen h msg =
    if ltb (length msg) 56
    then sha1_round h ((msg ++ take (56 - length msg) padding) ++ put_u64be blen)
    else sha1_round (sha1_round h (msg ++ take (64 - length msg) padding))
        (replicate 56 0 ++ put_u64be blen)

-- `while (len >= 64)`, and what follows it; the fuel is the length of the message.
unfoldable pub rounds : ℕ → ℕ → Regs → List ℕ → Regs
rounds zero blen h msg = finish blen h msg
rounds (suc k) blen h msg =
    let more = rounds k blen (sha1_round h (take 64 msg)) (drop 64 msg) in
    if ltb (length msg) 64 then finish blen h msg else more

abbrev pub digest_of : Regs → List ℕ
digest_of h = put_u32be h.ra ++ put_u32be h.rb ++ put_u32be h.rc ++ put_u32be h.rd ++ put_u32be h.re

-- `bt_sha1`
unfoldable pub bt_sha1 : List ℕ → List ℕ
bt_sha1 msg = digest_of (rounds (length msg) (length msg * 8 % 2 ^ 64) first_regs msg)
