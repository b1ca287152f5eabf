-- ===== src/Tests/Hash.antt =====
-- src/crypt/sha1.c at concrete inputs.
use libctorrent.Prelude.{◌≡◌, refl, [], ◌∷◌, ◌++◌, length, arith}
use libctorrent.Sha1.Blocks.{tail, fold_blocks, bt_sha1_lem}
use libctorrent.Sha1.{
  first_regs, digest_of, bt_sha1, rounds, finish, sha1_round, steps, chunk_words,
}
use libctorrent.Wire.{get_u32be, put_u32be, put_u64be}

-- The digest that the standard gives for `abc`.
sha1_abc :
    bt_sha1 (b'a' ∷ b'b' ∷ b'c' ∷ [])
    ≡ 0xa9 ∷ 0x99 ∷ 0x3e ∷ 0x36 ∷ 0x47 ∷ 0x06 ∷ 0x81 ∷ 0x6a ∷ 0xba ∷ 0x3e ∷ 0x25 ∷ 0x71 ∷ 0x78
      ∷ 0x50 ∷ 0xc2 ∷ 0x6c ∷ 0x9c ∷ 0xd0 ∷ 0xd8 ∷ 0x9d ∷ []
unfolding bt_sha1 rounds finish sha1_round steps chunk_words get_u32be put_u32be put_u64be
sha1_abc = refl

bt_sha1_lem_example :
    (bt_sha1 (b'a' ∷ b'b' ∷ b'c' ∷ [])
      ≡ digest_of (fold_blocks 1 first_regs ((b'a' ∷ b'b' ∷ b'c' ∷ []) ++ tail 3 24)))
    × (length ((b'a' ∷ b'b' ∷ b'c' ∷ []) ++ tail 3 24) ≡ 64)
bt_sha1_lem_example = bt_sha1_lem (b'a' ∷ b'b' ∷ b'c' ∷ []) (omega arith)
