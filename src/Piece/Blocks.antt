-- ===== src/Piece/Blocks.antt =====
-- How a piece is cut into blocks.
use libctorrent.Prelude.{
  ℕ, ◌+◌, ◌-◌, ◌*◌, ◌%◌, ◌^◌, zero, suc, ◌<◌, ◌≡◌, ◌⊎◌, ◌↔◌, inl, inr, refl, sym, false, arith, min,
  ltb, Bool, List, take,
}
use native.Mathlib.Decide.{dec_lt}
use libctorrent.Prelude.Outcome.{Outcome, ok, failed, aborted}
use libctorrent.Bitset.{ceil_div, bitset_new, holds, Bitset}
use libctorrent.Bitset.Laws.{bitset_new_empty}
use libctorrent.Piece.{
  Piece, chunk_sz, piece_init, piece_blocklength, piece_blockoffset, piece_blockfromoff,
}
use libctorrent.Piece.Laws.{IsCounted, IsFree, count_held}

-- The piece has bytes, and as many blocks as they need.
pub record IsCut (p : Piece) : Type 0 where
  pub some_bytes : 0 < p.length
  pub word : p.length < 2 ^ 32
  pub blocks : p.nblocks ≡ ceil_div 32 p.length chunk_sz

-- The bytes of the piece that block `b` should carry.
abbrev pub true_length : Piece → ℕ → ℕ
true_length p b = min chunk_sz (p.length - b * chunk_sz)

-- Every block but the last has its true length. The last block has it only when the piece ends on a
-- whole block or on half of one; otherwise the code gives the part of a block that is missing.
pub piece_blocklength_lem :
    (p : Piece) (b : ℕ)
    → IsCut p
    → b < p.nblocks
    → ((b + 1 < p.nblocks) × (piece_blocklength p b ≡ true_length p b))
      ⊎ ((b + 1 ≡ p.nblocks)
          × (piece_blocklength p b ≡ chunk_sz - p.length % chunk_sz)
          × ((piece_blocklength p b ≡ true_length p b)
              ↔ ((p.length % chunk_sz ≡ 0) ⊎ (p.length % chunk_sz ≡ 2 ^ 13))))
unfolding piece_blocklength
piece_blocklength_lem p b v h = elim (dec_lt (b + 1) p.nblocks) [
  | yes inner ↦ inl (inner, ground arith)
  | no outer ↦
      let last : b + 1 ≡ p.nblocks = omega arith in
      let short : ltb b ((p.nblocks + 2 ^ 32 - 1) % 2 ^ 32) ≡ false = ground arith in
      inr (last, rw short, rw short (fits last))
]
  where
    fits :
        b + 1 ≡ p.nblocks
        → (chunk_sz - p.length % chunk_sz ≡ true_length p b)
          ↔ ((p.length % chunk_sz ≡ 0) ⊎ (p.length % chunk_sz ≡ 2 ^ 13))
    fits last = (λ e. omega arith, λ c. omega arith)

-- The offset of a block of the piece does not wrap, and the block is found again from it.
pub piece_blockfromoff-piece_blockoffset :
    (p : Piece) (b r : ℕ)
    → IsCut p
    → b < p.nblocks
    → r < chunk_sz
    → (piece_blockoffset b < p.length) × (piece_blockfromoff (piece_blockoffset b + r) ≡ b)
unfolding piece_blockoffset piece_blockfromoff
piece_blockfromoff-piece_blockoffset p b r v h q = omega arith

none_held : (b : Bitset) (k : ℕ) → ((i : ℕ) → holds b i ≡ false) → count_held b k ≡ 0
none_held b zero none = refl
none_held b (suc k) none = ground (arith, none k, none_held b k none)

-- A piece of at least one byte is set up with enough blocks for its bytes, with a count that is
-- right, and with every block free.
pub piece_init_lem :
    (alloc : ℕ → Bool) (off len : ℕ) (hash : List ℕ) {p : Piece}
    → 0 < len
    → len < 2 ^ 32
    → piece_init alloc off len hash ≡ ok p
    → IsCut p × IsCounted p × (p.length ≡ len) × (p.off ≡ off) × ((b : ℕ) → IsFree p b)
unfolding piece_init
piece_init_lem alloc off len hash {p} pos small e =
    made (bitset_new alloc (ceil_div 32 len chunk_sz)) refl e
  where
    start : Bitset → Piece
    start set = record {
      hash = take 20 hash;
      off = off;
      length = len;
      nblocks = ceil_div 32 len chunk_sz;
      nhave = 0;
      freq = 0;
      have = set;
      requested = set;
    }

    made :
        (o : Outcome Bitset)
        → bitset_new alloc (ceil_div 32 len chunk_sz) ≡ o
        → ◌≡◌ {A = Outcome Piece} (elim o [ ok set ↦ ok (start set) | _ ↦ failed ]) (ok p)
        → IsCut p × IsCounted p × (p.length ≡ len) × (p.off ≡ off) × ((b : ℕ) → IsFree p b)
    made failed k e = cc
    made aborted k e = cc
    made (ok set) k e =
        let same : p ≡ start set = cc in
        let (valid, fits, empty) =
          bitset_new_empty alloc (ceil_div 32 len chunk_sz) (omega arith) (omega arith) k in
        rw same (
          record { some_bytes = pos; word = small; blocks = refl },
          record {
            counted = sym (none_held set (ceil_div 32 len chunk_sz) empty);
            have_room = fits;
            small = omega arith;
          },
          refl,
          refl,
          λ b. (empty b, empty b),
        )
