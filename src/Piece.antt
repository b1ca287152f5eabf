-- ===== src/Piece.antt =====
-- src/piece.h and src/piece.c: a piece of the torrent, its blocks of CHUNK_SZ bytes, and which of
-- them the client has or has asked for. `alloc n` says whether `malloc(n)` succeeds.
pub mod Laws
pub mod Blocks
use libctorrent.Prelude.{
  ℕ, zero, suc, ◌+◌, ◌-◌, ◌*◌, ◌/◌, ◌%◌, ◌^◌, Bool, Option, none, some, List, ltb, ◌==◌,
  if◌then◌else◌, take, length,
}
use libctorrent.Prelude.Outcome.{Outcome, ok, failed, aborted}
use libctorrent.Bitset.{Bitset, ceil_div, bitset_new, with_bit, bitset_clear, holds}

abbrev pub chunk_sz : ℕ
chunk_sz = 2 ^ 14

-- `freq` is an `int`, kept as its 32-bit pattern.
pub record Piece : Type 0 where
  pub hash : List ℕ
  pub off : ℕ
  pub length : ℕ
  pub nblocks : ℕ
  pub nhave : ℕ
  pub freq : ℕ
  pub have : Bitset
  pub requested : Bitset

-- `bt_piece_init`, which does not look at the results of `bt_bitset_new`: `failed` is a piece
-- with a NULL set, which the next access follows.
unfoldable pub piece_init : (ℕ → Bool) → ℕ → ℕ → List ℕ → Outcome Piece
piece_init alloc off len hash = elim (bitset_new alloc (ceil_div 32 len chunk_sz)) [
  | ok set ↦ ok (record {
    hash = take 20 hash;
    off = off;
    length = len;
    nblocks = ceil_div 32 len chunk_sz;
    nhave = 0;
    freq = 0;
    have = set;
    requested = set;
  })
  | _ ↦ failed
]

-- The loop of `bt_piece_allocblock` from block `i`, with `k` blocks left; `none` is -1. The sets
-- of a piece have room for its blocks (`bt_piece_init`), so that the bit is written inside.
unfoldable pub alloc_from : ℕ → ℕ → Piece → Option ℕ × Piece
alloc_from zero i p = (none, p)
alloc_from (suc k) i p =
    let rest = alloc_from k (i + 1) p in
    if holds p.have i
    then rest
    else if holds p.requested i
    then rest
    else (some i, record p { requested = with_bit p.requested i })

unfoldable pub piece_allocblock : Piece → Option ℕ × Piece
unfolding alloc_from
piece_allocblock p = alloc_from p.nblocks 0 p

unfoldable pub piece_unallocblock : Piece → ℕ → Piece
piece_unallocblock p i = record p { requested = bitset_clear p.requested i }

-- What `bt_piece_markhave` does with a block that the set has room for.
unfoldable pub add_have : Piece → ℕ → Piece
add_have p i =
    if holds p.have i
    then p
    else record p { have = with_bit p.have i; nhave = (p.nhave + 1) % 2 ^ 32 }

-- `bt_piece_markhave`; a block outside the set is a fault.
unfoldable pub piece_markhave : Piece → ℕ → Outcome Piece
piece_markhave p i = if ltb (i / 32) (length p.have.bits) then ok (add_have p i) else aborted

unfoldable pub piece_incrfreq : Piece → Piece
piece_incrfreq p = record p { freq = (p.freq + 1) % 2 ^ 32 }

unfoldable pub piece_decrfreq : Piece → Piece
piece_decrfreq p = record p { freq = (p.freq + 2 ^ 32 - 1) % 2 ^ 32 }

unfoldable pub piece_complete : Piece → Bool
piece_complete p = p.nhave == p.nblocks

-- `nblocks - 1` is in `uint32` arithmetic.
unfoldable pub piece_blocklength : Piece → ℕ → ℕ
piece_blocklength p block =
    if ltb block ((p.nblocks + 2 ^ 32 - 1) % 2 ^ 32)
    then chunk_sz
    else chunk_sz - p.length % chunk_sz

-- `block * CHUNK_SZ` is in `uint32` arithmetic.
unfoldable pub piece_blockoffset : ℕ → ℕ
piece_blockoffset block = block * chunk_sz % 2 ^ 32

unfoldable pub piece_blockfromoff : ℕ → ℕ
piece_blockfromoff off = off / chunk_sz
