-- ===== src/Tests/Sets.antt =====
-- src/bitset.c and src/piece.c at concrete inputs.
use libctorrent.Prelude.{
  ℕ, ◌-◌, ◌%◌, ◌^◌, ◌<◌, ◌≡◌, ◌⊎◌, ◌↔◌, refl, Bool, true, false, List, [], ◌∷◌, arith, replicate,
  if◌then◌else◌, ◌==◌,
}
use libctorrent.Prelude.Outcome.{ok}
use libctorrent.Bitset.{Bitset, bitset_new, holds, bitset_next0}
use libctorrent.Bitset.Laws.{room, bitset_new_empty}
use libctorrent.Bitset.Search.{bitset_next0_lem}
use libctorrent.Piece.{Piece, piece_init, piece_markhave, piece_blocklength, chunk_sz}
use libctorrent.Piece.Laws.{IsCounted, piece_markhave_lem}
use libctorrent.Piece.Blocks.{IsCut, true_length, piece_blocklength_lem, piece_init_lem}

abbrev plenty : ℕ → Bool
plenty n = true

abbrev empty_set : Bitset
empty_set = record { len = 2; bits = 0 ∷ 0 ∷ [] }

new_set : bitset_new plenty 40 ≡ ok empty_set
unfolding bitset_new
new_set = refl

bitset_next0_lem_example :
    (((j : ℕ) → j < room empty_set → holds empty_set j ≡ true)
      × (bitset_next0 empty_set ≡ 2 ^ 64 - 1))
    ⊎ ((bitset_next0 empty_set < room empty_set)
        × (holds empty_set (bitset_next0 empty_set) ≡ false)
        × ((j : ℕ) → j < bitset_next0 empty_set → holds empty_set j ≡ true))
bitset_next0_lem_example =
    bitset_next0_lem empty_set (bitset_new_empty plenty 40 (omega arith) (omega arith) new_set).0
      (omega arith)

abbrev bitfield_bytes : List ℕ
bitfield_bytes = 1 ∷ 2 ∷ 4 ∷ 128 ∷ 0 ∷ 0 ∷ 0 ∷ 255 ∷ []

-- Two whole blocks and 100 bytes.
abbrev some_piece : Piece
some_piece = record {
  hash = replicate 20 0;
  off = 0;
  length = 32868;
  nblocks = 3;
  nhave = 0;
  freq = 0;
  have = record { len = 1; bits = 0 ∷ [] };
  requested = record { len = 1; bits = 0 ∷ [] };
}

new_piece : piece_init plenty 0 32868 (replicate 20 0) ≡ ok some_piece
unfolding piece_init bitset_new
new_piece = refl

some_piece-IsCut : IsCut some_piece
some_piece-IsCut =
    (piece_init_lem plenty 0 32868 (replicate 20 0) (omega arith) (omega arith) new_piece).0

some_piece-IsCounted : IsCounted some_piece
some_piece-IsCounted =
    (piece_init_lem plenty 0 32868 (replicate 20 0) (omega arith) (omega arith) new_piece).1

piece_markhave_lem_example :
    (q : Piece) × (piece_markhave some_piece 2 ≡ ok q)
    × IsCounted q
    × ((j : ℕ) → holds q.have j ≡ (if 2 == j then true else holds some_piece.have j))
    × (piece_markhave q 2 ≡ ok q)
piece_markhave_lem_example = piece_markhave_lem some_piece 2 some_piece-IsCounted (omega arith)

piece_blocklength_lem_example :
    ((3 < 3) × (piece_blocklength some_piece 2 ≡ true_length some_piece 2))
    ⊎ ((◌≡◌ {A = ℕ} 3 3)
        × (piece_blocklength some_piece 2 ≡ chunk_sz - 32868 % chunk_sz)
        × ((piece_blocklength some_piece 2 ≡ true_length some_piece 2)
            ↔ ((32868 % chunk_sz ≡ 0) ⊎ (32868 % chunk_sz ≡ 2 ^ 13))))
piece_blocklength_lem_example = piece_blocklength_lem some_piece 2 some_piece-IsCut (omega arith)
