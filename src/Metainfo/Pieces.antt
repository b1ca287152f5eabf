-- ===== src/Metainfo/Pieces.antt =====
-- The table of pieces that `init_pieces` of src/torrent.c sets up.
use libctorrent.Prelude.{
  ℕ, zero, suc, ◌+◌, ◌-◌, ◌*◌, ◌/◌, ◌%◌, ◌^◌, ◌≤◌, ◌<◌, ◌≡◌, refl, Bool, true, false, List, [], ◌∷◌,
  ◌==◌, ltb, length, length-drop, replicate, drop, min, arith, Bool-cases, inl, inr,
}
use libctorrent.Prelude.Outcome.{Outcome, ok, failed, aborted, ◌>>=◌, Returns, Returns-bind}
use libctorrent.Bitset.{ceil_div, bitset_new, holds}
use libctorrent.Bitset.Laws.{room, bitset_new_empty}
use libctorrent.Piece.{Piece, piece_init, chunk_sz}
use libctorrent.Metainfo.{pieces_loop, init_pieces}

-- A piece as it starts: both its sets have room for its blocks and hold none of them.
pub record IsFresh (off len : ℕ) (p : Piece) : Type 0 where
  pub place : p.off ≡ off
  pub size : p.length ≡ len
  pub blocks : p.nblocks ≡ (len + 2 ^ 14 - 1) / 2 ^ 14
  pub room_to_ask : p.nblocks ≤ room p.requested
  pub room_to_have : p.nblocks ≤ room p.have
  pub none_asked : (j : ℕ) → holds p.requested j ≡ false
  pub none_held : (j : ℕ) → holds p.have j ≡ false
  pub few : p.nblocks < 2 ^ 32
  pub none_here : p.nhave ≡ 0

-- The pieces from byte `off` on lie side by side up to byte `size`, all of them `plen` long but
-- for the last.
abbrev pub Tiled : ℕ → ℕ → ℕ → List Piece → Type 0
Tiled size plen off [] = off ≡ size
Tiled size plen off (p ∷ t) =
    (off < size)
    × IsFresh off (min (size - off) plen) p
    × Tiled size plen (off + min (size - off) plen) t

set_made :
    (alloc : ℕ → Bool) (n : ℕ)
    → ((k : ℕ) → alloc k ≡ true)
    → bitset_new alloc n
      ≡ ok (record { len = ceil_div 64 n 32; bits = replicate (ceil_div 64 n 32) 0 })
unfolding bitset_new
set_made alloc n memory = rw (memory ((8 + 4 * ceil_div 64 n 32) % 2 ^ 64)) refl

piece_init-IsFresh :
    (alloc : ℕ → Bool) (off len : ℕ) (hash : List ℕ)
    → ((k : ℕ) → alloc k ≡ true)
    → 0 < len
    → len < 2 ^ 32
    → Returns (IsFresh off len) (piece_init alloc off len hash)
unfolding piece_init
piece_init-IsFresh alloc off len hash memory pos small =
    let n = ceil_div 32 len chunk_sz in
    let count : n ≡ (len + 2 ^ 14 - 1) / 2 ^ 14 = omega arith in
    let (valid, roomy, none_held) =
      bitset_new_empty alloc n (omega arith) (omega arith) (set_made alloc n memory) in
    rw (set_made alloc n memory, Returns)
      (record {
        place = refl;
        size = refl;
        blocks = count;
        room_to_ask = roomy;
        room_to_have = roomy;
        none_asked = none_held;
        none_held = none_held;
        few = omega arith;
        none_here = refl;
      })

ap_left : (k a plen : ℕ) → a ≤ k * plen → a ≤ (suc k - 1) * plen
ap_left k a plen h = let same : suc k - 1 ≡ k = omega arith in rw same h

-- A hash for each piece that is left.
hash_left :
    (q rem plen : ℕ) → 0 < rem → rem ≤ q * plen → (1 ≤ q) × (rem - min rem plen ≤ (q - 1) * plen)
hash_left zero rem plen more h = absurd (omega (arith, h))
hash_left (suc k) rem plen more h =
    let less : rem ≤ plen + k * plen = omega (arith, h) in
    let left : rem - min rem plen ≤ k * plen = omega (arith, less) in
    (omega arith, ap_left k (rem - min rem plen) plen left)

module _ (alloc : ℕ → Bool) (size plen : ℕ) (memory : (k : ℕ) → alloc k ≡ true) where
  pieces_loop-Tiled :
      (fuel off rem n : ℕ) (hashes : List ℕ)
      → rem ≤ fuel
      → off + rem ≡ size
      → 0 < plen
      → plen < 2 ^ 32
      → 0 < n % 4
      → rem ≤ length hashes / 20 * plen
      → Returns (Tiled size plen off) (pieces_loop alloc fuel size plen rem n hashes)
  unfolding pieces_loop
  pieces_loop-Tiled zero off rem n hashes enough place pos small odd long =
      let done : (rem == 0) ≡ true = ground arith in
      let end : off ≡ size = omega arith in rw (done, Returns) end
  pieces_loop-Tiled (suc fuel) off rem n hashes enough place pos small odd long =
      elim (Bool-cases (rem == 0)) [
        | inl done ↦ let end : off ≡ size = ground arith in rw (done, Returns) end
        | inr more ↦
            let len : min rem plen % 2 ^ 32 ≡ min rem plen = omega arith in
            let left : (n == 0) ≡ false = ground arith in
            let here : size - rem ≡ off = omega arith in
            let step : size - off ≡ rem = omega arith in
            let (some_hash, next) = hash_left (length hashes / 20) rem plen (ground arith) long in
            let hash : ltb (length hashes) 20 ≡ false = ground (arith, some_hash) in
            let fewer : length (drop 20 hashes) / 20 ≡ length hashes / 20 - 1 =
              omega (arith, length-drop 20 hashes, some_hash) in
            rw (more, left, hash, len, here)
              (Returns-bind (IsFresh off (min rem plen)) (Tiled size plen off)
                (piece_init alloc off (min rem plen) hashes) _
                (piece_init-IsFresh alloc off (min rem plen) hashes memory (ground arith)
                  (omega arith))
                (λ p fresh.
                  Returns-bind (Tiled size plen (off + min rem plen)) (Tiled size plen off)
                    (pieces_loop alloc fuel size plen (rem - min rem plen)
                      ((n + 2 ^ 64 - 20) % 2 ^ 64) (drop 20 hashes))
                    (λ t. ok (p ∷ t))
                    (pieces_loop-Tiled fuel (off + min rem plen) (rem - min rem plen)
                      ((n + 2 ^ 64 - 20) % 2 ^ 64) (drop 20 hashes) (ground arith) (omega arith) pos
                      small (omega arith) (rw fewer next))
                    (λ t rest. (ground arith, rw step fresh, rw step rest))))
      ]

  -- Let there be memory, let pieces be between 1 and 2^32 - 1 bytes long, let the number of hashes be
  -- no multiple of 4, and let the string be long enough for all the pieces. Then `init_pieces` returns pieces that lie side by side in the
  -- torrent and cover it, all of them `plen` long but for the last; each has a block for every 2^14
  -- bytes, room for its blocks in both its sets, and none of them in either.
  pub init_pieces-Tiled :
      (pieces : List ℕ)
      → 0 < plen
      → plen < 2 ^ 32
      → 0 < length pieces / 20 % 4
      → size ≤ length pieces / 20 * plen
      → Returns (Tiled size plen 0) (init_pieces alloc size plen pieces)
  unfolding init_pieces
  init_pieces-Tiled pieces pos small odd long =
      pieces_loop-Tiled size 0 size (length pieces / 20) pieces (omega arith) (omega arith) pos
        small odd long

  then_failed :
      {A : Type 0} (P : A → Type 0) (m : Outcome A) (rest : Outcome (List A))
      → Returns P m
      → rest ≡ failed
      → (m >>= λ p. rest >>= λ t. ok (p ∷ t)) ≡ failed
  then_failed P (ok a) rest h e = rw e refl
  then_failed P failed rest h e = refl
  then_failed P aborted rest h e = absurd h

  pieces_loop-multiple :
      (fuel k rem : ℕ) (hashes : List ℕ)
      → rem ≤ fuel
      → 0 < plen
      → plen < 2 ^ 32
      → k * plen < rem
      → k < 2 ^ 59
      → 20 * k ≤ length hashes
      → pieces_loop alloc fuel size plen rem (20 * k) hashes ≡ failed
  unfolding pieces_loop
  pieces_loop-multiple zero k rem hashes enough pos small more few long = absurd (omega arith)
  pieces_loop-multiple (suc fuel) zero rem hashes enough pos small more few long =
      let left : (rem == 0) ≡ false = ground arith in rw left refl
  pieces_loop-multiple (suc fuel) (suc k) rem hashes enough pos small more few long =
      let less : plen + k * plen < rem = omega (arith, more) in
      let left : (rem == 0) ≡ false = ground arith in
      let some_left : (20 * suc k == 0) ≡ false = ground arith in
      let len : min rem plen % 2 ^ 32 ≡ plen = omega arith in
      let next : (20 * suc k + 2 ^ 64 - 20) % 2 ^ 64 ≡ 20 * k = omega arith in
      let hash : ltb (length hashes) 20 ≡ false = ground arith in
      rw (left, some_left, hash, len, next)
        (then_failed (IsFresh (size - rem) plen) (piece_init alloc (size - rem) plen hashes)
          (pieces_loop alloc fuel size plen (rem - plen) (20 * k) (drop 20 hashes))
          (piece_init-IsFresh alloc (size - rem) plen hashes memory pos small)
          (pieces_loop-multiple fuel k (rem - plen) (drop 20 hashes) (omega arith) pos small
            (omega arith) (omega arith) (omega (arith, length-drop 20 hashes))))

  -- When the number of hashes is a multiple of 20, `init_pieces` refuses the torrent after a
  -- twentieth of them, although there is a hash for every piece: 20 * k of them, more than k pieces.
  pub init_pieces-multiple :
      (k : ℕ) (pieces : List ℕ)
      → 0 < plen
      → plen < 2 ^ 32
      → length pieces / 20 ≡ 20 * k
      → k < 2 ^ 59
      → k * plen < size
      → init_pieces alloc size plen pieces ≡ failed
  unfolding init_pieces
  init_pieces-multiple k pieces pos small count few more = rw count (
      pieces_loop-multiple size k size pieces (omega arith) pos small more few
        (omega (arith, count)))
