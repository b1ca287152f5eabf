-- ===== src/Peer/Sound/Giving.antt =====
-- What a block that `bt_piece_allocblock` gives does to the table of pieces, for src/peer.c.
use libctorrent.Prelude.{
  ℕ, zero, suc, ◌+◌, ◌/◌, ◌%◌, ◌^◌, ◌≤◌, ◌<◌, ◌≡◌, ◌≢◌, refl, ap, sym, ◌∙◌, true, false, ◌&&◌, List,
  [], ◌∷◌, if◌then◌else◌, ◌==◌, arith, get_or-set_self, set, take, Bool-cases, inl, inr, none, some,
  length-set,
}
use native.Mathlib.Decide.{dec_lt}
use libctorrent.Bitset.{holds}
use libctorrent.Bitset.Laws.{room, holds-with_bit, room-with_bit}
use libctorrent.Piece.{Piece, piece_allocblock}
use libctorrent.Piece.Laws.{piece_allocblock_lem}
use libctorrent.Peer.{req_cap}
use libctorrent.Peer.Requests.{request_key}
use libctorrent.Peer.Booked.{count, one_if, count-last, count-beyond, requested_at, room_at}
use libctorrent.Peer.Schedule.{alloc_in, block_of, table_after}
use libctorrent.Peer.Sound.{
  blocks_at, HasBlocks, Booked, HasBlocks-same, blocks_at-change_piece, room_at-change_piece,
}

-- Allocating leaves the shape of a piece alone.
alloc_shape :
    (q : Piece)
    → ((piece_allocblock q).1.nblocks ≡ q.nblocks)
      × (room (piece_allocblock q).1.requested ≡ room q.requested)
alloc_shape q = elim (piece_allocblock_lem q) [
  | inl (e, all) ↦ let after = ap (λ r. r.1) e in rw after (refl, refl)
  | inr (b, e, small, free, all) ↦
      let after = ap (λ r. r.1) e in rw after (refl, room-with_bit q.requested b)
]

pub table_after-HasBlocks : (t : List Piece) (i : ℕ) → HasBlocks t → HasBlocks (table_after t i)
table_after-HasBlocks t i h =
    HasBlocks-same t (table_after t i)
      (blocks_at-change_piece (λ q. (piece_allocblock q).1) (λ q. (alloc_shape q).0) t i)
      (room_at-change_piece (λ q. (piece_allocblock q).1) (λ q. (alloc_shape q).1) t i) h

-- What an allocation that finds block `b` of piece `i` does.
pub record Given (t : List Piece) (i b : ℕ) : Type 0 where
  pub small : b < blocks_at t i
  pub free : requested_at t i b ≡ false
  pub after :
      (k j : ℕ)
      → requested_at (table_after t i) k j ≡ (if i == k && b == j then true else requested_at t k j)

no_block : (p : Piece) (c : ℕ) → block_of p (some c) ≢ none
no_block p c e = cc

block_same : (p q : Piece) (c b : ℕ) → block_of p (some c) ≡ some (q, b) → c ≡ b
block_same p q c b e = cc

no_given : (p q : Piece) (b : ℕ) → block_of p none ≢ some (q, b)
no_given p q b e = cc

-- The sets of the pieces before and behind the one that changes stay.
after_first :
    (p r : Piece) (t : List Piece) (b : ℕ)
    → ((j : ℕ) → holds r.requested j ≡ (if b == j then true else holds p.requested j))
    → (k j : ℕ)
    → requested_at (r ∷ t) k j ≡ (if 0 == k && b == j then true else requested_at (p ∷ t) k j)
after_first p r t b h zero j = h j ∙ ground arith
after_first p r t b h (suc k) j = ground arith

after_rest :
    (p : Piece) (t u : List Piece) (i b : ℕ)
    → ((k j : ℕ) → requested_at u k j ≡ (if i == k && b == j then true else requested_at t k j))
    → (k j : ℕ)
    → requested_at (p ∷ u) k j ≡ (if suc i == k && b == j then true else requested_at (p ∷ t) k j)
after_rest p t u i b h zero j = ground arith
after_rest p t u i b h (suc k) j = ground (arith, h k j)

pub alloc_in-Given :
    (t : List Piece) (i : ℕ) (q : Piece) (b : ℕ)
    → blocks_at t i ≤ room_at t i
    → alloc_in t i ≡ some (q, b)
    → Given t i b
alloc_in-Given [] i q b h e = cc
alloc_in-Given (p ∷ t) zero q b h e = elim (piece_allocblock_lem p) [
  | inl (a, all) ↦ absurd (no_given p q b (sym (ap (λ r. block_of p r.0) a) ∙ e))
  | inr (c, a, small, free, all) ↦
      let same_block = block_same p q c b (sym (ap (λ r. block_of p r.0) a) ∙ e) in
      let new = ap (λ r. r.1) a in
      record {
        small = omega arith;
        free = rw (sym same_block) free.1;
        after =
            after_first p (piece_allocblock p).1 t b
              (λ j. rw (new, sym same_block) (holds-with_bit p.requested c j (omega arith)));
      }
]
alloc_in-Given (p ∷ t) (suc i) q b h e =
    let ih = alloc_in-Given t i q b h e in
    record {
      small = ih.small;
      free = ih.free;
      after = after_rest p t (table_after t i) i b ih.after;
    }

-- An allocation that finds no block changes nothing.
pub alloc_in-none : (t : List Piece) (i : ℕ) → alloc_in t i ≡ none → table_after t i ≡ t
alloc_in-none [] i e = refl
alloc_in-none (p ∷ t) zero e = elim (piece_allocblock_lem p) [
  | inl (a, all) ↦ ap (λ r. r.1 ∷ t) a
  | inr (c, a, small, free, all) ↦ absurd (no_block p c (sym (ap (λ r. block_of p r.0) a) ∙ e))
]
alloc_in-none (p ∷ t) (suc i) e = ap (λ u. p ∷ u) (alloc_in-none t i e)

true-false : true ≢ false
true-false e = cc

-- A block that was free gets an entry of its own.
pub Booked-add :
    (others : ℕ → ℕ) (queue : List ℕ) (n : ℕ) (t : List Piece) (i b : ℕ)
    → n < req_cap
    → HasBlocks t
    → Given t i b
    → Booked others queue n t
    → Booked others (set queue n (request_key i b)) (n + 1) (table_after t i)
Booked-add others queue n t i b room_left blocks g (long, sized, once, held) = (
  length-set queue n key ∙ long,
  omega arith,
  λ y. elim (Bool-cases (key == y)) [
    | inl same ↦ ground (arith, counted y, fresh y same)
    | inr other ↦ ground (arith, counted y, once y)
  ],
  λ y h. elim (Bool-cases (key == y)) [
    | inl same ↦ ground (arith, g.after (y / 2 ^ 32) (y % 2 ^ 32), small)
    | inr other ↦ ground (arith, g.after (y / 2 ^ 32) (y % 2 ^ 32), counted y, held y)
  ],
)
  where
    key : ℕ
    key = request_key i b

    small : b < 2 ^ 32
    small = omega (arith, g.small, (blocks i).1)

    counted :
        (y : ℕ)
        → count y (take (n + 1) (set queue n key)) ≡ count y (take n queue) + one_if (key == y)
    counted y =
        let e : n + 1 ≡ suc n = omega arith in
        let placed = get_or-set_self queue n key 0 (omega arith) in
        ap (λ m. count y (take m (set queue n key))) e
        ∙ count-last y n (set queue n key) (omega (arith, length-set queue n key))
        ∙ rw (count-beyond y n key queue, placed) refl

    fresh : (y : ℕ) → (key == y) ≡ true → count y (take n queue) + others y ≡ 0
    fresh y same = elim (dec_lt 0 (count y (take n queue) + others y)) [
      | no none_there ↦ omega arith
      | yes there ↦
          let piece : y / 2 ^ 32 ≡ i = ground (arith, small) in
          let block : y % 2 ^ 32 ≡ b = ground (arith, small) in
          let asked = held y there in absurd (true-false (sym asked ∙ rw (piece, block) g.free))
    ]
