-- ===== src/Peer/Sound/Flushing.antt =====
-- What `bt_peer_flushreqqueue` of src/peer.c leaves of the table of pieces.
use libctorrent.Prelude.{
  ℕ, zero, suc, ◌/◌, ◌%◌, ◌^◌, ◌≤◌, ◌≡◌, refl, ap, ◌∙◌, false, List, [], ◌∷◌, ◌==◌, arith, length,
  set,
}
use native.Mathlib.Decide.{dec_lt}
use libctorrent.Bitset.{bitset_clear}
use libctorrent.Piece.{Piece, piece_unallocblock}
use libctorrent.Peer.Requests.{unalloc_in, flush_loop}
use libctorrent.Peer.Booked.{
  count, requested_at, requested_at-unalloc_in, room_at, room_at-unalloc_in,
}
use libctorrent.Peer.Sound.{blocks_at, HasBlocks, HasBlocks-same}

blocks_at-unalloc_in : (t : List Piece) (i b k : ℕ) → blocks_at (unalloc_in t i b) k ≡ blocks_at t k
blocks_at-unalloc_in [] i b k = refl
blocks_at-unalloc_in (q ∷ t) zero b zero = unfold piece_unallocblock in refl
blocks_at-unalloc_in (q ∷ t) zero b (suc k) = refl
blocks_at-unalloc_in (q ∷ t) (suc i) b zero = refl
blocks_at-unalloc_in (q ∷ t) (suc i) b (suc k) = blocks_at-unalloc_in t i b k

set-beyond : (v : List ℕ) (i x : ℕ) → length v ≤ i → set v i x ≡ v
set-beyond [] i x h = refl
set-beyond (y ∷ v) zero x h = absurd (omega arith)
set-beyond (y ∷ v) (suc i) x h = ap (λ u. y ∷ u) (set-beyond v i x (omega arith))

unalloc_in-beyond : (t : List Piece) (i b : ℕ) → room_at t i ≤ b → unalloc_in t i b ≡ t
unfolding piece_unallocblock bitset_clear
unalloc_in-beyond [] i b h = refl
unalloc_in-beyond (q ∷ t) zero b h =
    ap (λ v. record q { requested = record q.requested { bits = v } } ∷ t)
      (set-beyond q.requested.bits (b / 32) _ (omega arith))
unalloc_in-beyond (q ∷ t) (suc i) b h = ap (λ u. q ∷ u) (unalloc_in-beyond t i b h)

requested_at-flush_other :
    (x y : ℕ) (t : List Piece)
    → (x == y) ≡ false
    → requested_at (unalloc_in t (x / 2 ^ 32) (x % 2 ^ 32)) (y / 2 ^ 32) (y % 2 ^ 32)
      ≡ requested_at t (y / 2 ^ 32) (y % 2 ^ 32)
requested_at-flush_other x y t ne = elim (dec_lt (x % 2 ^ 32) (room_at t (x / 2 ^ 32))) [
  | yes inside ↦
      requested_at-unalloc_in t (x / 2 ^ 32) (x % 2 ^ 32) (y / 2 ^ 32) (y % 2 ^ 32) inside
      ∙ ground arith
  | no outside ↦
      ap (λ u. requested_at u (y / 2 ^ 32) (y % 2 ^ 32))
        (unalloc_in-beyond t (x / 2 ^ 32) (x % 2 ^ 32) (omega arith))
]

-- What is not among the entries stays requested.
pub requested_at-flush_loop :
    (v : List ℕ) (y : ℕ) (t : List Piece)
    → count y v ≡ 0
    → requested_at (flush_loop v t) (y / 2 ^ 32) (y % 2 ^ 32)
      ≡ requested_at t (y / 2 ^ 32) (y % 2 ^ 32)
unfolding flush_loop
requested_at-flush_loop [] y t h = refl
requested_at-flush_loop (x ∷ v) y t h =
    requested_at-flush_loop v y (unalloc_in t (x / 2 ^ 32) (x % 2 ^ 32)) (omega arith)
    ∙ requested_at-flush_other x y t (ground arith)

pub flush_loop-HasBlocks : (v : List ℕ) (t : List Piece) → HasBlocks t → HasBlocks (flush_loop v t)
unfolding flush_loop
flush_loop-HasBlocks [] t h = h
flush_loop-HasBlocks (x ∷ v) t h = flush_loop-HasBlocks v (unalloc_in t (x / 2 ^ 32) (x % 2 ^ 32)) (
    HasBlocks-same t (unalloc_in t (x / 2 ^ 32) (x % 2 ^ 32))
      (blocks_at-unalloc_in t (x / 2 ^ 32) (x % 2 ^ 32))
      (room_at-unalloc_in t (x / 2 ^ 32) (x % 2 ^ 32)) h)
