-- ===== src/Peer/Sound.antt =====
-- The queue of requests of a peer (src/peer.c) beside the pieces' sets of requested blocks.
pub mod Asking
pub mod Flushing
pub mod Giving
pub mod Handling
pub mod Serving
use libctorrent.Prelude.{
  ℕ, zero, suc, ◌+◌, ◌-◌, ◌*◌, ◌/◌, ◌%◌, ◌^◌, ◌≤◌, ◌<◌, ◌≡◌, refl, ap, sym, ◌∙◌, Bool, true, false,
  List, [], ◌∷◌, if◌then◌else◌, ltb, ◌==◌, arith, length, get_or, set, take, Bool-cases, inl, inr,
}
use libctorrent.Piece.{Piece}
use libctorrent.Bitset.Laws.{room}
use libctorrent.Peer.{Peer, req_cap}
use libctorrent.Peer.Requests.{pending}
use libctorrent.Peer.Booked.{count, requested_at, room_at}
use libctorrent.Peer.Schedule.{Session}
use libctorrent.Torrent.{change_piece}

-- How many blocks piece `i` has.
abbrev pub blocks_at : List Piece → ℕ → ℕ
blocks_at [] i = 0
blocks_at (q ∷ t) zero = q.nblocks
blocks_at (q ∷ t) (suc i) = blocks_at t i

-- The pieces' sets have room for their blocks.
abbrev pub HasBlocks : List Piece → Type 0
HasBlocks t = (i : ℕ) → (blocks_at t i ≤ room_at t i) × (blocks_at t i < 2 ^ 32)

-- The array has its full size and holds all the entries. With the entries of the other peers, which
-- `others` counts, none is there twice, and the block of each counts as requested.
abbrev pub Booked : (ℕ → ℕ) → List ℕ → ℕ → List Piece → Type 0
Booked others queue n t =
    (length queue ≡ req_cap)
    × (n ≤ req_cap)
    × ((y : ℕ) → count y (take n queue) + others y ≤ 1)
    × ((y : ℕ)
        → 0 < count y (take n queue) + others y
        → requested_at t (y / 2 ^ 32) (y % 2 ^ 32) ≡ true)

abbrev pub IsSound : (ℕ → ℕ) → Session → Type 0
IsSound others s =
    HasBlocks s.torrent.piecetab
    × Booked others s.remote.request_queue s.remote.nrequests s.torrent.piecetab

pub requested_at-change_piece :
    (f : Piece → Piece)
    → ((q : Piece) → (f q).requested ≡ q.requested)
    → (t : List Piece) (k i j : ℕ) → requested_at (change_piece f t k) i j ≡ requested_at t i j
requested_at-change_piece f same [] k i j = refl
requested_at-change_piece f same (q ∷ t) zero zero j = rw (same q) refl
requested_at-change_piece f same (q ∷ t) zero (suc i) j = refl
requested_at-change_piece f same (q ∷ t) (suc k) zero j = refl
requested_at-change_piece f same (q ∷ t) (suc k) (suc i) j =
    requested_at-change_piece f same t k i j

pub room_at-change_piece :
    (f : Piece → Piece)
    → ((q : Piece) → room (f q).requested ≡ room q.requested)
    → (t : List Piece) (k i : ℕ) → room_at (change_piece f t k) i ≡ room_at t i
room_at-change_piece f same [] k i = refl
room_at-change_piece f same (q ∷ t) zero zero = same q
room_at-change_piece f same (q ∷ t) zero (suc i) = refl
room_at-change_piece f same (q ∷ t) (suc k) zero = refl
room_at-change_piece f same (q ∷ t) (suc k) (suc i) = room_at-change_piece f same t k i

pub blocks_at-change_piece :
    (f : Piece → Piece)
    → ((q : Piece) → (f q).nblocks ≡ q.nblocks)
    → (t : List Piece) (k i : ℕ) → blocks_at (change_piece f t k) i ≡ blocks_at t i
blocks_at-change_piece f same [] k i = refl
blocks_at-change_piece f same (q ∷ t) zero zero = same q
blocks_at-change_piece f same (q ∷ t) zero (suc i) = refl
blocks_at-change_piece f same (q ∷ t) (suc k) zero = refl
blocks_at-change_piece f same (q ∷ t) (suc k) (suc i) = blocks_at-change_piece f same t k i

-- The shape of the table is what counts for `HasBlocks`.
pub HasBlocks-same :
    (t u : List Piece)
    → ((i : ℕ) → blocks_at u i ≡ blocks_at t i)
    → ((i : ℕ) → room_at u i ≡ room_at t i)
    → HasBlocks t
    → HasBlocks u
HasBlocks-same t u blocks rooms h i =
    (omega (arith, (h i).0, blocks i, rooms i), omega (arith, (h i).1, blocks i))

-- A change of a piece that leaves its requests and its shape alone.
pub sound-change_piece :
    (f : Piece → Piece)
    → ((q : Piece) → (f q).requested ≡ q.requested)
    → ((q : Piece) → (f q).nblocks ≡ q.nblocks)
    → (others : ℕ → ℕ) (queue : List ℕ) (n : ℕ) (t : List Piece) (k : ℕ)
    → HasBlocks t × Booked others queue n t
    → HasBlocks (change_piece f t k) × Booked others queue n (change_piece f t k)
sound-change_piece f requests shape others queue n t k (blocks, (long, sized, once, held)) = (
  HasBlocks-same t (change_piece f t k) (blocks_at-change_piece f shape t k)
      (room_at-change_piece f (λ q. ap room (requests q)) t k) blocks,
  (
    long,
    sized,
    once,
    λ y h. requested_at-change_piece f requests t k (y / 2 ^ 32) (y % 2 ^ 32) ∙ held y h,
  ),
)
