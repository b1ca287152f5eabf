-- ===== src/Peer/Booked.antt =====
-- The requests that a peer is booked with, and the blocks that its pieces count as requested.
use libctorrent.Prelude.{
  ℕ, zero, suc, ◌+◌, ◌-◌, ◌/◌, ◌%◌, ◌^◌, ◌≤◌, ◌<◌, ◌≡◌, ◌⊎◌, refl, ap, sym, ◌∙◌, Bool, true, false,
  ◌&&◌, ◌||◌, List, [], ◌∷◌, if◌then◌else◌, ltb, ◌==◌, arith, length, get_or, set, take, inl, inr,
  Bool-cases, ==→eq,
}
use native.Mathlib.Decide.{dec_lt}
use libctorrent.Bitset.{holds}
use libctorrent.Bitset.Laws.{room, holds-bitset_clear, room-bitset_clear}
use libctorrent.Piece.{Piece, piece_unallocblock}
use libctorrent.Peer.{Peer}
use libctorrent.Peer.Requests.{
  request_key, drop_entry, remove_loop, bt_peer_removerequest, unalloc_in, flush_loop, pending,
  bt_peer_flushreqqueue,
}

-- Whether block `j` of piece `i` counts as requested, and how many blocks the piece has room for.
abbrev pub requested_at : List Piece → ℕ → ℕ → Bool
requested_at [] i j = false
requested_at (q ∷ t) zero j = holds q.requested j
requested_at (q ∷ t) (suc i) j = requested_at t i j

abbrev pub room_at : List Piece → ℕ → ℕ
room_at [] i = 0
room_at (q ∷ t) zero = room q.requested
room_at (q ∷ t) (suc i) = room_at t i

-- Whether block `j` of piece `i` is among the entries.
abbrev pub asked : List ℕ → ℕ → ℕ → Bool
asked [] i j = false
asked (x ∷ v) i j = (x / 2 ^ 32 == i && x % 2 ^ 32 == j) || asked v i j

-- The entries name blocks of the table's pieces.
abbrev pub Fit : List ℕ → List Piece → Type 0
Fit [] t = Unit {0}
Fit (x ∷ v) t = (x % 2 ^ 32 < room_at t (x / 2 ^ 32)) × Fit v t

pub requested_at-unalloc_in :
    (t : List Piece) (i b i' j : ℕ)
    → b < room_at t i
    → requested_at (unalloc_in t i b) i' j
      ≡ (if i == i' && b == j then false else requested_at t i' j)
requested_at-unalloc_in [] i b i' j h = absurd (omega arith)
requested_at-unalloc_in (q ∷ t) zero b zero j h =
    unfold piece_unallocblock in holds-bitset_clear q.requested b j h
requested_at-unalloc_in (q ∷ t) zero b (suc i') j h = ground arith
requested_at-unalloc_in (q ∷ t) (suc i) b zero j h = ground arith
requested_at-unalloc_in (q ∷ t) (suc i) b (suc i') j h =
    ground (arith, requested_at-unalloc_in t i b i' j h)

pub room_at-unalloc_in :
    (t : List Piece) (i b i' : ℕ) → room_at (unalloc_in t i b) i' ≡ room_at t i'
room_at-unalloc_in [] i b i' = refl
room_at-unalloc_in (q ∷ t) zero b zero =
    unfold piece_unallocblock in room-bitset_clear q.requested b
room_at-unalloc_in (q ∷ t) zero b (suc i') = refl
room_at-unalloc_in (q ∷ t) (suc i) b zero = refl
room_at-unalloc_in (q ∷ t) (suc i) b (suc i') = room_at-unalloc_in t i b i'

Fit-unalloc_in : (v : List ℕ) (t : List Piece) (i b : ℕ) → Fit v t → Fit v (unalloc_in t i b)
Fit-unalloc_in [] t i b h = tt
Fit-unalloc_in (x ∷ v) t i b (h, hs) =
    (omega (arith, h, room_at-unalloc_in t i b (x / 2 ^ 32)), Fit-unalloc_in v t i b hs)

flush_loop_lem :
    (v : List ℕ) (t : List Piece) (i j : ℕ)
    → Fit v t
    → requested_at (flush_loop v t) i j ≡ (if asked v i j then false else requested_at t i j)
unfolding flush_loop
flush_loop_lem [] t i j h = refl
flush_loop_lem (x ∷ v) t i j (h, hs) =
    let rest =
      flush_loop_lem v (unalloc_in t (x / 2 ^ 32) (x % 2 ^ 32)) i j
        (Fit-unalloc_in v t (x / 2 ^ 32) (x % 2 ^ 32) hs) in
    let here = requested_at-unalloc_in t (x / 2 ^ 32) (x % 2 ^ 32) i j h in
    rest ∙ rw here (both (x / 2 ^ 32 == i && x % 2 ^ 32 == j) (asked v i j) (requested_at t i j))
  where
    both :
        (a b c : Bool)
        → (if b then false else if a then false else c) ≡ (if a || b then false else c)
    both true true c = refl
    both true false c = refl
    both false true c = refl
    both false false c = refl

-- `bt_peer_flushreqqueue` empties the queue of requests, and exactly the blocks that it held are no
-- longer requested. The entries name blocks of the table's pieces.
pub bt_peer_flushreqqueue_lem :
    (p : Peer) (t : List Piece)
    → Fit (pending p) t
    → let (p', t') = bt_peer_flushreqqueue p t in
      (pending p' ≡ [])
      × ((i j : ℕ)
          → requested_at t' i j ≡ (if asked (pending p) i j then false else requested_at t i j))
unfolding bt_peer_flushreqqueue
bt_peer_flushreqqueue_lem p t h = (refl, λ i j. flush_loop_lem (pending p) t i j h)

-- How often an entry occurs.
abbrev pub one_if : Bool → ℕ
one_if b = if b then 1 else 0

abbrev pub count : ℕ → List ℕ → ℕ
count y [] = 0
count y (x ∷ v) = count y v + one_if (x == y)

pub count-last :
    (y m : ℕ) (v : List ℕ)
    → m < length v
    → count y (take (suc m) v) ≡ count y (take m v) + one_if (get_or v m 0 == y)
count-last y m [] h = absurd (omega arith)
count-last y zero (x ∷ v) h = refl
count-last y (suc m) (x ∷ v) h = omega (arith, count-last y m v (omega arith))

count-set :
    (y m i a : ℕ) (v : List ℕ)
    → i < m
    → m ≤ length v
    → count y (take m (set v i a)) + one_if (get_or v i 0 == y)
      ≡ count y (take m v) + one_if (a == y)
count-set y zero i a v h k = absurd (omega arith)
count-set y (suc m) i a [] h k = absurd (omega arith)
count-set y (suc m) zero a (x ∷ v) h k = omega arith
count-set y (suc m) (suc i) a (x ∷ v) h k =
    omega (arith, count-set y m i a v (omega arith) (omega arith))

pub count-beyond : (y m a : ℕ) (v : List ℕ) → count y (take m (set v m a)) ≡ count y (take m v)
count-beyond y zero a v = refl
count-beyond y (suc m) a [] = refl
count-beyond y (suc m) a (x ∷ v) = omega (arith, count-beyond y m a v)

-- Dropping entry `i` takes one occurrence of it away.
count-drop_entry :
    (p : Peer) (i y : ℕ)
    → i < p.nrequests
    → p.nrequests ≤ length p.request_queue
    → count y (pending (drop_entry p i)) + one_if (get_or p.request_queue i 0 == y)
      ≡ count y (pending p)
count-drop_entry p i y h k =
    let m = p.nrequests - 1 in
    let n_is : p.nrequests ≡ suc m = omega arith in
    let last = get_or p.request_queue m 0 in
    let whole : count y (pending p) ≡ count y (take (suc m) p.request_queue) =
      ap (λ n. count y (take n p.request_queue)) n_is in
    elim (Bool-cases (ltb i m)) [
      | inl inside ↦ omega (
        arith,
        whole,
        count-last y m p.request_queue (omega arith),
        count-set y m i last p.request_queue (ground arith) (omega arith),
      )
      | inr end ↦
          let i_is : i ≡ m = ground arith in
          let dropped =
            ap (λ e. count y (take m (set p.request_queue e last))) i_is
            ∙ count-beyond y m last p.request_queue in
          omega (
            arith,
            whole,
            count-last y m p.request_queue (omega arith),
            dropped,
            ap (λ e. one_if (get_or p.request_queue e 0 == y)) i_is,
          )
    ]

-- What `bt_peer_removerequest` does to the queue of `p` for request `x`.
pub data Removal (p : Peer) (x : ℕ) : Bool × Peer → Type 0 where
  removed :
      (i : ℕ)
      → 2 ≤ p.nrequests
      → get_or p.request_queue i 0 ≡ x
      → ((y : ℕ) → count y (pending (drop_entry p i)) + one_if (x == y) ≡ count y (pending p))
      → Removal p x (true, drop_entry p i)
  kept : (p.nrequests ≡ 1) ⊎ (count x (pending p) ≡ 0) → Removal p x (false, p)

count-none :
    (x m : ℕ) (v : List ℕ)
    → m ≤ length v
    → ((e : ℕ) → e < m → (get_or v e 0 == x) ≡ false)
    → count x (take m v) ≡ 0
count-none x zero v h f = refl
count-none x (suc m) [] h f = absurd (omega arith)
count-none x (suc m) (y ∷ v) h f =
    let rest = count-none x m v (omega arith) (λ e below. f (suc e) (omega arith)) in
    rw (rest, f 0 (omega arith)) refl

module _ (p : Peer) (x : ℕ) (sized : p.nrequests ≤ length p.request_queue) where
  remove_loop_lem :
      (k i : ℕ)
      → i + k ≡ p.nrequests
      → (p.nrequests ≡ 1) ⊎ ((e : ℕ) → e < i → (get_or p.request_queue e 0 == x) ≡ false)
      → Removal p x (remove_loop k i x p)
  unfolding remove_loop
  remove_loop_lem zero i h (inl one) = kept (inl one)
  remove_loop_lem zero i h (inr none_before) = kept (
      inr (count-none x p.nrequests p.request_queue sized (λ e below. none_before e (omega arith))))
  remove_loop_lem (suc k) i h before = elim (Bool-cases (get_or p.request_queue i 0 == x)) [
    | inl here ↦ elim (Bool-cases (p.nrequests - 1 == 0)) [
      | inl one ↦ rw (here, one) (remove_loop_lem k (i + 1) (omega arith) (inl (ground arith)))
      | inr more ↦
          let same = ==→eq (get_or p.request_queue i 0) x here in
          rw (here, more)
            (removed i (ground arith) same (λ y.
              ap (λ e. count y (pending (drop_entry p i)) + one_if (e == y)) (sym same)
              ∙ count-drop_entry p i y (omega arith) sized))
    ]
    | inr differs ↦ rw differs (remove_loop_lem k (i + 1) (omega arith) (passed before differs))
  ]
    where
      passed :
          (p.nrequests ≡ 1) ⊎ ((e : ℕ) → e < i → (get_or p.request_queue e 0 == x) ≡ false)
          → (get_or p.request_queue i 0 == x) ≡ false
          → (p.nrequests ≡ 1) ⊎ ((e : ℕ) → e < i + 1 → (get_or p.request_queue e 0 == x) ≡ false)
      passed (inl one) d = inl one
      passed (inr f) d = inr (λ e below. elim (dec_lt e i) [
        | yes less ↦ f e less
        | no last ↦ let e_is : e ≡ i = omega arith in rw e_is d
      ])

-- `bt_peer_removerequest` takes exactly one occurrence of the request out of the queue and answers
-- true; or it answers false and changes nothing, and then the request is not in the queue, or the
-- queue holds one request only. The queue's array holds all its entries.
pub bt_peer_removerequest_lem :
    (p : Peer) (piece block : ℕ)
    → p.nrequests ≤ length p.request_queue
    → Removal p (request_key piece block) (bt_peer_removerequest p piece block)
unfolding bt_peer_removerequest
bt_peer_removerequest_lem p piece block sized =
    remove_loop_lem p (request_key piece block) sized p.nrequests 0 (omega arith)
      (inr (λ e below. absurd (omega arith)))
