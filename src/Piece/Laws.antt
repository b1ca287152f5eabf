-- ===== src/Piece/Laws.antt =====
-- Which block `bt_piece_allocblock` hands out, and what `nhave` counts.
use libctorrent.Prelude.{
  ℕ, zero, suc, ◌+◌, ◌^◌, ◌≤◌, ◌<◌, ◌≡◌, ◌⊎◌, ◌↔◌, inl, inr, refl, ap, sym, true, false, Option,
  none, some, arith, ltb, ◌==◌, if◌then◌else◌, Bool-cases,
}
use libctorrent.Prelude.{◌/◌, length}
use libctorrent.Prelude.Outcome.{ok}
use native.Mathlib.Decide.{ℕ_discrete}
use libctorrent.Bitset.{Bitset, with_bit, holds}
use libctorrent.Bitset.Laws.{room, holds-with_bit, holds-bitset_clear, room-with_bit}
use libctorrent.Piece.{
  Piece, alloc_from, piece_allocblock, piece_unallocblock, add_have, piece_markhave, piece_complete,
}

-- A block that is neither here nor asked for.
abbrev pub IsFree : Piece → ℕ → Type 0
IsFree p i = (holds p.have i ≡ false) × (holds p.requested i ≡ false)

-- A block that is here or asked for.
abbrev pub IsTaken : Piece → ℕ → Type 0
IsTaken p i = (holds p.have i ≡ true) ⊎ (holds p.requested i ≡ true)

abbrev pub marked : Piece → ℕ → Piece
marked p i = record p { requested = with_bit p.requested i }

abbrev Allocated : ℕ → ℕ → Piece → Option ℕ × Piece → Type 0
Allocated k i p r =
    ((r ≡ (none, p)) × ((j : ℕ) → i ≤ j → j < i + k → IsTaken p j))
    ⊎ ((b : ℕ) × (r ≡ (some b, marked p b))
        × (b < i + k)
        × IsFree p b
        × ((j : ℕ) → i ≤ j → j < b → IsTaken p j))

alloc_from_lem : (k i : ℕ) (p : Piece) → Allocated k i p (alloc_from k i p)
unfolding alloc_from
alloc_from_lem zero i p = inl (refl, λ j q r. absurd (omega arith))
alloc_from_lem (suc k) i p = elim (Bool-cases (holds p.have i)) [
  | inl h ↦ rw h (later (inl h) (alloc_from_lem k (i + 1) p))
  | inr h ↦ elim (Bool-cases (holds p.requested i)) [
    | inl r ↦ rw (h, r) (later (inr r) (alloc_from_lem k (i + 1) p))
    | inr r ↦ rw (h, r) (inr (i, refl, omega arith, (h, r), λ j q s. absurd (omega arith)))
  ]
]
  where
    first : IsTaken p i → (j : ℕ) → i ≤ j → (i + 1 ≤ j → IsTaken p j) → IsTaken p j
    first t j q more = elim (ℕ_discrete j i) [ yes e ↦ rw e t | no e ↦ more (omega arith) ]

    later :
        IsTaken p i
        → Allocated k (i + 1) p (alloc_from k (i + 1) p)
        → Allocated (suc k) i p (alloc_from k (i + 1) p)
    later t (inl (e, all)) = inl (e, λ j q r. first t j q (λ s. all j s (omega arith)))
    later t (inr (b, e, q, free, all)) =
        inr (b, e, omega arith, free, λ j s r. first t j s (λ u. all j u r))

-- `bt_piece_allocblock` returns -1 and changes nothing when every block is here or asked for;
-- else it returns the first block that is neither, and adds just that block to those asked for.
pub piece_allocblock_lem :
    (p : Piece)
    → ((piece_allocblock p ≡ (none, p)) × ((j : ℕ) → j < p.nblocks → IsTaken p j))
      ⊎ ((b : ℕ) × (piece_allocblock p ≡ (some b, marked p b))
          × (b < p.nblocks)
          × IsFree p b
          × ((j : ℕ) → j < b → IsTaken p j))
unfolding piece_allocblock
piece_allocblock_lem p = read (alloc_from_lem p.nblocks 0 p)
  where
    read :
        {r : Option ℕ × Piece}
        → Allocated p.nblocks 0 p r
        → ((r ≡ (none, p)) × ((j : ℕ) → j < p.nblocks → IsTaken p j))
          ⊎ ((b : ℕ) × (r ≡ (some b, marked p b))
              × (b < p.nblocks)
              × IsFree p b
              × ((j : ℕ) → j < b → IsTaken p j))
    read (inl (e, all)) = inl (e, λ j q. all j (omega arith) (omega arith))
    read (inr (b, e, q, free, all)) = inr (b, e, omega arith, free, λ j s. all j (omega arith) s)

-- How many of the first `k` blocks the set holds.
abbrev pub count_held : Bitset → ℕ → ℕ
count_held b zero = 0
count_held b (suc k) = count_held b k + (if holds b k then 1 else 0)

-- `nhave` counts the blocks that are here, and the sets have room for every block.
pub record IsCounted (p : Piece) : Type 0 where
  pub counted : p.nhave ≡ count_held p.have p.nblocks
  pub have_room : p.nblocks ≤ room p.have
  pub small : p.nblocks < 2 ^ 32

count_held-le : (b : Bitset) (k : ℕ) → count_held b k ≤ k
count_held-le b zero = omega arith
count_held-le b (suc k) = ground (arith, count_held-le b k)

count_held-set :
    (b : Bitset) (i k : ℕ)
    → i < room b
    → holds b i ≡ false
    → count_held (with_bit b i) k ≡ count_held b k + (if ltb i k then 1 else 0)
count_held-set b i zero p h = ground arith
count_held-set b i (suc k) p h = elim (ℕ_discrete i k) [
  | yes e ↦ ground (arith, holds-with_bit b i k p, count_held-set b i k p h, ap (holds b) (sym e))
  | no e ↦ ground (arith, holds-with_bit b i k p, count_held-set b i k p h)
]

full_count : (b : Bitset) (k : ℕ) → count_held b k ≡ k → (j : ℕ) → j < k → holds b j ≡ true
full_count b zero e j h = absurd (omega arith)
full_count b (suc k) e j h = elim (Bool-cases (holds b k)) [
  | inr out ↦ absurd (ground (arith, count_held-le b k))
  | inl held ↦ elim (ℕ_discrete j k) [
    | yes same ↦ rw same held
    | no other ↦ full_count b k (ground (arith, count_held-le b k)) j (omega arith)
  ]
]

count_all : (b : Bitset) (k : ℕ) → ((j : ℕ) → j < k → holds b j ≡ true) → count_held b k ≡ k
count_all b zero all = refl
count_all b (suc k) all =
    ground (arith, all k (omega arith), count_all b k (λ j h. all j (omega arith)))

add_have_blocks : (p : Piece) (i : ℕ) → (add_have p i).nblocks ≡ p.nblocks
unfolding add_have
add_have_blocks p i = elim (Bool-cases (holds p.have i)) [
  | inl old ↦ rw old refl
  | inr new ↦ rw new refl
]

-- What is added to a counted piece.
add_have_lem :
    (p : Piece) (i : ℕ)
    → IsCounted p
    → i < p.nblocks
    → IsCounted (add_have p i)
      × ((j : ℕ) → holds (add_have p i).have j ≡ (if i == j then true else holds p.have j))
      × (add_have (add_have p i) i ≡ add_have p i)
unfolding add_have
add_have_lem p i v h = elim (Bool-cases (holds p.have i)) [
  | inl old ↦ rw old (v, λ j. known old j, rw old)
  | inr new ↦
      let inside : i < room p.have = omega (arith, v.have_room) in
      let at : holds (with_bit p.have i) i ≡ true =
        ground (arith, holds-with_bit p.have i i inside) in
      let grown = count_held-set p.have i p.nblocks inside new in
      let most = count_held-le (with_bit p.have i) p.nblocks in
      rw new (
        record {
          counted = ground (arith, grown, most, v.counted, v.small);
          have_room = rw room-with_bit v.have_room;
          small = v.small;
        },
        λ j. holds-with_bit p.have i j inside,
        rw at,
      )
]
  where
    known :
        holds p.have i ≡ true → (j : ℕ) → holds p.have j ≡ (if i == j then true else holds p.have j)
    known old j = elim (ℕ_discrete i j) [
      | yes e ↦ ground (arith, ap (holds p.have) e)
      | no e ↦ ground arith
    ]

-- Marking a block of the piece returns. It keeps `nhave` equal to the number of blocks that are here,
-- and afterwards exactly that block has been added to them; marking it again changes nothing.
pub piece_markhave_lem :
    (p : Piece) (i : ℕ)
    → IsCounted p
    → i < p.nblocks
    → (q : Piece) × (piece_markhave p i ≡ ok q)
      × IsCounted q
      × ((j : ℕ) → holds q.have j ≡ (if i == j then true else holds p.have j))
      × (piece_markhave q i ≡ ok q)
unfolding piece_markhave
piece_markhave_lem p i v h =
    let (counted, exactly, again) = add_have_lem p i v h in
    let inside : ltb (i / 32) (length p.have.bits) ≡ true = ground (arith, v.have_room) in
    let inside' : ltb (i / 32) (length (add_have p i).have.bits) ≡ true =
      ground (arith, counted.have_room, add_have_blocks p i) in
    (add_have p i, rw inside refl, counted, exactly, rw (inside', again) refl)

-- A counted piece is complete exactly when every one of its blocks is here.
pub piece_complete_iff :
    (p : Piece)
    → IsCounted p
    → (piece_complete p ≡ true) ↔ ((j : ℕ) → j < p.nblocks → holds p.have j ≡ true)
unfolding piece_complete
piece_complete_iff p v = (
  λ e. full_count p.have p.nblocks (ground (arith, v.counted)),
  λ all. ground (arith, v.counted, count_all p.have p.nblocks all),
)

-- Giving a block back makes it free again if it is not here, and changes no other block.
pub piece_unallocblock_lem :
    (p : Piece) (i j : ℕ)
    → i < room p.requested
    → (holds (piece_unallocblock p i).requested j ≡ (if i == j then false else holds p.requested j))
      × (holds (piece_unallocblock p i).have j ≡ holds p.have j)
unfolding piece_unallocblock
piece_unallocblock_lem p i j h = (holds-bitset_clear p.requested i j h, refl)
