-- ===== src/Message/Laws.antt =====
-- What is packed is unpacked again, and how many bytes packing stores.
use libctorrent.Prelude.{
  ℕ, ◌+◌, ◌-◌, ◌≤◌, ◌<◌, ◌^◌, ◌%◌, ◌≡◌, ◌≢◌, ◌⊎◌, inl, inr, Bool, true, List, ◌∷◌, ◌++◌, arith, ltb,
  ◌==◌, length, take, Bool-cases,
}
use libctorrent.Prelude.Outcome.{ok}
use libctorrent.Wire.{put_u32be}
use libctorrent.Wire.Laws.{get_u32be-put_u32be}
use libctorrent.Message.{
  Msg, fixed, have, request, piece, msg_new, msg_pack, msg_unpack, msg_len, m_keep_alive, m_piece,
}

-- The calls of `bt_msg_new` that return a message, and the message.
data Built (a b c : ℕ) (id : ℕ) (m : Msg) : Type 0 where
  short : id < 4 → m ≡ fixed id → Built a b c id m
  alive : id ≡ 10 → m ≡ fixed id → Built a b c id m
  wants : id ≡ 6 → m ≡ request 13 a b c → Built a b c id m
  owns : id ≡ 4 → m ≡ have 5 a → Built a b c id m

msg_new_cases :
    (alloc : ℕ → Bool) (id a b c : ℕ) {m : Msg} → msg_new alloc id a b c ≡ ok m → Built a b c id m
unfolding msg_new
msg_new_cases alloc id a b c e = elim (Bool-cases (ltb id 4)) [
  | inl p ↦ short (ground arith) (ground arith)
  | inr p ↦ elim (Bool-cases (id == 10)) [
    | inl q ↦ alive (ground arith) (ground arith)
    | inr q ↦ elim (Bool-cases (id == 6)) [
      | inl r ↦ wants (ground arith) (ground arith)
      | inr r ↦ owns (ground arith) (ground arith)
    ]
  ]
]

-- The bytes that `bt_msg_pack` stores for a message of `bt_msg_new`, and what reading them gives.
pub record RoundTrip (alloc : ℕ → Bool) (rest : List ℕ) (m : Msg) : Type 0 where
  pub bytes : List ℕ
  pub packed : msg_pack m ≡ ok bytes
  pub unpacked : msg_unpack alloc (bytes ++ rest) ≡ ok m

-- Packing a message that `bt_msg_new` built stores exactly `bt_msg_len` bytes, except that it
-- stores nine bytes for a keep-alive message, whose `bt_msg_len` is four.
pub length-msg_pack :
    (alloc : ℕ → Bool) (id a b c : ℕ) {m : Msg} {bytes : List ℕ}
    → msg_new alloc id a b c ≡ ok m
    → msg_pack m ≡ ok bytes
    → ((id ≢ m_keep_alive) × (length bytes ≡ msg_len m))
      ⊎ ((id ≡ m_keep_alive) × (length bytes ≡ 9) × (msg_len m ≡ 4))
unfolding msg_pack msg_len put_u32be
length-msg_pack alloc id a b c e k = by_case (msg_new_cases alloc id a b c e) k
  where
    Stored : Msg → List ℕ → Type 0
    Stored m bytes =
        ((id ≢ m_keep_alive) × (length bytes ≡ msg_len m))
        ⊎ ((id ≡ m_keep_alive) × (length bytes ≡ 9) × (msg_len m ≡ 4))

    by_case : {m : Msg} {bytes : List ℕ} → Built a b c id m → msg_pack m ≡ ok bytes → Stored m bytes
    by_case (short h e) k = inl (omega arith, ground arith)
    by_case (alive h e) k = inr (h, ground arith, ground arith)
    by_case (wants h e) k = inl (omega arith, ground arith)
    by_case (owns h e) k = inl (omega arith, ground arith)

-- Unpacking a piece message of at least nine and at most 17407 bytes does not give its block, the
-- bytes from offset 13 on: the block holds the message again from its first byte.
pub msg_unpack_piece :
    (alloc : ℕ → Bool) (len piecei begin : ℕ) (payload : List ℕ)
    → ((n : ℕ) → alloc n ≡ true)
    → 9 ≤ len
    → len < 17408
    → piecei < 2 ^ 32
    → begin < 2 ^ 32
    → let wire = put_u32be len ++ m_piece ∷ put_u32be piecei ++ put_u32be begin ++ payload in
      msg_unpack alloc wire ≡ ok (piece len piecei begin (take (len - 9) wire))
unfolding msg_unpack put_u32be
msg_unpack_piece alloc len piecei begin payload plenty low high p q = ground (
  arith,
  plenty ((len + 4) % 2 ^ 32),
  get_u32be-put_u32be len (m_piece ∷ put_u32be piecei ++ put_u32be begin ++ payload),
  get_u32be-put_u32be piecei (put_u32be begin ++ payload),
  get_u32be-put_u32be begin payload,
)
