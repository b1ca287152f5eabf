-- ===== src/Message.antt =====
-- src/message.h and src/message.c: the peer wire messages, how they are built, packed into a
-- buffer and unpacked from one. `alloc n` says whether `malloc(n)` succeeds.
pub mod Laws
pub mod Handshake
use libctorrent.Prelude.{
  ℕ, ◌+◌, ◌-◌, ◌%◌, ◌^◌, Bool, List, [], ◌∷◌, ◌++◌, ltb, ◌==◌, if◌then◌else◌, take, drop, replicate,
}
use libctorrent.Prelude.Outcome.{Outcome, ok, failed, aborted, ◌>>=◌}
use libctorrent.Wire.{byte_at, put_u32be, get_u32be}

-- The identifiers of the enumeration in src/message.h.
abbrev pub m_choke : ℕ
m_choke = 0

abbrev pub m_unchoke : ℕ
m_unchoke = 1

abbrev pub m_interested : ℕ
m_interested = 2

abbrev pub m_not_interested : ℕ
m_not_interested = 3

abbrev pub m_have : ℕ
m_have = 4

abbrev pub m_bitfield : ℕ
m_bitfield = 5

abbrev pub m_request : ℕ
m_request = 6

abbrev pub m_piece : ℕ
m_piece = 7

abbrev pub m_keep_alive : ℕ
m_keep_alive = 10

abbrev pub msg_cnt : ℕ
msg_cnt = 11

abbrev pub msg_handshake : ℕ
msg_handshake = 12

-- `struct bt_handshake`, without its `id`, which is always BT_MSG_HANDSHAKE.
pub record HandshakeMsg : Type 0 where
  pub len : ℕ
  pub magic : List ℕ
  pub reserved : List ℕ
  pub info_hash : List ℕ
  pub peer_id : List ℕ

-- What a `struct bt_msg *` points at. `fixed id` is `&prepared[id]`; `other` is an unpacked
-- message whose body the code leaves unset.
pub data Msg : Type 0 where
  fixed : ℕ → Msg
  have : ℕ → ℕ → Msg
  bitfield : ℕ → List ℕ → Msg
  request : ℕ → ℕ → ℕ → ℕ → Msg
  piece : ℕ → ℕ → ℕ → List ℕ → Msg
  handshake : HandshakeMsg → Msg
  other : ℕ → ℕ → Msg

-- The `len` fields of the table `prepared`; entries that it does not list are zero.
abbrev pub prepared_len : ℕ → ℕ
prepared_len id = if ltb id m_have then 1 else 0

unfoldable pub msg_id : Msg → ℕ
msg_id (fixed id) = id
msg_id (have len piecei) = m_have
msg_id (bitfield len bits) = m_bitfield
msg_id (request len piecei begin length) = m_request
msg_id (piece len piecei begin block) = m_piece
msg_id (handshake h) = msg_handshake
msg_id (other len id) = id

unfoldable pub len_field : Msg → ℕ
len_field (fixed id) = prepared_len id
len_field (have len piecei) = len
len_field (bitfield len bits) = len
len_field (request len piecei begin length) = len
len_field (piece len piecei begin block) = len
len_field (handshake h) = h.len
len_field (other len id) = len

-- `bt_msg_len`, in `uint32` arithmetic
unfoldable pub msg_len : Msg → ℕ
unfolding len_field
msg_len m = (len_field m + 4) % 2 ^ 32

-- `bt_msg_new`; the variable arguments are `a`, `b` and `c`.
unfoldable pub msg_new : (ℕ → Bool) → ℕ → ℕ → ℕ → ℕ → Outcome Msg
msg_new alloc id a b c =
    if ltb id m_have
    then ok (fixed id)
    else if id == m_keep_alive
    then ok (fixed id)
    else if id == m_request
    then (if alloc 20 then ok (request 13 a b c) else failed)
    else if id == m_have
    then (if alloc 12 then ok (have 5 a) else failed)
    else aborted

-- The body that follows the header in `bt_msg_pack`, by the `switch` on the identifier.
unfoldable pub pack_body : Msg → Outcome (List ℕ)
pack_body (have len piecei) = ok (put_u32be piecei)
pack_body (handshake h) =
    ok (take 20 h.magic ++ replicate 8 0 ++ take 20 h.info_hash ++ take 20 h.peer_id)
pack_body (request len piecei begin length) =
    ok (put_u32be piecei ++ put_u32be begin ++ put_u32be length)
pack_body m = aborted

-- `bt_msg_pack`: the bytes that it stores from `dest` on.
unfoldable pub msg_pack : Msg → Outcome (List ℕ)
unfolding msg_id len_field pack_body
msg_pack m =
    let id = msg_id m in
    let header = if ltb id msg_cnt then put_u32be (len_field m) ++ id % 2 ^ 8 ∷ [] else [] in
    if id == m_keep_alive
    then ok (header ++ put_u32be 0)
    else if ltb id m_have
    then ok header
    else pack_body m >>= λ body. ok (header ++ body)

-- The `switch` of `bt_msg_unpack` on the identifier. A piece message shorter than its own header
-- makes `len - 9` wrap round to a count of four gigabytes for `memcpy`, which is a fault.
unfoldable pub unpack_body : List ℕ → ℕ → ℕ → Outcome Msg
unpack_body buf len id =
    if id == m_have
    then ok (have len (get_u32be (drop 5 buf)))
    else if id == m_bitfield
    then ok (bitfield len (take (len - 1) (drop 5 buf)))
    else if id == m_request
    then ok
        (request len (get_u32be (drop 5 buf)) (get_u32be (drop 9 buf)) (get_u32be (drop 13 buf)))
    else if id == m_piece
    then (if ltb len 9
        then aborted
        else ok (piece len (get_u32be (drop 5 buf)) (get_u32be (drop 9 buf)) (take (len - 9) buf)))
    else ok (other len id)

-- `bt_msg_unpack`
unfoldable pub msg_unpack : (ℕ → Bool) → List ℕ → Outcome Msg
unfolding unpack_body
msg_unpack alloc buf =
    let len = get_u32be buf in
    let id = byte_at buf 4 in
    if len == 0
    then ok (fixed m_keep_alive)
    else if ltb id m_have
    then ok (fixed id)
    else if alloc ((len + 4) % 2 ^ 32)
    then (if ltb len 17408 then unpack_body buf len id else aborted)
    else failed

-- `HSHK_FILL` copies this: a length byte and the protocol's name.
abbrev pub protocol_magic : List ℕ
protocol_magic =
    0x13 ∷ b'B' ∷ b'i' ∷ b't' ∷ b'T' ∷ b'o' ∷ b'r' ∷ b'r' ∷ b'e' ∷ b'n' ∷ b't' ∷ 0x20 ∷ b'p' ∷ b'r'
    ∷ b'o' ∷ b't' ∷ b'o' ∷ b'c' ∷ b'o' ∷ b'l' ∷ []

abbrev pub hshk_len : ℕ
hshk_len = 68

-- `bt_handshake`: `sizeof(struct bt_handshake)` is 73.
unfoldable pub bt_handshake : (ℕ → Bool) → List ℕ → List ℕ → Outcome HandshakeMsg
bt_handshake alloc info_hash peer_id =
    if alloc 73
    then ok (record {
      len = 73 - 9;
      magic = protocol_magic;
      reserved = replicate 8 0;
      info_hash = take 20 info_hash;
      peer_id = take 20 peer_id;
    })
    else failed

-- `bt_handshake_unpack`
unfoldable pub handshake_unpack : (ℕ → Bool) → List ℕ → Outcome HandshakeMsg
handshake_unpack alloc src =
    if alloc 73
    then ok (record {
      len = hshk_len - 4;
      magic = take 20 src;
      reserved = take 8 (drop 20 src);
      info_hash = take 20 (drop 28 src);
      peer_id = take 20 (drop 48 src);
    })
    else failed
