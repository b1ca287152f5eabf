-- ===== src/Peer/Send.antt =====
-- `txqueue_messages` of src/peer.c: the messages that wait are packed into the buffer of 2^14 bytes
-- of src/txbuf.h. A message advances the buffer by its `bt_msg_len`, which is less than what is
-- stored for a keep-alive.
pub mod Whole
use libctorrent.Prelude.{
  ℕ, zero, suc, ◌+◌, ◌-◌, ◌^◌, ◌*◌, Bool, true, false, Option, none, some, List, [], ◌∷◌, ◌++◌, ltb,
  ◌==◌, ◌||◌, if◌then◌else◌, length, take,
}
use libctorrent.Prelude.Outcome.{Outcome, ok, failed, aborted, ◌>>=◌}
use libctorrent.Message.{Msg, msg_id, msg_len, msg_pack, m_piece, m_bitfield}
use libctorrent.Peer.{Peer, queue_pop, queue_push}

abbrev pub txbuf_size : ℕ
txbuf_size = 2 ^ 14

-- What `txqueue_messages` leaves. `filled` is the range from `next` to `end`; `none` says that it
-- stays as it was, which is empty.
pub record Refill : Type 0 where
  pub filled : Option (List ℕ)
  pub sender : Peer

-- The message does not fit: it is queued again, behind the others, and the jump to `done` leaves the
-- range alone.
abbrev pub put_back : Peer → Msg → Outcome Refill
put_back p m = queue_push p m >>= λ p'. ok (record { filled = none; sender = p' })

-- What a turn does with the message that it took off, before it goes on by `again`.
abbrev pub pack_into : Peer → List ℕ → Msg → (List ℕ → Outcome Refill) → Outcome Refill
pack_into p acc m again =
    if msg_id m == m_piece || msg_id m == m_bitfield
    then aborted
    else if ltb (txbuf_size - length acc) (msg_len m)
    then put_back p m
    else (msg_pack m >>= λ bytes. again (acc ++ take (msg_len m) bytes))

-- The loop of `txqueue_messages`: `acc` is what is packed so far. Every turn but the last takes a
-- message off, so that as many turns as messages are enough.
unfoldable pub txqueue_loop : ℕ → Peer → List ℕ → Outcome Refill
txqueue_loop zero p acc = ok (record { filled = some acc; sender = p })
txqueue_loop (suc k) p acc =
    queue_pop p >>= λ (m, p'). pack_into p' acc m (λ acc'. txqueue_loop k p' acc')

-- `txqueue_messages`
unfoldable pub txqueue_messages : Peer → Outcome Refill
txqueue_messages p = txqueue_loop p.txqueue.n p []
