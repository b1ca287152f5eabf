-- ===== src/Peer/Transmit.antt =====
-- `on_write` of src/peer.c: what waits for a peer is sent as far as its socket takes it. The buffer is
-- the bytes from its start to `end`, and `next` counts those before the pointer of that name.
pub mod Stream
use libctorrent.Prelude.{
  ℕ, zero, suc, ◌+◌, ◌-◌, Bool, true, false, not, Option, none, some, List, [], ◌++◌, ◌==◌,
  if◌then◌else◌, length, drop,
}
use libctorrent.Prelude.Outcome.{Outcome, ok, failed, aborted, ◌>>=◌}
use libctorrent.Net.{Room, Transmitted, net_tcp_send}
use libctorrent.Event.{Event, peer, peer_connect}
use libctorrent.EventQueue.{EventQueue, eventqueue_push}
use libctorrent.Peer.{Peer}
use libctorrent.Peer.Send.{Refill, txqueue_messages}

pub record Outbox : Type 0 where
  pub sender : Peer
  pub buf : List ℕ
  pub next : ℕ

-- What `on_write` leaves: its peer, the bytes it sent, the events, and the answers to come.
pub record Written : Type 0 where
  pub outbox : Outbox
  pub sent : List ℕ
  pub queue : EventQueue
  pub later : List Room

-- `txbuf_next` and `txbuf_left`
abbrev pub txbuf_rest : Outbox → List ℕ
txbuf_rest b = drop b.next b.buf

-- `txbuf_isempty`
abbrev pub txbuf_isempty : Outbox → Bool
txbuf_isempty b = length (txbuf_rest b) == 0

abbrev pub filled_from : Outbox → Refill → Outbox
filled_from b r = elim r.filled [
  | none ↦ record b { sender = r.sender }
  | some v ↦ record { sender = r.sender; buf = v; next = 0 }
]

-- `txbuf_refill` of an empty buffer. It never returns less than 0.
abbrev pub txbuf_refill : Outbox → Outcome Outbox
txbuf_refill b =
    if txbuf_isempty b then (txqueue_messages b.sender >>= λ r. ok (filled_from b r)) else ok b

-- The `do` loop of `on_write`, with what it has sent. An error is -1 as a `size_t`, which is above 0
-- and takes the pointer one byte back; in front of the buffer it is not followed.
unfoldable pub write_loop : ℕ → Outbox → EventQueue → List Room → List ℕ → Outcome Written
write_loop zero b q s sent = ok (record { outbox = b; sent = sent; queue = q; later = s })
write_loop (suc k) b q s sent = txbuf_refill b >>= λ b'.
    let r = net_tcp_send s (txbuf_rest b') in
    let back = write_loop k (record b' { next = b'.next - 1 }) q r.later (sent ++ r.sent) in
    let on =
      write_loop k (record b' { next = b'.next + length r.sent }) q r.later (sent ++ r.sent) in
    if not r.succeeds
    then (if b'.next == 0 then aborted else back)
    else if length r.sent == 0
    then ok (record { outbox = b'; sent = sent; queue = q; later = r.later })
    else on

abbrev pub pushed_by : Outbox → List Room → Option EventQueue → Outcome Written
pushed_by b s none = aborted
pushed_by b s (some q) = ok (record { outbox = b; sent = []; queue = q; later = s })

-- `on_write`. `has_error` is whether `net_tcp_haserror` does not answer 0. Each turn but the last
-- uses up an answer of the socket.
unfoldable pub on_write : Bool → ℕ → Outbox → EventQueue → List Room → Outcome Written
on_write has_error id b q s =
    if not b.sender.connected
    then (if has_error
        then ok (record { outbox = b; sent = []; queue = q; later = s })
        else pushed_by b s
            (eventqueue_push q (record { kind = peer_connect; subject = peer id; payload = none })))
    else write_loop (suc (length s)) b q s []
