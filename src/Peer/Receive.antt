-- ===== src/Peer/Receive.antt =====
-- `on_read` and `on_destroy` of src/peer.c: the bytes that arrive from a peer become events. `id` is the
-- peer's index in the torrent's array, and `rxbuf` holds the first `rxhave` bytes of its buffer.
pub mod Stream
use libctorrent.Prelude.{
  ℕ, zero, suc, ◌+◌, ◌-◌, ◌^◌, Bool, true, false, not, Option, none, some, List, [], ◌∷◌, ◌++◌, ltb,
  ◌==◌, if◌then◌else◌, length, drop,
}
use libctorrent.Prelude.Outcome.{Outcome, ok, failed, aborted, ◌>>=◌}
use libctorrent.Net.{Arrival, Received, net_tcp_recv}
use libctorrent.Event.{Event, EventKind, peer, peer_handshake, peer_disconnect}
use libctorrent.EventQueue.{EventQueue, eventqueue_push}
use libctorrent.Message.{
  Msg, HandshakeMsg, handshake, msg_id, msg_len, msg_unpack, handshake_unpack, hshk_len,
}
use libctorrent.Peer.{Peer, has_message, has_handshake, msg2event}

abbrev pub rxbuf_size : ℕ
rxbuf_size = 2 ^ 20

pub record Inbox : Type 0 where
  pub remote : Peer
  pub rxbuf : List ℕ

-- The results 0, 1 and -1.
pub data Code : Type 0 where
  quiet told wrong : Code

pub record Reading : Type 0 where
  pub code : Code
  pub inbox : Inbox
  pub queue : EventQueue
  pub later : List Arrival

abbrev pub queued_by : Code → Inbox → List Arrival → Option EventQueue → Outcome Reading
queued_by code inbox later none = aborted
queued_by code inbox later (some q) =
    ok (record { code = code; inbox = inbox; queue = q; later = later })

abbrev pub unpacked : Outcome HandshakeMsg → Option Msg
unpacked (ok h) = some (handshake h)
unpacked _ = none

module _ (alloc : ℕ → Bool) (id : ℕ) where
  abbrev pub event_of : EventKind → Option Msg → Event
  event_of kind m = record { kind = kind; subject = peer id; payload = m }

  -- An event is pushed.
  abbrev pub tell :
      Code → Inbox → EventQueue → List Arrival → EventKind → Option Msg → Outcome Reading
  tell code inbox q later kind m = queued_by code inbox later (eventqueue_push q (event_of kind m))

  -- The peer with the bytes that are left.
  abbrev pub holding : Inbox → List ℕ → Inbox
  holding inbox rx = record inbox { rxbuf = rx }

  abbrev pub done : Code → Inbox → EventQueue → List Arrival → Outcome Reading
  done code inbox q later = ok (record { code = code; inbox = inbox; queue = q; later = later })

  -- A received message is unpacked and queued, and leaves the buffer. Without memory NULL is followed.
  abbrev pub deliver : Inbox → EventQueue → List Arrival → Outcome Msg → Outcome Reading
  deliver inbox q later (ok m) = msg2event (msg_id m) >>= λ kind.
      tell quiet (holding inbox (drop (msg_len m) inbox.rxbuf)) q later kind (some m)
  deliver inbox q later failed = aborted
  deliver inbox q later aborted = aborted

  -- `go` on with the bytes that were got, if there are any; an error forgets those it stored.
  abbrev pub with_got :
      Inbox → EventQueue → Received → Outcome Reading → Outcome Reading → Outcome Reading
  with_got inbox q r idle go =
      if not r.succeeds then done wrong inbox q r.later else if length r.got == 0 then idle else go

  -- The `do` loop of `on_read`. A turn without a message takes an arrival or fills the buffer.
  unfoldable pub read_loop : ℕ → Inbox → EventQueue → List Arrival → Outcome Reading
  read_loop zero inbox q later = done quiet inbox q later
  read_loop (suc k) inbox q later =
      let r = net_tcp_recv later (rxbuf_size - length inbox.rxbuf) in
      let rest = read_loop k (holding inbox (inbox.rxbuf ++ r.got)) q r.later in
      if has_message inbox.rxbuf
      then deliver inbox q later (msg_unpack alloc inbox.rxbuf)
      else with_got inbox q r (done quiet inbox q r.later) rest

  -- What is done with the bytes of a handshake.
  abbrev pub greet : Inbox → EventQueue → List Arrival → Outcome Reading
  greet inbox q later =
      if has_handshake inbox.rxbuf
      then tell told (holding inbox (drop hshk_len inbox.rxbuf)) q later peer_handshake
          (unpacked (handshake_unpack alloc inbox.rxbuf))
      else done quiet inbox q later

  -- `on_read` before the handshake is done.
  abbrev pub read_handshake : Inbox → EventQueue → List Arrival → Outcome Reading
  read_handshake inbox q later =
      let r = net_tcp_recv later (hshk_len - length inbox.rxbuf) in
      if not (ltb (length inbox.rxbuf) hshk_len)
      then aborted
      else with_got inbox q r (tell told inbox q r.later peer_disconnect none)
          (greet (holding inbox (inbox.rxbuf ++ r.got)) q r.later)

  -- `on_read` after it.
  abbrev pub read_messages : Inbox → EventQueue → List Arrival → Outcome Reading
  read_messages inbox q later =
      let r = net_tcp_recv later (rxbuf_size - length inbox.rxbuf) in
      with_got inbox q r (tell told inbox q r.later peer_disconnect none)
        (read_loop (length later + 2) (holding inbox (inbox.rxbuf ++ r.got)) q r.later)

  -- `on_read`
  unfoldable pub on_read : Inbox → EventQueue → List Arrival → Outcome Reading
  on_read inbox q later =
      if not inbox.remote.connected
      then done quiet inbox q later
      else if not inbox.remote.handshake_done
      then read_handshake inbox q later
      else read_messages inbox q later

  -- `on_destroy`
  unfoldable pub on_destroy : Inbox → EventQueue → List Arrival → Outcome Reading
  on_destroy inbox q later = tell quiet inbox q later peer_disconnect none
