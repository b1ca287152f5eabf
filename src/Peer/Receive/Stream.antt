-- ===== src/Peer/Receive/Stream.antt =====
-- `on_read` of src/peer.c as it follows the stream of bytes that arrive after the handshake.
use libctorrent.Prelude.{
  ℕ, ◌+◌, ◌≤◌, ◌≡◌, ◌⊎◌, Bool, true, false, none, some, drop, List, ◌++◌, length,
}
use libctorrent.Prelude.Outcome.{Outcome, ok, failed, aborted}
use libctorrent.Net.{Arrival}
use libctorrent.Net.Streams.{stream}
use libctorrent.Event.{EventKind, peer, peer_disconnect}
use libctorrent.EventQueue.{EventQueue, eventqueue_push}
use libctorrent.Message.{Msg, msg_id, msg_len, msg_unpack}
use libctorrent.Peer.{has_message, msg2event}
use libctorrent.Peer.Receive.{Inbox, Reading, quiet, told, wrong, rxbuf_size}

-- Why a complete message at the front of `held` stops the process: there is no memory for it, it
-- violates an assertion, its number is unknown, or the queue of events is full.
abbrev pub Refuses : (ℕ → Bool) → ℕ → EventQueue → List ℕ → Type 0
Refuses alloc id q held =
    (msg_unpack alloc held ≡ failed)
    ⊎ ((msg_unpack alloc held ≡ aborted)
        ⊎ ((m : Msg) × (msg_unpack alloc held ≡ ok m)
            × ((msg2event (msg_id m) ≡ aborted)
                ⊎ ((kind : EventKind) × (msg2event (msg_id m) ≡ ok kind)
                    × (eventqueue_push q
                          (record { kind = kind; subject = peer id; payload = some m })
                        ≡ none)))))

-- What `on_read` may come to, where the bytes that it held and those that still arrive are `whole`.
--   handed   it held a complete message: as many bytes as its `bt_msg_len` says leave the buffer,
--            and its event is queued
--   refused  it held a complete message that stops the process
--   idle     it holds no complete message, and has not lost a byte
--   ended    no byte arrived: it tells of a disconnect, whatever it holds
--   burst    the same, with a full queue of events
--   astray   an error: only what the call itself took may be lost
pub data Reads (alloc : ℕ → Bool) (id : ℕ) (inbox : Inbox) (q : EventQueue) (whole : List ℕ)
    : Outcome Reading → Type 0 where
  handed :
      (held : List ℕ) (later : List Arrival) (m : Msg) (kind : EventKind) (r : EventQueue)
      → held ++ stream later ≡ whole
      → length held ≤ rxbuf_size
      → has_message held ≡ true
      → msg_unpack alloc held ≡ ok m
      → msg2event (msg_id m) ≡ ok kind
      → eventqueue_push q (record { kind = kind; subject = peer id; payload = some m }) ≡ some r
      → Reads alloc id inbox q whole (
          ok (record {
            code = quiet;
            inbox = record inbox { rxbuf = drop (msg_len m) held };
            queue = r;
            later = later;
          }))
  refused :
      (held : List ℕ) (later : List Arrival)
      → held ++ stream later ≡ whole
      → has_message held ≡ true
      → Refuses alloc id q held
      → Reads alloc id inbox q whole aborted
  idle :
      (held : List ℕ) (later : List Arrival)
      → held ++ stream later ≡ whole
      → length held ≤ rxbuf_size
      → has_message held ≡ false
      → Reads alloc id inbox q whole (
          ok (record {
            code = quiet;
            inbox = record inbox { rxbuf = held };
            queue = q;
            later = later;
          }))
  ended :
      (later : List Arrival) (r : EventQueue)
      → inbox.rxbuf ++ stream later ≡ whole
      → eventqueue_push q (record { kind = peer_disconnect; subject = peer id; payload = none })
        ≡ some r
      → Reads alloc id inbox q whole
          (ok (record { code = told; inbox = inbox; queue = r; later = later }))
  burst :
      eventqueue_push q (record { kind = peer_disconnect; subject = peer id; payload = none })
        ≡ none
      → Reads alloc id inbox q whole aborted
  astray :
      (held lost : List ℕ) (later : List Arrival)
      → held ++ (lost ++ stream later) ≡ whole
      → length held ≤ rxbuf_size
      → Reads alloc id inbox q whole (
          ok (record {
            code = wrong;
            inbox = record inbox { rxbuf = held };
            queue = q;
            later = later;
          }))

-- `msg2event` returns or its assertion fails.
abbrev Known : Outcome EventKind → Type 0
Known m = ((kind : EventKind) × (m ≡ ok kind)) ⊎ (m ≡ aborted)

module _ (alloc : ℕ → Bool) (id : ℕ) (inbox : Inbox) (q : EventQueue) (whole : List ℕ) where
  abbrev Good : Outcome Reading → Type 0
  Good = Reads alloc id inbox q whole

  -- Turns enough: two more than arrivals, or one when the buffer is full.
  abbrev Enough : ℕ → List ℕ → List Arrival → Type 0
  Enough k held s = (length s + 2 ≤ k) ⊎ ((rxbuf_size ≤ length held) × (1 ≤ k))
