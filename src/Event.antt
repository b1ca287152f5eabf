-- ===== src/Event.antt =====
-- src/event.h: the events that producers push and the torrent's main loop dispatches.
use libctorrent.Prelude.{ℕ, Option}
use libctorrent.Message.{Msg}

-- The enumeration of src/event.h, in its order.
pub data EventKind : Type 0 where
  none_event : EventKind
  piece_complete : EventKind
  peer_connect peer_handshake peer_request peer_piece : EventKind
  peer_choke peer_unchoke peer_interested peer_notinterested : EventKind
  peer_have peer_bitfield peer_disconnect peer_keepalive : EventKind
  peer_reqtimeout peer_runscheduler : EventKind
  send_keepalive : EventKind
  pause : EventKind

-- What the untyped field `a` points at: a peer of the torrent, a piece of its table, or nothing.
pub data Subject : Type 0 where
  null : Subject
  peer : ℕ → Subject
  piece : ℕ → Subject

-- `struct bt_event`; the field `b` is a message or NULL.
pub record Event : Type 0 where
  pub kind : EventKind
  pub subject : Subject
  pub payload : Option Msg
