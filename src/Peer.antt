-- ===== src/Peer.antt =====
-- src/peer.h and src/peer.c: what the client keeps of a peer, its queue of messages to send, the
-- messages that the client asks it to queue, and the framing of the bytes that arrive.
-- A failed `assert` is `aborted`, and -1 is `failed`. The sockets, the clocks and the event loop
-- stay outside. `alloc n` says whether `malloc(n)` succeeds.
pub mod Laws
pub mod Framing
pub mod Requests
pub mod Booked
pub mod Schedule
pub mod Handlers
pub mod Send
pub mod Receive
pub mod Transmit
pub mod Sound
use libctorrent.Prelude.{
  ℕ, ◌+◌, ◌-◌, ◌^◌, ◌%◌, Bool, true, false, Option, none, some, List, ltb, ◌==◌, if◌then◌else◌,
  replicate, length, get_or, not,
}
use libctorrent.Prelude.Outcome.{Outcome, ok, failed, aborted, ◌>>=◌}
use libctorrent.Ring
use libctorrent.Ring.{Ring, wrap}
use libctorrent.Wire.{get_u32be}
use libctorrent.Bitset.{Bitset}
use libctorrent.Event.{
  EventKind, peer_request, peer_piece, peer_choke, peer_unchoke, peer_interested,
  peer_notinterested, peer_have, peer_bitfield, peer_keepalive, peer_handshake,
}
use libctorrent.Message.{
  Msg, fixed, handshake, HandshakeMsg, msg_new, m_choke, m_unchoke, m_interested, m_not_interested,
  m_have, m_bitfield, m_request, m_piece, m_keep_alive, msg_handshake, hshk_len,
}

abbrev pub txq_cap : ℕ
txq_cap = 4096

abbrev pub req_cap : ℕ
req_cap = 2048

-- The fields of `struct bt_peer` that these functions use; `attached` says that `eloop` is not NULL,
-- `socket_open` that `sockfd` is not -1.
pub record Peer : Type 0 where
  pub connected : Bool
  pub handshake_done : Bool
  pub am_choking : Bool
  pub am_interested : Bool
  pub peer_choking : Bool
  pub peer_interested : Bool
  pub pieces : Bitset
  pub pieceshas : List ℕ
  pub request_queue : List ℕ
  pub nrequests : ℕ
  pub last_request : ℕ
  pub connect_time : ℕ
  pub uploaded : ℕ
  pub downloaded : ℕ
  pub attached : Bool
  pub socket_open : Bool
  pub txqueue : Ring Msg

-- The null pointer of an unused slot: no message that is queued.
abbrev pub no_msg : Msg
no_msg = fixed 0

-- `PEER_INIT`, with the set that `bt_peer_init` allocates.
unfoldable pub peer_init : Bitset → Peer
peer_init set = record {
  connected = false;
  handshake_done = false;
  am_choking = true;
  am_interested = false;
  peer_choking = true;
  peer_interested = false;
  pieces = set;
  pieceshas = List.[];
  request_queue = replicate req_cap 0;
  nrequests = 0;
  last_request = 0;
  connect_time = 0;
  uploaded = 0;
  downloaded = 0;
  attached = true;
  socket_open = false;
  txqueue = Ring.init txq_cap no_msg;
}

abbrev pub stored : Peer → Option (Ring Msg) → Outcome Peer
stored p none = aborted
stored p (some q) = ok (record p { txqueue = q })

-- `queue_push`
unfoldable pub queue_push : Peer → Msg → Outcome Peer
queue_push p m = stored p (Ring.push txq_cap no_msg p.txqueue m)

-- `queue_head`: it also moves `qhead`.
unfoldable pub queue_head : Peer → Msg × Peer
queue_head p =
    let head = wrap txq_cap no_msg p.txqueue.qhead in
    (get_or p.txqueue.slots head no_msg, record p { txqueue = record p.txqueue { qhead = head } })

abbrev pub taken : Peer → Option (Msg × Ring Msg) → Outcome (Msg × Peer)
taken p none = aborted
taken p (some (m, q)) = ok (m, record p { txqueue = q })

-- `queue_pop`
unfoldable pub queue_pop : Peer → Outcome (Msg × Peer)
queue_pop p = taken p (Ring.pop txq_cap no_msg p.txqueue)

-- `has_message`: the length is a `size_t`, so that adding 4 does not wrap.
unfoldable pub has_message : List ℕ → Bool
has_message src =
    if ltb (length src) 4
    then false
    else if ltb (length src) (get_u32be src + 4)
    then false
    else true

-- `has_handshake`
unfoldable pub has_handshake : List ℕ → Bool
has_handshake src = not (ltb (length src) hshk_len)

-- `msg2event`
unfoldable pub msg2event : ℕ → Outcome EventKind
msg2event id =
    if id == m_request
    then ok peer_request
    else if id == m_piece
    then ok peer_piece
    else if id == m_choke
    then ok peer_choke
    else if id == m_unchoke
    then ok peer_unchoke
    else if id == m_interested
    then ok peer_interested
    else if id == m_not_interested
    then ok peer_notinterested
    else if id == m_have
    then ok peer_have
    else if id == m_bitfield
    then ok peer_bitfield
    else if id == m_keep_alive
    then ok peer_keepalive
    else if id == msg_handshake
    then ok peer_handshake
    else aborted

module _ (alloc : ℕ → Bool) where
  -- A message that has no arguments. `bt_msg_new` does not allocate for it, so it does not fail.
  abbrev pub send_fixed : Peer → ℕ → Outcome Peer
  send_fixed p id = msg_new alloc id 0 0 0 >>= λ m. queue_push p m

  unfoldable pub bt_peer_choke : Peer → Outcome Peer
  bt_peer_choke p =
      if p.am_choking then ok p else send_fixed (record p { am_choking = true }) m_choke

  unfoldable pub bt_peer_unchoke : Peer → Outcome Peer
  bt_peer_unchoke p =
      if not p.am_choking then ok p else send_fixed (record p { am_choking = false }) m_unchoke

  unfoldable pub bt_peer_interested : Peer → Outcome Peer
  bt_peer_interested p =
      if p.am_interested then ok p else send_fixed (record p { am_interested = true }) m_interested

  unfoldable pub bt_peer_notinterested : Peer → Outcome Peer
  bt_peer_notinterested p =
      if not p.am_interested
      then ok p
      else send_fixed (record p { am_interested = false }) m_not_interested

  unfoldable pub bt_peer_keepalive : Peer → Outcome Peer
  bt_peer_keepalive p = send_fixed p m_keep_alive

  unfoldable pub bt_peer_have : Peer → ℕ → Outcome Peer
  bt_peer_have p id = msg_new alloc m_have id 0 0 >>= λ m. queue_push p m

  unfoldable pub bt_peer_requestpiece : Peer → ℕ → ℕ → ℕ → Outcome Peer
  bt_peer_requestpiece p pieceid start len =
      msg_new alloc m_request pieceid start len >>= λ m. queue_push p m

-- `bt_peer_handshake`
unfoldable pub bt_peer_handshake : Peer → HandshakeMsg → Outcome Peer
bt_peer_handshake p hshk = queue_push p (handshake hshk)
