-- ===== src/Swarm.antt =====
-- src/torrent.c: the torrent with all its peers, and the main loop of `bt_torrent_start`, which pops
-- events and calls the handlers. A peer is its index in the array of peers. A callback of the user
-- is taken to leave the torrent alone.
pub mod Step
pub mod Books
pub mod Exclusive
pub mod Announce
use libctorrent.Prelude.{
  ℕ, zero, suc, ◌+◌, ◌==◌, Bool, true, false, Option, none, some, List, [], ◌∷◌, if◌then◌else◌,
}
use libctorrent.Prelude.Outcome.{Outcome, ok, failed, aborted, ◌>>=◌}
use libctorrent.Event.{
  Event, EventKind, Subject, null, peer, piece, none_event, piece_complete, peer_connect,
  peer_handshake, peer_request, peer_piece, peer_choke, peer_unchoke, peer_interested,
  peer_notinterested, peer_have, peer_bitfield, peer_disconnect, peer_keepalive, peer_reqtimeout,
  peer_runscheduler, send_keepalive, pause,
}
use libctorrent.Message.{Msg}
use libctorrent.Bitset.{Bitset, bitset_new, holds}
use libctorrent.EventQueue.{EventQueue, eventqueue_init}
use libctorrent.TimerQueue.{timerqueue_init}
use libctorrent.Piece
use libctorrent.Piece.{Piece}
use libctorrent.Peer.{Peer, peer_init, bt_peer_interested, bt_peer_notinterested, bt_peer_have}
use libctorrent.Peer.Schedule.{Session}
use libctorrent.Peer.Handlers.{World, serve}
use libctorrent.Torrent.{Torrent, get_piece}

-- `struct bt_torrent` with its vector of peers.
pub record Swarm : Type 0 where
  pub torrent : Torrent
  pub peers : List Peer

-- `bt_peer_haspiece`
unfoldable pub bt_peer_haspiece : Peer → ℕ → Bool
bt_peer_haspiece p i = holds p.pieces i

-- Only pieces below `npieces` are looked at, the length of the table.
abbrev pub complete_piece : Option Piece → Bool
complete_piece none = false
complete_piece (some q) = Piece.piece_complete q

-- `bt_torrent_has_piece`
unfoldable pub bt_torrent_has_piece : Torrent → ℕ → Bool
bt_torrent_has_piece t i = complete_piece (get_piece t.piecetab i)

-- The inner loop of `bt_markinterest` from piece `i`, with `k` pieces left.
unfoldable pub interest_loop : ℕ → ℕ → Torrent → Peer → Bool
interest_loop zero i t p = false
interest_loop (suc k) i t p =
    let rest = interest_loop k (i + 1) t p in
    if bt_torrent_has_piece t i then rest else if bt_peer_haspiece p i then true else rest

-- A loop over the vector of peers that may change each of them.
abbrev pub each_peer : (Peer → Outcome Peer) → List Peer → Outcome (List Peer)
each_peer f [] = ok []
each_peer f (p ∷ v) = f p >>= λ p'. each_peer f v >>= λ v'. ok (p' ∷ v')

-- The result of a call on a peer is not looked at; a message without memory changes nothing.
abbrev pub ignoring : Peer → Outcome Peer → Outcome Peer
ignoring p (ok p') = ok p'
ignoring p failed = ok p
ignoring p aborted = aborted

module _ (alloc : ℕ → Bool) where
  abbrev pub mark_peer : Torrent → Peer → Outcome Peer
  mark_peer t p =
      if p.handshake_done
      then (if interest_loop t.npieces 0 t p
          then bt_peer_interested alloc p
          else bt_peer_notinterested alloc p)
      else ok p

  -- `bt_markinterest`
  unfoldable pub bt_markinterest : Torrent → List Peer → Outcome (List Peer)
  bt_markinterest t v = each_peer (mark_peer t) v

  abbrev pub announce_peer : ℕ → Peer → Outcome Peer
  announce_peer i p =
      if p.handshake_done
      then (if bt_peer_haspiece p i then ok p else ignoring p (bt_peer_have alloc p i))
      else ok p

  -- `bt_torrent_announce_have`
  unfoldable pub bt_torrent_announce_have : ℕ → List Peer → Outcome (List Peer)
  bt_torrent_announce_have i v = each_peer (announce_peer i) v

-- `count_connected`
unfoldable pub count_connected : List Peer → ℕ
count_connected [] = 0
count_connected (p ∷ v) =
    let rest = count_connected v in if p.handshake_done then 1 + rest else rest

-- The peer at an index, and the array with another peer there.
abbrev pub peer_at : List Peer → ℕ → Option Peer
peer_at [] i = none
peer_at (p ∷ v) zero = some p
peer_at (p ∷ v) (suc i) = peer_at v i

abbrev pub put_peer : List Peer → ℕ → Peer → List Peer
put_peer [] i q = []
put_peer (p ∷ v) zero q = q ∷ v
put_peer (p ∷ v) (suc i) q = p ∷ put_peer v i q

module _ (w : World) where
  -- `bt_peer_handlemessage` and `bt_peer_updaterequests` for peer `i`.
  abbrev pub serve_peer : EventKind → Option Msg → Swarm → ℕ → Option Peer → Outcome Swarm
  serve_peer kind m s i none = aborted
  serve_peer kind m s i (some p) =
      serve (record w { id = i }) kind m (record { torrent = s.torrent; remote = p }) >>= λ s'.
      ok (record { torrent = s'.torrent; peers = put_peer s.peers i s'.remote })

  abbrev pub announce : Swarm → ℕ → Outcome Swarm
  announce s i = bt_torrent_announce_have w.alloc i s.peers >>= λ v. ok (record s { peers = v })

  abbrev pub at_subject : EventKind → Option Msg → Swarm → Subject → Outcome Swarm
  at_subject piece_complete m s (piece i) = announce s i
  at_subject piece_complete m s _ = aborted
  at_subject kind m s null = ok s
  at_subject kind m s (peer i) = serve_peer kind m s i (peer_at s.peers i)
  at_subject kind m s (piece i) = aborted

  -- What the inner loop of `bt_torrent_start` does with an event. An event about a piece that is not
  -- BT_EVPIECE_COMPLETE, or such an event about another thing, is a fault that no producer makes.
  unfoldable pub handle_event : Event → Swarm → Outcome Swarm
  handle_event e s = at_subject e.kind e.payload s e.subject

-- `bt_peer_connect`; `answer` says whether `net_tcp_connect` gives a socket.
unfoldable pub bt_peer_connect : Bool → Peer → Peer
bt_peer_connect answer p = if answer then record p { socket_open = true } else p

module _ (alloc : ℕ → Bool) (answers : ℕ → Bool) (npieces : ℕ) where
  -- The loop of `bt_torrent_start` that sets up its peers from index `i`, with `n` left.
  -- `bt_peer_init` returns -1 without memory, which nobody looks at, and the first access to the
  -- NULL set is then a fault.
  unfoldable pub fresh_peers : ℕ → ℕ → Outcome (List Peer)
  fresh_peers zero i = ok []
  fresh_peers (suc n) i = bitset_new alloc npieces >>= λ set.
      fresh_peers n (i + 1) >>= λ v. ok (bt_peer_connect (answers i) (peer_init set) ∷ v)

abbrev pub with_peers : Torrent → List Peer → Swarm
with_peers t v = record {
  torrent = record t { evqueue = eventqueue_init; tmqueue = timerqueue_init };
  peers = v;
}

-- `bt_torrent_start` until its loop: without an address it returns -1. There is memory for
-- the array of peers, and a timerfd.
unfoldable pub bt_torrent_start : (ℕ → Bool) → (ℕ → Bool) → ℕ → Torrent → Outcome Swarm
bt_torrent_start alloc answers naddr t =
    let peers = fresh_peers alloc answers t.npieces naddr 0 in
    if naddr == 0 then failed else (peers >>= λ v. ok (with_peers t v))
