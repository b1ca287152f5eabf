-- ===== src/Peer/Handlers.antt =====
-- The handlers of src/peer.c and `dispatch`, which calls them. `slack` is the byte that memory holds
-- behind a bitfield message: the handler is given the message's length, one more than its bytes.
use libctorrent.Prelude.{
  ℕ, zero, suc, ◌+◌, ◌-◌, ◌%◌, ◌^◌, Bool, true, false, Option, none, some, List, [], ◌∷◌, ◌++◌,
  if◌then◌else◌, replicate,
}
use libctorrent.Prelude.Outcome.{Outcome, ok, aborted, ◌>>=◌}
use libctorrent.Event.{
  EventKind, peer_connect, peer_handshake, peer_request, peer_piece, peer_choke, peer_unchoke,
  peer_interested, peer_notinterested, peer_have, peer_bitfield, peer_disconnect, peer_keepalive,
  peer_reqtimeout, peer_runscheduler, send_keepalive,
}
use libctorrent.Message.{Msg, have, bitfield, piece, bt_handshake}
use libctorrent.TimerQueue.{TimeSpec, TimerQueue}
use libctorrent.Bitset.{bitset_set, bitset_read_arr, holds}
use libctorrent.Piece.{
  Piece, piece_incrfreq, piece_decrfreq, piece_markhave, piece_complete, piece_blockfromoff,
}
use libctorrent.Disk.{DiskMgr, disk_write}
use libctorrent.Peer.{Peer, bt_peer_handshake}
use libctorrent.Peer.Requests.{bt_peer_flushreqqueue, bt_peer_removerequest}
use libctorrent.Peer.Schedule.{
  Session, bt_peer_keepalivetimeout, bt_peer_requesttimeout, bt_peer_updaterequests,
}
use libctorrent.Torrent.{Torrent, get_piece, update_piece, piece_completed}

-- `"hello world"` in an array of 20 bytes.
abbrev pub own_id : List ℕ
own_id = b'h' ∷ b'e' ∷ b'l' ∷ b'l' ∷ b'o' ∷ b' ' ∷ b'w' ∷ b'o' ∷ b'r' ∷ b'l' ∷ b'd' ∷ replicate 9 0

-- `bt_peer_disconnect`; closing the socket and leaving the event loop stay outside.
unfoldable pub bt_peer_disconnect : Peer → Peer
bt_peer_disconnect p = record p {
  attached = false;
  socket_open = false;
  connected = false;
  handshake_done = false;
}

-- `peer_oninterested`, `peer_onnotinterested`, `peer_onunchoke`
unfoldable pub peer_oninterested : Session → Session
peer_oninterested s = record s { remote = record s.remote { peer_interested = true } }

unfoldable pub peer_onnotinterested : Session → Session
peer_onnotinterested s = record s { remote = record s.remote { peer_interested = false } }

unfoldable pub peer_onunchoke : Session → Session
peer_onunchoke s = record s { remote = record s.remote { peer_choking = false } }

-- `bt_peer_flushreqqueue` on the torrent's table.
abbrev pub flush_session : Session → Session
flush_session s =
    let (p, t) = bt_peer_flushreqqueue s.remote s.torrent.piecetab in
    record { torrent = record s.torrent { piecetab = t }; remote = p }

-- `peer_onchoke`
unfoldable pub peer_onchoke : Session → Session
peer_onchoke s = flush_session (record s { remote = record s.remote { peer_choking = true } })

-- `peer_onhave`; there is memory for `pieceshas` to grow.
unfoldable pub peer_onhave : Session → ℕ → Outcome Session
peer_onhave s i = bitset_set s.remote.pieces i >>= λ set.
    update_piece piece_incrfreq s.torrent.piecetab i >>= λ t. ok (record {
      torrent = record s.torrent { piecetab = t };
      remote = record s.remote { pieces = set; pieceshas = s.remote.pieceshas ++ i ∷ [] };
    })

-- A piece that the peer has is counted.
abbrev pub count_piece : Session → ℕ → Outcome Session
count_piece s i = update_piece piece_incrfreq s.torrent.piecetab i >>= λ t. ok (record {
  torrent = record s.torrent { piecetab = t };
  remote = record s.remote { pieceshas = s.remote.pieceshas ++ i ∷ [] };
})

-- The loop of `peer_onbitfield` from piece `i`, with `k` pieces left.
unfoldable pub bitfield_loop : ℕ → ℕ → Session → Outcome Session
bitfield_loop zero i s = ok s
bitfield_loop (suc k) i s =
    (if holds s.remote.pieces i then count_piece s i else ok s) >>= λ s'. bitfield_loop k (i + 1) s'

-- `peer_onbitfield`
unfoldable pub peer_onbitfield : Session → List ℕ → ℕ → Outcome Session
peer_onbitfield s set n = bitset_read_arr s.remote.pieces set n >>= λ pieces.
    bitfield_loop s.torrent.npieces 0 (record s { remote = record s.remote { pieces = pieces } })

-- The loop of `peer_ondisconnect` from piece `i`, with `k` pieces left.
unfoldable pub forget_loop : ℕ → ℕ → Peer → List Piece → Outcome (List Piece)
forget_loop zero i p t = ok t
forget_loop (suc k) i p t =
    (if holds p.pieces i then update_piece piece_decrfreq t i else ok t) >>= λ t'.
    forget_loop k (i + 1) p t'

-- `peer_ondisconnect`
unfoldable pub peer_ondisconnect : Session → Outcome Session
peer_ondisconnect s =
    (if s.remote.handshake_done
      then forget_loop s.torrent.npieces 0 s.remote s.torrent.piecetab
      else ok s.torrent.piecetab)
    >>= λ t.
        let s' = flush_session (record s { torrent = record s.torrent { piecetab = t } }) in
        ok (record s' { remote = bt_peer_disconnect s'.remote })

-- `peer_onconnect` at the time `now`. There is memory for the handshake; without it the code queues
-- NULL, which the model has no message for.
unfoldable pub peer_onconnect : ℕ → Session → Outcome Session
peer_onconnect now s = bt_handshake (λ size. true) s.torrent.info_hash own_id >>= λ h.
    bt_peer_handshake (record s.remote { connected = true; connect_time = now }) h >>= λ p.
    ok (record s { remote = p })

abbrev pub written : Torrent → Option (Bool × DiskMgr) → Outcome Torrent
written t none = aborted
written t (some (all_done, m)) = ok (record t { mgr = m })

-- `bt_disk_write(&t->mgr, data, piece->off + off, len)`, whose result is not looked at.
abbrev pub write_block :
    (List ℕ → Bool) → (List ℕ → ℕ → List ℕ → Bool) → Torrent → Piece → ℕ → List ℕ → Outcome Torrent
write_block can_open can_write t q off block =
    written t (disk_write can_open can_write t.mgr block ((q.off + off) % 2 ^ 64))

-- The parameters of the handlers: `malloc`, the timerfd, the file system, the clock, the peer's
-- index, and the byte behind a bitfield message.
pub record World : Type 0 where
  pub alloc : ℕ → Bool
  pub gettime : TimerQueue → Option TimeSpec
  pub settime : TimerQueue → Bool
  pub can_open : List ℕ → Bool
  pub can_write : List ℕ → ℕ → List ℕ → Bool
  pub now : ℕ
  pub id : ℕ
  pub slack : ℕ

module _ (w : World) where
  -- `peer_onhandshake`; `valid_handshake` is always true.
  unfoldable pub peer_onhandshake : Session → Outcome Session
  peer_onhandshake s = bt_peer_keepalivetimeout w.gettime w.settime w.id s.torrent >>= λ t.
      ok (record { torrent = t; remote = record s.remote { handshake_done = true } })

  -- `if (bt_peer_removerequest(…)) bt_peer_requesttimeout(…)`
  abbrev pub after_removal : Torrent → Bool × Peer → Outcome Session
  after_removal t (true, p) = bt_peer_requesttimeout w.gettime w.settime w.id t >>= λ t'.
      ok (record { torrent = t'; remote = p })
  after_removal t (false, p) = ok (record { torrent = t; remote = p })

  -- The rest of `peer_onpiece`, once the block is stored.
  abbrev pub book_block : Torrent → Peer → ℕ → ℕ → ℕ → Bool → Outcome Session
  book_block t p index block len complete =
      after_removal t (bt_peer_removerequest p index block) >>= λ s.
      let s' = record s {
        remote = record s.remote { uploaded = (s.remote.uploaded + len) % 2 ^ 64 };
      } in
      if complete
      then (piece_completed s'.torrent index >>= λ t'. ok (record s' { torrent = t' }))
      else ok s'

  abbrev pub at_piece : Session → List ℕ → ℕ → ℕ → ℕ → Option Piece → Outcome Session
  at_piece s block index off len none = aborted
  at_piece s block index off len (some q) =
      let b = piece_blockfromoff off in
      piece_markhave q b >>= λ r. update_piece (λ old. r) s.torrent.piecetab index >>= λ tab.
      write_block w.can_open w.can_write (record s.torrent { piecetab = tab }) q off block >>= λ t'.
      book_block t' s.remote index b len (piece_complete r)

  -- `peer_onpiece`; an index outside the table is a fault.
  unfoldable pub peer_onpiece : Session → List ℕ → ℕ → ℕ → ℕ → Outcome Session
  peer_onpiece s block index off len =
      at_piece s block index off len (get_piece s.torrent.piecetab index)

  -- `dispatch`. An event that carries the wrong kind of message, which `on_read` does not make, or
  -- none, is a fault; `peer_onrequest` only prints, and keep-alive timers do nothing.
  unfoldable pub dispatch : EventKind → Option Msg → Session → Outcome Session
  dispatch peer_connect m s = peer_onconnect w.now s
  dispatch peer_handshake m s = peer_onhandshake s
  dispatch peer_disconnect m s = peer_ondisconnect s
  dispatch peer_have (some (have len i)) s = peer_onhave s i
  dispatch peer_interested m s = ok (peer_oninterested s)
  dispatch peer_notinterested m s = ok (peer_onnotinterested s)
  dispatch peer_choke m s = ok (peer_onchoke s)
  dispatch peer_unchoke m s = ok (peer_onunchoke s)
  dispatch peer_keepalive m s = ok s
  dispatch peer_bitfield (some (bitfield len bits)) s = peer_onbitfield s (bits ++ w.slack ∷ []) len
  dispatch peer_piece (some (piece len index begin block)) s =
      peer_onpiece s block index begin ((len + 2 ^ 32 - 9) % 2 ^ 32)
  dispatch peer_request m s = ok s
  dispatch send_keepalive m s = ok s
  dispatch peer_reqtimeout m s = ok (flush_session s)
  dispatch peer_runscheduler m s = bt_peer_updaterequests w.alloc w.gettime w.settime w.id w.now s
  dispatch kind m s = aborted

  -- `bt_peer_handlemessage`, and the `bt_peer_updaterequests` that the main loop calls after it.
  unfoldable pub serve : EventKind → Option Msg → Session → Outcome Session
  serve kind m s =
      dispatch kind m s >>= λ s'. bt_peer_updaterequests w.alloc w.gettime w.settime w.id w.now s'
