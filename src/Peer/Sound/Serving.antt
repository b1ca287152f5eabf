-- ===== src/Peer/Sound/Serving.antt =====
-- `dispatch` of src/peer.c, the requests and the table of pieces.
use libctorrent.Prelude.{
  ℕ, zero, suc, ◌+◌, ◌-◌, ◌/◌, ◌%◌, ◌^◌, ◌≡◌, refl, ap, sym, ltb, length, Bool, true, false, List,
  [], ◌∷◌, ◌++◌, if◌then◌else◌, arith, Option, none, some,
}
use libctorrent.Prelude.Outcome.{ok, aborted, ◌>>=◌, Keeps, Keeps-bind}
use libctorrent.Event.{
  EventKind, peer_connect, peer_handshake, peer_request, peer_piece, peer_choke, peer_unchoke,
  peer_interested, peer_notinterested, peer_have, peer_bitfield, peer_disconnect, peer_keepalive,
  peer_reqtimeout, peer_runscheduler, send_keepalive,
}
use libctorrent.Message.{Msg, have, bitfield, piece}
use libctorrent.Bitset.{bitset_set, bitset_read_arr}
use libctorrent.Piece.{Piece, piece_blockfromoff, piece_incrfreq, piece_markhave, add_have}
use libctorrent.Disk.{DiskMgr}
use libctorrent.Peer.{Peer}
use libctorrent.Peer.Requests.{request_key, bt_peer_removerequest}
use libctorrent.Peer.Booked.{bt_peer_removerequest_lem}
use libctorrent.Peer.Schedule.{Session, bt_peer_requesttimeout}
use libctorrent.Peer.Handlers.{
  World, peer_onhave, peer_oninterested, peer_onnotinterested, peer_onchoke, peer_onunchoke,
  peer_onbitfield, peer_onpiece, at_piece, write_block, written, book_block, after_removal,
  dispatch, serve,
}
use libctorrent.Peer.Sound.{HasBlocks, Booked, IsSound, sound-change_piece}
use libctorrent.Torrent.{Torrent, get_piece, change_piece, update_piece, piece_completed}
use libctorrent.Peer.Sound.Handling.{
  anything, if_both, if_in, SameTable, restart_timer-SameTable, piece_completed-SameTable,
  markhave_keeps, flush-IsSound, bitfield_loop-IsSound, disconnect-IsSound, sound-incrfreq,
  Removal-Booked, updaterequests-IsSound, connect-IsSound, handshake-IsSound,
}

markhave_returns : (q : Piece) (b : ℕ) → Keeps (λ r. r ≡ add_have q b) (piece_markhave q b)
unfolding piece_markhave
markhave_returns q b =
    if_both (Keeps (λ r. r ≡ add_have q b)) (ltb (b / 32) (length q.have.bits)) (ok (add_have q b))
      aborted refl tt

some_same : (p q : Piece) → some p ≡ some q → p ≡ q
some_same p q e = cc

module _ (others : ℕ → ℕ) (w : World) where
  written-SameTable :
      (t : Torrent) (r : Option (Bool × DiskMgr)) → Keeps (SameTable t) (written t r)
  written-SameTable t none = tt
  written-SameTable t (some (all_done, m)) = refl

  after_removal-IsSound :
      (t : Torrent) (r : Bool × Peer)
      → HasBlocks t.piecetab × Booked others r.1.request_queue r.1.nrequests t.piecetab
      → Keeps (IsSound others) (after_removal w t r)
  unfolding bt_peer_requesttimeout
  after_removal-IsSound t (true, p) h =
      Keeps-bind (SameTable t) (IsSound others) (bt_peer_requesttimeout w.gettime w.settime w.id t)
        (λ t'. ok (record { torrent = t'; remote = p }))
        (restart_timer-SameTable w.gettime w.settime t _ _ _) (λ t' e. rw e h)
  after_removal-IsSound t (false, p) h = h

  book_block-IsSound :
      (t : Torrent) (p : Peer) (i b len : ℕ) (complete : Bool)
      → HasBlocks t.piecetab × Booked others p.request_queue p.nrequests t.piecetab
      → Keeps (IsSound others) (book_block w t p i b len complete)
  unfolding bt_peer_removerequest
  book_block-IsSound t p i b len complete (blocks, booked) =
      let (long, sized, once, held) = booked in
      let x = request_key i b in
      Keeps-bind (IsSound others) (IsSound others) (after_removal w t (bt_peer_removerequest p i b))
        _
        (after_removal-IsSound t (bt_peer_removerequest p i b) (
          blocks,
          Removal-Booked others p x t.piecetab (bt_peer_removerequest p i b)
              (bt_peer_removerequest_lem p i b (omega arith)) booked,
        ))
        (λ s good. counted s good complete)
    where
      counted :
          (s : Session)
          → IsSound others s
          → (complete : Bool)
          → Keeps (IsSound others) (
              let s' = record s {
                remote = record s.remote { uploaded = (s.remote.uploaded + len) % 2 ^ 64 };
              } in
              if complete
              then (piece_completed s'.torrent i >>= λ t'. ok (record s' { torrent = t' }))
              else ok s')
      counted s good true =
          let s' = record s {
            remote = record s.remote { uploaded = (s.remote.uploaded + len) % 2 ^ 64 };
          } in
          Keeps-bind (SameTable s.torrent) (IsSound others) (piece_completed s.torrent i)
            (λ t'. ok (record s' { torrent = t' })) (piece_completed-SameTable s.torrent i)
            (λ t' e. rw e good)
      counted s good false = good

  -- A change that is computed from the piece itself.
  change_same :
      (f : Piece → Piece) (q : Piece) (t : List Piece) (i : ℕ)
      → get_piece t i ≡ some q
      → change_piece f t i ≡ change_piece (λ old. f q) t i
  change_same f q [] i e = refl
  change_same f q (p ∷ t) zero e = let same : p ≡ q = some_same p q e in ap (λ r. f r ∷ t) same
  change_same f q (p ∷ t) (suc i) e = ap (λ u. p ∷ u) (change_same f q t i e)

  at_piece-IsSound :
      (s : Session) (block : List ℕ) (i off len : ℕ) (o : Option Piece)
      → get_piece s.torrent.piecetab i ≡ o
      → IsSound others s
      → Keeps (IsSound others) (at_piece w s block i off len o)
  at_piece-IsSound s block i off len none e h = tt
  at_piece-IsSound s block i off len (some q) e h =
      let b = piece_blockfromoff off in
      let P : List Piece → Type 0 =
        λ u. HasBlocks u × Booked others s.remote.request_queue s.remote.nrequests u in
      let good =
        sound-change_piece (λ r. add_have r b) (λ r. (markhave_keeps b r).0)
          (λ r. (markhave_keeps b r).1) others s.remote.request_queue s.remote.nrequests
          s.torrent.piecetab i h in
      let same = change_same (λ r. add_have r b) q s.torrent.piecetab i e in
      Keeps-bind (λ r. r ≡ add_have q b) (IsSound others) (piece_markhave q b) _
        (markhave_returns q b)
        (λ r marked.
          Keeps-bind P (IsSound others) (update_piece (λ old. r) s.torrent.piecetab i) _
            (if_in others P (λ old. r) s.torrent.piecetab i (rw (marked, sym same) good))
            (λ tab good'.
              let t = record s.torrent { piecetab = tab } in
              Keeps-bind (SameTable t) (IsSound others)
                (write_block w.can_open w.can_write t q off block) _ (written-SameTable t _)
                (λ t' e'. book_block-IsSound t' s.remote i b len _ (rw e' good'))))

  piece-IsSound :
      (s : Session) (block : List ℕ) (i off len : ℕ)
      → IsSound others s
      → Keeps (IsSound others) (peer_onpiece w s block i off len)
  unfolding peer_onpiece
  piece-IsSound s block i off len h =
      at_piece-IsSound s block i off len (get_piece s.torrent.piecetab i) refl h

  onhave-IsSound :
      (s : Session) (i : ℕ) → IsSound others s → Keeps (IsSound others) (peer_onhave s i)
  unfolding peer_onhave
  onhave-IsSound s i h =
      let P : List Piece → Type 0 =
        λ u. HasBlocks u × Booked others s.remote.request_queue s.remote.nrequests u in
      Keeps-bind (λ set. Unit {0}) (IsSound others) (bitset_set s.remote.pieces i) _ (anything _)
        (λ set u.
          Keeps-bind P (IsSound others) (update_piece piece_incrfreq s.torrent.piecetab i) _
            (if_in others P piece_incrfreq s.torrent.piecetab i (
              sound-incrfreq others s.remote.request_queue s.remote.nrequests s.torrent.piecetab i
                h))
            (λ t good. good))

  onbitfield-IsSound :
      (s : Session) (v : List ℕ) (n : ℕ)
      → IsSound others s
      → Keeps (IsSound others) (peer_onbitfield s v n)
  unfolding peer_onbitfield
  onbitfield-IsSound s v n h =
      Keeps-bind (λ set. Unit {0}) (IsSound others) (bitset_read_arr s.remote.pieces v n) _
        (anything _)
        (λ set u.
          bitfield_loop-IsSound others s.torrent.npieces 0
            (record s { remote = record s.remote { pieces = set } }) h)

  dispatch-IsSound :
      (kind : EventKind) (m : Option Msg) (s : Session)
      → IsSound others s
      → Keeps (IsSound others) (dispatch w kind m s)
  unfolding dispatch peer_oninterested peer_onnotinterested peer_onchoke peer_onunchoke
  dispatch-IsSound peer_connect m s h = connect-IsSound others w s h
  dispatch-IsSound peer_handshake m s h = handshake-IsSound others w s h
  dispatch-IsSound peer_disconnect m s h = disconnect-IsSound others s h
  dispatch-IsSound peer_have (some (have len i)) s h = onhave-IsSound s i h
  dispatch-IsSound peer_interested m s h = h
  dispatch-IsSound peer_notinterested m s h = h
  dispatch-IsSound peer_choke m s h =
      flush-IsSound others (record s { remote = record s.remote { peer_choking = true } }) h
  dispatch-IsSound peer_unchoke m s h = h
  dispatch-IsSound peer_keepalive m s h = h
  dispatch-IsSound peer_bitfield (some (bitfield len bits)) s h =
      onbitfield-IsSound s (bits ++ w.slack ∷ []) len h
  dispatch-IsSound peer_piece (some (piece len index begin block)) s h =
      piece-IsSound s block index begin ((len + 2 ^ 32 - 9) % 2 ^ 32) h
  dispatch-IsSound peer_request m s h = h
  dispatch-IsSound send_keepalive m s h = h
  dispatch-IsSound peer_reqtimeout m s h = flush-IsSound others s h
  dispatch-IsSound peer_runscheduler m s h = updaterequests-IsSound others w s h
  dispatch-IsSound kind m s h = tt

  -- Let no block be in a peer's queue of requests twice, and let every block in it count as
  -- requested in the table of pieces, whose sets have room for the pieces' blocks. Whatever event
  -- and message then come for the peer, if the handler and the scheduler that runs after it return,
  -- the same holds of what they leave. A piece or block outside the torrent is a fault, and then they
  -- do not return.
  pub serve-IsSound :
      (kind : EventKind) (m : Option Msg) (s : Session)
      → IsSound others s
      → Keeps (IsSound others) (serve w kind m s)
  unfolding serve
  serve-IsSound kind m s h =
      Keeps-bind (IsSound others) (IsSound others) (dispatch w kind m s) _
        (dispatch-IsSound kind m s h) (λ s' good. updaterequests-IsSound others w s' good)
