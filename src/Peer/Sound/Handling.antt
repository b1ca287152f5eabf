-- ===== src/Peer/Sound/Handling.antt =====
-- What the handlers of src/peer.c do to the table of pieces and to the queue of requests.
use libctorrent.Prelude.{
  ℕ, zero, suc, ◌+◌, ◌-◌, ◌≤◌, ◌≡◌, refl, ◌∙◌, Bool, true, false, List, if◌then◌else◌, ltb, ◌==◌,
  arith, get_or, Bool-cases, inl, inr, Option, none, some, length-set, length,
}
use libctorrent.Prelude.Outcome.{Outcome, ok, failed, aborted, ◌>>=◌, Keeps, Keeps-bind}
use libctorrent.Event.{Event}
use libctorrent.Message.{handshake, bt_handshake}
use libctorrent.TimerQueue.{TimeSpec, TimerQueue, timerqueue_insert, timerqueue_remove, new_timer}
use libctorrent.EventQueue.{EventQueue}
use libctorrent.Bitset.{holds}
use libctorrent.Piece.{Piece, piece_incrfreq, piece_decrfreq, add_have}
use libctorrent.Peer.{Peer, bt_peer_handshake}
use libctorrent.Peer.Requests.{pending, drop_entry, bt_peer_flushreqqueue}
use libctorrent.Peer.Booked.{count, one_if, Removal, removed, kept}
use libctorrent.Peer.Schedule.{
  Session, bt_peer_requesttimeout, bt_peer_keepalivetimeout, peer_cooldown_timer, after_asking,
  ask_pieces, bt_peer_updaterequests, request_cooldown,
}
use libctorrent.Peer.Handlers.{
  World, own_id, flush_session, peer_onconnect, peer_onhandshake, peer_ondisconnect, bitfield_loop,
  forget_loop, count_piece, bt_peer_disconnect,
}
use libctorrent.Peer.Sound.{HasBlocks, Booked, IsSound, sound-change_piece}
use libctorrent.Peer.Sound.Asking.{SameRequests, queue_push-SameRequests, ask_pieces-Agrees}
use libctorrent.Torrent.{
  Torrent, change_piece, update_piece, pushed, piece_completed, restart_timer,
}
use libctorrent.Peer.Sound.Flushing.{requested_at-flush_loop, flush_loop-HasBlocks}

abbrev pub anything : {A : Type 0} → (m : Outcome A) → Keeps (λ a. Unit {0}) m
anything (ok a) = tt
anything failed = tt
anything aborted = tt

pub if_both {ℓ} :
    {A : Type ℓ} (P : A → Type 0) (b : Bool) (x y : A) → P x → P y → P (if b then x else y)
if_both P true x y h k = h
if_both P false x y h k = k

-- The calls that leave the table of pieces alone.
abbrev pub SameTable : Torrent → Torrent → Type 0
SameTable t t' = t'.piecetab ≡ t.piecetab

pub restart_timer-SameTable :
    (gettime : TimerQueue → Option TimeSpec) (settime : TimerQueue → Bool) (t : Torrent)
    (address delay : ℕ) (e : Event)
    → Keeps (SameTable t) (restart_timer gettime settime t address delay e)
unfolding restart_timer
restart_timer-SameTable gettime settime t address delay e =
    let q = timerqueue_remove (gettime t.tmqueue) (settime t.tmqueue) t.tmqueue address in
    let m = timerqueue_insert (gettime q) (settime q) q (new_timer address delay e) in
    Keeps-bind (λ a. Unit {0}) (SameTable t) m (λ q'. ok (record t { tmqueue = q' })) (anything m)
      (λ a u. refl)

pushed-SameTable : (t : Torrent) (q : Option EventQueue) → Keeps (SameTable t) (pushed t q)
pushed-SameTable t none = tt
pushed-SameTable t (some q) = refl

pub piece_completed-SameTable : (t : Torrent) (i : ℕ) → Keeps (SameTable t) (piece_completed t i)
unfolding piece_completed
piece_completed-SameTable t i = pushed-SameTable t _

pub markhave_keeps :
    (b : ℕ) (q : Piece)
    → ((add_have q b).requested ≡ q.requested) × ((add_have q b).nblocks ≡ q.nblocks)
unfolding add_have
markhave_keeps b q = elim (Bool-cases (holds q.have b)) [
  | inl here ↦ rw here (refl, refl)
  | inr new ↦ rw new (refl, refl)
]

module _ (others : ℕ → ℕ) where
  -- `change_piece` with the changes that the handlers make.
  pub sound-incrfreq :
      (queue : List ℕ) (n : ℕ) (t : List Piece) (k : ℕ)
      → HasBlocks t × Booked others queue n t
      → HasBlocks (change_piece piece_incrfreq t k)
        × Booked others queue n (change_piece piece_incrfreq t k)
  unfolding piece_incrfreq
  sound-incrfreq = sound-change_piece piece_incrfreq (λ q. refl) (λ q. refl) others

  sound-decrfreq :
      (queue : List ℕ) (n : ℕ) (t : List Piece) (k : ℕ)
      → HasBlocks t × Booked others queue n t
      → HasBlocks (change_piece piece_decrfreq t k)
        × Booked others queue n (change_piece piece_decrfreq t k)
  unfolding piece_decrfreq
  sound-decrfreq = sound-change_piece piece_decrfreq (λ q. refl) (λ q. refl) others

  pub flush-IsSound : (s : Session) → IsSound others s → IsSound others (flush_session s)
  unfolding bt_peer_flushreqqueue
  flush-IsSound s (blocks, (long, sized, once, held)) = (
    flush_loop-HasBlocks (pending s.remote) s.torrent.piecetab blocks,
    (
      long,
      omega arith,
      λ y. omega (arith, once y),
      λ y other.
          requested_at-flush_loop (pending s.remote) y s.torrent.piecetab (omega (arith, once y))
          ∙ held y (omega arith),
    ),
  )

  -- A guarded change of a piece.
  pub if_in :
      (P : List Piece → Type 0) (f : Piece → Piece) (t : List Piece) (k : ℕ)
      → P (change_piece f t k)
      → Keeps P (update_piece f t k)
  if_in P f t k h = if_both (Keeps P) (ltb k (length t)) (ok (change_piece f t k)) aborted h tt

  -- Counting a peer's pieces.
  count_piece-IsSound :
      (s : Session) (i : ℕ) → IsSound others s → Keeps (IsSound others) (count_piece s i)
  count_piece-IsSound s i h =
      let P : List Piece → Type 0 =
        λ t. HasBlocks t × Booked others s.remote.request_queue s.remote.nrequests t in
      Keeps-bind P (IsSound others) (update_piece piece_incrfreq s.torrent.piecetab i) _
        (if_in P piece_incrfreq s.torrent.piecetab i
          (sound-incrfreq s.remote.request_queue s.remote.nrequests s.torrent.piecetab i h))
        (λ t good. good)

  pub bitfield_loop-IsSound :
      (k i : ℕ) (s : Session) → IsSound others s → Keeps (IsSound others) (bitfield_loop k i s)
  unfolding bitfield_loop
  bitfield_loop-IsSound zero i s h = h
  bitfield_loop-IsSound (suc k) i s h =
      Keeps-bind (IsSound others) (IsSound others)
        (if holds s.remote.pieces i then count_piece s i else ok s) _
        (if_both (Keeps (IsSound others)) (holds s.remote.pieces i) (count_piece s i) (ok s)
          (count_piece-IsSound s i h) h)
        (λ s' good. bitfield_loop-IsSound k (i + 1) s' good)

  forget_loop-IsSound :
      (k i : ℕ) (p : Peer) (queue : List ℕ) (n : ℕ) (t : List Piece)
      → HasBlocks t × Booked others queue n t
      → Keeps (λ u. HasBlocks u × Booked others queue n u) (forget_loop k i p t)
  unfolding forget_loop
  forget_loop-IsSound zero i p queue n t h = h
  forget_loop-IsSound (suc k) i p queue n t h =
      let P : List Piece → Type 0 = λ u. HasBlocks u × Booked others queue n u in
      Keeps-bind P P (if holds p.pieces i then update_piece piece_decrfreq t i else ok t) _
        (if_both (Keeps P) (holds p.pieces i) (update_piece piece_decrfreq t i) (ok t)
          (if_in P piece_decrfreq t i (sound-decrfreq queue n t i h)) h)
        (λ u good. forget_loop-IsSound k (i + 1) p queue n u good)

  pub disconnect-IsSound :
      (s : Session) → IsSound others s → Keeps (IsSound others) (peer_ondisconnect s)
  unfolding peer_ondisconnect bt_peer_disconnect
  disconnect-IsSound s h =
      let P : List Piece → Type 0 =
        λ u. HasBlocks u × Booked others s.remote.request_queue s.remote.nrequests u in
      Keeps-bind P (IsSound others)
        (if s.remote.handshake_done
          then forget_loop s.torrent.npieces 0 s.remote s.torrent.piecetab
          else ok s.torrent.piecetab)
        _
        (if_both (Keeps P) s.remote.handshake_done _ (ok s.torrent.piecetab)
          (forget_loop-IsSound s.torrent.npieces 0 s.remote s.remote.request_queue
            s.remote.nrequests s.torrent.piecetab h)
          h)
        (λ t good. flush-IsSound (record s { torrent = record s.torrent { piecetab = t } }) good)

  -- Taking an entry out.
  drop_entry-Booked :
      (p : Peer) (i x : ℕ) (t : List Piece)
      → 2 ≤ p.nrequests
      → ((y : ℕ) → count y (pending (drop_entry p i)) + one_if (x == y) ≡ count y (pending p))
      → Booked others p.request_queue p.nrequests t
      → Booked others (drop_entry p i).request_queue (drop_entry p i).nrequests t
  drop_entry-Booked p i x t two e (long, sized, once, held) = (
    length-set p.request_queue i (get_or p.request_queue (p.nrequests - 1) 0) ∙ long,
    omega arith,
    λ y. omega (arith, e y, once y),
    λ y h. held y (omega (arith, e y)),
  )

  pub Removal-Booked :
      (p : Peer) (x : ℕ) (t : List Piece) (r : Bool × Peer)
      → Removal p x r
      → Booked others p.request_queue p.nrequests t
      → Booked others r.1.request_queue r.1.nrequests t
  Removal-Booked p x t _ (removed i two e counts) h = drop_entry-Booked p i x t two counts h
  Removal-Booked p x t _ (kept why) h = h

  module _ (w : World) where
    pub updaterequests-IsSound :
        (s : Session)
        → IsSound others s
        → Keeps (IsSound others) (bt_peer_updaterequests w.alloc w.gettime w.settime w.id w.now s)
    unfolding bt_peer_updaterequests peer_cooldown_timer bt_peer_requesttimeout
    updaterequests-IsSound s h =
        if_both (Keeps (IsSound others)) (ltb w.now (s.remote.last_request + request_cooldown)) _ _
          (Keeps-bind (SameTable s.torrent) (IsSound others) _ (λ t. ok (record s { torrent = t }))
            (restart_timer-SameTable w.gettime w.settime s.torrent _ _ _) (λ t e. rw e h))
          (if_both (Keeps (IsSound others)) s.remote.am_interested _ (ok s)
            (Keeps-bind
              (λ a.
                HasBlocks a.table × Booked others a.asker.request_queue a.asker.nrequests a.table)
              (IsSound others) (ask_pieces w.alloc s.remote.pieceshas s.remote s.torrent.piecetab)
              (λ a. after_asking w.alloc w.gettime w.settime w.id w.now s.torrent a)
              (ask_pieces-Agrees others w.alloc s.remote.pieceshas s.remote s.torrent.piecetab h)
              (λ a good.
                if_both (Keeps (IsSound others)) a.full _
                  (ok (record {
                    torrent = record s.torrent { piecetab = a.table };
                    remote = a.asker;
                  }))
                  (Keeps-bind (SameTable (record s.torrent { piecetab = a.table })) (IsSound others)
                    _
                    (λ t.
                      ok (record { torrent = t; remote = record a.asker { last_request = w.now } }))
                    (restart_timer-SameTable w.gettime w.settime
                      (record s.torrent { piecetab = a.table }) _ _ _)
                    (λ t e. rw e good))
                  good))
            h)

    pub connect-IsSound :
        (s : Session) → IsSound others s → Keeps (IsSound others) (peer_onconnect w.now s)
    unfolding peer_onconnect bt_peer_handshake
    connect-IsSound s h =
        let p = record s.remote { connected = true; connect_time = w.now } in
        Keeps-bind (λ m. Unit {0}) (IsSound others)
          (bt_handshake (λ size. true) s.torrent.info_hash own_id)
          (λ m. bt_peer_handshake p m >>= λ p'. ok (record s { remote = p' }))
          (anything (bt_handshake (λ size. true) s.torrent.info_hash own_id))
          (λ m u.
            Keeps-bind (SameRequests p) (IsSound others) (bt_peer_handshake p m)
              (λ p'. ok (record s { remote = p' })) (queue_push-SameRequests p (handshake m))
              (λ p' (queue, n). rw (queue, n) h))

    pub handshake-IsSound :
        (s : Session) → IsSound others s → Keeps (IsSound others) (peer_onhandshake w s)
    unfolding peer_onhandshake bt_peer_keepalivetimeout
    handshake-IsSound s h =
        Keeps-bind (SameTable s.torrent) (IsSound others) _
          (λ t. ok (record { torrent = t; remote = record s.remote { handshake_done = true } }))
          (restart_timer-SameTable w.gettime w.settime s.torrent _ _ _) (λ t e. rw e h)
