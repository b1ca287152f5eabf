-- ===== src/Swarm/Exclusive.antt =====
-- The requests of all the peers in the main loop of src/torrent.c.
use libctorrent.Prelude.{
  ℕ, zero, suc, ◌+◌, ◌-◌, ◌/◌, ◌%◌, ◌^◌, ◌≤◌, ◌<◌, ◌≡◌, refl, ap, sym, Bool, true, false, List, ◌∷◌,
  if◌then◌else◌, ◌==◌, arith, Option, none, some, length-replicate,
}
use libctorrent.Prelude.Outcome.{Outcome, ok, failed, aborted, ◌>>=◌, Keeps, Keeps-bind}
use libctorrent.Event.{EventKind, Subject, null, peer, piece, piece_complete}
use libctorrent.Message.{Msg}
use libctorrent.Bitset.{Bitset, bitset_new}
use libctorrent.Peer.{Peer, req_cap, peer_init}
use libctorrent.Peer.Requests.{pending}
use libctorrent.Peer.Booked.{count, requested_at}
use libctorrent.Peer.Handlers.{World, serve}
use libctorrent.Peer.Sound.{HasBlocks, IsSound}
use libctorrent.Peer.Sound.Handling.{anything, if_both}
use libctorrent.Peer.Sound.Serving.{serve-IsSound}
use libctorrent.Torrent.{Torrent}
use libctorrent.Swarm.{
  Swarm, peer_at, serve_peer, announce, at_subject, handle_event, each_peer, mark_peer,
  announce_peer, bt_markinterest, bt_torrent_announce_have, bt_peer_connect, fresh_peers,
  with_peers, bt_torrent_start,
}
use libctorrent.Swarm.Step.{
  Phase, waiting, Sent, none_left, sent, Step, woken, handled, settled, Steps, here, then_step,
  popped, polled,
}
use libctorrent.Swarm.Books.{
  total, Sized, Sized-at, put-Sized, total-put, total-at, SameBooks, no_more, also, same-Sized,
  same-total, each_peer-SameBooks, mark_peer-SameRequests, announce_peer-SameRequests,
}

-- No block is in the queues twice, and the block of each entry counts as requested.
abbrev pub IsExclusive : Swarm → Type 0
IsExclusive s =
    HasBlocks s.torrent.piecetab
    × Sized s.peers
    × ((y : ℕ) → total y s.peers ≤ 1)
    × ((y : ℕ)
        → 0 < total y s.peers
        → requested_at s.torrent.piecetab (y / 2 ^ 32) (y % 2 ^ 32) ≡ true)

same-IsExclusive :
    (s : Swarm) (t : Torrent) (v : List Peer)
    → t.piecetab ≡ s.torrent.piecetab
    → SameBooks s.peers v
    → IsExclusive s
    → IsExclusive (record { torrent = t; peers = v })
same-IsExclusive s t v table same (blocks, sized, once, held) = (
  rw table blocks,
  same-Sized same sized,
  λ y. omega (arith, same-total same y, once y),
  λ y h. rw table (held y (omega (arith, same-total same y))),
)

-- The events.
module _ (w : World) where
  serve_peer-IsExclusive :
      (kind : EventKind) (m : Option Msg) (s : Swarm) (i : ℕ) (o : Option Peer)
      → peer_at s.peers i ≡ o
      → IsExclusive s
      → Keeps IsExclusive (serve_peer w kind m s i o)
  serve_peer-IsExclusive kind m s i none e h = tt
  serve_peer-IsExclusive kind m s i (some p) e (blocks, sized, once, held) =
      let before : (y : ℕ) → count y (pending p) ≤ total y s.peers =
        λ y. total-at s.peers i p y e in
      let (long, full) = Sized-at s.peers i p e sized in
      Keeps-bind (IsSound others) IsExclusive
        (serve (record w { id = i }) kind m (record { torrent = s.torrent; remote = p })) _
        (serve-IsSound others (record w { id = i }) kind m
          (record { torrent = s.torrent; remote = p })
          (
            blocks,
            (
              long,
              full,
              λ y. omega (arith, before y, once y),
              λ y h. held y (omega (arith, before y)),
            ),
          ))
        (λ s' (blocks', (long', full', once', held')). (
          blocks',
          put-Sized s.peers i s'.remote long' full' sized,
          λ y. omega (arith, total-put s.peers i p s'.remote y e, once' y, before y),
          λ y h. held' y (omega (arith, total-put s.peers i p s'.remote y e, before y)),
        ))
    where
      others : ℕ → ℕ
      others y = total y s.peers - count y (pending p)

  announce-IsExclusive : (s : Swarm) (i : ℕ) → IsExclusive s → Keeps IsExclusive (announce w s i)
  unfolding bt_torrent_announce_have
  announce-IsExclusive s i h =
      Keeps-bind (SameBooks s.peers) IsExclusive (bt_torrent_announce_have w.alloc i s.peers) _
        (each_peer-SameBooks (announce_peer w.alloc i) s.peers
          (announce_peer-SameRequests w.alloc i))
        (λ v same. same-IsExclusive s s.torrent v refl same h)

  at_subject-IsExclusive :
      (kind : EventKind) (m : Option Msg) (s : Swarm) (about : Subject)
      → IsExclusive s
      → Keeps IsExclusive (at_subject w kind m s about)
  at_subject-IsExclusive piece_complete m s (piece i) h = announce-IsExclusive s i h
  at_subject-IsExclusive piece_complete m s null h = tt
  at_subject-IsExclusive piece_complete m s (peer i) h = tt
  at_subject-IsExclusive kind m s null h = h
  at_subject-IsExclusive kind m s (peer i) h =
      serve_peer-IsExclusive kind m s i (peer_at s.peers i) refl h
  at_subject-IsExclusive kind m s (piece i) h = tt

Sent-SameBooks : {v u : List Peer} → Sent v u → SameBooks v u
Sent-SameBooks none_left = no_more
Sent-SameBooks (sent e rest) =
    also (ap (λ r. r.request_queue) e, ap (λ r. r.nrequests) e) (Sent-SameBooks rest)

-- What a call that returned leaves.
returned : {A : Type 0} (P : A → Type 0) (m : Outcome A) (a : A) → m ≡ ok a → Keeps P m → P a
returned P (ok b) a e h = let same : b ≡ a = cc in rw (sym same) h
returned P failed a e h = absurd cc
returned P aborted a e h = absurd cc

Step-IsExclusive : {f g : Phase} {s t : Swarm} → Step f s g t → IsExclusive s → IsExclusive t
unfolding handle_event bt_markinterest
Step-IsExclusive (woken s q timers v same) h =
    same-IsExclusive s (polled s q timers v).torrent v refl (Sent-SameBooks same) h
Step-IsExclusive (handled w s t e q popped_event done) h =
    returned IsExclusive (at_subject w e.kind e.payload (popped s q) e.subject) t done
      (at_subject-IsExclusive w e.kind e.payload (popped s q) e.subject h)
Step-IsExclusive (settled alloc s v empty done) h =
    same-IsExclusive s s.torrent v refl
      (returned (SameBooks s.peers) (each_peer (mark_peer alloc s.torrent) s.peers) v done (
        each_peer-SameBooks (mark_peer alloc s.torrent) s.peers
          (mark_peer-SameRequests alloc s.torrent)))
      h

Steps-IsExclusive : {f g : Phase} {s t : Swarm} → Steps f s g t → IsExclusive s → IsExclusive t
Steps-IsExclusive here h = h
Steps-IsExclusive (then_step before one) h = Step-IsExclusive one (Steps-IsExclusive before h)

-- The peers at the start.
abbrev Idle : List Peer → Type 0
Idle v = Sized v × ((y : ℕ) → total y v ≡ 0)

fresh-Idle :
    (answer : Bool) (set : Bitset) (v : List Peer)
    → Idle v
    → Idle (bt_peer_connect answer (peer_init set) ∷ v)
unfolding bt_peer_connect peer_init
fresh-Idle true set v (sized, none_asked) =
    ((length-replicate {A = ℕ} req_cap 0, omega arith, sized), λ y. omega (arith, none_asked y))
fresh-Idle false set v (sized, none_asked) =
    ((length-replicate {A = ℕ} req_cap 0, omega arith, sized), λ y. omega (arith, none_asked y))

fresh_peers-Idle :
    (alloc : ℕ → Bool) (answers : ℕ → Bool) (npieces n i : ℕ)
    → Keeps Idle (fresh_peers alloc answers npieces n i)
unfolding fresh_peers
fresh_peers-Idle alloc answers npieces zero i = (tt, λ y. refl)
fresh_peers-Idle alloc answers npieces (suc n) i =
    Keeps-bind (λ a. Unit {0}) Idle (bitset_new alloc npieces) _
      (anything (bitset_new alloc npieces))
      (λ set u.
        Keeps-bind Idle Idle (fresh_peers alloc answers npieces n (i + 1)) _
          (fresh_peers-Idle alloc answers npieces n (i + 1))
          (λ v idle. fresh-Idle (answers i) set v idle))

-- Let the main loop start with a table of pieces whose sets have room for their blocks. In every
-- state that it reaches, between events or between turns, whatever the peers send and in whatever
-- order, no block is in the request queues of two peers, nor twice in one, and the block of every
-- entry counts as requested in the table. A message about a piece or a block outside the torrent is a
-- fault; the loop reaches no state behind it.
pub one_request_per_block :
    (alloc answers : ℕ → Bool) (naddr : ℕ) (t : Torrent) {s s' : Swarm} {f : Phase}
    → HasBlocks t.piecetab
    → bt_torrent_start alloc answers naddr t ≡ ok s
    → Steps waiting s f s'
    → ((y : ℕ) → total y s'.peers ≤ 1)
      × ((y : ℕ)
          → 0 < total y s'.peers
          → requested_at s'.torrent.piecetab (y / 2 ^ 32) (y % 2 ^ 32) ≡ true)
unfolding bt_torrent_start
one_request_per_block alloc answers naddr t {s} blocks e run =
    let peers = fresh_peers alloc answers t.npieces naddr 0 in
    let (end_blocks, sized, once, held) = Steps-IsExclusive run (
      returned IsExclusive (if naddr == 0 then failed else (peers >>= λ v. ok (with_peers t v))) s e
        (if_both (Keeps IsExclusive) (naddr == 0) failed _ tt (
          Keeps-bind Idle IsExclusive peers (λ v. ok (with_peers t v))
            (fresh_peers-Idle alloc answers t.npieces naddr 0)
            (λ v (sized, none_asked). (
              blocks,
              sized,
              λ y. omega (arith, none_asked y),
              λ y h. absurd (omega (arith, none_asked y)),
            ))))) in
    (once, held)
