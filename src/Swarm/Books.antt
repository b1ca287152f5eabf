-- ===== src/Swarm/Books.antt =====
-- The request queues of all the peers of src/torrent.c together, and what leaves them as they are.
use libctorrent.Prelude.{
  ℕ, zero, suc, ◌+◌, ◌≤◌, ◌≡◌, refl, ap, sym, Bool, true, false, not, List, [], ◌∷◌, arith, length,
  some,
}
use libctorrent.Prelude.Outcome.{Outcome, ok, failed, aborted, Keeps, Keeps-bind}
use libctorrent.Message.{msg_new}
use libctorrent.Peer.{
  Peer, req_cap, queue_push, send_fixed, bt_peer_interested, bt_peer_notinterested, bt_peer_have,
}
use libctorrent.Peer.Requests.{pending}
use libctorrent.Peer.Booked.{count}
use libctorrent.Peer.Sound.Asking.{SameRequests, queue_push-SameRequests}
use libctorrent.Peer.Sound.Handling.{anything, if_both}
use libctorrent.Torrent.{Torrent}
use libctorrent.Swarm.{
  peer_at, put_peer, each_peer, mark_peer, announce_peer, ignoring, interest_loop, bt_peer_haspiece,
}

-- How often an entry occurs in the queues of all the peers.
abbrev pub total : ℕ → List Peer → ℕ
total y [] = 0
total y (p ∷ v) = count y (pending p) + total y v

-- Every peer's array of requests has its full size and holds all its entries.
abbrev pub Sized : List Peer → Type 0
Sized [] = Unit {0}
Sized (p ∷ v) = (length p.request_queue ≡ req_cap) × (p.nrequests ≤ req_cap) × Sized v

-- One peer among the others.
pub Sized-at :
    (v : List Peer) (i : ℕ) (p : Peer)
    → peer_at v i ≡ some p
    → Sized v
    → (length p.request_queue ≡ req_cap) × (p.nrequests ≤ req_cap)
Sized-at [] i p e h = absurd cc
Sized-at (q ∷ v) zero p e (long, full, rest) = let same : q ≡ p = cc in rw (sym same) (long, full)
Sized-at (q ∷ v) (suc i) p e (long, full, rest) = Sized-at v i p e rest

pub put-Sized :
    (v : List Peer) (i : ℕ) (q : Peer)
    → length q.request_queue ≡ req_cap
    → q.nrequests ≤ req_cap
    → Sized v
    → Sized (put_peer v i q)
put-Sized [] i q a b h = tt
put-Sized (p ∷ v) zero q a b (long, full, rest) = (a, b, rest)
put-Sized (p ∷ v) (suc i) q a b (long, full, rest) = (long, full, put-Sized v i q a b rest)

pub total-put :
    (v : List Peer) (i : ℕ) (p q : Peer) (y : ℕ)
    → peer_at v i ≡ some p
    → total y (put_peer v i q) + count y (pending p) ≡ total y v + count y (pending q)
total-put [] i p q y e = absurd cc
total-put (r ∷ v) zero p q y e =
    let same : r ≡ p = cc in
    let counts = ap (λ r. count y (pending r)) same in omega (arith, counts)
total-put (r ∷ v) (suc i) p q y e = omega (arith, total-put v i p q y e)

pub total-at :
    (v : List Peer) (i : ℕ) (p : Peer) (y : ℕ)
    → peer_at v i ≡ some p
    → count y (pending p) ≤ total y v
total-at [] i p y e = absurd cc
total-at (r ∷ v) zero p y e =
    let same : r ≡ p = cc in
    let counts = ap (λ r. count y (pending r)) same in omega (arith, counts)
total-at (r ∷ v) (suc i) p y e = omega (arith, total-at v i p y e)

-- Peers that differ in their messages only.
pub data SameBooks : List Peer → List Peer → Type 0 where
  no_more : SameBooks [] []
  also :
      {p q : Peer} {v u : List Peer} → SameRequests p q → SameBooks v u → SameBooks (p ∷ v) (q ∷ u)

pub same-Sized : {v u : List Peer} → SameBooks v u → Sized v → Sized u
same-Sized no_more h = tt
same-Sized (also (queue, n) rest) (long, full, h) = (rw queue long, rw n full, same-Sized rest h)

pub same-total : {v u : List Peer} → SameBooks v u → (y : ℕ) → total y u ≡ total y v
same-total no_more y = refl
same-total (also (queue, n) rest) y = rw (queue, n, same-total rest y) refl

pub each_peer-SameBooks :
    (f : Peer → Outcome Peer) (v : List Peer)
    → ((p : Peer) → Keeps (SameRequests p) (f p))
    → Keeps (SameBooks v) (each_peer f v)
each_peer-SameBooks f [] h = no_more
each_peer-SameBooks f (p ∷ v) h =
    Keeps-bind (SameRequests p) (SameBooks (p ∷ v)) (f p) _ (h p) (λ q same.
      Keeps-bind (SameBooks v) (SameBooks (p ∷ v)) (each_peer f v) (λ u. ok (q ∷ u))
        (each_peer-SameBooks f v h) (λ u rest. also same rest))

module _ (alloc : ℕ → Bool) where
  send_fixed-SameRequests : (p : Peer) (id : ℕ) → Keeps (SameRequests p) (send_fixed alloc p id)
  send_fixed-SameRequests p id =
      Keeps-bind (λ m. Unit {0}) (SameRequests p) (msg_new alloc id 0 0 0) (λ m. queue_push p m)
        (anything (msg_new alloc id 0 0 0)) (λ m u. queue_push-SameRequests p m)

  pub mark_peer-SameRequests :
      (t : Torrent) (p : Peer) → Keeps (SameRequests p) (mark_peer alloc t p)
  unfolding bt_peer_interested bt_peer_notinterested
  mark_peer-SameRequests t p =
      if_both (Keeps (SameRequests p)) p.handshake_done _ (ok p)
        (if_both (Keeps (SameRequests p)) (interest_loop t.npieces 0 t p) _ _
          (if_both (Keeps (SameRequests p)) p.am_interested (ok p) _ (refl, refl)
            (send_fixed-SameRequests (record p { am_interested = true }) _))
          (if_both (Keeps (SameRequests p)) (not p.am_interested) (ok p) _ (refl, refl)
            (send_fixed-SameRequests (record p { am_interested = false }) _)))
        (refl, refl)

  ignoring-SameRequests :
      (p : Peer) (m : Outcome Peer)
      → Keeps (SameRequests p) m
      → Keeps (SameRequests p) (ignoring p m)
  ignoring-SameRequests p (ok q) h = h
  ignoring-SameRequests p failed h = (refl, refl)
  ignoring-SameRequests p aborted h = tt

  pub announce_peer-SameRequests :
      (i : ℕ) (p : Peer) → Keeps (SameRequests p) (announce_peer alloc i p)
  unfolding bt_peer_have
  announce_peer-SameRequests i p =
      if_both (Keeps (SameRequests p)) p.handshake_done _ (ok p)
        (if_both (Keeps (SameRequests p)) (bt_peer_haspiece p i) (ok p) _ (refl, refl)
          (ignoring-SameRequests p (bt_peer_have alloc p i) (
            Keeps-bind (λ m. Unit {0}) (SameRequests p) (msg_new alloc _ i 0 0)
              (λ m. queue_push p m) (anything (msg_new alloc _ i 0 0))
              (λ m u. queue_push-SameRequests p m))))
        (refl, refl)
