-- ===== src/Peer/Sound/Asking.antt =====
-- `bt_peer_updaterequests` of src/peer.c and the queue of requests.
use libctorrent.Prelude.{
  ℕ, zero, suc, ◌+◌, ◌<◌, ◌≡◌, refl, Bool, true, List, [], ◌∷◌, if◌then◌else◌, ltb, leb, arith, set,
  Bool-cases, inl, inr, Option, none, some,
}
use libctorrent.Prelude.Outcome.{Outcome, ok, failed, aborted, Keeps, Keeps-bind, Keeps-mono}
use libctorrent.Piece.{Piece, piece_blockoffset, piece_blocklength}
use libctorrent.Peer.{Peer, req_cap, txq_cap, no_msg, stored, queue_push, bt_peer_requestpiece}
use libctorrent.Ring
use libctorrent.Ring.{Ring}
use libctorrent.Message.{Msg, msg_new, m_request}
use libctorrent.Peer.Requests.{request_key, sent_or, bt_peer_addrequest}
use libctorrent.Peer.Schedule.{
  alloc_in, table_after, Asked, ask_block, ask_piece, ask_at, ask_pieces, turns, most_requests,
}
use libctorrent.Peer.Sound.{HasBlocks, Booked}
use libctorrent.Torrent.{get_piece}
use libctorrent.Peer.Sound.Giving.{table_after-HasBlocks, alloc_in-Given, alloc_in-none, Booked-add}

-- Queueing a message does not touch the requests.
abbrev pub SameRequests : Peer → Peer → Type 0
SameRequests p p' = (p'.request_queue ≡ p.request_queue) × (p'.nrequests ≡ p.nrequests)

stored-SameRequests : (p : Peer) (q : Option (Ring Msg)) → Keeps (SameRequests p) (stored p q)
stored-SameRequests p none = tt
stored-SameRequests p (some q) = (refl, refl)

pub queue_push-SameRequests : (p : Peer) (m : Msg) → Keeps (SameRequests p) (queue_push p m)
unfolding queue_push
queue_push-SameRequests p m = stored-SameRequests p (Ring.push txq_cap no_msg p.txqueue m)

requestpiece-SameRequests :
    (alloc : ℕ → Bool) (p : Peer) (i off len : ℕ)
    → Keeps (SameRequests p) (bt_peer_requestpiece alloc p i off len)
unfolding bt_peer_requestpiece
requestpiece-SameRequests alloc p i off len =
    Keeps-bind (λ m. Unit {0}) (SameRequests p) (msg_new alloc m_request i off len)
      (λ m. queue_push p m) (anything (msg_new alloc m_request i off len))
      (λ m u. queue_push-SameRequests p m)
  where
    anything : (m : Outcome Msg) → Keeps (λ a. Unit {0}) m
    anything (ok a) = tt
    anything failed = tt
    anything aborted = tt

sent_or-SameRequests :
    (alloc : ℕ → Bool) (p : Peer) (m : Outcome Peer)
    → Keeps (SameRequests p) m
    → Keeps (SameRequests p) (sent_or alloc p m)
sent_or-SameRequests alloc p (ok p') h = h
sent_or-SameRequests alloc p failed h = (refl, refl)
sent_or-SameRequests alloc p aborted h = tt

-- The peer with the entry that `bt_peer_addrequest` makes.
abbrev with_entry : Peer → ℕ → ℕ → Peer
with_entry p i b = record p {
  request_queue = set p.request_queue p.nrequests (request_key i b);
  nrequests = p.nrequests + 1;
}

addrequest_lem :
    (alloc : ℕ → Bool) (p : Peer) (i b off len : ℕ)
    → Keeps
        (λ p'. (p.nrequests < req_cap) × SameRequests (with_entry p i b) p')
        (bt_peer_addrequest alloc p i b off len)
unfolding bt_peer_addrequest
addrequest_lem alloc p i b off len = elim (Bool-cases (ltb p.nrequests req_cap)) [
  | inl less ↦ rw less (
      Keeps-mono (SameRequests (with_entry p i b))
        (λ p'. (p.nrequests < req_cap) × SameRequests (with_entry p i b) p')
        (sent_or alloc (with_entry p i b) (bt_peer_requestpiece alloc (with_entry p i b) i off len))
        (λ p' h. (ground arith, h))
        (sent_or-SameRequests alloc (with_entry p i b) _
          (requestpiece-SameRequests alloc (with_entry p i b) i off len)))
  | inr full ↦ rw full tt
]

-- What holds of the peer and the table in the loops.
abbrev pub Agrees : (ℕ → ℕ) → Peer → List Piece → Type 0
Agrees others p t = HasBlocks t × Booked others p.request_queue p.nrequests t

module _ (others : ℕ → ℕ) (alloc : ℕ → Bool) where
  ask_block_lem :
      (i : ℕ) (p : Peer) (t : List Piece) (again : Peer → Outcome Asked) (o : Option (Piece × ℕ))
      → alloc_in t i ≡ o
      → Agrees others p t
      → ((p' : Peer)
          → Agrees others p' (table_after t i)
          → Keeps (λ a. Agrees others a.asker a.table) (again p'))
      → Keeps (λ a. Agrees others a.asker a.table) (ask_block alloc i p (table_after t i) again o)
  ask_block_lem i p t again none e h go = rw (alloc_in-none t i e) h
  ask_block_lem i p t again (some (q, b)) e (blocks, booked) go =
      let g = alloc_in-Given t i q b (blocks i).0 e in
      Keeps-bind (λ p'. (p.nrequests < req_cap) × SameRequests (with_entry p i b) p')
        (λ a. Agrees others a.asker a.table)
        (bt_peer_addrequest alloc p i b (piece_blockoffset b) (piece_blocklength q b))
        (λ p'.
          if leb most_requests p'.nrequests
          then ok (record { full = true; asker = p'; table = table_after t i })
          else again p')
        (addrequest_lem alloc p i b (piece_blockoffset b) (piece_blocklength q b))
        (λ p' (less, (queue, n)).
          let good : Agrees others p' (table_after t i) = (
            table_after-HasBlocks t i blocks,
            rw (queue, n)
                (Booked-add others p.request_queue p.nrequests t i b less blocks g booked),
          ) in
          elim (Bool-cases (leb most_requests p'.nrequests)) [
            | inl enough ↦ rw enough good
            | inr fewer ↦ rw fewer (go p' good)
          ])

  ask_piece-Agrees :
      (k i : ℕ) (p : Peer) (t : List Piece)
      → Agrees others p t
      → Keeps (λ a. Agrees others a.asker a.table) (ask_piece alloc k i p t)
  unfolding ask_piece
  ask_piece-Agrees zero i p t h = h
  ask_piece-Agrees (suc k) i p t h =
      ask_block_lem i p t (λ p'. ask_piece alloc k i p' (table_after t i)) (alloc_in t i) refl h
        (λ p' good. ask_piece-Agrees k i p' (table_after t i) good)

  ask_at-Agrees :
      (i : ℕ) (p : Peer) (t : List Piece) (o : Option Piece)
      → Agrees others p t
      → Keeps (λ a. Agrees others a.asker a.table) (ask_at alloc i p t o)
  ask_at-Agrees i p t none h = tt
  ask_at-Agrees i p t (some q) h = ask_piece-Agrees (turns q) i p t h

  pub ask_pieces-Agrees :
      (v : List ℕ) (p : Peer) (t : List Piece)
      → Agrees others p t
      → Keeps (λ a. Agrees others a.asker a.table) (ask_pieces alloc v p t)
  unfolding ask_pieces
  ask_pieces-Agrees [] p t h = h
  ask_pieces-Agrees (i ∷ v) p t h =
      Keeps-bind (λ a. Agrees others a.asker a.table) (λ a. Agrees others a.asker a.table)
        (ask_at alloc i p t (get_piece t i))
        (λ a. if a.full then ok a else ask_pieces alloc v a.asker a.table)
        (ask_at-Agrees i p t (get_piece t i) h)
        (λ a good.
          if_full a (ask_pieces alloc v a.asker a.table) good
            (ask_pieces-Agrees v a.asker a.table good))
    where
      if_full :
          (a : Asked) (m : Outcome Asked)
          → Agrees others a.asker a.table
          → Keeps (λ r. Agrees others r.asker r.table) m
          → Keeps (λ r. Agrees others r.asker r.table) (if a.full then ok a else m)
      if_full a m good k = elim (Bool-cases a.full) [
        | inl full ↦ rw full good
        | inr more ↦ rw more k
      ]
