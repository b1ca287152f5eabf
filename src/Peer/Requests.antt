-- ===== src/Peer/Requests.antt =====
-- The blocks that the client has asked a peer for: `bt_peer_addrequest`, `bt_peer_removerequest`,
-- `bt_peer_updaterequests` and `bt_peer_flushreqqueue` of src/peer.c. The pieces are the table of the
-- torrent; a piece is its index there, and an index outside the table changes nothing.
use libctorrent.Prelude.{
  ℕ, zero, suc, ◌+◌, ◌-◌, ◌*◌, ◌/◌, ◌%◌, ◌^◌, Bool, true, false, List, [], ◌∷◌, ltb, ◌==◌,
  if◌then◌else◌, get_or, set, take,
}
use libctorrent.Prelude.Outcome.{Outcome, ok, failed, aborted}
use libctorrent.Piece.{Piece, piece_unallocblock}
use libctorrent.Peer.{Peer, req_cap, bt_peer_requestpiece}

-- `((uint64)piece << 32) | block`, of two `uint32`.
abbrev pub request_key : ℕ → ℕ → ℕ
request_key piece block = piece * 2 ^ 32 + block

-- The queue without its entry `i`, whose place the last of the `n` entries takes.
abbrev pub drop_entry : Peer → ℕ → Peer
drop_entry p i =
    let n = p.nrequests in
    record p {
      request_queue = set p.request_queue i (get_or p.request_queue (n - 1) 0);
      nrequests = n - 1;
    }

-- The loop of `bt_peer_removerequest` from entry `i`, with `k` entries left. A queue of one entry
-- keeps it.
unfoldable pub remove_loop : ℕ → ℕ → ℕ → Peer → Bool × Peer
remove_loop zero i x p = (false, p)
remove_loop (suc k) i x p =
    let rest = remove_loop k (i + 1) x p in
    if get_or p.request_queue i 0 == x
    then (if p.nrequests - 1 == 0 then rest else (true, drop_entry p i))
    else rest

-- `bt_peer_removerequest`
unfoldable pub bt_peer_removerequest : Peer → ℕ → ℕ → Bool × Peer
bt_peer_removerequest p piece block = remove_loop p.nrequests 0 (request_key piece block) p

-- `bt_piece_unallocblock` on a piece of the table.
abbrev pub unalloc_in : List Piece → ℕ → ℕ → List Piece
unalloc_in [] i block = []
unalloc_in (q ∷ t) zero block = piece_unallocblock q block ∷ t
unalloc_in (q ∷ t) (suc i) block = q ∷ unalloc_in t i block

-- The loop of `bt_peer_flushreqqueue` over the entries that are left.
unfoldable pub flush_loop : List ℕ → List Piece → List Piece
flush_loop [] t = t
flush_loop (x ∷ v) t = flush_loop v (unalloc_in t (x / 2 ^ 32) (x % 2 ^ 32))

-- The entries in use.
abbrev pub pending : Peer → List ℕ
pending p = take p.nrequests p.request_queue

-- `bt_peer_flushreqqueue`
unfoldable pub bt_peer_flushreqqueue : Peer → List Piece → Peer × List Piece
bt_peer_flushreqqueue p t = (record p { nrequests = 0 }, flush_loop (pending p) t)

module _ (alloc : ℕ → Bool) where
  -- `bt_peer_addrequest`; a request that finds no memory is entered all the same, and not sent.
  abbrev pub sent_or : Peer → Outcome Peer → Outcome Peer
  sent_or p (ok p') = ok p'
  sent_or p failed = ok p
  sent_or p aborted = aborted

  unfoldable pub bt_peer_addrequest : Peer → ℕ → ℕ → ℕ → ℕ → Outcome Peer
  bt_peer_addrequest p piece block off len =
      let p' = record p {
        request_queue = set p.request_queue p.nrequests (request_key piece block);
        nrequests = p.nrequests + 1;
      } in
      if ltb p.nrequests req_cap
      then sent_or p' (bt_peer_requestpiece alloc p' piece off len)
      else aborted
