-- ===== src/Peer/Schedule.antt =====
-- Asking a peer for blocks: `bt_peer_updaterequests` of src/peer.c, and the timers of a peer. The
-- addresses of its three timers are made from its index in the torrent's array of peers.
use libctorrent.Prelude.{
  ℕ, zero, suc, ◌+◌, ◌-◌, ◌*◌, Bool, true, false, Option, none, some, List, [], ◌∷◌, ltb, leb,
  if◌then◌else◌,
}
use libctorrent.Prelude.Outcome.{Outcome, ok, aborted, ◌>>=◌}
use libctorrent.Event.{Event, EventKind, peer, peer_reqtimeout, peer_runscheduler, send_keepalive}
use libctorrent.TimerQueue.{TimeSpec, TimerQueue}
use libctorrent.Piece.{Piece, piece_allocblock, piece_blockoffset, piece_blocklength}
use libctorrent.Peer.{Peer}
use libctorrent.Peer.Requests.{bt_peer_addrequest}
use libctorrent.Torrent.{Torrent, get_piece, change_piece, restart_timer}

-- A handler's view: the torrent and the peer that it is called for.
pub record Session : Type 0 where
  pub torrent : Torrent
  pub remote : Peer

abbrev pub request_timer : ℕ → ℕ
request_timer id = 3 * id

abbrev pub keepalive_timer : ℕ → ℕ
keepalive_timer id = 3 * id + 1

abbrev pub cooldown_timer : ℕ → ℕ
cooldown_timer id = 3 * id + 2

abbrev pub timer_event : EventKind → ℕ → Event
timer_event kind id = record { kind = kind; subject = peer id; payload = none }

abbrev pub block_of : Piece → Option ℕ → Option (Piece × ℕ)
block_of q none = none
block_of q (some b) = some (q, b)

-- `bt_piece_allocblock` on a piece of the table: the piece and its block.
abbrev pub alloc_in : List Piece → ℕ → Option (Piece × ℕ)
alloc_in [] i = none
alloc_in (q ∷ t) zero = block_of q (piece_allocblock q).0
alloc_in (q ∷ t) (suc i) = alloc_in t i

abbrev pub table_after : List Piece → ℕ → List Piece
table_after t i = change_piece (λ q. (piece_allocblock q).1) t i

-- What the loops of `bt_peer_updaterequests` leave; `full` is the jump to `done`.
pub record Asked : Type 0 where
  pub full : Bool
  pub asker : Peer
  pub table : List Piece

module _ (gettime : TimerQueue → Option TimeSpec) (settime : TimerQueue → Bool) (id : ℕ) where
  -- `bt_peer_requesttimeout`
  unfoldable pub bt_peer_requesttimeout : Torrent → Outcome Torrent
  bt_peer_requesttimeout t =
      restart_timer gettime settime t (request_timer id) 4 (timer_event peer_reqtimeout id)

  -- `bt_peer_keepalivetimeout`
  unfoldable pub bt_peer_keepalivetimeout : Torrent → Outcome Torrent
  bt_peer_keepalivetimeout t =
      restart_timer gettime settime t (keepalive_timer id) 10 (timer_event send_keepalive id)

  -- `peer_cooldown_timer`
  unfoldable pub peer_cooldown_timer : Torrent → ℕ → Outcome Torrent
  peer_cooldown_timer t dt =
      restart_timer gettime settime t (cooldown_timer id) dt (timer_event peer_runscheduler id)

-- REQUEST_COOLDOWN
abbrev pub request_cooldown : ℕ
request_cooldown = 5

abbrev pub most_requests : ℕ
most_requests = 320

-- Turns that are enough for a piece.
abbrev pub turns : Piece → ℕ
turns q = q.nblocks + 1

module _ (alloc : ℕ → Bool) where
  -- What the inner loop does with the block that it was given, before it goes on by `again`.
  abbrev pub ask_block :
      ℕ → Peer → List Piece → (Peer → Outcome Asked) → Option (Piece × ℕ) → Outcome Asked
  ask_block i p t again none = ok (record { full = false; asker = p; table = t })
  ask_block i p t again (some (q, b)) =
      bt_peer_addrequest alloc p i b (piece_blockoffset b) (piece_blocklength q b) >>= λ p'.
      if leb most_requests p'.nrequests
      then ok (record { full = true; asker = p'; table = t })
      else again p'

  -- The inner loop, for piece `i`. Each turn takes a free block, so that one turn more than the
  -- piece has blocks is enough.
  unfoldable pub ask_piece : ℕ → ℕ → Peer → List Piece → Outcome Asked
  ask_piece zero i p t = ok (record { full = false; asker = p; table = t })
  ask_piece (suc k) i p t =
      ask_block i p (table_after t i) (λ p'. ask_piece k i p' (table_after t i)) (alloc_in t i)

  -- The inner loop from its start. A piece outside the table is a fault.
  abbrev pub ask_at : ℕ → Peer → List Piece → Option Piece → Outcome Asked
  ask_at i p t none = aborted
  ask_at i p t (some q) = ask_piece (turns q) i p t

  -- The loop over the pieces that the peer has.
  unfoldable pub ask_pieces : List ℕ → Peer → List Piece → Outcome Asked
  ask_pieces [] p t = ok (record { full = false; asker = p; table = t })
  ask_pieces (i ∷ v) p t =
      ask_at i p t (get_piece t i) >>= λ a. if a.full then ok a else ask_pieces v a.asker a.table

  module _ (gettime : TimerQueue → Option TimeSpec) (settime : TimerQueue → Bool) (id now : ℕ) where
    -- After the loops: `last_request` and the timeout are only set on the jump to `done`.
    abbrev pub after_asking : Torrent → Asked → Outcome Session
    after_asking t a =
        let t' = record t { piecetab = a.table } in
        if a.full
        then (bt_peer_requesttimeout gettime settime id t' >>= λ t''.
            ok (record { torrent = t''; remote = record a.asker { last_request = now } }))
        else ok (record { torrent = t'; remote = a.asker })

    -- `bt_peer_updaterequests`: `time(NULL)` is `now`, and `dt < 5` is `now < last_request + 5`.
    unfoldable pub bt_peer_updaterequests : Session → Outcome Session
    bt_peer_updaterequests s =
        let p = s.remote in
        if ltb now (p.last_request + request_cooldown)
        then (peer_cooldown_timer gettime settime id s.torrent
              (p.last_request + request_cooldown - now)
            >>= λ t. ok (record s { torrent = t }))
        else if p.am_interested
        then (ask_pieces p.pieceshas p s.torrent.piecetab >>= λ a. after_asking s.torrent a)
        else ok s
