-- ===== src/Torrent.antt =====
-- src/torrentx.h and src/torrent.c: the torrent, as far as its peers work on it. A piece is its index
-- in the table; a write to a piece outside the table is a fault.
use libctorrent.Prelude.{
  ℕ, zero, suc, Bool, List, [], ◌∷◌, ltb, length, if◌then◌else◌, Option, none, some,
}
use libctorrent.Prelude.Outcome.{Outcome, ok, aborted, ◌>>=◌}
use libctorrent.Event.{Event, piece_complete, piece}
use libctorrent.EventQueue.{EventQueue, eventqueue_push}
use libctorrent.TimerQueue.{TimeSpec, TimerQueue, timerqueue_insert, timerqueue_remove, new_timer}
use libctorrent.Piece.{Piece}
use libctorrent.Disk.{DiskMgr}

-- The fields of `struct bt_torrent` that the peers' handlers use.
pub record Torrent : Type 0 where
  pub info_hash : List ℕ
  pub npieces : ℕ
  pub piecetab : List Piece
  pub mgr : DiskMgr
  pub evqueue : EventQueue
  pub tmqueue : TimerQueue

-- The table with piece `i`, which is in it, changed.
abbrev pub change_piece : (Piece → Piece) → List Piece → ℕ → List Piece
change_piece f [] i = []
change_piece f (q ∷ t) zero = f q ∷ t
change_piece f (q ∷ t) (suc i) = q ∷ change_piece f t i

-- A change of `*bt_torrent_get_piece(t, i)`.
abbrev pub update_piece : (Piece → Piece) → List Piece → ℕ → Outcome (List Piece)
update_piece f t i = if ltb i (length t) then ok (change_piece f t i) else aborted

-- `bt_torrent_get_piece`; `none` is a place behind the table.
abbrev pub get_piece : List Piece → ℕ → Option Piece
get_piece [] i = none
get_piece (q ∷ t) zero = some q
get_piece (q ∷ t) (suc i) = get_piece t i

abbrev pub pushed : Torrent → Option EventQueue → Outcome Torrent
pushed t none = aborted
pushed t (some q) = ok (record t { evqueue = q })

-- `bt_torrent_piece_completed`
unfoldable pub piece_completed : Torrent → ℕ → Outcome Torrent
piece_completed t i = pushed t (
    eventqueue_push t.evqueue (record { kind = piece_complete; subject = piece i; payload = none }))

-- A timer of a peer that is taken off the queue and put back with a new delay. `gettime` and
-- `settime` are the answers that the timerfd gives while the queue is as it is.
unfoldable pub restart_timer :
    (TimerQueue → Option TimeSpec) → (TimerQueue → Bool) → Torrent → ℕ → ℕ → Event → Outcome Torrent
restart_timer gettime settime t address delay e =
    let q = timerqueue_remove (gettime t.tmqueue) (settime t.tmqueue) t.tmqueue address in
    timerqueue_insert (gettime q) (settime q) q (new_timer address delay e) >>= λ q'.
    ok (record t { tmqueue = q' })
