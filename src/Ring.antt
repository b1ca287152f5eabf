-- ===== src/Ring.antt =====
-- The circular array that src/eventqueue.h (events, 128 slots) and the transmit queue of src/peer.c
-- (message pointers, PEER_TXQCAP slots) both write out: `qhead` and `qtail` may stand one past the
-- last slot, and are moved to slot 0 by the next access. `none` is a failed `assert`, or the
-- refusal of `bt_eventqueue_pop` on an empty queue.
pub mod Laws
use libctorrent.Prelude.{
  ℕ, ◌+◌, ◌-◌, Option, none, some, List, ltb, leb, ◌==◌, if◌then◌else◌, get_or, set, replicate,
}

pub record Ring (A : Type 0) : Type 0 where
  pub slots : List A
  pub qhead : ℕ
  pub qtail : ℕ
  pub n : ℕ

module _ {A : Type 0} (cap : ℕ) (blank : A) where
  -- `if (i >= CAP) i = 0;`
  abbrev pub wrap : ℕ → ℕ
  wrap i = if leb cap i then 0 else i

  unfoldable pub init : Ring A
  init = record { slots = replicate cap blank; qhead = 0; qtail = 0; n = 0 }

  unfoldable pub push : Ring A → A → Option (Ring A)
  push q e =
      if ltb q.n cap
      then some
          (record q { slots = set q.slots (wrap q.qtail) e; qtail = wrap q.qtail + 1; n = q.n + 1 })
      else none

  unfoldable pub pop : Ring A → Option (A × Ring A)
  pop q =
      if q.n == 0
      then none
      else some
          (get_or q.slots (wrap q.qhead) blank, record q { qhead = wrap q.qhead + 1; n = q.n - 1 })
