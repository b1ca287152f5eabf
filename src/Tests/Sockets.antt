-- ===== src/Tests/Sockets.antt =====
-- src/net.c, and reading from and writing to the socket of a peer, at concrete inputs.
use libctorrent.Prelude.{◌≡◌, refl, true, false, List, [], ◌∷◌, arith}
use libctorrent.Prelude.Outcome.{Returns}
use libctorrent.Net.{Arrival, bytes, interrupted, would_block, takes, no_time, no_room}
use libctorrent.Ring.Laws.{init-IsValid}
use libctorrent.EventQueue.{eventqueue_init}
use libctorrent.Bitset.{Bitset}
use libctorrent.Peer.{Peer, peer_init, txq_cap, no_msg}
use libctorrent.Peer.Send.Whole.{nothing}
use libctorrent.Peer.Receive.{Inbox}
use libctorrent.Peer.Transmit.{Outbox, on_write}
use libctorrent.Peer.Transmit.Stream.{Waits, Lossless, on_write_lem}

-- An unchoke message in two parts, and the length of the next message.
abbrev parts : List Arrival
parts = bytes (0 ∷ 0 ∷ []) ∷ interrupted ∷ bytes (0 ∷ 1 ∷ 1 ∷ 0 ∷ 0 ∷ 0 ∷ 5 ∷ []) ∷ would_block ∷ []

abbrev small_set : Bitset
small_set = record { len = 1; bits = 0 ∷ [] }

abbrev remote : Peer
remote = record (peer_init small_set) { connected = true; handshake_done = true }

abbrev inbox : Inbox
inbox = record { remote = remote; rxbuf = 0 ∷ [] }

abbrev outbox : Outbox
outbox = record { sender = remote; buf = 5 ∷ 6 ∷ 7 ∷ 8 ∷ []; next = 1 }

outbox-Waits : Waits outbox (6 ∷ 7 ∷ 8 ∷ [])
unfolding peer_init
outbox-Waits = record {
  messages = [];
  bytes = [];
  valid = (init-IsValid txq_cap no_msg (omega arith)).0;
  held = (init-IsValid txq_cap no_msg (omega arith)).1;
  packs = nothing;
  fits = omega arith;
  all = refl;
}

on_write_lem_example :
    Returns
      (λ out. Lossless (6 ∷ 7 ∷ 8 ∷ []) out × (out.queue ≡ eventqueue_init))
      (on_write false 3 outbox eventqueue_init (takes 2 ∷ no_time ∷ no_room ∷ []))
on_write_lem_example =
    on_write_lem false 3 outbox eventqueue_init (takes 2 ∷ no_time ∷ no_room ∷ []) (6 ∷ 7 ∷ 8 ∷ [])
      refl (omega arith, tt) outbox-Waits
