-- ===== src/Net/Turns.antt =====
-- How much one call of `net_tcp_recv` takes from the arrivals.
use libctorrent.Prelude.{
  ℕ, suc, ◌+◌, ◌-◌, ◌≤◌, ◌<◌, ◌≡◌, refl, ◌⊎◌, List, [], ◌∷◌, ◌++◌, ltb, ◌==◌, length, length-append,
  length-take, take, arith, inl, inr,
}
use libctorrent.Net.{
  Arrival, bytes, interrupted, would_block, closed, broken, Received, recv_loop, net_tcp_recv,
}
use libctorrent.Net.Streams.{if_follows}

-- The arrivals grow fewer, the room is filled, or nothing is stored.
abbrev pub Moves : ℕ → ℕ → ℕ → Received → Type 0
Moves many old room r =
    (length r.later ≤ many)
    × ((length r.later < many) ⊎ ((length r.got ≡ old + room) ⊎ (length r.got ≡ old)))

recv_loop-Moves :
    (s : List Arrival) (sz : ℕ) (got : List ℕ)
    → Moves (length s) (length got) sz (recv_loop s sz got)
unfolding recv_loop
recv_loop-Moves [] sz got = (omega arith, inr (inr refl))
recv_loop-Moves (bytes v ∷ s) sz got =
    if_follows P (sz == 0) _ _ (λ full. (omega arith, inr (inr refl)))
      (λ some_room.
        if_follows P (length v == 0) _ _ (λ none. (omega arith, inl (omega arith)))
          (λ some_bytes.
            if_follows P (ltb sz (length v)) _ _
              (λ over. (
                omega arith,
                inr (inl (ground (arith, length-append got (take sz v), length-take sz v))),
              ))
              (λ fits.
                let (fewer, ends) = recv_loop-Moves s (sz - length v) (got ++ v) in
                (omega (arith, fewer), inl (omega (arith, fewer))))))
  where
    P : Received → Type 0
    P = Moves (suc (length s)) (length got) sz
recv_loop-Moves (interrupted ∷ s) sz got =
    if_follows (Moves (suc (length s)) (length got) sz) (sz == 0) _ _
      (λ full. (omega arith, inr (inr refl)))
      (λ some_room.
        let (fewer, ends) = recv_loop-Moves s sz got in
        (omega (arith, fewer), inl (omega (arith, fewer))))
recv_loop-Moves (would_block ∷ s) sz got =
    if_follows (Moves (suc (length s)) (length got) sz) (sz == 0) _ _
      (λ full. (omega arith, inr (inr refl))) (λ some_room. (omega arith, inl (omega arith)))
recv_loop-Moves (closed ∷ s) sz got = (omega arith, inr (inr refl))
recv_loop-Moves (broken ∷ s) sz got =
    if_follows (Moves (suc (length s)) (length got) sz) (sz == 0) _ _
      (λ full. (omega arith, inr (inr refl))) (λ some_room. (omega arith, inl (omega arith)))

pub net_tcp_recv-Moves : (s : List Arrival) (sz : ℕ) → Moves (length s) 0 sz (net_tcp_recv s sz)
unfolding net_tcp_recv
net_tcp_recv-Moves s sz = recv_loop-Moves s sz []
