-- ===== src/Net/Streams.antt =====
-- The loops of src/net.c as they follow the stream of bytes.
use libctorrent.Prelude.{
  ℕ, ◌+◌, ◌-◌, ◌≤◌, ◌≡◌, refl, ap, sym, ◌∙◌, Bool, true, false, List, [], ◌∷◌, ◌++◌, append_assoc,
  ltb, ◌==◌, if◌then◌else◌, length, length-append, length-take, take, drop, take-append-drop, arith,
  Bool-cases, inl, inr,
}
use libctorrent.Net.{
  Arrival, bytes, interrupted, would_block, closed, broken, Received, recv_loop, net_tcp_recv, Room,
  takes, no_time, no_room, lost, send_loop, net_tcp_send,
}

-- All the bytes that arrive.
abbrev pub stream : List Arrival → List ℕ
stream [] = []
stream (bytes v ∷ s) = v ++ stream s
stream (_ ∷ s) = stream s

-- Nothing is lost or moved between what was there, what was got and what is to come.
abbrev pub Follows : List ℕ → ℕ → List ℕ → Received → Type 0
Follows whole most old r = (r.got ++ stream r.later ≡ whole) × (length r.got ≤ length old + most)

pub if_follows :
    (P : Received → Type 0) (b : Bool) (x y : Received)
    → (b ≡ true → P x)
    → (b ≡ false → P y)
    → P (if b then x else y)
if_follows P true x y h k = h refl
if_follows P false x y h k = k refl

no_bytes : (v : List ℕ) → (length v == 0) ≡ true → [] ≡ v
no_bytes [] h = refl
no_bytes (x ∷ v) h = absurd (ground arith)

recv_loop_lem :
    (s : List Arrival) (sz : ℕ) (got : List ℕ)
    → Follows (got ++ stream s) sz got (recv_loop s sz got)
unfolding recv_loop
recv_loop_lem [] sz got = (refl, omega arith)
recv_loop_lem (bytes v ∷ s) sz got =
    if_follows P (sz == 0) _ _ (λ full. (refl, omega arith))
      (λ some_room.
        if_follows P (length v == 0) _ _
          (λ none. (ap (λ u. got ++ (u ++ stream s)) (no_bytes v none), omega arith))
          (λ some_bytes.
            if_follows P (ltb sz (length v)) _ _
              (λ over. (
                append_assoc got (take sz v) (drop sz v ++ stream s)
                    ∙ ap (λ u. got ++ u) (sym (append_assoc (take sz v) (drop sz v) (stream s)))
                    ∙ ap (λ u. got ++ (u ++ stream s)) (take-append-drop sz v),
                omega (arith, length-append got (take sz v), length-take sz v),
              ))
              (λ fits.
                let (whole, bounded) = recv_loop_lem s (sz - length v) (got ++ v) in
                (whole ∙ append_assoc got v (stream s), ground (arith, length-append got v)))))
  where
    P : Received → Type 0
    P = Follows (got ++ (v ++ stream s)) sz got
recv_loop_lem (interrupted ∷ s) sz got =
    if_follows (Follows (got ++ stream s) sz got) (sz == 0) _ _ (λ full. (refl, omega arith))
      (λ some_room. recv_loop_lem s sz got)
recv_loop_lem (would_block ∷ s) sz got =
    if_follows (Follows (got ++ stream s) sz got) (sz == 0) _ _ (λ full. (refl, omega arith))
      (λ some_room. (refl, omega arith))
recv_loop_lem (closed ∷ s) sz got = (refl, omega arith)
recv_loop_lem (broken ∷ s) sz got =
    if_follows (Follows (got ++ stream s) sz got) (sz == 0) _ _ (λ full. (refl, omega arith))
      (λ some_room. (refl, omega arith))

-- What `net_tcp_recv` stores fits into its room, and with the bytes that are still to come it makes up
-- the stream: no byte is lost, doubled or moved, also when the call ends in an error.
pub net_tcp_recv_lem :
    (s : List Arrival) (sz : ℕ)
    → let r = net_tcp_recv s sz in (r.got ++ stream r.later ≡ stream s) × (length r.got ≤ sz)
unfolding net_tcp_recv
net_tcp_recv_lem s sz =
    let (whole, bounded) = recv_loop_lem s sz [] in (whole, omega (arith, bounded))

send_loop_lem :
    (s : List Room) (v sent : List ℕ)
    → let r = send_loop s v sent in (left : List ℕ) × (r.sent ++ left ≡ sent ++ v)
unfolding send_loop
send_loop_lem s [] sent = ([], refl)
send_loop_lem [] (x ∷ v) sent = (x ∷ v, refl)
send_loop_lem (takes n ∷ s) (x ∷ v) sent = elim (Bool-cases (n == 0)) [
  | inl none ↦ rw none (x ∷ v, refl)
  | inr some_taken ↦
      let (left, e) = send_loop_lem s (drop n (x ∷ v)) (sent ++ take n (x ∷ v)) in
      rw some_taken (
        left,
        e
            ∙ append_assoc sent (take n (x ∷ v)) (drop n (x ∷ v))
            ∙ ap (λ u. sent ++ u) (take-append-drop n (x ∷ v)),
      )
]
send_loop_lem (no_time ∷ s) (x ∷ v) sent = send_loop_lem s (x ∷ v) sent
send_loop_lem (no_room ∷ s) (x ∷ v) sent = (x ∷ v, refl)
send_loop_lem (lost ∷ s) (x ∷ v) sent = (x ∷ v, refl)

-- What `net_tcp_send` sends is a front part of what it is given.
pub net_tcp_send_lem :
    (s : List Room) (v : List ℕ) → (left : List ℕ) × ((net_tcp_send s v).sent ++ left ≡ v)
unfolding net_tcp_send
net_tcp_send_lem s v = send_loop_lem s v []
