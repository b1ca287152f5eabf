-- ===== src/Peer/Transmit/Stream.antt =====
-- `on_write` of src/peer.c as it follows the stream of bytes that wait for a peer.
use libctorrent.Prelude.{
  ℕ, zero, suc, ◌+◌, ◌≤◌, ◌<◌, ◌≡◌, refl, ap, sym, ◌∙◌, ◌⊎◌, if◌then◌else◌, Bool, true, false, not,
  List, [], ◌∷◌, ◌++◌, append_assoc, append-nil, ◌==◌, length, take, drop, arith, Bool-cases, inl,
  inr,
}
use libctorrent.Prelude.Outcome.{Outcome, ok, Returns, Returns-mono}
use libctorrent.Net.Streams.{net_tcp_send_lem}
use libctorrent.EventQueue.{EventQueue}
use libctorrent.Ring.Laws
use libctorrent.Message.{Msg}
use libctorrent.Peer.{txq_cap, no_msg}
use libctorrent.Peer.Laws.{queued}
use libctorrent.Peer.Send.{txbuf_size}
use libctorrent.Peer.Send.Whole.{PacksAll, nothing, txqueue_messages_all}
use libctorrent.Peer.Transmit.{Outbox, Written, txbuf_rest, txbuf_refill, write_loop, on_write}
use libctorrent.Net.{Room, takes, no_time, no_room, lost, Transmitted, send_loop, net_tcp_send}

-- No answer is an error.
abbrev pub AllWell : List Room → Type 0
AllWell [] = Unit {0}
AllWell (takes n ∷ s) = (1 ≤ n) × AllWell s
AllWell (no_time ∷ s) = AllWell s
AllWell (no_room ∷ s) = AllWell s
AllWell (lost ∷ s) = ⊥

-- A call that finds no error, and what it uses up.
abbrev pub Goes : List Room → List ℕ → Transmitted → Type 0
Goes s old r =
    (r.succeeds ≡ true)
    × AllWell r.later
    × ((length r.later < length s) ⊎ ((length r.later ≤ length s) × (r.sent ≡ old)))

less_after : {a b : ℕ} {P : Type 0} → ((a < b) ⊎ ((a ≤ b) × P)) → a < suc b
less_after (inl e) = omega (arith, e)
less_after (inr (e, p)) = omega (arith, e)

send_loop-Goes : (s : List Room) (v sent : List ℕ) → AllWell s → Goes s sent (send_loop s v sent)
unfolding send_loop
send_loop-Goes s [] sent h = (refl, h, inr (omega arith, refl))
send_loop-Goes [] (x ∷ v) sent h = (refl, tt, inr (omega arith, refl))
send_loop-Goes (takes n ∷ s) (x ∷ v) sent (some_room, h) =
    let (succeeds, good, fewer) = send_loop-Goes s (drop n (x ∷ v)) (sent ++ take n (x ∷ v)) h in
    let none : (n == 0) ≡ false = ground arith in rw none (succeeds, good, inl (less_after fewer))
send_loop-Goes (no_time ∷ s) (x ∷ v) sent h =
    let (succeeds, good, fewer) = send_loop-Goes s (x ∷ v) sent h in
    (succeeds, good, inl (less_after fewer))
send_loop-Goes (no_room ∷ s) (x ∷ v) sent h = (refl, h, inl (omega arith))
send_loop-Goes (lost ∷ s) (x ∷ v) sent h = absurd h

net_tcp_send-Goes : (s : List Room) (v : List ℕ) → AllWell s → Goes s [] (net_tcp_send s v)
unfolding net_tcp_send
net_tcp_send-Goes s v h = send_loop-Goes s v [] h

-- The bytes that are still to be sent: the rest of the buffer, then the messages of the queue, which
-- is well formed and fits into a buffer.
pub record Waits (b : Outbox) (todo : List ℕ) : Type 0 where
  pub messages : List Msg
  pub bytes : List ℕ
  pub valid : Laws.IsValid txq_cap no_msg b.sender.txqueue
  pub held : queued b.sender ≡ messages
  pub packs : PacksAll messages bytes
  pub fits : length bytes ≤ txbuf_size
  pub all : txbuf_rest b ++ bytes ≡ todo

if_both :
    {A : Type 0} (P : A → Type 0) (b : Bool) (x y : A)
    → (b ≡ true → P x)
    → (b ≡ false → P y)
    → P (if b then x else y)
if_both P true x y h k = h refl
if_both P false x y h k = k refl

no_byte : (v : List ℕ) → (length v == 0) ≡ true → v ≡ []
no_byte [] e = refl
no_byte (x ∷ v) e = absurd (ground arith)

-- Refilling keeps what waits.
refill-Waits :
    (b : Outbox) (todo : List ℕ)
    → Waits b todo
    → (b' : Outbox) × (txbuf_refill b ≡ ok b') × Waits b' todo
refill-Waits b todo w = elim (Bool-cases (length (txbuf_rest b) == 0)) [
  | inr some_left ↦ (b, rw some_left refl, w)
  | inl none_left ↦
      let (r, whole, good, left) = txqueue_messages_all b.sender w.valid w.held w.packs w.fits in
      (
        record { sender = record b.sender { txqueue = r }; buf = w.bytes; next = 0 },
        rw (none_left, whole) refl,
        record {
          messages = [];
          bytes = [];
          valid = good;
          held = left;
          packs = nothing;
          fits = omega arith;
          all =
              append-nil w.bytes
              ∙ ap (λ u. u ++ w.bytes) (sym (no_byte (txbuf_rest b) none_left))
              ∙ w.all;
        },
      )
]

drop_none : (n : ℕ) → drop {A = ℕ} n [] ≡ []
drop_none zero = refl
drop_none (suc n) = refl

drop_front : (v w : List ℕ) → drop (length v) (v ++ w) ≡ w
drop_front [] w = refl
drop_front (x ∷ v) w =
    ap (λ k. drop k (x ∷ (v ++ w))) {x = length (x ∷ v)} {y = suc (length v)} (omega arith)
    ∙ drop_front v w

drop-length : (n : ℕ) (buf v w : List ℕ) → v ++ w ≡ drop n buf → drop (n + length v) buf ≡ w
drop-length zero buf v w e =
    ap (λ n. drop n buf) {x = 0 + length v} {y = length v} (omega arith)
    ∙ ap (λ u. drop (length v) u) (sym e)
    ∙ drop_front v w
drop-length (suc n) [] [] w e = drop_none (suc n + 0) ∙ sym e
drop-length (suc n) [] (x ∷ v) w e = absurd (omega (arith, ap (λ (u : List ℕ). length u) e))
drop-length (suc n) (x ∷ buf) v w e =
    ap (λ k. drop k (x ∷ buf)) {x = suc n + length v} {y = suc (n + length v)} (omega arith)
    ∙ drop-length n buf v w e

-- Sending the front of the buffer.
sent-Waits :
    (b : Outbox) (todo sent left : List ℕ)
    → Waits b todo
    → sent ++ left ≡ txbuf_rest b
    → (rest : List ℕ) × (sent ++ rest ≡ todo)
      × Waits (record b { next = b.next + length sent }) rest
sent-Waits b todo sent left w e = (
  left ++ w.bytes,
  sym (append_assoc sent left w.bytes) ∙ ap (λ u. u ++ w.bytes) e ∙ w.all,
  record {
    messages = w.messages;
    bytes = w.bytes;
    valid = w.valid;
    held = w.held;
    packs = w.packs;
    fits = w.fits;
    all = ap (λ u. u ++ w.bytes) (drop-length b.next b.buf sent left e);
  },
)

-- What was sent and what waits make up `whole`.
abbrev pub Lossless : List ℕ → Written → Type 0
Lossless whole out = (rest : List ℕ) × (out.sent ++ rest ≡ whole) × Waits out.outbox rest

Lossless-along : {u v : List ℕ} (out : Written) → u ≡ v → Lossless u out → Lossless v out
Lossless-along out e (rest, whole, w) = (rest, whole ∙ e, w)

write_loop_lem :
    (k : ℕ) (b : Outbox) (q : EventQueue) (s : List Room) (old todo : List ℕ)
    → AllWell s
    → Waits b todo
    → Returns (λ out. Lossless (old ++ todo) out × (out.queue ≡ q)) (write_loop k b q s old)
unfolding write_loop
write_loop_lem zero b q s old todo well w = ((todo, refl, w), refl)
write_loop_lem (suc k) b q s old todo well w =
    let (b', refilled, w') = refill-Waits b todo w in
    let r = net_tcp_send s (txbuf_rest b') in
    let (left, e) = net_tcp_send_lem s (txbuf_rest b') in
    let (succeeds, good, fewer) = net_tcp_send-Goes s (txbuf_rest b') well in
    let (rest, whole, w2) = sent-Waits b' todo r.sent left w' e in
    let again =
      write_loop_lem k (record b' { next = b'.next + length r.sent }) q r.later (old ++ r.sent) rest
        good w2 in
    rw refilled (
      if_both P (not r.succeeds) _ _ (λ fails. absurd (ground arith))
        (λ on.
          if_both P (length r.sent == 0) _ _ (λ none_sent. ((todo, refl, w'), refl))
            (λ some_sent.
              Returns-mono (Q (old ++ r.sent ++ rest)) (Q (old ++ todo)) _
                (λ out. λ (l, kept). (
                  Lossless-along out (append_assoc old r.sent rest ∙ ap (λ u. old ++ u) whole) l,
                  kept,
                ))
                again)))
  where
    Q : List ℕ → Written → Type 0
    Q u out = Lossless u out × (out.queue ≡ q)

    P : Outcome Written → Type 0
    P = Returns (Q (old ++ todo))

-- Let `on_write` be called for a connected peer whose queue of messages is well formed, with messages
-- that can be packed and fit into a buffer together, and let no answer of the socket be an error.
-- Then it returns: what it sent, what is left of the buffer and the messages still in the queue are,
-- in this order, the bytes that waited before, and no event is pushed.
pub on_write_lem :
    (has_error : Bool) (id : ℕ) (b : Outbox) (q : EventQueue) (s : List Room) (todo : List ℕ)
    → b.sender.connected ≡ true
    → AllWell s
    → Waits b todo
    → Returns (λ out. Lossless todo out × (out.queue ≡ q)) (on_write has_error id b q s)
unfolding on_write
on_write_lem has_error id b q s todo there well w =
    if_both (Returns (λ out. Lossless todo out × (out.queue ≡ q))) (not b.sender.connected) _ _
      (λ away. absurd (ground arith)) (λ here. write_loop_lem (suc (length s)) b q s [] todo well w)
