-- ===== src/Peer/Send/Whole.antt =====
-- What `txqueue_messages` of src/peer.c packs and what it leaves in the queue of messages.
use libctorrent.Prelude.{
  ℕ, suc, ◌+◌, ◌-◌, ◌≤◌, ◌<◌, ◌≡◌, refl, ap, sym, ◌∙◌, true, false, none, some, List, [], ◌∷◌, ◌++◌,
  append-nil, append_assoc, ltb, ◌==◌, ◌||◌, length, length-append, take, arith, inl, inr, ap₂,
}
use libctorrent.Prelude.Outcome.{Outcome, ok, Returns}
use libctorrent.Ring.{Ring}
use libctorrent.Ring.Laws
use libctorrent.Ring.Laws.{pop_refines}
use libctorrent.Message.{Msg, msg_id, msg_len, msg_pack, m_piece, m_bitfield}
use libctorrent.Peer.{Peer, txq_cap, no_msg, queue_pop}
use libctorrent.Peer.Laws.{queued, queue_push_lem}
use libctorrent.Peer.Send.{txbuf_size, Refill, pack_into, txqueue_loop, txqueue_messages}

-- A message that can be packed, and its bytes.
abbrev pub Packs : Msg → List ℕ → Type 0
Packs m bytes =
    ((msg_id m == m_piece || msg_id m == m_bitfield) ≡ false)
    × (msg_pack m ≡ ok bytes)
    × (length bytes ≡ msg_len m)

-- Messages one after another.
pub data PacksAll : List Msg → List ℕ → Type 0 where
  nothing : PacksAll [] []
  first :
      {m : Msg} {v : List Msg} (bytes rest : List ℕ)
      → Packs m bytes
      → PacksAll v rest
      → PacksAll (m ∷ v) (bytes ++ rest)

-- The front of the queue.
queue_pop_lem :
    (p : Peer) (m : Msg) (v : List Msg)
    → Laws.IsValid txq_cap no_msg p.txqueue
    → queued p ≡ m ∷ v
    → (r : Ring Msg) × (queue_pop p ≡ ok (m, record p { txqueue = r }))
      × Laws.IsValid txq_cap no_msg r
      × (Laws.contents txq_cap no_msg r ≡ v)
unfolding queue_pop
queue_pop_lem p m v valid e = elim (pop_refines txq_cap no_msg p.txqueue valid) [
  | inl (empty, refused) ↦ absurd cc
  | inr (x, r, popped, good, kept) ↦
      let whole : x ∷ Laws.contents txq_cap no_msg r ≡ m ∷ v = sym kept ∙ e in
      let same : x ≡ m = cc in
      let rest : Laws.contents txq_cap no_msg r ≡ v = cc in (r, rw (popped, same) refl, good, rest)
]

take_all : (v : List ℕ) → take (length v) v ≡ v
take_all [] = refl
take_all (x ∷ v) = ap (λ u. x ∷ u) (take_all v)

-- A message that fits is packed.
pack_into_lem :
    (p : Peer) (acc : List ℕ) (m : Msg) (bytes : List ℕ) (again : List ℕ → Outcome Refill)
    → Packs m bytes
    → length acc + length bytes ≤ txbuf_size
    → pack_into p acc m again ≡ again (acc ++ bytes)
pack_into_lem p acc m bytes again (kind, packed, size) fits =
    let enough : ltb (txbuf_size - length acc) (msg_len m) ≡ false = ground arith in
    rw (kind, enough, packed)
      (ap (λ b. again (acc ++ b)) (ap (λ n. take n bytes) (sym size) ∙ take_all bytes))

-- The messages in front are packed, one turn each.
txqueue_loop_lem :
    {v : List Msg} {bytes : List ℕ} (k : ℕ) (p : Peer) (acc : List ℕ) (u : List Msg)
    → PacksAll v bytes
    → Laws.IsValid txq_cap no_msg p.txqueue
    → queued p ≡ v ++ u
    → length acc + length bytes ≤ txbuf_size
    → (r : Ring Msg) × (txqueue_loop (length v + k) p acc
        ≡ txqueue_loop k (record p { txqueue = r }) (acc ++ bytes))
      × Laws.IsValid txq_cap no_msg r
      × (Laws.contents txq_cap no_msg r ≡ u)
unfolding txqueue_loop
txqueue_loop_lem k p acc u nothing valid e fits =
    let turns : 0 + k ≡ k = omega arith in
    (p.txqueue, ap₂ (λ n a. txqueue_loop n p a) turns (sym (append-nil acc)), valid, e)
txqueue_loop_lem {v = m ∷ v} k p acc u (first bytes rest one more) valid e fits =
    let total = length-append bytes rest in
    let (r, popped, good, left) = queue_pop_lem p m (v ++ u) valid e in
    let (r', step, good', left') =
      txqueue_loop_lem k (record p { txqueue = r }) (acc ++ bytes) u more good left
        (omega (arith, length-append acc bytes, total, fits)) in
    let turns : length (m ∷ v) + k ≡ suc (length v + k) = omega arith in
    (
      r',
      ap (λ n. txqueue_loop n p acc) turns
          ∙ rw popped (
              pack_into_lem (record p { txqueue = r }) acc m bytes
                (λ acc'. txqueue_loop (length v + k) (record p { txqueue = r }) acc') one
                (omega (arith, total, fits)))
          ∙ step
          ∙ ap (λ a. txqueue_loop k (record p { txqueue = r' }) a) (append_assoc acc bytes rest),
      good',
      left',
    )

queued-length : (p : Peer) → length (queued p) ≡ p.txqueue.n
queued-length p = Laws.length-window txq_cap no_msg p.txqueue.slots p.txqueue.qhead p.txqueue.n

-- The message that does not fit.
put_back_lem :
    (k : ℕ) (p : Peer) (acc : List ℕ) (m : Msg) (u : List Msg)
    → Laws.IsValid txq_cap no_msg p.txqueue
    → queued p ≡ m ∷ u
    → (msg_id m == m_piece || msg_id m == m_bitfield) ≡ false
    → length acc ≤ txbuf_size
    → txbuf_size < length acc + msg_len m
    → Returns
        (λ r. (r.filled ≡ none) × (queued r.sender ≡ u ++ m ∷ []))
        (txqueue_loop (suc k) p acc)
unfolding txqueue_loop
put_back_lem k p acc m u valid e kind fits over =
    let (r, popped, good, left) = queue_pop_lem p m u valid e in
    let before : length (queued p) ≡ suc (length u) = ap (λ (v : List Msg). length v) e in
    let after : length (Laws.contents txq_cap no_msg r) ≡ length u =
      ap (λ (v : List Msg). length v) left in
    let size = Laws.length-window txq_cap no_msg r.slots r.qhead r.n in
    let fewer : r.n < txq_cap =
      omega (arith, queued-length p, before, after, size, valid.bounded) in
    let (q, pushed, grown) = queue_push_lem (record p { txqueue = r }) m (good, fewer) in
    let large : ltb (txbuf_size - length acc) (msg_len m) ≡ true = ground arith in
    rw (popped, kind, large, pushed, Returns) (refl, grown ∙ ap (λ v. v ++ m ∷ []) left)

-- What is left of the queue is well formed and empty.
pub txqueue_messages_all :
    {v : List Msg} {bytes : List ℕ} (p : Peer)
    → Laws.IsValid txq_cap no_msg p.txqueue
    → queued p ≡ v
    → PacksAll v bytes
    → length bytes ≤ txbuf_size
    → (r : Ring Msg) × (txqueue_messages p
        ≡ ok (record { filled = some bytes; sender = record p { txqueue = r } }))
      × Laws.IsValid txq_cap no_msg r
      × (Laws.contents txq_cap no_msg r ≡ [])
unfolding txqueue_messages txqueue_loop
txqueue_messages_all {v = v} {bytes = bytes} p valid e all fits =
    let (r, step, good, left) =
      txqueue_loop_lem 0 p [] [] all valid (e ∙ sym (append-nil v)) (omega arith) in
    let turns : p.txqueue.n ≡ length v + 0 =
      omega (arith, queued-length p, ap (λ (u : List Msg). length u) e) in
    (r, ap (λ n. txqueue_loop n p []) turns ∙ step, good, left)

-- Let the queue of messages be well formed, and let all the messages that wait be such that they can
-- be packed and fit into the buffer together. Then `txqueue_messages` fills it with their bytes in
-- order, and none waits any longer.
pub txqueue_messages_lem :
    {v : List Msg} {bytes : List ℕ} (p : Peer)
    → Laws.IsValid txq_cap no_msg p.txqueue
    → queued p ≡ v
    → PacksAll v bytes
    → length bytes ≤ txbuf_size
    → Returns (λ r. (r.filled ≡ some bytes) × (queued r.sender ≡ [])) (txqueue_messages p)
txqueue_messages_lem p valid e all fits =
    let (r, whole, good, left) = txqueue_messages_all p valid e all fits in
    rw (whole, Returns) (refl, left)

-- Let the queue of messages be well formed. When the messages in front can be packed and fit into the
-- buffer, and the next one does not fit behind them, `txqueue_messages` reports an empty buffer, so
-- that the bytes of those in front are lost; that message then waits behind all the others.
pub txqueue_messages_lost :
    {v : List Msg} {bytes : List ℕ} (p : Peer) (m : Msg) (u : List Msg)
    → Laws.IsValid txq_cap no_msg p.txqueue
    → queued p ≡ v ++ m ∷ u
    → PacksAll v bytes
    → length bytes ≤ txbuf_size
    → (msg_id m == m_piece || msg_id m == m_bitfield) ≡ false
    → txbuf_size < length bytes + msg_len m
    → Returns (λ r. (r.filled ≡ none) × (queued r.sender ≡ u ++ m ∷ [])) (txqueue_messages p)
unfolding txqueue_messages
txqueue_messages_lost {v = v} {bytes = bytes} p m u valid e all fits kind over =
    let (r, step, good, left) =
      txqueue_loop_lem (suc (length u)) p [] (m ∷ u) all valid e (omega arith) in
    let turns : p.txqueue.n ≡ length v + suc (length u) =
      omega (arith, queued-length p, ap (λ (w : List Msg). length w) e, length-append v (m ∷ u)) in
    let whole = ap (λ n. txqueue_loop n p []) turns ∙ step in
    rw whole (put_back_lem (length u) (record p { txqueue = r }) bytes m u good left kind fits over)
