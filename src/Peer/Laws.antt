-- ===== src/Peer/Laws.antt =====
-- The messages that the client asks a peer to be sent (src/peer.c), as a first-in first-out list.
use libctorrent.Prelude.{
  ℕ, ◌<◌, ◌≡◌, refl, Bool, true, false, List, [], ◌∷◌, ◌++◌, if◌then◌else◌, not, inl, inr, arith,
  Bool-cases,
}
use libctorrent.Prelude.Outcome.{Outcome, ok}
use libctorrent.Ring.{Ring}
use libctorrent.Ring.Laws
use libctorrent.Ring.Laws.{push_refines}
use libctorrent.Message.{Msg, fixed, msg_new, m_choke, m_unchoke, m_interested, m_not_interested}
use libctorrent.Peer.{
  Peer, txq_cap, no_msg, queue_push, bt_peer_choke, bt_peer_unchoke, bt_peer_interested,
  bt_peer_notinterested,
}

-- The messages that wait to be sent, oldest first.
abbrev pub queued : Peer → List Msg
queued p = Laws.contents txq_cap no_msg p.txqueue

-- The queue is well formed and not full.
abbrev pub HasRoom : Peer → Type 0
HasRoom p = Laws.IsValid txq_cap no_msg p.txqueue × (p.txqueue.n < txq_cap)

abbrev pub same : Bool → Bool → Bool
same true b = b
same false b = not b

-- The call sets the flag to `want` and queues message `id`, unless the flag was set so; calling it
-- again changes nothing.
abbrev pub Announces : (Peer → Outcome Peer) → (Peer → Bool) → Bool → ℕ → Peer → Type 0
Announces call flag want id p =
    (p' : Peer) × (call p ≡ ok p')
    × (flag p' ≡ want)
    × (queued p' ≡ (if same (flag p) want then queued p else queued p ++ fixed id ∷ []))
    × (call p' ≡ ok p')

pub queue_push_lem :
    (p : Peer) (m : Msg)
    → HasRoom p
    → (q : Ring Msg) × (queue_push p m ≡ ok (record p { txqueue = q }))
      × (Laws.contents txq_cap no_msg q ≡ queued p ++ m ∷ [])
unfolding queue_push
queue_push_lem p m (valid, room) = elim (push_refines txq_cap no_msg p.txqueue m valid) [
  | inl (full, e) ↦ absurd (omega arith)
  | inr (q, less, e, good, grown) ↦ (q, rw e refl, grown)
]

module _ (alloc : ℕ → Bool) where
  choke_lem :
      (p : Peer) → HasRoom p → Announces (bt_peer_choke alloc) (λ p. p.am_choking) true m_choke p
  unfolding bt_peer_choke msg_new
  choke_lem p h = elim (Bool-cases p.am_choking) [
    | inl e ↦ (p, rw e refl, e, rw e refl, rw e refl)
    | inr e ↦
        let (q, pushed, grown) =
          queue_push_lem (record p { am_choking = true }) (fixed m_choke) h in
        (record p { am_choking = true; txqueue = q }, rw e pushed, refl, rw e grown, refl)
  ]

  unchoke_lem :
      (p : Peer)
      → HasRoom p
      → Announces (bt_peer_unchoke alloc) (λ p. p.am_choking) false m_unchoke p
  unfolding bt_peer_unchoke msg_new
  unchoke_lem p h = elim (Bool-cases p.am_choking) [
    | inl e ↦
        let (q, pushed, grown) =
          queue_push_lem (record p { am_choking = false }) (fixed m_unchoke) h in
        (record p { am_choking = false; txqueue = q }, rw e pushed, refl, rw e grown, refl)
    | inr e ↦ (p, rw e refl, e, rw e refl, rw e refl)
  ]

  interested_lem :
      (p : Peer)
      → HasRoom p
      → Announces (bt_peer_interested alloc) (λ p. p.am_interested) true m_interested p
  unfolding bt_peer_interested msg_new
  interested_lem p h = elim (Bool-cases p.am_interested) [
    | inl e ↦ (p, rw e refl, e, rw e refl, rw e refl)
    | inr e ↦
        let (q, pushed, grown) =
          queue_push_lem (record p { am_interested = true }) (fixed m_interested) h in
        (record p { am_interested = true; txqueue = q }, rw e pushed, refl, rw e grown, refl)
  ]

  notinterested_lem :
      (p : Peer)
      → HasRoom p
      → Announces (bt_peer_notinterested alloc) (λ p. p.am_interested) false m_not_interested p
  unfolding bt_peer_notinterested msg_new
  notinterested_lem p h = elim (Bool-cases p.am_interested) [
    | inl e ↦
        let (q, pushed, grown) =
          queue_push_lem (record p { am_interested = false }) (fixed m_not_interested) h in
        (record p { am_interested = false; txqueue = q }, rw e pushed, refl, rw e grown, refl)
    | inr e ↦ (p, rw e refl, e, rw e refl, rw e refl)
  ]

-- Each of `bt_peer_choke`, `bt_peer_unchoke`, `bt_peer_interested` and `bt_peer_notinterested` on a
-- peer whose queue is well formed and has room sets the client's flag, appends its message to those
-- that wait if the flag was not set so before, and appends nothing when it is called again.
pub announce_lem :
    (alloc : ℕ → Bool) (p : Peer)
    → HasRoom p
    → Announces (bt_peer_choke alloc) (λ p. p.am_choking) true m_choke p
      × Announces (bt_peer_unchoke alloc) (λ p. p.am_choking) false m_unchoke p
      × Announces (bt_peer_interested alloc) (λ p. p.am_interested) true m_interested p
      × Announces (bt_peer_notinterested alloc) (λ p. p.am_interested) false m_not_interested p
announce_lem alloc p h = (
  choke_lem alloc p h,
  unchoke_lem alloc p h,
  interested_lem alloc p h,
  notinterested_lem alloc p h,
)
