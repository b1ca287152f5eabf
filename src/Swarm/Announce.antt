-- ===== src/Swarm/Announce.antt =====
-- What the peers are told: `bt_markinterest` and `bt_torrent_announce_have` of src/torrent.c.
use libctorrent.Prelude.{
  ℕ, zero, suc, ◌+◌, ◌≤◌, ◌<◌, ◌≡◌, refl, sym, ◌∙◌, Bool, true, false, not, ◌&&◌, List, [], ◌∷◌,
  ◌++◌, append-nil, if◌then◌else◌, arith, ◌≢◌, Bool-cases, inl, inr,
}
use native.Mathlib.Decide.{ℕ_discrete}
use libctorrent.Prelude.Outcome.{Outcome, ok, Returns, Returns-bind}
use libctorrent.Message.{Msg, fixed, have, msg_new, m_interested, m_not_interested}
use libctorrent.Peer.{Peer, bt_peer_interested, bt_peer_notinterested, bt_peer_have}
use libctorrent.Peer.Laws.{queued, same, HasRoom, announce_lem, queue_push_lem}
use libctorrent.Torrent.{Torrent}
use libctorrent.Ring.{Ring}
use libctorrent.Swarm.{
  each_peer, mark_peer, announce_peer, bt_markinterest, bt_torrent_announce_have, interest_loop,
  bt_torrent_has_piece, bt_peer_haspiece,
}

-- The loop over the peers, peer by peer.
abbrev pub AllPairs : (Peer → Peer → Type 0) → List Peer → List Peer → Type 0
AllPairs R [] [] = Unit {0}
AllPairs R (p ∷ v) (q ∷ u) = R p q × AllPairs R v u
AllPairs R _ _ = ⊥

abbrev pub AllRoom : List Peer → Type 0
AllRoom [] = Unit {0}
AllRoom (p ∷ v) = HasRoom p × AllRoom v

each_peer-AllPairs :
    (R : Peer → Peer → Type 0) (f : Peer → Outcome Peer) (v : List Peer)
    → ((p : Peer) → HasRoom p → Returns (R p) (f p))
    → AllRoom v
    → Returns (AllPairs R v) (each_peer f v)
each_peer-AllPairs R f [] h room = tt
each_peer-AllPairs R f (p ∷ v) h (room, rooms) =
    Returns-bind (R p) (AllPairs R (p ∷ v)) (f p) _ (h p room) (λ q told.
      Returns-bind (AllPairs R v) (AllPairs R (p ∷ v)) (each_peer f v) (λ u. ok (q ∷ u))
        (each_peer-AllPairs R f v h rooms) (λ u rest. (told, rest)))

-- The client lacks piece `j`, and the peer has it.
abbrev pub Wanted : Torrent → Peer → ℕ → Type 0
Wanted t p j = (bt_torrent_has_piece t j ≡ false) × (bt_peer_haspiece p j ≡ true)

-- The flag says whether the peer has a piece that the client lacks, one of the `k` from piece `i` on.
abbrev pub Interest : Torrent → Peer → ℕ → ℕ → Bool → Type 0
Interest t p k i true = (j : ℕ) × (i ≤ j) × (j < i + k) × Wanted t p j
Interest t p k i false = (j : ℕ) → i ≤ j → j < i + k → Wanted t p j → ⊥

later :
    (t : Torrent) (p : Peer) (k i : ℕ) (b : Bool)
    → (Wanted t p i → ⊥)
    → Interest t p k (i + 1) b
    → Interest t p (suc k) i b
later t p k i true unwanted (j, above, below, wanted) = (j, omega arith, omega arith, wanted)
later t p k i false unwanted h = λ j above below wanted. elim (ℕ_discrete j i) [
  | yes same ↦ unwanted (rw (sym same) wanted)
  | no other ↦ h j (omega arith) (omega arith) wanted
]

true-false : true ≢ false
true-false e = cc

interest_loop-Interest :
    (t : Torrent) (p : Peer) (k i : ℕ) → Interest t p k i (interest_loop k i t p)
unfolding interest_loop
interest_loop-Interest t p zero i = λ j above below wanted. absurd (omega arith)
interest_loop-Interest t p (suc k) i = elim (Bool-cases (bt_torrent_has_piece t i)) [
  | inl here ↦ rw here (
      later t p k i (interest_loop k (i + 1) t p)
        (λ (lacking, wanted). true-false (sym here ∙ lacking))
        (interest_loop-Interest t p k (i + 1)))
  | inr lacking ↦ elim (Bool-cases (bt_peer_haspiece p i)) [
    | inl has ↦ rw (lacking, has, Interest) (i, omega arith, omega arith, (lacking, has))
    | inr without ↦
        rw (lacking, without)
          (later t p k i (interest_loop k (i + 1) t p)
            (λ (lacking, wanted). true-false (sym wanted ∙ without))
            (interest_loop-Interest t p k (i + 1)))
  ]
]

-- The message that tells of a change of the client's interest.
abbrev pub news : Bool → Bool → List Msg
news true true = []
news false false = []
news false true = fixed m_interested ∷ []
news true false = fixed m_not_interested ∷ []

-- A peer that shook hands: its flag is the client's interest now, and it is told when that changed.
abbrev pub Told : Torrent → Peer → Bool → Peer → Type 0
Told t p false q = q ≡ p
Told t p true q =
    Interest t p t.npieces 0 q.am_interested
    × (queued q ≡ queued p ++ news p.am_interested q.am_interested)

Told-now :
    (t : Torrent) (p q : Peer) (want : Bool)
    → Interest t p t.npieces 0 want
    → q.am_interested ≡ want
    → queued q ≡ queued p ++ news p.am_interested want
    → Told t p true q
Told-now t p q want interest flag grown = rw flag (interest, grown)

grown_interested :
    (v u : List Msg) (b : Bool)
    → u ≡ (if same b true then v else v ++ fixed m_interested ∷ [])
    → u ≡ v ++ news b true
grown_interested v u true e = e ∙ sym (append-nil v)
grown_interested v u false e = e

grown_notinterested :
    (v u : List Msg) (b : Bool)
    → u ≡ (if same b false then v else v ++ fixed m_not_interested ∷ [])
    → u ≡ v ++ news b false
grown_notinterested v u false e = e ∙ sym (append-nil v)
grown_notinterested v u true e = e

-- A peer that shook hands and lacks the piece is sent one HAVE; any other stays as it is.
abbrev pub ToldHave : ℕ → Peer → Bool → Peer → Type 0
ToldHave i p true q =
    (r : Ring Msg) × (q ≡ record p { txqueue = r }) × (queued q ≡ queued p ++ have 5 i ∷ [])
ToldHave i p false q = q ≡ p

-- Two branches, and what each of them returns.
if_Returns :
    (R : Bool → Peer → Type 0) (b : Bool) (x y : Outcome Peer)
    → Returns (R true) x
    → Returns (R false) y
    → Returns (R b) (if b then x else y)
if_Returns R true x y h k = h
if_Returns R false x y h k = k

module _ (alloc : ℕ → Bool) where
  interest-Told :
      (t : Torrent) (p : Peer) (b : Bool)
      → HasRoom p
      → Interest t p t.npieces 0 b
      → Returns
          (Told t p true)
          (if b then bt_peer_interested alloc p else bt_peer_notinterested alloc p)
  interest-Told t p true h interest =
      let (q, e, flag, grown, again) = (announce_lem alloc p h).2 in
      rw (e, Returns)
        (Told-now t p q true interest flag
          (grown_interested (queued p) (queued q) p.am_interested grown))
  interest-Told t p false h interest =
      let (q, e, flag, grown, again) = (announce_lem alloc p h).3 in
      rw (e, Returns)
        (Told-now t p q false interest flag
          (grown_notinterested (queued p) (queued q) p.am_interested grown))

  mark_peer-Told :
      (t : Torrent) (p : Peer)
      → HasRoom p
      → Returns (Told t p p.handshake_done) (mark_peer alloc t p)
  mark_peer-Told t p h =
      if_Returns (Told t p) p.handshake_done _ (ok p)
        (interest-Told t p (interest_loop t.npieces 0 t p) h
          (interest_loop-Interest t p t.npieces 0))
        refl

  -- When every peer's queue of messages is well formed and has room, `bt_markinterest` returns.
  -- Then for every peer that shook hands the flag says whether the peer has a piece of the torrent
  -- that the client lacks, and the peer is sent one message when that changed the flag and none
  -- when it did not. The other peers stay as they are.
  pub bt_markinterest_lem :
      (t : Torrent) (v : List Peer)
      → AllRoom v
      → Returns (AllPairs (λ p q. Told t p p.handshake_done q) v) (bt_markinterest alloc t v)
  unfolding bt_markinterest
  bt_markinterest_lem t v room =
      each_peer-AllPairs (λ p q. Told t p p.handshake_done q) (mark_peer alloc t) v
        (mark_peer-Told t) room

  announce_peer-ToldHave :
      (memory : alloc 12 ≡ true) (i : ℕ) (p : Peer)
      → HasRoom p
      → Returns
          (ToldHave i p (p.handshake_done && not (bt_peer_haspiece p i)))
          (announce_peer alloc i p)
  unfolding bt_peer_have msg_new
  announce_peer-ToldHave memory i p h =
      let (r, e, grown) = queue_push_lem p (have 5 i) h in
      if_Returns (λ done. ToldHave i p (done && not (bt_peer_haspiece p i))) p.handshake_done _
        (ok p)
        (if_Returns (λ has. ToldHave i p (not has)) (bt_peer_haspiece p i) (ok p) _ refl
          (rw (memory, e, Returns) (r, refl, grown)))
        refl

  -- With memory for the messages and room in every queue, `bt_torrent_announce_have` returns, and
  -- exactly the peers that shook hands and lack the piece are sent a HAVE for it, one each, behind
  -- the messages that wait. Nothing else changes.
  pub bt_torrent_announce_have_lem :
      (i : ℕ) (v : List Peer)
      → alloc 12 ≡ true
      → AllRoom v
      → Returns
          (AllPairs (λ p q. ToldHave i p (p.handshake_done && not (bt_peer_haspiece p i)) q) v)
          (bt_torrent_announce_have alloc i v)
  unfolding bt_torrent_announce_have
  bt_torrent_announce_have_lem i v memory room =
      each_peer-AllPairs (λ p q. ToldHave i p (p.handshake_done && not (bt_peer_haspiece p i)) q)
        (announce_peer alloc i) v (announce_peer-ToldHave memory i) room
