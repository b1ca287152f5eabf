-- ===== src/Tracker/Udp/Exchange.antt =====
-- src/tracker_udp.c with a tracker that follows the protocol.
use libctorrent.Prelude.{
  ℕ, zero, suc, ◌+◌, ◌-◌, ◌*◌, ◌/◌, ◌^◌, ◌≤◌, ◌<◌, ◌≡◌, refl, ap, sym, ◌∙◌, true, false, List, [],
  ◌∷◌, ◌++◌, ltb, ◌==◌, length, take, drop, arith,
}
use libctorrent.Prelude.Outcome.{ok, ◌>>=◌}
use libctorrent.Wire.{put_u16be, put_u32be, put_u64be, get_u16be, get_u32be}
use libctorrent.Wire.Laws.{get_u16be-put_u16be, get_u32be-put_u32be, get_u64be-put_u64be}
use libctorrent.Tracker.Udp.{
  PeerAddr, entry_of, TrackerRequest, ConnectResponse, pack_connect, pack_announce, unpack_connect,
  unpack_announce, peers_loop, unpack_peers, datagram, Link, buf_size, tracker_connect,
  tracker_announce, connected_by, announced_by, first_request, second_request, udp_request,
}

-- What the protocol lays down for the answers: the header, and six bytes for a peer.
abbrev pub entries : List PeerAddr → List ℕ
entries [] = []
entries (p ∷ v) = put_u32be p.ipv4 ++ (put_u16be p.port ++ entries v)

abbrev pub connect_answer : ℕ → ℕ → List ℕ
connect_answer tid cid = put_u32be 0 ++ (put_u32be tid ++ (put_u64be cid ++ []))

abbrev pub announce_answer : ℕ → ℕ → ℕ → ℕ → List PeerAddr → List ℕ
announce_answer tid interval leechers seeders v =
    put_u32be 1
    ++ (put_u32be tid
        ++ (put_u32be interval ++ (put_u32be leechers ++ (put_u32be seeders ++ entries v))))

-- Addresses that fit into their bytes.
abbrev pub Fits : List PeerAddr → Type 0
Fits [] = Unit {0}
Fits (p ∷ v) = (p.ipv4 < 2 ^ 32) × (p.port < 2 ^ 16) × Fits v

take_whole : (n : ℕ) (v : List ℕ) → length v ≤ n → take n v ≡ v
take_whole zero [] h = refl
take_whole zero (x ∷ v) h = absurd (omega arith)
take_whole (suc n) [] h = refl
take_whole (suc n) (x ∷ v) h = ap (λ u. x ∷ u) (take_whole n v (omega arith))

length-entries : (v : List PeerAddr) → length (entries v) ≡ 6 * length v
unfolding put_u32be put_u16be
length-entries [] = refl
length-entries (p ∷ v) = omega (arith, length-entries v)

-- An entry that is in front.
entry_at_front :
    (p : PeerAddr) (v : List PeerAddr) (stale : List ℕ)
    → p.ipv4 < 2 ^ 32
    → p.port < 2 ^ 16
    → (get_u32be (entries (p ∷ v) ++ stale) ≡ p.ipv4)
      × (get_u16be (drop 4 (entries (p ∷ v) ++ stale)) ≡ p.port)
      × (drop 6 (entries (p ∷ v) ++ stale) ≡ entries v ++ stale)
unfolding put_u32be put_u16be
entry_at_front p v stale ip port = (
  get_u32be-put_u32be p.ipv4 ((put_u16be p.port ++ entries v) ++ stale) ip,
  get_u16be-put_u16be p.port (entries v ++ stale) port,
  refl,
)

-- A turn of the loop.
pub peers_loop-turn :
    (k : ℕ) (buf : List ℕ) (len room : ℕ)
    → 20 < len
    → 6 ≤ room
    → peers_loop (suc k) buf len room
      ≡ (peers_loop k (drop 6 buf) (len - 6) (room - 6) >>= λ v. ok (entry_of buf ∷ v))
unfolding peers_loop
peers_loop-turn k buf len room more inside =
    let go_on : ltb 20 len ≡ true = ground arith in
    let roomy : ltb room 6 ≡ false = ground arith in rw (go_on, roomy) refl

peers_loop_lem :
    (v : List PeerAddr) (k len room : ℕ) (stale : List ℕ)
    → Fits v
    → len ≡ 20 + 6 * length v
    → length v ≤ k
    → 6 * length v ≤ room
    → peers_loop (suc k) (entries v ++ stale) len room ≡ ok v
unfolding peers_loop
peers_loop_lem [] k len room stale fits e enough inside =
    let done : ltb 20 len ≡ false = ground arith in rw done refl
peers_loop_lem (p ∷ v) zero len room stale fits e enough inside = absurd (omega arith)
peers_loop_lem (p ∷ v) (suc k) len room stale (ip, port, fits) e enough inside =
    let (first, second, rest) = entry_at_front p v stale ip port in
    peers_loop-turn (suc k) (entries (p ∷ v) ++ stale) len room (omega arith) (omega arith)
    ∙ rw
        (
          first,
          second,
          rest,
          peers_loop_lem v k (len - 6) (room - 6) stale fits (omega arith) (omega arith)
              (omega arith),
        )
        refl

-- The headers.
connected_lem :
    (stale : List ℕ) (req : TrackerRequest) (cid : ℕ)
    → req.transaction_id < 2 ^ 32
    → cid < 2 ^ 64
    → connected_by stale (first_request req) (datagram (connect_answer req.transaction_id cid))
      ≡ ok (record { action = 0; transaction_id = req.transaction_id; connection_id = cid })
unfolding put_u32be put_u64be unpack_connect
connected_lem stale req cid t c =
    let action =
      get_u32be-put_u32be 0 (put_u32be req.transaction_id ++ (put_u64be cid ++ stale))
        (omega arith) in
    let tid = get_u32be-put_u32be req.transaction_id (put_u64be cid ++ stale) t in
    let id = get_u64be-put_u64be cid stale c in
    let same : (req.transaction_id == req.transaction_id) ≡ true = ground arith in
    rw (action, tid, id, same) refl

length-announce_answer :
    (tid interval leechers seeders : ℕ) (v : List PeerAddr)
    → length (announce_answer tid interval leechers seeders v) ≡ 20 + 6 * length v
unfolding put_u32be
length-announce_answer tid interval leechers seeders v = omega (arith, length-entries v)

header :
    (stale : List ℕ) (tid interval leechers seeders : ℕ) (v : List PeerAddr)
    → tid < 2 ^ 32
    → let buf = announce_answer tid interval leechers seeders v ++ stale in
      (get_u32be buf ≡ 1) × (get_u32be (drop 4 buf) ≡ tid) × (drop 20 buf ≡ entries v ++ stale)
unfolding put_u32be
header stale tid interval leechers seeders v t = (
  get_u32be-put_u32be 1
      ((put_u32be tid
          ++ (put_u32be interval ++ (put_u32be leechers ++ (put_u32be seeders ++ entries v))))
        ++ stale)
      (omega arith),
  get_u32be-put_u32be tid
      ((put_u32be interval ++ (put_u32be leechers ++ (put_u32be seeders ++ entries v))) ++ stale) t,
  refl,
)

announced_lem :
    (stale : List ℕ) (req : TrackerRequest) (resp : ConnectResponse) (interval leechers seeders : ℕ)
    (v : List PeerAddr)
    → req.transaction_id < 2 ^ 32
    → Fits v
    → length v ≤ 39
    → announced_by stale
        (second_request req resp)
        (datagram (announce_answer req.transaction_id interval leechers seeders v))
      ≡ ok (length v, v)
unfolding unpack_announce unpack_peers
announced_lem stale req resp interval leechers seeders v t fits few =
    let tid = req.transaction_id in
    let bytes = announce_answer tid interval leechers seeders v in
    let size = length-announce_answer tid interval leechers seeders v in
    let whole : take buf_size bytes ≡ bytes = take_whole buf_size bytes (omega arith) in
    let long : ltb (length bytes) 20 ≡ false = ground arith in
    let (action, id, rest) = header stale tid interval leechers seeders v t in
    let same : (tid == tid) ≡ true = ground arith in
    let loop =
      peers_loop_lem v (length bytes - 1) (length bytes) (buf_size - 20) stale fits size
        (omega arith) (omega arith) in
    let turns : suc (length bytes - 1) ≡ length bytes = omega arith in
    let count : (length bytes - 20) / 6 ≡ length v = omega arith in
    rw
      (
        whole,
        long,
        id,
        same,
        action,
        rest,
        ap (λ k. peers_loop k (entries v ++ stale) (length bytes) (buf_size - 20)) (sym turns)
            ∙ loop,
        count,
      )
      refl

-- The link works, and at its end a tracker answers both requests as the protocol lays down.
pub record Serves (link : Link) (req : TrackerRequest) (cid : ℕ) (v : List PeerAddr) : Type 0 where
  pub sends : (bytes : List ℕ) → link.can_send bytes ≡ true
  pub waits : link.can_wait ≡ true
  pub interval : ℕ
  pub leechers : ℕ
  pub seeders : ℕ
  pub connects :
      link.answer (pack_connect (first_request req))
      ≡ datagram (connect_answer req.transaction_id cid)
  pub announces :
      link.answer (
        pack_announce (
          second_request req
            (record { action = 0; transaction_id = req.transaction_id; connection_id = cid })))
      ≡ datagram (announce_answer req.transaction_id interval leechers seeders v)

-- When a tracker answers as the protocol lays down, with at most 39 peers, `udp_request` returns
-- exactly these peers, in order, and their number, whatever the buffer held before. The peers that the
-- tracker sends count, not the number that was asked for.
pub udp_request_lem :
    (stale : List ℕ) (link : Link) (req : TrackerRequest) (cid : ℕ) (v : List PeerAddr)
    → Serves link req cid v
    → req.transaction_id < 2 ^ 32
    → cid < 2 ^ 64
    → Fits v
    → length v ≤ 39
    → udp_request stale link req ≡ ok (length v, v)
unfolding udp_request tracker_connect tracker_announce
udp_request_lem stale link req cid v server t c fits few =
    let resp : ConnectResponse = record {
      action = 0;
      transaction_id = req.transaction_id;
      connection_id = cid;
    } in
    rw
      (
        server.sends (pack_connect (first_request req)),
        server.waits,
        server.connects,
        connected_lem stale req cid t c,
        server.sends (pack_announce (second_request req resp)),
        server.announces,
        announced_lem stale req resp server.interval server.leechers server.seeders v t fits few,
      )
      refl
