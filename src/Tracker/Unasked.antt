-- ===== src/Tracker/Unasked.antt =====
-- A tracker that sends more peers than were asked for: src/torrent.c, src/tracker.c and
-- src/tracker_udp.c together.
use libctorrent.Prelude.{
  ℕ, ◌^◌, ◌≤◌, ◌<◌, ◌≡◌, refl, ap, ◌∙◌, true, List, [], ◌∷◌, ◌++◌, length, arith,
}
use libctorrent.Prelude.Outcome.{ok, aborted}
use libctorrent.Bcode.Encode.{decimal}
use libctorrent.Tracker.{get_proto, at_host, request_by, udp, generate_peer_id, bt_tracker_request}
use libctorrent.Tracker.Url.{NoColon, NoDigit, get_domain_port_lem}
use libctorrent.Tracker.Udp.{
  PeerAddr, TrackerRequest, Host, first_open, udp_request, bt_tracker_udp_request,
}
use libctorrent.Tracker.Udp.Exchange.{Serves, Fits, udp_request_lem}
use libctorrent.Tracker.Collect.{
  first_want, bt_torrent_tracker_request, bt_torrent_tracker_request_overflow,
}

-- udp://domain:port, and more.
abbrev pub udp_url : List ℕ → ℕ → List ℕ → List ℕ
udp_url domain port rest =
    (117 ∷ 100 ∷ 112 ∷ []) ++ 58 ∷ 47 ∷ 47 ∷ (domain ++ 58 ∷ (decimal port ++ rest))

-- The name is found, and sockets open and connect.
pub record IsUp (host : Host) : Type 0 where
  pub found : host.is_found ≡ true
  pub opened : first_open host.opens ≡ true
  pub again : host.opens_again ≡ true
  pub connected : host.connects ≡ true

reached :
    (stale : List ℕ) (host : Host) (req : TrackerRequest)
    → IsUp host
    → bt_tracker_udp_request stale host req ≡ udp_request stale host.link req
unfolding bt_tracker_udp_request
reached stale host req up = rw (up.found, up.opened, up.again, up.connected) refl

udp_url-proto :
    (domain : List ℕ) (port : ℕ) (rest : List ℕ) → get_proto (udp_url domain port rest) ≡ udp
unfolding get_proto
udp_url-proto domain port rest = refl

-- Asking such a tracker.
answers :
    (stale : List ℕ) (hosts : List ℕ → ℕ → Host) (rand : ℕ → ℕ) (port : ℕ) (domain rest : List ℕ)
    (req : TrackerRequest) (v : List PeerAddr) (cid : ℕ)
    → NoColon domain
    → 0 < length domain
    → length domain < 64
    → port < 2 ^ 16
    → NoDigit rest
    → IsUp (hosts domain port)
    → Serves (hosts domain port).link (record req { peer_id = generate_peer_id rand }) cid v
    → req.transaction_id < 2 ^ 32
    → cid < 2 ^ 64
    → Fits v
    → length v ≤ 39
    → bt_tracker_request stale hosts rand (udp_url domain port rest) req ≡ ok (length v, v)
unfolding bt_tracker_request
answers stale hosts rand port domain rest req v cid no_colon some_domain short small end up server t
      c fits few =
    let url = udp_url domain port rest in
    let asked = record req { peer_id = generate_peer_id rand } in
    let parsed =
      get_domain_port_lem (117 ∷ 100 ∷ 112 ∷ []) domain rest port
        (omega arith, (omega arith, (omega arith, tt))) (omega arith) no_colon some_domain short
        small end in
    ap (λ m. at_host stale hosts rand url req m) parsed
    ∙ ap (λ p. request_by stale hosts rand p domain port asked) (udp_url-proto domain port rest)
    ∙ reached stale (hosts domain port) asked up
    ∙ udp_request_lem stale (hosts domain port).link asked cid v server t c fits few

-- Let the first tracker have a UDP URL of a domain of less than 64 characters, be reached, and answer
-- as the protocol lays down, with at most 39 peers but more than the client asks for. Then
-- `bt_torrent_tracker_request`, which asks it over `bt_tracker_request`, writes behind its table.
pub bt_torrent_tracker_request_unasked :
    (stale : List ℕ) (hosts : List ℕ → ℕ → Host) (rand : ℕ → ℕ) (left own_port npeer cid port : ℕ)
    (info_hash domain rest : List ℕ) (more : List (List ℕ)) (addrtab v : List PeerAddr)
    → NoColon domain
    → 0 < length domain
    → length domain < 64
    → port < 2 ^ 16
    → NoDigit rest
    → IsUp (hosts domain port)
    → Serves
        (hosts domain port).link
        (record (first_want left own_port info_hash npeer) { peer_id = generate_peer_id rand })
        cid
        v
    → cid < 2 ^ 64
    → Fits v
    → length v ≤ 39
    → 0 < npeer
    → npeer < length v
    → bt_torrent_tracker_request
        (bt_tracker_request stale hosts rand)
        npeer
        left
        own_port
        info_hash
        (udp_url domain port rest ∷ more)
        addrtab
      ≡ aborted
bt_torrent_tracker_request_unasked stale hosts rand left own_port npeer cid port info_hash domain
      rest more addrtab v no_colon some_domain short small end up server c fits few wanted many =
    bt_torrent_tracker_request_overflow (bt_tracker_request stale hosts rand) npeer left own_port
      info_hash (udp_url domain port rest) more addrtab v (length v) wanted
      (answers stale hosts rand port domain rest (first_want left own_port info_hash npeer) v cid
        no_colon some_domain short small end up server (omega arith) c fits few)
      many
