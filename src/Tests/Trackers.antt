-- ===== src/Tests/Trackers.antt =====
-- src/tracker.c, src/tracker_udp.c and the sockets of a peer at concrete inputs.
use libctorrent.Prelude.{
  ℕ, zero, suc, ◌+◌, ◌-◌, ◌/◌, ◌≤◌, ◌<◌, ◌≡◌, ◌⊎◌, refl, true, false, List, [], ◌∷◌, ◌++◌, ◌==◌,
  if◌then◌else◌, length, arith, replicate,
}
use libctorrent.Prelude.Outcome.{Outcome, ok, aborted, Returns}
use libctorrent.Wire.{put_u16be, put_u32be, put_u64be}
use libctorrent.Bcode.Encode.{decimal}
use libctorrent.Tracker.{get_domain_port}
use libctorrent.Tracker.Udp.{
  PeerAddr, TrackerRequest, datagram, Link, buf_size, unpack_peers, udp_request, pack_connect,
  pack_announce,
}
use libctorrent.Tracker.Udp.Exchange.{
  connect_answer, announce_answer, entries, Serves, udp_request_lem,
}
use libctorrent.Tracker.Udp.Bounds.{unpack_peers_bounds}
use libctorrent.Tracker.Url.{NoColon, get_domain_port_lem}
use libctorrent.Tracker.{bt_tracker_request, generate_peer_id}
use libctorrent.Tracker.Udp.{Host, first_open}
use libctorrent.Tracker.Unasked.{udp_url, IsUp, bt_torrent_tracker_request_unasked}
use libctorrent.Tracker.Collect.{first_want, bt_torrent_tracker_request}

abbrev two_peers : List PeerAddr
two_peers = record { ipv4 = 167772161; port = 6881 } ∷ record { ipv4 = 167772162; port = 6882 } ∷ []

abbrev wanted : TrackerRequest
wanted = first_want 1000 6881 (replicate 20 7) 30

-- A tracker that knows two peers.
abbrev tracker : Link
tracker = record {
  can_send = λ bytes. true;
  answer = λ bytes.
      if length bytes == 16
      then datagram (connect_answer 0 99)
      else datagram (announce_answer 0 1800 1 1 two_peers);
  can_wait = true;
}

tracker-Serves : Serves tracker wanted 99 two_peers
unfolding pack_connect pack_announce put_u16be put_u32be put_u64be
tracker-Serves = record {
  sends = λ bytes. refl;
  waits = refl;
  interval = 1800;
  leechers = 1;
  seeders = 1;
  connects = refl;
  announces = refl;
}

udp_request_lem_example : udp_request [] tracker wanted ≡ ok (2, two_peers)
udp_request_lem_example =
    udp_request_lem [] tracker wanted 99 two_peers tracker-Serves (omega arith) (omega arith)
      (omega arith, omega arith, (omega arith, omega arith, tt)) (omega arith)

unpack_peers_bounds_example :
    ((35 < 255)
      × Returns
          (λ r. (r.0 ≡ (35 - 20) / 6) × (length r.1 ≡ (35 + 5 - 20) / 6))
          (unpack_peers (entries two_peers) 35 (buf_size - 20)))
    ⊎ ((255 ≤ 35) × (unpack_peers (entries two_peers) 35 (buf_size - 20) ≡ aborted))
unpack_peers_bounds_example = unpack_peers_bounds (entries two_peers) 35 (omega arith) (omega arith)

letters : (n : ℕ) → NoColon (replicate n 97)
letters zero = tt
letters (suc n) = (omega arith, letters n)

-- udp://ab:80/
get_domain_port_lem_example :
    get_domain_port
      ((117 ∷ 100 ∷ 112 ∷ []) ++ 58 ∷ 47 ∷ 47 ∷ ((97 ∷ 98 ∷ []) ++ 58 ∷ (decimal 80 ++ 47 ∷ [])))
    ≡ ok (97 ∷ 98 ∷ [], 80)
get_domain_port_lem_example =
    get_domain_port_lem (117 ∷ 100 ∷ 112 ∷ []) (97 ∷ 98 ∷ []) (47 ∷ []) 80
      (omega arith, (omega arith, (omega arith, tt))) (omega arith) (omega arith, (omega arith, tt))
      (omega arith) (omega arith) (omega arith) (ground arith)

abbrev one_peer : PeerAddr
one_peer = record { ipv4 = 167772161; port = 6881 }

-- A tracker that answers with a peer when any is wanted.
abbrev modest : List ℕ → TrackerRequest → Outcome (ℕ × List PeerAddr)
modest url req = if req.num_want == 0 then ok (0, []) else ok (1, one_peer ∷ [])

abbrev host : Host
host = record {
  is_found = true;
  opens = false ∷ true ∷ [];
  opens_again = true;
  connects = true;
  link = tracker;
}

abbrev named : TrackerRequest
named = record (first_want 1000 6881 [] 1) { peer_id = generate_peer_id (λ i. i) }

tracker-Serves-named : Serves tracker named 99 two_peers
unfolding pack_connect pack_announce put_u16be put_u32be put_u64be generate_peer_id
tracker-Serves-named = record {
  sends = λ bytes. refl;
  waits = refl;
  interval = 1800;
  leechers = 1;
  seeders = 1;
  connects = refl;
  announces = refl;
}

host-IsUp : IsUp host
unfolding first_open
host-IsUp = record { found = refl; opened = refl; again = refl; connected = refl }

bt_torrent_tracker_request_unasked_example :
    bt_torrent_tracker_request
      (bt_tracker_request [] (λ domain port. host) (λ i. i))
      1
      1000
      6881
      []
      (udp_url (97 ∷ 98 ∷ []) 80 (47 ∷ []) ∷ [])
      []
    ≡ aborted
bt_torrent_tracker_request_unasked_example =
    bt_torrent_tracker_request_unasked [] (λ domain port. host) (λ i. i) 1000 6881 1 99 80 []
      (97 ∷ 98 ∷ []) (47 ∷ []) [] [] two_peers (omega arith, (omega arith, tt)) (omega arith)
      (omega arith) (omega arith) (ground arith) host-IsUp tracker-Serves-named (omega arith)
      (omega arith, omega arith, (omega arith, omega arith, tt)) (omega arith) (omega arith)
      (omega arith)
