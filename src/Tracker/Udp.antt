-- ===== src/Tracker/Udp.antt =====
-- src/tracker_udp.c: the exchange of datagrams with a tracker. The sockets are a parameter, and so is
-- what the array `buf` of 256 bytes holds behind a datagram (`stale`).
pub mod Exchange
pub mod Bounds
use libctorrent.Prelude.{
  ℕ, zero, suc, ◌+◌, ◌-◌, ◌/◌, Bool, true, false, not, List, [], ◌∷◌, ◌++◌, ltb, ◌==◌,
  if◌then◌else◌, length, take, drop,
}
use libctorrent.Prelude.Outcome.{Outcome, ok, failed, aborted, ◌>>=◌}
use libctorrent.Wire.{put_u16be, put_u32be, put_u64be, get_u16be, get_u32be, get_u64be}

pub record ConnectRequest : Type 0 where
  pub protocol_id : ℕ
  pub action : ℕ
  pub transaction_id : ℕ

pub record ConnectResponse : Type 0 where
  pub action : ℕ
  pub transaction_id : ℕ
  pub connection_id : ℕ

pub record AnnounceRequest : Type 0 where
  pub connection_id : ℕ
  pub action : ℕ
  pub transaction_id : ℕ
  pub info_hash : List ℕ
  pub peer_id : List ℕ
  pub downloaded : ℕ
  pub left : ℕ
  pub uploaded : ℕ
  pub event : ℕ
  pub ip : ℕ
  pub key : ℕ
  pub num_want : ℕ
  pub port : ℕ

-- `struct announce_response` without its pointer to the peers, which are returned beside it.
pub record AnnounceResponse : Type 0 where
  pub action : ℕ
  pub transaction_id : ℕ
  pub interval : ℕ
  pub leechers : ℕ
  pub seeders : ℕ

-- `struct bt_peer_addr`
pub record PeerAddr : Type 0 where
  pub ipv4 : ℕ
  pub port : ℕ

-- `struct tracker_request`
pub record TrackerRequest : Type 0 where
  pub peer_id : List ℕ
  pub info_hash : List ℕ
  pub downloaded : ℕ
  pub left : ℕ
  pub uploaded : ℕ
  pub transaction_id : ℕ
  pub num_want : ℕ
  pub event : ℕ
  pub port : ℕ

unfoldable pub pack_connect : ConnectRequest → List ℕ
pack_connect req = put_u64be req.protocol_id ++ put_u32be req.action ++ put_u32be req.transaction_id

unfoldable pub unpack_connect : List ℕ → ConnectResponse
unpack_connect buf = record {
  action = get_u32be buf;
  transaction_id = get_u32be (drop 4 buf);
  connection_id = get_u64be (drop 8 buf);
}

unfoldable pub pack_announce : AnnounceRequest → List ℕ
pack_announce req =
    put_u64be req.connection_id
    ++ put_u32be req.action
    ++ put_u32be req.transaction_id
    ++ take 20 req.info_hash
    ++ take 20 req.peer_id
    ++ put_u64be req.downloaded
    ++ put_u64be req.left
    ++ put_u64be req.uploaded
    ++ put_u32be req.event
    ++ put_u32be req.ip
    ++ put_u32be req.key
    ++ put_u32be req.num_want
    ++ put_u16be req.port

unfoldable pub unpack_announce : List ℕ → AnnounceResponse
unpack_announce buf = record {
  action = get_u32be buf;
  transaction_id = get_u32be (drop 4 buf);
  interval = get_u32be (drop 8 buf);
  leechers = get_u32be (drop 12 buf);
  seeders = get_u32be (drop 16 buf);
}

abbrev pub entry_of : List ℕ → PeerAddr
entry_of buf = record { ipv4 = get_u32be buf; port = get_u16be (drop 4 buf) }

-- The loop of `unpack_peers`: `room` bytes of the array are left, and reading behind it is a fault.
-- A turn takes 6 from `len`, so that `len` turns are enough.
unfoldable pub peers_loop : ℕ → List ℕ → ℕ → ℕ → Outcome (List PeerAddr)
peers_loop zero buf len room = ok []
peers_loop (suc k) buf len room =
    let rest = peers_loop k (drop 6 buf) (len - 6) (room - 6) in
    if ltb 20 len
    then (if ltb room 6 then aborted else (rest >>= λ v. ok (entry_of buf ∷ v)))
    else ok []

-- `unpack_peers`: the number that it returns, and the entries that it writes.
unfoldable pub unpack_peers : List ℕ → ℕ → ℕ → Outcome (ℕ × List PeerAddr)
unpack_peers buf len room = peers_loop len buf len room >>= λ v. ok ((len - 20) / 6, v)

-- What `recvfrom` answers; `silent` is the alarm, EINTR.
pub data Answer : Type 0 where
  datagram : List ℕ → Answer
  silent : Answer
  broken : Answer

-- A connected socket: whether `sendto` succeeds, the answer to what was sent, and whether
-- `sigaction` succeeds.
pub record Link : Type 0 where
  pub can_send : List ℕ → Bool
  pub answer : List ℕ → Answer
  pub can_wait : Bool

abbrev pub buf_size : ℕ
buf_size = 256

abbrev pub def_timeout : ℕ
def_timeout = 2

-- The name service and the sockets: whether the name is found, which of its addresses a socket
-- opens for, whether another one opens, and whether it connects.
pub record Host : Type 0 where
  pub is_found : Bool
  pub opens : List Bool
  pub opens_again : Bool
  pub connects : Bool
  pub link : Link

-- The loop over the addresses: whether it ends at one of them, not at NULL.
unfoldable pub first_open : List Bool → Bool
first_open [] = false
first_open (o ∷ v) = let rest = first_open v in if o then true else rest

abbrev pub first_request : TrackerRequest → ConnectRequest
first_request req = record {
  protocol_id = 0x41727101980;
  action = 0;
  transaction_id = req.transaction_id;
}

abbrev pub second_request : TrackerRequest → ConnectResponse → AnnounceRequest
second_request req resp = record {
  connection_id = resp.connection_id;
  action = 1;
  transaction_id = req.transaction_id;
  info_hash = req.info_hash;
  peer_id = req.peer_id;
  downloaded = req.downloaded;
  left = req.left;
  uploaded = req.uploaded;
  event = req.event;
  ip = 0;
  key = 0;
  num_want = req.num_want;
  port = req.port;
}

-- A failure counts as no peers.
abbrev pub or_none : Outcome (ℕ × List PeerAddr) → Outcome (ℕ × List PeerAddr)
or_none (ok r) = ok r
or_none failed = ok (0, [])
or_none aborted = aborted

module _ (stale : List ℕ) where
  -- `tracker_connect` on what `recvfrom` answers; -1 is `failed`.
  abbrev pub connected_by : ConnectRequest → Answer → Outcome ConnectResponse
  connected_by req silent = failed
  connected_by req broken = failed
  connected_by req (datagram bytes) =
      let resp = unpack_connect (take buf_size bytes ++ stale) in
      if ltb (length (take buf_size bytes)) 16
      then failed
      else if not (resp.transaction_id == req.transaction_id)
      then failed
      else if not (resp.action == 0)
      then failed
      else ok resp

  unfoldable pub tracker_connect : Link → ConnectRequest → Outcome ConnectResponse
  tracker_connect link req =
      if not (link.can_send (pack_connect req))
      then failed
      else if not link.can_wait
      then failed
      else connected_by req (link.answer (pack_connect req))

  -- `tracker_announce` on what `recvfrom` answers.
  abbrev pub announced_by : AnnounceRequest → Answer → Outcome (ℕ × List PeerAddr)
  announced_by req silent = ok (0, [])
  announced_by req broken = failed
  announced_by req (datagram bytes) =
      let got = take buf_size bytes in
      let resp = unpack_announce (got ++ stale) in
      if ltb (length got) 20
      then failed
      else if not (resp.transaction_id == req.transaction_id)
      then failed
      else if not (resp.action == 1)
      then failed
      else unpack_peers (drop 20 (got ++ stale)) (length got) (buf_size - 20)

  unfoldable pub tracker_announce : Link → AnnounceRequest → Outcome (ℕ × List PeerAddr)
  tracker_announce link req =
      if not (link.can_send (pack_announce req))
      then failed
      else announced_by req (link.answer (pack_announce req))

  -- `udp_request`
  unfoldable pub udp_request : Link → TrackerRequest → Outcome (ℕ × List PeerAddr)
  udp_request link req = or_none (
      tracker_connect link (first_request req) >>= λ resp.
      tracker_announce link (second_request req resp))

  -- `bt_tracker_udp_request`, once the name is looked up. Without an address that a socket opens for,
  -- NULL is followed.
  unfoldable pub bt_tracker_udp_request : Host → TrackerRequest → Outcome (ℕ × List PeerAddr)
  bt_tracker_udp_request host req =
      if not host.is_found
      then ok (0, [])
      else if not (first_open host.opens)
      then aborted
      else if not host.opens_again
      then ok (0, [])
      else if not host.connects
      then ok (0, [])
      else udp_request host.link req
