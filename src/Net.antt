-- ===== src/Net.antt =====
-- src/net.c: sending and receiving on a socket that does not block. What the system answers to the
-- calls of `recv` and `send`, in their order, is a list. After an end of file `errno` is taken to be
-- something else than EINTR.
pub mod Streams
pub mod Turns
use libctorrent.Prelude.{
  ℕ, zero, suc, ◌+◌, ◌-◌, Bool, true, false, List, [], ◌∷◌, ◌++◌, ltb, ◌==◌, if◌then◌else◌, length,
  take, drop, min,
}

-- What arrives at a socket: bytes, which a call may take in parts, and the other answers.
pub data Arrival : Type 0 where
  bytes : List ℕ → Arrival
  interrupted : Arrival
  would_block : Arrival
  closed : Arrival
  broken : Arrival

-- What a call leaves: whether it did not return -1, what it stored, and what is still to come.
pub record Received : Type 0 where
  pub succeeds : Bool
  pub got : List ℕ
  pub later : List Arrival

abbrev pub got_all : List ℕ → List Arrival → Received
got_all got later = record { succeeds = true; got = got; later = later }

-- The loop of `net_tcp_recv`, with room for `sz` bytes more. A call takes an arrival, or fills the room.
unfoldable pub recv_loop : List Arrival → ℕ → List ℕ → Received
recv_loop [] sz got = got_all got []
recv_loop (bytes v ∷ s) sz got =
    let rest = recv_loop s (sz - length v) (got ++ v) in
    if sz == 0
    then got_all got (bytes v ∷ s)
    else if length v == 0
    then got_all got s
    else if ltb sz (length v)
    then got_all (got ++ take sz v) (bytes (drop sz v) ∷ s)
    else rest
recv_loop (interrupted ∷ s) sz got =
    let rest = recv_loop s sz got in if sz == 0 then got_all got (interrupted ∷ s) else rest
recv_loop (would_block ∷ s) sz got =
    if sz == 0 then got_all got (would_block ∷ s) else got_all got s
recv_loop (closed ∷ s) sz got = got_all got (closed ∷ s)
recv_loop (broken ∷ s) sz got =
    if sz == 0 then got_all got (broken ∷ s) else record { succeeds = false; got = got; later = s }

-- `net_tcp_recv`
unfoldable pub net_tcp_recv : List Arrival → ℕ → Received
net_tcp_recv s sz = recv_loop s sz []

-- What a socket answers to `send`: how many bytes it takes at most, and the other answers.
pub data Room : Type 0 where
  takes : ℕ → Room
  no_time : Room
  no_room : Room
  lost : Room

-- What a call leaves: whether it did not return -1, what was sent, and the answers to come.
pub record Transmitted : Type 0 where
  pub succeeds : Bool
  pub sent : List ℕ
  pub later : List Room

-- The loop of `net_tcp_send` over the bytes that are left; behind the answers there is no room. An
-- answer of 0 is taken for an error.
unfoldable pub send_loop : List Room → List ℕ → List ℕ → Transmitted
send_loop s [] sent = record { succeeds = true; sent = sent; later = s }
send_loop [] (x ∷ v) sent = record { succeeds = true; sent = sent; later = [] }
send_loop (takes n ∷ s) (x ∷ v) sent =
    let rest = send_loop s (drop n (x ∷ v)) (sent ++ take n (x ∷ v)) in
    if n == 0 then record { succeeds = false; sent = sent; later = s } else rest
send_loop (no_time ∷ s) (x ∷ v) sent = send_loop s (x ∷ v) sent
send_loop (no_room ∷ s) (x ∷ v) sent = record { succeeds = true; sent = sent; later = s }
send_loop (lost ∷ s) (x ∷ v) sent = record { succeeds = false; sent = sent; later = s }

-- `net_tcp_send`
unfoldable pub net_tcp_send : List Room → List ℕ → Transmitted
net_tcp_send s v = send_loop s v []
