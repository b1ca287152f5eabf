-- ===== src/Tracker.antt =====
-- src/tracker.c: the URL of a tracker, and asking it for peers. `sscanf` is modelled for the one
-- format that `get_domain_port` makes; a port that does not fit is taken modulo 2^16.
pub mod Udp
pub mod Url
pub mod Collect
pub mod Unasked
use libctorrent.Prelude.{
  ℕ, zero, suc, ◌+◌, ◌-◌, ◌*◌, ◌%◌, ◌^◌, Bool, true, false, ◌&&◌, ◌||◌, Option, none, some, List,
  [], ◌∷◌, ltb, leb, ◌==◌, if◌then◌else◌, length,
}
use libctorrent.Prelude.Outcome.{Outcome, ok, failed, aborted, ◌>>=◌}
use libctorrent.Tracker.Udp.{PeerAddr, TrackerRequest, Host, bt_tracker_udp_request}

-- `strncmp(a, b, strlen(a))` is 0.
abbrev pub starts_with : List ℕ → List ℕ → Bool
starts_with [] s = true
starts_with (x ∷ a) [] = false
starts_with (x ∷ a) (y ∷ s) = let rest = starts_with a s in if x == y then rest else false

pub data Proto : Type 0 where
  udp http other : Proto

abbrev pub udp_name : List ℕ
udp_name = b'u' ∷ b'd' ∷ b'p' ∷ b':' ∷ b'/' ∷ b'/' ∷ []

abbrev pub http_name : List ℕ
http_name = b'h' ∷ b't' ∷ b't' ∷ b'p' ∷ b':' ∷ b'/' ∷ b'/' ∷ []

unfoldable pub get_proto : List ℕ → Proto
get_proto url =
    if starts_with udp_name url then udp else if starts_with http_name url then http else other

-- `%n[^:]`: at most `n` characters that are no colon, and the rest.
abbrev pub until_colon : ℕ → List ℕ → List ℕ × List ℕ
until_colon zero s = ([], s)
until_colon (suc n) [] = ([], [])
until_colon (suc n) (c ∷ s) =
    let (taken, rest) = until_colon n s in if c == b':' then ([], c ∷ s) else (c ∷ taken, rest)

-- A text of the format.
abbrev pub literal : List ℕ → List ℕ → Option (List ℕ)
literal [] s = some s
literal (x ∷ a) [] = none
literal (x ∷ a) (y ∷ s) = let rest = literal a s in if x == y then rest else none

abbrev pub is_digit : ℕ → Bool
is_digit c = leb b'0' c && leb c b'9'

abbrev pub is_space : ℕ → Bool
is_space c = c == b' ' || (leb 9 c && leb c 13)

-- The number that the digits in front spell, behind `acc`.
abbrev pub number : ℕ → List ℕ → ℕ
number acc [] = acc
number acc (c ∷ s) = let more = number (acc * 10 + (c - b'0')) s in if is_digit c then more else acc

abbrev pub starts_number : List ℕ → Bool
starts_number [] = false
starts_number (c ∷ s) = is_digit c

abbrev pub unsigned_port : List ℕ → Option ℕ
unsigned_port s = if starts_number s then some (number 0 s % 2 ^ 16) else none

abbrev pub negated : Option ℕ → Option ℕ
negated none = none
negated (some p) = some ((2 ^ 16 - p) % 2 ^ 16)

-- `%hu`: white space, a sign, digits.
abbrev pub read_port : List ℕ → Option ℕ
read_port [] = none
read_port (c ∷ s) =
    let rest = read_port s in
    if is_space c
    then rest
    else if c == b'-'
    then negated (unsigned_port s)
    else if c == b'+'
    then unsigned_port s
    else unsigned_port (c ∷ s)

abbrev pub domain_len : ℕ
domain_len = 64

abbrev pub with_port : List ℕ → Option ℕ → Outcome (List ℕ × ℕ)
with_port domain none = failed
with_port domain (some port) = ok (domain, port)

abbrev pub at_port : List ℕ → Option (List ℕ) → Outcome (List ℕ × ℕ)
at_port domain none = failed
at_port domain (some s) = with_port domain (read_port s)

-- The domain and its NUL are stored into an array of 64 bytes; 64 characters are written behind it.
abbrev pub at_domain : Option (List ℕ) → Outcome (List ℕ × ℕ)
at_domain none = failed
at_domain (some s) =
    let (domain, rest) = until_colon domain_len s in
    if length domain == 0
    then failed
    else if length domain == domain_len
    then aborted
    else at_port domain (literal (b':' ∷ []) rest)

-- `get_domain_port`
unfoldable pub get_domain_port : List ℕ → Outcome (List ℕ × ℕ)
get_domain_port url =
    let (scheme, rest) = until_colon (length url) url in
    if length scheme == 0 then failed else at_domain (literal (b':' ∷ b'/' ∷ b'/' ∷ []) rest)

-- `dest[i]` for what `rand` answers.
abbrev pub id_char : ℕ → ℕ
id_char x = let r = x % 36 in if ltb r 26 then b'a' + r else b'0' + r

-- `generate_peer_id`: `rand` in the order of the calls.
abbrev pub id_chars : ℕ → (ℕ → ℕ) → List ℕ
id_chars zero rand = []
id_chars (suc n) rand = id_char (rand 0) ∷ id_chars n (λ i. rand (i + 1))

unfoldable pub generate_peer_id : (ℕ → ℕ) → List ℕ
generate_peer_id rand = b'B' ∷ b'T' ∷ id_chars 18 rand

-- Asking a tracker: the hosts by their names and ports.
module _ (stale : List ℕ) (hosts : List ℕ → ℕ → Host) (rand : ℕ → ℕ) where
  abbrev pub request_by : Proto → List ℕ → ℕ → TrackerRequest → Outcome (ℕ × List PeerAddr)
  request_by udp domain port req = bt_tracker_udp_request stale (hosts domain port) req
  request_by http domain port req = ok (0, [])
  request_by other domain port req = ok (0, [])

  abbrev pub at_host : List ℕ → TrackerRequest → Outcome (List ℕ × ℕ) → Outcome (ℕ × List PeerAddr)
  at_host url req failed = ok (0, [])
  at_host url req aborted = aborted
  at_host url req (ok (domain, port)) =
      request_by (get_proto url) domain port (record req { peer_id = generate_peer_id rand })

  -- `bt_tracker_request`
  unfoldable pub bt_tracker_request : List ℕ → TrackerRequest → Outcome (ℕ × List PeerAddr)
  bt_tracker_request url req = at_host url req (get_domain_port url)
