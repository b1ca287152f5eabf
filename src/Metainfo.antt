-- ===== src/Metainfo.antt =====
-- src/torrent.c: setting a torrent up from the decoded metainfo (`from_metainfo_file` without the
-- file, and what it calls).
pub mod Pieces
pub mod Trackers
pub mod Load
use libctorrent.Prelude.{
  ℕ, zero, suc, ◌+◌, ◌-◌, ◌/◌, ◌%◌, ◌^◌, Bool, Option, none, some, List, [], ◌∷◌, ◌++◌, ltb, ◌==◌,
  if◌then◌else◌, length, take, drop, min, replicate,
}
use libctorrent.Prelude.Int.{ℤ, pos, negsuc}
use libctorrent.Prelude.Outcome.{Outcome, ok, failed, aborted, ◌>>=◌}
use libctorrent.Bitset.{ceil_div}
use libctorrent.Piece.{Piece, piece_init}
use libctorrent.Disk.{DiskMgr, disk_init, disk_add_file}
use libctorrent.Bcode.Value.{BCode, int, str, list, dict, Items, nil, cons}
use libctorrent.Bcode.Lookup.{Found, value, missing, stray, Key, index, name, blist_get, bcode_get}
use libctorrent.Bcode.Encode.{bencode_size, bencode}
use libctorrent.Sha1.{bt_sha1}

module _ (alloc : ℕ → Bool) where
  -- The loop of `init_pieces`: `rem` bytes are left, and `n` counts the hashes left in `hashes`. A
  -- turn makes `rem` smaller, so that `rem` turns are enough; pieces without bytes would never end.
  -- Reading a hash behind the end of the string is a fault.
  unfoldable pub pieces_loop : ℕ → ℕ → ℕ → ℕ → ℕ → List ℕ → Outcome (List Piece)
  pieces_loop zero size plen rem n hashes = if rem == 0 then ok [] else aborted
  pieces_loop (suc fuel) size plen rem n hashes =
      let len = min rem plen % 2 ^ 32 in
      let rest =
        pieces_loop fuel size plen (rem - len) ((n + 2 ^ 64 - 20) % 2 ^ 64) (drop 20 hashes) in
      if rem == 0
      then ok []
      else if n == 0
      then failed
      else if ltb (length hashes) 20
      then aborted
      else (piece_init alloc (size - rem) len hashes >>= λ p. rest >>= λ t. ok (p ∷ t))

  -- `init_pieces`
  unfoldable pub init_pieces : ℕ → ℕ → List ℕ → Outcome (List Piece)
  init_pieces size plen pieces = pieces_loop size size plen size (length pieces / 20) pieces

  -- `compute_hash`
  unfoldable pub compute_hash : BCode → Outcome (List ℕ)
  compute_hash b =
      let len = bencode_size b in
      if alloc len then ok (bt_sha1 (bencode (replicate len 0) 0 len b).1) else failed

abbrev pub max_trackers : ℕ
max_trackers = 256

-- `dest[n++] = …`, behind the assertion.
unfoldable pub add_tracker : List (List ℕ) → List ℕ → Outcome (List (List ℕ))
add_tracker dest s = if ltb (length dest) max_trackers then ok (dest ++ s ∷ []) else aborted

abbrev pub with_string : List (List ℕ) → Found → Outcome (List (List ℕ))
with_string dest (value (str s)) = add_tracker dest s
with_string dest stray = aborted
with_string dest _ = ok dest

-- The loop of `get_trackers` over a tier from its entry `j`, with `k` left.
unfoldable pub tier_loop : ℕ → ℕ → Items → List (List ℕ) → Outcome (List (List ℕ))
tier_loop zero j tier dest = ok dest
tier_loop (suc k) j tier dest =
    with_string dest (bcode_get (list tier) (index j)) >>= λ dest'. tier_loop k (j + 1) tier dest'

-- `b_list(x)->n`
unfoldable pub size_of : Items → ℕ
size_of nil = 0
size_of (cons b l) = 1 + size_of l

abbrev pub with_tier : List (List ℕ) → Found → Outcome (List (List ℕ))
with_tier dest (value (list tier)) = tier_loop (size_of tier) 0 tier dest
with_tier dest stray = aborted
with_tier dest _ = ok dest

-- The loop over the tiers.
unfoldable pub tiers_loop : ℕ → ℕ → Items → List (List ℕ) → Outcome (List (List ℕ))
tiers_loop zero i anlst dest = ok dest
tiers_loop (suc k) i anlst dest =
    with_tier dest (bcode_get (list anlst) (index i)) >>= λ dest'. tiers_loop k (i + 1) anlst dest'

-- `if (b_isstring(announce)) dest[n++] = …`, where `n` is 0.
abbrev pub first_tracker : Found → Outcome (List (List ℕ))
first_tracker (value (str s)) = ok (s ∷ [])
first_tracker stray = aborted
first_tracker _ = ok []

abbrev pub more_trackers : List (List ℕ) → Found → Outcome (List (List ℕ))
more_trackers dest (value (list anlst)) = tiers_loop (size_of anlst) 0 anlst dest
more_trackers dest stray = aborted
more_trackers dest _ = ok dest

-- "announce" and "announce-list".
abbrev pub announce_key : List ℕ
announce_key = b'a' ∷ b'n' ∷ b'n' ∷ b'o' ∷ b'u' ∷ b'n' ∷ b'c' ∷ b'e' ∷ []

abbrev pub announce_list_key : List ℕ
announce_list_key = announce_key ++ b'-' ∷ b'l' ∷ b'i' ∷ b's' ∷ b't' ∷ []

-- `get_trackers`
unfoldable pub get_trackers : BCode → Outcome (List (List ℕ))
get_trackers meta = first_tracker (bcode_get meta (name announce_key)) >>= λ dest.
    more_trackers dest (bcode_get meta (name announce_list_key))
