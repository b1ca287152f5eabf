-- ===== src/Tracker/Collect.antt =====
-- `bt_torrent_tracker_request` of src/torrent.c: the table of addresses grows by what the trackers
-- answer. There is memory for it.
use libctorrent.Prelude.{
  ℕ, ◌+◌, ◌-◌, ◌%◌, ◌^◌, ◌≤◌, ◌<◌, ◌≡◌, refl, true, false, List, [], ◌∷◌, ◌++◌, ltb, ◌==◌,
  if◌then◌else◌, length, take, arith,
}
use libctorrent.Prelude.Outcome.{Outcome, ok, aborted, ◌>>=◌, Returns}
use libctorrent.Tracker.Udp.{PeerAddr, TrackerRequest}

abbrev pub first_want : ℕ → ℕ → List ℕ → ℕ → TrackerRequest
first_want left port info_hash npeer = record {
  peer_id = [];
  info_hash = take 20 info_hash;
  downloaded = 0;
  left = left;
  uploaded = 0;
  transaction_id = 0;
  num_want = npeer;
  event = 0;
  port = port;
}

-- `request` is `bt_tracker_request`, with its hosts and its `rand`.
module _ (request : List ℕ → TrackerRequest → Outcome (ℕ × List PeerAddr)) (npeer : ℕ) where
  -- `req.num_want -= n`
  abbrev pub want_less : TrackerRequest → ℕ → TrackerRequest
  want_less req n = record req { num_want = (req.num_want + 2 ^ 32 - n) % 2 ^ 32 }

  -- The loop over the trackers; `got` is what stands behind the old addresses, `nhave` of them count.
  -- There is room for `npeer`, and writing behind it is a fault.
  unfoldable pub trackers_loop :
      List (List ℕ) → TrackerRequest → List PeerAddr → Outcome (List PeerAddr)
  trackers_loop [] req got = ok got
  trackers_loop (url ∷ more) req got =
      if length got == npeer
      then ok got
      else (request url req >>= λ (n, v).
          if ltb npeer (length got + length v)
          then aborted
          else trackers_loop more (want_less req n) (got ++ take n v))

  -- `bt_torrent_tracker_request`: the addresses afterwards, whose number it returns.
  unfoldable pub bt_torrent_tracker_request :
      ℕ → ℕ → List ℕ → List (List ℕ) → List PeerAddr → Outcome (List PeerAddr)
  bt_torrent_tracker_request left port info_hash announce addrtab =
      trackers_loop announce (first_want left port info_hash npeer) [] >>= λ got.
      ok (addrtab ++ got)

  -- Asking trackers in turn for what is still wanted: the answers, until there are enough.
  pub data Collected : List (List ℕ) → TrackerRequest → List PeerAddr → Type 0 where
    none_left : {req : TrackerRequest} → Collected [] req []
    enough :
        {urls : List (List ℕ)} {req : TrackerRequest} → req.num_want ≡ 0 → Collected urls req []
    answered :
        {url : List ℕ} {more : List (List ℕ)} {req : TrackerRequest} (v w : List PeerAddr)
        → 0 < req.num_want
        → request url req ≡ ok (length v, v)
        → Collected more (record req { num_want = req.num_want - length v }) w
        → Collected (url ∷ more) req (v ++ w)

  -- Whatever it is asked, a tracker answers, with no more peers than are wanted.
  abbrev pub IsModest : Type 0
  IsModest =
      (url : List ℕ) (req : TrackerRequest)
      → Returns (λ r. (r.0 ≡ length r.1) × (length r.1 ≤ req.num_want)) (request url req)

  abbrev Grown : List (List ℕ) → TrackerRequest → List PeerAddr → List PeerAddr → Type 0
  Grown urls req got t =
      (w : List PeerAddr) × (t ≡ got ++ w) × (length got + length w ≤ npeer) × Collected urls req w

  -- A first tracker that answers with more peers than were asked for makes
  -- `bt_torrent_tracker_request` write behind its table.
  pub bt_torrent_tracker_request_overflow :
      (left port : ℕ) (info_hash url : List ℕ) (more : List (List ℕ)) (addrtab v : List PeerAddr)
      (n : ℕ)
      → 0 < npeer
      → request url (first_want left port info_hash npeer) ≡ ok (n, v)
      → npeer < length v
      → bt_torrent_tracker_request left port info_hash (url ∷ more) addrtab ≡ aborted
  unfolding bt_torrent_tracker_request trackers_loop
  bt_torrent_tracker_request_overflow left port info_hash url more addrtab v n some_wanted answer
        many =
      let wanting : (0 == npeer) ≡ false = ground arith in
      let over : ltb npeer (0 + length v) ≡ true = ground arith in rw (wanting, answer, over) refl
