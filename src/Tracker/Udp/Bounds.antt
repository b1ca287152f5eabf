-- ===== src/Tracker/Udp/Bounds.antt =====
-- How far `unpack_peers` of src/tracker_udp.c reads and writes.
use libctorrent.Prelude.{
  ℕ, zero, suc, ◌+◌, ◌-◌, ◌*◌, ◌/◌, ◌≤◌, ◌<◌, ◌≡◌, ◌⊎◌, refl, true, false, List, [], ◌∷◌, ltb,
  length, drop, arith, inl, inr,
}
use native.Mathlib.Decide.{dec_lt}
use libctorrent.Prelude.Outcome.{ok, aborted, Returns, Returns-bind}
use libctorrent.Tracker.Udp.{entry_of, peers_loop, unpack_peers, buf_size}
use libctorrent.Tracker.Udp.Exchange.{peers_loop-turn}

-- The entries that begin within `len` bytes.
abbrev begun : ℕ → ℕ
begun len = (len + 5 - 20) / 6

peers_loop-done :
    (k : ℕ) (buf : List ℕ) (len room : ℕ) → len ≤ 20 → peers_loop k buf len room ≡ ok []
unfolding peers_loop
peers_loop-done zero buf len room h = refl
peers_loop-done (suc k) buf len room h =
    let done : ltb 20 len ≡ false = ground arith in rw done refl

peers_loop-inside :
    (k : ℕ) (buf : List ℕ) (len room : ℕ)
    → len ≤ k
    → 6 * begun len ≤ room
    → Returns (λ v. length v ≡ begun len) (peers_loop k buf len room)
peers_loop-inside zero buf len room enough inside =
    let none : 0 ≡ begun len = omega arith in
    rw (peers_loop-done zero buf len room (omega arith), Returns) none
peers_loop-inside (suc k) buf len room enough inside = elim (dec_lt 20 len) [
  | no last ↦
      let none : 0 ≡ begun len = omega arith in
      rw (peers_loop-done (suc k) buf len room (omega arith), Returns) none
  | yes more ↦ rw (peers_loop-turn k buf len room more (omega arith)) (
      Returns-bind (λ v. length v ≡ begun (len - 6)) (λ v. length v ≡ begun len)
        (peers_loop k (drop 6 buf) (len - 6) (room - 6)) (λ v. ok (entry_of buf ∷ v))
        (peers_loop-inside k (drop 6 buf) (len - 6) (room - 6) (omega arith) (omega arith))
        (λ v e. omega (arith, e)))
]

peers_loop-outside :
    (k : ℕ) (buf : List ℕ) (len room : ℕ)
    → len ≤ k
    → room < 6 * begun len
    → peers_loop k buf len room ≡ aborted
unfolding peers_loop
peers_loop-outside zero buf len room enough over = absurd (omega arith)
peers_loop-outside (suc k) buf len room enough over =
    let go_on : ltb 20 len ≡ true = ground arith in
    elim (dec_lt room 6) [
      | yes short ↦ let end : ltb room 6 ≡ true = ground arith in rw (go_on, end) refl
      | no long ↦
          let roomy : ltb room 6 ≡ false = ground arith in
          rw
            (
              go_on,
              roomy,
              peers_loop-outside k (drop 6 buf) (len - 6) (room - 6) (omega arith) (omega arith),
            )
            refl
    ]

-- For a datagram of at least 20 bytes, as many as were received or 256, `unpack_peers` writes an
-- entry for every six bytes that begin behind its header, also for an incomplete one at the end,
-- which the number that it returns leaves out. It stays inside its array of 256 bytes when fewer than
-- 255 were received, and reads behind it otherwise.
pub unpack_peers_bounds :
    (buf : List ℕ) (len : ℕ)
    → 20 ≤ len
    → len ≤ buf_size
    → ((len < 255)
        × Returns
            (λ r. (r.0 ≡ (len - 20) / 6) × (length r.1 ≡ (len + 5 - 20) / 6))
            (unpack_peers buf len (buf_size - 20)))
      ⊎ ((255 ≤ len) × (unpack_peers buf len (buf_size - 20) ≡ aborted))
unfolding unpack_peers
unpack_peers_bounds buf len h few = elim (dec_lt len 255) [
  | yes small ↦ inl (
    small,
    Returns-bind (λ v. length v ≡ begun len)
        (λ r. (r.0 ≡ (len - 20) / 6) × (length r.1 ≡ (len + 5 - 20) / 6))
        (peers_loop len buf len (buf_size - 20)) (λ v. ok ((len - 20) / 6, v))
        (peers_loop-inside len buf len (buf_size - 20) (omega arith) (omega arith))
        (λ v e. (refl, e)),
  )
  | no large ↦ inr (
    omega arith,
    rw (peers_loop-outside len buf len (buf_size - 20) (omega arith) (omega arith)) refl,
  )
]
