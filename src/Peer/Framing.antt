-- ===== src/Peer/Framing.antt =====
-- The framing of the bytes that arrive from a peer (`has_message` of src/peer.c).
use libctorrent.Prelude.{
  ℕ, zero, suc, ◌+◌, ◌-◌, ◌^◌, ◌≤◌, ◌<◌, ◌≡◌, ap, ◌∙◌, true, false, List, [], ◌∷◌, ◌++◌, arith,
  length, length-append, take, length-take,
}
use native.Mathlib.Decide.{dec_lt}
use libctorrent.Wire.{put_u32be, get_u32be}
use libctorrent.Wire.Laws.{get_u32be-put_u32be, length-put_u32be}
use libctorrent.Peer.{has_message}

-- A cut behind the first part.
take_behind :
    {A : Type 0} (xs ys : List A) (n : ℕ)
    → length xs ≤ n
    → take n (xs ++ ys) ≡ xs ++ take (n - length xs) ys
take_behind [] ys n h = ap (λ k. take k ys) {x = n} {y = n - 0} (omega arith)
take_behind (x ∷ xs) ys zero h = absurd (omega arith)
take_behind (x ∷ xs) ys (suc n) h =
    ap (◌∷◌ x) (take_behind xs ys n (omega arith))
    ∙ ap (λ k. x ∷ (xs ++ take k ys)) {x = n - length xs} {y = suc n - suc (length xs)}
        (omega arith)

-- `has_message` finds a message at the front of the received bytes when all of it has arrived,
-- whatever follows it, and finds none in any shorter part of it. The message is a body shorter than
-- 2^32 bytes behind its length in network order.
pub has_message_lem :
    (body rest : List ℕ)
    → length body < 2 ^ 32
    → (has_message (put_u32be (length body) ++ (body ++ rest)) ≡ true)
      × ((n : ℕ)
          → n < length body + 4
          → has_message (take n (put_u32be (length body) ++ body)) ≡ false)
unfolding has_message
has_message_lem body rest h =
    let head = length-put_u32be (length body) in
    (
      ground (
        arith,
        get_u32be-put_u32be (length body) (body ++ rest) h,
        length-append (put_u32be (length body)) (body ++ rest),
        length-append body rest,
        head,
      ),
      λ n e. elim (dec_lt n 4) [
        | yes small ↦ ground (arith, length-take n (put_u32be (length body) ++ body))
        | no large ↦
            let cut = take_behind (put_u32be (length body)) body n (omega (arith, head)) in
            let read =
              ap get_u32be cut
              ∙ get_u32be-put_u32be (length body) (take (n - length (put_u32be (length body))) body)
                  h in
            rw read (
              ground (
                arith,
                length-take n (put_u32be (length body) ++ body),
                length-append (put_u32be (length body)) body,
                head,
              ))
      ],
    )
