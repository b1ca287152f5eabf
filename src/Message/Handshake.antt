-- ===== src/Message/Handshake.antt =====
-- The handshake on the wire.
use libctorrent.Prelude.{
  ℕ, ◌≡◌, refl, Bool, true, List, [], ◌++◌, arith, length, take, drop, replicate, take-append,
  drop-append, append-nil, append_assoc, length-append,
}
use libctorrent.Prelude.Outcome.{ok}
use libctorrent.Message.{
  HandshakeMsg, handshake, protocol_magic, bt_handshake, handshake_unpack, msg_pack, msg_len,
}

take_whole {ℓ} : {A : Type ℓ} (n : ℕ) (xs ys : List A) → length xs ≡ n → take n (xs ++ ys) ≡ xs
take_whole n xs ys h = rw (← h) (take-append xs ys)

take_exact {ℓ} : {A : Type ℓ} (n : ℕ) (xs : List A) → length xs ≡ n → take n xs ≡ xs
take_exact n xs h = rw (append-nil xs) at (take_whole n xs [] h)

drop_whole {ℓ} : {A : Type ℓ} (n : ℕ) (xs ys : List A) → length xs ≡ n → drop n (xs ++ ys) ≡ ys
drop_whole n xs ys h = rw (← h) (drop-append xs ys)

-- A handshake that `bt_handshake` builds for a torrent and a peer is packed into 68 bytes, as many
-- as `bt_msg_len` says, and unpacking these, whatever follows them, gives it back.
pub handshake_unpack-msg_pack :
    (alloc : ℕ → Bool) (info_hash peer_id rest : List ℕ) {h : HandshakeMsg}
    → alloc 73 ≡ true
    → length info_hash ≡ 20
    → length peer_id ≡ 20
    → bt_handshake alloc info_hash peer_id ≡ ok h
    → (bytes : List ℕ) × (msg_pack (handshake h) ≡ ok bytes)
      × (length bytes ≡ 68)
      × (msg_len (handshake h) ≡ 68)
      × (handshake_unpack alloc (bytes ++ rest) ≡ ok h)
unfolding bt_handshake handshake_unpack msg_pack msg_len
handshake_unpack-msg_pack alloc info_hash peer_id rest {h} fits hl pl e =
    let hash_cut = take_exact 20 info_hash hl in
    let id_cut = take_exact 20 peer_id pl in
    let built : h ≡ made = ground (arith, hash_cut, id_cut) in
    (
      protocol_magic ++ replicate 8 0 ++ info_hash ++ peer_id,
      rw built (ground (arith, hash_cut, id_cut)),
      omega (arith, length-append info_hash peer_id),
      rw built refl,
      rw built (
          ground (
            arith,
            append_assoc info_hash peer_id rest,
            take_whole 20 info_hash (peer_id ++ rest) hl,
            drop_whole 20 info_hash (peer_id ++ rest) hl,
            take_whole 20 peer_id rest pl,
          )),
    )
  where
    made : HandshakeMsg
    made = record {
      len = 64;
      magic = protocol_magic;
      reserved = replicate 8 0;
      info_hash = info_hash;
      peer_id = peer_id;
    }
