-- ===== src/Tests/Codecs.antt =====
-- src/message.c, src/bcode.c and the framing of src/peer.c at concrete inputs.
use libctorrent.Prelude.{
  ℕ, ◌<◌, ◌≡◌, refl, Bool, true, false, List, [], ◌∷◌, ◌++◌, arith, length, take, replicate,
}
use libctorrent.Prelude.Int.{pos}
use libctorrent.Prelude.Outcome.{ok}
use libctorrent.Wire.{put_u32be}
use libctorrent.Message.{request, HandshakeMsg, msg_pack, m_piece, bt_handshake, protocol_magic}
use libctorrent.Message.Laws.{RoundTrip}
use libctorrent.Bcode.Value.{BCode, int, str, list, dict, nil, cons}
use libctorrent.Bcode.Decode.{Parsed, bdecode_str}
use libctorrent.Bcode.Encode.{bencode, bencode_size, blit, print_int, decimal, digits_of}
use libctorrent.Bcode.RoundTrip.{encode, Fits, bdecode_str-encode}
use libctorrent.Bcode.Total.{Ends, bdecode_str-Ends}
use libctorrent.Bcode.Exact.{bencode_lem}
use libctorrent.Peer.{has_message}
use libctorrent.Peer.Framing.{has_message_lem}

abbrev plenty : ℕ → Bool
plenty n = true

abbrev request_bytes : List ℕ
request_bytes = 0 ∷ 0 ∷ 0 ∷ 13 ∷ 6 ∷ 0 ∷ 0 ∷ 0 ∷ 3 ∷ 0 ∷ 0 ∷ 64 ∷ 0 ∷ 0 ∷ 0 ∷ 64 ∷ 0 ∷ []

packed_request : msg_pack (request 13 3 16384 16384) ≡ ok request_bytes
unfolding msg_pack put_u32be
packed_request = refl

abbrev piece_wire : List ℕ
piece_wire = put_u32be 13 ++ m_piece ∷ put_u32be 2 ++ put_u32be 0 ++ 1 ∷ 2 ∷ 3 ∷ 4 ∷ []

abbrev some_hash : List ℕ
some_hash = replicate 20 9

abbrev some_id : List ℕ
some_id = replicate 20 5

abbrev some_handshake : HandshakeMsg
some_handshake = record {
  len = 64;
  magic = protocol_magic;
  reserved = replicate 8 0;
  info_hash = some_hash;
  peer_id = some_id;
}

new_handshake : bt_handshake plenty some_hash some_id ≡ ok some_handshake
unfolding bt_handshake
new_handshake = refl

has_message_lem_example :
    (has_message (put_u32be 5 ++ ((4 ∷ 0 ∷ 0 ∷ 0 ∷ 7 ∷ []) ++ 1 ∷ [])) ≡ true)
    × ((n : ℕ) → n < 9 → has_message (take n (put_u32be 5 ++ (4 ∷ 0 ∷ 0 ∷ 0 ∷ 7 ∷ []))) ≡ false)
has_message_lem_example = has_message_lem (4 ∷ 0 ∷ 0 ∷ 0 ∷ 7 ∷ []) (1 ∷ []) (omega arith)

-- The dictionary of one entry, a list of a number and a string.
abbrev some_info : BCode
some_info = dict (
    cons (str (b'a' ∷ []))
      (cons (list (cons (int (pos 7)) (cons (str (b'b' ∷ b'c' ∷ [])) nil))) nil))

some_info-Fits : Fits some_info
unfolding Fits
some_info-Fits = (omega arith, (omega arith, (omega arith, tt)), tt)

bdecode_str-encode_example :
    bdecode_str (encode some_info ++ 1 ∷ 2 ∷ []) ≡ Parsed.ok some_info (1 ∷ 2 ∷ [])
bdecode_str-encode_example = bdecode_str-encode some_info (1 ∷ 2 ∷ []) some_info-Fits

some_info-size : bencode_size some_info ≡ 14
unfolding bencode_size print_int decimal digits_of
some_info-size = refl

bencode_lem_example :
    (bencode (replicate 20 0) 0 20 some_info
      ≡ (bencode_size some_info, blit (replicate 20 0) 0 (encode some_info)))
    × (bencode_size some_info ≡ length (encode some_info))
bencode_lem_example =
    bencode_lem some_info (replicate 20 0) 20 (omega (arith, some_info-size)) (omega arith)

-- A list that is not closed.
bdecode_str-Ends_example : Ends 4 (bdecode_str (b'l' ∷ b'i' ∷ b'7' ∷ b'e' ∷ []))
bdecode_str-Ends_example = bdecode_str-Ends (b'l' ∷ b'i' ∷ b'7' ∷ b'e' ∷ [])
