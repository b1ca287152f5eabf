-- ===== src/Tests/Metainfos.antt =====
-- Looking up and printing values, setting a torrent up, and filling the buffer, at concrete inputs.
use libctorrent.Prelude.{
  ℕ, zero, suc, ◌<◌, ◌≡◌, ◌≢◌, refl, sym, ap, Bool, true, false, none, some, List, [], ◌∷◌, ◌++◌,
  arith, replicate, length-replicate, ◌==◌, ◌||◌,
}
use libctorrent.Prelude.Int.{pos}
use libctorrent.Prelude.Outcome.{failed, Returns}
use libctorrent.Bcode.Value.{BCode, int, str, list, dict, Items, nil, cons}
use libctorrent.Bcode.Lookup.{
  Found, value, missing, stray, below, name, bstring_cmp, entry_at, entry_count, bdict_get,
  bdict_loop, bcode_get,
}
use libctorrent.Bcode.Lookup.Find.{IsOrdered, Search, bdict_get_lem}
use libctorrent.Bcode.Print.{bt_bcode_fprint}
use libctorrent.Bcode.Print.Clean.{AllClean, bt_bcode_fprint-AllClean}
use libctorrent.Metainfo.{init_pieces, get_trackers, announce_key, announce_list_key}
use libctorrent.Metainfo.Pieces.{Tiled, init_pieces-Tiled, init_pieces-multiple}
use libctorrent.Metainfo.Trackers.{announced, listed, bounded, get_trackers_lem}
use libctorrent.Metainfo.Load.{
  info_key, files_key, length_key, name_key, piece_length_key, pieces_key,
}
use libctorrent.Message.{Msg, other, have, msg_id, msg_len, msg_pack, m_piece, m_bitfield}
use libctorrent.Wire.{put_u32be}
use libctorrent.Ring.{Ring}
use libctorrent.Ring.Laws.{IsValid}
use libctorrent.Peer.{Peer, peer_init, txq_cap, no_msg}
use libctorrent.Peer.Laws.{queued}
use libctorrent.Peer.Send.{txqueue_messages}
use libctorrent.Peer.Send.Whole.{
  Packs, PacksAll, nothing, first, txqueue_messages_lem, txqueue_messages_lost,
}

abbrev plenty : ℕ → Bool
plenty n = true

-- Two entries, in order.
abbrev small_dict : Items
small_dict =
    cons (str (b'a' ∷ [])) (cons (int (pos 1)) (cons (str (b'b' ∷ [])) (cons (int (pos 2)) nil)))

small_dict_entry :
    (i : ℕ)
    → i < entry_count small_dict
    → (k : List ℕ) × (b : BCode) × (entry_at small_dict i ≡ some (k, b))
unfolding entry_at entry_count
small_dict_entry zero h = (b'a' ∷ [], int (pos 1), refl)
small_dict_entry (suc zero) h = (b'b' ∷ [], int (pos 2), refl)
small_dict_entry (suc (suc i)) h = absurd (omega arith)

small_dict_less :
    (i j : ℕ) (k k' : List ℕ) (b b' : BCode)
    → i < j
    → entry_at small_dict i ≡ some (k, b)
    → entry_at small_dict j ≡ some (k', b')
    → bstring_cmp k k' ≡ below
unfolding entry_at bstring_cmp
small_dict_less i (suc (suc j)) k k' b b' h e e' = absurd cc
small_dict_less (suc (suc i)) j k k' b b' h e e' = absurd cc
small_dict_less zero (suc zero) k k' b b' h e e' =
    let first_key : b'a' ∷ [] ≡ k = cc in
    let second_key : b'b' ∷ [] ≡ k' = cc in rw (sym first_key, sym second_key) refl
small_dict_less zero zero k k' b b' h e e' = absurd (omega arith)
small_dict_less (suc zero) zero k k' b b' h e e' = absurd (omega arith)
small_dict_less (suc zero) (suc zero) k k' b b' h e e' = absurd (omega arith)

small_dict-IsOrdered : IsOrdered small_dict
small_dict-IsOrdered = record { entry = small_dict_entry; less = small_dict_less }

bdict_get_lem_example :
    Search small_dict (b'b' ∷ []) (bdict_get small_dict (b'b' ∷ []))
    × ((i : ℕ) (b : BCode)
        → entry_at small_dict i ≡ some (b'b' ∷ [], b)
        → bdict_get small_dict (b'b' ∷ []) ≡ value b)
bdict_get_lem_example = bdict_get_lem small_dict (b'b' ∷ []) small_dict-IsOrdered

bt_bcode_fprint-AllClean_example :
    AllClean (bt_bcode_fprint (list (cons (str (0 ∷ 27 ∷ b'x' ∷ [])) nil)))
bt_bcode_fprint-AllClean_example =
    bt_bcode_fprint-AllClean (list (cons (str (0 ∷ 27 ∷ b'x' ∷ [])) nil))

-- Three hashes for 40000 bytes in pieces of 16384.
init_pieces-Tiled_example :
    Returns (Tiled 40000 16384 0) (init_pieces plenty 40000 16384 (replicate 60 7))
init_pieces-Tiled_example =
    init_pieces-Tiled plenty 40000 16384 (λ k. refl) (replicate 60 7) (omega arith) (omega arith)
      (omega arith) (omega arith)

-- Twenty hashes for twenty pieces of two bytes.
init_pieces-multiple_example : init_pieces plenty 40 2 (replicate 400 7) ≡ failed
init_pieces-multiple_example =
    init_pieces-multiple plenty 40 2 (λ k. refl) 1 (replicate 400 7) (omega arith) (omega arith)
      refl (omega arith) (omega arith)

abbrev one_tracker : BCode
one_tracker = dict (cons (str announce_key) (cons (str (b'u' ∷ [])) nil))

-- The only entry also answers the longer key.
tracker_found : bcode_get one_tracker (name announce_key) ≡ value (str (b'u' ∷ []))
unfolding bcode_get bdict_get bdict_loop entry_at entry_count bstring_cmp
tracker_found = refl

list_found : bcode_get one_tracker (name announce_list_key) ≡ value (str (b'u' ∷ []))
unfolding bcode_get bdict_get bdict_loop entry_at entry_count bstring_cmp
list_found = refl

value_stray : (b : BCode) (f : Found) → f ≡ value b → f ≢ stray
value_stray b f e = λ h. absurd cc

get_trackers_lem_example :
    get_trackers one_tracker
    ≡ bounded (
        announced (bcode_get one_tracker (name announce_key))
        ++ listed (bcode_get one_tracker (name announce_list_key)))
get_trackers_lem_example =
    get_trackers_lem one_tracker
      (value_stray (str (b'u' ∷ [])) (bcode_get one_tracker (name announce_key)) tracker_found)
      (value_stray (str (b'u' ∷ [])) (bcode_get one_tracker (name announce_list_key)) list_found)

-- A file of 40000 bytes in three pieces.
abbrev single_info : Items
single_info = cons (str length_key) (
    cons (int (pos 40000)) (
      cons (str name_key) (
        cons (str (b'f' ∷ [])) (
          cons (str piece_length_key)
            (cons (int (pos 16384)) (cons (str pieces_key) (cons (str (replicate 60 7)) nil)))))))

abbrev single_file : Items
single_file =
    cons (str announce_key)
      (cons (str (b'u' ∷ [])) (cons (str info_key) (cons (dict single_info) nil)))

info_found : bcode_get (dict single_file) (name info_key) ≡ value (dict single_info)
unfolding bcode_get bdict_get bdict_loop entry_at entry_count bstring_cmp
info_found = refl

no_files : bcode_get (dict single_info) (name files_key) ≡ missing
unfolding bcode_get bdict_get bdict_loop entry_at entry_count bstring_cmp
no_files = refl

-- A message to send, and one that is too long behind it.
abbrev told : Msg
told = have 5 3

abbrev too_long : Msg
too_long = other 20000 30

abbrev with_queue : Ring Msg → Peer
with_queue q = record (peer_init (record { len = 1; bits = 0 ∷ [] })) { txqueue = q }

abbrev one_waits : Ring Msg
one_waits = record { slots = told ∷ replicate 4095 no_msg; qhead = 0; qtail = 1; n = 1 }

abbrev two_wait : Ring Msg
two_wait = record { slots = told ∷ too_long ∷ replicate 4094 no_msg; qhead = 0; qtail = 2; n = 2 }

one_waits-IsValid : IsValid txq_cap no_msg one_waits
one_waits-IsValid = record {
  sized = ap suc (length-replicate {A = Msg} 4095 no_msg);
  some_room = omega arith;
  head_in = omega arith;
  tail_in = omega arith;
  bounded = omega arith;
  linked = refl;
}

two_wait-IsValid : IsValid txq_cap no_msg two_wait
two_wait-IsValid = record {
  sized = ap (λ n. suc (suc n)) (length-replicate {A = Msg} 4094 no_msg);
  some_room = omega arith;
  head_in = omega arith;
  tail_in = omega arith;
  bounded = omega arith;
  linked = refl;
}

abbrev told_bytes : List ℕ
told_bytes = 0 ∷ 0 ∷ 0 ∷ 5 ∷ 4 ∷ 0 ∷ 0 ∷ 0 ∷ 3 ∷ []

told-Packs : Packs told told_bytes
unfolding msg_id msg_pack msg_len put_u32be
told-Packs = (refl, refl, refl)

told-PacksAll : PacksAll (told ∷ []) (told_bytes ++ [])
told-PacksAll = first told_bytes [] told-Packs nothing

txqueue_messages_lem_example :
    Returns
      (λ r. (r.filled ≡ some told_bytes) × (queued r.sender ≡ []))
      (txqueue_messages (with_queue one_waits))
txqueue_messages_lem_example =
    txqueue_messages_lem (with_queue one_waits) one_waits-IsValid refl told-PacksAll (omega arith)

too_long_len : msg_len too_long ≡ 20004
unfolding msg_len
too_long_len = refl

too_long_kind : (msg_id too_long == m_piece || msg_id too_long == m_bitfield) ≡ false
unfolding msg_id
too_long_kind = refl

txqueue_messages_lost_example :
    Returns
      (λ r. (r.filled ≡ none) × (queued r.sender ≡ [] ++ too_long ∷ []))
      (txqueue_messages (with_queue two_wait))
txqueue_messages_lost_example =
    txqueue_messages_lost (with_queue two_wait) too_long [] two_wait-IsValid refl told-PacksAll
      (omega arith) too_long_kind (omega (arith, too_long_len))
