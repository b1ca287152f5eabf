-- ===== src/Bcode/Decode.antt =====
-- The decoder of src/bcode.c on a string: `bt_bdecode_str` and what it calls.
-- The reader's buffer and its pushback are one list, the bytes still to be read: `sc_unget` is only
-- ever called with the character that `sc_get` has just returned, and before the next `sc_get`.
-- A byte above 127 that was pushed back is read again as a negative `char`; no test of the
-- decoder tells the two apart. `int64_t` wraps round.
use libctorrent.Prelude.{
  ℕ, zero, suc, ◌+◌, ◌-◌, ◌*◌, ◌%◌, ◌^◌, Bool, ◌&&◌, ◌||◌, List, [], ◌∷◌, ltb, leb, ◌==◌,
  if◌then◌else◌, length, take, drop,
}
use libctorrent.Prelude.Int.{ℤ, pos, negsuc, negate}
use libctorrent.Bcode.Value.{BCode, int, str, list, dict, Items, nil, cons}

-- The codes that the decoder throws. `overrun` is a key of negative length, which is copied past
-- the end of a buffer that is too small; `out_of_fuel` is the model's.
pub data DecodeError : Type 0 where
  e_syntax e_eof e_overflow overrun out_of_fuel : DecodeError

-- A value and the bytes behind it, or an error (`longjmp`).
pub data Parsed (A : Type 0) : Type 0 where
  ok : A → List ℕ → Parsed A
  err : DecodeError → Parsed A

abbrev pub bind : {A B : Type 0} → Parsed A → (A → List ℕ → Parsed B) → Parsed B
bind (ok a rest) f = f a rest
bind (err e) f = err e

-- `isdigit`
abbrev pub is_digit : ℕ → Bool
is_digit c = leb b'0' c && leb c b'9'

-- The `do … while` of `sc_read_num`, from the character that its test has seen. The product is in
-- `int64_t`: a result of 2^63 or more is negative, so less than `x`.
unfoldable pub read_digits : ℕ → List ℕ → Parsed ℕ
read_digits x [] = ok x []
read_digits x (c ∷ r) =
    let tmp = (10 * x + (c - b'0')) % 2 ^ 64 in
    let rest = read_digits tmp r in
    if is_digit c
    then (if leb (2 ^ 63) tmp || ltb tmp x then err e_overflow else rest)
    else ok x (c ∷ r)

-- `if (!isdigit(c)) throw_error(…)`, then the loop.
unfoldable pub read_natural : List ℕ → Parsed ℕ
read_natural [] = err e_syntax
read_natural (c ∷ r) = if is_digit c then read_digits 0 (c ∷ r) else err e_syntax

-- `sc_read_num`
unfoldable pub read_num : List ℕ → Parsed ℤ
read_num [] = err e_syntax
read_num (c ∷ r) =
    if c == b'0'
    then ok (pos 0) r
    else if c == b'-'
    then bind (read_natural r) (λ x rest. ok (negate x) rest)
    else bind (read_natural (c ∷ r)) (λ x rest. ok (pos x) rest)

-- EXPECT
unfoldable pub expect : ℕ → List ℕ → Parsed (Unit {0})
expect c [] = err e_syntax
expect c (d ∷ r) = if d == c then ok tt r else err e_syntax

-- `sc_read_string` of `len` bytes.
unfoldable pub read_string : ℕ → List ℕ → Parsed (List ℕ)
read_string len r = if ltb (length r) len then err e_syntax else ok (take len r) (drop len r)

-- What `parse_string` does with its length.
unfoldable pub read_counted : ℤ → List ℕ → Parsed (List ℕ)
read_counted (pos len) r = read_string len r
read_counted (negsuc n) r = err overrun

-- `parse_string`
unfoldable pub parse_string : List ℕ → Parsed (List ℕ)
parse_string r = bind (read_num r) (λ len r'. bind (expect b':' r') (λ _ r''. read_counted len r''))

-- `parse`, `parse_list` and `parse_dict`. The fuel bounds how deep the calls go; the loops of the
-- latter two call themselves for the elements that follow.
unfoldable mutual
  pub parse : ℕ → List ℕ → Parsed BCode
  parse zero r = err out_of_fuel
  parse (suc f) [] = err e_syntax
  parse (suc f) (c ∷ r) =
      let as_list = bind (parse_list f r) (λ l rest. ok (list l) rest) in
      let as_dict = bind (parse_dict f r) (λ l rest. ok (dict l) rest) in
      if c == b'i'
      then bind (read_num r) (λ n r'. bind (expect b'e' r') (λ _ rest. ok (int n) rest))
      else if c == b'l'
      then as_list
      else if c == b'd'
      then as_dict
      else if is_digit c
      then bind (parse_string (c ∷ r)) (λ s rest. ok (str s) rest)
      else err e_syntax

  pub parse_list : ℕ → List ℕ → Parsed Items
  parse_list zero r = err out_of_fuel
  parse_list (suc f) [] = err e_eof
  parse_list (suc f) (c ∷ r) =
      let more =
        bind (parse f (c ∷ r)) (λ b r'. bind (parse_list f r') (λ l rest. ok (cons b l) rest)) in
      if c == b'e' then ok nil r else more

  pub parse_dict : ℕ → List ℕ → Parsed Items
  parse_dict zero r = err out_of_fuel
  parse_dict (suc f) [] = err e_eof
  parse_dict (suc f) (c ∷ r) =
      let more = bind (parse_string (c ∷ r)) (λ k r'.
        bind (parse f r')
          (λ b r''. bind (parse_dict f r'') (λ l rest. ok (cons (str k) (cons b l)) rest))) in
      if c == b'e' then ok nil r else more

-- `bt_bdecode_str`; what follows the first value is ignored. Each call of the parser takes a byte or
-- is followed by one that does, so that the fuel is enough.
unfoldable pub bdecode_str : List ℕ → Parsed BCode
bdecode_str s = parse (2 * length s + 3) s
