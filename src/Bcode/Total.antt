-- ===== src/Bcode/Total.antt =====
-- The decoder of src/bcode.c comes to an end on every text: each call takes at least one byte, so
-- that the fuel of the model is enough.
use libctorrent.Prelude.{
  ℕ, zero, suc, ◌+◌, ◌-◌, ◌*◌, ◌%◌, ◌^◌, ◌≤◌, ◌<◌, ◌≡◌, Bool, true, false, ◌||◌, List, [], ◌∷◌,
  arith, ltb, leb, ◌==◌, if◌then◌else◌, length, length-drop, take, drop, Bool-cases, inl, inr,
}
use libctorrent.Prelude.Int.{ℤ, pos, negsuc, negate}
use libctorrent.Bcode.Value.{int, str, list, dict, nil}
use libctorrent.Bcode.Decode.{
  DecodeError, e_syntax, e_overflow, out_of_fuel, Parsed, ok, err, bind, is_digit, read_digits,
  read_natural, read_num, expect, read_string, read_counted, parse_string, parse, parse_list,
  parse_dict, bdecode_str,
}

-- How the code stops: it throws an error, or it writes behind its memory (`overrun`).
abbrev pub IsReal : DecodeError → Type 0
IsReal out_of_fuel = ⊥
IsReal e = Unit {0}

-- The call ends: with a value and less than `n` bytes left, or where the code stops.
abbrev pub Ends : {A : Type 0} → ℕ → Parsed A → Type 0
Ends n (ok a r) = length r < n
Ends n (err e) = IsReal e

Ends-mono : {A : Type 0} (n k : ℕ) (m : Parsed A) → n ≤ k → Ends n m → Ends k m
Ends-mono n k (ok a r) h e = omega arith
Ends-mono n k (err x) h e = e

Ends-bind :
    {A B : Type 0} (n k : ℕ) (m : Parsed A) (f : A → List ℕ → Parsed B)
    → Ends n m
    → ((a : A) (r : List ℕ) → length r < n → Ends k (f a r))
    → Ends k (bind m f)
Ends-bind n k (ok a r) f h g = g a r h
Ends-bind n k (err e) f h g = h

Ends-if :
    {A : Type 0} (n : ℕ) (b : Bool) (x y : Parsed A)
    → Ends n x
    → Ends n y
    → Ends n (if b then x else y)
Ends-if n true x y h k = h
Ends-if n false x y h k = k

read_digits-Ends : (x : ℕ) (s : List ℕ) → Ends (length s + 1) (read_digits x s)
unfolding read_digits
read_digits-Ends x [] = omega arith
read_digits-Ends x (c ∷ r) =
    let tmp = (10 * x + (c - b'0')) % 2 ^ 64 in
    let rest =
      Ends-mono (length r + 1) (length (c ∷ r) + 1) (read_digits tmp r) (omega arith)
        (read_digits-Ends tmp r) in
    Ends-if (length (c ∷ r) + 1) (is_digit c) _ (ok x (c ∷ r))
      (Ends-if (length (c ∷ r) + 1) (leb (2 ^ 63) tmp || ltb tmp x) (err e_overflow)
        (read_digits tmp r) tt rest)
      (omega arith)

first_digit :
    (x c : ℕ) (r : List ℕ) → is_digit c ≡ true → Ends (length (c ∷ r)) (read_digits x (c ∷ r))
unfolding read_digits
first_digit x c r h =
    let tmp = (10 * x + (c - b'0')) % 2 ^ 64 in
    let rest =
      Ends-mono (length r + 1) (length (c ∷ r)) (read_digits tmp r) (omega arith)
        (read_digits-Ends tmp r) in
    rw h (
      Ends-if (length (c ∷ r)) (leb (2 ^ 63) tmp || ltb tmp x) (err e_overflow) (read_digits tmp r)
        tt rest)

read_natural-Ends : (s : List ℕ) → Ends (length s) (read_natural s)
unfolding read_natural
read_natural-Ends [] = tt
read_natural-Ends (c ∷ r) = elim (Bool-cases (is_digit c)) [
  | inl digit ↦ rw digit (first_digit 0 c r digit)
  | inr other ↦ rw other tt
]

read_num-Ends : (s : List ℕ) → Ends (length s) (read_num s)
unfolding read_num
read_num-Ends [] = tt
read_num-Ends (c ∷ r) =
    let n = length (c ∷ r) in
    Ends-if n (c == b'0') (ok (pos 0) r) _ (omega arith) (
      Ends-if n (c == b'-') (bind (read_natural r) (λ x rest. ok (negate x) rest))
        (bind (read_natural (c ∷ r)) (λ x rest. ok (pos x) rest))
        (Ends-bind (length r) n (read_natural r) (λ x rest. ok (negate x) rest)
          (read_natural-Ends r) (λ a s h. omega arith))
        (Ends-bind n n (read_natural (c ∷ r)) (λ x rest. ok (pos x) rest)
          (read_natural-Ends (c ∷ r)) (λ a s h. h)))

expect-Ends : (c : ℕ) (s : List ℕ) → Ends (length s) (expect c s)
unfolding expect
expect-Ends c [] = tt
expect-Ends c (d ∷ r) = Ends-if (length (d ∷ r)) (d == c) (ok tt r) (err e_syntax) (omega arith) tt

read_counted-Ends : (z : ℤ) (s : List ℕ) → Ends (length s + 1) (read_counted z s)
unfolding read_counted read_string
read_counted-Ends (pos len) s =
    Ends-if (length s + 1) (ltb (length s) len) (err e_syntax) (ok (take len s) (drop len s)) tt
      (omega (arith, length-drop len s))
read_counted-Ends (negsuc n) s = tt

parse_string-Ends : (s : List ℕ) → Ends (length s) (parse_string s)
unfolding parse_string
parse_string-Ends s = Ends-bind (length s) (length s) (read_num s) _ (read_num-Ends s) (λ len r h.
    Ends-bind (length r) (length s) (expect b':' r) _ (expect-Ends b':' r) (λ _ r' k.
      Ends-mono (length r' + 1) (length s) (read_counted len r') (omega arith)
        (read_counted-Ends len r')))

mutual
  unfolding parse parse_list parse_dict

  parse-Ends : (f : ℕ) (s : List ℕ) → 2 * length s + 1 ≤ f → Ends (length s) (parse f s)
  parse-Ends zero s h = absurd (omega arith)
  parse-Ends (suc f) [] h = tt
  parse-Ends (suc f) (c ∷ r) h =
      let n = length (c ∷ r) in
      Ends-if n (c == b'i')
        (bind (read_num r) (λ z r'. bind (expect b'e' r') (λ _ rest. ok (int z) rest))) _
        (Ends-bind (length r) n (read_num r) _ (read_num-Ends r) (λ z r' k.
          Ends-bind (length r') n (expect b'e' r') _ (expect-Ends b'e' r')
            (λ _ rest k'. omega arith)))
        (Ends-if n (c == b'l') (bind (parse_list f r) (λ l rest. ok (list l) rest)) _
          (Ends-bind (length r) n (parse_list f r) _ (parse_list-Ends f r (omega arith))
            (λ l rest k. omega arith))
          (Ends-if n (c == b'd') (bind (parse_dict f r) (λ l rest. ok (dict l) rest)) _
            (Ends-bind (length r) n (parse_dict f r) _ (parse_dict-Ends f r (omega arith))
              (λ l rest k. omega arith))
            (Ends-if n (is_digit c) (bind (parse_string (c ∷ r)) (λ t rest. ok (str t) rest))
              (err e_syntax)
              (Ends-bind n n (parse_string (c ∷ r)) _ (parse_string-Ends (c ∷ r)) (λ t rest k. k))
              tt)))

  parse_list-Ends : (f : ℕ) (s : List ℕ) → 2 * length s + 2 ≤ f → Ends (length s) (parse_list f s)
  parse_list-Ends zero s h = absurd (omega arith)
  parse_list-Ends (suc f) [] h = tt
  parse_list-Ends (suc f) (c ∷ r) h =
      let n = length (c ∷ r) in
      Ends-if n (c == b'e') (ok nil r) _ (omega arith) (
        Ends-bind n n (parse f (c ∷ r)) _ (parse-Ends f (c ∷ r) (omega arith)) (λ b r' k.
          Ends-bind (length r') n (parse_list f r') _ (parse_list-Ends f r' (omega arith))
            (λ l rest k'. omega arith)))

  parse_dict-Ends : (f : ℕ) (s : List ℕ) → 2 * length s + 2 ≤ f → Ends (length s) (parse_dict f s)
  parse_dict-Ends zero s h = absurd (omega arith)
  parse_dict-Ends (suc f) [] h = tt
  parse_dict-Ends (suc f) (c ∷ r) h =
      let n = length (c ∷ r) in
      Ends-if n (c == b'e') (ok nil r) _ (omega arith) (
        Ends-bind n n (parse_string (c ∷ r)) _ (parse_string-Ends (c ∷ r)) (λ t r' k.
          Ends-bind (length r') n (parse f r') _ (parse-Ends f r' (omega arith)) (λ b r'' k'.
            Ends-bind (length r'') n (parse_dict f r'') _ (parse_dict-Ends f r'' (omega arith))
              (λ l rest k''. omega arith))))

-- On every text the recursion of `bt_bdecode_str` comes to an end: with a value, at least one byte
-- further on; with an error that the code throws; or at a key of negative length, which the code copies
-- behind its memory. The model does not run out of fuel.
pub bdecode_str-Ends : (s : List ℕ) → Ends (length s) (bdecode_str s)
unfolding bdecode_str
bdecode_str-Ends s = parse-Ends _ s (omega arith)
