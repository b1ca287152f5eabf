-- ===== src/Bcode/RoundTrip.antt =====
-- What the format means, and that the decoder reads it back.
use libctorrent.Prelude.{
  ℕ, zero, suc, ◌+◌, ◌*◌, ◌^◌, ◌≤◌, ◌<◌, ◌≡◌, ◌≢◌, refl, ap, ◌∙◌, List, [], ◌∷◌, ◌++◌, append_assoc,
  arith, ◌==◌, length, length-append, take-append, drop-append, Bool-cases, inl, inr, ==→eq,
}
use libctorrent.Prelude.Int.{pos}
use libctorrent.Bcode.Value.{BCode, int, str, list, dict, Items, nil, cons}
use libctorrent.Bcode.Decode.{
  ok, read_natural, read_num, expect, read_string, read_counted, parse_string, parse, parse_list,
  parse_dict, bdecode_str,
}
use libctorrent.Bcode.Encode.{decimal, print_int, int_text, len_text}
use libctorrent.Bcode.Decimal.{magnitude, read_num-print_int, decimal-head}

-- The encoding of a value, as the format defines it.
unfoldable mutual
  pub encode : BCode → List ℕ
  encode (int n) = int_text n
  encode (str s) = len_text s ++ s
  encode (list l) = b'l' ∷ encode_items l ++ b'e' ∷ []
  encode (dict l) = b'd' ∷ encode_items l ++ b'e' ∷ []

  pub encode_items : Items → List ℕ
  encode_items nil = []
  encode_items (cons b l) = encode b ++ encode_items l

-- The integers and lengths of a value fit, and dictionaries hold a string before each value.
unfoldable mutual
  pub Fits : BCode → Type 0
  Fits (int n) = magnitude n < 2 ^ 63
  Fits (str s) = length s < 2 ^ 63
  Fits (list l) = FitsItems l
  Fits (dict l) = FitsEntries l

  pub FitsItems : Items → Type 0
  FitsItems nil = Unit {0}
  FitsItems (cons b l) = Fits b × FitsItems l

  pub FitsEntries : Items → Type 0
  FitsEntries nil = Unit {0}
  FitsEntries (cons (str k) (cons b l)) = (length k < 2 ^ 63) × Fits b × FitsEntries l
  FitsEntries _ = ⊥

-- The fuel that a value takes.
mutual
  weight : BCode → ℕ
  weight (int n) = 1
  weight (str s) = 1
  weight (list l) = 1 + weight_items l
  weight (dict l) = 1 + weight_items l

  weight_items : Items → ℕ
  weight_items nil = 1
  weight_items (cons b l) = 1 + weight b + weight_items l

-- The loops go on after an element: it cannot have begun with `e`.
list_step :
    (f : ℕ) (s r rest : List ℕ) (b : BCode) (l : Items)
    → parse f s ≡ ok b r
    → parse_list f r ≡ ok l rest
    → parse_list (suc f) s ≡ ok (cons b l) rest
unfolding parse parse_list
list_step zero s r rest b l p q = cc
list_step (suc f) [] r rest b l p q = cc
list_step (suc f) (c ∷ s) r rest b l p q = elim (Bool-cases (c == b'e')) [
  | inl e ↦ let same = ==→eq c b'e' e in absurd (no_e (rw same at p))
  | inr e ↦ rw (e, p, q) refl
]
  where
    no_e : parse (suc f) (b'e' ∷ s) ≢ ok b r
    no_e h = cc

dict_step :
    (f : ℕ) (s r r' rest : List ℕ) (k : List ℕ) (b : BCode) (l : Items)
    → parse_string s ≡ ok k r
    → parse f r ≡ ok b r'
    → parse_dict f r' ≡ ok l rest
    → parse_dict (suc f) s ≡ ok (cons (str k) (cons b l)) rest
unfolding parse_dict
dict_step f [] r r' rest k b l n p q = unfold parse_string read_num in cc
dict_step f (c ∷ s) r r' rest k b l n p q = elim (Bool-cases (c == b'e')) [
  | inl e ↦ let same = ==→eq c b'e' e in absurd (no_e (rw same at n))
  | inr e ↦ rw (e, n, p, q) refl
]
  where
    no_e : parse_string (b'e' ∷ s) ≢ ok k r
    no_e h = unfold parse_string read_num read_natural in cc

parse_string-decimal :
    (s rest : List ℕ)
    → length s < 2 ^ 63
    → parse_string (decimal (length s) ++ b':' ∷ (s ++ rest)) ≡ ok s rest
unfolding parse_string print_int expect read_counted read_string
parse_string-decimal s rest h =
    let read = read_num-print_int (pos (length s)) b':' (s ++ rest) refl h in
    rw read (ground (arith, length-append s rest, take-append s rest, drop-append s rest))

-- The text of a string, its brackets moved.
string_text :
    (s rest : List ℕ) → (len_text s ++ s) ++ rest ≡ decimal (length s) ++ b':' ∷ (s ++ rest)
string_text s rest =
    append_assoc (len_text s) s rest ∙ append_assoc (decimal (length s)) (b':' ∷ []) (s ++ rest)

-- A string is told by its digit.
parse-decimal :
    (n f : ℕ) (t : List ℕ) (s rest : List ℕ)
    → parse_string (decimal n ++ t) ≡ ok s rest
    → parse (suc f) (decimal n ++ t) ≡ ok (str s) rest
unfolding parse
parse-decimal n f t s rest h =
    let (c, l, shape, digit) = decimal-head n in rw shape (ground (arith, digit, rw shape at h))

mutual
  unfolding parse parse_list parse_dict encode Fits weight expect

  parse-encode :
      (b : BCode) (f : ℕ) (rest : List ℕ)
      → Fits b
      → weight b ≤ f
      → parse f (encode b ++ rest) ≡ ok b rest
  parse-encode (int n) zero rest h w = absurd (omega arith)
  parse-encode (int n) (suc f) rest h w =
      let read = read_num-print_int n b'e' rest refl h in
      ap (λ t. parse (suc f) (b'i' ∷ t)) (append_assoc (print_int n) (b'e' ∷ []) rest)
      ∙ rw read refl
  parse-encode (str s) zero rest h w = absurd (omega arith)
  parse-encode (str s) (suc f) rest h w =
      ap (parse (suc f)) (string_text s rest)
      ∙ parse-decimal (length s) f (b':' ∷ (s ++ rest)) s rest (parse_string-decimal s rest h)
  parse-encode (list l) zero rest h w = absurd (omega arith)
  parse-encode (list l) (suc f) rest h w =
      ap (λ t. parse (suc f) (b'l' ∷ t)) (append_assoc (encode_items l) (b'e' ∷ []) rest)
      ∙ rw (parse_list-encode l f rest h (omega arith)) refl
  parse-encode (dict l) zero rest h w = absurd (omega arith)
  parse-encode (dict l) (suc f) rest h w =
      ap (λ t. parse (suc f) (b'd' ∷ t)) (append_assoc (encode_items l) (b'e' ∷ []) rest)
      ∙ rw (parse_dict-encode l f rest h (omega arith)) refl

  parse_list-encode :
      (l : Items) (f : ℕ) (rest : List ℕ)
      → FitsItems l
      → weight_items l ≤ f
      → parse_list f (encode_items l ++ b'e' ∷ rest) ≡ ok l rest
  parse_list-encode nil zero rest h w = absurd (omega arith)
  parse_list-encode nil (suc f) rest h w = refl
  parse_list-encode (cons b l) zero rest h w = absurd (omega arith)
  parse_list-encode (cons b l) (suc f) rest (hb, hl) w =
      ap (parse_list (suc f)) (append_assoc (encode b) (encode_items l) (b'e' ∷ rest))
      ∙ list_step f (encode b ++ (encode_items l ++ b'e' ∷ rest)) (encode_items l ++ b'e' ∷ rest)
          rest b l (parse-encode b f (encode_items l ++ b'e' ∷ rest) hb (omega arith))
          (parse_list-encode l f rest hl (omega arith))

  parse_dict-encode :
      (l : Items) (f : ℕ) (rest : List ℕ)
      → FitsEntries l
      → weight_items l ≤ f
      → parse_dict f (encode_items l ++ b'e' ∷ rest) ≡ ok l rest
  parse_dict-encode nil zero rest h w = absurd (omega arith)
  parse_dict-encode nil (suc f) rest h w = refl
  parse_dict-encode (cons (str k) (cons b l)) zero rest h w = absurd (omega arith)
  parse_dict-encode (cons (str k) (cons b l)) (suc f) rest (hk, hb, hl) w =
      let end = encode_items l ++ b'e' ∷ rest in
      let text = encode b ++ end in
      ap (parse_dict (suc f)) (
        append_assoc (len_text k ++ k) (encode b ++ encode_items l) (b'e' ∷ rest)
        ∙ ap (λ t. (len_text k ++ k) ++ t) (append_assoc (encode b) (encode_items l) (b'e' ∷ rest)))
      ∙ dict_step f ((len_text k ++ k) ++ text) text end rest k b l
          (ap parse_string (string_text k text) ∙ parse_string-decimal k text hk)
          (parse-encode b f end hb (omega arith)) (parse_dict-encode l f rest hl (omega arith))
  parse_dict-encode (cons (str k) nil) f rest h w = absurd h
  parse_dict-encode (cons (int n) l) f rest h w = absurd h
  parse_dict-encode (cons (list n) l) f rest h w = absurd h
  parse_dict-encode (cons (dict n) l) f rest h w = absurd h

-- The text is long enough for the fuel.
mutual
  unfolding encode weight

  weight_lt : (b : BCode) → weight b < 2 * length (encode b)
  weight_lt (int n) = omega arith
  weight_lt (str s) =
      omega (arith, length-append (len_text s) s, length-append (decimal (length s)) (b':' ∷ []))
  weight_lt (list l) = omega (arith, weight_items_le l, length-append (encode_items l) (b'e' ∷ []))
  weight_lt (dict l) = omega (arith, weight_items_le l, length-append (encode_items l) (b'e' ∷ []))

  weight_items_le : (l : Items) → weight_items l ≤ 2 * length (encode_items l) + 1
  weight_items_le nil = omega arith
  weight_items_le (cons b l) =
      omega (arith, weight_lt b, weight_items_le l, length-append (encode b) (encode_items l))

-- `bt_bdecode_str` on the encoding of a value gives the value back and stops right behind it,
-- whatever follows. The integers are above -2^63 and below 2^63, the strings shorter than 2^63, and
-- dictionaries hold keys and values in turn.
pub bdecode_str-encode :
    (b : BCode) (rest : List ℕ) → Fits b → bdecode_str (encode b ++ rest) ≡ ok b rest
unfolding bdecode_str
bdecode_str-encode b rest h =
    parse-encode b _ rest h (omega (arith, weight_lt b, length-append (encode b) rest))
