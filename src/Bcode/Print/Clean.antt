-- ===== src/Bcode/Print/Clean.antt =====
-- What `bt_bcode_fprint` of src/bcode.c puts on a terminal.
use libctorrent.Prelude.{
  ℕ, zero, suc, ◌+◌, ◌-◌, ◌/◌, ◌%◌, ◌^◌, ◌≤◌, ◌<◌, ◌≡◌, ◌⊎◌, inl, inr, refl, ◌||◌, List, [], ◌∷◌,
  ◌++◌, ltb, ◌==◌, replicate, arith, Bool-cases,
}
use libctorrent.Prelude.Int.{ℤ, pos, negsuc}
use libctorrent.Bcode.Value.{BCode, int, str, list, dict, Items, nil, cons}
use libctorrent.Bcode.Encode.{digits_of, decimal, print_int}
use libctorrent.Bcode.Print.{
  is_print, hex_digit, indent_loop, add_indent, byte_fprint, bytes_fprint, bstring_fprint, lead,
  inner, separator, bcode_fprint, list_fprint, dict_fprint, bt_bcode_fprint,
}

-- A printable character or the end of a line.
abbrev pub IsClean : ℕ → Type 0
IsClean c = (c ≡ 10) ⊎ ((32 ≤ c) × (c < 127))

abbrev pub AllClean : List ℕ → Type 0
AllClean [] = Unit {0}
AllClean (c ∷ s) = IsClean c × AllClean s

AllClean-append : (s t : List ℕ) → AllClean s → AllClean t → AllClean (s ++ t)
AllClean-append [] t h k = k
AllClean-append (c ∷ s) t (h, hs) k = (h, AllClean-append s t hs k)

spaces-AllClean : (n : ℕ) → AllClean (replicate n 32)
spaces-AllClean zero = tt
spaces-AllClean (suc n) = (inr (omega arith, omega arith), spaces-AllClean n)

indent-AllClean : (fuel n : ℕ) → AllClean (indent_loop fuel n)
unfolding indent_loop
indent-AllClean zero n = spaces-AllClean n
indent-AllClean (suc fuel) n = elim (Bool-cases (ltb 513 n)) [
  | inl more ↦ rw more (
      AllClean-append (replicate 513 32) (indent_loop fuel (n - 513)) (spaces-AllClean 513)
        (indent-AllClean fuel (n - 513)))
  | inr less ↦ rw less (spaces-AllClean n)
]

digits_of-AllClean : (f n : ℕ) → AllClean (digits_of f n)
unfolding digits_of
digits_of-AllClean zero n = tt
digits_of-AllClean (suc f) n = elim (Bool-cases (ltb n 10)) [
  | inl one ↦ rw one (inr (ground arith, ground arith), tt)
  | inr more ↦ rw more (
      AllClean-append (digits_of f (n / 10)) ((b'0' + n % 10) ∷ []) (digits_of-AllClean f (n / 10))
        (inr (omega arith, omega arith), tt))
]

print_int-AllClean : (n : ℤ) → AllClean (print_int n)
unfolding print_int decimal
print_int-AllClean (pos n) = digits_of-AllClean (n + 1) n
print_int-AllClean (negsuc n) =
    (inr (omega arith, omega arith), digits_of-AllClean (n + 1 + 1) (n + 1))

hex_digit-IsClean : (d : ℕ) → d < 16 → IsClean (hex_digit d)
hex_digit-IsClean d h = inr (ground arith, ground arith)

byte_fprint-AllClean : (c : ℕ) → AllClean (byte_fprint c)
byte_fprint-AllClean c = elim (Bool-cases (c == b'"' || c == b'\\')) [
  | inl quoted ↦ rw quoted (inr (omega arith, omega arith), (inr (ground arith, ground arith), tt))
  | inr plain ↦ elim (Bool-cases (is_print c)) [
    | inl shown ↦ rw (plain, shown) (inr (ground arith, ground arith), tt)
    | inr hidden ↦
        rw (plain, hidden)
          (
            inr (omega arith, omega arith),
            (
              inr (omega arith, omega arith),
              (
                hex_digit-IsClean (c / 16 % 16) (omega arith),
                (hex_digit-IsClean (c % 16) (omega arith), tt),
              ),
            ),
          )
  ]
]

bytes_fprint-AllClean : (s : List ℕ) → AllClean (bytes_fprint s)
unfolding bytes_fprint
bytes_fprint-AllClean [] = tt
bytes_fprint-AllClean (c ∷ s) =
    AllClean-append (byte_fprint c) (bytes_fprint s) (byte_fprint-AllClean c)
      (bytes_fprint-AllClean s)

bstring_fprint-AllClean : (s : List ℕ) → AllClean (bstring_fprint s)
unfolding bstring_fprint
bstring_fprint-AllClean s = (
  inr (omega arith, omega arith),
  AllClean-append (bytes_fprint s) (b'"' ∷ []) (bytes_fprint-AllClean s)
      (inr (omega arith, omega arith), tt),
)

lead-AllClean : (i n : ℕ) → AllClean (lead i n)
unfolding add_indent
lead-AllClean i n = elim (Bool-cases (i == 0)) [
  | inl first ↦ rw first tt
  | inr later ↦ rw later (indent-AllClean (n + 4) (n + 4))
]

separator-AllClean : (l : Items) → AllClean (separator l)
separator-AllClean nil = tt
separator-AllClean (cons b l) = (inr (omega arith, omega arith), (inl refl, tt))

mutual
  unfolding bcode_fprint

  bcode_fprint-AllClean : (b : BCode) (n : ℕ) → AllClean (bcode_fprint b n)
  bcode_fprint-AllClean (int z) n = print_int-AllClean z
  bcode_fprint-AllClean (str s) n = bstring_fprint-AllClean s
  bcode_fprint-AllClean (list l) n = (
    inr (omega arith, omega arith),
    AllClean-append (list_fprint l 0 n) (b']' ∷ []) (list_fprint-AllClean l 0 n)
        (inr (omega arith, omega arith), tt),
  )
  bcode_fprint-AllClean (dict l) n = (
    inr (omega arith, omega arith),
    AllClean-append (dict_fprint l 0 n) (b'}' ∷ []) (dict_fprint-AllClean l 0 n)
        (inr (omega arith, omega arith), tt),
  )

  list_fprint-AllClean : (l : Items) (i n : ℕ) → AllClean (list_fprint l i n)
  list_fprint-AllClean nil i n = tt
  list_fprint-AllClean (cons b l) i n = AllClean-append (lead i n) _ (lead-AllClean i n) (
      AllClean-append (bcode_fprint b (inner i n)) _ (bcode_fprint-AllClean b (inner i n))
        (AllClean-append (separator l) _ (separator-AllClean l) (list_fprint-AllClean l (i + 1) n)))

  dict_fprint-AllClean : (l : Items) (i n : ℕ) → AllClean (dict_fprint l i n)
  dict_fprint-AllClean nil i n = tt
  dict_fprint-AllClean (cons k nil) i n = tt
  dict_fprint-AllClean (cons k (cons b l)) i n = AllClean-append (lead i n) _ (lead-AllClean i n) (
      AllClean-append (bcode_fprint k (inner i n)) _ (bcode_fprint-AllClean k (inner i n)) (
        inr (omega arith, omega arith),
        AllClean-append (bcode_fprint b ((n + 4) % 2 ^ 32)) _
            (bcode_fprint-AllClean b ((n + 4) % 2 ^ 32))
            (AllClean-append (separator l) _ (separator-AllClean l)
              (dict_fprint-AllClean l (i + 2) n)),
      ))

-- Whatever bytes a decoded value holds, `bt_bcode_fprint` writes printable characters and ends of
-- lines only: no control character of a string reaches the output.
pub bt_bcode_fprint-AllClean : (b : BCode) → AllClean (bt_bcode_fprint b)
unfolding bt_bcode_fprint
bt_bcode_fprint-AllClean b =
    AllClean-append (bcode_fprint b 0) (10 ∷ []) (bcode_fprint-AllClean b 0) (inl refl, tt)
