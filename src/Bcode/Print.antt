-- ===== src/Bcode/Print.antt =====
-- `bt_bcode_fprint` of src/bcode.c and what it calls: the bytes that they write.
pub mod Clean
use libctorrent.Prelude.{
  ℕ, zero, suc, ◌+◌, ◌-◌, ◌*◌, ◌/◌, ◌%◌, ◌^◌, Bool, ◌&&◌, ◌||◌, List, [], ◌∷◌, ◌++◌, ltb, leb, ◌==◌,
  if◌then◌else◌, replicate,
}
use libctorrent.Bcode.Value.{BCode, int, str, list, dict, Items, nil, cons}
use libctorrent.Bcode.Encode.{print_int}

-- `isprint` of the C locale
abbrev pub is_print : ℕ → Bool
is_print c = leb 32 c && ltb c 127

-- A digit of `%02x`
abbrev pub hex_digit : ℕ → ℕ
hex_digit d = if ltb d 10 then b'0' + d else b'a' + (d - 10)

abbrev pub hex_byte : ℕ → List ℕ
hex_byte c = hex_digit (c / 16 % 16) ∷ hex_digit (c % 16) ∷ []

-- The loop of `add_indent`; each turn takes 513 from `indent`, and the fuel is `indent`.
unfoldable pub indent_loop : ℕ → ℕ → List ℕ
indent_loop zero indent = replicate indent 32
indent_loop (suc fuel) indent =
    let more = replicate 513 32 ++ indent_loop fuel (indent - 513) in
    if ltb 513 indent then more else replicate indent 32

-- `add_indent`
unfoldable pub add_indent : ℕ → List ℕ
add_indent indent = indent_loop indent indent

-- What the loop of `bstring_fprint` writes for a byte.
abbrev pub byte_fprint : ℕ → List ℕ
byte_fprint c =
    if c == b'"' || c == b'\\'
    then b'\\' ∷ c ∷ []
    else if is_print c
    then c ∷ []
    else b'\\' ∷ b'x' ∷ hex_byte c

unfoldable pub bytes_fprint : List ℕ → List ℕ
bytes_fprint [] = []
bytes_fprint (c ∷ s) = byte_fprint c ++ bytes_fprint s

-- `bstring_fprint`
unfoldable pub bstring_fprint : List ℕ → List ℕ
bstring_fprint s = b'"' ∷ (bytes_fprint s ++ b'"' ∷ [])

-- INDENT_LVL
abbrev pub indent_lvl : ℕ
indent_lvl = 4

-- `if (i) add_indent(…)`, and the indent that the element gets.
abbrev pub lead : ℕ → ℕ → List ℕ
lead i indent = if i == 0 then [] else add_indent (indent + indent_lvl)

abbrev pub inner : ℕ → ℕ → ℕ
inner i indent = if i == 0 then 1 else (indent + indent_lvl) % 2 ^ 32

-- `if (i + 1 < n) fputs(",\n")`
abbrev pub separator : Items → List ℕ
separator nil = []
separator (cons b l) = b',' ∷ 10 ∷ []

-- `bcode_fprint`; the loops start at index `i` with the elements that are left.
unfoldable mutual
  pub bcode_fprint : BCode → ℕ → List ℕ
  bcode_fprint (int n) indent = print_int n
  bcode_fprint (str s) indent = bstring_fprint s
  bcode_fprint (list l) indent = b'[' ∷ (list_fprint l 0 indent ++ b']' ∷ [])
  bcode_fprint (dict l) indent = b'{' ∷ (dict_fprint l 0 indent ++ b'}' ∷ [])

  pub list_fprint : Items → ℕ → ℕ → List ℕ
  list_fprint nil i indent = []
  list_fprint (cons b l) i indent =
      lead i indent
      ++ (bcode_fprint b (inner i indent) ++ (separator l ++ list_fprint l (i + 1) indent))

  -- A key with no value behind it would make the loop read past the array; the decoder makes none.
  pub dict_fprint : Items → ℕ → ℕ → List ℕ
  dict_fprint nil i indent = []
  dict_fprint (cons k nil) i indent = []
  dict_fprint (cons k (cons b l)) i indent =
      lead i indent
      ++ (bcode_fprint k (inner i indent)
          ++ (b':'
              ∷ (bcode_fprint b ((indent + indent_lvl) % 2 ^ 32)
                  ++ (separator l ++ dict_fprint l (i + 2) indent))))

-- `bt_bcode_fprint`
unfoldable pub bt_bcode_fprint : BCode → List ℕ
bt_bcode_fprint b = bcode_fprint b 0 ++ 10 ∷ []
