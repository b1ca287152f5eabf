-- ===== src/Bcode/Encode.antt =====
-- The encoder of src/bcode.c: `bt_bencode` and `bencode_array`.
use libctorrent.Prelude.{
  ℕ, zero, suc, ◌+◌, ◌-◌, ◌/◌, ◌%◌, ◌^◌, List, [], ◌∷◌, ◌++◌, ltb, ◌==◌, if◌then◌else◌, length,
  take, set, min,
}
use libctorrent.Prelude.Int.{ℤ, pos, negsuc}
use libctorrent.Bcode.Value.{BCode, int, str, list, dict, Items, nil, cons}

-- The decimal digits of a number, as `printf` writes them; the first argument bounds their count.
unfoldable pub digits_of : ℕ → ℕ → List ℕ
digits_of zero n = []
digits_of (suc f) n =
    let rest = digits_of f (n / 10) in
    if ltb n 10 then (b'0' + n) ∷ [] else rest ++ (b'0' + n % 10) ∷ []

unfoldable pub decimal : ℕ → List ℕ
decimal n = digits_of (n + 1) n

-- `%ld`
unfoldable pub print_int : ℤ → List ℕ
print_int (pos n) = decimal n
print_int (negsuc n) = b'-' ∷ decimal (n + 1)

-- What `snprintf` puts into `tmp`: `i%lde` and `%zu:`.
abbrev pub int_text : ℤ → List ℕ
int_text n = b'i' ∷ print_int n ++ b'e' ∷ []

abbrev pub len_text : List ℕ → List ℕ
len_text s = decimal (length s) ++ b':' ∷ []

-- `memcpy` of these bytes to index `off` of the buffer.
unfoldable pub blit : List ℕ → ℕ → List ℕ → List ℕ
blit buf off [] = buf
blit buf off (x ∷ xs) = blit (set buf off x) (off + 1) xs

-- `bt_bencode(NULL, 0, b)`: the size alone.
unfoldable mutual
  pub bencode_size : BCode → ℕ
  bencode_size (int n) = length (int_text n)
  bencode_size (str s) = length (len_text s) + length s
  bencode_size (list l) = array_size l + 2
  bencode_size (dict l) = array_size l + 2

  pub array_size : Items → ℕ
  array_size nil = 0
  array_size (cons b l) = bencode_size b + array_size l

-- A `size_t` after `len--`.
abbrev pub less_one : ℕ → ℕ
less_one len = (len + 2 ^ 64 - 1) % 2 ^ 64

-- `if (dest && len--) *dest++ = c`: the buffer and the new offset.
abbrev pub open_tag : ℕ → List ℕ → ℕ → ℕ → List ℕ × ℕ
open_tag c buf off len = if len == 0 then (buf, off) else (set buf off c, off + 1)

-- `if (dest && len--) dest[res] = 'e'`
abbrev pub close_tag : ℕ × List ℕ → ℕ → ℕ → ℕ × List ℕ
close_tag (res, buf) off len = (res + 2, if len == 0 then buf else set buf (off + res) b'e')

-- `bt_bencode(dest, len, b)` with a buffer: `dest` is index `off` of `buf`. The result is the size
-- returned and the buffer.
unfoldable mutual
  pub bencode : List ℕ → ℕ → ℕ → BCode → ℕ × List ℕ
  bencode buf off len (int n) =
      (length (int_text n), blit buf off (take (min len (length (int_text n))) (int_text n)))
  bencode buf off len (str s) =
      let head = min len (length (len_text s)) in
      let buf' = blit buf off (take head (len_text s)) in
      (
        length (len_text s) + length s,
        blit buf' (off + head) (take (min (len - head) (length s)) s),
      )
  bencode buf off len (list l) =
      let (buf', off') = open_tag b'l' buf off len in
      close_tag (bencode_array buf' off' (less_one len) l) off' (less_one len)
  bencode buf off len (dict l) =
      let (buf', off') = open_tag b'd' buf off len in
      close_tag (bencode_array buf' off' (less_one len) l) off' (less_one len)

  pub bencode_array : List ℕ → ℕ → ℕ → Items → ℕ × List ℕ
  bencode_array buf off len nil = (0, buf)
  bencode_array buf off len (cons b l) =
      let (tmp, buf') = bencode buf off len b in
      let step = min tmp len in
      let (res, buf'') = bencode_array buf' (off + step) (len - step) l in (tmp + res, buf'')
