-- ===== src/Bcode/Exact.antt =====
-- The encoder of src/bcode.c writes the encoding that the format defines.
use libctorrent.Prelude.{
  ℕ, ◌+◌, ◌-◌, ◌^◌, ◌≤◌, ◌<◌, ◌≡◌, refl, ap, ap₂, sym, ◌∙◌, false, List, [], ◌∷◌, ◌++◌, arith,
  length, length-append, take, set, min, ◌==◌, take-append, append-nil,
}
use libctorrent.Bcode.Value.{BCode, int, str, list, dict, Items, nil, cons}
use libctorrent.Bcode.Encode.{
  int_text, len_text, blit, bencode_size, array_size, bencode, bencode_array, open_tag, close_tag,
  less_one,
}
use libctorrent.Bcode.RoundTrip.{encode, encode_items}

blit_none : (buf : List ℕ) (off : ℕ) → buf ≡ blit buf off []
unfolding blit
blit_none buf off = refl

blit-append :
    (buf : List ℕ) (off : ℕ) (xs ys : List ℕ)
    → blit buf off (xs ++ ys) ≡ blit (blit buf off xs) (off + length xs) ys
unfolding blit
blit-append buf off [] ys = ap (λ o. blit buf o ys) (omega arith)
blit-append buf off (x ∷ xs) ys =
    blit-append (set buf off x) (off + 1) xs ys
    ∙ ap (λ o. blit (blit (set buf off x) (off + 1) xs) o ys) (omega arith)

mutual
  unfolding bencode_size encode

  size-encode : (b : BCode) → bencode_size b ≡ length (encode b)
  size-encode (int n) = refl
  size-encode (str s) = sym (length-append (len_text s) s)
  size-encode (list l) =
      omega (arith, size-encode_items l, length-append (encode_items l) (b'e' ∷ []))
  size-encode (dict l) =
      omega (arith, size-encode_items l, length-append (encode_items l) (b'e' ∷ []))

  size-encode_items : (l : Items) → array_size l ≡ length (encode_items l)
  size-encode_items nil = refl
  size-encode_items (cons b l) =
      omega (arith, size-encode b, size-encode_items l, length-append (encode b) (encode_items l))

take_whole : (xs : List ℕ) → take (length xs) xs ≡ xs
take_whole xs = ap (take (length xs)) (sym (append-nil xs)) ∙ take-append xs []

take_all : (xs : List ℕ) (n : ℕ) → length xs ≤ n → take (min n (length xs)) xs ≡ xs
take_all xs n h = let e : min n (length xs) ≡ length xs = omega arith in rw e (take_whole xs)

-- The tags around the elements, when there is room for both.
tags :
    (c : ℕ) (buf : List ℕ) (off len : ℕ) (t : List ℕ)
    → length t + 2 ≤ len
    → len < 2 ^ 64
    → (f : List ℕ → ℕ → ℕ → ℕ × List ℕ)
    → f (set buf off c) (off + 1) (len - 1) ≡ (length t, blit (set buf off c) (off + 1) t)
    → (let (buf', off') = open_tag c buf off len in
        close_tag (f buf' off' (less_one len)) off' (less_one len))
      ≡ (length (c ∷ t ++ b'e' ∷ []), blit buf off (c ∷ t ++ b'e' ∷ []))
unfolding blit
tags c buf off len t h k f ih =
    let room : (len == 0) ≡ false = ground arith in
    let less : less_one len ≡ len - 1 = omega arith in
    let room' : (len - 1 == 0) ≡ false = ground arith in
    let pieces = blit-append (set buf off c) (off + 1) t (b'e' ∷ []) in
    rw (room, less, ih, room')
      (ap₂ (λ x y. (x, y)) (omega (arith, length-append t (b'e' ∷ []))) (sym pieces))

-- A string behind its length.
string_exact :
    (s buf : List ℕ) (off len : ℕ)
    → length (len_text s) + length s ≤ len
    → bencode buf off len (str s) ≡ (length (len_text s ++ s), blit buf off (len_text s ++ s))
unfolding bencode
string_exact s buf off len h =
    let whole : min len (length (len_text s)) ≡ length (len_text s) = omega arith in
    let head = ap (λ m. take m (len_text s)) whole ∙ take_whole (len_text s) in
    let body = take_all s (len - length (len_text s)) (omega arith) in
    rw (whole, take_whole (len_text s), body)
      (ap₂ (λ x y. (x, y)) (sym (length-append (len_text s) s))
        (sym (blit-append buf off (len_text s) s)))

mutual
  unfolding bencode bencode_size encode

  bencode-exact :
      (b : BCode) (buf : List ℕ) (off len : ℕ)
      → bencode_size b ≤ len
      → len < 2 ^ 64
      → bencode buf off len b ≡ (length (encode b), blit buf off (encode b))
  bencode-exact (int n) buf off len h k = rw (take_all (int_text n) len h) refl
  bencode-exact (str s) buf off len h k = string_exact s buf off len h
  bencode-exact (list l) buf off len h k =
      tags b'l' buf off len (encode_items l) (omega (arith, size-encode_items l)) k
        (λ buf' off' len'. bencode_array buf' off' len' l)
        (bencode_array-exact l (set buf off b'l') (off + 1) (len - 1) (omega arith) (omega arith))
  bencode-exact (dict l) buf off len h k =
      tags b'd' buf off len (encode_items l) (omega (arith, size-encode_items l)) k
        (λ buf' off' len'. bencode_array buf' off' len' l)
        (bencode_array-exact l (set buf off b'd') (off + 1) (len - 1) (omega arith) (omega arith))

  bencode_array-exact :
      (l : Items) (buf : List ℕ) (off len : ℕ)
      → array_size l ≤ len
      → len < 2 ^ 64
      → bencode_array buf off len l ≡ (length (encode_items l), blit buf off (encode_items l))
  bencode_array-exact nil buf off len h k = ap (λ x. (0, x)) (blit_none buf off)
  bencode_array-exact (cons b l) buf off len h k =
      let fits : min (length (encode b)) len ≡ length (encode b) = omega (arith, size-encode b) in
      let first = bencode-exact b buf off len (omega arith) k in
      let others =
        bencode_array-exact l (blit buf off (encode b)) (off + length (encode b))
          (len - length (encode b)) (omega (arith, size-encode b)) (omega arith) in
      rw (first, fits, others)
        (ap₂ (λ x y. (x, y)) (sym (length-append (encode b) (encode_items l)))
          (sym (blit-append buf off (encode b) (encode_items l))))

-- `bt_bencode` with a buffer that is long enough writes the encoding of the value to the start of it,
-- and the size that it returns, the one it returns without a buffer, is the length of that.
pub bencode_lem :
    (b : BCode) (buf : List ℕ) (len : ℕ)
    → bencode_size b ≤ len
    → len < 2 ^ 64
    → (bencode buf 0 len b ≡ (bencode_size b, blit buf 0 (encode b)))
      × (bencode_size b ≡ length (encode b))
bencode_lem b buf len h k =
    let size = size-encode b in
    (bencode-exact b buf 0 len h k ∙ ap (λ x. (x, blit buf 0 (encode b))) (sym size), size)
