-- ===== src/Tracker/Url.antt =====
-- The URL of a tracker, as `get_domain_port` of src/tracker.c reads it.
use libctorrent.Prelude.{
  ℕ, zero, suc, ◌+◌, ◌-◌, ◌*◌, ◌/◌, ◌%◌, ◌^◌, ◌≤◌, ◌<◌, ◌≡◌, ◌≢◌, refl, ap, sym, ◌∙◌, true, false,
  some, List, [], ◌∷◌, ◌++◌, append_assoc, ltb, ◌==◌, length, length-append, arith, Bool-cases, inl,
  inr,
}
use libctorrent.Prelude.Outcome.{ok, aborted}
use libctorrent.Bcode.Encode.{decimal, digits_of}
use libctorrent.Tracker.{
  until_colon, is_digit, is_space, number, read_port, domain_len, get_domain_port,
}

-- No character is a colon.
abbrev pub NoColon : List ℕ → Type 0
NoColon [] = Unit {0}
NoColon (c ∷ s) = (c ≢ 58) × NoColon s

-- What follows is no digit.
abbrev pub NoDigit : List ℕ → Type 0
NoDigit [] = Unit {0}
NoDigit (c ∷ s) = is_digit c ≡ false

until_colon_lem :
    (n : ℕ) (v s : List ℕ) → NoColon v → length v ≤ n → until_colon n (v ++ 58 ∷ s) ≡ (v, 58 ∷ s)
until_colon_lem zero [] s h fits = refl
until_colon_lem zero (c ∷ v) s h fits = absurd (omega arith)
until_colon_lem (suc n) [] s h fits = refl
until_colon_lem (suc n) (c ∷ v) s (h, hs) fits =
    let other : (c == b':') ≡ false = ground arith in
    rw (other, until_colon_lem n v s hs (omega arith)) refl

-- A domain that is as long as the array, or longer.
until_colon-long :
    (n : ℕ) (v s : List ℕ) → NoColon v → n ≤ length v → length (until_colon n (v ++ s)).0 ≡ n
until_colon-long zero v s h long = refl
until_colon-long (suc n) [] s h long = absurd (omega arith)
until_colon-long (suc n) (c ∷ v) s (h, hs) long =
    let other : (c == b':') ≡ false = ground arith in
    rw other (ap suc (until_colon-long n v s hs (omega arith)))

number-digit :
    (acc d : ℕ) (s : List ℕ) → d < 10 → number acc ((48 + d) ∷ s) ≡ number (acc * 10 + d) s
number-digit acc d s h =
    let digit : is_digit (48 + d) ≡ true = ground arith in
    let value : 48 + d - 48 ≡ d = omega arith in rw (digit, value) refl

-- The digits of a number, read back.
number-digits_of : (f n : ℕ) (s : List ℕ) → n < f → number 0 (digits_of f n ++ s) ≡ number n s
unfolding digits_of
number-digits_of zero n s h = absurd (omega arith)
number-digits_of (suc f) n s h = elim (Bool-cases (ltb n 10)) [
  | inl small ↦
      let bare : 0 * 10 + n ≡ n = omega arith in
      rw small (number-digit 0 n s (ground arith) ∙ ap (λ k. number k s) bare)
  | inr large ↦
      let whole : n / 10 * 10 + n % 10 ≡ n = omega arith in
      rw large (
        ap (number 0) (append_assoc (digits_of f (n / 10)) ((48 + n % 10) ∷ []) s)
        ∙ number-digits_of f (n / 10) ((48 + n % 10) ∷ s) (ground arith)
        ∙ number-digit (n / 10) (n % 10) s (omega arith)
        ∙ ap (λ k. number k s) whole)
]

-- The digits begin with a digit.
starts-digits_of :
    (f n : ℕ) (s : List ℕ)
    → n < f
    → (c : ℕ) × (v : List ℕ) × (digits_of f n ++ s ≡ c ∷ v) × (48 ≤ c) × (c ≤ 57)
unfolding digits_of
starts-digits_of zero n s h = absurd (omega arith)
starts-digits_of (suc f) n s h = elim (Bool-cases (ltb n 10)) [
  | inl small ↦ (48 + n, s, rw small refl, omega arith, ground arith)
  | inr large ↦
      let (c, v, e, low, high) = starts-digits_of f (n / 10) ((48 + n % 10) ∷ s) (ground arith) in
      (c, v, rw large (append_assoc (digits_of f (n / 10)) ((48 + n % 10) ∷ []) s ∙ e), low, high)
]

number-end : (n : ℕ) (s : List ℕ) → NoDigit s → number n s ≡ n
number-end n [] h = refl
number-end n (c ∷ s) h = rw h refl

read_port-front :
    (c : ℕ) (v : List ℕ) → 48 ≤ c → c ≤ 57 → read_port (c ∷ v) ≡ some (number 0 (c ∷ v) % 2 ^ 16)
read_port-front c v low high =
    let no_space : is_space c ≡ false = ground arith in
    let no_minus : (c == b'-') ≡ false = ground arith in
    let no_plus : (c == b'+') ≡ false = ground arith in
    let digit : is_digit c ≡ true = ground arith in rw (no_space, no_minus, no_plus, digit) refl

read_port-decimal :
    (port : ℕ) (s : List ℕ) → port < 2 ^ 16 → NoDigit s → read_port (decimal port ++ s) ≡ some port
unfolding decimal
read_port-decimal port s small end =
    let (c, v, e, low, high) = starts-digits_of (port + 1) port s (omega arith) in
    let value = number-digits_of (port + 1) port s (omega arith) ∙ number-end port s end in
    let spelt : number 0 (c ∷ v) ≡ port = ap (number 0) (sym e) ∙ value in
    let fits : port % 2 ^ 16 ≡ port = omega arith in
    ap read_port e ∙ read_port-front c v low high ∙ ap (λ n. some (n % 2 ^ 16)) spelt ∙ ap some fits

positive : (n : ℕ) → 0 < n → (n == 0) ≡ false
positive n h = ground arith

less : (n m : ℕ) → n < m → (n == m) ≡ false
less n m h = ground arith

-- `get_domain_port` reads a URL of a scheme, a domain of less than 64 characters and a port below
-- 2^16, with or without more behind it, back into the domain and the port.
pub get_domain_port_lem :
    (scheme domain rest : List ℕ) (port : ℕ)
    → NoColon scheme
    → 0 < length scheme
    → NoColon domain
    → 0 < length domain
    → length domain < 64
    → port < 2 ^ 16
    → NoDigit rest
    → get_domain_port (scheme ++ 58 ∷ 47 ∷ 47 ∷ (domain ++ 58 ∷ (decimal port ++ rest)))
      ≡ ok (domain, port)
unfolding get_domain_port
get_domain_port_lem scheme domain rest port s some_scheme d some_domain short small end =
    let tail = domain ++ 58 ∷ (decimal port ++ rest) in
    let url = scheme ++ 58 ∷ 47 ∷ 47 ∷ tail in
    let size = length-append scheme (58 ∷ 47 ∷ 47 ∷ tail) in
    let split = until_colon_lem (length url) scheme (47 ∷ 47 ∷ tail) s (omega arith) in
    let split_domain = until_colon_lem domain_len domain (decimal port ++ rest) d (omega arith) in
    let named : (length scheme == 0) ≡ false = positive (length scheme) some_scheme in
    let host : (length domain == 0) ≡ false = positive (length domain) some_domain in
    let inside : (length domain == domain_len) ≡ false = less (length domain) domain_len short in
    rw (split, named, split_domain, host, inside, read_port-decimal port rest small end) refl

-- A domain of 64 characters or more makes `get_domain_port` write behind its array.
pub get_domain_port_overflow :
    (scheme domain rest : List ℕ)
    → NoColon scheme
    → 0 < length scheme
    → NoColon domain
    → 64 ≤ length domain
    → get_domain_port (scheme ++ 58 ∷ 47 ∷ 47 ∷ (domain ++ rest)) ≡ aborted
unfolding get_domain_port
get_domain_port_overflow scheme domain rest s some_scheme d long =
    let url = scheme ++ 58 ∷ 47 ∷ 47 ∷ (domain ++ rest) in
    let size = length-append scheme (58 ∷ 47 ∷ 47 ∷ (domain ++ rest)) in
    let split = until_colon_lem (length url) scheme (47 ∷ 47 ∷ (domain ++ rest)) s (omega arith) in
    let named : (length scheme == 0) ≡ false = positive (length scheme) some_scheme in
    let over = until_colon-long domain_len domain rest d long in rw (split, named, over) refl
