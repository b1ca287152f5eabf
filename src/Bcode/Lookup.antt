-- ===== src/Bcode/Lookup.antt =====
-- Looking up a value: `bt_bcode_get` of src/bcode.c and what it calls. `none` is BCODE_NONE, the
-- value of a key that is not there. `stray` is a read outside the array of a list, which has no
-- test of its index, or a key that is no string.
pub mod Find
use libctorrent.Prelude.{
  ℕ, zero, suc, ◌+◌, ◌-◌, ◌/◌, ◌<◌, List, [], ◌∷◌, ltb, ◌==◌, if◌then◌else◌, Option, none, some,
}
use libctorrent.Bcode.Value.{BCode, int, str, list, dict, Items, nil, cons}

-- The sign of `memcmp`.
pub data Sign : Type 0 where
  below same above : Sign

-- `bstring_cmp`: the strings are compared over the length of the shorter one.
unfoldable pub bstring_cmp : List ℕ → List ℕ → Sign
bstring_cmp [] b = same
bstring_cmp (x ∷ a) [] = same
bstring_cmp (x ∷ a) (y ∷ b) =
    let rest = bstring_cmp a b in if x == y then rest else if ltb x y then below else above

pub data Found : Type 0 where
  value : BCode → Found
  missing : Found
  stray : Found

-- `blist_get`
unfoldable pub blist_get : Items → ℕ → Found
blist_get nil i = stray
blist_get (cons b l) zero = value b
blist_get (cons b l) (suc i) = blist_get l i

-- `dict->n / 2`
unfoldable pub entry_count : Items → ℕ
entry_count nil = 0
entry_count (cons k nil) = 0
entry_count (cons k (cons b l)) = 1 + entry_count l

abbrev with_key : BCode → BCode → Option (List ℕ × BCode)
with_key (str k) b = some (k, b)
with_key _ b = none

-- `v[i]`: a key that is a string, and its value.
unfoldable pub entry_at : Items → ℕ → Option (List ℕ × BCode)
entry_at nil i = none
entry_at (cons k nil) i = none
entry_at (cons k (cons b l)) zero = with_key k b
entry_at (cons k (cons b l)) (suc i) = entry_at l i

abbrev pub after_cmp : Sign → BCode → Found → Found → Found
after_cmp same b low high = value b
after_cmp below b low high = high
after_cmp above b low high = low

abbrev pub at_entry : Option (List ℕ × BCode) → List ℕ → Found → Found → Found
at_entry none key low high = stray
at_entry (some (k, b)) key low high = after_cmp (bstring_cmp k key) b low high

-- The loop of `bdict_get`; each turn makes `rt - lt` smaller, and the fuel bounds it.
unfoldable pub bdict_loop : ℕ → Items → List ℕ → ℕ → ℕ → Found
bdict_loop zero d key lt rt = missing
bdict_loop (suc fuel) d key lt rt =
    let mid = lt + (rt - lt) / 2 in
    let turn =
      at_entry (entry_at d mid) key (bdict_loop fuel d key lt mid)
        (bdict_loop fuel d key (mid + 1) rt) in
    if ltb lt rt then turn else missing

-- `bdict_get`
unfoldable pub bdict_get : Items → List ℕ → Found
bdict_get d key = bdict_loop (entry_count d) d key 0 (entry_count d)

-- The variable argument of `bt_bcode_get`.
pub data Key : Type 0 where
  index : ℕ → Key
  name : List ℕ → Key

-- `bt_bcode_get`. With the wrong kind of argument for its value it reads memory that is not there.
unfoldable pub bcode_get : BCode → Key → Found
bcode_get (int n) k = value (int n)
bcode_get (str s) k = value (str s)
bcode_get (list l) (index i) = blist_get l i
bcode_get (dict l) (name s) = bdict_get l s
bcode_get (list l) (name s) = stray
bcode_get (dict l) (index i) = stray
