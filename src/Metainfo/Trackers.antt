-- ===== src/Metainfo/Trackers.antt =====
-- `get_trackers` of src/torrent.c beside the strings of the metainfo.
use libctorrent.Prelude.{
  ℕ, zero, suc, ◌+◌, ◌≤◌, ◌≡◌, ◌≢◌, refl, ap, sym, ◌∙◌, true, false, List, [], ◌∷◌, ◌++◌, ltb, leb,
  if◌then◌else◌, length, length-append, append-nil, append_assoc, arith, Bool-cases, inl, inr,
}
use libctorrent.Prelude.Outcome.{Outcome, ok, failed, aborted, ◌>>=◌}
use libctorrent.Bcode.Value.{BCode, int, str, list, dict, Items, nil, cons}
use libctorrent.Bcode.Lookup.{Found, value, missing, stray, name, blist_get, bcode_get}
use libctorrent.Metainfo.{
  max_trackers, add_tracker, with_string, tier_loop, size_of, with_tier, tiers_loop, first_tracker,
  more_trackers, announce_key, announce_list_key, get_trackers,
}

-- The strings of a list, and those of the lists in a list.
abbrev pub strings_of : Items → List (List ℕ)
strings_of nil = []
strings_of (cons (str s) l) = s ∷ strings_of l
strings_of (cons _ l) = strings_of l

abbrev pub tier_strings : Items → List (List ℕ)
tier_strings nil = []
tier_strings (cons (list tier) l) = strings_of tier ++ tier_strings l
tier_strings (cons _ l) = tier_strings l

abbrev pub announced : Found → List (List ℕ)
announced (value (str s)) = s ∷ []
announced _ = []

abbrev pub listed : Found → List (List ℕ)
listed (value (list l)) = tier_strings l
listed _ = []

-- The strings, if there are at most 256 of them.
abbrev pub bounded : List (List ℕ) → Outcome (List (List ℕ))
bounded v = if leb (length v) max_trackers then ok v else aborted

-- All the strings behind those that are there.
abbrev add_all : List (List ℕ) → List (List ℕ) → Outcome (List (List ℕ))
add_all dest [] = ok dest
add_all dest (s ∷ v) = add_tracker dest s >>= λ dest'. add_all dest' v

bind_cong :
    {A : Type 0} (m : Outcome A) (f g : A → Outcome A)
    → ((a : A) → f a ≡ g a)
    → (m >>= f) ≡ (m >>= g)
bind_cong (ok a) f g h = h a
bind_cong failed f g h = refl
bind_cong aborted f g h = refl

bind_assoc :
    {A : Type 0} (m : Outcome A) (f g : A → Outcome A) → ((m >>= f) >>= g) ≡ (m >>= λ a. f a >>= g)
bind_assoc (ok a) f g = refl
bind_assoc failed f g = refl
bind_assoc aborted f g = refl

add_all-append :
    (dest v u : List (List ℕ)) → add_all dest (v ++ u) ≡ (add_all dest v >>= λ d. add_all d u)
add_all-append dest [] u = refl
add_all-append dest (s ∷ v) u =
    bind_cong (add_tracker dest s) (λ d. add_all d (v ++ u))
      (λ d. add_all d v >>= λ d'. add_all d' u) (λ d. add_all-append d v u)
    ∙ sym (bind_assoc (add_tracker dest s) (λ d. add_all d v) (λ d. add_all d u))

tier_loop-shift :
    (k j : ℕ) (b : BCode) (l : Items) (dest : List (List ℕ))
    → tier_loop k (suc j) (cons b l) dest ≡ tier_loop k j l dest
unfolding tier_loop bcode_get blist_get
tier_loop-shift zero j b l dest = refl
tier_loop-shift (suc k) j b l dest =
    let next : suc j + 1 ≡ suc (j + 1) = omega arith in
    bind_cong (with_string dest (blist_get l j)) _ _
      (λ d. ap (λ n. tier_loop k n (cons b l) d) next ∙ tier_loop-shift k (j + 1) b l d)

-- The string of an entry, in front of those of the rest.
with_string-add :
    (b : BCode) (l : Items) (dest : List (List ℕ))
    → (with_string dest (value b) >>= λ d. add_all d (strings_of l))
      ≡ add_all dest (strings_of (cons b l))
with_string-add (str s) l dest = refl
with_string-add (int n) l dest = refl
with_string-add (list t) l dest = refl
with_string-add (dict t) l dest = refl

tier_loop_lem :
    (l : Items) (dest : List (List ℕ))
    → tier_loop (size_of l) 0 l dest ≡ add_all dest (strings_of l)
unfolding tier_loop size_of bcode_get blist_get
tier_loop_lem nil dest = refl
tier_loop_lem (cons b l) dest =
    let size : 1 + size_of l ≡ suc (size_of l) = omega arith in
    ap (λ k. tier_loop k 0 (cons b l) dest) size
    ∙ bind_cong (with_string dest (value b)) _ (λ d. add_all d (strings_of l))
        (λ d. tier_loop-shift (size_of l) 0 b l d ∙ tier_loop_lem l d)
    ∙ with_string-add b l dest

tiers_loop-shift :
    (k j : ℕ) (b : BCode) (l : Items) (dest : List (List ℕ))
    → tiers_loop k (suc j) (cons b l) dest ≡ tiers_loop k j l dest
unfolding tiers_loop bcode_get blist_get
tiers_loop-shift zero j b l dest = refl
tiers_loop-shift (suc k) j b l dest =
    let next : suc j + 1 ≡ suc (j + 1) = omega arith in
    bind_cong (with_tier dest (blist_get l j)) _ _
      (λ d. ap (λ n. tiers_loop k n (cons b l) d) next ∙ tiers_loop-shift k (j + 1) b l d)

with_tier-add :
    (b : BCode) (l : Items) (dest : List (List ℕ))
    → (with_tier dest (value b) >>= λ d. add_all d (tier_strings l))
      ≡ add_all dest (tier_strings (cons b l))
with_tier-add (str s) l dest = refl
with_tier-add (int n) l dest = refl
with_tier-add (list t) l dest =
    ap (λ m. m >>= λ d. add_all d (tier_strings l)) (tier_loop_lem t dest)
    ∙ sym (add_all-append dest (strings_of t) (tier_strings l))
with_tier-add (dict t) l dest = refl

tiers_loop_lem :
    (l : Items) (dest : List (List ℕ))
    → tiers_loop (size_of l) 0 l dest ≡ add_all dest (tier_strings l)
unfolding tiers_loop size_of bcode_get blist_get
tiers_loop_lem nil dest = refl
tiers_loop_lem (cons b l) dest =
    let size : 1 + size_of l ≡ suc (size_of l) = omega arith in
    ap (λ k. tiers_loop k 0 (cons b l) dest) size
    ∙ bind_cong (with_tier dest (value b)) _ (λ d. add_all d (tier_strings l))
        (λ d. tiers_loop-shift (size_of l) 0 b l d ∙ tiers_loop_lem l d)
    ∙ with_tier-add b l dest

add_all-bounded :
    (v dest : List (List ℕ)) → length dest ≤ max_trackers → add_all dest v ≡ bounded (dest ++ v)
unfolding add_tracker
add_all-bounded [] dest h =
    let fits : leb (length dest) max_trackers ≡ true = ground arith in
    rw (append-nil dest, fits) refl
add_all-bounded (s ∷ v) dest h = elim (Bool-cases (ltb (length dest) max_trackers)) [
  | inl less ↦ rw less (
      add_all-bounded v (dest ++ s ∷ []) (ground (arith, length-append dest (s ∷ [])))
      ∙ ap bounded (append_assoc dest (s ∷ []) v))
  | inr full ↦
      let over : leb (length (dest ++ s ∷ v)) max_trackers ≡ false =
        ground (arith, length-append dest (s ∷ v)) in
      rw (full, over) refl
]

first_lem :
    (a : Found)
    → a ≢ stray
    → (first_tracker a ≡ ok (announced a)) × (length (announced a) ≤ max_trackers)
first_lem stray h = absurd (h refl)
first_lem missing h = (refl, omega arith)
first_lem (value (str s)) h = (refl, omega arith)
first_lem (value (int n)) h = (refl, omega arith)
first_lem (value (list l)) h = (refl, omega arith)
first_lem (value (dict l)) h = (refl, omega arith)

kept_bounded : (dest : List (List ℕ)) → length dest ≤ max_trackers → ok dest ≡ bounded (dest ++ [])
kept_bounded dest h = add_all-bounded [] dest h

more_lem :
    (dest : List (List ℕ)) (b : Found)
    → length dest ≤ max_trackers
    → b ≢ stray
    → more_trackers dest b ≡ bounded (dest ++ listed b)
more_lem dest stray h k = absurd (k refl)
more_lem dest missing h k = kept_bounded dest h
more_lem dest (value (str s)) h k = kept_bounded dest h
more_lem dest (value (int n)) h k = kept_bounded dest h
more_lem dest (value (list l)) h k = tiers_loop_lem l dest ∙ add_all-bounded (tier_strings l) dest h
more_lem dest (value (dict l)) h k = kept_bounded dest h

-- Let neither look-up, of "announce" and of "announce-list", read outside the metainfo. If the first
-- answers a string, `get_trackers` returns it, and behind it, if the second answers a list, the strings
-- of all the lists in that list, in order, as long as there are at most 256 of them in all, which is
-- what the torrent's array has room for; with more, its assertion fails. What the look-ups answer is
-- up to `bt_bcode_get`, which confuses a key with a longer or shorter one that starts alike.
pub get_trackers_lem :
    (meta : BCode)
    → bcode_get meta (name announce_key) ≢ stray
    → bcode_get meta (name announce_list_key) ≢ stray
    → get_trackers meta
      ≡ bounded (
          announced (bcode_get meta (name announce_key))
          ++ listed (bcode_get meta (name announce_list_key)))
unfolding get_trackers
get_trackers_lem meta h k =
    let (first, room) = first_lem (bcode_get meta (name announce_key)) h in
    ap (λ m. m >>= λ dest. more_trackers dest (bcode_get meta (name announce_list_key))) first
    ∙ more_lem (announced (bcode_get meta (name announce_key)))
        (bcode_get meta (name announce_list_key)) room k
