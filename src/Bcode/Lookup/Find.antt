-- ===== src/Bcode/Lookup/Find.antt =====
-- What the binary search of `bdict_get` (src/bcode.c) finds.
use libctorrent.Prelude.{
  ℕ, zero, suc, ◌+◌, ◌-◌, ◌/◌, ◌≤◌, ◌<◌, ◌≡◌, ◌≢◌, refl, ap, sym, ◌∙◌, List, [], ◌∷◌, ◌++◌, arith,
  ltb, true, false, some,
}
use native.Mathlib.Decide.{dec_lt}
use libctorrent.Bcode.Value.{BCode, str, Items, nil, cons}
use libctorrent.Bcode.Lookup.{
  Sign, below, same, above, bstring_cmp, Found, value, missing, entry_count, entry_at, after_cmp,
  bdict_loop, bdict_get,
}

-- The first place where both strings differ decides, so `below` is transitive.
bstring_cmp_trans :
    (a b c : List ℕ) → bstring_cmp a b ≡ below → bstring_cmp b c ≡ below → bstring_cmp a c ≡ below
unfolding bstring_cmp
bstring_cmp_trans [] b c p q = cc
bstring_cmp_trans (x ∷ a) [] c p q = cc
bstring_cmp_trans (x ∷ a) (y ∷ b) [] p q = cc
bstring_cmp_trans (x ∷ a) (y ∷ b) (z ∷ c) p q = ground (arith, bstring_cmp_trans a b c)

bstring_cmp-swap : (a b : List ℕ) → bstring_cmp a b ≡ above → bstring_cmp b a ≡ below
unfolding bstring_cmp
bstring_cmp-swap [] b p = cc
bstring_cmp-swap (x ∷ a) [] p = cc
bstring_cmp-swap (x ∷ a) (y ∷ b) p = ground (arith, bstring_cmp-swap a b)

bstring_cmp-swap' : (a b : List ℕ) → bstring_cmp a b ≡ below → bstring_cmp b a ≡ above
unfolding bstring_cmp
bstring_cmp-swap' [] b p = cc
bstring_cmp-swap' (x ∷ a) [] p = cc
bstring_cmp-swap' (x ∷ a) (y ∷ b) p = ground (arith, bstring_cmp-swap' a b)

bstring_cmp_self : (a : List ℕ) → bstring_cmp a a ≡ same
unfolding bstring_cmp
bstring_cmp_self [] = refl
bstring_cmp_self (x ∷ a) = ground (arith, bstring_cmp_self a)

-- Every entry has a string for its key, and the keys stand in the order that the search takes them
-- to have: each is less than those behind it, at a place that both have.
pub record IsOrdered (d : Items) : Type 0 where
  pub entry :
      (i : ℕ) → i < entry_count d → (k : List ℕ) × (b : BCode) × (entry_at d i ≡ some (k, b))
  pub less :
      (i j : ℕ) (k k' : List ℕ) (b b' : BCode)
      → i < j
      → entry_at d i ≡ some (k, b)
      → entry_at d j ≡ some (k', b')
      → bstring_cmp k k' ≡ below

-- What the search may answer: the value of an entry whose key agrees with the sought one over the
-- length of the shorter of both, or nothing, and then no entry's key does.
pub data Search (d : Items) (key : List ℕ) (r : Found) : Type 0 where
  hit :
      (i : ℕ) (k : List ℕ) (b : BCode)
      → entry_at d i ≡ some (k, b)
      → bstring_cmp k key ≡ same
      → r ≡ value b
      → Search d key r
  absent :
      r ≡ missing
      → ((i : ℕ) (k : List ℕ) (b : BCode) → entry_at d i ≡ some (k, b) → bstring_cmp k key ≢ same)
      → Search d key r

entry_at-lt :
    (d : Items) (i : ℕ) (k : List ℕ) (b : BCode) → entry_at d i ≡ some (k, b) → i < entry_count d
unfolding entry_at entry_count
entry_at-lt nil i k b e = cc
entry_at-lt (cons s nil) i k b e = cc
entry_at-lt (cons s (cons c l)) zero k b e = omega arith
entry_at-lt (cons s (cons c l)) (suc i) k b e = omega (arith, entry_at-lt l i k b e)

below_same : below ≢ same
below_same e = cc

above_same : above ≢ same
above_same e = cc

module _ (d : Items) (key : List ℕ) (v : IsOrdered d) where
  -- The entries outside the range that is left are known not to agree.
  record Narrowed (lt rt : ℕ) : Type 0 where
    in_range : rt ≤ entry_count d
    low :
        (i : ℕ) (k : List ℕ) (b : BCode)
        → i < lt
        → entry_at d i ≡ some (k, b)
        → bstring_cmp k key ≡ below
    high :
        (i : ℕ) (k : List ℕ) (b : BCode)
        → rt ≤ i
        → entry_at d i ≡ some (k, b)
        → bstring_cmp k key ≡ above

  -- Nothing is left.
  closed : (lt rt : ℕ) → rt ≤ lt → Narrowed lt rt → Search d key missing
  closed lt rt h n = absent refl (λ i k b e. elim (dec_lt i lt) [
    | yes less ↦ (λ s. below_same (sym (n.low i k b less e) ∙ s))
    | no more ↦ (λ s. above_same (sym (n.high i k b (omega arith) e) ∙ s))
  ])

  same_key :
      (i j : ℕ) (k k' : List ℕ) (b b' : BCode)
      → i ≡ j
      → entry_at d i ≡ some (k, b)
      → entry_at d j ≡ some (k', b')
      → k ≡ k'
  same_key i j k k' b b' ij e f = let g = ap (entry_at d) ij in cc

  same_value :
      (i j : ℕ) (k k' : List ℕ) (b b' : BCode)
      → i ≡ j
      → entry_at d i ≡ some (k, b)
      → entry_at d j ≡ some (k', b')
      → b ≡ b'
  same_value i j k k' b b' ij e f = let g = ap (entry_at d) ij in cc

  -- The turn of the loop that looks at entry `mid`.
  turn :
      (lt mid rt : ℕ) (k : List ℕ) (b : BCode) (s : Sign) (left right : Found)
      → mid < rt
      → Narrowed lt rt
      → entry_at d mid ≡ some (k, b)
      → bstring_cmp k key ≡ s
      → (Narrowed lt mid → Search d key left)
      → (Narrowed (mid + 1) rt → Search d key right)
      → Search d key (after_cmp s b left right)
  turn lt mid rt k b same left right m n e c go_left go_right = hit mid k b e c refl
  turn lt mid rt k b below left right m n e c go_left go_right = go_right (record {
    in_range = n.in_range;
    low = λ i k' b' h f. elim (dec_lt i mid) [
      | yes less ↦ bstring_cmp_trans k' k key (v.less i mid k' k b' b less f e) c
      | no last ↦ rw (same_key i mid k' k b' b (omega arith) f e) c
    ];
    high = n.high;
  })
  turn lt mid rt k b above left right m n e c go_left go_right = go_left (record {
    in_range = omega (arith, n.in_range);
    low = n.low;
    high = λ i k' b' h f. elim (dec_lt mid i) [
      | yes less ↦
          bstring_cmp-swap' key k' (
            bstring_cmp_trans key k k' (bstring_cmp-swap k key c) (v.less mid i k k' b b' less e f))
      | no first ↦ rw (same_key i mid k' k b' b (omega arith) f e) c
    ];
  })

  bdict_loop_lem :
      (fuel lt rt : ℕ)
      → rt ≤ lt + fuel
      → Narrowed lt rt
      → Search d key (bdict_loop fuel d key lt rt)
  unfolding bdict_loop
  bdict_loop_lem zero lt rt h n = closed lt rt (omega arith) n
  bdict_loop_lem (suc fuel) lt rt h n = elim (dec_lt lt rt) [
    | no done ↦
        let stop : ltb lt rt ≡ false = ground arith in rw stop (closed lt rt (omega arith) n)
    | yes more ↦
        let go : ltb lt rt ≡ true = ground arith in
        let mid = lt + (rt - lt) / 2 in
        let (k, b, e) = v.entry mid (omega (arith, n.in_range)) in
        rw (go, e)
          (turn lt mid rt k b (bstring_cmp k key) (bdict_loop fuel d key lt mid)
            (bdict_loop fuel d key (mid + 1) rt) (omega arith) n e refl
            (bdict_loop_lem fuel lt mid (omega arith))
            (bdict_loop_lem fuel (mid + 1) rt (omega arith)))
  ]

-- Let the keys of a dictionary be ordered, and let none of them be the beginning of another, as
-- "announce" is of "announce-list". Then `bdict_get` answers the value of an entry whose key agrees with
-- the sought one over the length of the shorter of both; it finds nothing only if no entry's key
-- does. If an entry has exactly the sought key, the answer is the value of that entry.
pub bdict_get_lem :
    (d : Items) (key : List ℕ)
    → IsOrdered d
    → Search d key (bdict_get d key)
      × ((i : ℕ) (b : BCode) → entry_at d i ≡ some (key, b) → bdict_get d key ≡ value b)
bdict_get_lem d key v = (found, λ i b e. exact i b e found)
  where
    found : Search d key (bdict_get d key)
    found =
        unfold bdict_get in
        bdict_loop_lem d key v (entry_count d) 0 (entry_count d) (omega arith) (record {
          in_range = omega arith;
          low = λ i k b h e. absurd (omega arith);
          high = λ i k b h e. absurd (omega (arith, entry_at-lt d i k b e));
        })

    exact :
        (i : ℕ) (b : BCode)
        → entry_at d i ≡ some (key, b)
        → Search d key (bdict_get d key)
        → bdict_get d key ≡ value b
    exact i b e (absent none_is no_other) = absurd (no_other i key b e (bstring_cmp_self key))
    exact i b e (hit j k c f s r) = elim (dec_lt i j) [
      | yes less ↦
          let off = bstring_cmp-swap' key k (v.less i j key k b c less e f) in
          absurd (above_same (sym off ∙ s))
      | no at_least ↦ elim (dec_lt j i) [
        | yes more ↦ absurd (below_same (sym (v.less j i k key c b more f e) ∙ s))
        | no at_most ↦ r ∙ ap value (same_value d key v j i k key c b (omega arith) f e)
      ]
    ]

bstring_cmp-prefix : (k more : List ℕ) → bstring_cmp (k ++ more) k ≡ same
unfolding bstring_cmp
bstring_cmp-prefix [] [] = refl
bstring_cmp-prefix [] (x ∷ more) = refl
bstring_cmp-prefix (x ∷ k) more = ground (arith, bstring_cmp-prefix k more)

-- The first of two entries whose key is a part of the second's cannot be found: the answer is the
-- value of the second.
pub bdict_get_prefix :
    (key more : List ℕ) (a b : BCode)
    → bdict_get (cons (str key) (cons a (cons (str (key ++ more)) (cons b nil)))) key ≡ value b
unfolding bdict_get bdict_loop entry_at entry_count
bdict_get_prefix key more a b = rw (bstring_cmp-prefix key more) refl
