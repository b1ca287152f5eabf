-- ===== src/Ring/Laws.antt =====
-- The circular array behaves as a bounded first-in first-out list.
use libctorrent.Prelude.{
  ℕ, zero, suc, ◌+◌, ◌-◌, ◌%◌, ◌≤◌, ◌<◌, ◌≡◌, ◌≢◌, ◌⊎◌, refl, sym, ap, ap₂, ◌∙◌, none, some, List,
  [], ◌∷◌, ◌++◌, arith, length, get_or, set, length-set, length-replicate, get_or-set_self,
  get_or-set_ne, mod-eq_of_lt, mod-add-mod, mod-eq-sub-mod, mod-lt, inl, inr,
}
use native.Mathlib.Decide.{dec_lt}
use libctorrent.Ring.{Ring, wrap, init, push, pop}

-- Two indices less than a turn apart fall on different slots.
mod-ne : (c a d : ℕ) → 0 < d → d < c → a % c ≢ (a + d) % c
mod-ne c a d pos small e =
    let whole : (a % c + d) % c ≡ a % c = mod-add-mod a c d ∙ sym e in
    let below : a % c < c = mod-lt a (omega arith) in
    elim (dec_lt (a % c + d) c) [
      | yes p ↦ omega (arith, mod-eq_of_lt {n = a % c + d} {m = c} p, whole)
      | no p ↦ omega (
        arith,
        mod-eq-sub-mod {n = a % c + d} {m = c} (omega arith),
        mod-eq_of_lt {n = a % c + d - c} {m = c} (omega arith),
        whole,
      )
    ]

module _ {A : Type 0} (cap : ℕ) (blank : A) where
  -- The `k` items from index `h` on, going round at `cap`.
  abbrev pub window : List A → ℕ → ℕ → List A
  window slots h zero = []
  window slots h (suc k) = get_or slots (h % cap) blank ∷ window slots (suc h) k

  -- The queue that the array stands for, oldest item first.
  abbrev pub contents : Ring A → List A
  contents q = window q.slots q.qhead q.n

  pub record IsValid (q : Ring A) : Type 0 where
    pub sized : length q.slots ≡ cap
    pub some_room : 0 < cap
    pub head_in : q.qhead ≤ cap
    pub tail_in : q.qtail ≤ cap
    pub bounded : q.n ≤ cap
    pub linked : (q.qhead + q.n) % cap ≡ q.qtail % cap

  pub length-window : (slots : List A) (h k : ℕ) → length (window slots h k) ≡ k
  length-window slots h zero = refl
  length-window slots h (suc k) = ap suc (length-window slots (suc h) k)

  window_snoc :
      (slots : List A) (h k : ℕ)
      → window slots h (suc k) ≡ window slots h k ++ get_or slots ((h + k) % cap) blank ∷ []
  window_snoc slots h zero =
      ap (λ i. get_or slots (i % cap) blank ∷ []) (let e : h ≡ h + 0 = omega arith in e)
  window_snoc slots h (suc k) = ap (◌∷◌ (get_or slots (h % cap) blank)) (
      window_snoc slots (suc h) k
      ∙ ap (λ i. window slots (suc h) k ++ get_or slots (i % cap) blank ∷ [])
          (let e : suc h + k ≡ h + suc k = omega arith in e))

  -- A write at an index outside the window does not change it.
  window-set :
      (slots : List A) (h k t : ℕ) (x : A)
      → k + h ≤ t
      → t < h + cap
      → window (set slots (t % cap) x) h k ≡ window slots h k
  window-set slots h zero t x p q = refl
  window-set slots h (suc k) t x p q =
      let e : h + (t - h) ≡ t = omega arith in
      let apart : t % cap ≢ h % cap =
        λ same. mod-ne cap h (t - h) (omega arith) (omega arith) (rw e (sym same)) in
      ap₂ ◌∷◌ (get_or-set_ne slots (t % cap) (h % cap) x blank apart)
        (window-set slots (suc h) k t x (omega arith) (omega arith))

  wrap-mod : (i : ℕ) → i ≤ cap → 0 < cap → wrap cap blank i ≡ i % cap
  wrap-mod i h pos = elim (dec_lt i cap) [
    | yes p ↦ ground (arith, mod-eq_of_lt {n = i} {m = cap} p)
    | no p ↦ ground (
      arith,
      mod-eq-sub-mod {n = i} {m = cap} (omega arith),
      mod-eq_of_lt {n = i - cap} {m = cap} (omega arith),
    )
  ]

  pub init-IsValid : 0 < cap → IsValid (init cap blank) × (contents (init cap blank) ≡ [])
  unfolding init
  init-IsValid h = (
    record {
      sized = length-replicate cap blank;
      some_room = h;
      head_in = omega arith;
      tail_in = omega arith;
      bounded = omega arith;
      linked = refl;
    },
    refl,
  )

  -- A full array refuses a push; any other appends exactly the item and stays valid.
  pub push_refines :
      (q : Ring A) (x : A)
      → IsValid q
      → ((q.n ≡ cap) × (push cap blank q x ≡ none))
        ⊎ ((r : Ring A) × (q.n < cap)
            × (push cap blank q x ≡ some r)
            × IsValid r
            × (contents r ≡ contents q ++ x ∷ []))
  unfolding push
  push_refines q x v = elim (dec_lt q.n cap) [
    | no full ↦ inl (omega arith, ground arith)
    | yes room ↦ inr (after, room, ground arith, after-IsValid room, snoc room)
  ]
    where
      after : Ring A
      after = record q {
        slots = set q.slots (wrap cap blank q.qtail) x;
        qtail = wrap cap blank q.qtail + 1;
        n = q.n + 1;
      }

      at : wrap cap blank q.qtail ≡ (q.qhead + q.n) % cap
      at = wrap-mod q.qtail v.tail_in v.some_room ∙ sym v.linked

      after-IsValid : q.n < cap → IsValid after
      after-IsValid room = record {
        sized = length-set q.slots (wrap cap blank q.qtail) x ∙ v.sized;
        some_room = v.some_room;
        head_in = v.head_in;
        tail_in = omega (arith, at, mod-lt (q.qhead + q.n) v.some_room);
        bounded = omega arith;
        linked =
            rw (at, mod-add-mod (q.qhead + q.n) cap 1)
              (ap (λ i. i % cap)
                (let e : q.qhead + (q.n + 1) ≡ q.qhead + q.n + 1 = omega arith in e));
      }

      snoc : q.n < cap → contents after ≡ contents q ++ x ∷ []
      snoc room =
          ap (window after.slots q.qhead) (let e : q.n + 1 ≡ suc q.n = omega arith in e)
          ∙ window_snoc after.slots q.qhead q.n
          ∙ ap₂ (λ xs y. xs ++ y ∷ [])
              (rw at (window-set q.slots q.qhead q.n (q.qhead + q.n) x (omega arith) (omega arith)))
              (rw at (
                get_or-set_self q.slots ((q.qhead + q.n) % cap) x blank
                  (omega (arith, v.sized, mod-lt (q.qhead + q.n) v.some_room))))

  window_of_ne_zero :
      (slots : List A) (h k : ℕ)
      → k ≢ 0
      → window slots h k ≡ get_or slots (h % cap) blank ∷ window slots (h + 1) (k - 1)
  window_of_ne_zero slots h zero p = absurd (p refl)
  window_of_ne_zero slots h (suc k) p =
      ap₂ (λ i m. get_or slots (h % cap) blank ∷ window slots i m)
        (let e : suc h ≡ h + 1 = omega arith in e) (let e : k ≡ suc k - 1 = omega arith in e)

  window-turn :
      (slots : List A) (h h' k : ℕ) → h % cap ≡ h' % cap → window slots h k ≡ window slots h' k
  window-turn slots h h' zero e = refl
  window-turn slots h h' (suc k) e = ap₂ ◌∷◌ (ap (λ i. get_or slots i blank) e) (
      window-turn slots (suc h) (suc h') k (
        ap (λ i. i % cap) (let s : suc h ≡ h + 1 = omega arith in s)
        ∙ sym (mod-add-mod h cap 1)
        ∙ ap (λ i. (i + 1) % cap) e
        ∙ mod-add-mod h' cap 1
        ∙ ap (λ i. i % cap) (let s : h' + 1 ≡ suc h' = omega arith in s)))

  -- An empty array refuses a pop; any other gives its oldest item, keeps the rest, and stays valid.
  pub pop_refines :
      (q : Ring A)
      → IsValid q
      → ((contents q ≡ []) × (pop cap blank q ≡ none))
        ⊎ ((x : A) × (r : Ring A) × (pop cap blank q ≡ some (x, r))
            × IsValid r
            × (contents q ≡ x ∷ contents r))
  unfolding pop
  pop_refines q v = elim (dec_lt 0 q.n) [
    | no idle ↦ let e : q.n ≡ 0 = omega arith in inl (ap (window q.slots q.qhead) e, ground arith)
    | yes busy ↦ inr (
      get_or q.slots (wrap cap blank q.qhead) blank,
      after,
      ground arith,
      after-IsValid busy,
      window_of_ne_zero q.slots q.qhead q.n (omega arith)
          ∙ ap₂ ◌∷◌ (ap (λ i. get_or q.slots i blank) (sym at))
              (window-turn q.slots (q.qhead + 1) (wrap cap blank q.qhead + 1) (q.n - 1) turn),
    )
  ]
    where
      after : Ring A
      after = record q { qhead = wrap cap blank q.qhead + 1; n = q.n - 1 }

      at : wrap cap blank q.qhead ≡ q.qhead % cap
      at = wrap-mod q.qhead v.head_in v.some_room

      turn : (q.qhead + 1) % cap ≡ (wrap cap blank q.qhead + 1) % cap
      turn = rw at (sym (mod-add-mod q.qhead cap 1))

      after-IsValid : 0 < q.n → IsValid after
      after-IsValid busy = record {
        sized = v.sized;
        some_room = v.some_room;
        head_in = omega (arith, at, mod-lt q.qhead v.some_room);
        tail_in = v.tail_in;
        bounded = omega arith;
        linked =
            sym (mod-add-mod (wrap cap blank q.qhead + 1) cap (q.n - 1))
            ∙ ap (λ i. (i + (q.n - 1)) % cap) (sym turn)
            ∙ mod-add-mod (q.qhead + 1) cap (q.n - 1)
            ∙ ap (λ i. i % cap) (let e : q.qhead + 1 + (q.n - 1) ≡ q.qhead + q.n = omega arith in e)
            ∙ v.linked;
      }
