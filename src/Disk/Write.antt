-- ===== src/Disk/Write.antt =====
-- Writing through the files of a torrent (`filevec_write` of src/disk.c) writes to the array of bytes
-- that they make up.
use libctorrent.Prelude.{
  ℕ, zero, suc, ◌+◌, ◌-◌, ◌%◌, ◌^◌, ◌≤◌, ◌<◌, ◌≡◌, refl, ap, ◌∙◌, Bool, true, false, ◌&&◌, not,
  List, [], ◌∷◌, ltb, leb, ◌==◌, if◌then◌else◌, length, take, drop, min, get_or, arith, length-take,
  length-drop, Bool-cases, inl, inr,
}
use libctorrent.Disk.{
  File, overwrite, moved, Written, after_transfer, behind, file_write, filevec_write,
}

-- The bytes in the files.
unfoldable pub total : List File → ℕ
total [] = 0
total (f ∷ v) = f.sz + total v

-- Byte `i` of the files' contents, one behind the other.
unfoldable pub byte_at : List File → ℕ → ℕ
byte_at [] i = 0
byte_at (f ∷ v) i = if ltb i f.sz then f.content i else byte_at v (i - f.sz)

get_or-take : (n : ℕ) (xs : List ℕ) (i d : ℕ) → i < n → get_or (take n xs) i d ≡ get_or xs i d
get_or-take zero xs i d h = absurd (omega arith)
get_or-take (suc n) [] i d h = refl
get_or-take (suc n) (x ∷ xs) zero d h = refl
get_or-take (suc n) (x ∷ xs) (suc i) d h = get_or-take n xs i d (omega arith)

get_or-drop : (n : ℕ) (xs : List ℕ) (i d : ℕ) → get_or (drop n xs) i d ≡ get_or xs (n + i) d
get_or-drop zero xs i d = ap (λ j. get_or xs j d) (omega arith)
get_or-drop (suc n) [] i d = refl
get_or-drop (suc n) (x ∷ xs) i d =
    get_or-drop n xs i d
    ∙ ap (λ j. get_or (x ∷ xs) j d) {x = suc (n + i)} {y = suc n + i} (omega arith)

-- A write in two parts.
overwrite_parts :
    (c : ℕ → ℕ) (at n : ℕ) (xs : List ℕ) (i : ℕ)
    → n ≤ length xs
    → overwrite (overwrite c at (take n xs)) (at + n) (drop n xs) i ≡ overwrite c at xs i
unfolding overwrite
overwrite_parts c at n xs i h = elim (Bool-cases (ltb i (at + n))) [
  | inl early ↦ elim (Bool-cases (leb at i)) [
    | inl inside ↦
        ground
          (arith, get_or-take n xs (i - at) 0 (ground arith), length-take n xs, length-drop n xs)
    | inr before ↦ ground (arith, length-take n xs, length-drop n xs)
  ]
  | inr late ↦
      let index : n + (i - (at + n)) ≡ i - at = ground arith in
      ground (
        arith,
        get_or-drop n xs (i - (at + n)) 0,
        ap (λ j. get_or xs j 0) index,
        length-take n xs,
        length-drop n xs,
      )
]

-- A write to a file behind the first one.
overwrite_behind :
    (c : ℕ → ℕ) (at : ℕ) (xs : List ℕ) (i : ℕ)
    → at ≤ i
    → overwrite (λ j. c (at + j)) 0 xs (i - at) ≡ overwrite c at xs i
unfolding overwrite
overwrite_behind c at xs i h =
    let index : at + (i - at) ≡ i = omega arith in ground (arith, ap c index)

overwrite_same :
    (c d : ℕ → ℕ) (at : ℕ) (xs : List ℕ) (i : ℕ)
    → c i ≡ d i
    → overwrite c at xs i ≡ overwrite d at xs i
unfolding overwrite
overwrite_same c d at xs i h = rw h refl

-- A write within the first file.
overwrite_first :
    (f g : File) (v : List File) (at : ℕ) (xs : List ℕ) (i : ℕ)
    → g.sz ≡ f.sz
    → g.content ≡ overwrite f.content at xs
    → at + length xs ≤ f.sz
    → byte_at (g ∷ v) i ≡ overwrite (byte_at (f ∷ v)) at xs i
unfolding overwrite byte_at
overwrite_first f g v at xs i same c h = ground (arith, ap (λ k. k i) c)

-- What a write of `bytes` at position `at` of these files leaves.
unfoldable pub IsWritten : List File → ℕ → List ℕ → Written → Type 0
IsWritten v at bytes w =
    (w.all_done ≡ true)
    × ((i : ℕ) → i < total v → byte_at w.left i ≡ overwrite (byte_at v) at bytes i)

untouched : (c : ℕ → ℕ) (at i : ℕ) → overwrite c at [] i ≡ c i
unfolding overwrite
untouched c at i = ground arith

-- Behind the last file nothing is written.
last_file :
    (f f' : File) (bytes : List ℕ)
    → f.file_pos ≡ f.sz
    → f'.sz ≡ f.sz
    → ((i : ℕ) → f'.content i ≡ f.content i)
    → IsWritten (f ∷ []) f.file_pos bytes (record { all_done = true; left = f' ∷ [] })
unfolding IsWritten total byte_at overwrite
last_file f f' bytes full f_sz f_content = (refl, λ i e. ground (arith, f_content i))

-- Nothing is written to a full file, and the rest to the files behind it.
next_file :
    (f f' g g' : File) (v : List File) (bytes : List ℕ) (w : Written) (at : ℕ)
    → at ≡ f.sz
    → f'.sz ≡ f.sz
    → ((i : ℕ) → f'.content i ≡ f.content i)
    → g'.sz ≡ g.sz
    → g'.content ≡ g.content
    → IsWritten (g' ∷ v) 0 bytes w
    → IsWritten (f ∷ g ∷ v) at bytes (behind f' w)
unfolding IsWritten
next_file f f' g g' v bytes w at at_end f_sz f_content g_sz g_content (done, ih) = (
  done,
  λ i e. elim (Bool-cases (ltb i f.sz)) [
    | inl first ↦ unfold byte_at overwrite in ground (arith, f_content i)
    | inr late ↦
        let inner =
          ih (i - f.sz) (unfold total in ground arith)
          ∙ overwrite_same (byte_at (g' ∷ v)) (λ j. byte_at (f ∷ g ∷ v) (f.sz + j)) 0 bytes
              (i - f.sz) (same_behind (i - f.sz))
          ∙ overwrite_behind (byte_at (f ∷ g ∷ v)) f.sz bytes i (ground arith) in
        rw at_end (passed i late ∙ inner)
  ],
)
  where
    same_behind : (j : ℕ) → byte_at (g' ∷ v) j ≡ byte_at (f ∷ g ∷ v) (f.sz + j)
    same_behind j =
        let index : f.sz + j - f.sz ≡ j = omega arith in
        let past : ltb (f.sz + j) f.sz ≡ false = ground arith in
        unfold byte_at in rw (past, index, g_sz, g_content) refl

    passed : (i : ℕ) → ltb i f.sz ≡ false → byte_at (behind f' w).left i ≡ byte_at w.left (i - f.sz)
    passed i late = unfold byte_at in rw (f_sz, late) refl

-- A first part goes to the first file, and the rest is written behind that part.
more_bytes :
    (f g : File) (v : List File) (n at : ℕ) (bytes : List ℕ) (w : Written)
    → n ≤ length bytes
    → g.sz ≡ f.sz
    → g.content ≡ overwrite f.content at (take n bytes)
    → at + n ≤ f.sz
    → IsWritten (g ∷ v) (at + n) (drop n bytes) w
    → IsWritten (f ∷ v) at bytes w
unfolding IsWritten
more_bytes f g v n at bytes w long same c room (done, ih) = (
  done,
  λ i e.
      ih i (unfold total in omega arith)
      ∙ overwrite_same (byte_at (g ∷ v)) (overwrite (byte_at (f ∷ v)) at (take n bytes)) (at + n)
          (drop n bytes) i
          (overwrite_first f g v at (take n bytes) i same c (omega (arith, length-take n bytes)))
      ∙ overwrite_parts (byte_at (f ∷ v)) at n bytes i long,
)

module _ (can_open : List ℕ → Bool) (can_write : List ℕ → ℕ → List ℕ → Bool)
    (opens : (p : List ℕ) → can_open p ≡ true)
    (writes : (p : List ℕ) (at : ℕ) (b : List ℕ) → can_write p at b ≡ true) where
  -- What `file_write` does when the system refuses nothing.
  file_write_lem :
      (f : File) (bytes : List ℕ)
      → f.file_pos ≤ f.sz
      → f.sz < 2 ^ 64
      → (let n = min (length bytes) (f.sz - f.file_pos) in
          file_write can_open can_write f bytes
          ≡ moved n record f {
            opened = true;
            file_pos = f.file_pos + n;
            content = overwrite f.content f.file_pos (take n bytes);
          })
  unfolding file_write
  file_write_lem f bytes h k =
      let room : (f.sz + 2 ^ 64 - f.file_pos) % 2 ^ 64 ≡ f.sz - f.file_pos = omega arith in
      let n = min (length bytes) (f.sz - f.file_pos) in
      let on : (f.file_pos + n) % 2 ^ 64 ≡ f.file_pos + n = omega arith in
      rw (room, opens f.path, writes f.path f.file_pos (take n bytes), on, refusal f.opened) refl
    where
      refusal : (b : Bool) → (not b && not true) ≡ false
      refusal true = refl
      refusal false = refl

  -- `filevec_write` on enough fuel: a turn for each byte and each file.
  pub filevec_write_lem :
      (fuel : ℕ) (f : File) (v : List File) (bytes : List ℕ)
      → length bytes + length v < fuel
      → f.file_pos ≤ f.sz
      → total (f ∷ v) < 2 ^ 64
      → IsWritten (f ∷ v) f.file_pos bytes (filevec_write can_open can_write fuel (f ∷ v) bytes)
  unfolding filevec_write total
  filevec_write_lem fuel f v [] h p k =
      unfold IsWritten in (refl, λ i e. unfold overwrite in ground arith)
  filevec_write_lem zero f v (x ∷ bytes) h p k = absurd (omega arith)
  filevec_write_lem (suc fuel) f v (x ∷ bytes) h p k = elim (Bool-cases (f.file_pos == f.sz)) [
    | inl full ↦
        let n_is : min (length (x ∷ bytes)) (f.sz - f.file_pos) ≡ 0 = ground arith in
        rw (file_write_lem f (x ∷ bytes) p (omega arith), n_is)
          (next v h k (ground arith) (λ g w a b.
            filevec_write_lem fuel (record g { file_pos = 0 }) w (x ∷ bytes) a (omega arith) b))
    | inr more ↦
        let n = min (length (x ∷ bytes)) (f.sz - f.file_pos) in
        let m = suc (n - 1) in
        let n_is : n ≡ m = ground arith in
        rw (file_write_lem f (x ∷ bytes) p (omega arith), n_is)
          (more_bytes f (part m) v m f.file_pos (x ∷ bytes)
            (filevec_write can_open can_write fuel (part m ∷ v) (drop (m) (x ∷ bytes)))
            (omega arith) refl refl (omega arith)
            (filevec_write_lem fuel (part m) v (drop (m) (x ∷ bytes))
              (omega (arith, length-drop (m) (x ∷ bytes))) (omega arith) (omega arith)))
  ]
    where
      part : ℕ → File
      part n = record f {
        opened = true;
        file_pos = f.file_pos + n;
        content = overwrite f.content f.file_pos (take n (x ∷ bytes));
      }

      next :
          (v : List File)
          → length (x ∷ bytes) + length v < suc fuel
          → total (f ∷ v) < 2 ^ 64
          → f.file_pos ≡ f.sz
          → ((g : File) (w : List File)
              → length (x ∷ bytes) + length w < fuel
              → total (record g { file_pos = 0 } ∷ w) < 2 ^ 64
              → IsWritten (record g { file_pos = 0 } ∷ w) 0 (x ∷ bytes) (
                  filevec_write can_open can_write fuel
                    (record g { file_pos = 0 } ∷ w)
                    (x ∷ bytes)))
          → IsWritten (f ∷ v) f.file_pos (x ∷ bytes) (
              after_transfer
                (λ w d. filevec_write can_open can_write fuel w d)
                v
                (x ∷ bytes)
                (moved zero (part 0)))
      next [] h k full again =
          last_file f (part 0) (x ∷ bytes) full refl (untouched f.content f.file_pos)
      next (g ∷ w) h k full again =
          next_file f (part 0) g (record g { file_pos = 0 }) w (x ∷ bytes)
            (filevec_write can_open can_write fuel (record g { file_pos = 0 } ∷ w) (x ∷ bytes))
            f.file_pos full refl (untouched f.content f.file_pos) refl refl
            (again g w (omega arith) (omega arith))
