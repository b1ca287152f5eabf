-- ===== src/Disk/Layout.antt =====
-- Where an offset of the torrent lies (`file_from_offset` of src/disk.c), and what `bt_disk_write`
-- writes.
use libctorrent.Prelude.{
  ℕ, suc, ◌+◌, ◌-◌, ◌^◌, ◌≤◌, ◌<◌, ◌≡◌, refl, ap, sym, ◌∙◌, Bool, true, false, List, [], ◌∷◌, ◌++◌,
  ltb, if◌then◌else◌, length, take, drop, some, get_or, arith, Bool-cases, inl, inr,
  take-append-drop,
}
use libctorrent.Disk.{
  File, DiskMgr, overwrite, Written, search_from, file_from_offset, disk_write, write_at,
}
use libctorrent.Disk.Write.{total, byte_at, IsWritten, filevec_write_lem}

-- Each file begins where the one before it ends.
unfoldable pub IsLaidOut : ℕ → List File → Type 0
IsLaidOut base [] = Unit {0}
IsLaidOut base (f ∷ v) = (f.off ≡ base) × IsLaidOut (base + f.sz) v

-- File `k` of the files from offset `base` on holds `off`.
pub record Holds (v : List File) (base k off : ℕ) : Type 0 where
  pub found : File
  pub others : List File
  pub place : drop k v ≡ found ∷ others
  pub begins : base + total (take k v) ≡ found.off
  pub from : found.off ≤ off
  pub to : off < found.off + found.sz

search_from_lem :
    (i : ℕ) (prev : File) (v : List File) (off : ℕ)
    → IsLaidOut (prev.off + prev.sz) v
    → prev.off ≤ off
    → off < prev.off + total (prev ∷ v)
    → prev.off + total (prev ∷ v) < 2 ^ 64
    → (j : ℕ) × (search_from i prev v off ≡ some (i + j)) × Holds (prev ∷ v) prev.off j off
unfolding IsLaidOut search_from total
search_from_lem i prev [] off h low high k = (
  0,
  ground arith,
  record {
    found = prev;
    others = [];
    place = refl;
    begins = omega arith;
    from = low;
    to = omega arith;
  },
)
search_from_lem i prev (f ∷ v) off (at, h) low high k = elim (Bool-cases (ltb off f.off)) [
  | inl here ↦ (
    0,
    ground arith,
    record {
      found = prev;
      others = f ∷ v;
      place = refl;
      begins = omega arith;
      from = low;
      to = ground arith;
    },
  )
  | inr later ↦
      let (j, e, p) =
        search_from_lem (i + 1) f v off (rw at h) (ground arith) (omega arith) (omega arith) in
      (
        suc j,
        ground (arith, e),
        record {
          found = p.found;
          others = p.others;
          place = p.place;
          begins = omega (arith, p.begins);
          from = p.from;
          to = p.to;
        },
      )
]

byte_at-append :
    (pre w : List File) (i : ℕ)
    → byte_at (pre ++ w) i
      ≡ (if ltb i (total pre) then byte_at pre i else byte_at w (i - total pre))
unfolding byte_at total
byte_at-append [] w i = let index : i ≡ i - 0 = omega arith in ground (arith, ap (byte_at w) index)
byte_at-append (f ∷ pre) w i =
    let index : i - f.sz - total pre ≡ i - (f.sz + total pre) = omega arith in
    ground (arith, byte_at-append pre w (i - f.sz), ap (byte_at w) index)

total-append : (pre w : List File) → total (pre ++ w) ≡ total pre + total w
unfolding total
total-append [] w = omega arith
total-append (f ∷ pre) w = omega (arith, total-append pre w)

-- Files written behind others that are left alone.
behind_others :
    (pre v : List File) (base : ℕ) (bytes : List ℕ) (w : Written) (i : ℕ)
    → total pre ≤ base
    → IsWritten v (base - total pre) bytes w
    → i < total (pre ++ v)
    → byte_at (pre ++ w.left) i ≡ overwrite (byte_at (pre ++ v)) base bytes i
behind_others pre v base bytes w i h ih e = elim (Bool-cases (ltb i (total pre))) [
  | inl first ↦
      unfold overwrite in ground (arith, byte_at-append pre w.left i, byte_at-append pre v i)
  | inr late ↦
      unfold overwrite IsWritten in
      let index : i - total pre - (base - total pre) ≡ i - base = omega arith in
      let inner = ih.1 (i - total pre) (ground (arith, total-append pre v)) in
      ground (
        arith,
        byte_at-append pre w.left i,
        byte_at-append pre v i,
        inner,
        ap (λ j. get_or bytes j 0) index,
      )
]

-- `file_from_offset` finds the file that holds an offset below the total size, when each file
-- begins where the one before it ends.
pub file_from_offset_lem :
    (v : List File) (off : ℕ)
    → IsLaidOut 0 v
    → off < total v
    → total v < 2 ^ 64
    → (k : ℕ) × (file_from_offset v off ≡ some (some k)) × Holds v 0 k off
unfolding file_from_offset
file_from_offset_lem [] off h e k = unfold total in absurd (omega arith)
file_from_offset_lem (f ∷ v) off h e k =
    let at : f.off ≡ 0 = unfold IsLaidOut in h.0 in
    let rest : IsLaidOut (0 + f.sz) v = unfold IsLaidOut in h.1 in
    let start : ltb off f.off ≡ false = ground (arith, at) in
    let next : IsLaidOut (f.off + f.sz) v = rw at rest in
    let (j, found, p) =
      search_from_lem 0 f v off next (omega (arith, at)) (omega (arith, at)) (omega (arith, at)) in
    let counted : 0 + j ≡ j = omega arith in (j, rw (start, found, counted) refl, subst_base at p)
  where
    subst_base : {b : ℕ} {j : ℕ} → b ≡ 0 → Holds (f ∷ v) b j off → Holds (f ∷ v) 0 j off
    subst_base e p = record {
      found = p.found;
      others = p.others;
      place = p.place;
      begins = omega (arith, p.begins, e);
      from = p.from;
      to = p.to;
    }

-- What `bt_disk_write` leaves: the files before, which read as one array, with the bytes written.
unfoldable pub IsStored : DiskMgr → ℕ → List ℕ → DiskMgr → Type 0
IsStored m base bytes m' =
    (i : ℕ) → i < total m.files → byte_at m'.files i ≡ overwrite (byte_at m.files) base bytes i

module _ (can_open : List ℕ → Bool) (can_write : List ℕ → ℕ → List ℕ → Bool)
    (opens : (p : List ℕ) → can_open p ≡ true)
    (writes : (p : List ℕ) (at : ℕ) (b : List ℕ) → can_write p at b ≡ true) where
  -- `bt_disk_write` to an offset below the total size writes the bytes to the array that the files
  -- make up, and leaves all its other bytes; it returns 0. Each file begins where the one before it
  -- ends, and the system refuses nothing.
  pub disk_write_lem :
      (m : DiskMgr) (bytes : List ℕ) (base : ℕ)
      → IsLaidOut 0 m.files
      → base < total m.files
      → total m.files < 2 ^ 64
      → (m' : DiskMgr) × (disk_write can_open can_write m bytes base ≡ some (true, m'))
        × IsStored m base bytes m'
  unfolding disk_write
  disk_write_lem m bytes base h e k =
      let (j, found, p) = file_from_offset_lem m.files base h e k in
      let w = write_at can_open can_write (drop j m.files) base bytes in
      let at : base - total (take j m.files) ≡ base - p.found.off = omega (arith, p.begins) in
      let here : IsWritten (drop j m.files) (base - total (take j m.files)) bytes w =
        rw (p.place, at)
          (start p.found p.others (omega (arith, p.from, p.to))
            (omega (arith, k, parts j m.files, ap total p.place))) in
      (
        record m { files = take j m.files ++ w.left },
        rw (found, here_done _ _ w here) refl,
        unfold IsStored in
            λ i inside.
              behind_others (take j m.files) (drop j m.files) base bytes w i
                (omega (arith, p.begins, p.from)) here
                (omega (arith, ap total (take-append-drop j m.files)))
              ∙ ap (λ v. overwrite (byte_at v) base bytes i) (take-append-drop j m.files),
      )
    where
      parts : (j : ℕ) (v : List File) → total (take j v) + total (drop j v) ≡ total v
      parts j v = sym (total-append (take j v) (drop j v)) ∙ ap total (take-append-drop j v)

      here_done :
          (v : List File) (at : ℕ) (w : Written) → IsWritten v at bytes w → w.all_done ≡ true
      here_done v at w h = unfold IsWritten in h.0

      start :
          (f : File) (v : List File)
          → base - f.off ≤ f.sz
          → total (f ∷ v) < 2 ^ 64
          → IsWritten (f ∷ v) (base - f.off) bytes (write_at can_open can_write (f ∷ v) base bytes)
      start f v low fits =
          unfold IsWritten total byte_at in
          filevec_write_lem can_open can_write opens writes (length bytes + suc (length v))
            (record f { file_pos = base - f.off }) v bytes (omega arith) low fits
