-- ===== src/Tests/Files.antt =====
-- src/disk.c at concrete inputs.
use libctorrent.Prelude.{ℕ, ◌≡◌, refl, Bool, true, some, List, [], ◌∷◌, arith}
use libctorrent.Disk.{File, DiskMgr, new_file, disk_write}
use libctorrent.Disk.Write.{total}
use libctorrent.Disk.Layout.{IsLaidOut, IsStored, disk_write_lem}

abbrev can_open : List ℕ → Bool
can_open p = true

abbrev can_write : List ℕ → ℕ → List ℕ → Bool
can_write p at b = true

-- Two files of three and five bytes.
abbrev two_files : List File
two_files = new_file (b'a' ∷ []) 3 0 ∷ new_file (b'b' ∷ []) 5 3 ∷ []

abbrev some_disk : DiskMgr
some_disk = record { total_sz = 8; files = two_files }

two_files-IsLaidOut : IsLaidOut 0 two_files
unfolding IsLaidOut
two_files-IsLaidOut = (refl, (refl, tt))

disk_write_lem_example :
    (m : DiskMgr) × (disk_write can_open can_write some_disk (1 ∷ 2 ∷ 3 ∷ []) 2 ≡ some (true, m))
    × IsStored some_disk 2 (1 ∷ 2 ∷ 3 ∷ []) m
disk_write_lem_example =
    disk_write_lem can_open can_write (λ p. refl) (λ p at b. refl) some_disk (1 ∷ 2 ∷ 3 ∷ []) 2
      two_files-IsLaidOut (unfold total in omega arith) (unfold total in omega arith)
