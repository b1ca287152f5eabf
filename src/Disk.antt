-- ===== src/Disk.antt =====
-- src/disk.c: the files of a torrent as one array of bytes.
-- `open`, `lseek` and `write` are the system's: whether a path can be opened and whether bytes can
-- be written at a position (a seek to it always succeeds) are parameters, and a file's content is the function that a write
-- changes. A descriptor is open or not (`fd >= 0`).
pub mod Layout
pub mod Write
use libctorrent.Prelude.{
  ℕ, zero, suc, ◌+◌, ◌-◌, ◌%◌, ◌^◌, Bool, true, false, ◌&&◌, not, List, [], ◌∷◌, ◌++◌, ltb, leb,
  ◌==◌, if◌then◌else◌, length, take, drop, min, Option, none, some, get_or,
}

-- `struct bt_file`, with its content.
pub record File : Type 0 where
  pub path : List ℕ
  pub sz : ℕ
  pub off : ℕ
  pub file_pos : ℕ
  pub opened : Bool
  pub content : ℕ → ℕ

-- `struct bt_diskmgr`
pub record DiskMgr : Type 0 where
  pub total_sz : ℕ
  pub files : List File

-- `bt_disk_init`
unfoldable pub disk_init : DiskMgr
disk_init = record { total_sz = 0; files = [] }

abbrev pub new_file : List ℕ → ℕ → ℕ → File
new_file path sz off = record {
  path = path;
  sz = sz;
  off = off;
  file_pos = 0;
  opened = false;
  content = λ _. 0;
}

-- `bt_disk_add_file`; `made` is what `make_dir_tree` answers for the path.
unfoldable pub disk_add_file : (List ℕ → Bool) → DiskMgr → List ℕ → ℕ → Option DiskMgr
disk_add_file made m path sz =
    if made path
    then some record {
      total_sz = (m.total_sz + sz) % 2 ^ 64;
      files = m.files ++ new_file path sz m.total_sz ∷ [];
    }
    else none

-- `file_from_offset` from the second file on: `prev` is the file before. The answer is the number of
-- files before the one found.
unfoldable pub search_from : ℕ → File → List File → ℕ → Option ℕ
search_from i prev [] off = if ltb off ((prev.off + prev.sz) % 2 ^ 64) then some i else none
search_from i prev (f ∷ v) off =
    let rest = search_from (i + 1) f v off in if ltb off f.off then some i else rest

-- `file_from_offset`. The outer `none` is the failed assertion: the first file is behind `off`.
unfoldable pub file_from_offset : List File → ℕ → Option (Option ℕ)
file_from_offset [] off = some none
file_from_offset (f ∷ v) off = if ltb off f.off then none else some (search_from 0 f v off)

-- The bytes `bytes` written from position `at` on.
unfoldable pub overwrite : (ℕ → ℕ) → ℕ → List ℕ → ℕ → ℕ
overwrite c at bytes i =
    if leb at i && ltb i (at + length bytes) then get_or bytes (i - at) 0 else c i

-- What a transfer returns: -1, or the number of bytes, with the file it leaves.
pub data Transfer : Type 0 where
  refused : File → Transfer
  moved : ℕ → File → Transfer

-- What a write to the torrent returns: 0 (true) or -1, and the files.
pub record Written : Type 0 where
  pub all_done : Bool
  pub left : List File

abbrev pub behind : File → Written → Written
behind f w = record { all_done = w.all_done; left = f ∷ w.left }

-- The rest of a turn of the loop, before it goes on by `again`.
abbrev pub after_transfer : (List File → List ℕ → Written) → List File → List ℕ → Transfer → Written
after_transfer again v bytes (refused f) = record { all_done = false; left = f ∷ v }
after_transfer again [] bytes (moved zero f) = record { all_done = true; left = f ∷ [] }
after_transfer again (g ∷ v) bytes (moved zero f) =
    behind f (again (record g { file_pos = 0 } ∷ v) bytes)
after_transfer again v bytes (moved (suc n) f) = again (f ∷ v) (drop (suc n) bytes)

module _ (can_open : List ℕ → Bool) (can_write : List ℕ → ℕ → List ℕ → Bool) where
  -- `file_write`
  unfoldable pub file_write : File → List ℕ → Transfer
  file_write file bytes =
      let len = min (length bytes) ((file.sz + 2 ^ 64 - file.file_pos) % 2 ^ 64) in
      let chunk = take len bytes in
      let file' = record file { opened = true; file_pos = (file.file_pos + len) % 2 ^ 64 } in
      if not file.opened && not (can_open file.path)
      then refused file
      else if can_write file.path file.file_pos chunk
      then moved len record file' { content = overwrite file.content file.file_pos chunk }
      else refused file'

  -- `filevec_write` at the files that are left. Each turn either moves bytes or goes on to the next
  -- file; out of fuel is an error.
  unfoldable pub filevec_write : ℕ → List File → List ℕ → Written
  filevec_write fuel v [] = record { all_done = true; left = v }
  filevec_write zero v (x ∷ bytes) = record { all_done = false; left = v }
  filevec_write (suc fuel) [] (x ∷ bytes) = record { all_done = false; left = [] }
  filevec_write (suc fuel) (f ∷ v) (x ∷ bytes) =
      after_transfer (λ w d. filevec_write fuel w d) v (x ∷ bytes) (file_write f (x ∷ bytes))

  -- `file_set_pos`, and the files from there on.
  abbrev pub write_at : List File → ℕ → List ℕ → Written
  write_at [] base bytes = record { all_done = false; left = [] }
  write_at (f ∷ v) base bytes =
      filevec_write (length bytes + suc (length v)) (record f { file_pos = base - f.off } ∷ v) bytes

  abbrev pub write_found : DiskMgr → ℕ → List ℕ → Option ℕ → Bool × DiskMgr
  write_found m base bytes none = (false, m)
  write_found m base bytes (some k) =
      let w = write_at (drop k m.files) base bytes in
      (w.all_done, record m { files = take k m.files ++ w.left })

  abbrev pub after_search : DiskMgr → List ℕ → ℕ → Option (Option ℕ) → Option (Bool × DiskMgr)
  after_search m bytes base none = none
  after_search m bytes base (some found) = some (write_found m base bytes found)

  -- `bt_disk_write`
  unfoldable pub disk_write : DiskMgr → List ℕ → ℕ → Option (Bool × DiskMgr)
  disk_write m bytes base = after_search m bytes base (file_from_offset m.files base)
