-- ===== src/Metainfo/Load.antt =====
-- `build_path` and `from_metainfo_file` of src/torrent.c, from the decoded metainfo on. Both walk a
-- list until an entry that is BCODE_NONE, which they read behind its array: `zeroed` says that the
-- memory there is. Memory is taken to be available but for the sets of the pieces and the hash.
use libctorrent.Prelude.{
  ℕ, zero, suc, ◌+◌, ◌-◌, ◌%◌, ◌^◌, Bool, true, false, not, Option, none, some, List, [], ◌∷◌, ◌++◌,
  ltb, ◌==◌, if◌then◌else◌, length, take,
}
use libctorrent.Prelude.Int.{ℤ, pos, negsuc}
use libctorrent.Prelude.Outcome.{Outcome, ok, failed, aborted, ◌>>=◌}
use libctorrent.Bitset.{ceil_div}
use libctorrent.Piece.{Piece}
use libctorrent.Disk.{DiskMgr, disk_init, disk_add_file}
use libctorrent.Bcode.Value.{BCode, int, str, list, dict, Items}
use libctorrent.Bcode.Lookup.{Found, value, missing, stray, index, name, bcode_get}
use libctorrent.Metainfo.{init_pieces, compute_hash, get_trackers, size_of}

-- The fields of `struct bt_torrent` that the metainfo sets.
pub record Loaded : Type 0 where
  pub piece_length : ℕ
  pub size : ℕ
  pub npieces : ℕ
  pub piecetab : List Piece
  pub mgr : DiskMgr
  pub announce : List (List ℕ)
  pub info_hash : List ℕ

-- The bytes before the first NUL.
abbrev pub c_string : List ℕ → List ℕ
c_string [] = []
c_string (x ∷ s) = let rest = c_string s in if x == 0 then [] else x ∷ rest

-- A number in 64 bits.
abbrev pub bits64 : ℤ → ℕ
bits64 (pos n) = n % 2 ^ 64
bits64 (negsuc n) = 2 ^ 64 - 1 - n % 2 ^ 64

-- `b_num` of a value that is not tested.
abbrev pub num_of : Found → Outcome ℕ
num_of (value (int n)) = ok (bits64 n)
num_of _ = aborted

-- `format_check` of the kind of a value.
abbrev pub dict_of : Found → Outcome BCode
dict_of (value (dict l)) = ok (dict l)
dict_of stray = aborted
dict_of _ = failed

abbrev pub str_of : Found → Outcome (List ℕ)
str_of (value (str s)) = ok s
str_of stray = aborted
str_of _ = failed

abbrev pub checked_num : Found → Outcome ℕ
checked_num (value (int n)) = ok (bits64 n)
checked_num stray = aborted
checked_num _ = failed

abbrev pub list_of : Found → Outcome Items
list_of (value (list l)) = ok l
list_of stray = aborted
list_of _ = failed

-- The keys of the metainfo.
abbrev pub path_key : List ℕ
path_key = b'p' ∷ b'a' ∷ b't' ∷ b'h' ∷ []

abbrev pub length_key : List ℕ
length_key = b'l' ∷ b'e' ∷ b'n' ∷ b'g' ∷ b't' ∷ b'h' ∷ []

abbrev pub info_key : List ℕ
info_key = b'i' ∷ b'n' ∷ b'f' ∷ b'o' ∷ []

abbrev pub name_key : List ℕ
name_key = b'n' ∷ b'a' ∷ b'm' ∷ b'e' ∷ []

abbrev pub piece_length_key : List ℕ
piece_length_key =
    b'p' ∷ b'i' ∷ b'e' ∷ b'c' ∷ b'e' ∷ b' ' ∷ b'l' ∷ b'e' ∷ b'n' ∷ b'g' ∷ b't' ∷ b'h' ∷ []

abbrev pub pieces_key : List ℕ
pieces_key = b'p' ∷ b'i' ∷ b'e' ∷ b'c' ∷ b'e' ∷ b's' ∷ []

abbrev pub files_key : List ℕ
files_key = b'f' ∷ b'i' ∷ b'l' ∷ b'e' ∷ b's' ∷ []

module _ (zeroed : Bool) where
  -- The entry of a list, also behind its array.
  abbrev pub item : Items → ℕ → Found
  item l i =
      if ltb i (size_of l) then bcode_get (list l) (index i) else if zeroed then missing else stray

  abbrev pub at_part : List ℕ → (List ℕ → Outcome (List ℕ)) → Found → Outcome (List ℕ)
  at_part path go (value (str s)) = go (path ++ b'/' ∷ s)
  at_part path go stray = aborted
  at_part path go _ = ok path

  -- The loop of `build_path` from entry `n`. It ends behind the last entry.
  unfoldable pub path_loop : ℕ → ℕ → Items → List ℕ → Outcome (List ℕ)
  path_loop zero n l path = ok path
  path_loop (suc k) n l path = at_part path (path_loop k (n + 1) l) (item l n)

  -- `build_path(b, outdir, name, NULL)`
  unfoldable pub build_path : Items → List ℕ → List ℕ → Outcome (List ℕ)
  build_path l outdir filename =
      path_loop (size_of l + 1) 0 l (c_string outdir ++ c_string filename)

  module _ (made : List ℕ → Bool) (outdir filename : List ℕ) where
    abbrev pub added : ℕ → Option DiskMgr → Outcome (ℕ × DiskMgr)
    added size none = failed
    added size (some m) = ok (size, m)

    -- A turn of the loop over the files.
    abbrev pub add_file : ℕ → DiskMgr → BCode → Outcome (ℕ × DiskMgr)
    add_file size m file = list_of (bcode_get file (name path_key)) >>= λ parts.
        build_path parts outdir filename >>= λ path.
        num_of (bcode_get file (name length_key)) >>= λ sz.
        added ((size + sz) % 2 ^ 64) (disk_add_file made m (c_string path) sz)

    abbrev pub at_file :
        ℕ → DiskMgr → (ℕ → DiskMgr → Outcome (ℕ × DiskMgr)) → Found → Outcome (ℕ × DiskMgr)
    at_file size m go (value (dict l)) = add_file size m (dict l) >>= λ (size', m'). go size' m'
    at_file size m go (value _) = failed
    at_file size m go missing = ok (size, m)
    at_file size m go stray = aborted

    -- The loop over the files from entry `i`. It ends behind the last entry.
    unfoldable pub files_loop : ℕ → ℕ → Items → ℕ → DiskMgr → Outcome (ℕ × DiskMgr)
    files_loop zero i l size m = ok (size, m)
    files_loop (suc k) i l size m = at_file size m (files_loop k (i + 1) l) (item l i)

    -- What `snprintf` puts into the array `path`: at most 255 bytes.
    abbrev pub single_path : List ℕ
    single_path = take 255 (c_string outdir ++ b'/' ∷ c_string filename)

    -- The files of the torrent. For a single file `t->size` stays at 0, as `bt_torrent_alloc` left it.
    abbrev pub files_of : BCode → Found → Outcome (ℕ × DiskMgr)
    files_of info (value (list l)) = files_loop (size_of l + 1) 0 l 0 disk_init
    files_of info stray = aborted
    files_of info _ = num_of (bcode_get info (name length_key)) >>= λ sz.
        added 0 (disk_add_file made disk_init single_path sz)

  -- Without a tracker the torrent is refused.
  abbrev pub hash_if : Bool → (ℕ → Bool) → BCode → Outcome (List ℕ)
  hash_if true alloc info = compute_hash alloc info
  hash_if false alloc info = failed

  -- The rest of `from_metainfo_file`. Pieces without bytes are a division by 0, and the number of
  -- pieces is an `unsigned`.
  unfoldable pub set_up : (ℕ → Bool) → BCode → BCode → ℕ → List ℕ → ℕ → DiskMgr → Outcome Loaded
  set_up alloc meta info plen hashes size m =
      let loaded = init_pieces alloc size plen hashes >>= λ table. get_trackers meta >>= λ trackers.
      hash_if (not (length trackers == 0)) alloc info >>= λ hash. ok (record {
        piece_length = plen;
        size = size;
        npieces = ceil_div 64 size plen % 2 ^ 32;
        piecetab = table;
        mgr = m;
        announce = trackers;
        info_hash = hash;
      }) in
      if plen == 0 then aborted else loaded

  -- `from_metainfo_file`, once the file is decoded.
  unfoldable pub from_metainfo : (ℕ → Bool) → (List ℕ → Bool) → List ℕ → BCode → Outcome Loaded
  from_metainfo alloc made outdir meta = dict_of (value meta) >>= λ d.
      dict_of (bcode_get d (name info_key)) >>= λ info.
      str_of (bcode_get info (name name_key)) >>= λ filename.
      checked_num (bcode_get info (name piece_length_key)) >>= λ plen.
      str_of (bcode_get info (name pieces_key)) >>= λ hashes.
      files_of made outdir filename info (bcode_get info (name files_key)) >>= λ (size, m).
      set_up alloc meta info plen hashes size m
