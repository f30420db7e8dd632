-- ===== src/Fs/Dir.antt =====
-- Directories and paths: the rest of fs/fs.c.
-- A `struct File *` points into a disk block, so that it is the number of the block with the place
-- of the file's first word; `blk` of a directory holds 16 files of 64 words. An operation on a file
-- reads the file's fields from there, runs and writes them back; it has no other way to these words
-- as long as the file's block is neither a bitmap block nor one of the file's own.
pub mod Lookup
pub mod Path
pub mod Tests
use jos_operating_system.Prelude.{
  ℕ, zero, suc, ◌+◌, ◌-◌, ◌*◌, ◌/◌, ◌%◌, ◌<◌, Bool, true, false, Option, none, some, List, [], ◌∷◌,
  ◌++◌, ◌==◌, ◌!=◌, leb, ltb, ◌&&◌, ◌||◌, not, if◌then◌else◌, Outcome, returns, panics, ◌>>=◌,
  length, update,
}
use jos_operating_system.Cstring.{Difference, ◌minus◌, strcmp}
use jos_operating_system.Fs.{Fs, blksize, flush_block}
use jos_operating_system.Fs.Bytes.{byte, copy_in}
use jos_operating_system.Fs.File.{
  File, FsError, inval, not_found, bad_path, file_exists, Reply, ok, fail, file_get_block,
  file_set_size, file_truncate_blocks,
}
use jos_operating_system.Fs.File.Io.{file_flush}

pub record FilePtr : Type 0 where
  pub block : ℕ
  pub at : ℕ

-- `&super->s_root`, behind two words of block 1
abbrev pub s_root : FilePtr
s_root = record { block = 1; at = 2 }

-- `&f[j]` in a directory's block
abbrev pub entry : ℕ → ℕ → FilePtr
entry b j = record { block = b; at = 64 * j }

-- the name is in words 0 to 31, and the fields behind it
abbrev pub load_file : Fs → FilePtr → File
load_file fs p =
    let w = fs.word p.block in
    record {
      f_size = w (p.at + 32);
      f_type = w (p.at + 33);
      f_direct = λ k. w (p.at + 34 + k);
      f_indirect = w (p.at + 44);
    }

abbrev pub file_word : File → (ℕ → ℕ) → ℕ → ℕ → ℕ
file_word f w at k =
    if k == at + 32
    then f.f_size
    else if k == at + 33
    then f.f_type
    else if leb (at + 34) k && ltb k (at + 44)
    then f.f_direct (k - (at + 34))
    else if k == at + 44
    then f.f_indirect
    else w k

abbrev pub store_file : Fs → FilePtr → File → Fs
store_file fs p f = record fs { word = update fs.word p.block (file_word f (fs.word p.block) p.at) }

-- the `n` bytes from byte `i` on
pub bytes_from : ℕ → ℕ → (ℕ → ℕ) → List ℕ
bytes_from zero i w = []
bytes_from (suc n) i w = byte w i ∷ bytes_from n (i + 1) w

-- `f->f_name`, MAXNAMELEN bytes
abbrev pub f_name : Fs → FilePtr → List ℕ
f_name fs p = bytes_from 128 (4 * p.at) (fs.word p.block)

-- `f->f_name[i] = s[i]`, and so on, for the bytes of `s`
abbrev pub nth : List ℕ → ℕ → ℕ
nth [] i = 0
nth (c ∷ s) zero = c
nth (c ∷ s) (suc i) = nth s i

abbrev pub put_name : Fs → FilePtr → List ℕ → Fs
put_name fs p s = copy_in fs p.block (4 * p.at) (length s) (nth s) 0

-- `file_get_block(dir, i, &blk)` for a file on the disk
abbrev pub stored : FilePtr → Reply ℕ × File × Fs → Reply ℕ × Fs
stored p (r, f, fs) = (r, store_file fs p f)

abbrev pub get_block_of : FilePtr → ℕ → Fs → Outcome (Reply ℕ × Fs)
get_block_of p i fs = file_get_block (load_file fs p) i fs >>= λ r. returns (stored p r)

-- A name is given without the 0 at its end. `strcmp` stays within the two objects.
abbrev pub has_name : Fs → FilePtr → List ℕ → Bool
has_name fs p name = elim (strcmp (f_name fs p) (name ++ 0 ∷ [])) [
  | none ↦ false
  | some (a minus b) ↦ a == b
]

abbrev pub is_unused : Fs → FilePtr → Bool
is_unused fs p = byte (fs.word p.block) (4 * p.at) == 0

-- The inner loops of `dir_lookup` and `dir_alloc_file`: the first of `n` files from file `j` on that
-- passes the test.
pub scan_files : (FilePtr → Bool) → ℕ → ℕ → ℕ → Option FilePtr
scan_files test zero j b = none
scan_files test (suc n) j b =
    let rest = scan_files test n (j + 1) b in if test (entry b j) then some (entry b j) else rest

-- The outer loops over `n` blocks from block `i` on; `none` when all have been searched.
pub scan_blocks :
    (Fs → FilePtr → Bool) → FilePtr → ℕ → ℕ → Fs → Outcome (Option (Reply FilePtr) × Fs)
scan_blocks test dir zero i fs = returns (none, fs)
scan_blocks test dir (suc n) i fs = get_block_of dir i fs >>= λ r. elim (r.0) [
  | fail e ↦ returns (some (fail e), r.1)
  | ok b ↦ elim (scan_files (test r.1) 16 0 b) [
    | some p ↦ returns (some (ok p), r.1)
    | none ↦ scan_blocks test dir n (i + 1) r.1
  ]
]

pub or_not_found : Option (Reply FilePtr) × Fs → Reply FilePtr × Fs
or_not_found (none, fs) = (fail not_found, fs)
or_not_found (some r, fs) = (r, fs)

unfoldable pub dir_lookup : FilePtr → List ℕ → Fs → Outcome (Reply FilePtr × Fs)
unfolding or_not_found
dir_lookup dir name fs =
    let size = (load_file fs dir).f_size in
    if size % blksize != 0
    then panics
    else (scan_blocks (λ g p. has_name g p name) dir (size / blksize) 0 fs >>= λ r.
        returns (or_not_found r))

-- the first file of the block that was asked for
first_entry : Reply ℕ × Fs → Reply FilePtr × Fs
first_entry (fail e, fs) = (fail e, fs)
first_entry (ok b, fs) = (ok (entry b 0), fs)

-- the end of `dir_alloc_file`: the directory grows by a block
dir_grow : FilePtr → ℕ → Option (Reply FilePtr) × Fs → Outcome (Reply FilePtr × Fs)
unfolding first_entry
dir_grow dir nblock (some r, fs) = returns (r, fs)
dir_grow dir nblock (none, fs) =
    let f = load_file fs dir in
    get_block_of dir nblock (store_file fs dir (record f { f_size = f.f_size + blksize })) >>= λ r.
    returns (first_entry r)

unfoldable pub dir_alloc_file : FilePtr → Fs → Outcome (Reply FilePtr × Fs)
unfolding dir_grow
dir_alloc_file dir fs =
    let size = (load_file fs dir).f_size in
    if size % blksize != 0
    then panics
    else (scan_blocks is_unused dir (size / blksize) 0 fs >>= dir_grow dir (size / blksize))
