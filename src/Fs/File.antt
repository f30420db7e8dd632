-- ===== src/Fs/File.antt =====
-- The blocks of a file: `file_block_walk`, `file_get_block`, `file_free_block`,
-- `file_truncate_blocks` and `file_set_size` of fs/fs.c.
-- A `struct File` lies in a directory's block; its fields stand here beside the disk's words, and
-- `home` is the number of that block. A `uint32_t *ppdiskbno` is the slot that it points to. A size
-- is an `off_t` that is not negative and far from its maximum, as MAXFILESIZE is.
pub mod Walk
pub mod Get
pub mod Stale
pub mod Io
use jos_operating_system.Prelude.{
  ℕ, zero, suc, ◌+◌, ◌-◌, ◌*◌, ◌/◌, ◌%◌, Bool, true, false, Option, none, some, ◌==◌, ◌!=◌, leb,
  ltb, not, ◌&&◌, ◌||◌, if◌then◌else◌, update, Outcome, returns, panics, ◌>>=◌,
}
use jos_operating_system.Fs.{Fs, blksize, set_word, diskaddr, flush_block, free_block, alloc_block}

abbrev pub ndirect : ℕ
ndirect = 10

abbrev pub nindirect : ℕ
nindirect = 1024

pub record File : Type 0 where
  pub f_size : ℕ
  pub f_type : ℕ
  pub f_direct : ℕ → ℕ
  pub f_indirect : ℕ

pub data Slot : Type 0 where
  direct : ℕ → Slot
  indirect : ℕ → ℕ → Slot

-- -E_INVAL, -E_NOT_FOUND, -E_NO_DISK, -E_BAD_PATH, -E_FILE_EXISTS and -E_MAX_OPEN
pub data FsError : Type 0 where
  inval not_found no_disk bad_path file_exists max_open : FsError

pub data Reply {ℓ} (A : Type ℓ) : Type ℓ where
  ok : A → Reply A
  fail : FsError → Reply A

-- `*pdiskbno`
abbrev pub read_slot : Slot → File → Fs → ℕ
read_slot (direct k) f fs = f.f_direct k
read_slot (indirect b k) f fs = fs.word b k

-- `*pdiskbno = v`
abbrev pub write_slot : Slot → ℕ → File → Fs → File × Fs
write_slot (direct k) v f fs = (record f { f_direct = update f.f_direct k v }, fs)
write_slot (indirect b k) v f fs = (f, set_word fs b k v)

-- the branch without an indirect block: `k` is the index in the new one
walk_alloc : ℕ → File → Option ℕ × Fs → Outcome (Reply Slot × File × Fs)
walk_alloc k f (none, fs) = returns (fail no_disk, f, fs)
walk_alloc k f (some b, fs) =
    diskaddr fs b >>= λ at. returns (ok (indirect at k), record f { f_indirect = b }, fs)

unfoldable pub file_block_walk : File → ℕ → Bool → Fs → Outcome (Reply Slot × File × Fs)
unfolding walk_alloc
file_block_walk f filebno alloc fs =
    if leb (ndirect + nindirect) filebno
    then returns (fail inval, f, fs)
    else if ltb (f.f_size / blksize) filebno
    then returns (fail not_found, f, fs)
    else if ltb filebno 10
    then returns (ok (direct filebno), f, fs)
    else if f.f_indirect != 0
    then (diskaddr fs f.f_indirect >>= λ at. returns (ok (indirect at (filebno - 10)), f, fs))
    else if alloc
    then walk_alloc (filebno - 10) f (alloc_block fs)
    else returns (fail not_found, f, fs)

-- the branch of `file_get_block` for an empty slot
get_alloc : Slot → File → Option ℕ × Fs → Outcome (Reply ℕ × File × Fs)
get_alloc s f (none, fs) = returns (fail no_disk, f, fs)
get_alloc s f (some b, fs) =
    let (f', fs') = write_slot s b f fs in diskaddr fs' b >>= λ at. returns (ok at, f', fs')

-- `file_get_block` behind the call of `file_block_walk`
get_at : Reply Slot × File × Fs → Outcome (Reply ℕ × File × Fs)
get_at (fail e, f, fs) = returns (fail no_disk, f, fs)
get_at (ok s, f, fs) =
    if read_slot s f fs != 0
    then (diskaddr fs (read_slot s f fs) >>= λ at. returns (ok at, f, fs))
    else get_alloc s f (alloc_block fs)

-- The block, as its number. `f` and `blk` are never NULL.
unfoldable pub file_get_block : File → ℕ → Fs → Outcome (Reply ℕ × File × Fs)
unfolding get_alloc get_at
file_get_block f filebno fs =
    if leb (ndirect + nindirect) filebno
    then returns (fail inval, f, fs)
    else (file_block_walk f filebno true fs >>= get_at)

clear_slot : Slot → File → Fs → File × Fs
clear_slot s f fs = write_slot s 0 f fs

-- `file_free_block` behind the call of `file_block_walk`; `none` is success
free_at : Reply Slot × File × Fs → Outcome (Option FsError × File × Fs)
free_at (fail e, f, fs) = returns (some e, f, fs)
free_at (ok s, f, fs) =
    if read_slot s f fs != 0
    then (free_block fs (read_slot s f fs) >>= λ g.
        let (f', g') = clear_slot s f g in returns (none, f', g'))
    else returns (none, f, fs)

unfoldable pub file_free_block : File → ℕ → Fs → Outcome (Option FsError × File × Fs)
unfolding free_at clear_slot
file_free_block f filebno fs = file_block_walk f filebno false fs >>= free_at

-- The loop of `file_truncate_blocks`, `n` rounds from `bno` on; an error is only printed.
pub truncate_loop : ℕ → ℕ → File → Fs → Outcome (File × Fs)
truncate_loop zero bno f fs = returns (f, fs)
truncate_loop (suc n) bno f fs = file_free_block f bno fs >>= λ r. truncate_loop n (bno + 1) r.1 r.2

-- the number of blocks of a file of a size
abbrev pub blocks_for : ℕ → ℕ
blocks_for size = (size + blksize - 1) / blksize

-- the last part of `file_truncate_blocks`
drop_indirect : ℕ → File × Fs → Outcome (File × Fs)
drop_indirect new_nblocks (f, fs) =
    if leb new_nblocks ndirect && (f.f_indirect != 0)
    then (free_block fs f.f_indirect >>= λ g. returns (record f { f_indirect = 0 }, g))
    else returns (f, fs)

unfoldable pub file_truncate_blocks : File → ℕ → Fs → Outcome (File × Fs)
unfolding drop_indirect
file_truncate_blocks f newsize fs =
    truncate_loop (blocks_for f.f_size - blocks_for newsize) (blocks_for newsize) f fs
    >>= drop_indirect (blocks_for newsize)

resize : ℕ → ℕ → File × Fs → File × Fs
resize home newsize (f, fs) = (record f { f_size = newsize }, flush_block fs home)

unfoldable pub file_set_size : ℕ → File → ℕ → Fs → Outcome (File × Fs)
unfolding resize
file_set_size home f newsize fs =
    (if ltb newsize f.f_size then file_truncate_blocks f newsize fs else returns (f, fs)) >>= λ r.
    returns (resize home newsize r)
