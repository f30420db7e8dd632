-- ===== src/Fs.antt =====
-- The file system server's view of the disk: fs/fs.c over the block cache of fs/bc.c.
-- Every disk block is mapped in memory, and is read and written here as 1024 words of 32 bits,
-- `word b k` for word `k` of block `b`; reading a block in from the disk shows the same words.
-- `bitmap[w]` is word `w % 1024` of block `2 + w / 1024`.
pub mod Bitmap
pub mod Alloc
pub mod Reserved
pub mod Bytes
pub mod File
pub mod Dir
pub mod Serv
mod Tests
use jos_operating_system.Prelude.{
  ℕ, zero, suc, ◌+◌, ◌-◌, ◌*◌, ◌/◌, ◌%◌, ◌^◌, Bool, true, false, Option, none, some, List, ◌∷◌,
  ◌==◌, ◌!=◌, leb, ltb, not, ◌&&◌, ◌||◌, if◌then◌else◌, update, Outcome, returns, panics, ◌>>=◌,
  bit_and, bit_or,
}
use jos_operating_system.Prelude.Bits.{all_but}

-- `super` is set once the disk is found; `flushed` lists the blocks that `flush_block` was called
-- on, the last one first.
pub record Fs : Type 0 where
  pub super_set : Bool
  pub s_magic : ℕ
  pub s_nblocks : ℕ
  pub word : ℕ → ℕ → ℕ
  pub flushed : List ℕ
  pub blocks_allocated : ℕ

abbrev pub blksize : ℕ
blksize = 4096

-- BLKBITSIZE
abbrev pub blkbitsize : ℕ
blkbitsize = 32768

-- DISKSIZE / BLKSIZE
abbrev pub max_blocks : ℕ
max_blocks = 0xc000_0000 / 4096

abbrev pub set_word : Fs → ℕ → ℕ → ℕ → Fs
set_word fs b k v = record fs { word = update fs.word b (update (fs.word b) k v) }

-- the bitmap as an array of words
abbrev pub bitmap : Fs → ℕ → ℕ
bitmap fs w = fs.word (2 + w / 1024) (w % 1024)

abbrev pub set_bitmap : Fs → ℕ → ℕ → Fs
set_bitmap fs w v = set_word fs (2 + w / 1024) (w % 1024) v

-- the number of the disk block behind the address that `diskaddr` computes
unfoldable pub diskaddr : Fs → ℕ → Outcome ℕ
diskaddr fs blockno =
    if (blockno == 0) || (fs.super_set && leb fs.s_nblocks blockno) then panics else returns blockno

abbrev pub flush_block : Fs → ℕ → Fs
flush_block fs b = record fs { flushed = b ∷ fs.flushed }

-- FS_MAGIC
unfoldable pub check_super : Fs → Outcome Fs
check_super fs =
    if fs.s_magic != 0x4a0530ae
    then panics
    else if ltb max_blocks fs.s_nblocks
    then panics
    else returns fs

unfoldable pub block_is_free : Fs → ℕ → Bool
block_is_free fs blockno =
    if not fs.super_set || leb fs.s_nblocks blockno
    then false
    else bit_and (bitmap fs (blockno / 32)) (2 ^ (blockno % 32)) != 0

unfoldable pub free_block : Fs → ℕ → Outcome Fs
free_block fs blockno =
    if blockno == 0
    then panics
    else returns
        (set_bitmap fs (blockno / 32) (bit_or (bitmap fs (blockno / 32)) (2 ^ (blockno % 32))))

-- `bitmap[blockno/32] &= ~(1<<(blockno%32))`, on 32 bits
unfoldable pub clear_bit : Fs → ℕ → Fs
clear_bit fs blockno =
    set_bitmap fs (blockno / 32) (bit_and (bitmap fs (blockno / 32)) (all_but 32 (blockno % 32)))

-- The block found: marked in use, the bitmap's first block flushed, the counter raised.
unfoldable pub take_block : Fs → ℕ → Fs
take_block fs blockno =
    let g = flush_block (clear_bit fs blockno) 2 in
    record g { blocks_allocated = (g.blocks_allocated + 1) % 2 ^ 32 }

pub alloc_loop : ℕ → ℕ → Fs → Option ℕ × Fs
alloc_loop zero blockno fs = (none, fs)
alloc_loop (suc n) blockno fs =
    let rest = alloc_loop n (blockno + 1) fs in
    if block_is_free fs blockno then (some blockno, take_block fs blockno) else rest

-- `none` is -E_NO_DISK. The source reads `super->s_nblocks` and faults while `super` is NULL; it is set
-- in `fs_init`, before any call.
unfoldable pub alloc_block : Fs → Option ℕ × Fs
alloc_block fs = alloc_loop (fs.s_nblocks - 2) 2 fs

-- The first loop of `check_bitmap`; the product is a uint32_t, and the loop has at most
-- `s_nblocks` rounds.
pub check_bitmap_loop : ℕ → ℕ → Fs → Outcome Fs
check_bitmap_loop zero i fs = returns fs
check_bitmap_loop (suc n) i fs =
    let rest = check_bitmap_loop n (i + 1) fs in
    if ltb (i * blkbitsize % 2 ^ 32) fs.s_nblocks
    then (if block_is_free fs (2 + i) then panics else rest)
    else returns fs

unfoldable pub check_bitmap : Fs → Outcome Fs
check_bitmap fs = check_bitmap_loop fs.s_nblocks 0 fs >>= λ _.
    if block_is_free fs 0 then panics else if block_is_free fs 1 then panics else returns fs
