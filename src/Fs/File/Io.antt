-- ===== src/Fs/File/Io.antt =====
-- `file_read`, `file_write` and `file_flush` of fs/fs.c. Sizes, offsets and counts are not negative
-- and their sums stay below 2 ^ 31. The caller's buffer holds bytes and is a function from the index.
pub mod Layout
pub mod Read
pub mod Write
pub mod Tests
use jos_operating_system.Prelude.{
  ℕ, zero, suc, ◌+◌, ◌-◌, ◌/◌, ◌%◌, Bool, true, false, Option, none, some, min, leb, ltb, ◌==◌,
  ◌!=◌, if◌then◌else◌, Outcome, returns, panics, ◌>>=◌,
}
use jos_operating_system.Fs.{Fs, blksize, diskaddr, flush_block}
use jos_operating_system.Fs.Bytes.{copy_out, copy_in}
use jos_operating_system.Fs.File.{
  File, Slot, FsError, Reply, ok, fail, read_slot, file_get_block, file_block_walk, file_set_size,
  blocks_for,
}

-- `MIN(BLKSIZE - pos % BLKSIZE, offset + count - pos)`
abbrev pub part : ℕ → ℕ → ℕ
part pos stop = min (blksize - pos % blksize) (stop - pos)

-- a call's number or error, the buffer, and the state behind it
abbrev pub Io : Type 0
Io = Outcome (Reply ℕ × (ℕ → ℕ) × File × Fs)

-- The loop of `file_read` from `pos` to `stop`, of `count` bytes; `done` bytes are in `buf`. Each
-- round reads a byte or more, so that as many rounds as bytes are enough.
read_loop : ℕ → ℕ → ℕ → ℕ → ℕ → (ℕ → ℕ) → File → Fs → Io
read_loop zero count pos stop done buf f fs = returns (ok count, buf, f, fs)
read_loop (suc fuel) count pos stop done buf f fs =
    if leb stop pos
    then returns (ok count, buf, f, fs)
    else (file_get_block f (pos / blksize) fs >>= λ r. elim (r.0) [
      | fail e ↦ returns (fail e, buf, r.1, r.2)
      | ok b ↦
          read_loop fuel count (pos + part pos stop) stop (done + part pos stop)
            (copy_out r.2 b (pos % blksize) (part pos stop) buf done) r.1 r.2
    ])

unfoldable pub file_read : (ℕ → ℕ) → ℕ → ℕ → File → Fs → Io
unfolding read_loop
file_read buf count offset f fs =
    if leb f.f_size offset
    then returns (ok 0, buf, f, fs)
    else (let n = min count (f.f_size - offset) in read_loop n n offset (offset + n) 0 buf f fs)

-- the loop of `file_write`; the buffer is only read
write_loop : ℕ → ℕ → ℕ → ℕ → ℕ → (ℕ → ℕ) → File → Fs → Outcome (Reply ℕ × File × Fs)
write_loop zero count pos stop done buf f fs = returns (ok count, f, fs)
write_loop (suc fuel) count pos stop done buf f fs =
    if leb stop pos
    then returns (ok count, f, fs)
    else (file_get_block f (pos / blksize) fs >>= λ r. elim (r.0) [
      | fail e ↦ returns (fail e, r.1, r.2)
      | ok b ↦
          write_loop fuel count (pos + part pos stop) stop (done + part pos stop) buf r.1
            (copy_in r.2 b (pos % blksize) (part pos stop) buf done)
    ])

-- `file_set_size` returns 0 whenever it returns.
unfoldable pub file_write : ℕ → (ℕ → ℕ) → ℕ → ℕ → File → Fs → Outcome (Reply ℕ × File × Fs)
unfolding write_loop
file_write home buf count offset f fs =
    (if ltb f.f_size (offset + count)
      then file_set_size home f (offset + count) fs
      else returns (f, fs))
    >>= λ r. write_loop count count offset (offset + count) 0 buf r.0 r.1

-- one round of `file_flush`
flush_at : Reply Slot × File × Fs → Outcome (File × Fs)
flush_at (fail e, f, fs) = returns (f, fs)
flush_at (ok s, f, fs) =
    if read_slot s f fs == 0
    then returns (f, fs)
    else (diskaddr fs (read_slot s f fs) >>= λ b. returns (f, flush_block fs b))

flush_loop : ℕ → ℕ → File → Fs → Outcome (File × Fs)
unfolding flush_at
flush_loop zero i f fs = returns (f, fs)
flush_loop (suc n) i f fs =
    file_block_walk f i false fs >>= flush_at >>= λ r. flush_loop n (i + 1) r.0 r.1

-- the block with the file's own data, and the indirect block
flush_own : ℕ → File × Fs → Outcome (File × Fs)
flush_own home (f, fs) =
    let g = flush_block fs home in
    if f.f_indirect == 0
    then returns (f, g)
    else (diskaddr g f.f_indirect >>= λ b. returns (f, flush_block g b))

unfoldable pub file_flush : ℕ → File → Fs → Outcome (File × Fs)
unfolding flush_loop flush_own
file_flush home f fs = flush_loop (blocks_for f.f_size) 0 f fs >>= flush_own home

-- the loop of `fs_sync`, `n` rounds from block `i` on
sync_loop : ℕ → ℕ → Fs → Outcome Fs
sync_loop zero i fs = returns fs
sync_loop (suc n) i fs = diskaddr fs i >>= λ b. sync_loop n (i + 1) (flush_block fs b)

unfoldable pub fs_sync : Fs → Outcome Fs
unfolding sync_loop
fs_sync fs = sync_loop (fs.s_nblocks - 1) 1 fs
