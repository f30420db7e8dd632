-- ===== src/Fs/File/Io/Tests.antt =====
-- The theorems on reading and writing at a file of two blocks, blocks 4 and 5 of a disk of six.
use jos_operating_system.Prelude.{ℕ, ◌+◌, ◌*◌, ◌%◌, ◌<◌, ◌≡◌, refl, true, [], arith, returns}
use jos_operating_system.Fs.{Fs}
use jos_operating_system.Fs.File.{File, ok}
use jos_operating_system.Fs.File.Io.{file_read, file_write}
use jos_operating_system.Fs.File.Io.Layout.{IsLayout}
use jos_operating_system.Fs.File.Io.Write.{file_read-file_write}

abbrev disk : Fs
disk = record {
  super_set = true;
  s_magic = 0x4a0530ae;
  s_nblocks = 6;
  word = λ b k. 1000 * b + k;
  flushed = [];
  blocks_allocated = 0;
}

abbrev file : File
file = record { f_size = 5000; f_type = 0; f_direct = λ k. 4 + k; f_indirect = 0 }

-- the numbers 0 to 255, again and again
abbrev letters : ℕ → ℕ
letters k = k % 256

laid_out : IsLayout file disk (λ n. 4 + n)
laid_out = record {
  small = omega arith;
  low = λ n h g. refl;
  high = λ n h g. absurd (omega arith);
  table = λ h. absurd (omega arith);
  address = λ n h. ground arith;
  distinct = λ n m h g e. omega arith;
  apart = λ n h g. absurd (omega arith);
}

file_read-file_write_example :
    (disk' : Fs) × (buf' : ℕ → ℕ) × (file_write 1 letters 300 4000 file disk
      ≡ returns (ok 300, file, disk'))
    × (file_read (λ i. 0) 300 4000 file disk' ≡ returns (ok 300, buf', file, disk'))
    × ((i : ℕ) → i < 300 → buf' i ≡ letters i)
file_read-file_write_example =
    file_read-file_write 1 letters (λ i. 0) 300 4000 file disk (λ n. 4 + n) laid_out
      (λ k. omega arith) (omega arith)
