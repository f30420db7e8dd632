-- ===== src/Fs/Tests.antt =====
-- The theorems on the file system at a disk of six blocks, of which block 3 and those after it
-- are free.
use jos_operating_system.Prelude.{
  ℕ, ◌<◌, ◌≤◌, ◌≡◌, refl, ◌⊎◌, true, false, none, some, [], arith, ◌==◌, if◌then◌else◌, returns,
}
use jos_operating_system.Fs.{
  Fs, block_is_free, alloc_block, alloc_loop, take_block, check_bitmap, check_bitmap_loop, diskaddr,
}
use jos_operating_system.Fs.Alloc.{alloc_block_lem, Took}
use jos_operating_system.Fs.Reserved.{is_reserved, alloc_block-check_bitmap}
use jos_operating_system.Fs.File.{File, file_get_block, file_block_walk, ok}
use jos_operating_system.Fs.File.Get.{Again, file_get_block-Again}

-- The words of block 3 are left over from an indirect block whose second entry was block 5.
abbrev disk : Fs
disk = record {
  super_set = true;
  s_magic = 0x4a0530ae;
  s_nblocks = 6;
  word = λ b k.
      if b == 2
      then (if k == 0 then 0x38 else 0)
      else if b == 3
      then (if k == 1 then 5 else 0)
      else 0;
  flushed = [];
  blocks_allocated = 0;
}

abbrev disk_taken : Fs
disk_taken = take_block disk 3

checked : check_bitmap disk ≡ returns disk
unfolding check_bitmap check_bitmap_loop block_is_free
checked = refl

took : alloc_block disk ≡ (some 3, disk_taken)
unfolding alloc_block alloc_loop block_is_free
took = refl

alloc_block_example :
    ((b : ℕ) × (fs' : Fs) × (alloc_block disk ≡ (some b, fs')) × Took disk b fs')
    ⊎ ((alloc_block disk ≡ (none, disk))
        × ((c : ℕ) → 2 ≤ c → c < disk.s_nblocks → block_is_free disk c ≡ false))
alloc_block_example = alloc_block_lem disk

alloc_block-check_bitmap_example :
    (is_reserved disk 3 ≡ false) × (check_bitmap disk_taken ≡ returns disk_taken)
alloc_block-check_bitmap_example =
    alloc_block-check_bitmap disk 3 disk_taken (omega arith) checked took

abbrev file : File
file = record {
  f_size = 50000;
  f_type = 0;
  f_direct = λ k. if k == 0 then 4 else 0;
  f_indirect = 0;
}

got : file_get_block file 0 disk ≡ returns (ok 4, file, disk)
unfolding file_get_block file_block_walk diskaddr
got = refl

file_get_block-Again_example : Again 0 4 file disk
file_get_block-Again_example = file_get_block-Again file 0 disk 4 file disk got
