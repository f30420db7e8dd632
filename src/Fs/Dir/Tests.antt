-- ===== src/Fs/Dir/Tests.antt =====
-- The theorems on directories and paths at a disk whose root directory is block 4 and has the entry
-- `ab`, a file, as its second.
use jos_operating_system.Prelude.{
  ℕ, ◌+◌, ◌/◌, ◌<◌, ◌≡◌, ◌⊎◌, refl, true, false, none, List, [], ◌∷◌, arith, returns, ◌==◌,
  if◌then◌else◌,
}
use jos_operating_system.Fs.{Fs, blksize}
use jos_operating_system.Fs.File.{not_found, ok, fail}
use jos_operating_system.Fs.File.Io.Layout.{IsLayout}
use jos_operating_system.Fs.Dir.{FilePtr, s_root, entry, load_file, has_name, dir_lookup}
use jos_operating_system.Fs.Dir.Lookup.{At, dir_lookup_lem}
use jos_operating_system.Fs.Dir.Path.{slash, walk_path}
use jos_operating_system.Fs.Dir.Path.Slashes.{pieces, walk_names, walk_path-names}

abbrev disk : Fs
disk = record {
  super_set = true;
  s_magic = 0x4a0530ae;
  s_nblocks = 6;
  word = λ b k.
      if b == 1
      then (if k == 34 then 4096 else if k == 35 then 1 else if k == 36 then 4 else 0)
      else if b == 4
      then (if k == 64 then 0x6261 else 0)
      else 0;
  flushed = [];
  blocks_allocated = 0;
}

abbrev ab : List ℕ
ab = 97 ∷ 98 ∷ []

root_laid_out : IsLayout (load_file disk s_root) disk (λ n. 4 + n)
root_laid_out = record {
  small = omega arith;
  low = λ n h g. ground arith;
  high = λ n h g. absurd (omega arith);
  table = λ h. absurd (omega arith);
  address = λ n h. ground arith;
  distinct = λ n m h g e. omega arith;
  apart = λ n h g. absurd (omega arith);
}

dir_lookup_example :
    ((p : FilePtr) × (dir_lookup s_root ab disk ≡ returns (ok p, disk))
      × At (λ g q. has_name g q ab) s_root (λ n. 4 + n) disk p)
    ⊎ ((dir_lookup s_root ab disk ≡ returns (fail not_found, disk))
        × ((n j : ℕ)
            → n < (load_file disk s_root).f_size / blksize
            → j < 16
            → has_name disk (entry (4 + n) j) ab ≡ false))
dir_lookup_example = dir_lookup_lem s_root ab (λ n. 4 + n) disk root_laid_out refl

-- the path `ab//ab/`
walk_path_example :
    walk_path (97 ∷ 98 ∷ slash ∷ slash ∷ 97 ∷ 98 ∷ slash ∷ []) disk
    ≡ walk_names (ab ∷ ab ∷ []) none s_root disk
unfolding pieces
walk_path_example = walk_path-names (97 ∷ 98 ∷ slash ∷ slash ∷ 97 ∷ 98 ∷ slash ∷ []) disk
