-- ===== src/Fs/File/Io/Layout.antt =====
-- A file all of whose blocks are there, as an array of bytes.
use jos_operating_system.Prelude.{
  ℕ, ◌+◌, ◌-◌, ◌*◌, ◌/◌, ◌%◌, ◌<◌, ◌≤◌, ◌≡◌, ◌≢◌, refl, true, arith, returns,
}
use native.Mathlib.Decide.{dec_lt}
use jos_operating_system.Fs.{Fs, blksize}
use jos_operating_system.Fs.Bytes.{byte, copy_in}
use jos_operating_system.Fs.File.{File, direct, indirect, ok, file_get_block, ndirect, nindirect}
use jos_operating_system.Fs.File.Walk.{IsAddress, Settled-direct, Settled-indirect}
use jos_operating_system.Fs.File.Get.{get_settled}

-- Block `n` of the file is disk block `block n`: the numbers stand in the file and in its indirect
-- block, they are blocks of the disk, all different, and none is the indirect block.
pub record IsLayout (f : File) (fs : Fs) (block : ℕ → ℕ) : Type 0 where
  pub small : f.f_size ≤ (ndirect + nindirect) * blksize
  pub low : (n : ℕ) → n < ndirect → n * blksize < f.f_size → f.f_direct n ≡ block n
  pub high :
      (n : ℕ) → ndirect ≤ n → n * blksize < f.f_size → fs.word f.f_indirect (n - 10) ≡ block n
  pub table : ndirect * blksize < f.f_size → IsAddress fs f.f_indirect
  pub address : (n : ℕ) → n * blksize < f.f_size → IsAddress fs (block n)
  pub distinct :
      (n m : ℕ) → n * blksize < f.f_size → m * blksize < f.f_size → block n ≡ block m → n ≡ m
  pub apart :
      (n : ℕ) → ndirect * blksize < f.f_size → n * blksize < f.f_size → block n ≢ f.f_indirect

-- byte `pos` of the file
abbrev pub content : Fs → (ℕ → ℕ) → ℕ → ℕ
content fs block pos = byte (fs.word (block (pos / blksize))) (pos % blksize)

-- `file_get_block` of a block within the file's size returns it and changes nothing.
pub get_layout :
    (f : File) (fs : Fs) (block : ℕ → ℕ) (n : ℕ)
    → IsLayout f fs block
    → n * blksize < f.f_size
    → file_get_block f n fs ≡ returns (ok (block n), f, fs)
get_layout f fs block n v h = elim (dec_lt n ndirect) [
  | yes below ↦
      get_settled n (block n) (direct n) f fs (omega arith)
        (Settled-direct n f fs (omega arith) below f fs true (record { size = refl; table = refl })
          (record { set = refl; size = refl }))
        (v.low n below h) (v.address n h)
  | no above ↦
      get_settled n (block n) (indirect f.f_indirect (n - 10)) f fs (omega (arith, v.small))
        (Settled-indirect n f fs (omega arith) (omega arith) (omega (arith, v.small))
          (v.table (omega arith)) f fs true (record { size = refl; table = refl })
          (record { set = refl; size = refl }))
        (v.high n (omega arith) h) (v.address n h)
]

-- Bytes moved into a block of the file leave the file as it was laid out.
pub copy_in-IsLayout :
    (f : File) (fs : Fs) (block : ℕ → ℕ) (n to m : ℕ) (buf : ℕ → ℕ) (from : ℕ)
    → IsLayout f fs block
    → n * blksize < f.f_size
    → IsLayout f (copy_in fs (block n) to m buf from) block
unfolding copy_in
copy_in-IsLayout f fs block n to m buf from v h = record {
  small = v.small;
  low = v.low;
  high = λ k l g. ground (arith, v.apart n (omega arith) h, v.high k l g);
  table = v.table;
  address = v.address;
  distinct = v.distinct;
  apart = v.apart;
}
