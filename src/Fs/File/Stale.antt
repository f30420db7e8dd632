-- ===== src/Fs/File/Stale.antt =====
-- What is in an indirect block that `file_block_walk` has just allocated.
use jos_operating_system.Prelude.{
  ℕ, ◌+◌, ◌-◌, ◌/◌, ◌<◌, ◌≤◌, ◌≡◌, ◌≢◌, false, arith, some, returns, ap, sym, ◌∙◌,
}
use jos_operating_system.Fs.{
  Fs, alloc_block, take_block, clear_bit, check_bitmap, max_blocks, blksize,
}
use jos_operating_system.Fs.Alloc.{alloc_block-Took}
use jos_operating_system.Fs.Reserved.{is_reserved, alloc_block-check_bitmap}
use jos_operating_system.Fs.File.{File, ok, file_block_walk, file_get_block, ndirect, nindirect}
use jos_operating_system.Fs.File.Walk.{IsAddress, diskaddr_of, alloc-SameDisk}

-- Taking a block writes only to the bitmap.
word-alloc_block :
    (fs : Fs) (b : ℕ) (fs' : Fs) (k : ℕ)
    → fs.s_nblocks ≤ max_blocks
    → check_bitmap fs ≡ returns fs
    → alloc_block fs ≡ (some b, fs')
    → fs'.word b k ≡ fs.word b k
unfolding take_block clear_bit
word-alloc_block fs b fs' k small checked took =
    let t = alloc_block-Took fs b fs' took in
    let unreserved : is_reserved fs b ≡ false =
      (alloc_block-check_bitmap fs b fs' small checked took).0 in
    let apart : 2 + b / 32 / 1024 ≢ b = ground (arith, t.from_two, t.on_disk) in
    ap (λ (x : Fs). x.word b k) t.result ∙ ground arith

-- The new indirect block is not cleared: where the disk has a block number left over from an
-- earlier use in its place, `file_get_block` returns that block as the file's, and allocates none.
pub file_get_block_stale :
    (f : File) (n : ℕ) (fs : Fs) (b : ℕ) (fs' : Fs) (v : ℕ)
    → fs.s_nblocks ≤ max_blocks
    → check_bitmap fs ≡ returns fs
    → f.f_indirect ≡ 0
    → ndirect ≤ n
    → n < ndirect + nindirect
    → n ≤ f.f_size / blksize
    → alloc_block fs ≡ (some b, fs')
    → fs.word b (n - 10) ≡ v
    → IsAddress fs v
    → file_get_block f n fs ≡ returns (ok v, record f { f_indirect = b }, fs')
unfolding file_get_block file_block_walk
file_get_block_stale f n fs b fs' v small checked empty lo hi inside took left addr =
    let t = alloc_block-Took fs b fs' took in
    let disk = alloc-SameDisk fs b fs' t in
    let at =
      diskaddr_of fs' b (omega (arith, t.from_two), λ q. omega (arith, t.on_disk, disk.size)) in
    let word : fs'.word b (n - 10) ≡ v =
      word-alloc_block fs b fs' (n - 10) small checked took ∙ left in
    let at' =
      diskaddr_of fs' v (addr.0, λ q. omega (arith, addr.1 (sym disk.set ∙ q), disk.size)) in
    ground (arith, took, at, word, at', addr.0)
