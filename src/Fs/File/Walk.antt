-- ===== src/Fs/File/Walk.antt =====
-- Where `file_block_walk` leads, and that it leads there again.
use jos_operating_system.Prelude.{
  ℕ, ◌+◌, ◌-◌, ◌/◌, ◌<◌, ◌≤◌, ◌≡◌, refl, inl, inr, Bool, true, arith, Option, none, some, ◌!=◌, ltb,
  Outcome, returns, ◌>>=◌, ap, Bool-cases, Outcome-cases,
}
use mathlib.Core.Path.{subst₃}
use jos_operating_system.Fs.{Fs, diskaddr, alloc_block, take_block, clear_bit, blksize}
use jos_operating_system.Fs.Alloc.{Took, alloc_block-Took}
use jos_operating_system.Fs.File.{
  File, Slot, direct, indirect, Reply, ok, walk_alloc, file_block_walk, ndirect, nindirect,
}

-- a block number that `diskaddr` accepts
abbrev pub IsAddress : Fs → ℕ → Type 0
IsAddress fs b = (0 < b) × (fs.super_set ≡ true → b < fs.s_nblocks)

pub diskaddr-returns : (fs : Fs) (b a : ℕ) → diskaddr fs b ≡ returns a → (a ≡ b) × IsAddress fs b
unfolding diskaddr
diskaddr-returns fs b a e = (ground arith, (ground arith, λ s. ground arith))

pub diskaddr_of : (fs : Fs) (b : ℕ) → IsAddress fs b → diskaddr fs b ≡ returns b
unfolding diskaddr
diskaddr_of fs b v = ground arith

-- two states of one disk
pub record SameDisk (fs g : Fs) : Type 0 where
  pub set : g.super_set ≡ fs.super_set
  pub size : g.s_nblocks ≡ fs.s_nblocks

-- What `file_block_walk` read of the file: any file with these two fields has the same slot.
pub record SameShape (f g : File) : Type 0 where
  pub size : g.f_size ≡ f.f_size
  pub table : g.f_indirect ≡ f.f_indirect

-- From now on the walk leads to slot `s` at once, with or without `alloc`.
abbrev pub Settled : ℕ → Slot → File → Fs → Type 0
Settled n s f fs =
    (g : File) (h : Fs) (alloc : Bool)
    → SameShape f g
    → SameDisk fs h
    → file_block_walk g n alloc h ≡ returns (ok s, g, h)

pub record Walked (n : ℕ) (s : Slot) (fs : Fs) (f' : File) (fs' : Fs) : Type 0 where
  pub disk : SameDisk fs fs'
  pub settled : Settled n s f' fs'

pub Settled-direct :
    (n : ℕ) (f : File) (fs : Fs) → n ≤ f.f_size / blksize → n < ndirect → Settled n (direct n) f fs
unfolding file_block_walk
Settled-direct n f fs h k g h' alloc shape disk = ground (arith, shape, disk)

pub Settled-indirect :
    (n : ℕ) (f : File) (fs : Fs)
    → n ≤ f.f_size / blksize
    → ndirect ≤ n
    → n < ndirect + nindirect
    → IsAddress fs f.f_indirect
    → Settled n (indirect f.f_indirect (n - 10)) f fs
unfolding file_block_walk
Settled-indirect n f fs h lo hi addr g h' alloc shape disk =
    let at : diskaddr h' g.f_indirect ≡ returns f.f_indirect =
      ground (arith, shape, disk, diskaddr_of h' g.f_indirect) in
    ground (arith, shape, disk, at)

pub alloc-SameDisk : (fs : Fs) (b : ℕ) (fs' : Fs) → Took fs b fs' → SameDisk fs fs'
unfolding take_block clear_bit
alloc-SameDisk fs b fs' t = record {
  set = ap (λ (x : Fs). x.super_set) t.result;
  size = ap (λ (x : Fs). x.s_nblocks) t.result;
}

-- the fresh indirect block
alloc-Walked :
    (n : ℕ) (f : File) (fs : Fs) (s : Slot) (f' : File) (fs' : Fs) (r : Option ℕ × Fs)
    → n ≤ f.f_size / blksize
    → ndirect ≤ n
    → n < ndirect + nindirect
    → alloc_block fs ≡ r
    → walk_alloc (n - 10) f r ≡ returns (ok s, f', fs')
    → Walked n s fs f' fs'
unfolding walk_alloc
alloc-Walked n f fs s f' fs' (none, g) h lo hi took e = absurd (ground arith)
alloc-Walked n f fs s f' fs' (some b, g) h lo hi took e =
    let t = alloc_block-Took fs b g took in
    let disk = alloc-SameDisk fs b g t in
    let addr : IsAddress g b =
      (omega (arith, t.from_two), λ q. omega (arith, t.on_disk, disk.size)) in
    let at = diskaddr_of g b addr in
    let fresh : File = record f { f_indirect = b } in
    let p : indirect b (n - 10) ≡ s = ground (arith, at) in
    let q : fresh ≡ f' = ground (arith, at) in
    let r : g ≡ fs' = ground (arith, at) in
    subst₃ (λ x y z. Walked n x fs y z) p q r
      (record { disk = disk; settled = Settled-indirect n fresh g h lo hi addr })

unchanged : (fs : Fs) → SameDisk fs fs
unchanged fs = record { set = refl; size = refl }

-- entry `k` of the indirect block at an address
abbrev entry_in : ℕ → File → Fs → ℕ → Outcome (Reply Slot × File × Fs)
entry_in k f fs at = returns (ok (indirect at k), f, fs)

indirect_there :
    (n : ℕ) (f : File) (fs : Fs) (s : Slot) (f' : File) (fs' : Fs)
    → n ≤ f.f_size / blksize
    → ndirect ≤ n
    → n < ndirect + nindirect
    → (diskaddr fs f.f_indirect >>= entry_in (n - 10) f fs) ≡ returns (ok s, f', fs')
    → Walked n s fs f' fs'
indirect_there n f fs s f' fs' h lo hi e = elim (Outcome-cases (diskaddr fs f.f_indirect)) [
  | inl stop ↦ absurd (ground (arith, stop))
  | inr (a, at) ↦
      (let addr = diskaddr-returns fs f.f_indirect a at in
        let p : indirect f.f_indirect (n - 10) ≡ s = ground (arith, at, addr.0) in
        let q : f ≡ f' = ground (arith, at) in
        let r : fs ≡ fs' = ground (arith, at) in
        subst₃ (λ x y z. Walked n x fs y z) p q r
          (record { disk = unchanged fs; settled = Settled-indirect n f fs h lo hi addr.1 }))
]

pub walk-Walked :
    (n : ℕ) (f : File) (alloc : Bool) (fs : Fs) (s : Slot) (f' : File) (fs' : Fs)
    → n < ndirect + nindirect
    → file_block_walk f n alloc fs ≡ returns (ok s, f', fs')
    → Walked n s fs f' fs'
unfolding file_block_walk
walk-Walked n f alloc fs s f' fs' hi e =
    let h : n ≤ f.f_size / blksize = ground arith in
    elim (Bool-cases (ltb n 10)) [
      | inl low ↦
          (let p : direct n ≡ s = ground arith in
            let q : f ≡ f' = ground arith in
            let r : fs ≡ fs' = ground arith in
            subst₃ (λ x y z. Walked n x fs y z) p q r
              (record { disk = unchanged fs; settled = Settled-direct n f fs h (ground arith) }))
      | inr high ↦ elim (Bool-cases (f.f_indirect != 0)) [
        | inl there ↦ indirect_there n f fs s f' fs' h (ground arith) hi (ground arith)
        | inr missing ↦ elim (Bool-cases alloc) [
          | inl make ↦
              (alloc-Walked n f fs s f' fs' (alloc_block fs) h (ground arith) hi refl
                (ground arith))
          | inr give_up ↦ absurd (ground arith)
        ]
      ]
    ]
