-- ===== src/Fs/File/Get.antt =====
-- What `file_get_block` returns, and that it returns it again.
use jos_operating_system.Prelude.{
  ℕ, ◌+◌, ◌/◌, ◌<◌, ◌≤◌, ◌≡◌, refl, ◌⊎◌, inl, inr, true, false, arith, Option, none, some, ◌!=◌,
  leb, if◌then◌else◌, Outcome, returns, panics, ◌>>=◌, sym, ◌∙◌, Bool-cases, Outcome-cases,
}
use mathlib.Core.Path.{subst, subst₂, subst₃}
use jos_operating_system.Fs.{Fs, diskaddr, alloc_block, blksize}
use jos_operating_system.Fs.Alloc.{alloc_block-Took}
use jos_operating_system.Fs.File.{
  File, Slot, direct, indirect, inval, no_disk, Reply, ok, fail, read_slot, write_slot,
  file_block_walk, get_alloc, get_at, file_get_block, ndirect, nindirect,
}
use jos_operating_system.Fs.File.Walk.{
  IsAddress, diskaddr-returns, diskaddr_of, SameDisk, SameShape, Settled, alloc-SameDisk,
  walk-Walked,
}

-- `file_get_block` of a block past the largest file is -E_INVAL; of one past the file's size it is
-- -E_NO_DISK, however much room the disk has.
pub file_get_block_outside :
    (f : File) (filebno : ℕ) (fs : Fs)
    → (ndirect + nindirect ≤ filebno) ⊎ (f.f_size / blksize < filebno)
    → file_get_block f filebno fs
      ≡ returns (fail (if leb (ndirect + nindirect) filebno then inval else no_disk), f, fs)
unfolding file_get_block file_block_walk
file_get_block_outside f filebno fs out = ground arith

pub get_settled :
    (n b : ℕ) (s : Slot) (f : File) (fs : Fs)
    → n < ndirect + nindirect
    → file_block_walk f n true fs ≡ returns (ok s, f, fs)
    → read_slot s f fs ≡ b
    → IsAddress fs b
    → file_get_block f n fs ≡ returns (ok b, f, fs)
unfolding file_get_block
get_settled n b s f fs hi walked held addr =
    let low : leb (ndirect + nindirect) n ≡ false = ground arith in
    let full : (read_slot s f fs != 0) ≡ true = ground (arith, addr) in
    rw (low, walked, full, held, diskaddr_of fs b addr)

-- The block is there, and asking for it again is answered alike, with nothing changed.
abbrev pub Again : ℕ → ℕ → File → Fs → Type 0
Again n b f fs = IsAddress fs b × (file_get_block f n fs ≡ returns (ok b, f, fs))

-- the slot was filled already
Again-full :
    (n b a : ℕ) (s : Slot) (f : File) (fs : Fs)
    → n < ndirect + nindirect
    → Settled n s f fs
    → diskaddr fs (read_slot s f fs) ≡ returns a
    → a ≡ b
    → Again n b f fs
Again-full n b a s f fs hi settled at e =
    let (same, addr) = diskaddr-returns fs (read_slot s f fs) a at in
    let held : read_slot s f fs ≡ b = sym same ∙ e in
    let addr' : IsAddress fs b = subst (IsAddress fs) held addr in
    let walked =
      settled f fs true (record { size = refl; table = refl })
        (record { set = refl; size = refl }) in
    (addr', get_settled n b s f fs hi walked held addr')

read_slot-write_slot :
    (s : Slot) (b : ℕ) (f : File) (fs : Fs)
    → let (f', fs') = write_slot s b f fs in
      (read_slot s f' fs' ≡ b) × SameShape f f' × SameDisk fs fs'
read_slot-write_slot (direct k) b f fs =
    (ground arith, record { size = refl; table = refl }, record { set = refl; size = refl })
read_slot-write_slot (indirect a k) b f fs =
    (ground arith, record { size = refl; table = refl }, record { set = refl; size = refl })

-- the slot was filled with a new block
Again-new :
    (n b : ℕ) (s : Slot) (f : File) (fs g : Fs)
    → n < ndirect + nindirect
    → Settled n s f fs
    → alloc_block fs ≡ (some b, g)
    → let (f', fs') = write_slot s b f g in Again n b f' fs' × (diskaddr fs' b ≡ returns b)
Again-new n b s f fs g hi settled took =
    let t = alloc_block-Took fs b g took in
    let disk = alloc-SameDisk fs b g t in
    let (held, shape, disk') = read_slot-write_slot s b f g in
    let (f', fs') = write_slot s b f g in
    let addr : IsAddress fs' b =
      (omega (arith, t.from_two), λ q. omega (arith, t.on_disk, disk.size, disk'.size)) in
    let whole : SameDisk fs fs' = record {
      set = disk'.set ∙ disk.set;
      size = disk'.size ∙ disk.size;
    } in
    (
      (addr, get_settled n b s f' fs' hi (settled f' fs' true shape whole) held addr),
      diskaddr_of fs' b addr,
    )

got_new :
    (n b : ℕ) (s : Slot) (f g : File) (fs h : Fs) (r : Option ℕ × Fs)
    → n < ndirect + nindirect
    → Settled n s f fs
    → alloc_block fs ≡ r
    → get_alloc s f r ≡ returns (ok b, g, h)
    → Again n b g h
unfolding get_alloc
got_new n b s f g fs h (none, fs') hi settled took e = absurd (ground arith)
got_new n b s f g fs h (some c, fs') hi settled took e =
    let (again, at) = Again-new n c s f fs fs' hi settled took in
    let f' = (write_slot s c f fs').0 in
    let h' = (write_slot s c f fs').1 in
    let p : c ≡ b = ground (arith, at) in
    let q : f' ≡ g = ground (arith, at) in
    let r : h' ≡ h = ground (arith, at) in subst₃ (Again n) p q r again

got_at :
    (n b : ℕ) (s : Slot) (f g : File) (fs h : Fs)
    → n < ndirect + nindirect
    → Settled n s f fs
    → get_at (ok s, f, fs) ≡ returns (ok b, g, h)
    → Again n b g h
unfolding get_at
got_at n b s f g fs h hi settled e = elim (Bool-cases (read_slot s f fs != 0)) [
  | inl full ↦ elim (Outcome-cases (diskaddr fs (read_slot s f fs))) [
    | inl stop ↦ absurd (ground (arith, stop, full))
    | inr (a, at) ↦
        (let p : a ≡ b = ground (arith, at, full) in
          let q : f ≡ g = ground (arith, at, full) in
          let r : fs ≡ h = ground (arith, at, full) in
          subst₂ (Again n b) q r (Again-full n b a s f fs hi settled at p))
  ]
  | inr empty ↦ got_new n b s f g fs h (alloc_block fs) hi settled refl (ground (arith, empty))
]

got :
    (n b : ℕ) (f g : File) (fs h : Fs) (w : Outcome (Reply Slot × File × Fs))
    → n < ndirect + nindirect
    → file_block_walk f n true fs ≡ w
    → (w >>= get_at) ≡ returns (ok b, g, h)
    → Again n b g h
unfolding get_at
got n b f g fs h panics hi walked e = absurd (ground arith)
got n b f g fs h (returns (fail x, f', fs')) hi walked e = absurd (ground arith)
got n b f g fs h (returns (ok s, f', fs')) hi walked e =
    let w = walk-Walked n f true fs s f' fs' hi walked in got_at n b s f' g fs' h hi w.settled e

-- The block that `file_get_block` returns is a block of the disk, not 0, and a second call for the
-- same block of the file returns it again and changes neither the file nor the disk.
pub file_get_block-Again :
    (f : File) (n : ℕ) (fs : Fs) (b : ℕ) (g : File) (h : Fs)
    → file_get_block f n fs ≡ returns (ok b, g, h)
    → Again n b g h
unfolding file_get_block
file_get_block-Again f n fs b g h e = elim (Bool-cases (leb (ndirect + nindirect) n)) [
  | inl over ↦ absurd (ground (arith, over))
  | inr low ↦
      (got n b f g fs h (file_block_walk f n true fs) (ground (arith, low)) refl
        (ground (arith, low)))
]
