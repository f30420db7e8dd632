-- ===== src/Fs/Reserved.antt =====
-- The blocks that no file may use: blocks 0 and 1 and the bitmap's own, and `check_bitmap`.
use jos_operating_system.Prelude.{
  ℕ, zero, suc, ◌+◌, ◌-◌, ◌*◌, ◌%◌, ◌^◌, ◌<◌, ◌≤◌, ◌≡◌, refl, ◌⊎◌, ◌↔◌, inl, inr, Bool, true, false,
  arith, some, ltb, ◌||◌, returns, panics, ap, sym, ◌∙◌, Bool-cases,
}
use native.Mathlib.Decide.{ℕ_discrete}
use jos_operating_system.Fs.{
  Fs, block_is_free, check_bitmap_loop, check_bitmap, alloc_block, take_block, clear_bit,
  blkbitsize, max_blocks,
}
use jos_operating_system.Fs.Alloc.{alloc_block-Took}

abbrev pub is_reserved : Fs → ℕ → Bool
is_reserved fs b = ltb b 2 || ltb ((b - 2) * blkbitsize) fs.s_nblocks

abbrev pub Guarded : Fs → Type 0
Guarded fs = (b : ℕ) → is_reserved fs b ≡ true → block_is_free fs b ≡ false

loop_checks :
    (n i : ℕ) (fs : Fs)
    → fs.s_nblocks ≤ max_blocks
    → check_bitmap_loop n i fs ≡ returns fs
    → (j : ℕ) → i ≤ j
    → j < i + n
    → j * blkbitsize < fs.s_nblocks
    → block_is_free fs (2 + j) ≡ false
unfolding check_bitmap_loop
loop_checks zero i fs small e j lo hi inside = absurd (omega arith)
loop_checks (suc n) i fs small e j lo hi inside =
    let here : ltb (i * blkbitsize % 2 ^ 32) fs.s_nblocks ≡ true = ground arith in
    elim (Bool-cases (block_is_free fs (2 + i))) [
      | inl free ↦ absurd (ground arith)
      | inr used ↦ elim (ℕ_discrete i j) [
        | yes same ↦ ap (λ t. block_is_free fs (2 + t)) (sym same) ∙ used
        | no past ↦
            (loop_checks n (i + 1) fs small (ground arith) j (omega arith) (omega arith) inside)
      ]
    ]

loop_passes :
    (n i : ℕ) (fs : Fs)
    → fs.s_nblocks ≤ max_blocks
    → ((j : ℕ) → j * blkbitsize < fs.s_nblocks → block_is_free fs (2 + j) ≡ false)
    → i ≤ 131071
    → check_bitmap_loop n i fs ≡ returns fs
unfolding check_bitmap_loop
loop_passes zero i fs small used low = refl
loop_passes (suc n) i fs small used low =
    elim (Bool-cases (ltb (i * blkbitsize % 2 ^ 32) fs.s_nblocks)) [
      | inl more ↦ (ground (arith, used i, loop_passes n (i + 1) fs small used (ground arith)))
      | inr over ↦ ground arith
    ]

loop_result :
    (n i : ℕ) (fs : Fs)
    → (check_bitmap_loop n i fs ≡ returns fs) ⊎ (check_bitmap_loop n i fs ≡ panics)
unfolding check_bitmap_loop
loop_result zero i fs = inl refl
loop_result (suc n) i fs = ground (arith, loop_result n (i + 1) fs)

record Checked (fs : Fs) : Type 0 where
  loop : check_bitmap_loop fs.s_nblocks 0 fs ≡ returns fs
  zero_used : block_is_free fs 0 ≡ false
  one_used : block_is_free fs 1 ≡ false

checked : (fs : Fs) → check_bitmap fs ≡ returns fs → Checked fs
unfolding check_bitmap
checked fs e = elim (loop_result fs.s_nblocks 0 fs) [
  | inl ran ↦ record { loop = ran; zero_used = ground arith; one_used = ground arith }
  | inr stopped ↦ absurd (ground arith)
]

Guarded-check_bitmap :
    (fs : Fs) → fs.s_nblocks ≤ max_blocks → check_bitmap fs ≡ returns fs → Guarded fs
Guarded-check_bitmap fs small e zero r = (checked fs e).zero_used
Guarded-check_bitmap fs small e (suc zero) r = (checked fs e).one_used
Guarded-check_bitmap fs small e (suc (suc j)) r =
    let inside : j * blkbitsize < fs.s_nblocks = ground arith in
    let used : block_is_free fs (2 + j) ≡ false =
      loop_checks fs.s_nblocks 0 fs small (checked fs e).loop j (omega arith) (omega arith)
        inside in
    let same : suc (suc j) ≡ 2 + j = omega arith in ap (block_is_free fs) same ∙ used

check_bitmap-Guarded :
    (fs : Fs) → fs.s_nblocks ≤ max_blocks → Guarded fs → check_bitmap fs ≡ returns fs
unfolding check_bitmap
check_bitmap-Guarded fs small g =
    rw (loop_passes fs.s_nblocks 0 fs small (λ j h. g (2 + j) (ground arith)) (omega arith))
      (ground (arith, g 0 refl, g 1 refl))

-- `check_bitmap` passes exactly when blocks 0 and 1 and every block of the bitmap are in use.
pub check_bitmap_iff :
    (fs : Fs) → fs.s_nblocks ≤ max_blocks → (check_bitmap fs ≡ returns fs) ↔ Guarded fs
check_bitmap_iff fs small = (Guarded-check_bitmap fs small, check_bitmap-Guarded fs small)

-- On a disk whose bitmap passed the check, `alloc_block` never returns block 0 or 1 or a block of
-- the bitmap, and the check still passes.
pub alloc_block-check_bitmap :
    (fs : Fs) (b : ℕ) (fs' : Fs)
    → fs.s_nblocks ≤ max_blocks
    → check_bitmap fs ≡ returns fs
    → alloc_block fs ≡ (some b, fs')
    → (is_reserved fs b ≡ false) × (check_bitmap fs' ≡ returns fs')
unfolding take_block clear_bit
alloc_block-check_bitmap fs b fs' small e took =
    let t = alloc_block-Took fs b fs' took in
    let guarded = Guarded-check_bitmap fs small e in
    let size : fs'.s_nblocks ≡ fs.s_nblocks = ap (λ (x : Fs). x.s_nblocks) t.result in
    (
      ground (arith, guarded b, t.was_free),
      check_bitmap-Guarded fs' (omega (arith, size))
          λ c r. ground (arith, t.after c, guarded c, size),
    )
