-- ===== src/Fs/Bitmap.antt =====
-- Single blocks of the free-block bitmap: what reading, freeing and taking a block does to all.
use jos_operating_system.Prelude.{
  ℕ, ◌/◌, ◌%◌, ◌^◌, ◌≡◌, Bool, arith, ◌==◌, ◌!=◌, ltb, ◌&&◌, if◌then◌else◌, bit_or, ap, sym, ◌∙◌,
}
use native.Mathlib.Decide.{ℕ_discrete}
use jos_operating_system.Prelude.Bits.{bit, bit_and_test, bit-set_bit, bit-clear_bit}
use jos_operating_system.Fs.{Fs, bitmap, set_bitmap, block_is_free, clear_bit}

-- the bit of block `b`
abbrev pub mark : Fs → ℕ → ℕ
mark fs b = bit (b % 32) (bitmap fs (b / 32))

-- Blocks that the disk has.
abbrev pub has_block : Fs → ℕ → Bool
has_block fs b = fs.super_set && ltb b fs.s_nblocks

pub block_is_free-mark :
    (fs : Fs) (b : ℕ) → block_is_free fs b ≡ (has_block fs b && (mark fs b != 0))
unfolding block_is_free
block_is_free-mark fs b = ground (arith, bit_and_test (b % 32) (bitmap fs (b / 32)))

bitmap-set_bitmap :
    (fs : Fs) (w v u : ℕ) → bitmap (set_bitmap fs w v) u ≡ (if w == u then v else bitmap fs u)
bitmap-set_bitmap fs w v u = ground arith

-- Writing the word of block `b` so that only its bit becomes `n`.
mark-set_bitmap :
    (fs : Fs) (b v n c : ℕ)
    → bit (c % 32) v ≡ (if b % 32 == c % 32 then n else bit (c % 32) (bitmap fs (b / 32)))
    → mark (set_bitmap fs (b / 32) v) c ≡ (if b == c then n else mark fs c)
mark-set_bitmap fs b v n c h = elim (ℕ_discrete (b / 32) (c / 32)) [
  | yes same ↦
      (let word : bitmap (set_bitmap fs (b / 32) v) (c / 32) ≡ v =
          ground (arith, bitmap-set_bitmap fs (b / 32) v (c / 32)) in
        let old : mark fs c ≡ bit (c % 32) (bitmap fs (b / 32)) =
          ap (λ t. bit (c % 32) (bitmap fs t)) (sym same) in
        ap (bit (c % 32)) word ∙ h ∙ ground (arith, old))
  | no other ↦
      (let word : bitmap (set_bitmap fs (b / 32) v) (c / 32) ≡ bitmap fs (c / 32) =
          ground (arith, bitmap-set_bitmap fs (b / 32) v (c / 32)) in
        ap (bit (c % 32)) word ∙ ground (arith, ap (λ (t : ℕ). t / 32) {x = b} {y = c}))
]

pub mark-free_block :
    (fs : Fs) (b c : ℕ)
    → mark (set_bitmap fs (b / 32) (bit_or (bitmap fs (b / 32)) (2 ^ (b % 32)))) c
      ≡ (if b == c then 1 else mark fs c)
mark-free_block fs b c =
    mark-set_bitmap fs b _ 1 c (bit-set_bit (c % 32) (b % 32) (bitmap fs (b / 32)))

pub mark-clear_bit :
    (fs : Fs) (b c : ℕ) → mark (clear_bit fs b) c ≡ (if b == c then 0 else mark fs c)
unfolding clear_bit
mark-clear_bit fs b c =
    mark-set_bitmap fs b _ 0 c
      (bit-clear_bit (c % 32) (b % 32) (bitmap fs (b / 32)) (omega arith) (omega arith))
