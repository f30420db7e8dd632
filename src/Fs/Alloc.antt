-- ===== src/Fs/Alloc.antt =====
-- `alloc_block` and `free_block` as operations on the set of free blocks.
use jos_operating_system.Prelude.{
  ℕ, zero, suc, ◌+◌, ◌-◌, ◌/◌, ◌%◌, ◌^◌, ◌<◌, ◌≤◌, ◌≡◌, refl, ◌≢◌, ◌⊎◌, ◌↔◌, inl, inr, true, false,
  arith, Option, none, some, ◌∷◌, ◌==◌, if◌then◌else◌, returns, ap, sym, ◌∙◌, Bool-cases, bit_or,
}
use mathlib.Core.Path.{subst₂}
use native.Mathlib.Decide.{ℕ_discrete}
use jos_operating_system.Fs.{
  Fs, bitmap, set_bitmap, block_is_free, free_block, clear_bit, take_block, alloc_loop, alloc_block,
  blkbitsize,
}
use jos_operating_system.Fs.Bitmap.{has_block, block_is_free-mark, mark-free_block, mark-clear_bit}

abbrev pub freed : Fs → ℕ → Fs
freed fs b = set_bitmap fs (b / 32) (bit_or (bitmap fs (b / 32)) (2 ^ (b % 32)))

block_is_free-freed :
    (fs : Fs) (b c : ℕ)
    → block_is_free (freed fs b) c ≡ (if b == c then has_block fs c else block_is_free fs c)
block_is_free-freed fs b c =
    ground
      (arith, block_is_free-mark (freed fs b) c, block_is_free-mark fs c, mark-free_block fs b c)

-- `free_block` of any block but 0 makes that block free, if the disk has it, and no other.
pub free_block_lem :
    (fs : Fs) (b : ℕ)
    → b ≢ 0
    → (fs' : Fs) × (free_block fs b ≡ returns fs')
      × ((c : ℕ) → block_is_free fs' c ≡ (if b == c then has_block fs c else block_is_free fs c))
unfolding free_block
free_block_lem fs b ne = (freed fs b, ground arith, block_is_free-freed fs b)

take_block-free :
    (fs : Fs) (b c : ℕ)
    → block_is_free (take_block fs b) c ≡ (if b == c then false else block_is_free fs c)
unfolding take_block clear_bit
take_block-free fs b c =
    ground (
      arith,
      block_is_free-mark (take_block fs b) c,
      block_is_free-mark fs c,
      mark-clear_bit fs b c,
    )

-- What a successful `alloc_block` has done.
pub record Took (fs : Fs) (b : ℕ) (fs' : Fs) : Type 0 where
  pub from_two : 2 ≤ b
  pub on_disk : b < fs.s_nblocks
  pub was_free : block_is_free fs b ≡ true
  pub least : (c : ℕ) → 2 ≤ c → c < b → block_is_free fs c ≡ false
  pub after : (c : ℕ) → block_is_free fs' c ≡ (if b == c then false else block_is_free fs c)
  pub result : fs' ≡ take_block fs b

record Looped (fs : Fs) (n i b : ℕ) (fs' : Fs) : Type 0 where
  lower : i ≤ b
  upper : b < i + n
  was_free : block_is_free fs b ≡ true
  least : (c : ℕ) → i ≤ c → c < b → block_is_free fs c ≡ false
  result : fs' ≡ take_block fs b

alloc_loop-some :
    (n i : ℕ) (fs : Fs) (b : ℕ) (fs' : Fs) → alloc_loop n i fs ≡ (some b, fs') → Looped fs n i b fs'
unfolding alloc_loop
alloc_loop-some zero i fs b fs' e = absurd (ground arith)
alloc_loop-some (suc n) i fs b fs' e = elim (Bool-cases (block_is_free fs i)) [
  | inl now ↦ record {
    lower = ground arith;
    upper = ground arith;
    was_free = ground arith;
    least = λ c lo hi. absurd (ground arith);
    result = ground arith;
  }
  | inr later ↦
      (let w = alloc_loop-some n (i + 1) fs b fs' (ground arith) in
        record {
          lower = omega (arith, w.lower);
          upper = omega (arith, w.upper);
          was_free = w.was_free;
          least = λ c lo hi. elim (ℕ_discrete i c) [
            | yes same ↦ ap (block_is_free fs) (sym same) ∙ later
            | no past ↦ w.least c (omega arith) hi
          ];
          result = w.result;
        })
]

alloc_loop-none :
    (n i : ℕ) (fs fs' : Fs)
    → alloc_loop n i fs ≡ (none, fs')
    → (fs' ≡ fs) × ((c : ℕ) → i ≤ c → c < i + n → block_is_free fs c ≡ false)
unfolding alloc_loop
alloc_loop-none zero i fs fs' e = (ground arith, λ c lo hi. absurd (omega arith))
alloc_loop-none (suc n) i fs fs' e =
    let later : block_is_free fs i ≡ false = ground arith in
    let (same, rest) = alloc_loop-none n (i + 1) fs fs' (ground arith) in
    (
      same,
      λ c lo hi. elim (ℕ_discrete i c) [
        | yes here ↦ ap (block_is_free fs) (sym here) ∙ later
        | no past ↦ rest c (omega arith) (omega arith)
      ],
    )

-- `alloc_block` returns the lowest free block from 2 on and takes only that one, or fails because
-- no block from 2 on is free, and then changes nothing.
pub alloc_block_lem :
    (fs : Fs)
    → ((b : ℕ) × (fs' : Fs) × (alloc_block fs ≡ (some b, fs')) × Took fs b fs')
      ⊎ ((alloc_block fs ≡ (none, fs))
          × ((c : ℕ) → 2 ≤ c → c < fs.s_nblocks → block_is_free fs c ≡ false))
unfolding alloc_block
alloc_block_lem fs = by_result (alloc_loop (fs.s_nblocks - 2) 2 fs) refl
  where
    by_result :
        (r : Option ℕ × Fs)
        → alloc_loop (fs.s_nblocks - 2) 2 fs ≡ r
        → ((b : ℕ) × (fs' : Fs) × (alloc_loop (fs.s_nblocks - 2) 2 fs ≡ (some b, fs'))
            × Took fs b fs')
          ⊎ ((alloc_loop (fs.s_nblocks - 2) 2 fs ≡ (none, fs))
              × ((c : ℕ) → 2 ≤ c → c < fs.s_nblocks → block_is_free fs c ≡ false))
    by_result (none, fs') e =
        let (same, nothing) = alloc_loop-none (fs.s_nblocks - 2) 2 fs fs' e in
        inr (e ∙ ap (λ x. (none, x)) same, λ c lo hi. nothing c lo (omega arith))
    by_result (some b, fs') e =
        let w = alloc_loop-some (fs.s_nblocks - 2) 2 fs b fs' e in
        inl (
          b,
          fs',
          e,
          record {
            from_two = w.lower;
            on_disk = omega (arith, w.upper, w.lower);
            was_free = w.was_free;
            least = w.least;
            after = λ c. ap (λ x. block_is_free x c) w.result ∙ take_block-free fs b c;
            result = w.result;
          },
        )

pub alloc_block-Took : (fs : Fs) (b : ℕ) (fs' : Fs) → alloc_block fs ≡ (some b, fs') → Took fs b fs'
alloc_block-Took fs b fs' e = elim (alloc_block_lem fs) [
  | inl (b', g, e', t) ↦
      (let p : b' ≡ b = ground arith in let r : g ≡ fs' = ground arith in subst₂ (Took fs) p r t)
  | inr (e', rest) ↦ absurd (ground arith)
]

-- Freeing the block that `alloc_block` returned gives back the set of free blocks that there was.
pub free_block-alloc_block :
    (fs : Fs) (b : ℕ) (fs' : Fs)
    → alloc_block fs ≡ (some b, fs')
    → (fs'' : Fs) × (free_block fs' b ≡ returns fs'')
      × ((c : ℕ) → block_is_free fs'' c ≡ block_is_free fs c)
unfolding take_block clear_bit
free_block-alloc_block fs b fs' e =
    let t = alloc_block-Took fs b fs' e in
    let (fs'', freed_ok, after) = free_block_lem fs' b (omega (arith, t.from_two)) in
    let size : (c : ℕ) → has_block fs' c ≡ has_block fs c =
      λ c. ap (λ (x : Fs). has_block x c) t.result in
    (
      fs'',
      freed_ok,
      λ c. ground (arith, after c, t.after c, size c, block_is_free-mark fs c, t.was_free),
    )

-- the disk block that holds the bitmap's bit of block `b`
abbrev pub bitmap_block : ℕ → ℕ
bitmap_block b = 2 + b / 32 / 1024

-- `alloc_block` flushes one block, the first of the bitmap; that is the block with the bit that it
-- changed exactly when the new block lies below BLKBITSIZE.
pub alloc_block-flush :
    (fs : Fs) (b : ℕ) (fs' : Fs)
    → alloc_block fs ≡ (some b, fs')
    → (fs'.flushed ≡ bitmap_block b ∷ fs.flushed) ↔ (b < blkbitsize)
unfolding take_block clear_bit
alloc_block-flush fs b fs' e =
    let t = alloc_block-Took fs b fs' e in
    let one : fs'.flushed ≡ 2 ∷ fs.flushed = ap (λ (x : Fs). x.flushed) t.result in
    (λ q. ground (arith, one), λ q. ground (arith, one))
