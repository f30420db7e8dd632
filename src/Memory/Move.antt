-- ===== src/Memory/Move.antt =====
-- `memmove` copies as if through a buffer, also where source and destination overlap.
use jos_operating_system.Prelude.{
  ℕ, zero, suc, ◌+◌, ◌-◌, ◌*◌, ◌/◌, ◌≤◌, ◌≡◌, ◌⊎◌, inl, inr, refl, sym, ◌∙◌, true, false, arith,
  ◌&&◌, leb, ltb, if◌then◌else◌, Bool-cases, ap,
}
use mathlib.Core.Path.{subst}
use jos_operating_system.Memory.{chunk, movs_up, movs_down, aligned, memmove}

-- the memory with `n` bytes of the old one copied from `s` to `d`
abbrev pub copied : ℕ → ℕ → ℕ → (ℕ → ℕ) → ℕ → ℕ
copied d s n m a = if leb d a && ltb a (d + n) then m (s + (a - d)) else m a

movs_up-copied :
    (w n d s : ℕ) (m : ℕ → ℕ) (a : ℕ)
    → (d ≤ s) ⊎ (s + n * w ≤ d)
    → movs_up w n d s m a ≡ copied d s (n * w) m a
unfolding movs_up
movs_up-copied w zero d s m a apart = ground arith
movs_up-copied w (suc n) d s m a apart =
    let size : suc n * w ≡ w + n * w = omega arith in
    let after : (d + w ≤ s + w) ⊎ (s + w + n * w ≤ d + w) = ground (arith, size) in
    ground (arith, size, movs_up-copied w n (d + w) (s + w) (chunk w d s m) a after)

-- the last chunk first, and then the `t` bytes below it
chunk-last :
    (w t d s : ℕ) (m : ℕ → ℕ) (a : ℕ)
    → s ≤ d
    → copied d s t (chunk w (d + t) (s + t) m) a ≡ copied d s (w + t) m a
chunk-last w t d s m a apart = elim (Bool-cases (leb d a && ltb a (d + t))) [
  | inl low ↦ rw low (ground arith)
  | inr other ↦ rw other (by_place other (Bool-cases (leb (d + t) a && ltb a (d + t + w))))
]
  where
    by_place :
        (leb d a && ltb a (d + t)) ≡ false
        → ((leb (d + t) a && ltb a (d + t + w)) ≡ true)
          ⊎ ((leb (d + t) a && ltb a (d + t + w)) ≡ false)
        → chunk w (d + t) (s + t) m a ≡ copied d s (w + t) m a
    by_place other (inl last) =
        let inside : (leb d a && ltb a (d + (w + t))) ≡ true = ground arith in
        let from : s + t + (a - (d + t)) ≡ s + (a - d) = ground arith in
        rw (last, inside) (ap m from)
    by_place other (inr out) =
        let outside : (leb d a && ltb a (d + (w + t))) ≡ false = ground arith in
        rw (out, outside) refl

movs_down-copied :
    (w n d s : ℕ) (m : ℕ → ℕ) (a : ℕ)
    → s ≤ d
    → movs_down w n (d + n * w) (s + n * w) m a ≡ copied d s (n * w) m a
unfolding movs_down
movs_down-copied w zero d s m a apart = ground arith
movs_down-copied w (suc n) d s m a apart =
    let size : suc n * w ≡ w + n * w = omega arith in
    let to : d + suc n * w - w ≡ d + n * w = omega (arith, size) in
    let from : s + suc n * w - w ≡ s + n * w = omega (arith, size) in
    rw (to, from)
      (movs_down-copied w n d s (chunk w (d + n * w) (s + n * w) m) a apart
        ∙ chunk-last w (n * w) d s m a apart
        ∙ ap (λ t. copied d s t m a) (sym size))

-- `memmove` leaves at each address of the destination the byte that stood at the same place of the
-- source before the call, and every other address as it was, however the two ranges overlap.
pub memmove-copied : (d s n : ℕ) (m : ℕ → ℕ) (a : ℕ) → memmove d s n m a ≡ copied d s n m a
unfolding memmove
memmove-copied d s n m a = elim (Bool-cases (ltb s d && ltb d (s + n))) [
  | inl over ↦ elim (Bool-cases (aligned (d + n) (s + n) n)) [
    | inl words ↦
        rw (over, words)
          (let size : n / 4 * 4 ≡ n = ground arith in
            subst (λ t. movs_down 4 (n / 4) (d + t) (s + t) m a ≡ copied d s t m a) size
              (movs_down-copied 4 (n / 4) d s m a ground arith))
    | inr bytes ↦
        rw (over, bytes)
          (let size : n * 1 ≡ n = omega arith in
            subst (λ t. movs_down 1 n (d + t) (s + t) m a ≡ copied d s t m a) size
              (movs_down-copied 1 n d s m a ground arith))
  ]
  | inr apart ↦ elim (Bool-cases (aligned d s n)) [
    | inl words ↦
        rw (apart, words)
          (let size : n / 4 * 4 ≡ n = ground arith in
            subst (λ t. movs_up 4 (n / 4) d s m a ≡ copied d s t m a) size
              (movs_up-copied 4 (n / 4) d s m a ground (arith, size)))
    | inr bytes ↦
        rw (apart, bytes)
          (let size : n * 1 ≡ n = omega arith in
            subst (λ t. movs_up 1 n d s m a ≡ copied d s t m a) size
              (movs_up-copied 1 n d s m a ground (arith, size)))
  ]
]
