-- ===== src/Fork/Page.antt =====
-- What `duppage` of lib/fork.c does to the entries of its page and of the others.
use jos_operating_system.Prelude.{
  ℕ, ◌^◌, ◌<◌, ◌≡◌, ◌≢◌, refl, ap, ◌∙◌, true, false, ◌!=◌, ◌||◌, ◌⊎◌, update, has, arith,
  Bool-cases, inl, inr, bit_and, bit_or,
}
use jos_operating_system.Prelude.Bits.{
  bit, bit-bit_and, bit-bit_or, bit-clear_bit, bit-lt-two, bit_and-lt, bit_and-lt_right, bit_or-lt,
  all_but,
}
use jos_operating_system.Syscall.Page.{pte_syscall}
use jos_operating_system.Fork.{
  Spaces, Parent, frame, pte_cow, pftemp, present, writable, stores, duppage, map_to_child,
}
use jos_operating_system.Fork.Entry.{shared, test_bit, present-entry, frame-entry}
use jos_operating_system.Fork.Stores.{stores-child, stores-present, stores-kept}
use jos_operating_system.Fork.Isolated.{
  never, perm, cow, duppage-given, duppage-cow, same_elsewhere,
}

-- The child's entry is of the parent's physical page and is present.
abbrev pub Same : ℕ → ℕ → Type 0
Same mine its = (present its ≡ true) × (frame its ≡ frame mine)

module _ (pn : ℕ) (s : Spaces) where
  written : (v : ℕ) → update s.child pn v pn ≡ v
  written v = ground arith

  perm-present : present (s.parent pn) ≡ true → bit 0 (perm pn s) ≡ 1
  perm-present h =
      let one : bit 0 (s.parent pn) ≡ 1 =
        ground (arith, test_bit 0 (s.parent pn), bit-lt-two 0 (s.parent pn)) in
      omega (arith, bit-bit_and 0 (s.parent pn) pte_syscall, one)

  cow-present : bit 0 (perm pn s) ≡ 1 → bit 0 (cow pn s) ≡ 1
  cow-present h =
      let kept : bit 0 (cow pn s) ≡ bit 0 (bit_or (perm pn s) pte_cow) =
        ground (arith, bit-clear_bit 0 1 (bit_or (perm pn s) pte_cow)) in
      omega (arith, kept, bit-bit_or 0 (perm pn s) pte_cow, h, bit-lt-two 0 pte_cow)

  perm-small : perm pn s < 2 ^ 12
  perm-small = bit_and-lt_right 12 (s.parent pn) pte_syscall (omega arith)

  cow-small : cow pn s < 2 ^ 12
  cow-small =
      bit_and-lt 12 (bit_or (perm pn s) pte_cow) (all_but 32 1)
        (bit_or-lt 12 (perm pn s) pte_cow perm-small (omega arith))

  entry-Same :
      (p c : ℕ)
      → bit 0 p ≡ 1
      → p < 2 ^ 12
      → c ≡ bit_or (frame (s.parent pn)) p
      → Same (s.parent pn) c
  entry-Same p c h small e =
      rw e (present-entry (s.parent pn) p h, frame-entry (s.parent pn) p (omega (arith, small)))

  module _ (w : Parent) where
    pub duppage-Same :
        present (s.parent pn) ≡ true → Same (s.parent pn) ((duppage never w pn s).child pn)
    duppage-Same h = elim (Bool-cases (shared (perm pn s))) [
      | inl e ↦ rw (duppage-given w pn s (inl e)) (
          entry-Same (perm pn s) _ (perm-present h) perm-small
            (written (bit_or (frame (s.parent pn)) (perm pn s))))
      | inr e ↦ elim (Bool-cases (writable (perm pn s) || (bit_and (perm pn s) pte_cow != 0))) [
        | inl f ↦ rw (duppage-cow w pn s e f) (
            entry-Same (cow pn s) _ (cow-present (perm-present h)) cow-small (
              ap (λ g. g pn)
                (stores-child w.fresh (w.between pn) (map_to_child never pn (cow pn s) s))
              ∙ written (bit_or (frame (s.parent pn)) (cow pn s))))
        | inr f ↦
            (let g : writable (perm pn s) ≡ false = ground arith in
              let k : (bit_and (perm pn s) pte_cow != 0) ≡ false = ground arith in
              rw (duppage-given w pn s (inr (g, k))) (
                entry-Same (perm pn s) _ (perm-present h) perm-small
                  (written (bit_or (frame (s.parent pn)) (perm pn s)))))
      ]
    ]

    -- What it does elsewhere: nothing, but for the stores in between.
    pub record Apart (q : ℕ) (s' : Spaces) : Type 0 where
      pub child : s'.child q ≡ s.child q
      pub present_still : q ≢ pftemp → present (s.parent q) ≡ true → present (s'.parent q) ≡ true
      pub kept :
          q ≢ pftemp
          → (writable (s.parent q) ≡ true) ⊎ (has q (w.between pn) ≡ false)
          → s'.parent q ≡ s.parent q

    given-Apart : (q p : ℕ) → pn ≢ q → Apart q (map_to_child never pn p s)
    given-Apart q p other = record {
      child = same_elsewhere s.child pn _ q other;
      present_still = λ a h. h;
      kept = λ a h. refl;
    }

    pub duppage-Apart : (q : ℕ) → pn ≢ q → Apart q (duppage never w pn s)
    duppage-Apart q other = elim (Bool-cases (shared (perm pn s))) [
      | inl e ↦ rw (duppage-given w pn s (inl e)) (given-Apart q (perm pn s) other)
      | inr e ↦ elim (Bool-cases (writable (perm pn s) || (bit_and (perm pn s) pte_cow != 0))) [
        | inl f ↦ rw (duppage-cow w pn s e f) (
            let m = map_to_child never pn (cow pn s) s in
            let self = same_elsewhere (stores w.fresh (w.between pn) m).parent pn _ q other in
            record {
              child =
                  ap (λ g. g q) (stores-child w.fresh (w.between pn) m)
                  ∙ same_elsewhere s.child pn _ q other;
              present_still =
                  λ a h. ap present self ∙ stores-present w.fresh (w.between pn) q m a h;
              kept = λ a h. self ∙ stores-kept w.fresh (w.between pn) q m a h;
            })
        | inr f ↦
            (let g : writable (perm pn s) ≡ false = ground arith in
              let k : (bit_and (perm pn s) pte_cow != 0) ≡ false = ground arith in
              rw (duppage-given w pn s (inr (g, k))) (given-Apart q (perm pn s) other))
      ]
    ]
