-- ===== src/Fork/Entry.antt =====
-- Page table entries as `fork` of lib/fork.c writes them.
use jos_operating_system.Prelude.{
  ℕ, ◌+◌, ◌*◌, ◌/◌, ◌^◌, ◌<◌, ◌≡◌, ◌≢◌, sym, ap, ◌∙◌, Bool, true, false, ◌!=◌, arith, bit_and,
  bit_or,
}
use jos_operating_system.Prelude.Bits.{
  bit, bit-bit_and, bit-bit_or, bit_and_test, bit-clear_bit, bit-lt-two, all_but, bit_or_shifted,
}
use jos_operating_system.Syscall.Page.{pte_syscall}
use jos_operating_system.Fork.{Spaces, frame, pte_share, present, writable}

abbrev pub shared : ℕ → Bool
shared e = bit_and e pte_share != 0

-- Of a page that is not marked as shared the child has only an entry that it cannot write, and if the
-- parent can write its own entry, that is of another physical page.
abbrev pub IsolatedAt : ℕ → ℕ → Type 0
IsolatedAt mine its =
    shared its ≡ false
    → (writable its ≡ false) × (its ≢ 0 → writable mine ≡ true → frame mine ≢ frame its)

abbrev pub Isolated : Spaces → Type 0
Isolated s = (pn : ℕ) → IsolatedAt (s.parent pn) (s.child pn)

-- the tests by bits
pub test_bit : (i e : ℕ) → (bit_and e (2 ^ i) != 0) ≡ (bit i e != 0)
test_bit i e = ground (arith, bit_and_test i e)

writable-bit : (e : ℕ) → writable e ≡ (bit 1 e != 0)
writable-bit e = test_bit 1 e

shared-bit : (e : ℕ) → shared e ≡ (bit 10 e != 0)
shared-bit e = test_bit 10 e

module _ (e perm : ℕ) where
  -- a new entry has the flags that it is given
  pub writable-entry : writable (bit_or (frame e) perm) ≡ writable perm
  writable-entry =
      let none_there : bit 1 (frame e) ≡ 0 = omega arith in
      writable-bit _
      ∙ ap (λ b. b != 0)
          (bit-bit_or 1 (frame e) perm ∙ omega (arith, none_there, bit-lt-two 1 perm))
      ∙ sym (writable-bit perm)

  pub shared-entry : shared (bit_or (frame e) perm) ≡ shared perm
  shared-entry =
      let none_there : bit 10 (frame e) ≡ 0 = omega arith in
      shared-bit _
      ∙ ap (λ b. b != 0)
          (bit-bit_or 10 (frame e) perm ∙ omega (arith, none_there, bit-lt-two 10 perm))
      ∙ sym (shared-bit perm)

pub writable-syscall : (e : ℕ) → writable (bit_and e pte_syscall) ≡ writable e
writable-syscall e =
    writable-bit _
    ∙ ap (λ b. b != 0) (bit-bit_and 1 e pte_syscall ∙ omega (arith, bit-lt-two 1 e))
    ∙ sym (writable-bit e)

pub writable-cow : (p : ℕ) → writable (bit_and p (all_but 32 1)) ≡ false
writable-cow p =
    let cleared : bit 1 (bit_and p (all_but 32 1)) ≡ 0 = ground (arith, bit-clear_bit 1 1 p) in
    writable-bit _ ∙ ap (λ b. b != 0) cleared

-- an entry that is given a present page's flags
pub present-entry : (e p : ℕ) → bit 0 p ≡ 1 → present (bit_or (frame e) p) ≡ true
present-entry e p h =
    let low : bit 0 (bit_or (frame e) p) ≡ 1 =
      omega (arith, bit-bit_or 0 (frame e) p, h, bit-lt-two 0 (frame e)) in
    ground (arith, test_bit 0 (bit_or (frame e) p), low)

pub frame-entry : (e p : ℕ) → p < 4096 → frame (bit_or (frame e) p) ≡ frame e
frame-entry e p h =
    let small : p < 2 ^ 12 = omega arith in
    let sum : bit_or (e / 4096 * 4096) p ≡ e / 4096 * 4096 + p =
      bit_or_shifted 12 (e / 4096) p small in
    rw sum (omega arith)
