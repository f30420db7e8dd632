-- ===== src/Fork/Walk.antt =====
-- The walk of `fork` in lib/fork.c ends.
use jos_operating_system.Prelude.{
  ℕ, ◌+◌, ◌-◌, ◌*◌, ◌/◌, ◌%◌, ◌^◌, ◌<◌, ◌≤◌, ◌≡◌, ◌≢◌, refl, sym, ap, ◌∙◌, true, false, arith,
  Bool-cases, inl, inr, ◌⊎◌,
}
use native.Mathlib.Decide.{ℕ_discrete}
use jos_operating_system.Fork.{Tables, utext, down, passed}

-- Where a page directory is missing there is room to go down a page more at each gigabyte.
abbrev pub Safe : Tables → ℕ → Type 0
Safe t addr =
    (addr < 2 ^ 32) × ((t.pdpe (addr / 2 ^ 30) ≡ true) ⊎ (addr / 2 ^ 30 * 4096 ≤ addr % 2 ^ 30))

pub down_lem : (n addr : ℕ) → n ≤ addr → n < 2 ^ 33 → addr < 2 ^ 32 → down n addr ≡ addr - n
down_lem n addr le small low = omega arith

-- from a gigabyte that has its page directory on
near :
    (t : Tables) (addr n : ℕ)
    → addr < 2 ^ 32
    → t.pdpe (addr / 2 ^ 30) ≡ true
    → n ≤ addr
    → n ≤ 2 ^ 22
    → Safe t (addr - n)
near t addr n small here le short = elim (ℕ_discrete ((addr - n) / 2 ^ 30) (addr / 2 ^ 30)) [
  | yes e ↦ (omega arith, inl (rw e here))
  | no other ↦ (omega arith, inr (omega arith))
]

module _ (t : Tables) (root : t.pml4e 0 ≡ true) (low : t.pdpe 0 ≡ true) where
  passed-present :
      (addr : ℕ)
      → addr < 2 ^ 32
      → t.pdpe (addr / 2 ^ 30) ≡ true
      → (passed t addr ≡ addr) ⊎ (passed t addr ≡ down (512 * 4096) addr)
  passed-present addr small here =
      let top : addr / 2 ^ 39 ≡ 0 = omega arith in
      rw (top, root, here)
        (elim (Bool-cases (t.pde (addr / 2 ^ 21))) [
          | inl e ↦ inl (rw e refl)
          | inr e ↦ inr (rw e refl)
        ])

  passed-missing :
      (addr : ℕ)
      → addr < 2 ^ 32
      → t.pdpe (addr / 2 ^ 30) ≡ false
      → passed t addr ≡ down (512 * 512 * 4096) addr
  passed-missing addr small here =
      let top : addr / 2 ^ 39 ≡ 0 = omega arith in rw (top, root, here) refl

  -- A round goes down by a page at least.
  pub next_address :
      (addr : ℕ)
      → utext ≤ addr
      → Safe t addr
      → (down 4096 (passed t addr) + 4096 ≤ addr) × Safe t (down 4096 (passed t addr))
  next_address addr above (small, room) = elim (Bool-cases (t.pdpe (addr / 2 ^ 30))) [
    | inl here ↦ elim (passed-present addr small here) [
      | inl e ↦
          (let d : down 4096 addr ≡ addr - 4096 =
              down_lem 4096 addr (omega arith) (omega arith) small in
            rw (e, d) (omega arith, near t addr 4096 small here (omega arith) (omega arith)))
      | inr e ↦
          (let d : down (512 * 4096) addr ≡ addr - 512 * 4096 =
              down_lem (512 * 4096) addr (omega arith) (omega arith) small in
            let f : down 4096 (addr - 512 * 4096) ≡ addr - 513 * 4096 =
              down_lem 4096 (addr - 512 * 4096) (omega arith) (omega arith) (omega arith)
              ∙ omega arith in
            rw (e, d, f)
              (omega arith, near t addr (513 * 4096) small here (omega arith) (omega arith)))
    ]
    | inr here ↦
        (let inside : addr / 2 ^ 30 ≢ 0 = λ z. cc (sym here ∙ ap t.pdpe z ∙ low) in
          let enough : addr / 2 ^ 30 * 4096 ≤ addr % 2 ^ 30 = ground arith in
          let d : down (512 * 512 * 4096) addr ≡ addr - 2 ^ 30 =
            down_lem (512 * 512 * 4096) addr (omega arith) (omega arith) small ∙ omega arith in
          let f : down 4096 (addr - 2 ^ 30) ≡ addr - 2 ^ 30 - 4096 =
            down_lem 4096 (addr - 2 ^ 30) (omega arith) (omega arith) (omega arith) in
          let e = passed-missing addr small here in
          rw (e, d, f) (omega arith, (omega arith, inr (omega arith))))
  ]
