-- ===== src/Fork/Skips.antt =====
-- Pages that the walk of `fork` in lib/fork.c passes over.
use jos_operating_system.Prelude.{
  ℕ, zero, suc, ◌+◌, ◌-◌, ◌*◌, ◌/◌, ◌^◌, ◌<◌, ◌≤◌, ◌≡◌, refl, ap, ◌∙◌, true, false, none, some,
  arith, Bool-cases, inl, inr, ◌⊎◌,
}
use native.Mathlib.Decide.{dec_lt}
use jos_operating_system.Fork.{
  Spaces, Parent, Tables, present, utext, down, passed, visited, duppage_at, fork_loop,
}
use jos_operating_system.Fork.Walk.{Safe, next_address, down_lem}
use jos_operating_system.Fork.Isolated.{never}
use jos_operating_system.Fork.Page.{duppage-Apart}
use jos_operating_system.Fork.Stores.{stores-child}
use jos_operating_system.Fork.Rounds.{after_round, fork_loop-round, fork_loop-end}

module _ (w : Parent) (t : Tables) where
  visited_cases :
      (uvpt : ℕ → ℕ) (addr : ℕ)
      → (visited t uvpt addr ≡ none) ⊎ (visited t uvpt addr ≡ some (addr / 4096))
  visited_cases uvpt addr = elim (Bool-cases (t.pml4e (addr / 2 ^ 39))) [
    | inr a ↦ inl (rw a refl)
    | inl a ↦ elim (Bool-cases (t.pdpe (addr / 2 ^ 30))) [
      | inr b ↦ inl (rw (a, b) refl)
      | inl b ↦ elim (Bool-cases (t.pde (addr / 2 ^ 21))) [
        | inr c ↦ inl (rw (a, b, c) refl)
        | inl c ↦ elim (Bool-cases (present (uvpt (addr / 4096)))) [
          | inr d ↦ inl (rw (a, b, c, d) refl)
          | inl d ↦ inr (rw (a, b, c, d) refl)
        ]
      ]
    ]
  ]

  round-above :
      (addr : ℕ) (s : Spaces) (q : ℕ)
      → addr / 4096 < q
      → (after_round w t addr s).child q ≡ s.child q
  round-above addr s q h =
      ap (λ f. f q)
        (stores-child w.fresh (w.behind addr) (duppage_at never w (visited t s.parent addr) s))
      ∙ elim (visited_cases s.parent addr) [
        | inl e ↦ rw e refl
        | inr e ↦ rw e (duppage-Apart (addr / 4096) s w q (λ f. omega arith)).child
      ]

  -- Nothing above the address is given to the child any more.
  loop-above :
      (fuel addr : ℕ) (s : Spaces)
      → t.pml4e 0 ≡ true
      → t.pdpe 0 ≡ true
      → addr < fuel * 4096
      → Safe t addr
      → (u : Spaces) × (fork_loop never w t fuel addr s ≡ some u)
        × ((q : ℕ) → addr / 4096 < q → u.child q ≡ s.child q)
  loop-above zero addr s root low enough safe = absurd (omega arith)
  loop-above (suc fuel) addr s root low enough safe = elim (dec_lt addr utext) [
    | yes below ↦ (s, fork_loop-end w t fuel addr s below, λ q h. refl)
    | no above ↦
        (let (less, next) = next_address t root low addr (omega arith) safe in
          let (u, e, up) =
            loop-above fuel (down 4096 (passed t addr)) (after_round w t addr s) root low
              (omega arith) next in
          (
            u,
            fork_loop-round w t fuel addr s (omega arith) ∙ e,
            λ q h. up q (omega arith) ∙ round-above addr s q h,
          ))
  ]

  visited-gap :
      (uvpt : ℕ → ℕ) (addr : ℕ)
      → t.pml4e (addr / 2 ^ 39) ≡ true
      → t.pdpe (addr / 2 ^ 30) ≡ true
      → t.pde (addr / 2 ^ 21) ≡ false
      → visited t uvpt addr ≡ none
  visited-gap uvpt addr a b c = rw (a, b, c) refl

  passed-gap :
      (addr : ℕ)
      → t.pml4e (addr / 2 ^ 39) ≡ true
      → t.pdpe (addr / 2 ^ 30) ≡ true
      → t.pde (addr / 2 ^ 21) ≡ false
      → passed t addr ≡ down (512 * 4096) addr
  passed-gap addr a b c = rw (a, b, c) refl

-- From an address below 4 GB whose page directory is there and whose page table is not, the walk of `fork`
-- goes down by 513 pages: the page 512 below and those above it, up to the address, are not given to the
-- child, even where the table below is there and they are present. (The first entries of the two upper
-- levels are present and no `sys_page_map` fails; the parent writes to any pages meanwhile.)
pub fork_skips :
    (w : Parent) (t : Tables) (addr : ℕ) (s : Spaces)
    → t.pml4e 0 ≡ true
    → t.pdpe 0 ≡ true
    → addr < 2 ^ 32
    → utext ≤ addr
    → t.pdpe (addr / 2 ^ 30) ≡ true
    → t.pde (addr / 2 ^ 21) ≡ false
    → (u : Spaces) × (fork_loop never w t (suc (addr / 4096 + 1)) addr s ≡ some u)
      × ((q : ℕ) → addr / 4096 ≤ q + 512 → u.child q ≡ s.child q)
fork_skips w t addr s root low small above here gap =
    let top : addr / 2 ^ 39 ≡ 0 = omega arith in
    let first : t.pml4e (addr / 2 ^ 39) ≡ true = rw top root in
    let (less, next) = next_address t root low addr above (small, inl here) in
    let (u, e, up) =
      loop-above w t (addr / 4096 + 1) (down 4096 (passed t addr)) (after_round w t addr s) root low
        (omega arith) next in
    let unseen = visited-gap w t s.parent addr first here gap in
    let d : down (512 * 4096) addr ≡ addr - 512 * 4096 =
      down_lem (512 * 4096) addr (omega arith) (omega arith) small in
    let f : down 4096 (addr - 512 * 4096) ≡ addr - 513 * 4096 =
      down_lem 4096 (addr - 512 * 4096) (omega arith) (omega arith) (omega arith) ∙ omega arith in
    let reached : down 4096 (passed t addr) ≡ addr - 513 * 4096 =
      ap (λ a. down 4096 a) (passed-gap w t addr first here gap ∙ d) ∙ f in
    (
      u,
      fork_loop-round w t (addr / 4096 + 1) addr s above ∙ e,
      λ q h.
          up q (omega (arith, reached))
          ∙ ap (λ f. f q)
              (stores-child w.fresh (w.behind addr)
                (duppage_at never w (visited t s.parent addr) s))
          ∙ ap (λ o. (duppage_at never w o s).child q) unseen,
    )
