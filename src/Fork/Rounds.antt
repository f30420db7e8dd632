-- ===== src/Fork/Rounds.antt =====
-- The rounds of the walk of `fork` in lib/fork.c: it ends, and keeps parent and child apart.
use jos_operating_system.Prelude.{
  ℕ, zero, suc, ◌*◌, ◌<◌, ◌≤◌, ◌≡◌, refl, ◌∙◌, true, false, leb, Option, none, some, arith, inr,
}
use native.Mathlib.Decide.{dec_lt}
use jos_operating_system.Fork.{
  Spaces, Parent, Tables, stores, utext, down, passed, visited, duppage_at, fork_loop,
}
use jos_operating_system.Fork.Entry.{Isolated}
use jos_operating_system.Fork.Stores.{Unmapped, stores-IsolatedAt}
use jos_operating_system.Fork.Walk.{Safe, next_address}
use jos_operating_system.Fork.Isolated.{never, duppage-Isolated}

-- the last page below the stack's guard: `USTACKTOP - PGSIZE`
abbrev pub top_page : ℕ
top_page = 0xef7fd

-- a round: the page handed to `duppage`, and the stores behind it
abbrev pub after_round : Parent → Tables → ℕ → Spaces → Spaces
after_round w t addr s =
    stores w.fresh (w.behind addr) (duppage_at never w (visited t s.parent addr) s)

module _ (w : Parent) where
  pub fork_loop-round :
      (t : Tables) (fuel addr : ℕ) (s : Spaces)
      → utext ≤ addr
      → fork_loop never w t (suc fuel) addr s
        ≡ fork_loop never w t fuel (down 4096 (passed t addr)) (after_round w t addr s)
  unfolding fork_loop
  fork_loop-round t fuel addr s h =
      let e : leb utext addr ≡ true = ground arith in rw (fork_loop, e) refl

  pub fork_loop-end :
      (t : Tables) (fuel addr : ℕ) (s : Spaces)
      → addr < utext
      → fork_loop never w t (suc fuel) addr s ≡ some s
  unfolding fork_loop
  fork_loop-end t fuel addr s h =
      let e : leb utext addr ≡ false = ground arith in rw (fork_loop, e) refl

  module _ (unmapped : Unmapped w) where
    pub stored-Isolated :
        (addr : ℕ) (s : Spaces) → Isolated s → Isolated (stores w.fresh (w.behind addr) s)
    stored-Isolated addr s v q = stores-IsolatedAt w.fresh unmapped (w.behind addr) q s (v q)

    pub duppage_at-Isolated :
        (o : Option ℕ) (s : Spaces) → Isolated s → Isolated (duppage_at never w o s)
    duppage_at-Isolated none s v = v
    duppage_at-Isolated (some pn) s v = duppage-Isolated w unmapped pn s v

    round-Isolated :
        (t : Tables) (addr : ℕ) (s : Spaces) → Isolated s → Isolated (after_round w t addr s)
    round-Isolated t addr s v =
        stored-Isolated addr (duppage_at never w (visited t s.parent addr) s)
          (duppage_at-Isolated (visited t s.parent addr) s v)

    loop-Isolated :
        (t : Tables) (fuel addr : ℕ) (s : Spaces)
        → t.pml4e 0 ≡ true
        → t.pdpe 0 ≡ true
        → addr < fuel * 4096
        → Safe t addr
        → Isolated s
        → (u : Spaces) × (fork_loop never w t fuel addr s ≡ some u) × Isolated u
    loop-Isolated t zero addr s root low enough safe v = absurd (omega arith)
    loop-Isolated t (suc fuel) addr s root low enough safe v = elim (dec_lt addr utext) [
      | yes below ↦ (s, fork_loop-end t fuel addr s below, v)
      | no above ↦
          (let (less, next) = next_address t root low addr (omega arith) safe in
            let (u, e, iso) =
              loop-Isolated t fuel (down 4096 (passed t addr)) (after_round w t addr s) root low
                (omega arith) next (round-Isolated t addr s v) in
            (u, fork_loop-round t fuel addr s (omega arith) ∙ e, iso))
    ]

-- Where the first entries of the two upper levels are present, the child has no pages before, no
-- `sys_page_map` fails and the pages that `pgfault` gets are not the child's, the walk of `fork` from the
-- top of the stack ends, in at most one round for each page and one more, whatever the parent writes to
-- meanwhile. Afterwards the child can write none of its pages that is not marked as shared, and where
-- the parent can write such a page, it is another physical page than the child's.
pub fork_loop-Isolated :
    (w : Parent) (t : Tables) (s : Spaces)
    → Unmapped w
    → t.pml4e 0 ≡ true
    → t.pdpe 0 ≡ true
    → ((pn : ℕ) → s.child pn ≡ 0)
    → (u : Spaces) × (fork_loop never w t (suc top_page) (top_page * 4096) s ≡ some u) × Isolated u
fork_loop-Isolated w t s unmapped root low empty =
    loop-Isolated w unmapped t (suc top_page) (top_page * 4096) s root low (omega arith)
      (omega arith, inr (omega arith)) (λ pn h. rw (empty pn) (refl, λ used. absurd (used refl)))
