-- ===== src/Fork/Copied.antt =====
-- What the walk of `fork` in lib/fork.c gives to the child.
use jos_operating_system.Prelude.{
  ℕ, zero, suc, ◌-◌, ◌*◌, ◌/◌, ◌^◌, ◌<◌, ◌≤◌, ◌≡◌, ◌≢◌, refl, sym, ap, ◌∙◌, true, false,
  if◌then◌else◌, Option, none, some, arith, Bool-cases, inl, inr, ◌⊎◌, has,
}
use native.Mathlib.Decide.{ℕ_discrete, dec_lt}
use jos_operating_system.Fork.{
  Spaces, Parent, Tables, frame, present, writable, pftemp, stores, down, passed, visited,
  duppage_at, fork_loop,
}
use jos_operating_system.Fork.Entry.{Isolated}
use jos_operating_system.Fork.Stores.{Unmapped, stores-child, stores-present, stores-kept}
use jos_operating_system.Fork.Walk.{down_lem}
use jos_operating_system.Fork.Page.{Same, Apart, duppage-Same, duppage-Apart}
use jos_operating_system.Fork.Isolated.{never}
use jos_operating_system.Fork.Rounds.{
  top_page, after_round, fork_loop-round, fork_loop-end, stored-Isolated, duppage_at-Isolated,
}

-- Every table below the stack is there.
pub record Full (t : Tables) : Type 0 where
  pub root : t.pml4e 0 ≡ true
  pub directories : (g : ℕ) → g < 4 → t.pdpe g ≡ true
  pub tables : (r : ℕ) → r < 2048 → t.pde r ≡ true

-- the entry at a page, if it is present
abbrev at_page : (ℕ → ℕ) → ℕ → Option ℕ
at_page uvpt k = if present (uvpt k) then some k else none

module _ (t : Tables) (full : Full t) (k : ℕ) (small : k < 2 ^ 20) where
  passed-Full : passed t (k * 4096) ≡ k * 4096
  passed-Full =
      let top : k * 4096 / 2 ^ 39 ≡ 0 = omega arith in
      rw
        (
          top,
          full.root,
          full.directories (k * 4096 / 2 ^ 30) (omega arith),
          full.tables (k * 4096 / 2 ^ 21) (omega arith),
        )
        refl

  visited-Full : (uvpt : ℕ → ℕ) → visited t uvpt (k * 4096) ≡ at_page uvpt k
  visited-Full uvpt =
      let top : k * 4096 / 2 ^ 39 ≡ 0 = omega arith in
      let page : k * 4096 / 4096 ≡ k = omega arith in
      rw
        (
          top,
          full.root,
          full.directories (k * 4096 / 2 ^ 30) (omega arith),
          full.tables (k * 4096 / 2 ^ 21) (omega arith),
          page,
        )
        refl

  next-Full : 0 < k → down 4096 (k * 4096) ≡ (k - 1) * 4096
  next-Full pos = down_lem 4096 (k * 4096) (omega arith) (omega arith) (omega arith) ∙ omega arith

-- No store of the parent to page `q` makes the entry anew: it could be written before, or there is no
-- store to it.
abbrev pub Kept : Parent → ℕ → ℕ → Type 0
Kept w q e =
    (writable e ≡ true) ⊎ ((i : ℕ) → (has q (w.between i) ≡ false) × (has q (w.behind i) ≡ false))

either_between :
    (w : Parent) (q e i : ℕ) → Kept w q e → (writable e ≡ true) ⊎ (has q (w.between i) ≡ false)
either_between w q e i (inl h) = inl h
either_between w q e i (inr h) = inr (h i).0

either_behind :
    (w : Parent) (q e i : ℕ) → Kept w q e → (writable e ≡ true) ⊎ (has q (w.behind i) ≡ false)
either_behind w q e i (inl h) = inl h
either_behind w q e i (inr h) = inr (h i).1

-- What a round at page `k` does to another page.
record Past (w : Parent) (q : ℕ) (s s' : Spaces) : Type 0 where
  child : s'.child q ≡ s.child q
  present_still : present (s.parent q) ≡ true → present (s'.parent q) ≡ true
  kept : Kept w q (s.parent q) → s'.parent q ≡ s.parent q

module _ (w : Parent) (k : ℕ) (s : Spaces) where
  abbrev dupped : Spaces
  dupped = duppage_at never w (at_page s.parent k) s

  abbrev rounded : Spaces
  rounded = stores w.fresh (w.behind (k * 4096)) dupped

  at_page-Same : present (s.parent k) ≡ true → Same (s.parent k) (rounded.child k)
  at_page-Same h =
      let child : rounded.child k ≡ dupped.child k =
        ap (λ f. f k) (stores-child w.fresh (w.behind (k * 4096)) dupped) in
      rw child (rw h (duppage-Same k s w h))

  at_page-Apart : (q : ℕ) → k ≢ q → Apart k s w q dupped
  at_page-Apart q other = elim (Bool-cases (present (s.parent k))) [
    | inl e ↦ rw e (duppage-Apart k s w q other)
    | inr e ↦ rw e (record { child = refl; present_still = λ a h. h; kept = λ a h. refl })
  ]

  at_page-Past : (q : ℕ) → k ≢ q → q ≢ pftemp → Past w q s rounded
  at_page-Past q other plain =
      let a = at_page-Apart q other in
      record {
        child = ap (λ f. f q) (stores-child w.fresh (w.behind (k * 4096)) dupped) ∙ a.child;
        present_still = λ h.
            stores-present w.fresh (w.behind (k * 4096)) q dupped plain (a.present_still plain h);
        kept = λ h.
            let same = a.kept plain (either_between w q (s.parent q) k h) in
            stores-kept w.fresh (w.behind (k * 4096)) q dupped plain
              (either_behind w q (dupped.parent q) (k * 4096) (rw same h))
            ∙ same;
      }

-- what the walk has done for page `q`
abbrev pub CopiedAt : Parent → ℕ → Spaces → Spaces → Type 0
CopiedAt w q s u =
    (present (u.child q) ≡ true) × (Kept w q (s.parent q) → frame (u.child q) ≡ frame (s.parent q))

-- the walk from page `k` down
record Copied (w : Parent) (t : Tables) (fuel k : ℕ) (s : Spaces) : Type 0 where
  after : Spaces
  result : fork_loop never w t fuel (k * 4096) s ≡ some after
  isolated : Unmapped w → Isolated s → Isolated after
  copied : (q : ℕ) → q ≤ k → 2048 ≤ q → present (s.parent q) ≡ true → CopiedAt w q s after
  above : (q : ℕ) → k < q → 2048 ≤ q → after.child q ≡ s.child q

next_copied :
    (w : Parent) (q : ℕ) (s s' u : Spaces) → Past w q s s' → CopiedAt w q s' u → CopiedAt w q s u
next_copied w q s s' u past c =
    (c.0, λ h. let same = past.kept h in c.1 (rw same h) ∙ ap frame same)

loop-Copied :
    (w : Parent) (t : Tables) (full : Full t) (fuel k : ℕ) (s : Spaces)
    → k < 2 ^ 20
    → k < fuel
    → Copied w t fuel k s
loop-Copied w t full zero k s small enough = absurd (omega arith)
loop-Copied w t full (suc fuel) k s small enough = elim (dec_lt k 2048) [
  | yes below ↦ record {
    after = s;
    result = fork_loop-end w t fuel (k * 4096) s (omega arith);
    isolated = λ un v. v;
    copied = λ q le low h. absurd (omega arith);
    above = λ q h low. refl;
  }
  | no here ↦
      (let next = rounded w k s in
        let r = loop-Copied w t full fuel (k - 1) next (omega arith) (omega arith) in
        let addr : down 4096 (passed t (k * 4096)) ≡ (k - 1) * 4096 =
          ap (λ a. down 4096 a) (passed-Full t full k small)
          ∙ next-Full t full k small (omega arith) in
        let seen : after_round w t (k * 4096) s ≡ next =
          ap (λ o. stores w.fresh (w.behind (k * 4096)) (duppage_at never w o s))
            (visited-Full t full k small s.parent) in
        let round =
          fork_loop-round w t fuel (k * 4096) s (omega arith)
          ∙ ap (λ a. fork_loop never w t fuel a (after_round w t (k * 4096) s)) addr
          ∙ ap (λ x. fork_loop never w t fuel ((k - 1) * 4096) x) seen in
        record {
          after = r.after;
          result = round ∙ r.result;
          isolated = λ un v. r.isolated un (
              stored-Isolated w un (k * 4096) (dupped w k s)
                (duppage_at-Isolated w un (at_page s.parent k) s v));
          copied = λ q le low h. elim (ℕ_discrete q k) [
            | yes e ↦
                (let same = at_page-Same w k s (rw e at h) in
                  rw (e, r.above k (omega arith) (omega arith)) (same.0, λ kept. same.1))
            | no other ↦
                (let past = at_page-Past w k s q (λ e. other (sym e)) (omega arith) in
                  next_copied w q s next r.after past
                    (r.copied q (omega arith) low (past.present_still h)))
          ];
          above = λ q h low.
              r.above q (omega arith) low
              ∙ (at_page-Past w k s q (λ e. omega arith) (omega arith)).child;
        })
]

-- Where all tables below 4 GB are there, the child has no pages before, no `sys_page_map` fails and the
-- pages that `pgfault` gets are not the child's, the walk of `fork` gives the child an entry for every
-- page from UTEXT to the top of the stack that is present before. It is present, and of the parent's
-- physical page of before, if the parent's entry could be written then or the parent does not write to
-- the page during the walk. Afterwards the child can write none of its pages that is not marked as
-- shared, and where the parent can write such a page, it is another physical page than the child's.
pub fork_loop-Copied :
    (w : Parent) (t : Tables) (s : Spaces)
    → Unmapped w
    → Full t
    → ((pn : ℕ) → s.child pn ≡ 0)
    → (u : Spaces) × (fork_loop never w t (suc top_page) (top_page * 4096) s ≡ some u)
      × ((q : ℕ) → 2048 ≤ q → q ≤ top_page → present (s.parent q) ≡ true → CopiedAt w q s u)
      × Isolated u
fork_loop-Copied w t s unmapped full empty =
    let r = loop-Copied w t full (suc top_page) top_page s (omega arith) (omega arith) in
    (
      r.after,
      r.result,
      λ q low le h. r.copied q le low h,
      r.isolated unmapped (λ pn h. rw (empty pn) (refl, λ used. absurd (used refl))),
    )
