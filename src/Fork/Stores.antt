-- ===== src/Fork/Stores.antt =====
-- What the parent's stores during `fork` of lib/fork.c, which run `pgfault`, do to its entries.
use jos_operating_system.Prelude.{
  ℕ, ◌*◌, ◌≡◌, ◌≢◌, refl, sym, ap, ◌∙◌, true, false, List, [], ◌∷◌, ◌⊎◌, inl, inr, ◌&&◌, not, has,
  arith, Bool-cases, bit_or,
}
use native.Mathlib.Decide.{ℕ_discrete}
use jos_operating_system.Fork.{
  Spaces, Parent, frame, present, writable, pftemp, pgfault, store_page, stores,
}
use jos_operating_system.Fork.Entry.{IsolatedAt, present-entry, frame-entry}

-- The page that `sys_page_alloc` gives was mapped nowhere: it is not the child's page at that place.
abbrev pub Unmapped : Parent → Type 0
Unmapped p = (s : Spaces) (pn : ℕ) → p.fresh s pn * 4096 ≢ frame (s.child pn)

-- the entry that `pgfault` makes
frame-new : (new : ℕ) → frame (bit_or (new * 4096) 7) ≡ new * 4096
frame-new new =
    let e : frame (new * 4096) ≡ new * 4096 = omega arith in
    ap (λ f. frame (bit_or f 7)) (sym e) ∙ frame-entry (new * 4096) 7 (omega arith) ∙ e

present-new : (new : ℕ) → present (bit_or (new * 4096) 7) ≡ true
present-new new =
    let e : frame (new * 4096) ≡ new * 4096 = omega arith in
    ap (λ f. present (bit_or f 7)) (sym e) ∙ present-entry (new * 4096) 7 refl

module _ (fresh : Spaces → ℕ → ℕ) where
  -- A store changes nothing, or it makes its page's entry anew and clears the one of PFTEMP.
  store_cases :
      (pn : ℕ) (s : Spaces)
      → (store_page fresh pn s ≡ s)
        ⊎ ((writable (s.parent pn) ≡ false) × (store_page fresh pn s ≡ pgfault (fresh s pn) pn s))
  store_cases pn s = elim (Bool-cases (present (s.parent pn) && not (writable (s.parent pn)))) [
    | inl e ↦ inr (ground arith, rw e refl)
    | inr e ↦ inl (rw e refl)
  ]

  pgfault_cases :
      (new pn q : ℕ) (s : Spaces)
      → ((pgfault new pn s).parent q ≡ s.parent q)
        ⊎ (((q ≡ pftemp) × ((pgfault new pn s).parent q ≡ 0))
            ⊎ ((q ≡ pn) × ((pgfault new pn s).parent q ≡ bit_or (new * 4096) 7)))
  pgfault_cases new pn q s = elim (ℕ_discrete q pftemp) [
    | yes e ↦ inr (inl (e, ground arith))
    | no other ↦ elim (ℕ_discrete q pn) [
      | yes e ↦ inr (inr (e, ground arith))
      | no apart ↦ inl (ground arith)
    ]
  ]

  store-child : (pn : ℕ) (s : Spaces) → (store_page fresh pn s).child ≡ s.child
  store-child pn s = elim (store_cases pn s) [
    | inl e ↦ ap (λ (x : Spaces). x.child) e
    | inr (_, e) ↦ ap (λ (x : Spaces). x.child) e
  ]

  store-present :
      (pn q : ℕ) (s : Spaces)
      → q ≢ pftemp
      → present (s.parent q) ≡ true
      → present ((store_page fresh pn s).parent q) ≡ true
  store-present pn q s other h = elim (store_cases pn s) [
    | inl e ↦ ap (λ (x : Spaces). present (x.parent q)) e ∙ h
    | inr (_, e) ↦
        ap (λ (x : Spaces). present (x.parent q)) e ∙ elim (pgfault_cases (fresh s pn) pn q s) [
          | inl same ↦ ap present same ∙ h
          | inr (inl (at, _)) ↦ absurd (other at)
          | inr (inr (_, new)) ↦ ap present new ∙ present-new (fresh s pn)
        ]
  ]

  store-kept :
      (pn q : ℕ) (s : Spaces)
      → q ≢ pftemp
      → (writable (s.parent q) ≡ true) ⊎ (q ≢ pn)
      → (store_page fresh pn s).parent q ≡ s.parent q
  store-kept pn q s other why = elim (store_cases pn s) [
    | inl e ↦ ap (λ (x : Spaces). x.parent q) e
    | inr (plain, e) ↦
        ap (λ (x : Spaces). x.parent q) e ∙ elim (pgfault_cases (fresh s pn) pn q s) [
          | inl same ↦ same
          | inr (inl (at, _)) ↦ absurd (other at)
          | inr (inr (at, _)) ↦ elim why [
            | inl w ↦ absurd (cc (sym (ap (λ i. writable (s.parent i)) at ∙ plain) ∙ w))
            | inr apart ↦ absurd (apart at)
          ]
        ]
  ]

  store-IsolatedAt :
      ((s : Spaces) (pn : ℕ) → fresh s pn * 4096 ≢ frame (s.child pn))
      → (pn q : ℕ) (s : Spaces) → IsolatedAt (s.parent q) (s.child q)
      → IsolatedAt ((store_page fresh pn s).parent q) ((store_page fresh pn s).child q)
  store-IsolatedAt unmapped pn q s v = elim (store_cases pn s) [
    | inl e ↦ rw e v
    | inr (_, e) ↦ rw e (elim (pgfault_cases (fresh s pn) pn q s) [
      | inl same ↦ rw same v
      | inr (inl (_, gone)) ↦ rw gone (λ h. ((v h).0, λ used w. absurd (cc w)))
      | inr (inr (at, new)) ↦ rw new (λ h. (
        (v h).0,
        λ used w same.
            unmapped s pn (sym (frame-new (fresh s pn)) ∙ same ∙ ap (λ i. frame (s.child i)) at),
      ))
    ])
  ]

  pub stores-child : (pns : List ℕ) (s : Spaces) → (stores fresh pns s).child ≡ s.child
  unfolding stores
  stores-child [] s = refl
  stores-child (pn ∷ pns) s = stores-child pns (store_page fresh pn s) ∙ store-child pn s

  pub stores-present :
      (pns : List ℕ) (q : ℕ) (s : Spaces)
      → q ≢ pftemp
      → present (s.parent q) ≡ true
      → present ((stores fresh pns s).parent q) ≡ true
  unfolding stores
  stores-present [] q s other h = h
  stores-present (pn ∷ pns) q s other h =
      stores-present pns q (store_page fresh pn s) other (store-present pn q s other h)

  pub stores-kept :
      (pns : List ℕ) (q : ℕ) (s : Spaces)
      → q ≢ pftemp
      → (writable (s.parent q) ≡ true) ⊎ (has q pns ≡ false)
      → (stores fresh pns s).parent q ≡ s.parent q
  unfolding stores
  stores-kept [] q s other why = refl
  stores-kept (pn ∷ pns) q s other (inl w) =
      let same = store-kept pn q s other (inl w) in
      stores-kept pns q (store_page fresh pn s) other (inl (ap writable same ∙ w)) ∙ same
  stores-kept (pn ∷ pns) q s other (inr out) =
      stores-kept pns q (store_page fresh pn s) other (inr (ground arith))
      ∙ store-kept pn q s other (inr (λ e. ground arith))

  pub stores-IsolatedAt :
      ((s : Spaces) (pn : ℕ) → fresh s pn * 4096 ≢ frame (s.child pn))
      → (pns : List ℕ) (q : ℕ) (s : Spaces) → IsolatedAt (s.parent q) (s.child q)
      → IsolatedAt ((stores fresh pns s).parent q) ((stores fresh pns s).child q)
  unfolding stores
  stores-IsolatedAt unmapped [] q s v = v
  stores-IsolatedAt unmapped (pn ∷ pns) q s v =
      stores-IsolatedAt unmapped pns q (store_page fresh pn s) (store-IsolatedAt unmapped pn q s v)
