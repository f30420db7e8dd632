-- ===== src/Fork/Isolated.antt =====
-- After `fork` of lib/fork.c the child can write no page that the parent has, and the parent none that the
-- child has, but for those that are marked as shared.
use jos_operating_system.Prelude.{
  ℕ, ◌≡◌, ◌≢◌, refl, sym, ap, ◌∙◌, Bool, true, false, ◌!=◌, ◌||◌, update, arith, Bool-cases, inl,
  inr, ◌⊎◌, bit_and, bit_or,
}
use native.Mathlib.Decide.{ℕ_discrete}
use jos_operating_system.Prelude.Bits.{all_but}
use jos_operating_system.Syscall.Page.{pte_syscall}
use jos_operating_system.Fork.{
  Spaces, Parent, frame, pte_cow, writable, stores, duppage, map_to_child, map_to_self,
}
use jos_operating_system.Fork.Entry.{
  shared, IsolatedAt, Isolated, writable-entry, shared-entry, writable-syscall, writable-cow,
}
use jos_operating_system.Fork.Stores.{Unmapped, stores-child, stores-IsolatedAt}

abbrev pub never : Bool → ℕ → Bool
never own pn = false

-- the three branches of `duppage`
module _ (pn : ℕ) (s : Spaces) where
  abbrev pub perm : ℕ
  perm = bit_and (s.parent pn) pte_syscall

  abbrev pub cow : ℕ
  cow = bit_and (bit_or perm pte_cow) (all_but 32 1)

module _ (w : Parent) (pn : ℕ) (s : Spaces) where
  pub duppage-given :
      (shared (perm pn s) ≡ true)
        ⊎ ((writable (perm pn s) ≡ false) × ((bit_and (perm pn s) pte_cow != 0) ≡ false))
      → duppage never w pn s ≡ map_to_child never pn (perm pn s) s
  unfolding duppage
  duppage-given (inl e) = rw e refl
  duppage-given (inr (e, f)) = elim (Bool-cases (shared (perm pn s))) [
    | inl g ↦ rw g refl
    | inr g ↦ rw (g, e, f) refl
  ]

  pub duppage-cow :
      shared (perm pn s) ≡ false
      → (writable (perm pn s) || (bit_and (perm pn s) pte_cow != 0)) ≡ true
      → duppage never w pn s
        ≡ map_to_self never pn
            (cow pn s)
            (stores w.fresh (w.between pn) (map_to_child never pn (cow pn s) s))
  unfolding duppage
  duppage-cow e f = rw (e, f) refl

update_cases :
    (f : ℕ → ℕ) (i v q : ℕ) → ((q ≡ i) × (update f i v q ≡ v)) ⊎ ((i ≢ q) × (update f i v q ≡ f q))
update_cases f i v q = elim (ℕ_discrete q i) [
  | yes e ↦ inl (e, ground arith)
  | no other ↦ inr ((λ e. other (sym e)), ground arith)
]

pub same_elsewhere : (f : ℕ → ℕ) (i v q : ℕ) → i ≢ q → update f i v q ≡ f q
same_elsewhere f i v q other = ground arith

-- the entry that `duppage` gives to both sides of a page that is to be copied on a write
cow-plain : (pn : ℕ) (s : Spaces) (e : ℕ) → writable (bit_or (frame e) (cow pn s)) ≡ false
cow-plain pn s e = writable-entry e (cow pn s) ∙ writable-cow (bit_or (perm pn s) pte_cow)

plain-IsolatedAt :
    (mine its : ℕ) → writable mine ≡ false → writable its ≡ false → IsolatedAt mine its
plain-IsolatedAt mine its a b = λ h. (b, λ used wr. absurd (cc (sym a ∙ wr)))

module _ (w : Parent) (unmapped : Unmapped w) (pn : ℕ) (s : Spaces) (v : Isolated s) where
  set_child :
      (c : ℕ)
      → IsolatedAt (s.parent pn) c
      → (q : ℕ) → IsolatedAt (s.parent q) (update s.child pn c q)
  set_child c h q = elim (update_cases s.child pn c q) [
    | inl (e, u) ↦ rw (u, e) h
    | inr (other, u) ↦ rw u (v q)
  ]

  -- the parent's entry is written from what the stores behind the child's mapping have left
  mapped : Spaces
  mapped = stores w.fresh (w.between pn) (map_to_child never pn (cow pn s) s)

  mapped-child : mapped.child ≡ update s.child pn (bit_or (frame (s.parent pn)) (cow pn s))
  unfolding mapped
  mapped-child = stores-child w.fresh (w.between pn) (map_to_child never pn (cow pn s) s)

  set_both : Isolated (map_to_self never pn (cow pn s) mapped)
  unfolding mapped
  set_both q = elim (ℕ_discrete q pn) [
    | yes e ↦
        (let mine : (map_to_self never pn (cow pn s) mapped).parent q
              ≡ bit_or (frame (mapped.parent pn)) (cow pn s) =
            ground (arith, e) in
          let its : mapped.child q ≡ bit_or (frame (s.parent pn)) (cow pn s) =
            ap (λ f. f q) mapped-child ∙ ground (arith, e) in
          plain-IsolatedAt _ _ (ap writable mine ∙ cow-plain pn s (mapped.parent pn))
            (ap writable its ∙ cow-plain pn s (s.parent pn)))
    | no other ↦
        (let mine =
            same_elsewhere mapped.parent pn (bit_or (frame (mapped.parent pn)) (cow pn s)) q
              (λ e. other (sym e)) in
          let its =
            same_elsewhere s.child pn (bit_or (frame (s.parent pn)) (cow pn s)) q
              (λ e. other (sym e)) in
          rw mine (
            stores-IsolatedAt w.fresh unmapped (w.between pn) q (map_to_child never pn (cow pn s) s)
              (rw its (v q))))
  ]

  pub duppage-Isolated : Isolated (duppage never w pn s)
  unfolding mapped
  duppage-Isolated = elim (Bool-cases (shared (perm pn s))) [
    | inl e ↦ rw (duppage-given w pn s (inl e)) (
        set_child (bit_or (frame (s.parent pn)) (perm pn s))
          (λ h. absurd (cc (sym (shared-entry (s.parent pn) (perm pn s) ∙ e) ∙ h))))
    | inr e ↦ elim (Bool-cases (writable (perm pn s) || (bit_and (perm pn s) pte_cow != 0))) [
      | inl f ↦ rw (duppage-cow w pn s e f) set_both
      | inr f ↦
          (let g : writable (perm pn s) ≡ false = ground arith in
            let k : (bit_and (perm pn s) pte_cow != 0) ≡ false = ground arith in
            rw (duppage-given w pn s (inr (g, k))) (
              set_child (bit_or (frame (s.parent pn)) (perm pn s)) (
                plain-IsolatedAt _ _ (sym (writable-syscall (s.parent pn)) ∙ g)
                  (writable-entry (s.parent pn) (perm pn s) ∙ g))))
    ]
  ]
