-- ===== src/Descriptor/Alloc.antt =====
-- Which descriptors are free, and that closing frees them.
use jos_operating_system.Prelude.{
  ℕ, zero, suc, ◌+◌, ◌<◌, ◌≤◌, ◌≡◌, ◌≢◌, sym, ◌∙◌, ap, true, Option, none, some, List, arith, inl,
  inr, Option-cases,
}
use mathlib.Core.Path.{subst}
use native.Mathlib.Decide.{ℕ_discrete}
use jos_operating_system.Descriptor.{
  maxfd, Ret, err, e_inval, User, Dev, found_or, fd_alloc_loop, fd_alloc, fd_lookup, fd_close,
  dev_lookup, close_dev, close, unmap,
}

module _ {W : Type 0} where
  -- what the search of `n` descriptors from `i` on comes to
  abbrev pub Searched : User W → ℕ → ℕ → Option ℕ → Type 0
  Searched u n i (some j) =
      (i ≤ j) × (j < i + n) × (u.mapped j ≡ none) × ((k : ℕ) → i ≤ k → k < j → u.mapped k ≢ none)
  Searched u n i none = (k : ℕ) → i ≤ k → k < i + n → u.mapped k ≢ none

  next_one :
      (u : User W) (n i : ℕ) (o : Option ℕ)
      → u.mapped i ≢ none
      → Searched u n (i + 1) o
      → Searched u (suc n) i o
  next_one u n i (some j) used (lo, hi, at, before) = (
    omega arith,
    omega arith,
    at,
    λ k l h. elim (ℕ_discrete k i) [
      | yes here ↦ λ e. used (ap u.mapped (sym here) ∙ e)
      | no past ↦ before k (omega arith) h
    ],
  )
  next_one u n i none used all = λ k l h. elim (ℕ_discrete k i) [
    | yes here ↦ λ e. used (ap u.mapped (sym here) ∙ e)
    | no past ↦ all k (omega arith) (omega arith)
  ]

  this_one : (n i : ℕ) (u : User W) → u.mapped i ≡ none → fd_alloc_loop (suc n) i u ≡ some i
  unfolding fd_alloc_loop
  this_one n i u e = ground (arith, e)

  not_this_one :
      (n i q : ℕ) (u : User W)
      → u.mapped i ≡ some q
      → fd_alloc_loop (suc n) i u ≡ fd_alloc_loop n (i + 1) u
  unfolding fd_alloc_loop
  not_this_one n i q u e = ground (arith, e)

  alloc_loop_lem : (n i : ℕ) (u : User W) → Searched u n i (fd_alloc_loop n i u)
  unfolding fd_alloc_loop
  alloc_loop_lem zero i u = λ k l h. absurd (omega arith)
  alloc_loop_lem (suc n) i u = elim (Option-cases (u.mapped i)) [
    | inl unused ↦
        subst (Searched u (suc n) i) (sym (this_one n i u unused))
          (omega arith, omega arith, unused, λ k l h. absurd (omega arith))
    | inr (q, used) ↦ subst (Searched u (suc n) i) (sym (not_this_one n i q u used)) (
        next_one u n i (fd_alloc_loop n (i + 1) u) (λ e. absurd (ground (arith, used, e)))
          (alloc_loop_lem n (i + 1) u))
  ]

  -- `fd_alloc` finds the smallest descriptor whose Fd page is not mapped, and returns -E_MAX_OPEN only
  -- if the Fd pages of all are.
  pub fd_alloc_lem : (u : User W) → Searched u maxfd 0 (fd_alloc u)
  unfolding fd_alloc
  fd_alloc_lem u = alloc_loop_lem maxfd 0 u

  fd_lookup-unmap : (i : ℕ) (u : User W) → fd_lookup i (unmap i u) ≡ none
  unfolding fd_lookup
  fd_lookup-unmap i u = ground arith

  close_missing :
      (devtab : List (Dev W)) (fdnum : ℕ) (u : User W)
      → fd_lookup fdnum u ≡ none
      → (close devtab fdnum u).1 ≡ u
  unfolding close
  close_missing devtab fdnum u e =
      ap (λ o. (found_or o (err e_inval, u) λ q. fd_close devtab fdnum true u).1) e

  close_found :
      (devtab : List (Dev W)) (fdnum q : ℕ) (u : User W)
      → fd_lookup fdnum u ≡ some q
      → (close devtab fdnum u).1
        ≡ unmap fdnum (close_dev fdnum (dev_lookup devtab (u.fd q).fd_dev_id) u).1
  unfolding close fd_close
  close_found devtab fdnum q u e =
      ap (λ o. (found_or o (err e_inval, u) λ q. fd_close devtab fdnum true u).1) e
      ∙ ap
          (λ o.
            (found_or {A = Ret × User W} o (err e_inval, u)
              λ p.
                let r = close_dev fdnum (dev_lookup devtab (u.fd p).fd_dev_id) u in
                (r.0, unmap fdnum r.1)).1)
          e

  -- Whatever the device does, a descriptor is not found after it has been closed.
  pub fd_lookup-close :
      (devtab : List (Dev W)) (fdnum : ℕ) (u : User W)
      → fd_lookup fdnum (close devtab fdnum u).1 ≡ none
  fd_lookup-close devtab fdnum u = elim (Option-cases (fd_lookup fdnum u)) [
    | inl missing ↦ ap (fd_lookup fdnum) (close_missing devtab fdnum u missing) ∙ missing
    | inr (q, found) ↦
        ap (fd_lookup fdnum) (close_found devtab fdnum q u found)
        ∙ fd_lookup-unmap fdnum (close_dev fdnum (dev_lookup devtab (u.fd q).fd_dev_id) u).1
  ]
