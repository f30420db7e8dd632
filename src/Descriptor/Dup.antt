-- ===== src/Descriptor/Dup.antt =====
-- `dup`: two descriptors that share a `struct Fd`.
use jos_operating_system.Prelude.{
  ℕ, ◌<◌, ◌≡◌, ◌≢◌, refl, sym, ◌∙◌, ap, Option, none, some, List, arith, leb, if◌then◌else◌, update,
  inl, inr, Option-cases, Bool-cases,
}
use jos_operating_system.Descriptor.{
  maxfd, count, err, e_inval, User, Dev, found_or, is_mapped, index2data, fd_lookup, close,
  map_page, dup_end, dup_fd, dup,
}
use jos_operating_system.Descriptor.Io.{seek}
use jos_operating_system.Descriptor.Alloc.{fd_lookup-close}

module _ {W : Type 0} where
  -- Both numbers stand for one `struct Fd`.
  abbrev pub Shares : ℕ → ℕ → User W → Type 0
  Shares i j u = (q : ℕ) × (fd_lookup i u ≡ some q) × (fd_lookup j u ≡ some q)

  map_page-Shares :
      (fails : ℕ → Option ℕ) (i j : ℕ) (u v : User W)
      → i < maxfd
      → j < maxfd
      → i ≢ j
      → map_page fails i j u ≡ (none, v)
      → Shares i j v
  unfolding fd_lookup
  map_page-Shares fails i j u v hi hj apart e = elim (Option-cases (u.mapped i)) [
    | inl missing ↦ absurd (ground (arith, missing))
    | inr (q, there) ↦ elim (Option-cases (fails j)) [
      | inr (x, bad) ↦ absurd (ground (arith, there, bad))
      | inl fine ↦ (q, ground (arith, there, fine), ground (arith, there, fine))
    ]
  ]

  -- the first mapping of `dup`, when the new number is closed
  abbrev pub first_page : (ℕ → Option ℕ) → ℕ → ℕ → User W → Option ℕ × User W
  first_page fails old new v =
      if is_mapped v (index2data old)
      then map_page fails (index2data old) (index2data new) v
      else (none, v)

  -- the two mappings of `dup`, when the new number is closed
  abbrev pub both_pages : (ℕ → Option ℕ) → List (Dev W) → ℕ → ℕ → User W → Option ℕ × User W
  both_pages fails devtab old new u =
      dup_fd fails old new (first_page fails old new (close devtab new u).1)

  dup_missing :
      (fails : ℕ → Option ℕ) (devtab : List (Dev W)) (old new : ℕ) (u : User W)
      → fd_lookup old u ≡ none
      → dup fails devtab old new u ≡ (err e_inval, u)
  unfolding dup
  dup_missing fails devtab old new u e =
      ap (λ o. found_or o (err e_inval, u) λ q. dup_end new (both_pages fails devtab old new u)) e

  dup_found :
      (fails : ℕ → Option ℕ) (devtab : List (Dev W)) (old new q : ℕ) (u : User W)
      → fd_lookup old u ≡ some q
      → dup fails devtab old new u ≡ dup_end new (both_pages fails devtab old new u)
  unfolding dup
  dup_found fails devtab old new q u e =
      ap (λ o. found_or o (err e_inval, u) λ q. dup_end new (both_pages fails devtab old new u)) e

  end_ok :
      (new n : ℕ) (r : Option ℕ × User W) (v : User W)
      → dup_end new r ≡ (count n, v)
      → r ≡ (none, v)
  unfolding dup_end
  end_ok new n (none, u) v e = ap (λ x. (none, x.1)) e
  end_ok new n (some x, u) v e = absurd (ground (arith, ap (λ r. r.0) e))

  fd_ok :
      (fails : ℕ → Option ℕ) (old new : ℕ) (r : Option ℕ × User W) (v : User W)
      → dup_fd fails old new r ≡ (none, v)
      → map_page fails old new r.1 ≡ (none, v)
  unfolding dup_fd
  fd_ok fails old new (none, u) v e = e
  fd_ok fails old new (some x, u) v e = absurd (ground (arith, ap (λ r. r.0) e))

  lookup_below : (i q : ℕ) (u : User W) → fd_lookup i u ≡ some q → i < maxfd
  unfolding fd_lookup
  lookup_below i q u e = elim (Bool-cases (leb maxfd i)) [
    | inl past ↦ absurd (ground (arith, past))
    | inr below ↦ ground arith
  ]

  lookup_mapped : (i : ℕ) (u : User W) → i < maxfd → fd_lookup i u ≡ none → u.mapped i ≡ none
  unfolding fd_lookup
  lookup_mapped i u h e = ground (arith, e)

  -- `dup` of a descriptor to another number below MAXFD, if it succeeds, leaves two numbers for one
  -- `struct Fd`.
  pub dup-Shares :
      (fails : ℕ → Option ℕ) (devtab : List (Dev W)) (old new n : ℕ) (u v : User W)
      → new < maxfd
      → old ≢ new
      → dup fails devtab old new u ≡ (count n, v)
      → Shares old new v
  dup-Shares fails devtab old new n u v hi apart e = elim (Option-cases (fd_lookup old u)) [
    | inl missing ↦
        absurd
          (ground (arith, ap (λ r. r.0) (sym (dup_missing fails devtab old new u missing) ∙ e)))
    | inr (q, found) ↦
        (let both =
            end_ok new n (both_pages fails devtab old new u) v
              (sym (dup_found fails devtab old new q u found) ∙ e) in
          map_page-Shares fails old new (first_page fails old new (close devtab new u).1).1 v
            (lookup_below old q u found) hi apart
            (fd_ok fails old new (first_page fails old new (close devtab new u).1) v both))
  ]

  -- A seek by one of two numbers that stand for one `struct Fd` moves the other's position, too.
  pub seek-Shares :
      (i j offset : ℕ) (u : User W)
      → Shares i j u
      → (v : User W) × (q : ℕ) × (seek i offset u ≡ (count 0, v))
        × (fd_lookup j v ≡ some q)
        × ((v.fd q).fd_offset ≡ offset)
  unfolding seek fd_lookup
  seek-Shares i j offset u (q, at, too) = (
    record u { fd = update u.fd q (record (u.fd q) { fd_offset = offset }) },
    q,
    ap
        (λ o.
          found_or o (err e_inval, u)
            λ q.
              (count 0, record u { fd = update u.fd q (record (u.fd q) { fd_offset = offset }) }))
        at,
    too,
    ground arith,
  )

  -- The descriptor's page is not mapped.
  map_page-none :
      (fails : ℕ → Option ℕ) (from to i : ℕ) (u : User W)
      → to ≢ i
      → u.mapped i ≡ none
      → (map_page fails from to u).1.mapped i ≡ none
  map_page-none fails from to i u apart e = elim (Option-cases (u.mapped from)) [
    | inl missing ↦ rw missing e
    | inr (q, there) ↦ elim (Option-cases (fails to)) [
      | inr (x, bad) ↦ rw (there, bad) e
      | inl fine ↦ rw (there, fine) (ground (arith, apart, e))
    ]
  ]

  itself :
      (fails : ℕ → Option ℕ) (i : ℕ) (r : Option ℕ × User W)
      → r.1.mapped i ≡ none
      → (e : ℕ) × ((dup_end i (dup_fd fails i i r)).0 ≡ err e)
        × (fd_lookup i (dup_end i (dup_fd fails i i r)).1 ≡ none)
  unfolding dup_end dup_fd fd_lookup
  itself fails i (some x, u) h = (x, refl, ground arith)
  itself fails i (none, u) h = (e_inval, rw h refl, rw h (ground arith))

  -- `dup` of a descriptor to its own number closes it and returns an error.
  pub dup_itself :
      (fails : ℕ → Option ℕ) (devtab : List (Dev W)) (i q : ℕ) (u : User W)
      → fd_lookup i u ≡ some q
      → (e : ℕ) × ((dup fails devtab i i u).0 ≡ err e)
        × (fd_lookup i (dup fails devtab i i u).1 ≡ none)
  dup_itself fails devtab i q u found =
      let v = (close devtab i u).1 in
      let gone : v.mapped i ≡ none =
        lookup_mapped i v (lookup_below i q u found) (fd_lookup-close devtab i u) in
      let (e, failed, missing) =
        itself fails i
          (if is_mapped v (index2data i)
            then map_page fails (index2data i) (index2data i) v
            else (none, v))
          (elim (Bool-cases (is_mapped v (index2data i))) [
            | inl data_page ↦
                rw data_page
                  (map_page-none fails (index2data i) (index2data i) i v (omega arith) gone)
            | inr no_data ↦ rw no_data gone
          ]) in
      (
        e,
        ap (λ r. r.0) (dup_found fails devtab i i q u found) ∙ failed,
        ap (λ r. fd_lookup i r.1) (dup_found fails devtab i i q u found) ∙ missing,
      )
