-- ===== src/Fs/Serv/Renewed.antt =====
-- The identifiers that `openfile_alloc` returns.
use jos_operating_system.Prelude.{
  ℕ, ◌%◌, ◌^◌, ◌<◌, ◌≡◌, refl, sym, ◌∙◌, ap, true, false, Option, none, some, arith, ◌==◌, ◌!=◌,
  ltb, ◌||◌, if◌then◌else◌, update, Bool-cases, inl, inr,
}
use mathlib.Core.Path.{subst}
use native.Mathlib.Decide.{ℕ_discrete}
use jos_operating_system.Fs.Serv.{
  maxopen, Answer, result, error, negative, Server, next_fileid, take_entry, with_page, case_0,
  openfile_alloc, openfile_lookup,
}
use jos_operating_system.Fs.Serv.Table.{IsFirst, Searched, claimed, openfile_alloc_lem}
use jos_operating_system.Fs.Serv.Inv.{IsServer}

-- the server when the page of entry `i` has gone to a client, too
abbrev pub shared : ℕ → Server → Server
shared i s = record s { pageref = update s.pageref i 2 }

-- The identifier `n` of entry `i` is refused as long as no client has the page and then stands for
-- the entry, and the one that the entry had is refused.
abbrev pub IsRenewed : Server → Server → ℕ → ℕ → Type 0
IsRenewed s s' n i =
    (openfile_lookup n s' ≡ none)
    × (openfile_lookup n (shared i s') ≡ some i)
    × (openfile_lookup (s.opentab i).o_fileid (shared i s') ≡ none)

abbrev AllRenewed : Server → Answer × Option ℕ × Server → Type 0
AllRenewed s (result n, some i, s') = IsRenewed s s' n i
AllRenewed s (result n, none, s') = Unit
AllRenewed s (error e, o, s') = Unit
AllRenewed s (negative e, o, s') = Unit

lookup_at :
    (n i : ℕ) (s : Server)
    → n % maxopen ≡ i
    → openfile_lookup n s
      ≡ (if s.pageref i == 1 || (s.opentab i).o_fileid != n then none else some i)
unfolding openfile_lookup
lookup_at n i s place =
    ap (λ j. if s.pageref j == 1 || (s.opentab j).o_fileid != n then none else some j) place

take_entry-AllRenewed :
    (i : ℕ) (s t : Server)
    → (s.opentab i).o_fileid % maxopen ≡ i
    → (s.opentab i).o_fileid < 2 ^ 32
    → t.opentab ≡ s.opentab
    → t.pageref i ≡ 1
    → AllRenewed s (take_entry i t)
take_entry-AllRenewed i s t at small same own =
    let old = (s.opentab i).o_fileid in
    let n = next_fileid (t.opentab i) in
    let kept : (t.opentab i).o_fileid ≡ old = ap (λ f. (f i).o_fileid) same in
    let place : n % maxopen ≡ i = omega arith in
    let s' = (take_entry i t).2 in
    elim (Bool-cases (ltb n (2 ^ 31))) [
      | inr big ↦ rw big tt
      | inl fits ↦ rw fits (
        lookup_at n i s' place ∙ ground arith,
        lookup_at n i (shared i s') place ∙ ground arith,
        lookup_at old i (shared i s') at ∙ ground arith,
      )
    ]

claimed-AllRenewed :
    (alloc : ℕ → Option ℕ) (j : ℕ) (s : Server)
    → IsServer s
    → IsFirst s 0 j
    → AllRenewed s (claimed alloc j s)
unfolding case_0
claimed-AllRenewed alloc j s v first =
    let (at, small, bare) = v j first.inside in
    elim (ℕ_discrete (s.pageref j) 1) [
      | yes own ↦
          (let hit : (s.pageref j == 1) ≡ true = ground (arith, own) in
            rw hit (take_entry-AllRenewed j s s at small refl own))
      | no unmapped ↦
          (let miss : (s.pageref j == 1) ≡ false = ground arith in
            rw miss (with_new_page (alloc j) at small))
    ]
  where
    with_new_page :
        (o : Option ℕ)
        → (s.opentab j).o_fileid % maxopen ≡ j
        → (s.opentab j).o_fileid < 2 ^ 32
        → AllRenewed s (case_0 alloc j s o)
    with_new_page (some e) at small = tt
    with_new_page none at small =
        take_entry-AllRenewed j s (with_page j s) at small refl (ground arith)

-- While no client has the page of the entry that `openfile_alloc` took, the identifier that it
-- returned is refused. When a client has it, too, the identifier stands for that entry, and the one
-- that the entry had before is refused.
pub openfile_lookup-openfile_alloc :
    (alloc : ℕ → Option ℕ) (s s' : Server) (n i : ℕ)
    → IsServer s
    → openfile_alloc alloc s ≡ (result n, some i, s')
    → IsRenewed s s' n i
openfile_lookup-openfile_alloc alloc s s' n i v e =
    subst (AllRenewed s) e (from_search (openfile_alloc_lem s alloc))
  where
    from_search :
        Searched alloc s 0 (openfile_alloc alloc s) → AllRenewed s (openfile_alloc alloc s)
    from_search (inl (j, first, at)) =
        subst (AllRenewed s) (sym at) (claimed-AllRenewed alloc j s v first)
    from_search (inr (all, at)) = subst (AllRenewed s) (sym at) tt
