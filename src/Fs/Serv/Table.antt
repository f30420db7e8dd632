-- ===== src/Fs/Serv/Table.antt =====
-- The entries that `openfile_alloc` hands out, and the identifiers that `openfile_lookup` takes.
use jos_operating_system.Prelude.{
  ℕ, zero, suc, ◌+◌, ◌%◌, ◌^◌, ◌<◌, ◌≤◌, ◌≡◌, ◌⊎◌, refl, sym, Option, none, arith, ◌==◌,
  if◌then◌else◌, inl, inr,
}
use mathlib.Core.Path.{subst}
use native.Mathlib.Decide.{dec_lt, ℕ_discrete}
use jos_operating_system.Fs.File.{max_open}
use jos_operating_system.Fs.Serv.{
  maxopen, Answer, error, Server, take_entry, case_0, openfile_alloc_loop, openfile_alloc,
}

-- An entry keeps its place in the identifiers that it gets.
abbrev pub Numbered : Server → Type 0
Numbered s =
    (i : ℕ)
    → i < maxopen
    → ((s.opentab i).o_fileid % maxopen ≡ i) × ((s.opentab i).o_fileid < 2 ^ 32)

-- Entry `i` is the first from `from` on that no client has open.
pub record IsFirst (s : Server) (from i : ℕ) : Type 0 where
  pub after : from ≤ i
  pub inside : i < maxopen
  pub idle : s.pageref i < 2
  pub first : (j : ℕ) → from ≤ j → j < i → 2 ≤ s.pageref j

-- The call hands out entry `i`, with a page for it if it has none, or returns what sys_page_alloc did.
abbrev pub claimed : (ℕ → Option ℕ) → ℕ → Server → Answer × Option ℕ × Server
claimed alloc i s = if s.pageref i == 1 then take_entry i s else case_0 alloc i s (alloc i)

-- the two results of the search from entry `i` on
abbrev pub Searched : (ℕ → Option ℕ) → Server → ℕ → Answer × Option ℕ × Server → Type 0
Searched alloc s i r =
    ((j : ℕ) × IsFirst s i j × (r ≡ claimed alloc j s))
    ⊎ (((j : ℕ) → i ≤ j → j < maxopen → 2 ≤ s.pageref j) × (r ≡ (error max_open, none, s)))

this_entry :
    (n i : ℕ) (s : Server) (alloc : ℕ → Option ℕ)
    → s.pageref i < 2
    → openfile_alloc_loop alloc (suc n) i s ≡ claimed alloc i s
unfolding openfile_alloc_loop case_0
this_entry n i s alloc idle = ground arith

next_entry :
    (n i : ℕ) (s : Server) (alloc : ℕ → Option ℕ)
    → 2 ≤ s.pageref i
    → openfile_alloc_loop alloc (suc n) i s ≡ openfile_alloc_loop alloc n (i + 1) s
unfolding openfile_alloc_loop
next_entry n i s alloc shared = ground arith

from_next :
    (i : ℕ) (s : Server) (alloc : ℕ → Option ℕ) (r : Answer × Option ℕ × Server)
    → 2 ≤ s.pageref i
    → Searched alloc s (i + 1) r
    → Searched alloc s i r
from_next i s alloc r shared (inl (j, v, e)) = inl (
  j,
  record {
    after = omega (arith, v.after);
    inside = v.inside;
    idle = v.idle;
    first = λ k lo hi. elim (ℕ_discrete k i) [
      | yes here ↦ ground (arith, here, shared)
      | no past ↦ v.first k (omega arith) hi
    ];
  },
  e,
)
from_next i s alloc r shared (inr (all, e)) = inr (
  λ k lo hi. elim (ℕ_discrete k i) [
    | yes here ↦ ground (arith, here, shared)
    | no past ↦ all k (omega arith) hi
  ],
  e,
)

alloc_loop_lem :
    (n i : ℕ) (s : Server) (alloc : ℕ → Option ℕ)
    → i + n ≡ maxopen
    → Searched alloc s i (openfile_alloc_loop alloc n i s)
unfolding openfile_alloc_loop
alloc_loop_lem zero i s alloc e = inr (λ j lo hi. absurd (omega arith), refl)
alloc_loop_lem (suc n) i s alloc e = elim (dec_lt (s.pageref i) 2) [
  | yes idle ↦ inl (
    i,
    record {
      after = omega arith;
      inside = omega arith;
      idle = idle;
      first = λ j lo hi. absurd (omega arith);
    },
    this_entry n i s alloc idle,
  )
  | no shared ↦ from_next i s alloc (openfile_alloc_loop alloc (suc n) i s) (omega arith) (
      subst (Searched alloc s (i + 1)) (sym (next_entry n i s alloc (omega arith)))
        (alloc_loop_lem n (i + 1) s alloc (omega arith)))
]

-- `openfile_alloc` returns -E_MAX_OPEN and changes nothing when clients have all entries open. If
-- not, it takes the first entry that none has open, or returns the error of sys_page_alloc for it.
pub openfile_alloc_lem :
    (s : Server) (alloc : ℕ → Option ℕ) → Searched alloc s 0 (openfile_alloc alloc s)
unfolding openfile_alloc
openfile_alloc_lem s alloc = alloc_loop_lem maxopen 0 s alloc refl
