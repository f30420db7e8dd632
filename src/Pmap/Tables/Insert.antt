-- ===== src/Pmap/Tables/Insert.antt =====
-- `page_insert`, `page_lookup` and `page_remove` of kern/pmap.c at one address.
use jos_operating_system.Prelude.{
  ℕ, ◌+◌, ◌*◌, ◌/◌, ◌%◌, ◌<◌, ◌≡◌, inl, inr, refl, ap, ◌∙◌, true, false, none, some, List, [], ◌∷◌,
  arith, ◌==◌, has, Distinct, returns, bit_or, Bool-cases,
}
use jos_operating_system.Prelude.Bits.{bit_or_shifted, bit_or-one, bit_and-two_pow}
use jos_operating_system.Pmap.{PageInfo, Phys, ref_up}
use jos_operating_system.Pmap.FreeList.{IsFreeList}
use jos_operating_system.Pmap.Alloc.{set_ref-IsFreeList}
use jos_operating_system.Pmap.Walk.{
  Slot, slot, pte_p, ptx, pdx, pdpe, pml4, load, page2pa, pa2page, pml4e_walk,
}
use jos_operating_system.Pmap.Map.{present, page_lookup, page_insert, set_entry, add_entry}
use jos_operating_system.Pmap.Tables.{HasTables, pml4e_walk-HasTables}
use jos_operating_system.Pmap.Tables.Walked.{Walked}

-- the entry that `page_insert` writes, as a number
entry_bits :
    (i perm : ℕ)
    → perm < 4096
    → bit_or (page2pa i) (bit_or perm pte_p) ≡ i * 4096 + (perm / 2 * 2 + 1)
entry_bits i perm low = rw (bit_or-one perm) (bit_or_shifted 12 i (perm / 2 * 2 + 1) (omega arith))

entry-present : (i perm : ℕ) → perm < 4096 → present (bit_or (page2pa i) (bit_or perm pte_p)) ≡ true
entry-present i perm low =
    let e = entry_bits i perm low in
    let w = bit_and-two_pow 0 (i * 4096 + (perm / 2 * 2 + 1)) in
    let odd : (i * 4096 + (perm / 2 * 2 + 1)) % 2 ≡ 1 = omega arith in rw (e, w, odd) refl

entry-page :
    (npages i perm : ℕ)
    → i < npages
    → perm < 4096
    → pa2page npages (bit_or (page2pa i) (bit_or perm pte_p)) ≡ returns i
unfolding pa2page
entry-page npages i perm inside low =
    let e = entry_bits i perm low in
    let back : (i * 4096 + (perm / 2 * 2 + 1)) / 4096 ≡ i = omega arith in
    rw (e, back) (ground arith)

-- Entries of the last table are no part of the way to it.
pub HasTables-word :
    (npages : ℕ) (p q : Phys) (root va t1 t2 t3 : ℕ)
    → ((a m : ℕ) → (t3 == a) ≡ false → q.word a m ≡ p.word a m)
    → Distinct (root ∷ t1 ∷ t2 ∷ t3 ∷ [])
    → HasTables npages p root va t1 t2 t3
    → HasTables npages q root va t1 t2 t3
HasTables-word npages p q root va t1 t2 t3 same apart v =
    let e1 = same root (pml4 va) (ground arith) in
    let e2 = same t1 (pdpe va) (ground arith) in
    let e3 = same t2 (pdx va) (ground arith) in
    record {
      first = record { entry = rw e1 v.first.entry; table = rw e1 v.first.table };
      second = record { entry = rw e2 v.second.entry; table = rw e2 v.second.table };
      third = record { entry = rw e3 v.third.entry; table = rw e3 v.third.table };
    }

-- The entry of `va` maps page `i`.
pub record Maps (npages : ℕ) (p : Phys) (root va t1 t2 t3 i : ℕ) : Type 0 where
  pub tables : HasTables npages p root va t1 t2 t3
  pub present : present (p.word t3 (ptx va)) ≡ true
  pub page : pa2page npages (p.word t3 (ptx va)) ≡ returns i

-- the entry of `va` maps nothing
pub record MapsNone (npages : ℕ) (p : Phys) (root va t1 t2 t3 : ℕ) : Type 0 where
  pub tables : HasTables npages p root va t1 t2 t3
  pub absent : present (p.word t3 (ptx va)) ≡ false

pub page_lookup-Maps :
    (npages : ℕ) (p : Phys) (root va t1 t2 t3 i : ℕ)
    → Maps npages p root va t1 t2 t3 i
    → page_lookup npages (some root) va p ≡ returns (some (i, slot t3 (ptx va)), p)
unfolding page_lookup
page_lookup-Maps npages p root va t1 t2 t3 i v =
    rw (pml4e_walk-HasTables npages p root va t1 t2 t3 true v.tables, v.present, v.page) refl

pub page_lookup-MapsNone :
    (npages : ℕ) (p : Phys) (root va t1 t2 t3 : ℕ)
    → MapsNone npages p root va t1 t2 t3
    → page_lookup npages (some root) va p ≡ returns (none, p)
unfolding page_lookup
page_lookup-MapsNone npages p root va t1 t2 t3 v =
    rw (pml4e_walk-HasTables npages p root va t1 t2 t3 true v.tables, v.absent) refl

module _ (npages : ℕ) (p : Phys) (root va t1 t2 t3 i perm : ℕ)
    (apart : Distinct (root ∷ t1 ∷ t2 ∷ t3 ∷ [])) (inside : i < npages) (low : perm < 4096)
    (tables : HasTables npages p root va t1 t2 t3) where
  pub set_entry-Maps :
      Maps npages (set_entry npages (slot t3 (ptx va)) i (bit_or perm pte_p) p) root va t1 t2 t3 i
  set_entry-Maps =
      let q = set_entry npages (slot t3 (ptx va)) i (bit_or perm pte_p) p in
      let written : q.word t3 (ptx va) ≡ bit_or (page2pa i) (bit_or perm pte_p) = ground arith in
      record {
        tables = HasTables-word npages p q root va t1 t2 t3 (λ a m h. ground arith) apart tables;
        present = rw written (entry-present i perm low);
        page = rw written (entry-page npages i perm inside low);
      }

  add_entry-Maps :
      Maps npages (add_entry npages (slot t3 (ptx va)) i (bit_or perm pte_p) p) root va t1 t2 t3 i
  add_entry-Maps =
      let v = set_entry-Maps in
      let q = add_entry npages (slot t3 (ptx va)) i (bit_or perm pte_p) p in
      record {
        tables = HasTables-word npages p q root va t1 t2 t3 (λ a m h. ground arith) apart tables;
        present = v.present;
        page = v.page;
      }

-- where the walk finds an entry that maps nothing
page_insert-absent :
    (npages : ℕ) (p q : Phys) (root va i perm : ℕ) (s : Slot)
    → pml4e_walk npages (some root) va true p ≡ returns (some s, q)
    → present (load q s) ≡ false
    → page_insert npages (some root) (some i) va perm p
      ≡ returns (true, add_entry npages s i (bit_or perm pte_p) q)
unfolding page_insert
page_insert-absent npages p q root va i perm s e absent = rw (e, absent) refl

-- What `page_insert` of page `i` at `va` has done.
pub record Inserted (npages : ℕ) (p : Phys) (root va t1 t2 t3 i perm : ℕ) (rest : List ℕ)
    : Type 0 where
  pub after : Phys
  pub returned : page_insert npages (some root) (some i) va perm p ≡ returns (true, after)
  pub maps : Maps npages after root va t1 t2 t3 i
  pub count : (after.pages i).pp_ref ≡ ref_up (p.pages i).pp_ref
  pub list : IsFreeList after rest

abbrev pub Unmapped : Phys → ℕ → ℕ → List ℕ → Type 0
Unmapped p va t3 free = has t3 free ≡ false → present (p.word t3 (ptx va)) ≡ false

pub page_insert-Walked :
    (npages : ℕ) (p : Phys) (root va t1 t2 t3 i perm : ℕ) (free rest : List ℕ)
    → i < npages
    → perm < 4096
    → has i free ≡ false
    → has i rest ≡ false
    → (p.pages i).pp_link ≡ none
    → Unmapped p va t3 free
    → Walked npages p root va t1 t2 t3 free rest
    → Inserted npages p root va t1 t2 t3 i perm rest
page_insert-Walked npages p root va t1 t2 t3 i perm free rest inside low out out' plain unmapped w =
    let absent : present (w.after.word t3 (ptx va)) ≡ false = elim (Bool-cases (has t3 free)) [
      | inl e ↦ rw (w.empty e (ptx va)) refl
      | inr e ↦ rw (w.same e) (unmapped e)
    ] in
    let info = w.pages i out in
    let free' =
      set_ref-IsFreeList i (ref_up (w.after.pages i).pp_ref) rest w.list out'
        (ap (λ (b : PageInfo). b.pp_link) info ∙ plain) in
    record {
      after = add_entry npages (slot t3 (ptx va)) i (bit_or perm pte_p) w.after;
      returned =
          page_insert-absent npages p w.after root va i perm (slot t3 (ptx va)) w.found absent;
      maps =
          add_entry-Maps npages w.after root va t1 t2 t3 i perm (ground arith) inside low w.tables;
      count = ground (arith, info);
      list = record {
        chain = free'.chain;
        distinct = free'.distinct;
        unreferenced = free'.unreferenced;
        unlinked = free'.unlinked;
      };
    }
