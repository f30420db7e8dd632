-- ===== src/Pmap/Tables/Walked.antt =====
-- What a walk that may create tables has done, from an address space with none of the tables on.
use jos_operating_system.Prelude.{
  ℕ, ◌^◌, ◌<◌, ◌≤◌, ◌≡◌, ◌≢◌, refl, sym, ◌∙◌, true, false, some, List, [], ◌∷◌, arith, ◌==◌, ◌&&◌,
  has, Distinct, returns,
}
use jos_operating_system.Pmap.{Phys, alloc_zero}
use jos_operating_system.Pmap.FreeList.{IsFreeList}
use jos_operating_system.Pmap.Alloc.{page_alloc-some}
use jos_operating_system.Pmap.Walk.{
  Slot, slot, ptx, pdx, pdpe, pml4, pgdir_walk, pdpe_walk, pml4e_walk,
}
use jos_operating_system.Pmap.Tables.{
  Refers, HasTables, pdpe_walk-Refers, pml4e_walk-Refers, pml4e_walk-HasTables,
}
use jos_operating_system.Pmap.Tables.Create.{
  with_table, with_table-IsFreeList, with_table-Refers, with_table-word, with_table-empty,
  with_table-Refers-kept, with_table-pages,
}

-- Where an entry is missing the walk takes the first free page for the table and goes on in it.
module _ (npages : ℕ) (p : Phys) (d va t : ℕ) (xs : List ℕ) (v : IsFreeList p (t ∷ xs))
    (apart : (d == t) ≡ false) (inside : t < npages) (small : npages ≤ 2 ^ 32) where
  pgdir_walk-missing :
      p.word d (pdx va) ≡ 0
      → pgdir_walk npages (some d) va true p
        ≡ returns (some (slot t (ptx va)), with_table d (pdx va) t p)
  unfolding pgdir_walk
  pgdir_walk-missing e =
      let r = with_table-Refers npages p d (pdx va) t apart inside small in
      rw (e, page_alloc-some alloc_zero t p v.chain.0, r.table) refl

  pdpe_walk-missing :
      p.word d (pdpe va) ≡ 0
      → pdpe_walk npages (some d) va true p
        ≡ pgdir_walk npages (some t) va true (with_table d (pdpe va) t p)
  unfolding pdpe_walk
  pdpe_walk-missing e =
      let r = with_table-Refers npages p d (pdpe va) t apart inside small in
      rw (e, page_alloc-some alloc_zero t p v.chain.0, r.table) refl

  pml4e_walk-missing :
      (s : Slot) (q : Phys)
      → p.word d (pml4 va) ≡ 0
      → pdpe_walk npages (some t) va true (with_table d (pml4 va) t p) ≡ returns (some s, q)
      → pml4e_walk npages (some d) va true p ≡ returns (some s, q)
  unfolding pml4e_walk
  pml4e_walk-missing s q e h =
      let r = with_table-Refers npages p d (pml4 va) t apart inside small in
      rw (e, page_alloc-some alloc_zero t p v.chain.0, r.table, h) refl

entry_apart :
    (p : Phys) (d k a m : ℕ) → p.word d k ≡ 0 → p.word a m ≢ 0 → ((d == a) && (k == m)) ≡ false
entry_apart p d k a m e used = ground arith

-- What the walk has done: the tables are there, and no entry of a page in use is another unless it
-- was 0.
pub record Walked (npages : ℕ) (p : Phys) (root va t1 t2 t3 : ℕ) (free rest : List ℕ) : Type 0 where
  pub after : Phys
  pub found : pml4e_walk npages (some root) va true p ≡ returns (some (slot t3 (ptx va)), after)
  pub tables : HasTables npages after root va t1 t2 t3
  pub list : IsFreeList after rest
  pub kept : (a m : ℕ) → has a free ≡ false → p.word a m ≢ 0 → after.word a m ≡ p.word a m
  pub pages : (a : ℕ) → has a free ≡ false → after.pages a ≡ p.pages a
  pub apart : Distinct (root ∷ t1 ∷ t2 ∷ t3 ∷ rest)
  pub empty : has t3 free ≡ true → (m : ℕ) → after.word t3 m ≡ 0
  pub same : has t3 free ≡ false → after ≡ p

-- how many of the three tables the walk finds, and which free pages become the others
pub data Found (npages : ℕ) (p : Phys) (root va t1 t2 t3 : ℕ) : (free rest : List ℕ) → Type 0 where
  all_tables :
      (rest : List ℕ)
      → HasTables npages p root va t1 t2 t3
      → Distinct (root ∷ t1 ∷ t2 ∷ t3 ∷ rest)
      → Found npages p root va t1 t2 t3 rest rest
  two_tables :
      (rest : List ℕ)
      → Refers npages p root (pml4 va) t1
      → Refers npages p t1 (pdpe va) t2
      → p.word t2 (pdx va) ≡ 0
      → Distinct (root ∷ t1 ∷ t2 ∷ t3 ∷ rest)
      → Found npages p root va t1 t2 t3 (t3 ∷ rest) rest
  one_table :
      (rest : List ℕ)
      → Refers npages p root (pml4 va) t1
      → p.word t1 (pdpe va) ≡ 0
      → Distinct (root ∷ t1 ∷ t2 ∷ t3 ∷ rest)
      → Found npages p root va t1 t2 t3 (t2 ∷ t3 ∷ rest) rest
  no_tables :
      (rest : List ℕ)
      → p.word root (pml4 va) ≡ 0
      → Distinct (root ∷ t1 ∷ t2 ∷ t3 ∷ rest)
      → Found npages p root va t1 t2 t3 (t1 ∷ t2 ∷ t3 ∷ rest) rest

abbrev pub Inside : ℕ → List ℕ → Type 0
Inside npages [] = Unit
Inside npages (x ∷ xs) = (x < npages) × Inside npages xs

module _ (npages : ℕ) (small : npages ≤ 2 ^ 32) (root va t1 t2 t3 : ℕ) (rest : List ℕ)
    (apart : Distinct (root ∷ t1 ∷ t2 ∷ t3 ∷ rest)) where
  from_two :
      (p : Phys)
      → IsFreeList p (t3 ∷ rest)
      → t3 < npages
      → Refers npages p root (pml4 va) t1
      → Refers npages p t1 (pdpe va) t2
      → p.word t2 (pdx va) ≡ 0
      → Walked npages p root va t1 t2 t3 (t3 ∷ rest) rest
  from_two p v inside first second e =
      let last : (t2 == t3) ≡ false = ground arith in
      let keep = with_table-Refers-kept npages p t2 (pdx va) t3 last in
      record {
        after = with_table t2 (pdx va) t3 p;
        found =
            pml4e_walk-Refers npages p root va t1 true first
            ∙ pdpe_walk-Refers npages p t1 va t2 true second
            ∙ pgdir_walk-missing npages p t2 va t3 rest v last inside small e;
        tables = record {
          first = keep root (pml4 va) t1 (ground arith) (ground arith) first;
          second = keep t1 (pdpe va) t2 (ground arith) (ground arith) second;
          third = with_table-Refers npages p t2 (pdx va) t3 last inside small;
        };
        list = with_table-IsFreeList npages p t2 (pdx va) t3 rest v;
        kept = λ a m out used.
            with_table-word npages p t2 (pdx va) t3 last a m (ground arith)
              (entry_apart p t2 (pdx va) a m e used);
        pages = λ a out. with_table-pages npages p t2 (pdx va) t3 last a (ground arith);
        apart = apart;
        empty = λ among m. with_table-empty npages p t2 (pdx va) t3 last m;
        same = λ out. absurd (ground arith);
      }

  from_one :
      (p : Phys)
      → IsFreeList p (t2 ∷ t3 ∷ rest)
      → Inside npages (t2 ∷ t3 ∷ [])
      → Refers npages p root (pml4 va) t1
      → p.word t1 (pdpe va) ≡ 0
      → Walked npages p root va t1 t2 t3 (t2 ∷ t3 ∷ rest) rest
  from_one p v inside first e =
      let last : (t1 == t2) ≡ false = ground arith in
      let q = with_table t1 (pdpe va) t2 p in
      let first' =
        with_table-Refers-kept npages p t1 (pdpe va) t2 last root (pml4 va) t1 (ground arith)
          (ground arith) first in
      let second' = with_table-Refers npages p t1 (pdpe va) t2 last inside.0 small in
      let w =
        from_two q (with_table-IsFreeList npages p t1 (pdpe va) t2 (t3 ∷ rest) v) inside.1.0 first'
          second' (with_table-empty npages p t1 (pdpe va) t2 last (pdx va)) in
      record {
        after = w.after;
        found =
            pml4e_walk-Refers npages p root va t1 true first
            ∙ pdpe_walk-missing npages p t1 va t2 (t3 ∷ rest) v last inside.0 small e
            ∙ sym (pdpe_walk-Refers npages q t1 va t2 true second')
            ∙ sym (pml4e_walk-Refers npages q root va t1 true first')
            ∙ w.found;
        tables = w.tables;
        list = w.list;
        kept = λ a m out used.
            let same =
              with_table-word npages p t1 (pdpe va) t2 last a m (ground arith)
                (entry_apart p t1 (pdpe va) a m e used) in
            w.kept a m (ground arith) (rw same used) ∙ same;
        pages = λ a out.
            w.pages a (ground arith)
            ∙ with_table-pages npages p t1 (pdpe va) t2 last a (ground arith);
        apart = apart;
        empty = λ among m. w.empty (ground arith) m;
        same = λ out. absurd (ground arith);
      }

  from_none :
      (p : Phys)
      → IsFreeList p (t1 ∷ t2 ∷ t3 ∷ rest)
      → Inside npages (t1 ∷ t2 ∷ t3 ∷ [])
      → p.word root (pml4 va) ≡ 0
      → Walked npages p root va t1 t2 t3 (t1 ∷ t2 ∷ t3 ∷ rest) rest
  from_none p v inside e =
      let last : (root == t1) ≡ false = ground arith in
      let q = with_table root (pml4 va) t1 p in
      let first' = with_table-Refers npages p root (pml4 va) t1 last inside.0 small in
      let w =
        from_one q (with_table-IsFreeList npages p root (pml4 va) t1 (t2 ∷ t3 ∷ rest) v) inside.1
          first' (with_table-empty npages p root (pml4 va) t1 last (pdpe va)) in
      record {
        after = w.after;
        found =
            pml4e_walk-missing npages p root va t1 (t2 ∷ t3 ∷ rest) v last inside.0 small
              (slot t3 (ptx va)) w.after e
              (sym (pml4e_walk-Refers npages q root va t1 true first') ∙ w.found);
        tables = w.tables;
        list = w.list;
        kept = λ a m out used.
            let same =
              with_table-word npages p root (pml4 va) t1 last a m (ground arith)
                (entry_apart p root (pml4 va) a m e used) in
            w.kept a m (ground arith) (rw same used) ∙ same;
        pages = λ a out.
            w.pages a (ground arith)
            ∙ with_table-pages npages p root (pml4 va) t1 last a (ground arith);
        apart = apart;
        empty = λ among m. w.empty (ground arith) m;
        same = λ out. absurd (ground arith);
      }

-- On a machine of at most 2 ^ 32 pages a walk that may create tables, with free pages for those that are
-- missing, returns the entry of `va`, in the tables that it found or in the free pages. The tables are then
-- in place, so that a second walk finds them, the other free pages are still free, and no entry in use
-- of a page that was not free has changed, nor has the `struct PageInfo` of such a page.
pub pml4e_walk-Walked :
    (npages : ℕ) (p : Phys) (root va t1 t2 t3 : ℕ) (free rest : List ℕ)
    → npages ≤ 2 ^ 32
    → IsFreeList p free
    → Inside npages free
    → Found npages p root va t1 t2 t3 free rest
    → Walked npages p root va t1 t2 t3 free rest
pml4e_walk-Walked npages p root va t1 t2 t3 free rest small v inside
      (all_tables free' tables apart) =
    record {
      after = p;
      found = pml4e_walk-HasTables npages p root va t1 t2 t3 true tables;
      tables = tables;
      list = v;
      kept = λ a m out used. refl;
      pages = λ a out. refl;
      apart = apart;
      empty = λ among. absurd (cc (sym among ∙ apart.1.1.1.0));
      same = λ out. refl;
    }
pml4e_walk-Walked npages p root va t1 t2 t3 free rest small v inside
      (two_tables free' first second e apart) =
    from_two npages small root va t1 t2 t3 rest apart p v inside.0 first second e
pml4e_walk-Walked npages p root va t1 t2 t3 free rest small v inside
      (one_table free' first e apart) =
    from_one npages small root va t1 t2 t3 rest apart p v (inside.0, (inside.1.0, tt)) first e
pml4e_walk-Walked npages p root va t1 t2 t3 free rest small v inside (no_tables free' e apart) =
    from_none npages small root va t1 t2 t3 rest apart p v
      (inside.0, (inside.1.0, (inside.1.1.0, tt))) e

pub Found-rest :
    {npages : ℕ} {p : Phys} {root va t1 t2 t3 : ℕ} {free rest : List ℕ} (a : ℕ)
    → Found npages p root va t1 t2 t3 free rest
    → has a free ≡ false
    → has a rest ≡ false
Found-rest a (all_tables rest tables apart) out = out
Found-rest a (two_tables rest first second e apart) out = ground arith
Found-rest a (one_table rest first e apart) out = ground arith
Found-rest a (no_tables rest e apart) out = ground arith
