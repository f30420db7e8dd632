-- ===== src/Pmap/Tables/Mapped.antt =====
-- `page_insert`, `page_lookup` and `page_remove` of kern/pmap.c one after another.
use jos_operating_system.Prelude.{
  ℕ, ◌-◌, ◌^◌, ◌<◌, ◌≤◌, ◌≡◌, refl, ap, true, false, none, some, List, [], ◌∷◌, arith, ◌==◌,
  if◌then◌else◌, has, Distinct, returns,
}
use jos_operating_system.Pmap.{Phys, page_decref, ref_up}
use jos_operating_system.Pmap.FreeList.{IsFreeList}
use jos_operating_system.Pmap.Alloc.{page_decref_lem}
use jos_operating_system.Pmap.Walk.{slot, ptx, store}
use jos_operating_system.Pmap.Map.{page_lookup, page_remove, page_insert}
use jos_operating_system.Pmap.Tables.Walked.{Found, Found-rest, Inside, pml4e_walk-Walked}
use jos_operating_system.Pmap.Tables.Insert.{
  HasTables-word, Maps, MapsNone, page_lookup-Maps, page_lookup-MapsNone, Unmapped,
  page_insert-Walked,
}

-- What `page_insert` of page `i` at `va`, and then `page_lookup`, have done.
pub record InsertedAndFound (npages : ℕ) (p : Phys) (root va t1 t2 t3 i perm : ℕ) (rest : List ℕ)
    : Type 0 where
  pub after : Phys
  pub returned : page_insert npages (some root) (some i) va perm p ≡ returns (true, after)
  pub lookup : page_lookup npages (some root) va after ≡ returns (some (i, slot t3 (ptx va)), after)
  pub count : (after.pages i).pp_ref ≡ ref_up (p.pages i).pp_ref
  pub list : IsFreeList after rest

-- On a machine of at most 2 ^ 32 pages, where free pages are left for the tables that are missing and
-- nothing is mapped at `va`, `page_insert` of a page that is not free and has no link succeeds, with flags
-- below 4096: `page_lookup` at `va` then gives that page and its entry without taking a page itself, the
-- page has one reference more, on 16 bits, and the free pages that did not become tables are still free.
pub page_lookup-page_insert :
    (npages : ℕ) (p : Phys) (root va t1 t2 t3 i perm : ℕ) (free rest : List ℕ)
    → npages ≤ 2 ^ 32
    → i < npages
    → perm < 4096
    → IsFreeList p free
    → Inside npages free
    → has i free ≡ false
    → (p.pages i).pp_link ≡ none
    → Found npages p root va t1 t2 t3 free rest
    → Unmapped p va t3 free
    → InsertedAndFound npages p root va t1 t2 t3 i perm rest
page_lookup-page_insert npages p root va t1 t2 t3 i perm free rest small inside low v bound out
      plain f unmapped =
    let w = pml4e_walk-Walked npages p root va t1 t2 t3 free rest small v bound f in
    let d =
      page_insert-Walked npages p root va t1 t2 t3 i perm free rest inside low out
        (Found-rest i f out) plain unmapped w in
    record {
      after = d.after;
      returned = d.returned;
      lookup = page_lookup-Maps npages d.after root va t1 t2 t3 i d.maps;
      count = d.count;
      list = d.list;
    }

-- What `page_remove` at `va`, which maps page `i` with `r` references, and then `page_lookup` have done.
pub record Removed (npages : ℕ) (p : Phys) (root va i r : ℕ) (xs : List ℕ) : Type 0 where
  pub after : Phys
  pub returned : page_remove npages (some root) va p ≡ returns after
  pub lookup : page_lookup npages (some root) va after ≡ returns (none, after)
  pub count : (after.pages i).pp_ref ≡ r - 1
  pub list : IsFreeList after (if r == 1 then i ∷ xs else xs)

page_remove-Maps :
    (npages : ℕ) (p q : Phys) (root va t1 t2 t3 i : ℕ)
    → Maps npages p root va t1 t2 t3 i
    → page_decref i p ≡ returns q
    → page_remove npages (some root) va p ≡ returns (store q (slot t3 (ptx va)) 0)
unfolding page_remove
page_remove-Maps npages p q root va t1 t2 t3 i v e =
    rw (page_lookup-Maps npages p root va t1 t2 t3 i v, e) refl

-- `page_remove` at an address whose four tables are distinct, and which maps a page that is in use, takes
-- the mapping away, so that `page_lookup` finds none, and one reference; the page is free again exactly
-- when that was the last one.
pub page_remove-Removed :
    (npages : ℕ) (p : Phys) (root va t1 t2 t3 i r : ℕ) (xs : List ℕ)
    → Distinct (root ∷ t1 ∷ t2 ∷ t3 ∷ [])
    → Maps npages p root va t1 t2 t3 i
    → IsFreeList p xs
    → has i xs ≡ false
    → (p.pages i).pp_ref ≡ r
    → 0 < r
    → r < 2 ^ 16
    → Removed npages p root va i r xs
page_remove-Removed npages p root va t1 t2 t3 i r xs apart m v out e pos small =
    let (q, freed, done) = page_decref_lem i r xs v out e pos small in
    let after = store q (slot t3 (ptx va)) 0 in
    let same : (a k : ℕ) → (t3 == a) ≡ false → after.word a k ≡ p.word a k =
      λ a k h. ground (arith, ap (λ (w : ℕ → ℕ → ℕ). w a k) done.same) in
    let zeroed : after.word t3 (ptx va) ≡ 0 = ground arith in
    let gone : MapsNone npages after root va t1 t2 t3 = record {
      tables = HasTables-word npages p after root va t1 t2 t3 same apart m.tables;
      absent = rw zeroed refl;
    } in
    record {
      after = after;
      returned = page_remove-Maps npages p q root va t1 t2 t3 i m freed;
      lookup = page_lookup-MapsNone npages after root va t1 t2 t3 gone;
      count = done.count;
      list = record {
        chain = done.free.chain;
        distinct = done.free.distinct;
        unreferenced = done.free.unreferenced;
        unlinked = done.free.unlinked;
      };
    }
