-- ===== src/Pmap/Tables/Tests.antt =====
-- The theorems on page tables at a memory whose root is page 1 and whose pages 2, 3, 4 and 6 are free.
use jos_operating_system.Prelude.{◌+◌, refl, none, some, [], ◌∷◌, arith, ◌==◌, if◌then◌else◌}
use jos_operating_system.Pmap.{Phys}
use jos_operating_system.Pmap.FreeList.{IsFreeList}
use jos_operating_system.Pmap.Walk.{kaddr, pa2page}
use jos_operating_system.Pmap.Tables.Walked.{Walked, Found, no_tables, pml4e_walk-Walked}
use jos_operating_system.Pmap.Tables.Insert.{Maps}
use jos_operating_system.Pmap.Tables.Mapped.{
  InsertedAndFound, page_lookup-page_insert, Removed, page_remove-Removed,
}

abbrev blank : Phys
blank = record {
  pages = λ i. record {
    pp_link = if i == 2 then some 3 else if i == 3 then some 4 else if i == 4 then some 6 else none;
    pp_ref = if i == 5 then 1 else 0;
  };
  page_free_list = some 2;
  word = λ b k. if b == 1 then 0 else b + k;
}

blank-IsFreeList : IsFreeList blank (2 ∷ 3 ∷ 4 ∷ 6 ∷ [])
blank-IsFreeList = record {
  chain = (refl, (refl, (refl, (refl, refl))));
  distinct = ground arith;
  unreferenced = (refl, (refl, (refl, (refl, tt))));
  unlinked = λ a out. ground arith;
}

blank-Found : Found 8 blank 1 0x40201000 2 3 4 (2 ∷ 3 ∷ 4 ∷ 6 ∷ []) (6 ∷ [])
blank-Found = no_tables (6 ∷ []) refl (ground arith)

pml4e_walk-Walked_example : Walked 8 blank 1 0x40201000 2 3 4 (2 ∷ 3 ∷ 4 ∷ 6 ∷ []) (6 ∷ [])
pml4e_walk-Walked_example =
    pml4e_walk-Walked 8 blank 1 0x40201000 2 3 4 (2 ∷ 3 ∷ 4 ∷ 6 ∷ []) (6 ∷ []) (omega arith)
      blank-IsFreeList (omega arith) blank-Found

page_lookup-page_insert_example : InsertedAndFound 8 blank 1 0x40201000 2 3 4 5 6 (6 ∷ [])
page_lookup-page_insert_example =
    page_lookup-page_insert 8 blank 1 0x40201000 2 3 4 5 6 (2 ∷ 3 ∷ 4 ∷ 6 ∷ []) (6 ∷ [])
      (omega arith) (omega arith) (omega arith) blank-IsFreeList (omega arith) refl refl blank-Found
      (ground arith)

-- page 5 is mapped at 0 through the tables in pages 1, 2, 3 and 4
abbrev mapped : Phys
mapped = record blank {
  pages = λ i. record { pp_link = none; pp_ref = if i == 5 then 1 else 0 };
  page_free_list = some 6;
  word = λ b k.
      if k == 0
      then (if b == 1
          then 0x2007
          else if b == 2
          then 0x3007
          else if b == 3
          then 0x4007
          else if b == 4
          then 0x5007
          else 0)
      else 0;
}

mapped-IsFreeList : IsFreeList mapped (6 ∷ [])
mapped-IsFreeList = record {
  chain = (refl, refl);
  distinct = ground arith;
  unreferenced = (refl, tt);
  unlinked = λ a out. refl;
}

mapped-Maps : Maps 8 mapped 1 0 2 3 4 5
unfolding kaddr pa2page
mapped-Maps = record {
  tables = record {
    first = record { entry = λ e. omega arith; table = refl };
    second = record { entry = λ e. omega arith; table = refl };
    third = record { entry = λ e. omega arith; table = refl };
  };
  present = refl;
  page = refl;
}

page_remove-Removed_example : Removed 8 mapped 1 0 5 1 (6 ∷ [])
page_remove-Removed_example =
    page_remove-Removed 8 mapped 1 0 2 3 4 5 1 (6 ∷ []) (ground arith) mapped-Maps mapped-IsFreeList
      refl refl (omega arith) (omega arith)
