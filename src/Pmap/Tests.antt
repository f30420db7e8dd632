-- ===== src/Pmap/Tests.antt =====
-- The theorems on the page allocator at a memory whose free pages are 1 and 3.
use jos_operating_system.Prelude.{
  ◌+◌, ◌≡◌, refl, none, some, [], ◌∷◌, arith, ◌==◌, ◌!=◌, if◌then◌else◌, returns,
}
use jos_operating_system.Pmap.{Phys, page_decref}
use jos_operating_system.Pmap.FreeList.{IsFreeList}
use jos_operating_system.Pmap.Alloc.{page_decref_lem, Released}
use jos_operating_system.Pmap.Walk.{slot, pml4e_walk, pdpe_walk, pgdir_walk, kaddr, pa2page}
use jos_operating_system.Pmap.Map.{page_lookup}
use jos_operating_system.Pmap.Check.{user_mem_check}
use jos_operating_system.Pmap.Check.Short.{user_mem_check_short}

abbrev memory : Phys
memory = record {
  pages = λ i. record {
    pp_link = if i == 1 then some 3 else none;
    pp_ref = if i == 2 then 2 else if i == 4 then 1 else 0;
  };
  page_free_list = some 1;
  word = λ i k. i + k;
}

memory-IsFreeList : IsFreeList memory (1 ∷ 3 ∷ [])
memory-IsFreeList = record {
  chain = (refl, (refl, refl));
  distinct = ground arith;
  unreferenced = ground arith;
  unlinked = λ a out. ground arith;
}

page_decref_example :
    (q : Phys) × (page_decref 2 memory ≡ returns q) × Released 2 2 (1 ∷ 3 ∷ []) memory q
page_decref_example =
    page_decref_lem 2 2 (1 ∷ 3 ∷ []) memory-IsFreeList refl refl (omega arith) (omega arith)

-- The page at 0 is page 5, through the tables in pages 1 to 4; the page behind it is not mapped.
abbrev mapped_once : Phys
mapped_once = record memory {
  word = λ b k.
      if k != 0
      then 0
      else if b == 1
      then 0x2007
      else if b == 2
      then 0x3007
      else if b == 3
      then 0x4007
      else if b == 4
      then 0x5007
      else 0;
}

first_page : page_lookup 8 (some 1) 0 mapped_once ≡ returns (some (5, slot 4 0), mapped_once)
unfolding page_lookup pml4e_walk pdpe_walk pgdir_walk kaddr pa2page
first_page = refl

user_mem_check_short_example :
    user_mem_check 8 (some 1) 4000 200 4 mapped_once ≡ returns (none, mapped_once)
user_mem_check_short_example =
    user_mem_check_short 8 (some 1) 4000 200 4 mapped_once mapped_once 5 (slot 4 0) (omega arith)
      (omega arith) (omega arith) (omega arith) first_page (λ e. omega arith)
