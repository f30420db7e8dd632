-- ===== src/Pmap/Init/Tests.antt =====
-- The theorem on `page_init` at a memory of 2000 pages.
use jos_operating_system.Prelude.{◌≡◌, refl, none, ◌++◌, arith, returns, range_from}
use jos_operating_system.Pmap.{Phys}
use jos_operating_system.Pmap.FreeList.{IsFreeList}
use jos_operating_system.Pmap.Init.{page_init}
use jos_operating_system.Pmap.Init.Listed.{page_init-IsFreeList}

abbrev fresh : Phys
fresh = record {
  pages = λ i. record { pp_link = none; pp_ref = 0 };
  page_free_list = none;
  word = λ b k. b;
}

page_init-IsFreeList_example :
    (q : Phys) × (page_init 2000 1000 300 304 fresh ≡ returns q)
    × IsFreeList q (range_from 1 6 ++ (range_from 8 152 ++ range_from 1000 1000))
page_init-IsFreeList_example =
    page_init-IsFreeList 1999 fresh (λ b h. refl) 1000 300 304 (omega arith) (omega arith)
      (omega arith)
