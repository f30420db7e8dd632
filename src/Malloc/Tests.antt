-- ===== src/Malloc/Tests.antt =====
-- The theorems on `malloc` at a heap whose last page, 65535, has been begun.
use jos_operating_system.Prelude.{
  ◌≡◌, ◌^◌, refl, false, none, some, arith, ◌==◌, if◌then◌else◌, returns, update,
}
use jos_operating_system.Malloc.{mbegin, Heap, free, search_loop, malloc}
use jos_operating_system.Malloc.Search.{Searched, search_ends, malloc_hangs}

abbrev heap : Heap
heap = record {
  mptr = 0x0fff_ff00;
  page = λ i. if i == 65535 then some false else none;
  ref = λ i. 3;
}

search_ends_example :
    Searched 100
      (record heap { mptr = mbegin })
      (search_loop 65536 100 0 (record heap { mptr = mbegin }))
search_ends_example =
    search_ends 100 (record heap { mptr = mbegin }) refl (omega arith) (omega arith)

malloc_hangs_example : malloc (λ i. false) (2 ^ 51) 300 heap ≡ returns none
unfolding free
malloc_hangs_example =
    malloc_hangs (λ i. false) (2 ^ 51) 300 heap (record heap { ref = update heap.ref 65535 2 })
      (omega arith) (omega arith) (omega arith) (omega arith) refl (omega arith)
