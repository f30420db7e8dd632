-- ===== src/Pmap/Tables/Create.antt =====
-- A walk that creates the tables that are missing.
use jos_operating_system.Prelude.{
  ℕ, ◌+◌, ◌*◌, ◌^◌, ◌<◌, ◌≤◌, ◌≡◌, sym, false, none, List, ◌∷◌, arith, ◌==◌, ◌&&◌, returns, bit_or,
}
use mathlib.Core.Path.{subst}
use jos_operating_system.Prelude.Bits.{bit_or_shifted}
use jos_operating_system.Pmap.{Phys, alloc_zero, take_page, ref_up}
use jos_operating_system.Pmap.FreeList.{IsFreeList}
use jos_operating_system.Pmap.Alloc.{take_page-IsFreeList, set_ref-IsFreeList}
use jos_operating_system.Pmap.Walk.{slot, ppn, pte_addr, page2pa, link_table, kaddr}
use jos_operating_system.Pmap.Tables.{Refers}

-- an entry with the low twelve bits for flags
pub entry_of :
    (npages i flags : ℕ)
    → flags < 4096
    → i < npages
    → npages ≤ 2 ^ 32
    → (bit_or (page2pa i) flags ≡ i * 4096 + flags)
      × (kaddr npages (pte_addr (bit_or (page2pa i) flags)) ≡ returns i)
unfolding kaddr
entry_of npages i flags low inside small =
    let e : bit_or (i * 4096) flags ≡ i * 4096 + flags = bit_or_shifted 12 i flags low in
    let back : ppn (pte_addr (bit_or (page2pa i) flags)) ≡ i = omega (arith, e) in
    (e, rw back (ground arith))

-- the state when a new table `t` has been linked
abbrev pub with_table : ℕ → ℕ → ℕ → Phys → Phys
with_table d k t p = link_table (slot d k) t (take_page alloc_zero t p)

module _ (npages : ℕ) (p : Phys) (d k t : ℕ) (xs : List ℕ) where
  pub with_table-IsFreeList : IsFreeList p (t ∷ xs) → IsFreeList (with_table d k t p) xs
  unfolding link_table
  with_table-IsFreeList v =
      let q = take_page alloc_zero t p in
      let taken = take_page-IsFreeList alloc_zero t xs v in
      let plain : (q.pages t).pp_link ≡ none = unfold take_page in ground arith in
      let w = set_ref-IsFreeList t (ref_up (q.pages t).pp_ref) xs taken v.distinct.0 plain in
      record {
        chain = w.chain;
        distinct = w.distinct;
        unreferenced = w.unreferenced;
        unlinked = w.unlinked;
      }

module _ (npages : ℕ) (p : Phys) (d k t : ℕ) (apart : (d == t) ≡ false) where
  pub with_table-Refers : t < npages → npages ≤ 2 ^ 32 → Refers npages (with_table d k t p) d k t
  unfolding link_table take_page
  with_table-Refers inside small =
      let (e, back) = entry_of npages t 7 (omega arith) inside small in
      let written : (with_table d k t p).word d k ≡ bit_or (page2pa t) 7 = ground arith in
      record {
        entry = ground (arith, e);
        table = subst (λ w. kaddr npages (pte_addr w) ≡ returns t) (sym written) back;
      }

  -- the other entries of the table, and the other pages
  pub with_table-word :
      (a m : ℕ)
      → (t == a) ≡ false
      → ((d == a) && (k == m)) ≡ false
      → (with_table d k t p).word a m ≡ p.word a m
  unfolding link_table take_page
  with_table-word a m h g = ground arith

  -- the new table is empty
  pub with_table-empty : (m : ℕ) → (with_table d k t p).word t m ≡ 0
  unfolding link_table take_page
  with_table-empty m = ground arith

  pub with_table-Refers-kept :
      (a m b : ℕ)
      → (t == a) ≡ false
      → (d == a) ≡ false
      → Refers npages p a m b
      → Refers npages (with_table d k t p) a m b
  with_table-Refers-kept a m b h g v =
      let same = with_table-word a m h (ground arith) in
      record { entry = rw same v.entry; table = rw same v.table }

  pub with_table-pages : (a : ℕ) → (t == a) ≡ false → (with_table d k t p).pages a ≡ p.pages a
  unfolding link_table take_page
  with_table-pages a h = ground arith
