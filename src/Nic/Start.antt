-- ===== src/Nic/Start.antt =====
-- What `initializeTxDescriptors` of kern/e1000.c makes of the free pages.
use jos_operating_system.Prelude.{
  ℕ, zero, suc, ◌+◌, ◌%◌, ◌<◌, ◌≤◌, ◌≡◌, refl, sym, ap, ◌∙◌, true, Option, some, List, [], ◌∷◌,
  length, drop, update, arith, has, Distinct, All,
}
use jos_operating_system.Pmap.{Phys, alloc_zero, take_page}
use jos_operating_system.Pmap.FreeList.{IsFreeList}
use jos_operating_system.Pmap.Alloc.{take_page-IsFreeList, page_alloc-some}
use jos_operating_system.Pmap.Walk.{page2pa}
use jos_operating_system.Nic.{TxDesc, Nic, buffer_length, init_tx}
use jos_operating_system.Nic.Ring.{IsBuffers, IsRing}

abbrev pub nth : List ℕ → ℕ → ℕ
nth [] i = 0
nth (x ∷ xs) zero = x
nth (x ∷ xs) (suc i) = nth xs i

-- a descriptor that is free to the driver, with its page
abbrev idle : ℕ → TxDesc
idle x = record { addr = page2pa x; length = buffer_length; cmd = 9; status = 1 }

abbrev assigned : ℕ → ℕ → Nic → Nic
assigned i x s = record s { tx_descs = update s.tx_descs i (idle x) }

record Assigned (n i : ℕ) (xs : List ℕ) (p : Phys) (s : Nic) : Type 0 where
  memory : Phys
  nic : Nic
  result : init_tx n i (p, s) ≡ some (memory, nic)
  list : IsFreeList memory (drop n xs)
  here : (j : ℕ) → j < n → nic.tx_descs (i + j) ≡ idle (nth xs j)
  before : (a : ℕ) → a < i → nic.tx_descs a ≡ s.tx_descs a
  tail : nic.tx_desc_tail ≡ s.tx_desc_tail
  register : nic.tdt ≡ s.tdt

init_tx-next :
    (n i x : ℕ) (p : Phys) (s : Nic)
    → p.page_free_list ≡ some x
    → init_tx (suc n) i (p, s) ≡ init_tx n (i + 1) (take_page alloc_zero x p, assigned i x s)
unfolding init_tx
init_tx-next n i x p s e =
    rw (init_tx, page_alloc-some alloc_zero x p e)
      (ap (λ (q : Phys). init_tx n (i + 1) (q, assigned i x s))
        (ap (λ (r : Option ℕ × Phys). r.1) (page_alloc-some alloc_zero x p e)))

shifted :
    (n i x : ℕ) (xs : List ℕ) (m : Nic)
    → m.tx_descs i ≡ idle x
    → ((j : ℕ) → j < n → m.tx_descs (i + 1 + j) ≡ idle (nth xs j))
    → (j : ℕ) → j < suc n
    → m.tx_descs (i + j) ≡ idle (nth (x ∷ xs) j)
shifted n i x xs m first rest zero h = let e : i + 0 ≡ i = omega arith in rw e first
shifted n i x xs m first rest (suc j) h =
    let e : i + suc j ≡ i + 1 + j = omega arith in rw e (rest j (omega arith))

init_tx-Assigned :
    (n i : ℕ) (xs : List ℕ) (p : Phys) (s : Nic)
    → IsFreeList p xs
    → n ≤ length xs
    → Assigned n i xs p s
init_tx-Assigned zero i xs p s v enough = record {
  memory = p;
  nic = s;
  result = unfold init_tx in refl;
  list = v;
  here = λ j h. absurd (omega arith);
  before = λ a h. refl;
  tail = refl;
  register = refl;
}
init_tx-Assigned (suc n) i [] p s v enough = absurd (omega arith)
init_tx-Assigned (suc n) i (x ∷ xs) p s v enough =
    let r =
      init_tx-Assigned n (i + 1) xs (take_page alloc_zero x p) (assigned i x s)
        (take_page-IsFreeList alloc_zero x xs v) (omega arith) in
    record {
      memory = r.memory;
      nic = r.nic;
      result = init_tx-next n i x p s v.chain.0 ∙ r.result;
      list = r.list;
      here = shifted n i x xs r.nic (r.before i (omega arith) ∙ ground arith) r.here;
      before = λ a h. r.before a (omega arith) ∙ ground arith;
      tail = r.tail;
      register = r.register;
    }

has-nth : (xs : List ℕ) (i : ℕ) → i < length xs → has (nth xs i) xs ≡ true
has-nth [] i h = absurd (omega arith)
has-nth (x ∷ xs) zero h = ground arith
has-nth (x ∷ xs) (suc i) h = ground (arith, has-nth xs i)

nth-injective :
    (xs : List ℕ) (i j : ℕ)
    → Distinct xs
    → i < length xs
    → j < length xs
    → nth xs i ≡ nth xs j
    → i ≡ j
nth-injective [] i j d h k e = absurd (omega arith)
nth-injective (x ∷ xs) zero zero d h k e = refl
nth-injective (x ∷ xs) zero (suc j) d h k e = ground (arith, has-nth xs j)
nth-injective (x ∷ xs) (suc i) zero d h k e = ground (arith, has-nth xs i)
nth-injective (x ∷ xs) (suc i) (suc j) d h k e =
    ap suc (nth-injective xs i j d.1 (omega arith) (omega arith) e)

nth-lt :
    (npages : ℕ) (xs : List ℕ) (i : ℕ)
    → All (λ x. x < npages) xs
    → i < length xs
    → nth xs i < npages
nth-lt npages [] i h k = absurd (omega arith)
nth-lt npages (x ∷ xs) zero h k = h.0
nth-lt npages (x ∷ xs) (suc i) h k = nth-lt npages xs i h.1 (omega arith)

-- With 64 pages free `initializeTxDescriptors` gives each descriptor one of its own and marks it as free to
-- the driver: together with a card at descriptor 0 and a tail at 0 the ring is empty. The other free pages
-- are still free.
pub init_tx-IsRing :
    (npages : ℕ) (p : Phys) (s : Nic) (xs : List ℕ)
    → IsFreeList p xs
    → All (λ x. x < npages) xs
    → 64 ≤ length xs
    → s.tx_desc_tail ≡ 0
    → s.tdt ≡ 0
    → (q : Phys) × (n : Nic) × (init_tx 64 0 (p, s) ≡ some (q, n))
      × IsFreeList q (drop 64 xs)
      × IsBuffers npages (nth xs)
      × IsRing (nth xs) (record { nic = n; tdh = 0; sent = []; accepted = [] }) []
init_tx-IsRing npages p s xs v inside enough tail register =
    let r = init_tx-Assigned 64 0 xs p s v enough in
    let at : (i : ℕ) → i < 64 → r.nic.tx_descs i ≡ idle (nth xs i) =
      λ i h. (let e : 0 + i ≡ i = omega arith in rw e at (r.here i h)) in
    (
      r.memory,
      r.nic,
      r.result,
      r.list,
      record {
        apart = λ i j h k e. nth-injective xs i j v.distinct (omega arith) (omega arith) e;
        bound = λ i h. nth-lt npages xs i inside (omega arith);
      },
      record {
        order = refl;
        queued = tt;
        head = omega arith;
        few = omega arith;
        tail = omega (arith, r.tail);
        register = r.register ∙ register ∙ sym tail ∙ sym r.tail;
        free = λ j lo hi.
            (let e : (0 + j) % 64 ≡ j = omega arith in
              rw e (ap (λ (d : TxDesc). d.status) (at j hi)));
        address = λ i h. ap (λ (d : TxDesc). d.addr) (at i h);
      },
    )
