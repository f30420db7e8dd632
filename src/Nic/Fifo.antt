-- ===== src/Nic/Fifo.antt =====
-- The card sends what the driver of kern/e1000.c took, in this order, and where it stops.
use jos_operating_system.Prelude.{
  ℕ, zero, suc, ◌+◌, ◌^◌, ◌%◌, ◌<◌, ◌≤◌, ◌≡◌, ◌≢◌, refl, sym, ap, ◌∙◌, List, [], ◌∷◌, ◌++◌, length,
  length-append, take, drop, update, returns, bit_or, arith,
}
use mathlib.Core.List.{append_assoc}
use native.Mathlib.Decide.{ℕ_discrete}
use jos_operating_system.Pmap.Walk.{ppn, page2pa, pa2page}
use jos_operating_system.Nic.{TxDesc, Nic, put_front, queued}
use jos_operating_system.Nic.Ring.{System, card_sends, Holds, Queued, IsBuffers, IsRing}

take-append : (xs ys : List ℕ) → take (length xs) (xs ++ ys) ≡ xs
take-append [] ys = refl
take-append (x ∷ xs) ys = ap (λ t. x ∷ t) (take-append xs ys)

update-here : {A : Type 0} (f : ℕ → A) (i : ℕ) (v : A) → update f i v i ≡ v
update-here f i v = ground arith

update-other : {A : Type 0} (f : ℕ → A) (i : ℕ) (v : A) (a : ℕ) → i ≢ a → update f i v a ≡ f a
update-other f i v a h = ground arith

-- Other descriptors and buffers do not matter.
Queued-same :
    (pg : ℕ → ℕ) (n m : Nic) (b : ℕ)
    → ((a : ℕ)
        → a < 64
        → a ≢ b
        → (m.tx_descs a ≡ n.tx_descs a) × (m.buffer (pg a) ≡ n.buffer (pg a)))
    → (i k : ℕ) (ps : List (List ℕ)) → i < 64
    → b ≡ (i + k) % 64
    → length ps ≤ k
    → k < 64
    → Queued pg n i ps
    → Queued pg m i ps
Queued-same pg n m b same i k [] inside e few small q = tt
Queued-same pg n m b same i zero (p ∷ ps) inside e few small q = absurd (omega arith)
Queued-same pg n m b same i (suc k) (p ∷ ps) inside e few small q =
    let (d, l) = same i inside (λ h. omega arith) in
    (
      (ap (λ (x : TxDesc). x.status) d ∙ q.0.0, rw (d, l) q.0.1),
      Queued-same pg n m b same ((i + 1) % 64) k ps (omega arith) (omega arith) (omega arith)
          (omega arith) q.1,
    )

Queued-snoc :
    (pg : ℕ → ℕ) (n : Nic) (i : ℕ) (ps : List (List ℕ)) (p : List ℕ)
    → i < 64
    → Queued pg n i ps
    → Holds pg n ((i + length ps) % 64) p
    → Queued pg n i (ps ++ (p ∷ []))
Queued-snoc pg n i [] p inside q h = (let e : (i + 0) % 64 ≡ i = omega arith in rw e at h, tt)
Queued-snoc pg n i (a ∷ ps) p inside q h =
    let e : ((i + 1) % 64 + length ps) % 64 ≡ (i + suc (length ps)) % 64 = omega arith in
    (q.0, Queued-snoc pg n ((i + 1) % 64) ps p (omega arith) q.1 (rw e h))

module _ (npages : ℕ) (pg : ℕ → ℕ) (small : npages ≤ 2 ^ 32) (buffers : IsBuffers npages pg) where
  pub pa2page-page2pa : (i : ℕ) → i < 64 → pa2page npages (page2pa (pg i)) ≡ returns (pg i)
  unfolding pa2page
  pa2page-page2pa i inside =
      let back : ppn (page2pa (pg i)) ≡ pg i = omega arith in
      rw back (ground (arith, buffers.bound i inside))

  pub card-IsRing :
      (s : System) (p : List ℕ) (ps : List (List ℕ))
      → IsRing pg s (p ∷ ps)
      → IsRing pg (card_sends s) ps
  card-IsRing s p ps v =
      let at : (s.nic.tx_descs s.tdh).addr ≡ page2pa (pg s.tdh) = v.address s.tdh v.head in
      let back : ppn (s.nic.tx_descs s.tdh).addr ≡ pg s.tdh = rw at (omega arith) in
      let d : TxDesc = s.nic.tx_descs s.tdh in
      let back_free : TxDesc = record d { status = bit_or d.status 1 } in
      let given : back_free.status ≡ 1 = ap (λ x. bit_or x 1) v.queued.0.0 in
      let freed : (j : ℕ)
          → length ps ≤ j
          → j < 64
          → ((card_sends s).nic.tx_descs (((card_sends s).tdh + j) % 64)).status ≡ 1 =
        λ j lo hi. elim (ℕ_discrete j 63) [
          | yes e ↦
              (let here : ((s.tdh + 1) % 64 + j) % 64 ≡ s.tdh = omega (arith, v.head) in
                rw (here, update-here s.nic.tx_descs s.tdh back_free) given)
          | no e ↦
              (let next : ((s.tdh + 1) % 64 + j) % 64 ≡ (s.tdh + (j + 1)) % 64 = omega arith in
                rw
                  (
                    next,
                    update-other s.nic.tx_descs s.tdh back_free ((s.tdh + (j + 1)) % 64)
                        (λ h. omega (arith, v.head)),
                  )
                  (v.free (j + 1) (omega arith) (omega arith)))
        ] in
      let packet : take (s.nic.tx_descs s.tdh).length
            (s.nic.buffer (ppn (s.nic.tx_descs s.tdh).addr))
          ≡ p =
        rw back v.queued.0.1 in
      record {
        order = v.order ∙ (rw packet (sym (append_assoc s.sent (p ∷ []) ps)));
        queued =
            Queued-same pg s.nic (card_sends s).nic s.tdh (λ a low other. (ground arith, refl))
              ((s.tdh + 1) % 64) 63 ps (omega arith) (omega arith) (omega arith) (omega arith)
              v.queued.1;
        head = omega arith;
        few = omega (arith, v.few);
        tail = v.tail ∙ omega arith;
        register = v.register;
        free = λ j lo hi. freed j lo hi;
        address = λ i h. ground (arith, v.address i h);
      }

  pub accept-IsRing :
      (s : System) (src : List ℕ) (ps : List (List ℕ))
      → IsRing pg s ps
      → length ps < 64
      → IsRing pg
          (record s {
            nic = queued src (pg s.nic.tx_desc_tail) s.nic;
            accepted = s.accepted ++ (src ∷ []);
          })
          (ps ++ (src ∷ []))
  accept-IsRing s src ps v room =
      let m = queued src (pg s.nic.tx_desc_tail) s.nic in
      let size = length-append ps (src ∷ []) in
      let inside : s.nic.tx_desc_tail < 64 = omega (arith, v.tail) in
      let i : ℕ = s.nic.tx_desc_tail in
      let taken : TxDesc = record (s.nic.tx_descs i) { length = length src; status = 0 } in
      let desc : m.tx_descs i ≡ taken = update-here s.nic.tx_descs i taken in
      let content : m.buffer (pg i) ≡ put_front src (s.nic.buffer (pg i)) =
        update-here s.nic.buffer (pg i) (put_front src (s.nic.buffer (pg i))) in
      record {
        order = ap (λ l. l ++ (src ∷ [])) v.order ∙ append_assoc s.sent ps (src ∷ []);
        queued =
            Queued-snoc pg m s.tdh ps src v.head
              (Queued-same pg s.nic m s.nic.tx_desc_tail
                (λ a low other. (
                  ground arith,
                  update-other s.nic.buffer (pg i) (put_front src (s.nic.buffer (pg i))) (pg a)
                      (λ h. other (sym (buffers.apart i a inside low h))),
                ))
                s.tdh (length ps) ps v.head v.tail (omega arith) room v.queued)
              (rw (sym v.tail) (
                rw desc refl,
                rw (desc, content) (take-append src (drop (length src) (s.nic.buffer (pg i)))),
              ));
        head = v.head;
        few = omega (arith, size);
        tail = omega (arith, size, v.tail);
        register = refl;
        free = λ j lo hi.
            rw
              (update-other s.nic.tx_descs i taken ((s.tdh + j) % 64)
                (λ h. omega (arith, v.tail, v.head, size)))
              (v.free j (omega (arith, size)) hi);
        address = λ i h. ground (arith, v.address i h);
      }
