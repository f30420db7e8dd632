-- ===== src/Nic/Stuck.antt =====
-- Every run of the transmit ring of kern/e1000.c, and one after which nothing is sent any more.
use jos_operating_system.Prelude.{
  ℕ, ◌+◌, ◌^◌, ◌<◌, ◌≤◌, ◌≡◌, ◌==◌, refl, sym, ap, ◌∙◌, true, false, List, [], ◌∷◌, ◌++◌, length,
  length-append, Outcome, returns, panics, bit_and, arith, ltb, Bool, inl, inr, ◌⊎◌, All,
}
use mathlib.Core.Path.{subst}
use mathlib.Core.List.{append_assoc, append-nil}
use native.Mathlib.Decide.{ℕ_discrete, dec_lt}
use jos_operating_system.Nic.{Nic, buffer_length, queued, pci_transmit_packet}
use jos_operating_system.Nic.Ring.{
  System, Step, accept, refuse, card, Run, done, step_on, IsBuffers, IsRing,
}
use jos_operating_system.Nic.Fifo.{pa2page-page2pa, card-IsRing, accept-IsRing}

abbrev nic_of : Nic → Outcome (Bool × Nic) → Nic
nic_of d panics = d
nic_of d (returns (b, n)) = n

module _ (npages : ℕ) (pg : ℕ → ℕ) (small : npages ≤ 2 ^ 32) (buffers : IsBuffers npages pg) where
  -- what the driver does with a packet: too long, no descriptor, or queued
  transmit_long :
      (n : Nic) (src : List ℕ)
      → buffer_length < length src
      → pci_transmit_packet npages src n ≡ returns (false, n)
  unfolding pci_transmit_packet
  transmit_long n src h = ground arith

  transmit_full :
      (s : System) (src : List ℕ) (ps : List (List ℕ))
      → IsRing pg s ps
      → length ps ≡ 64
      → pci_transmit_packet npages src s.nic ≡ returns (false, s.nic)
  unfolding pci_transmit_packet
  transmit_full s src [] v e = absurd (omega arith)
  transmit_full s src (p ∷ ps) v e =
      let same : s.nic.tx_desc_tail ≡ s.tdh = omega (arith, v.tail, v.head) in
      let busy : (s.nic.tx_descs s.nic.tx_desc_tail).status ≡ 0 = rw same v.queued.0.0 in
      let test : (bit_and (s.nic.tx_descs s.nic.tx_desc_tail).status 1 == 0) ≡ true =
        rw busy refl in
      ground (arith, test)

  transmit_room :
      (s : System) (src : List ℕ) (ps : List (List ℕ))
      → IsRing pg s ps
      → length ps < 64
      → length src ≤ buffer_length
      → pci_transmit_packet npages src s.nic
        ≡ returns (true, queued src (pg s.nic.tx_desc_tail) s.nic)
  unfolding pci_transmit_packet
  transmit_room s src ps v room fits =
      let i : ℕ = s.nic.tx_desc_tail in
      let inside : i < 64 = omega (arith, v.tail) in
      let idle : (s.nic.tx_descs i).status ≡ 1 =
        rw v.tail (v.free (length ps) (omega arith) room) in
      let test : (bit_and (s.nic.tx_descs i).status 1 == 0) ≡ false = rw idle refl in
      let short : ltb buffer_length (length src) ≡ false = ground arith in
      rw (short, test, v.address i inside, pa2page-page2pa npages pg small buffers i inside) refl

  -- a packet is refused, and nothing has changed, or it is queued
  transmit_cases :
      (s : System) (src : List ℕ) (ps : List (List ℕ))
      → IsRing pg s ps
      → (pci_transmit_packet npages src s.nic ≡ returns (false, s.nic))
        ⊎ ((length ps < 64)
            × (pci_transmit_packet npages src s.nic
                ≡ returns (true, queued src (pg s.nic.tx_desc_tail) s.nic)))
  transmit_cases s src ps v = elim (dec_lt buffer_length (length src)) [
    | yes long ↦ inl (transmit_long s.nic src long)
    | no fits ↦ elim (ℕ_discrete (length ps) 64) [
      | yes full ↦ inl (transmit_full s src ps v full)
      | no room ↦
          (let less : length ps < 64 = omega (arith, v.few) in
            inr (less, transmit_room s src ps v less (omega arith)))
    ]
  ]

  Step-IsRing :
      {s t : System} (ps : List (List ℕ))
      → Step npages s t
      → IsRing pg s ps
      → (qs : List (List ℕ)) × IsRing pg t qs
  Step-IsRing ps (accept s src n e) v = elim (transmit_cases s src ps v) [
    | inl r ↦ absurd (cc (sym r ∙ e))
    | inr (room, r) ↦
        (let same : queued src (pg s.nic.tx_desc_tail) s.nic ≡ n = ap (nic_of n) (sym r ∙ e) in
          let taken = accept-IsRing npages pg small buffers s src ps v room in
          (
            ps ++ (src ∷ []),
            subst
                (λ m.
                  IsRing pg (record s { nic = m; accepted = s.accepted ++ (src ∷ []) })
                    (ps ++ (src ∷ [])))
                same taken,
          ))
  ]
  Step-IsRing ps (refuse s src n e) v = elim (transmit_cases s src ps v) [
    | inl r ↦
        (let same : s.nic ≡ n = ap (nic_of n) (sym r ∙ e) in
          (ps, subst (λ m. IsRing pg (record s { nic = m }) ps) same v))
    | inr (room, r) ↦ absurd (cc (sym r ∙ e))
  ]
  Step-IsRing [] (card s ahead) v = absurd (omega (arith, v.tail, v.register, v.head))
  Step-IsRing (p ∷ ps) (card s ahead) v = (ps, card-IsRing npages pg small buffers s p ps v)

  -- In every run from an empty ring with 64 buffers, whatever packets come and whenever the card sends, the
  -- packets that the driver took are those that the card has sent and at most 64 that it still has, in their
  -- order.
  pub Run-IsRing :
      {s t : System} → Run npages s t → IsRing pg s [] → (ps : List (List ℕ)) × IsRing pg t ps
  Run-IsRing (done s) v = ([], v)
  Run-IsRing (step_on s t u run step) v = let (ps, w) = Run-IsRing run v in Step-IsRing ps step w

  fill :
      (s t : System) (ps srcs : List (List ℕ))
      → Run npages s t
      → IsRing pg t ps
      → All (λ (src : List ℕ). length src ≤ buffer_length) srcs
      → length ps + length srcs ≤ 64
      → (u : System) × Run npages s u × IsRing pg u (ps ++ srcs) × (u.sent ≡ t.sent)
  fill s t ps [] run v fits room = (t, run, rw (append-nil ps) v, refl)
  fill s t ps (src ∷ srcs) run v fits room =
      let e = transmit_room t src ps v (omega arith) fits.0 in
      let n = queued src (pg t.nic.tx_desc_tail) t.nic in
      let next : System = record t { nic = n; accepted = t.accepted ++ (src ∷ []) } in
      let w = accept-IsRing npages pg small buffers t src ps v (omega arith) in
      let size = length-append ps (src ∷ []) in
      let (u, r, x, y) =
        fill s next (ps ++ (src ∷ [])) srcs (step_on s t next run (accept t src n e)) w fits.1
          (omega (arith, size)) in
      (u, r, subst (λ l. IsRing pg u l) (append_assoc ps (src ∷ []) srcs) x, y)

  -- no step changes a full ring
  still :
      {s t : System} (ps : List (List ℕ))
      → IsRing pg s ps
      → length ps ≡ 64
      → Step npages s t
      → t ≡ s
  still ps v full (accept s src n e) = absurd (cc (sym (transmit_full s src ps v full) ∙ e))
  still ps v full (refuse s src n e) =
      ap (λ m. record s { nic = m }) (ap (nic_of n) (sym e ∙ transmit_full s src ps v full))
  still ps v full (card s ahead) = absurd (omega (arith, v.tail, v.register, v.head))

  still_on :
      {s t : System} (ps : List (List ℕ)) → IsRing pg s ps → length ps ≡ 64 → Run npages s t → t ≡ s
  still_on ps v full (done s) = refl
  still_on ps v full (step_on s t u run step) =
      let e = still_on ps v full run in
      still ps (subst (λ x. IsRing pg x ps) (sym e) v) full step ∙ e

  -- Where the ring is empty and 64 packets that are not too long come before the card sends the first, the
  -- driver takes them all, and then nothing is ever sent: the tail has come round to the head, which is an
  -- empty ring to the card, while no descriptor is free to the driver, so that no run changes anything.
  pub ring_stuck :
      (s : System) (srcs : List (List ℕ))
      → IsRing pg s []
      → All (λ (src : List ℕ). length src ≤ buffer_length) srcs
      → length srcs ≡ 64
      → (t : System) × Run npages s t
        × (t.accepted ≡ t.sent ++ srcs)
        × (t.sent ≡ s.sent)
        × ((u : System) → Run npages t u → u ≡ t)
  ring_stuck s srcs v fits full =
      let (t, run, w, same) = fill s s [] srcs (done s) v fits (omega arith) in
      (t, run, w.order, same, λ u r. still_on srcs w full r)
