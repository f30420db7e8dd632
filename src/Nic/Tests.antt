-- ===== src/Nic/Tests.antt =====
-- The theorems on the rings of the network card at 64 buffers.
use jos_operating_system.Prelude.{
  ℕ, ◌+◌, ◌*◌, ◌≡◌, refl, none, some, List, [], ◌∷◌, ◌++◌, arith, leb, ltb, ◌&&◌, if◌then◌else◌,
  replicate, range_from, range_from-Distinct, drop,
}
use jos_operating_system.Pmap.{Phys}
use jos_operating_system.Pmap.FreeList.{IsFreeList}
use jos_operating_system.Pmap.Init.Chains.{Chain-last, Unreferenced-all}
use jos_operating_system.Pmap.Walk.{pa2page}
use jos_operating_system.Nic.{Nic, queued, pci_transmit_packet, init_tx}
use jos_operating_system.Nic.Ring.{
  System, card_sends, accept, card, Run, done, step_on, IsBuffers, IsRing,
}
use jos_operating_system.Nic.Stuck.{Run-IsRing, ring_stuck}
use jos_operating_system.Nic.Start.{nth, init_tx-IsRing}

abbrev ready : Nic
ready = record {
  tx_descs = λ i. record { addr = (i + 1) * 4096; length = 0; cmd = 9; status = 1 };
  tx_desc_tail = 0;
  tdt = 0;
  rx_descs = λ i. record { addr = (i + 65) * 4096; length = 0; status = 0 };
  rx_desc_tail = 0;
  rdt = 0;
  buffer = λ b. [];
}

abbrev idle_card : System
idle_card = record { nic = ready; tdh = 0; sent = []; accepted = [] }

buffers : IsBuffers 200 (λ i. i + 1)
buffers = record { apart = λ i j h k e. omega arith; bound = λ i h. omega arith }

idle_card-IsRing : IsRing (λ i. i + 1) idle_card []
idle_card-IsRing = record {
  order = refl;
  queued = tt;
  head = omega arith;
  few = omega arith;
  tail = refl;
  register = refl;
  free = λ j lo hi. refl;
  address = λ i h. refl;
}

abbrev packet : List ℕ
packet = 104 ∷ 105 ∷ []

abbrev taken : System
taken = record idle_card { nic = queued packet 1 ready; accepted = packet ∷ [] }

one_packet : Run 200 idle_card (card_sends taken)
unfolding pci_transmit_packet pa2page
one_packet =
    step_on idle_card taken (card_sends taken)
      (step_on idle_card idle_card taken (done idle_card)
        (accept idle_card packet (queued packet 1 ready) refl))
      (card taken (λ e. omega arith))

Run-IsRing_example : (ps : List (List ℕ)) × IsRing (λ i. i + 1) (card_sends taken) ps
Run-IsRing_example = Run-IsRing 200 (λ i. i + 1) (omega arith) buffers one_packet idle_card-IsRing

ring_stuck_example :
    (t : System) × Run 200 idle_card t
    × (t.accepted ≡ t.sent ++ replicate 64 packet)
    × (t.sent ≡ [])
    × ((u : System) → Run 200 t u → u ≡ t)
ring_stuck_example =
    ring_stuck 200 (λ i. i + 1) (omega arith) buffers idle_card (replicate 64 packet)
      idle_card-IsRing (omega arith) refl

-- pages 1 to 100 are free
abbrev free_memory : Phys
free_memory = record {
  pages = λ i. record { pp_link = if leb 1 i && ltb i 100 then some (i + 1) else none; pp_ref = 0 };
  page_free_list = some 1;
  word = λ b k. 0;
}

free_memory-IsFreeList : IsFreeList free_memory (range_from 1 100)
free_memory-IsFreeList = record {
  chain = Chain-last free_memory.pages 1 99 (λ a lo hi. ground arith);
  distinct = range_from-Distinct 1 100;
  unreferenced = Unreferenced-all free_memory.pages (range_from 1 100) (λ a. refl);
  unlinked = λ a used. absurd (omega arith);
}

init_tx-IsRing_example :
    (q : Phys) × (n : Nic) × (init_tx 64 0 (free_memory, ready) ≡ some (q, n))
    × IsFreeList q (drop 64 (range_from 1 100))
    × IsBuffers 200 (nth (range_from 1 100))
    × IsRing (nth (range_from 1 100)) (record { nic = n; tdh = 0; sent = []; accepted = [] }) []
unfolding range_from
init_tx-IsRing_example =
    init_tx-IsRing 200 free_memory ready (range_from 1 100) free_memory-IsFreeList (omega arith)
      (omega arith) refl refl
