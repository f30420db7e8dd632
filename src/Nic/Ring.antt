-- ===== src/Nic/Ring.antt =====
-- The transmit ring between the driver of kern/e1000.c and the card. What the card does is in its
-- manual: as long as its head TDH is not the tail TDT it sends the packet of the descriptor at its head,
-- sets the bit DD in the status, which the driver asked for by the bit RS of `cmd`, and goes on.
use jos_operating_system.Prelude.{
  ℕ, ◌+◌, ◌%◌, ◌<◌, ◌≤◌, ◌≡◌, ◌≢◌, true, false, List, [], ◌∷◌, ◌++◌, length, take, update, returns,
  bit_or,
}
use jos_operating_system.Pmap.Walk.{ppn, page2pa}
use jos_operating_system.Nic.{Nic, num_desc, pci_transmit_packet}

-- The driver's state and the card's: its head and what it has sent; and the packets that the driver
-- took.
pub record System : Type 0 where
  pub nic : Nic
  pub tdh : ℕ
  pub sent : List (List ℕ)
  pub accepted : List (List ℕ)

abbrev pub card_sends : System → System
card_sends s =
    let d = s.nic.tx_descs s.tdh in
    record s {
      sent = s.sent ++ (take d.length (s.nic.buffer (ppn d.addr)) ∷ []);
      nic = record s.nic {
        tx_descs = update s.nic.tx_descs s.tdh (record d { status = bit_or d.status 1 });
      };
      tdh = (s.tdh + 1) % num_desc;
    }

pub data Step (npages : ℕ) : System → System → Type 0 where
  accept :
      (s : System) (src : List ℕ) (n : Nic)
      → pci_transmit_packet npages src s.nic ≡ returns (true, n)
      → Step npages s (record s { nic = n; accepted = s.accepted ++ (src ∷ []) })
  refuse :
      (s : System) (src : List ℕ) (n : Nic)
      → pci_transmit_packet npages src s.nic ≡ returns (false, n)
      → Step npages s (record s { nic = n })
  card : (s : System) → s.tdh ≢ s.nic.tdt → Step npages s (card_sends s)

pub data Run (npages : ℕ) : System → System → Type 0 where
  done : (s : System) → Run npages s s
  step_on : (s t u : System) → Run npages s t → Step npages t u → Run npages s u

-- Descriptor `i`, whose buffer is page `pg i`, holds packet `p` for the card.
abbrev pub Holds : (ℕ → ℕ) → Nic → ℕ → List ℕ → Type 0
Holds pg n i p = ((n.tx_descs i).status ≡ 0) × (take (n.tx_descs i).length (n.buffer (pg i)) ≡ p)

-- The descriptors from `i` on hold the packets, in their order.
abbrev pub Queued : (ℕ → ℕ) → Nic → ℕ → List (List ℕ) → Type 0
Queued pg n i [] = Unit
Queued pg n i (p ∷ ps) = Holds pg n i p × Queued pg n ((i + 1) % num_desc) ps

-- the buffers: 64 pages
pub record IsBuffers (npages : ℕ) (pg : ℕ → ℕ) : Type 0 where
  pub apart : (i j : ℕ) → i < 64 → j < 64 → pg i ≡ pg j → i ≡ j
  pub bound : (i : ℕ) → i < 64 → pg i < npages

-- The packets `ps` are with the card.
pub record IsRing (pg : ℕ → ℕ) (s : System) (ps : List (List ℕ)) : Type 0 where
  pub order : s.accepted ≡ s.sent ++ ps
  pub queued : Queued pg s.nic s.tdh ps
  pub head : s.tdh < 64
  pub few : length ps ≤ 64
  pub tail : s.nic.tx_desc_tail ≡ (s.tdh + length ps) % 64
  pub register : s.nic.tdt ≡ s.nic.tx_desc_tail
  pub free : (j : ℕ) → length ps ≤ j → j < 64 → (s.nic.tx_descs ((s.tdh + j) % 64)).status ≡ 1
  pub address : (i : ℕ) → i < 64 → (s.nic.tx_descs i).addr ≡ page2pa (pg i)
