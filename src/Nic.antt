-- ===== src/Nic.antt =====
-- The rings of the network card's driver, kern/e1000.c. A packet is the list of its bytes, and so is
-- what a buffer page holds.
-- The registers TDT and RDT are those that the driver writes while it runs.
pub mod Ring
pub mod Fifo
pub mod Stuck
pub mod Start
mod Tests
use jos_operating_system.Prelude.{
  ℕ, zero, suc, ◌+◌, ◌-◌, ◌*◌, ◌/◌, ◌%◌, Bool, true, false, Option, none, some, List, [], ◌∷◌, ◌++◌,
  ◌==◌, ltb, if◌then◌else◌, update, length, take, drop, Outcome, returns, panics, ◌>>=◌, bit_and,
}
use jos_operating_system.Pmap.{Phys, alloc_zero, page_alloc}
use jos_operating_system.Pmap.Walk.{page2pa, pa2page}

-- `struct tx_desc` and `struct rx_desc`, without the fields that the driver does not use
pub record TxDesc : Type 0 where
  pub addr : ℕ
  pub length : ℕ
  pub cmd : ℕ
  pub status : ℕ

pub record RxDesc : Type 0 where
  pub addr : ℕ
  pub length : ℕ
  pub status : ℕ

pub record Nic : Type 0 where
  pub tx_descs : ℕ → TxDesc
  pub tx_desc_tail : ℕ
  pub tdt : ℕ
  pub rx_descs : ℕ → RxDesc
  pub rx_desc_tail : ℕ
  pub rdt : ℕ
  pub buffer : ℕ → List ℕ

abbrev pub num_desc : ℕ
num_desc = 64

abbrev pub buffer_length : ℕ
buffer_length = 0x5ee

-- `memmove` of a packet to the start of a page
abbrev pub put_front : List ℕ → List ℕ → List ℕ
put_front src old = src ++ drop (length src) old

-- The packet is in the buffer, its descriptor belongs to the card, and the tail is behind it.
abbrev pub queued : List ℕ → ℕ → Nic → Nic
queued src page s =
    let i = s.tx_desc_tail in
    record s {
      buffer = update s.buffer page (put_front src (s.buffer page));
      tx_descs = update s.tx_descs i (record (s.tx_descs i) { length = length src; status = 0 });
      tx_desc_tail = (i + 1) % num_desc;
      tdt = (i + 1) % num_desc;
    }

-- true is 0, false is -1
unfoldable pub pci_transmit_packet : ℕ → List ℕ → Nic → Outcome (Bool × Nic)
pci_transmit_packet npages src s =
    let d = s.tx_descs s.tx_desc_tail in
    if ltb buffer_length (length src)
    then returns (false, s)
    else if bit_and d.status 1 == 0
    then returns (false, s)
    else (pa2page npages d.addr >>= λ page. returns (true, queued src page s))

-- the packet that was received, or -1
unfoldable pub pci_receive_packet : ℕ → Nic → Outcome (Option (List ℕ) × Nic)
pci_receive_packet npages s =
    let i = (s.rx_desc_tail + 1) % num_desc in
    let d = s.rx_descs i in
    if bit_and d.status 1 == 0
    then returns (none, s)
    else if bit_and d.status 2 == 0
    then panics
    else (pa2page npages d.addr >>= λ page. returns (
      some (take d.length (s.buffer page)),
      record s {
        rx_descs = update s.rx_descs i (record d { status = bit_and d.status 0xfc });
        rx_desc_tail = i;
        rdt = i;
      },
    ))

-- The loops of `initializeTxDescriptors` and `initializeRxDescriptors`, `n` rounds from `i` on; `none`
-- where no page is left, whose NULL they take for a page.
unfoldable pub init_tx : ℕ → ℕ → Phys × Nic → Option (Phys × Nic)
init_tx zero i (p, s) = some (p, s)
init_tx (suc n) i (p, s) =
    let (page, q) = page_alloc alloc_zero p in
    elim page [
      | none ↦ none
      | some x ↦ init_tx n (i + 1) (
        q,
        record s {
          tx_descs =
              update s.tx_descs i
                (record { addr = page2pa x; length = buffer_length; cmd = 9; status = 1 });
        },
      )
    ]

unfoldable pub init_rx : ℕ → ℕ → Phys × Nic → Option (Phys × Nic)
init_rx zero i (p, s) = some (p, s)
init_rx (suc n) i (p, s) =
    let (page, q) = page_alloc alloc_zero p in
    elim page [
      | none ↦ none
      | some x ↦ init_rx n (i + 1) (
        q,
        record s { rx_descs = update s.rx_descs i (record (s.rx_descs i) { addr = page2pa x }) },
      )
    ]
