-- ===== src/Env/Ident.antt =====
-- Environment identifiers: what `env_alloc` generates and what `envid2env` accepts.
use jos_operating_system.Prelude.{
  ℕ, ◌+◌, ◌/◌, ◌%◌, ◌^◌, ◌<◌, ◌≡◌, ◌≢◌, ◌↔◌, ◌⊎◌, Bool, true, some, arith,
}
use jos_operating_system.Prelude.Bits.{bit_or_shifted}
use jos_operating_system.Env.{Kernel, ok, fail, bad_env, nenv, envx, envid2env, next_id, cur_id}
use jos_operating_system.Env.Status

-- An identifier made for slot `i` is positive as an `envid_t`, has `i` for its index, and is not
-- the identifier that the slot had before.
pub next_id_lem :
    (old i : ℕ)
    → i < nenv
    → old < 2 ^ 32
    → (envx (next_id old i) ≡ i)
      × (0 < next_id old i)
      × (next_id old i < 2 ^ 31)
      × (next_id old i ≢ old)
unfolding next_id
next_id_lem old i h small =
    let sum : ℕ = (old + 2 ^ 12) % 2 ^ 32 in
    ground (arith, bit_or_shifted 10 4 i, bit_or_shifted 10 ((old + 2 ^ 12) % 2 ^ 32 / 1024) i)

-- Slot `i` holds a live environment with this identifier, which the caller may manipulate.
abbrev pub Named : Kernel → ℕ → ℕ → Bool → ℕ → Type 0
Named k cpu envid checkperm i =
    (i < nenv)
    × ((k.envs i).env_id ≡ envid)
    × ((k.envs i).env_status ≢ Status.free)
    × ((checkperm ≡ true) → (k.cpu_env cpu ≡ some i) ⊎ ((k.envs i).env_parent_id ≡ cur_id k cpu))

-- In every slot in use the identifier has the slot for its index.
abbrev pub Indexed : Kernel → Type 0
Indexed k = (i : ℕ) → i < nenv → (k.envs i).env_status ≢ Status.free → envx (k.envs i).env_id ≡ i

envid2env-Named :
    (k : Kernel) (cpu envid : ℕ) (checkperm : Bool) (i : ℕ)
    → envid ≢ 0
    → envid2env k cpu envid checkperm ≡ ok (some i)
    → Named k cpu envid checkperm i
unfolding envid2env
envid2env-Named k cpu envid checkperm i pos e =
    (ground arith, ground arith, ground arith, λ c. ground arith)

envid2env_of_Named :
    (k : Kernel) (cpu envid : ℕ) (checkperm : Bool) (i : ℕ)
    → Indexed k
    → envid ≢ 0
    → Named k cpu envid checkperm i
    → envid2env k cpu envid checkperm ≡ ok (some i)
unfolding envid2env
envid2env_of_Named k cpu envid checkperm i v pos n = ground (arith, v i)

-- `envid2env` succeeds with environment `i` for a non-zero identifier exactly when that is the
-- identifier of the environment in slot `i`, the slot is in use, and, where permission is checked,
-- it is the current environment or a child of it.
pub envid2env_iff :
    (k : Kernel) (cpu envid : ℕ) (checkperm : Bool) (i : ℕ)
    → Indexed k
    → envid ≢ 0
    → (envid2env k cpu envid checkperm ≡ ok (some i)) ↔ Named k cpu envid checkperm i
envid2env_iff k cpu envid checkperm i v pos =
    (envid2env-Named k cpu envid checkperm i pos, envid2env_of_Named k cpu envid checkperm i v pos)

-- An identifier that a slot had before it was allocated again is refused.
pub envid2env_stale :
    (k : Kernel) (cpu old : ℕ) (checkperm : Bool) (i : ℕ)
    → i < nenv
    → old ≢ 0
    → old < 2 ^ 32
    → envx old ≡ i
    → (k.envs i).env_id ≡ next_id old i
    → envid2env k cpu old checkperm ≡ fail bad_env
unfolding envid2env
envid2env_stale k cpu old checkperm i h pos small index e =
    ground (arith, next_id_lem old i h small)
