-- ===== src/Prelude/Arrays.antt =====
-- C arrays that are never indexed out of their range, as functions from the index.
use Prim.Native.Nat.{ℕ}
use jos_operating_system.Prelude.Tests.{◌==◌, if◌then◌else◌}

module _ {ℓ} {A : Type ℓ} where
  -- `a[i] = v`
  abbrev pub update : (ℕ → A) → ℕ → A → ℕ → A
  update f i v j = if i == j then v else f j
