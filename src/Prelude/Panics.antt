-- ===== src/Prelude/Panics.antt =====
-- A call that may end in `panic` or a failed `assert`, which stop the machine.
use mathlib.Core.Path.{◌≡◌, refl, subst}
use mathlib.Core.Logic.{◌⊎◌, inl, inr}

pub data Outcome {ℓ} (A : Type ℓ) : Type ℓ where
  returns : A → Outcome A
  panics : Outcome A

infixl 5 ◌>>=◌
abbrev pub ◌>>=◌ {ℓ κ} : {A : Type ℓ} {B : Type κ} → Outcome A → (A → Outcome B) → Outcome B
returns a >>= f = f a
panics >>= f = panics

pub Outcome-cases {ℓ} : {A : Type ℓ} (o : Outcome A) → (o ≡ panics) ⊎ ((a : A) × (o ≡ returns a))
Outcome-cases (returns a) = inr (a, refl)
Outcome-cases panics = inl refl

-- a result that has the property, or a panic
abbrev pub Answers {ℓ κ} : {A : Type ℓ} → (A → Type κ) → Outcome A → Type κ
Answers P panics = Unit
Answers P (returns a) = P a

pub Answers-then {ℓ κ ι} :
    {A : Type ℓ} {B : Type κ} (P : B → Type ι) (o : Outcome A) (f : A → Outcome B)
    → ((a : A) → Answers P (f a))
    → Answers P (o >>= f)
Answers-then P panics f h = tt
Answers-then P (returns a) f h = h a

pub Answers-returns {ℓ κ} :
    {A : Type ℓ} (P : A → Type κ) (o : Outcome A) (a : A) → Answers P o → o ≡ returns a → P a
Answers-returns P o a h e = subst (Answers P) e h
