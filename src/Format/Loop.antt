-- ===== src/Format/Loop.antt =====
-- The loop of `vprintfmt` in lib/printfmt.c ends.
use jos_operating_system.Prelude.{
  ℕ, zero, suc, ◌<◌, ◌≤◌, ◌≡◌, ◌≢◌, refl, true, false, Option, none, some, List, [], ◌∷◌, ◌++◌,
  ◌==◌, ◌||◌, length, arith, Bool-cases, inl, inr, Option-cases,
}
use jos_operating_system.Cstring.{later}
use jos_operating_system.Format.Spec.{
  Arg, Spec, new_spec, Escape, read_escape, turn, reswitch, convert, no_argument,
}
use jos_operating_system.Format.Vprintfmt.{
  conversion_of, converted, takes_integer, vprintfmt_loop, vprintfmt,
}

-- what an answer, if any, satisfies
abbrev pub Ensures {ℓ κ} : {A : Type ℓ} → (A → Type κ) → Option A → Type κ
Ensures P none = Unit
Ensures P (some a) = P a

pub Ensures-some {ℓ κ} :
    {A : Type ℓ} (P : A → Type κ) (o : Option A) (a : A) → Ensures P o → o ≡ some a → P a
Ensures-some P none a h e = absurd (cc e)
Ensures-some P (some b) a h e = ground arith

Ensures-later {ℓ κ ι} :
    {A : Type ℓ} {B : Type κ} (P : B → Type ι) (f : A → B) (o : Option A)
    → ((a : A) → P (f a))
    → Ensures P (later f o)
Ensures-later P f none h = tt
Ensures-later P f (some a) h = h a

Ensures-weaken {ℓ κ ι} :
    {A : Type ℓ} (P : A → Type κ) (Q : A → Type ι) (o : Option A)
    → ((a : A) → P a → Q a)
    → Ensures P o
    → Ensures Q o
Ensures-weaken P Q none f h = tt
Ensures-weaken P Q (some a) f h = f a h

-- An escape leaves a shorter format.
read_escape-shorter :
    (n : Option ℕ) (s : Spec) (fmt : List ℕ) (args : List Arg)
    → Ensures (λ (e : Escape). length e.format < length fmt) (read_escape n s fmt args)
unfolding read_escape
read_escape-shorter n s [] args = tt
read_escape-shorter n s (ch ∷ fmt) args =
    elim (turn n s ch args)
      as (λ t.
        Ensures (λ (e : Escape). length e.format < suc (length fmt))
          (elim t [
            | reswitch n' s' args' ↦ read_escape n' s' fmt args'
            | convert s' ↦ some (record { spec = s'; conversion = ch; format = fmt; args = args })
            | no_argument ↦ none
          ])) [
            | reswitch n' s' args' ↦
                Ensures-weaken (λ (e : Escape). length e.format < length fmt)
                  (λ (e : Escape). length e.format < suc (length fmt)) (read_escape n' s' fmt args')
                  (λ e h. omega arith) (read_escape-shorter n' s' fmt args')
            | convert s' ↦ omega arith
            | no_argument ↦ tt
          ]

converted-shorter :
    (after : List ℕ) (e : Escape)
    → length e.format < length after
    → Ensures
        (λ (r : List ℕ × (List ℕ × List Arg)). length r.1.0 ≤ length after)
        (converted after e)
unfolding converted
converted-shorter after e h = elim (Bool-cases (e.conversion == b'%')) [
  | inl p ↦ rw (p, converted) (omega arith)
  | inr p ↦ elim (Bool-cases (takes_integer e.conversion || (e.conversion == b's'))) [
    | inl q ↦
        rw (p, q)
          (Ensures-later (λ (r : List ℕ × (List ℕ × List Arg)). length r.1.0 ≤ length after)
            (λ done. (done.0, (e.format, done.1))) (conversion_of e.spec e.conversion e.args)
            (λ done. omega arith))
    | inr q ↦ rw (p, q) (omega arith)
  ]
]

-- a result, and not a call for more rounds
abbrev Finished : Option (Option (List ℕ)) → Type 0
Finished o = o ≢ some none

Finished-later :
    (f : List ℕ → List ℕ) (o : Option (Option (List ℕ)))
    → Finished o
    → Finished (later (λ rest. later f rest) o)
Finished-later f none h e = absurd (cc e)
Finished-later f (some none) h e = h refl
Finished-later f (some (some l)) h e = absurd (cc e)

-- The rounds of the loop.
module _ (fuel : ℕ) (ch : ℕ) (fmt : List ℕ) (args : List Arg) where
  round-plain :
      (ch == b'%') ≡ false
      → (ch == 0) ≡ false
      → vprintfmt_loop (suc fuel) (ch ∷ fmt) args
        ≡ later (λ rest. later (λ t. ch ∷ t) rest) (vprintfmt_loop fuel fmt args)
  unfolding vprintfmt_loop
  round-plain p q = rw (vprintfmt_loop, p, q) refl

  round-end :
      (ch == b'%') ≡ false
      → (ch == 0) ≡ true
      → vprintfmt_loop (suc fuel) (ch ∷ fmt) args ≡ some (some [])
  unfolding vprintfmt_loop
  round-end p q = rw (vprintfmt_loop, p, q) refl

  round-no_escape :
      (ch == b'%') ≡ true
      → read_escape none new_spec fmt args ≡ none
      → vprintfmt_loop (suc fuel) (ch ∷ fmt) args ≡ none
  unfolding vprintfmt_loop
  round-no_escape p q = rw (vprintfmt_loop, p, q) refl

  round-no_value :
      (e : Escape)
      → (ch == b'%') ≡ true
      → read_escape none new_spec fmt args ≡ some e
      → converted fmt e ≡ none
      → vprintfmt_loop (suc fuel) (ch ∷ fmt) args ≡ none
  unfolding vprintfmt_loop
  round-no_value e p q r = rw (vprintfmt_loop, p, q, r) refl

  pub round-escape :
      (e : Escape) (out fmt' : List ℕ) (args' : List Arg)
      → (ch == b'%') ≡ true
      → read_escape none new_spec fmt args ≡ some e
      → converted fmt e ≡ some (out, (fmt', args'))
      → vprintfmt_loop (suc fuel) (ch ∷ fmt) args
        ≡ later (λ rest. later (λ t. out ++ t) rest) (vprintfmt_loop fuel fmt' args')
  unfolding vprintfmt_loop
  round-escape e out fmt' args' p q r = rw (vprintfmt_loop, p, q, r) refl

vprintfmt_loop-Finished :
    (fuel : ℕ) (fmt : List ℕ) (args : List Arg)
    → length fmt < fuel
    → Finished (vprintfmt_loop fuel fmt args)
vprintfmt_loop-Finished zero fmt args h = absurd (omega arith)
vprintfmt_loop-Finished (suc fuel) [] args h = λ e. unfold vprintfmt_loop in absurd (cc e)
vprintfmt_loop-Finished (suc fuel) (ch ∷ fmt) args h = elim (Bool-cases (ch == b'%')) [
  | inl p ↦ elim (Option-cases (read_escape none new_spec fmt args)) [
    | inl q ↦ rw (round-no_escape fuel ch fmt args p q) (λ e. absurd (cc e))
    | inr (e, q) ↦ elim (Option-cases (converted fmt e)) [
      | inl r ↦ rw (round-no_value fuel ch fmt args e p q r) (λ f. absurd (cc f))
      | inr ((out, (fmt', args')), r) ↦
          (let shorter = Ensures-some _ _ e (read_escape-shorter none new_spec fmt args) q in
            let less = Ensures-some _ _ (out, (fmt', args')) (converted-shorter fmt e shorter) r in
            rw (round-escape fuel ch fmt args e out fmt' args' p q r) (
              Finished-later (λ t. out ++ t) (vprintfmt_loop fuel fmt' args')
                (vprintfmt_loop-Finished fuel fmt' args' (omega arith))))
    ]
  ]
  | inr p ↦ elim (Bool-cases (ch == 0)) [
    | inl q ↦ rw (round-end fuel ch fmt args p q) (λ f. absurd (cc f))
    | inr q ↦ rw (round-plain fuel ch fmt args p q) (
        Finished-later (λ t. ch ∷ t) (vprintfmt_loop fuel fmt args)
          (vprintfmt_loop-Finished fuel fmt args (omega arith)))
  ]
]

-- `vprintfmt` ends on every format and all arguments: one round more than the format has bytes is always
-- enough.
pub vprintfmt_ends : (fmt : List ℕ) (args : List Arg) → vprintfmt fmt args ≢ some none
unfolding vprintfmt
vprintfmt_ends fmt args = vprintfmt_loop-Finished (suc (length fmt)) fmt args (omega arith)
