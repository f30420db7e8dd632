-- ===== src/Fs/Dir/Path/Slashes.antt =====
-- `walk_path` goes through the names of a path, one by one.
use jos_operating_system.Prelude.{
  ℕ, zero, suc, ◌<◌, ◌≤◌, ◌≡◌, ◌≢◌, refl, false, ◌==◌, if◌then◌else◌, ◌⊎◌, inl, inr, Option, none,
  some, List, [], ◌∷◌, arith, Outcome, returns, length, ap, sym, ◌∙◌,
}
use native.Mathlib.Decide.{ℕ_discrete}
use mathlib.Core.Path.{fun_ext}
use jos_operating_system.Fs.{Fs}
use jos_operating_system.Fs.Dir.{FilePtr, s_root}
use jos_operating_system.Fs.Dir.Path.{
  slash, skip_slash, take_name, Walk, is_end, walk_round, walk_loop, walk_path,
}

-- The reference: each name is looked up in what the names before it led to.
unfoldable pub walk_names : List (List ℕ) → Option FilePtr → FilePtr → Fs → Outcome (Walk × Fs)
walk_names [] dir f fs =
    returns (record { code = none; pdir = dir; pf = some f; lastelem = [] }, fs)
walk_names (name ∷ names) dir f fs =
    walk_round name (is_end names) f fs (λ g h. walk_names names (some f) g h)

-- The reference for the names of a path: its pieces between the slashes, but for the empty ones.
abbrev pub onto : ℕ → List (List ℕ) → List (List ℕ)
onto c [] = (c ∷ []) ∷ []
onto c (name ∷ names) = (c ∷ name) ∷ names

unfoldable pub pieces : List ℕ → List (List ℕ)
pieces [] = [] ∷ []
pieces (c ∷ p) = let rest = pieces p in if c == slash then [] ∷ rest else onto c rest

abbrev pub filled : List (List ℕ) → List (List ℕ)
filled [] = []
filled ([] ∷ names) = filled names
filled ((c ∷ s) ∷ names) = (c ∷ s) ∷ filled names

abbrev pub path_names : List ℕ → List (List ℕ)
path_names p = filled (pieces p)

pieces-slash : (p : List ℕ) → pieces (slash ∷ p) ≡ [] ∷ pieces p
unfolding pieces
pieces-slash p = refl

pieces-other : (c : ℕ) (p : List ℕ) → c ≢ slash → pieces (c ∷ p) ≡ onto c (pieces p)
unfolding pieces
pieces-other c p ne = let e : (c == slash) ≡ false = ground arith in rw e refl

take-slash : (p : List ℕ) → take_name (slash ∷ p) ≡ ([], slash ∷ p)
unfolding take_name
take-slash p = refl

take-other :
    (c : ℕ) (p : List ℕ) → c ≢ slash → take_name (c ∷ p) ≡ (c ∷ (take_name p).0, (take_name p).1)
unfolding take_name
take-other c p ne = let e : (c == slash) ≡ false = ground arith in rw e refl

skip-slash : (p : List ℕ) → skip_slash (slash ∷ p) ≡ skip_slash p
unfolding skip_slash
skip-slash p = refl

skip-other : (c : ℕ) (p : List ℕ) → c ≢ slash → skip_slash (c ∷ p) ≡ c ∷ p
unfolding skip_slash
skip-other c p ne = let e : (c == slash) ≡ false = ground arith in rw e refl

-- The name that a path begins with is its first piece, and the names behind it are those of the rest.
record Cut (p : List ℕ) : Type 0 where
  others : List (List ℕ)
  first : pieces p ≡ (take_name p).0 ∷ others
  behind : filled others ≡ path_names (take_name p).1
  shorter : length (take_name p).1 ≤ length p

Cut-empty : Cut []
unfolding pieces take_name
Cut-empty = record { others = []; first = refl; behind = refl; shorter = omega arith }

cut : (p : List ℕ) → Cut p
cut [] = Cut-empty
cut (c ∷ p) = elim (ℕ_discrete c slash) [
  | yes e ↦ rw e (record {
    others = pieces p;
    first = pieces-slash p ∙ ap (λ x. x.0 ∷ pieces p) (sym (take-slash p));
    behind = ap filled (sym (pieces-slash p)) ∙ ap (λ x. path_names x.1) (sym (take-slash p));
    shorter = rw (take-slash p) (omega arith);
  })
  | no other ↦
      (let r = cut p in
        record {
          others = r.others;
          first =
              pieces-other c p other
              ∙ ap (onto c) r.first
              ∙ ap (λ x. x.0 ∷ r.others) (sym (take-other c p other));
          behind = r.behind ∙ ap (λ x. path_names x.1) (sym (take-other c p other));
          shorter = rw (take-other c p other) (omega (arith, r.shorter));
        })
]

-- What is left of a path without the slashes in front: nothing, or a path that begins with a name.
record Begins (p : List ℕ) : Type 0 where
  head : ℕ
  rest : List ℕ
  begins : skip_slash p ≡ head ∷ rest
  plain : head ≢ slash
  same : path_names p ≡ path_names (head ∷ rest)
  short : length rest < length p

skip_cases : (p : List ℕ) → ((skip_slash p ≡ []) × (path_names p ≡ [])) ⊎ Begins p
unfolding skip_slash pieces
skip_cases [] = inl (refl, refl)
skip_cases (c ∷ p) = elim (ℕ_discrete c slash) [
  | yes e ↦ rw e (elim (skip_cases p) [
    | inl (none_left, no_names) ↦
        inl (skip-slash p ∙ none_left, ap filled (pieces-slash p) ∙ no_names)
    | inr b ↦ inr (record {
      head = b.head;
      rest = b.rest;
      begins = skip-slash p ∙ b.begins;
      plain = b.plain;
      same = ap filled (pieces-slash p) ∙ b.same;
      short = omega (arith, b.short);
    })
  ])
  | no other ↦ inr (record {
    head = c;
    rest = p;
    begins = skip-other c p other;
    plain = other;
    same = refl;
    short = omega arith;
  })
]

-- a path that begins with a name
module _ (c : ℕ) (p : List ℕ) (plain : c ≢ slash) where
  abbrev first_name : List ℕ
  first_name = c ∷ (take_name p).0

  abbrev behind_name : List ℕ
  behind_name = (take_name p).1

  names-first : path_names (c ∷ p) ≡ first_name ∷ path_names behind_name
  names-first =
      let r = cut p in
      ap filled (pieces-other c p plain ∙ ap (onto c) r.first) ∙ ap (λ x. first_name ∷ x) r.behind

is_end-skip : (p : List ℕ) → is_end (skip_slash p) ≡ is_end (path_names p)
is_end-skip p = elim (skip_cases p) [
  | inl (a, b) ↦ ap is_end a ∙ ap is_end (sym b)
  | inr b ↦ ap is_end b.begins ∙ ap is_end (sym (b.same ∙ names-first b.head b.rest b.plain))
]

walk_loop-end :
    (fuel : ℕ) (dir : Option FilePtr) (f : FilePtr) (fs : Fs)
    → walk_loop (suc fuel) [] dir f fs ≡ walk_names [] dir f fs
unfolding walk_loop walk_names
walk_loop-end fuel dir f fs = refl

walk_loop-round :
    (fuel c : ℕ) (p : List ℕ) (dir : Option FilePtr) (f : FilePtr) (fs : Fs)
    → c ≢ slash
    → walk_loop (suc fuel) (c ∷ p) dir f fs
      ≡ walk_round
          (c ∷ (take_name p).0)
          (is_end (skip_slash (take_name p).1))
          f
          fs
          (λ g h. walk_loop fuel (skip_slash (take_name p).1) (some f) g h)
unfolding walk_loop
walk_loop-round fuel c p dir f fs plain =
    ap
      (λ x.
        walk_round x.0 (is_end (skip_slash x.1)) f fs
          (λ g h. walk_loop fuel (skip_slash x.1) (some f) g h))
      (take-other c p plain)

walk_names-round :
    (name : List ℕ) (names : List (List ℕ)) (dir : Option FilePtr) (f : FilePtr) (fs : Fs)
    → walk_names (name ∷ names) dir f fs
      ≡ walk_round name (is_end names) f fs (λ g h. walk_names names (some f) g h)
unfolding walk_names
walk_names-round name names dir f fs = refl

walk_loop-names :
    (fuel : ℕ) (p : List ℕ) (dir : Option FilePtr) (f : FilePtr) (fs : Fs)
    → length p < fuel
    → walk_loop fuel (skip_slash p) dir f fs ≡ walk_names (path_names p) dir f fs
walk_loop-names zero p dir f fs enough = absurd (omega arith)
walk_loop-names (suc fuel) p dir f fs enough = elim (skip_cases p) [
  | inl (a, b) ↦
      ap (λ q. walk_loop (suc fuel) q dir f fs) a
      ∙ walk_loop-end fuel dir f fs
      ∙ ap (λ names. walk_names names dir f fs) (sym b)
  | inr b ↦
      (let left = (take_name b.rest).1 in
        let less : length left < fuel = omega (arith, (cut b.rest).shorter, b.short) in
        let next : (λ g h. walk_loop fuel (skip_slash left) (some f) g h)
            ≡ (λ g h. walk_names (path_names left) (some f) g h) =
          fun_ext λ g. fun_ext λ h. walk_loop-names fuel left (some f) g h less in
        ap (λ q. walk_loop (suc fuel) q dir f fs) b.begins
        ∙ walk_loop-round fuel b.head b.rest dir f fs b.plain
        ∙ ap
            (λ e.
              walk_round (b.head ∷ (take_name b.rest).0) e f fs
                (λ g h. walk_loop fuel (skip_slash left) (some f) g h))
            (is_end-skip left)
        ∙ ap (λ k. walk_round (b.head ∷ (take_name b.rest).0) (is_end (path_names left)) f fs k)
            next
        ∙ sym (walk_names-round (b.head ∷ (take_name b.rest).0) (path_names left) dir f fs)
        ∙ ap (λ names. walk_names names dir f fs)
            (sym (b.same ∙ names-first b.head b.rest b.plain)))
]

-- `walk_path` of any path looks up the path's names one by one from the root, where the names are the
-- pieces between slashes that are not empty: slashes at the front, at the end, and more than one between
-- two names make no difference.
pub walk_path-names :
    (p : List ℕ) (fs : Fs) → walk_path p fs ≡ walk_names (path_names p) none s_root fs
unfolding walk_path
walk_path-names p fs = walk_loop-names (suc (length p)) p none s_root fs (omega arith)
