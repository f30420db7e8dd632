-- ===== src/Fs/Dir/Lookup.antt =====
-- `dir_lookup` finds a name exactly where the directory has it.
use jos_operating_system.Prelude.{
  ℕ, zero, suc, ◌+◌, ◌*◌, ◌/◌, ◌%◌, ◌<◌, ◌≤◌, ◌≡◌, refl, Bool, true, false, Option, none, some,
  List, [], ◌∷◌, ◌++◌, arith, ◌⊎◌, ◌↔◌, inl, inr, returns, Bool-cases, Option-cases, ap, ◌∙◌,
}
use mathlib.Core.Path.{fun_ext}
use native.Mathlib.Decide.{ℕ_discrete}
use jos_operating_system.Cstring.{Difference, ◌minus◌, strcmp}
use jos_operating_system.Cstring.Length.{IsString}
use jos_operating_system.Cstring.Compare.{strcmp_iff, strcmp_equal}
use jos_operating_system.Fs.{Fs, blksize}
use jos_operating_system.Fs.File.{not_found, ok, fail}
use jos_operating_system.Fs.File.Io.Layout.{IsLayout, get_layout}
use jos_operating_system.Fs.Dir.{
  FilePtr, entry, load_file, store_file, f_name, get_block_of, has_name, scan_files, scan_blocks,
  or_not_found, dir_lookup,
}

-- Writing back the fields that were read changes nothing.
pub store-load : (fs : Fs) (p : FilePtr) → store_file fs p (load_file fs p) ≡ fs
store-load fs p = ap (λ w. record fs { word = w }) (fun_ext λ b. fun_ext λ k. ground arith)

get_block_of_layout :
    (p : FilePtr) (fs : Fs) (block : ℕ → ℕ) (n : ℕ)
    → IsLayout (load_file fs p) fs block
    → n * blksize < (load_file fs p).f_size
    → get_block_of p n fs ≡ returns (ok (block n), fs)
get_block_of_layout p fs block n v h =
    rw (get_layout (load_file fs p) fs block n v h)
      (ap (λ t. returns (ok (block n), t)) (store-load fs p))

module _ (test : FilePtr → Bool) where
  pub scan_files-some :
      (n j b : ℕ) (p : FilePtr)
      → scan_files test n j b ≡ some p
      → (i : ℕ) × (j ≤ i) × (i < j + n) × (p ≡ entry b i) × (test p ≡ true)
  unfolding scan_files
  scan_files-some zero j b p e = absurd (ground arith)
  scan_files-some (suc n) j b p e = elim (Bool-cases (test (entry b j))) [
    | inl hit ↦
        (let same : p ≡ entry b j = ground (arith, hit) in
          (j, omega arith, omega arith, same, ap test same ∙ hit))
    | inr miss ↦
        (let (i, lo, hi, at, t) = scan_files-some n (j + 1) b p (ground (arith, miss)) in
          (i, omega arith, omega arith, at, t))
  ]

  pub scan_files-none :
      (n j b : ℕ)
      → scan_files test n j b ≡ none
      → (i : ℕ) → j ≤ i
      → i < j + n
      → test (entry b i) ≡ false
  unfolding scan_files
  scan_files-none zero j b e i lo hi = absurd (omega arith)
  scan_files-none (suc n) j b e i lo hi = elim (Bool-cases (test (entry b j))) [
    | inl hit ↦ absurd (ground (arith, hit))
    | inr miss ↦ elim (ℕ_discrete i j) [
      | yes here ↦ ap (λ t. test (entry b t)) here ∙ miss
      | no past ↦ scan_files-none n (j + 1) b (ground (arith, miss)) i (omega arith) (omega arith)
    ]
  ]

-- Entry `j` of block `n` of the directory passes the test.
abbrev pub At : (Fs → FilePtr → Bool) → FilePtr → (ℕ → ℕ) → Fs → FilePtr → Type 0
At test dir block fs p =
    (n j : ℕ) × (n < (load_file fs dir).f_size / blksize)
    × (j < 16)
    × (p ≡ entry (block n) j)
    × (test fs p ≡ true)

-- What the search of the blocks from `i` on comes to: an entry that passes, or none that does.
abbrev pub Searched : (Fs → FilePtr → Bool) → FilePtr → (ℕ → ℕ) → Fs → ℕ → ℕ → Type 0
Searched test dir block fs n i =
    ((p : FilePtr) × (scan_blocks test dir n i fs ≡ returns (some (ok p), fs))
      × At test dir block fs p)
    ⊎ ((scan_blocks test dir n i fs ≡ returns (none, fs))
        × ((m j : ℕ) → i ≤ m → m < i + n → j < 16 → test fs (entry (block m) j) ≡ false))

module _ (test : Fs → FilePtr → Bool) (dir : FilePtr) (fs : Fs) (b n i : ℕ) where
  scan_hit :
      (p : FilePtr)
      → get_block_of dir i fs ≡ returns (ok b, fs)
      → scan_files (test fs) 16 0 b ≡ some p
      → scan_blocks test dir (suc n) i fs ≡ returns (some (ok p), fs)
  unfolding scan_blocks
  scan_hit p got hit = ground (arith, got, hit)

  scan_miss :
      get_block_of dir i fs ≡ returns (ok b, fs)
      → scan_files (test fs) 16 0 b ≡ none
      → scan_blocks test dir (suc n) i fs ≡ scan_blocks test dir n (i + 1) fs
  unfolding scan_blocks
  scan_miss got miss = ground (arith, got, miss)

pub scan_blocks_lem :
    (test : Fs → FilePtr → Bool) (dir : FilePtr) (block : ℕ → ℕ) (fs : Fs) (n i : ℕ)
    → IsLayout (load_file fs dir) fs block
    → i + n ≤ (load_file fs dir).f_size / blksize
    → Searched test dir block fs n i
unfolding scan_blocks
scan_blocks_lem test dir block fs zero i v inside = inr (refl, λ m j lo hi s. absurd (omega arith))
scan_blocks_lem test dir block fs (suc n) i v inside =
    let got = get_block_of_layout dir fs block i v (omega arith) in
    elim (Option-cases (scan_files (test fs) 16 0 (block i))) [
      | inr (p, hit) ↦
          (let (j, lo, hi, at, t) = scan_files-some (test fs) 16 0 (block i) p hit in
            inl (
              p,
              scan_hit test dir fs (block i) n i p got hit,
              (i, j, omega arith, omega arith, at, t),
            ))
      | inl miss ↦ elim (scan_blocks_lem test dir block fs n (i + 1) v (omega arith)) [
        | inl (p, ran, at) ↦ inl (p, scan_miss test dir fs (block i) n i got miss ∙ ran, at)
        | inr (ran, none_there) ↦ inr (
          scan_miss test dir fs (block i) n i got miss ∙ ran,
          λ m j lo hi s. elim (ℕ_discrete m i) [
            | yes here ↦
                ap (λ t. test fs (entry (block t) j)) here
                ∙ scan_files-none (test fs) 16 0 (block i) miss j (omega arith) (omega arith)
            | no past ↦ none_there m j (omega arith) (omega arith) s
          ],
        )
      ]
    ]

-- `dir_lookup` in a directory all of whose blocks are there changes nothing. It returns an entry of
-- the directory that has the name, or -E_NOT_FOUND, and then no entry has it.
pub dir_lookup_lem :
    (dir : FilePtr) (name : List ℕ) (block : ℕ → ℕ) (fs : Fs)
    → IsLayout (load_file fs dir) fs block
    → (load_file fs dir).f_size % blksize ≡ 0
    → ((p : FilePtr) × (dir_lookup dir name fs ≡ returns (ok p, fs))
        × At (λ g q. has_name g q name) dir block fs p)
      ⊎ ((dir_lookup dir name fs ≡ returns (fail not_found, fs))
          × ((n j : ℕ)
              → n < (load_file fs dir).f_size / blksize
              → j < 16
              → has_name fs (entry (block n) j) name ≡ false))
unfolding dir_lookup or_not_found
dir_lookup_lem dir name block fs v whole =
    let size = (load_file fs dir).f_size in
    elim (scan_blocks_lem (λ g q. has_name g q name) dir block fs (size / blksize) 0 v
      (omega arith)) [
        | inl (p, ran, at) ↦ inl (p, rw (whole, ran) refl, at)
        | inr (ran, nowhere) ↦
            inr (rw (whole, ran) refl, λ n j hi s. nowhere n j (omega arith) (omega arith) s)
      ]

-- `strcmp` finds the name in an entry exactly when the entry's bytes are the name and a 0.
pub has_name_iff :
    (fs : Fs) (p : FilePtr) (name : List ℕ)
    → IsString name
    → (has_name fs p name ≡ true) ↔ ((rest : List ℕ) × (f_name fs p ≡ name ++ 0 ∷ rest))
has_name_iff fs p name v = (from (strcmp (f_name fs p) (name ++ 0 ∷ [])) refl, to)
  where
    from :
        (o : Option Difference)
        → strcmp (f_name fs p) (name ++ 0 ∷ []) ≡ o
        → has_name fs p name ≡ true
        → (rest : List ℕ) × (f_name fs p ≡ name ++ 0 ∷ rest)
    from none e h = absurd (ground (arith, e))
    from (some (a minus b)) e h =
        let same : a ≡ b = ground (arith, e) in
        strcmp_equal (f_name fs p) name [] b v (e ∙ ap (λ t. some (t minus b)) same)

    to : (rest : List ℕ) × (f_name fs p ≡ name ++ 0 ∷ rest) → has_name fs p name ≡ true
    to (rest, at) =
        let (x, y, r, same) = strcmp_iff name name rest [] v v in
        let equal : x ≡ y = same.1 refl in
        ground (arith, ap (λ l. strcmp l (name ++ 0 ∷ [])) at ∙ r, equal)
