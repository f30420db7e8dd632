-- ===== src/Fs/Dir/Path.antt =====
-- `skip_slash`, `walk_path`, `file_create`, `file_open` and `file_remove` of fs/fs.c. A path is the
-- list of its characters, without the 0 at its end.
pub mod Slashes
use jos_operating_system.Prelude.{
  ℕ, zero, suc, ◌+◌, Bool, true, false, Option, none, some, List, [], ◌∷◌, ◌++◌, ◌==◌, ◌!=◌, leb,
  ltb, ◌&&◌, if◌then◌else◌, Outcome, returns, panics, ◌>>=◌, length,
}
use jos_operating_system.Fs.{Fs, flush_block}
use jos_operating_system.Fs.File.{
  File, FsError, not_found, bad_path, file_exists, Reply, ok, fail, file_truncate_blocks,
}
use jos_operating_system.Fs.File.Io.{file_flush}
use jos_operating_system.Fs.Dir.{
  FilePtr, s_root, load_file, store_file, put_name, dir_lookup, dir_alloc_file,
}

abbrev pub maxnamelen : ℕ
maxnamelen = 128

-- the character `/`
abbrev pub slash : ℕ
slash = 47

unfoldable pub skip_slash : List ℕ → List ℕ
skip_slash [] = []
skip_slash (c ∷ p) = let rest = skip_slash p in if c == slash then rest else c ∷ p

-- the characters up to the next slash, and the path from there on
unfoldable pub take_name : List ℕ → List ℕ × List ℕ
take_name [] = ([], [])
take_name (c ∷ p) =
    let (name, rest) = take_name p in if c == slash then ([], c ∷ p) else (c ∷ name, rest)

-- What `walk_path` returns: `code` is `none` for 0; `*pdir` and `*pf`; what is in `lastelem`.
pub record Walk : Type 0 where
  pub code : Option FsError
  pub pdir : Option FilePtr
  pub pf : Option FilePtr
  pub lastelem : List ℕ

abbrev pub lost : FsError → Walk
lost e = record { code = some e; pdir = none; pf = none; lastelem = [] }

-- `*path == '\0'`
abbrev pub is_end {ℓ} : {A : Type ℓ} → List A → Bool
is_end [] = true
is_end (c ∷ p) = false

-- what `walk_path` returns when `dir_lookup` has failed with `e`, at the end of the path or before
abbrev pub missed : FsError → FilePtr → List ℕ → Bool → Walk
missed not_found dir name true = record {
  code = some not_found;
  pdir = some dir;
  pf = none;
  lastelem = name;
}
missed e dir name last = lost e

-- The body of the loop: `f` is the file so far, `name` the next name, and `next` goes on with the
-- file that has that name in `f`.
unfoldable pub walk_round :
    List ℕ → Bool → FilePtr → Fs → (FilePtr → Fs → Outcome (Walk × Fs)) → Outcome (Walk × Fs)
walk_round name last f fs next =
    if leb maxnamelen (length name)
    then returns (lost bad_path, fs)
    else if (load_file fs f).f_type != 1
    then returns (lost not_found, fs)
    else (dir_lookup f name fs >>= λ r. elim (r.0) [
      | fail e ↦ returns (missed e f name last, r.1)
      | ok g ↦ next g r.1
    ])

-- The loop; `dir` is the directory of `f`. Each round takes a character or more, so that as many
-- rounds as characters are enough, and one to see the end.
walk_loop : ℕ → List ℕ → Option FilePtr → FilePtr → Fs → Outcome (Walk × Fs)
walk_loop zero path dir f fs = panics
walk_loop (suc n) [] dir f fs =
    returns (record { code = none; pdir = dir; pf = some f; lastelem = [] }, fs)
walk_loop (suc n) (c ∷ path) dir f fs =
    let rest = skip_slash (take_name (c ∷ path)).1 in
    walk_round (take_name (c ∷ path)).0 (is_end rest) f fs (λ g h. walk_loop n rest (some f) g h)

unfoldable pub walk_path : List ℕ → Fs → Outcome (Walk × Fs)
unfolding walk_loop
walk_path path fs = walk_loop (suc (length path)) (skip_slash path) none s_root fs

-- `file_open`; `none` in `pf` does not occur with code 0
opened : Walk × Fs → Reply FilePtr × Fs
opened (w, fs) = elim w.code [
  | some e ↦ (fail e, fs)
  | none ↦ elim w.pf [ some f ↦ (ok f, fs) | none ↦ (fail not_found, fs) ]
]

unfoldable pub file_open : List ℕ → Fs → Outcome (Reply FilePtr × Fs)
unfolding opened
file_open path fs = walk_path path fs >>= λ w. returns (opened w)

-- the file's fields read and written back around `file_flush`
pub flush_of : FilePtr → Fs → Outcome Fs
flush_of p fs = file_flush p.block (load_file fs p) fs >>= λ r. returns (store_file r.1 p r.0)

-- `file_create` behind `dir_alloc_file`
create_at : FilePtr → List ℕ → Reply FilePtr × Fs → Outcome (Reply FilePtr × Fs)
unfolding flush_of
create_at dir name (fail e, fs) = returns (fail e, fs)
create_at dir name (ok f, fs) =
    flush_of dir (put_name fs f (name ++ 0 ∷ [])) >>= λ g. returns (ok f, g)

-- `file_create` behind `walk_path`
create_in : Walk × Fs → Outcome (Reply FilePtr × Fs)
unfolding create_at
create_in (w, fs) = elim w.code [
  | none ↦ returns (fail file_exists, fs)
  | some not_found ↦ elim w.pdir [
    | none ↦ returns (fail not_found, fs)
    | some dir ↦ dir_alloc_file dir fs >>= create_at dir w.lastelem
  ]
  | some e ↦ returns (fail e, fs)
]

unfoldable pub file_create : List ℕ → Fs → Outcome (Reply FilePtr × Fs)
unfolding create_in
file_create path fs = walk_path path fs >>= create_in

-- the first byte of the name and the size cleared, and the file's block flushed
removed : FilePtr → File × Fs → Fs
removed p (f, fs) =
    let g = put_name (store_file fs p f) p (0 ∷ []) in
    flush_block (store_file g p (record (load_file g p) { f_size = 0 })) p.block

remove_at : Reply FilePtr × Fs → Outcome (Option FsError × Fs)
unfolding removed
remove_at (fail e, fs) = returns (some e, fs)
remove_at (ok p, fs) =
    file_truncate_blocks (load_file fs p) 0 fs >>= λ r. returns (none, removed p r)

unfoldable pub file_remove : List ℕ → Fs → Outcome (Option FsError × Fs)
unfolding remove_at
file_remove path fs = file_open path fs >>= remove_at
