-- ===== src/Descriptor/Io.antt =====
-- The functions of lib/fd.c on what a descriptor stands for.
use jos_operating_system.Prelude.{
  ℕ, zero, suc, ◌+◌, ◌-◌, false, none, some, List, [], ◌∷◌, ◌==◌, leb, ltb, if◌then◌else◌, update,
  bit_and,
}
use jos_operating_system.Fs.Serv.{Fd}
use jos_operating_system.Descriptor.{
  Ret, count, err, e_inval, e_not_supp, User, Stat, Dev, found_or, fd_lookup, dev_lookup,
}

abbrev pub o_rdonly : ℕ
o_rdonly = 0

abbrev pub o_wronly : ℕ
o_wronly = 1

abbrev pub o_accmode : ℕ
o_accmode = 3

-- a buffer that `p + k` points to, for one that `p` points to, and back
abbrev pub behind : ℕ → (ℕ → ℕ) → ℕ → ℕ
behind k buf i = buf (k + i)

abbrev pub put_behind : ℕ → (ℕ → ℕ) → (ℕ → ℕ) → ℕ → ℕ
put_behind k part buf i = if ltb i k then buf i else part (i - k)

-- A round of `readn` behind the call of `read`, with `tot` bytes read before; `next` goes on.
abbrev pub readn_round :
    {W : Type 0}
    → (ℕ → (ℕ → ℕ) → User W → Ret × (ℕ → ℕ) × User W)
    → ℕ
    → (ℕ → ℕ)
    → Ret × (ℕ → ℕ) × User W
    → Ret × (ℕ → ℕ) × User W
readn_round next tot buf (err e, part, v) = (err e, put_behind tot part buf, v)
readn_round next tot buf (count zero, part, v) = (count tot, put_behind tot part buf, v)
readn_round next tot buf (count (suc m), part, v) = next (tot + suc m) (put_behind tot part buf) v

module _ {W : Type 0} (devtab : List (Dev W)) where
  -- `fd_lookup` and `dev_lookup` in front of a function on the `struct Fd` and the device
  abbrev pub on_dev : {A : Type 0} → ℕ → User W → A → (Fd → Dev W → A) → A
  on_dev fdnum u refused f =
      found_or (fd_lookup fdnum u) refused
        λ q. elim (dev_lookup devtab (u.fd q).fd_dev_id) [ none ↦ refused | some d ↦ f (u.fd q) d ]

  unfoldable pub read : ℕ → (ℕ → ℕ) → ℕ → User W → Ret × (ℕ → ℕ) × User W
  read fdnum buf n u =
      on_dev fdnum u (err e_inval, buf, u)
        λ f d.
          if bit_and f.fd_omode o_accmode == o_wronly
          then (err e_inval, buf, u)
          else elim (d.dev_read) [
            | none ↦ (err e_not_supp, buf, u)
            | some dev_read ↦ dev_read fdnum buf n u
          ]

  -- The loop of `readn`, with `tot` bytes read. The source's `m` and `tot` are of type int: this is
  -- its behaviour for n < 2^31 and devices that return at most as many bytes as they are asked for,
  -- where both stay below 2^31; beyond that the additions of the source may overflow.
  -- Each round but the last reads a byte or more, so that as many rounds as bytes are enough.
  unfoldable pub readn_loop : ℕ → ℕ → ℕ → (ℕ → ℕ) → ℕ → User W → Ret × (ℕ → ℕ) × User W
  readn_loop zero fdnum tot buf n u = (count tot, buf, u)
  readn_loop (suc fuel) fdnum tot buf n u =
      if leb n tot
      then (count tot, buf, u)
      else readn_round (λ t b v. readn_loop fuel fdnum t b n v) tot buf
          (read fdnum (behind tot buf) (n - tot) u)

  unfoldable pub readn : ℕ → (ℕ → ℕ) → ℕ → User W → Ret × (ℕ → ℕ) × User W
  readn fdnum buf n u = readn_loop n fdnum 0 buf n u

  unfoldable pub write : ℕ → (ℕ → ℕ) → ℕ → User W → Ret × User W
  write fdnum buf n u =
      on_dev fdnum u (err e_inval, u)
        λ f d.
          if bit_and f.fd_omode o_accmode == o_rdonly
          then (err e_inval, u)
          else elim (d.dev_write) [
            | none ↦ (err e_not_supp, u)
            | some dev_write ↦ dev_write fdnum buf n u
          ]

  unfoldable pub ftruncate : ℕ → ℕ → User W → Ret × User W
  ftruncate fdnum newsize u =
      on_dev fdnum u (err e_inval, u)
        λ f d.
          if bit_and f.fd_omode o_accmode == o_rdonly
          then (err e_inval, u)
          else elim (d.dev_trunc) [
            | none ↦ (err e_not_supp, u)
            | some dev_trunc ↦ dev_trunc fdnum newsize u
          ]

  -- `st_name[0]` set to 0
  abbrev pub clear_first : List ℕ → List ℕ
  clear_first [] = []
  clear_first (c ∷ s) = 0 ∷ s

  unfoldable pub fstat : ℕ → Stat → User W → Ret × Stat × User W
  fstat fdnum stat u =
      on_dev fdnum u (err e_inval, stat, u)
        λ f d. elim (d.dev_stat) [
          | none ↦ (err e_not_supp, stat, u)
          | some dev_stat ↦
              dev_stat fdnum
                (record {
                  st_name = clear_first stat.st_name;
                  st_size = 0;
                  st_isdir = false;
                  st_dev = some d.dev_id;
                })
                u
        ]

unfoldable pub seek : {W : Type 0} → ℕ → ℕ → User W → Ret × User W
seek fdnum offset u =
    found_or (fd_lookup fdnum u) (err e_inval, u)
      λ q. (count 0, record u { fd = update u.fd q (record (u.fd q) { fd_offset = offset }) })
