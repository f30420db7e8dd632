-- ===== src/Descriptor.antt =====
-- The file descriptors of a user environment: lib/fd.c.
-- The area from FDTABLE on is counted in pages: page `i` below MAXFD is the Fd page of descriptor
-- `i`, and page MAXFD + `i` is its data page. `mapped` is what uvpd and uvpt say of them, as the
-- physical page, and `fd` the `struct Fd` in a physical page, so that descriptors may share one. An
-- `int` argument is its 32 bits. The devices of `devtab`, with a state of their own, and the failures
-- of sys_page_map are parameters.
pub mod Io
pub mod Alloc
pub mod Dup
pub mod Readn
mod Tests
use jos_operating_system.Prelude.{
  ℕ, zero, suc, ◌+◌, Bool, true, false, Option, none, some, List, [], ◌∷◌, ◌==◌, leb, if◌then◌else◌,
  update,
}
use jos_operating_system.Fs.Serv.{Fd}

abbrev pub maxfd : ℕ
maxfd = 32

-- a result that is not negative, or the number of an error
pub data Ret : Type 0 where
  count : ℕ → Ret
  err : ℕ → Ret

abbrev pub e_inval : ℕ
e_inval = 3

abbrev pub e_max_open : ℕ
e_max_open = 11

abbrev pub e_not_supp : ℕ
e_not_supp = 16

pub record User (W : Type 0) : Type 0 where
  pub mapped : ℕ → Option ℕ
  pub fd : ℕ → Fd
  pub world : W

pub record Stat : Type 0 where
  pub st_name : List ℕ
  pub st_size : ℕ
  pub st_isdir : Bool
  pub st_dev : Option ℕ

-- A device's functions take the descriptor's index for the `struct Fd *`, a NULL one is `none`.
pub record Dev (W : Type 0) : Type 0 where
  pub dev_id : ℕ
  pub dev_read : Option (ℕ → (ℕ → ℕ) → ℕ → User W → Ret × (ℕ → ℕ) × User W)
  pub dev_write : Option (ℕ → (ℕ → ℕ) → ℕ → User W → Ret × User W)
  pub dev_close : Option (ℕ → User W → Ret × User W)
  pub dev_stat : Option (ℕ → Stat → User W → Ret × Stat × User W)
  pub dev_trunc : Option (ℕ → ℕ → User W → Ret × User W)

-- `INDEX2DATA(i)`, as a page of the area
abbrev pub index2data : ℕ → ℕ
index2data i = maxfd + i

-- what follows a lookup that may fail
abbrev pub found_or {ℓ} : {A : Type ℓ} → Option ℕ → A → (ℕ → A) → A
found_or none refused f = refused
found_or (some q) refused f = f q

module _ {W : Type 0} where
  abbrev pub is_mapped : User W → ℕ → Bool
  is_mapped u i = found_or (u.mapped i) false λ q. true

  -- `n` rounds from descriptor `i` on; `none` is -E_MAX_OPEN
  fd_alloc_loop : ℕ → ℕ → User W → Option ℕ
  fd_alloc_loop zero i u = none
  fd_alloc_loop (suc n) i u =
      let rest = fd_alloc_loop n (i + 1) u in if is_mapped u i then rest else some i

  unfoldable pub fd_alloc : User W → Option ℕ
  unfolding fd_alloc_loop
  fd_alloc u = fd_alloc_loop maxfd 0 u

  -- the physical page of the descriptor found, or `none` for -E_INVAL
  unfoldable pub fd_lookup : ℕ → User W → Option ℕ
  fd_lookup fdnum u = if leb maxfd fdnum then none else u.mapped fdnum

  -- sys_page_unmap(0, ...) of a page of the area
  abbrev pub unmap : ℕ → User W → User W
  unmap i u = record u { mapped = update u.mapped i none }

  -- `none` for -E_INVAL
  pub dev_lookup : List (Dev W) → ℕ → Option (Dev W)
  dev_lookup [] id = none
  dev_lookup (d ∷ devtab) id =
      let rest = dev_lookup devtab id in if d.dev_id == id then some d else rest

  -- the device's part of `fd_close`
  close_dev : ℕ → Option (Dev W) → User W → Ret × User W
  close_dev i none u = (err e_inval, u)
  close_dev i (some d) u = elim (d.dev_close) [ none ↦ (count 0, u) | some close ↦ close i u ]

  -- A page that is aligned is the `struct Fd *` of its number, `fd` and `fd2` do not differ.
  unfoldable pub fd_close : List (Dev W) → ℕ → Bool → User W → Ret × User W
  unfolding close_dev
  fd_close devtab i must_exist u =
      found_or (fd_lookup i u) (if must_exist then err e_inval else count 0, u)
        λ q. let r = close_dev i (dev_lookup devtab (u.fd q).fd_dev_id) u in (r.0, unmap i r.1)

  unfoldable pub close : List (Dev W) → ℕ → User W → Ret × User W
  close devtab fdnum u =
      found_or (fd_lookup fdnum u) (err e_inval, u) λ q. fd_close devtab fdnum true u

  -- the loop of `close_all`, `n` rounds from descriptor `i` on
  close_loop : List (Dev W) → ℕ → ℕ → User W → User W
  close_loop devtab zero i u = u
  close_loop devtab (suc n) i u = close_loop devtab n (i + 1) (close devtab i u).1

  unfoldable pub close_all : List (Dev W) → User W → User W
  unfolding close_loop
  close_all devtab u = close_loop devtab maxfd 0 u

  -- sys_page_map(0, ...) of one page of the area at another: an error of the call, which `fails`
  -- gives by the place, -E_INVAL if the source is not mapped, or the mapping
  abbrev pub map_page : (ℕ → Option ℕ) → ℕ → ℕ → User W → Option ℕ × User W
  map_page fails from to u =
      found_or (u.mapped from) (some e_inval, u)
        λ q.
          found_or (fails to) (none, record u { mapped = update u.mapped to (some q) })
            λ e. (some e, u)

  -- the end of `dup`: the label `err`, or the new number
  dup_end : ℕ → Option ℕ × User W → Ret × User W
  dup_end newfdnum (some e, u) = (err e, unmap (index2data newfdnum) (unmap newfdnum u))
  dup_end newfdnum (none, u) = (count newfdnum, u)

  -- the second mapping, when the first has not failed
  pub dup_fd : (ℕ → Option ℕ) → ℕ → ℕ → Option ℕ × User W → Option ℕ × User W
  dup_fd fails old new (some e, u) = (some e, u)
  dup_fd fails old new (none, u) = map_page fails old new u

  unfoldable pub dup : (ℕ → Option ℕ) → List (Dev W) → ℕ → ℕ → User W → Ret × User W
  unfolding dup_end dup_fd
  dup fails devtab oldfdnum newfdnum u =
      found_or (fd_lookup oldfdnum u) (err e_inval, u)
        λ q.
          let v = (close devtab newfdnum u).1 in
          let first =
            if is_mapped v (index2data oldfdnum)
            then map_page fails (index2data oldfdnum) (index2data newfdnum) v
            else (none, v) in
          dup_end newfdnum (dup_fd fails oldfdnum newfdnum first)
