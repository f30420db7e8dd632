-- ===== src/Memory.antt =====
-- `memmove`, `memcpy` and `memset` of lib/string.c, as compiled with ASM: string instructions that
-- move or store one byte or four bytes at a time, upwards or downwards. Memory is a function from
-- the address, and the ranges do not wrap around.
pub mod Move
mod Tests
use jos_operating_system.Prelude.{
  ℕ, zero, suc, ◌+◌, ◌-◌, ◌/◌, ◌%◌, ◌<◌, ◌≡◌, Bool, true, false, ◌==◌, ◌&&◌, leb, ltb,
  if◌then◌else◌,
}

-- `w` bytes from `s` read, and written to `d`, at once
abbrev pub chunk : ℕ → ℕ → ℕ → (ℕ → ℕ) → ℕ → ℕ
chunk w d s m a = if leb d a && ltb a (d + w) then m (s + (a - d)) else m a

-- `cld; rep movs`, `n` times
unfoldable pub movs_up : ℕ → ℕ → ℕ → ℕ → (ℕ → ℕ) → ℕ → ℕ
movs_up w zero d s m = m
movs_up w (suc n) d s m = movs_up w n (d + w) (s + w) (chunk w d s m)

-- `std; rep movs`, `n` times, from the last chunk down; `d` and `s` are the ends of the ranges
unfoldable pub movs_down : ℕ → ℕ → ℕ → ℕ → (ℕ → ℕ) → ℕ → ℕ
movs_down w zero d s m = m
movs_down w (suc n) d s m = movs_down w n (d - w) (s - w) (chunk w (d - w) (s - w) m)

-- `s%4 == 0 && d%4 == 0 && n%4 == 0`
abbrev pub aligned : ℕ → ℕ → ℕ → Bool
aligned d s n = (s % 4 == 0) && (d % 4 == 0) && (n % 4 == 0)

unfoldable pub memmove : ℕ → ℕ → ℕ → (ℕ → ℕ) → ℕ → ℕ
memmove d s n m =
    if ltb s d && ltb d (s + n)
    then (if aligned (d + n) (s + n) n
        then movs_down 4 (n / 4) (d + n) (s + n) m
        else movs_down 1 n (d + n) (s + n) m)
    else if aligned d s n
    then movs_up 4 (n / 4) d s m
    else movs_up 1 n d s m

unfoldable pub memcpy : ℕ → ℕ → ℕ → (ℕ → ℕ) → ℕ → ℕ
memcpy d s n m = memmove d s n m
