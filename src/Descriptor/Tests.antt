-- ===== src/Descriptor/Tests.antt =====
-- The theorems on descriptors at an environment whose descriptors 0 and 1 are open on a device that
-- gives the bytes 0, 1, 2 ... of a stream of 20, at most three at a time.
use jos_operating_system.Prelude.{
  ℕ, suc, ◌+◌, ◌-◌, ◌<◌, ◌≡◌, refl, sym, ap, ◌∙◌, Option, none, some, [], ◌∷◌, arith, ltb, min,
  if◌then◌else◌, List,
}
use mathlib.Core.Path.{subst}
use jos_operating_system.Descriptor.{Ret, count, User, Dev, fd_lookup, close, dup, dev_lookup}
use jos_operating_system.Descriptor.Io.{read, readn}
use jos_operating_system.Descriptor.Dup.{Shares, dup-Shares}
use jos_operating_system.Descriptor.Readn.{Serves, readn_lem}

-- the device's state is the number of bytes read
abbrev three_bytes : ℕ → (ℕ → ℕ) → ℕ → User ℕ → Ret × (ℕ → ℕ) × User ℕ
three_bytes i buf n u =
    let m = min (min n 3) (20 - u.world) in
    (count m, (λ k. if ltb k m then u.world + k else buf k), record u { world = u.world + m })

abbrev device : Dev ℕ
device = record {
  dev_id = 116;
  dev_read = some three_bytes;
  dev_write = none;
  dev_close = none;
  dev_stat = none;
  dev_trunc = none;
}

abbrev forward : ℕ → User ℕ → User ℕ
forward m u = record u { world = u.world + m }

abbrev devices : List (Dev ℕ)
devices = device ∷ []

abbrev two_open : User ℕ
two_open = record {
  mapped = λ i. if ltb i 2 then some (100 + i) else none;
  fd = λ q. record { fd_dev_id = 116; fd_offset = 0; fd_omode = 0; id = 0 };
  world = 0;
}

abbrev no_failure : ℕ → Option ℕ
no_failure i = none

dup-Shares_example : Shares 1 5 (dup no_failure devices 1 5 two_open).1
unfolding dup fd_lookup close
dup-Shares_example =
    dup-Shares no_failure devices 1 5 5 two_open (dup no_failure devices 1 5 two_open).1
      (omega arith) (omega arith) refl

-- nothing but the device's state is another
abbrev IsAt : User ℕ → Type 0
IsAt u = u ≡ record two_open { world = u.world }

reads_three :
    (buf : ℕ → ℕ) (n : ℕ) (u : User ℕ) → IsAt u → read devices 0 buf n u ≡ three_bytes 0 buf n u
unfolding read fd_lookup dev_lookup
reads_three buf n u e = subst (λ t. read devices 0 buf n t ≡ three_bytes 0 buf n t) (sym e) refl

at_end : (w : ℕ) (u : User ℕ) → IsAt u → record u { world = w } ≡ record two_open { world = w }
at_end w u e = subst (λ t. record t { world = w } ≡ record two_open { world = w }) (sym e) refl

device_serves : Serves devices 0 (λ u. u.world) 20 (λ i. i) IsAt
device_serves = record {
  gives = λ buf n u e pos before.
      let m = min (min n 3) (20 - u.world) in
      let some_bytes : suc (m - 1) ≡ m = omega arith in
      (
        m - 1,
        (λ k. if ltb k m then u.world + k else buf k),
        forward m u,
        reads_three buf n u e
            ∙ ap (λ c. (count c, (λ k. if ltb k m then u.world + k else buf k), forward m u))
                (sym some_bytes),
        omega arith,
        omega arith,
        λ i l. ground arith,
        omega arith,
        at_end (u.world + m) u e,
      );
  ends = λ buf n u e pos over.
      let m = min (min n 3) (20 - u.world) in
      let no_bytes : m ≡ 0 = omega arith in
      (
        (λ k. if ltb k m then u.world + k else buf k),
        forward m u,
        reads_three buf n u e
            ∙ ap (λ c. (count c, (λ k. if ltb k m then u.world + k else buf k), forward m u))
                no_bytes,
        omega arith,
        at_end (u.world + m) u e,
      );
}

readn_example :
    (buf : ℕ → ℕ) × (v : User ℕ) × (readn devices 0 (λ k. 0) 9 two_open ≡ (count 9, buf, v))
    × ((i : ℕ) → i < 9 → buf i ≡ 0 + i)
    × (v.world ≡ 9)
readn_example =
    readn_lem devices 0 (λ u. u.world) 20 (λ i. i) IsAt (λ k. 0) 9 two_open (omega arith)
      device_serves refl
