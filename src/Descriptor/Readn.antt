-- ===== src/Descriptor/Readn.antt =====
-- `readn` on devices whose reads may return less than asked for.
use jos_operating_system.Prelude.{
  ℕ, zero, suc, ◌+◌, ◌-◌, ◌<◌, ◌^◌, ◌≤◌, ◌≡◌, refl, sym, ◌∙◌, ap, true, false, List, arith, leb,
  min,
}
use native.Mathlib.Decide.{dec_lt}
use jos_operating_system.Descriptor.{Ret, count, err, User, Dev}
use jos_operating_system.Descriptor.Io.{behind, put_behind, readn_round, read, readn_loop, readn}

module _ {W : Type 0} (devtab : List (Dev W)) (fdnum : ℕ) where
  -- a round that is not the last, and one that is
  one_round :
      (fuel tot : ℕ) (buf : ℕ → ℕ) (n : ℕ) (u : User W)
      → tot < n
      → readn_loop devtab (suc fuel) fdnum tot buf n u
        ≡ readn_round
            (λ t b v. readn_loop devtab fuel fdnum t b n v)
            tot
            buf
            (read devtab fdnum (behind tot buf) (n - tot) u)
  unfolding readn_loop
  one_round fuel tot buf n u more = let going : leb n tot ≡ false = ground arith in rw going refl

  no_round :
      (fuel tot : ℕ) (buf : ℕ → ℕ) (n : ℕ) (u : User W)
      → n ≤ tot
      → readn_loop devtab fuel fdnum tot buf n u ≡ (count tot, buf, u)
  unfolding readn_loop
  no_round zero tot buf n u all = refl
  no_round (suc fuel) tot buf n u all = let over : leb n tot ≡ true = ground arith in rw over refl

  same_round :
      (f g : ℕ → (ℕ → ℕ) → User W → Ret × (ℕ → ℕ) × User W) (tot : ℕ) (buf : ℕ → ℕ)
      (r : Ret × (ℕ → ℕ) × User W)
      → ((t : ℕ) (b : ℕ → ℕ) (v : User W) → tot < t → f t b v ≡ g t b v)
      → readn_round f tot buf r ≡ readn_round g tot buf r
  same_round f g tot buf (err e, part, v) h = refl
  same_round f g tot buf (count zero, part, v) h = refl
  same_round f g tot buf (count (suc m), part, v) h =
      h (tot + suc m) (put_behind tot part buf) v (omega arith)

  rounds_enough :
      (f g tot : ℕ) (buf : ℕ → ℕ) (n : ℕ) (u : User W)
      → n ≤ tot + f
      → n ≤ tot + g
      → readn_loop devtab f fdnum tot buf n u ≡ readn_loop devtab g fdnum tot buf n u
  rounds_enough zero g tot buf n u h k =
      no_round zero tot buf n u (omega arith) ∙ sym (no_round g tot buf n u (omega arith))
  rounds_enough (suc f) zero tot buf n u h k =
      no_round (suc f) tot buf n u (omega arith) ∙ sym (no_round zero tot buf n u (omega arith))
  rounds_enough (suc f) (suc g) tot buf n u h k = elim (dec_lt tot n) [
    | no all ↦
        no_round (suc f) tot buf n u (omega arith)
        ∙ sym (no_round (suc g) tot buf n u (omega arith))
    | yes going ↦
        one_round f tot buf n u going
        ∙ same_round _ _ tot buf (read devtab fdnum (behind tot buf) (n - tot) u)
            (λ t b v l. rounds_enough f g t b n v (omega arith) (omega arith))
        ∙ sym (one_round g tot buf n u going)
  ]

  -- The loop of `readn` ends after as many rounds as bytes are asked for, whatever the device returns:
  -- to allow more rounds changes nothing.
  pub readn_ends :
      (more : ℕ) (buf : ℕ → ℕ) (n : ℕ) (u : User W)
      → readn_loop devtab (n + more) fdnum 0 buf n u ≡ readn devtab fdnum buf n u
  unfolding readn
  readn_ends more buf n u = rounds_enough (n + more) n 0 buf n u (omega arith) (omega arith)

  -- What a descriptor reads is the stream `bytes` of length `size`, `pos` of which have been read: a
  -- read of something before the end gives one byte or more of what follows, at most as many as were
  -- asked for; one at the end gives 0.
  pub record Serves (pos : User W → ℕ) (size : ℕ) (bytes : ℕ → ℕ) (Good : User W → Type 0)
      : Type 0 where
    pub gives :
        (buf : ℕ → ℕ) (n : ℕ) (u : User W)
        → Good u
        → 0 < n
        → pos u < size
        → (m : ℕ) × (part : ℕ → ℕ) × (v : User W) × (read devtab fdnum buf n u
            ≡ (count (suc m), part, v))
          × (suc m ≤ n)
          × (suc m ≤ size - pos u)
          × ((i : ℕ) → i < suc m → part i ≡ bytes (pos u + i))
          × (pos v ≡ pos u + suc m)
          × Good v
    pub ends :
        (buf : ℕ → ℕ) (n : ℕ) (u : User W)
        → Good u
        → 0 < n
        → size ≤ pos u
        → (part : ℕ → ℕ) × (v : User W) × (read devtab fdnum buf n u ≡ (count 0, part, v))
          × (pos v ≡ pos u)
          × Good v

  -- What the loop has read from the stream, with `tot` bytes read before it: `all` bytes in sum.
  pub record HasRead (pos : User W → ℕ) (bytes : ℕ → ℕ) (Good : User W → Type 0) (tot all : ℕ)
      (buf buf' : ℕ → ℕ) (u v : User W) : Type 0 where
    pub kept : (i : ℕ) → i < tot → buf' i ≡ buf i
    pub read_here : (i : ℕ) → i < all → buf' (tot + i) ≡ bytes (pos u + i)
    pub moved : pos v ≡ pos u + all
    pub good : Good v

  module _ (pos : User W → ℕ) (size : ℕ) (bytes : ℕ → ℕ) (Good : User W → Type 0) where
    later :
        (tot m rest all : ℕ) (buf part buf' : ℕ → ℕ) (u v w : User W)
        → all ≡ suc m + rest
        → pos v ≡ pos u + suc m
        → ((i : ℕ) → i < suc m → part i ≡ bytes (pos u + i))
        → HasRead pos bytes Good (tot + suc m) rest (put_behind tot part buf) buf' v w
        → HasRead pos bytes Good tot all buf buf' u w
    later tot m rest all buf part buf' u v w sum at here h = record {
      kept = λ i l. h.kept i (omega arith) ∙ ground arith;
      read_here = λ i l. elim (dec_lt i (suc m)) [
        | yes first ↦ h.kept (tot + i) (omega arith) ∙ ground (arith, here i first)
        | no past ↦
            (let place : tot + suc m + (i - suc m) ≡ tot + i = omega arith in
              let stream : pos v + (i - suc m) ≡ pos u + i = omega arith in
              ap buf' (sym place) ∙ h.read_here (i - suc m) (omega arith) ∙ ap bytes stream)
      ];
      moved = omega (arith, h.moved);
      good = h.good;
    }

    -- the loop's result, with all the bytes that there are
    abbrev Reads : ℕ → ℕ → (ℕ → ℕ) → ℕ → User W → Type 0
    Reads fuel tot buf n u =
        (buf' : ℕ → ℕ) × (v : User W) × (readn_loop devtab fuel fdnum tot buf n u
          ≡ (count (tot + min (n - tot) (size - pos u)), buf', v))
        × HasRead pos bytes Good tot (min (n - tot) (size - pos u)) buf buf' u v

    nothing_more :
        (fuel tot : ℕ) (buf : ℕ → ℕ) (n : ℕ) (u : User W) (buf' : ℕ → ℕ) (v : User W)
        → min (n - tot) (size - pos u) ≡ 0
        → readn_loop devtab fuel fdnum tot buf n u ≡ (count tot, buf', v)
        → ((i : ℕ) → i < tot → buf' i ≡ buf i)
        → pos v ≡ pos u
        → Good v
        → Reads fuel tot buf n u
    nothing_more fuel tot buf n u buf' v none_left ran kept same good = (
      buf',
      v,
      ran ∙ ap (λ k. (count k, buf', v)) (omega (arith, none_left)),
      record {
        kept = kept;
        read_here = λ i l. absurd (omega arith);
        moved = omega arith;
        good = good;
      },
    )

    readn_loop_lem :
        (fuel tot : ℕ) (buf : ℕ → ℕ) (n : ℕ) (u : User W)
        → Serves pos size bytes Good
        → Good u
        → tot ≤ n
        → n ≤ tot + fuel
        → Reads fuel tot buf n u
    readn_loop_lem zero tot buf n u serves g le enough =
        nothing_more zero tot buf n u buf u (omega arith) (no_round zero tot buf n u (omega arith))
          (λ i l. refl) refl g
    readn_loop_lem (suc fuel) tot buf n u serves g le enough = elim (dec_lt tot n) [
      | no all ↦
          nothing_more (suc fuel) tot buf n u buf u (omega arith)
            (no_round (suc fuel) tot buf n u (omega arith)) (λ i l. refl) refl g
      | yes going ↦ elim (dec_lt (pos u) size) [
        | no at_end ↦
            (let (part, v, ran, same, good) =
                serves.ends (behind tot buf) (n - tot) u g (omega arith) (omega arith) in
              nothing_more (suc fuel) tot buf n u (put_behind tot part buf) v (omega arith)
                (one_round fuel tot buf n u going
                  ∙ ap (readn_round (λ t b x. readn_loop devtab fuel fdnum t b n x) tot buf) ran)
                (λ i l. ground arith) same good)
        | yes before ↦
            (let (m, part, v, ran, le_n, le_size, here, at, good) =
                serves.gives (behind tot buf) (n - tot) u g (omega arith) before in
              let (buf', w, ran', h) =
                readn_loop_lem fuel (tot + suc m) (put_behind tot part buf) n v serves good
                  (omega arith) (omega arith) in
              let sum : min (n - tot) (size - pos u)
                  ≡ suc m + min (n - (tot + suc m)) (size - pos v) =
                omega (arith, at) in
              (
                buf',
                w,
                one_round fuel tot buf n u going
                    ∙ ap (readn_round (λ t b x. readn_loop devtab fuel fdnum t b n x) tot buf) ran
                    ∙ ran'
                    ∙ ap (λ k. (count k, buf', w)) (omega (arith, sum)),
                later tot m (min (n - (tot + suc m)) (size - pos v)) (min (n - tot) (size - pos u))
                    buf part buf' u v w sum at here h,
              ))
      ]
    ]

    -- `readn` of fewer than 2^31 bytes, which its `int` counters can hold, of a descriptor that serves a
    -- stream reads all bytes that were asked for, or up to the
    -- end of the stream if that comes first, however few bytes the single reads return: it returns
    -- their number, and the buffer begins with them, in order.
    pub readn_lem :
        (buf : ℕ → ℕ) (n : ℕ) (u : User W)
        → n < 2 ^ 31
        → Serves pos size bytes Good
        → Good u
        → let all = min n (size - pos u) in
          (buf' : ℕ → ℕ) × (v : User W) × (readn devtab fdnum buf n u ≡ (count all, buf', v))
          × ((i : ℕ) → i < all → buf' i ≡ bytes (pos u + i))
          × (pos v ≡ pos u + all)
    unfolding readn
    readn_lem buf n u no_overflow serves g =
        let (buf', v, ran, h) = readn_loop_lem n 0 buf n u serves g (omega arith) (omega arith) in
        let whole : 0 + min (n - 0) (size - pos u) ≡ min n (size - pos u) = omega arith in
        (
          buf',
          v,
          ran ∙ ap (λ k. (count k, buf', v)) whole,
          λ i l.
              (let place : 0 + i ≡ i = omega arith in ap buf' (sym place))
              ∙ h.read_here i (omega arith),
          omega (arith, h.moved),
        )
