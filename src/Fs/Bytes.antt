-- ===== src/Fs/Bytes.antt =====
-- The bytes of a disk block, which is kept as words of 32 bits in little-endian order, and the
-- `memmove`s of fs/fs.c between blocks and buffers. A buffer is a function from the index.
use jos_operating_system.Prelude.{
  ℕ, zero, suc, ap, ◌∙◌, Bool-cases, inl, inr, ◌+◌, ◌-◌, ◌*◌, ◌/◌, ◌%◌, ◌^◌, ◌<◌, ◌≡◌, refl, ◌&&◌,
  ◌==◌, leb, ltb, if◌then◌else◌, update, arith,
}
use native.Mathlib.Decide.{dec_lt}
use jos_operating_system.Fs.{Fs}

-- byte `i` of an array of words
abbrev pub byte : (ℕ → ℕ) → ℕ → ℕ
byte w i = w (i / 4) / 2 ^ (8 * (i % 4)) % 256

-- word `k` of an array of bytes
abbrev pub pack : (ℕ → ℕ) → ℕ → ℕ
pack g k = g (4 * k) + 256 * g (4 * k + 1) + 65536 * g (4 * k + 2) + 16777216 * g (4 * k + 3)

-- `n` bytes of `src` from `from` on, put over `dst` from `to` on
abbrev pub splice : (ℕ → ℕ) → ℕ → ℕ → (ℕ → ℕ) → ℕ → ℕ → ℕ
splice dst to n src from i = if leb to i && ltb i (to + n) then src (from + (i - to)) else dst i

-- `memmove(buf, blk + from, n)`
abbrev pub copy_out : Fs → ℕ → ℕ → ℕ → (ℕ → ℕ) → ℕ → ℕ → ℕ
copy_out fs b from n buf to = splice buf to n (byte (fs.word b)) from

-- `memmove(blk + to, buf, n)`
unfoldable pub copy_in : Fs → ℕ → ℕ → ℕ → (ℕ → ℕ) → ℕ → Fs
copy_in fs b to n buf from = record fs {
  word = update fs.word b (pack (splice (byte (fs.word b)) to n buf from));
}

by_fours : (i : ℕ) → i ≡ 4 * (i / 4) + i % 4
by_fours i = omega arith

-- the four bytes of a word
word_bytes :
    (a b c d r : ℕ)
    → a < 256
    → b < 256
    → c < 256
    → d < 256
    → r < 4
    → (a + 256 * b + 65536 * c + 16777216 * d) / 2 ^ (8 * r) % 256
      ≡ (if r == 0 then a else if r == 1 then b else if r == 2 then c else if r == 3 then d else 0)
word_bytes a b c d zero p q s t h = omega arith
word_bytes a b c d (suc zero) p q s t h = omega arith
word_bytes a b c d (suc (suc zero)) p q s t h = omega arith
word_bytes a b c d (suc (suc (suc zero))) p q s t h = omega arith
word_bytes a b c d (suc (suc (suc (suc r)))) p q s t h = absurd (omega arith)

-- The bytes of packed words are the bytes.
pub byte-pack : (g : ℕ → ℕ) → ((i : ℕ) → g i < 256) → (i : ℕ) → byte (pack g) i ≡ g i
byte-pack g small i =
    let q = i / 4 in
    word_bytes (g (4 * q)) (g (4 * q + 1)) (g (4 * q + 2)) (g (4 * q + 3)) (i % 4) (small _)
      (small _) (small _) (small _) (omega arith)
    ∙ ground (arith, ap g (by_fours i))

byte-lt : (w : ℕ → ℕ) (i : ℕ) → byte w i < 256
byte-lt w i = omega arith

splice-lt :
    (dst : ℕ → ℕ) (to n : ℕ) (src : ℕ → ℕ) (from : ℕ)
    → ((i : ℕ) → dst i < 256)
    → ((i : ℕ) → src i < 256)
    → (i : ℕ) → splice dst to n src from i < 256
splice-lt dst to n src from a b i = ground (arith, a i, b (from + (i - to)))

-- The bytes of the blocks after bytes have been moved into block `b`.
pub byte-copy_in :
    (fs : Fs) (b to n : ℕ) (buf : ℕ → ℕ) (from : ℕ)
    → ((i : ℕ) → buf i < 256)
    → (c i : ℕ)
    → byte ((copy_in fs b to n buf from).word c) i
      ≡ (if b == c then splice (byte (fs.word b)) to n buf from i else byte (fs.word c) i)
unfolding copy_in
byte-copy_in fs b to n buf from small c i = elim (Bool-cases (b == c)) [
  | inl same ↦ rw same (
      byte-pack (splice (byte (fs.word b)) to n buf from)
        (splice-lt (byte (fs.word b)) to n buf from (byte-lt (fs.word b)) small) i)
  | inr other ↦ rw other refl
]

-- Bytes that come in two parts, one behind the other, come as a whole.
pub splice_two :
    (buf first whole : ℕ → ℕ) (to n rest from pos i : ℕ)
    → ((k : ℕ) → k < n → first (from + k) ≡ whole (pos + k))
    → splice (splice buf to n first from) (to + n) rest whole (pos + n) i
      ≡ splice buf to (n + rest) whole pos i
splice_two buf first whole to n rest from pos i same = elim (dec_lt i to) [
  | yes before ↦ ground arith
  | no from_to ↦ elim (dec_lt i (to + n)) [
    | yes here ↦ ground (arith, same (i - to))
    | no past ↦
        (let at : pos + n + (i - (to + n)) ≡ pos + (i - to) = omega arith in
          ground (arith, ap whole at))
  ]
]
