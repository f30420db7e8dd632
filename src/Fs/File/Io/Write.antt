-- ===== src/Fs/File/Io/Write.antt =====
-- What `file_write` does to the file's bytes, and that `file_read` reads them back.
use jos_operating_system.Prelude.{
  ℕ, zero, suc, ◌+◌, ◌-◌, ◌*◌, ◌/◌, ◌%◌, ◌<◌, ◌≤◌, ◌≡◌, ◌≢◌, refl, true, false, arith, returns, sym,
  ◌∙◌, ap, min, leb, ltb, ◌&&◌, ◌==◌, if◌then◌else◌, Bool-cases, inl, inr,
}
use native.Mathlib.Decide.{dec_lt, ℕ_discrete}
use jos_operating_system.Fs.{Fs, blksize}
use jos_operating_system.Fs.Bytes.{byte, splice, copy_in, byte-copy_in}
use jos_operating_system.Fs.File.{File, ok}
use jos_operating_system.Fs.File.Io.{part, write_loop, file_write, file_read}
use jos_operating_system.Fs.File.Io.Layout.{IsLayout, content, get_layout, copy_in-IsLayout}
use jos_operating_system.Fs.File.Io.Read.{part_lem, file_read_lem}

-- Places within one block, counted from the block's start or from the file's.
splice_near :
    (g buf : ℕ → ℕ) (pos n done i : ℕ)
    → pos / blksize ≡ i / blksize
    → splice g (pos % blksize) n buf done (i % blksize)
      ≡ (if leb pos i && ltb i (pos + n) then buf (done + (i - pos)) else g (i % blksize))
splice_near g buf pos n done i same = elim (dec_lt i pos) [
  | yes before ↦ ground arith
  | no after ↦ elim (dec_lt i (pos + n)) [
    | yes here ↦
        (let at : done + (i % blksize - pos % blksize) ≡ done + (i - pos) = omega arith in
          ground (arith, ap buf at))
    | no past ↦ ground arith
  ]
]

-- A place that the round does not reach.
splice_far :
    (g buf : ℕ → ℕ) (pos stop done i : ℕ)
    → pos / blksize ≢ i / blksize
    → splice g pos (part pos stop) buf done i ≡ g i
splice_far g buf pos stop done i apart = elim (dec_lt i pos) [
  | yes before ↦ ground arith
  | no after ↦ elim (dec_lt i (pos + part pos stop)) [
    | yes here ↦ absurd (apart (omega (arith, part_lem pos stop (i - pos) (omega arith))))
    | no past ↦ ground arith
  ]
]

-- The file's bytes when one round has moved its bytes into their block.
content-copy_in :
    (f : File) (fs : Fs) (block buf : ℕ → ℕ) (pos stop done i : ℕ)
    → IsLayout f fs block
    → ((k : ℕ) → buf k < 256)
    → pos < stop
    → stop ≤ f.f_size
    → i < f.f_size
    → content (copy_in fs (block (pos / blksize)) (pos % blksize) (part pos stop) buf done) block i
      ≡ splice (content fs block) pos (part pos stop) buf done i
content-copy_in f fs block buf pos stop done i v small more inside h =
    byte-copy_in fs (block (pos / blksize)) (pos % blksize) (part pos stop) buf done small
      (block (i / blksize)) (i % blksize)
    ∙ (elim (ℕ_discrete (pos / blksize) (i / blksize)) [
      | yes same ↦
          (let hit : (block (pos / blksize) == block (i / blksize)) ≡ true =
              ground (arith, ap block same) in
            rw hit (
              splice_near (byte (fs.word (block (pos / blksize)))) buf pos (part pos stop) done i
                same
              ∙ ground (arith, ap (λ n. byte (fs.word (block n)) (i % blksize)) same)))
      | no apart ↦
          (let miss : (block (pos / blksize) == block (i / blksize)) ≡ false =
              ground
                (arith, v.distinct (pos / blksize) (i / blksize) (omega arith) (omega arith)) in
            rw miss (sym (splice_far (content fs block) buf pos stop done i apart)))
    ])

-- One round after another, as one.
splice_over :
    (dst first buf : ℕ → ℕ) (pos n rest done i : ℕ)
    → first i ≡ splice dst pos n buf done i
    → splice first (pos + n) rest buf (done + n) i ≡ splice dst pos (n + rest) buf done i
splice_over dst first buf pos n rest done i e = elim (dec_lt i pos) [
  | yes before ↦ ground (arith, e)
  | no after ↦ elim (dec_lt i (pos + n)) [
    | yes here ↦ ground (arith, e)
    | no past ↦
        (let at : done + n + (i - (pos + n)) ≡ done + (i - pos) = omega arith in
          ground (arith, e, ap buf at))
  ]
]

one_round :
    (f : File) (fs : Fs) (block buf : ℕ → ℕ) (pos stop done i : ℕ)
    → IsLayout f fs block
    → ((k : ℕ) → buf k < 256)
    → pos < stop
    → stop ≤ f.f_size
    → i < f.f_size
    → splice
        (content
          (copy_in fs (block (pos / blksize)) (pos % blksize) (part pos stop) buf done)
          block)
        (pos + part pos stop)
        (stop - (pos + part pos stop))
        buf
        (done + part pos stop)
        i
      ≡ splice (content fs block) pos (stop - pos) buf done i
one_round f fs block buf pos stop done i v small more inside h =
    let n = part pos stop in
    let rest : stop - (pos + n) ≡ stop - pos - n = omega arith in
    let total : n + (stop - pos - n) ≡ stop - pos = omega arith in
    let next = copy_in fs (block (pos / blksize)) (pos % blksize) n buf done in
    rw rest (
      splice_over (content fs block) (content next block) buf pos n (stop - pos - n) done i
        (content-copy_in f fs block buf pos stop done i v small more inside h)
      ∙ ap (λ t. splice (content fs block) pos t buf done i) total)

-- What `fs'` has of the file, and of the other blocks, when bytes of `buf` have been written.
pub record Written (f : File) (fs fs' : Fs) (block buf : ℕ → ℕ) (pos stop done : ℕ) : Type 0 where
  pub layout : IsLayout f fs' block
  pub bytes :
      (i : ℕ)
      → i < f.f_size
      → content fs' block i ≡ splice (content fs block) pos (stop - pos) buf done i
  pub others : (c : ℕ) → ((n : ℕ) → n * blksize < f.f_size → block n ≢ c) → fs'.word c ≡ fs.word c

write_loop_lem :
    (fuel count pos stop done : ℕ) (buf : ℕ → ℕ) (f : File) (fs : Fs) (block : ℕ → ℕ)
    → IsLayout f fs block
    → ((k : ℕ) → buf k < 256)
    → stop ≤ f.f_size
    → stop ≤ pos + fuel
    → (fs' : Fs) × (write_loop fuel count pos stop done buf f fs ≡ returns (ok count, f, fs'))
      × Written f fs fs' block buf pos stop done
unfolding write_loop copy_in
write_loop_lem zero count pos stop done buf f fs block v small inside enough =
    (fs, refl, record { layout = v; bytes = λ i h. ground arith; others = λ c h. refl })
write_loop_lem (suc fuel) count pos stop done buf f fs block v small inside enough =
    elim (Bool-cases (leb stop pos)) [
      | inl over ↦ (
        fs,
        rw over refl,
        record { layout = v; bytes = λ i h. ground arith; others = λ c h. refl },
      )
      | inr more ↦
          (let q = pos / blksize in
            let bn = part pos stop in
            let below : q * blksize < f.f_size = ground arith in
            let got = get_layout f fs block q v below in
            let next = copy_in fs (block q) (pos % blksize) bn buf done in
            let (fs', ran, w) =
              write_loop_lem fuel count (pos + bn) stop (done + bn) buf f next block
                (copy_in-IsLayout f fs block q (pos % blksize) bn buf done v below) small inside
                (ground arith) in
            (
              fs',
              rw (more, got) ran,
              record {
                layout = w.layout;
                bytes = λ i h.
                    w.bytes i h
                    ∙ one_round f fs block buf pos stop done i v small (ground arith) inside h;
                others = λ c h. w.others c h ∙ ground (arith, h q below);
              },
            ))
    ]

-- `file_write` within a file all of whose blocks are there returns `count`. The bytes of the file
-- from `offset` on are then the first `count` bytes of the buffer, its other bytes and all blocks of
-- other files are as they were, and the file is laid out as before.
pub file_write_lem :
    (home : ℕ) (buf : ℕ → ℕ) (count offset : ℕ) (f : File) (fs : Fs) (block : ℕ → ℕ)
    → IsLayout f fs block
    → ((k : ℕ) → buf k < 256)
    → offset + count ≤ f.f_size
    → (fs' : Fs) × (file_write home buf count offset f fs ≡ returns (ok count, f, fs'))
      × Written f fs fs' block buf offset (offset + count) 0
unfolding file_write
file_write_lem home buf count offset f fs block v small inside =
    let fits : ltb f.f_size (offset + count) ≡ false = ground arith in
    let (fs', ran, w) =
      write_loop_lem count count offset (offset + count) 0 buf f fs block v small inside
        (omega arith) in
    (fs', rw fits ran, w)

-- What `file_write` has written within a file all of whose blocks are there, `file_read` reads back
-- from the same offset.
pub file_read-file_write :
    (home : ℕ) (buf old : ℕ → ℕ) (count offset : ℕ) (f : File) (fs : Fs) (block : ℕ → ℕ)
    → IsLayout f fs block
    → ((k : ℕ) → buf k < 256)
    → offset + count ≤ f.f_size
    → (fs' : Fs) × (buf' : ℕ → ℕ) × (file_write home buf count offset f fs
        ≡ returns (ok count, f, fs'))
      × (file_read old count offset f fs' ≡ returns (ok count, buf', f, fs'))
      × ((i : ℕ) → i < count → buf' i ≡ buf i)
file_read-file_write home buf old count offset f fs block v small inside =
    let (fs', wrote, w) = file_write_lem home buf count offset f fs block v small inside in
    let (buf', read, got) = file_read_lem old count offset f fs' block w.layout in
    let all : min count (f.f_size - offset) ≡ count = omega arith in
    (
      fs',
      buf',
      wrote,
      read ∙ ap (λ n. returns (ok n, buf', f, fs')) all,
      λ i h. got i ∙ ground (arith, w.bytes (offset + i) (omega arith)),
    )
