-- ===== src/Fs/File/Io/Read.antt =====
-- What `file_read` puts into the buffer.
use jos_operating_system.Prelude.{
  ℕ, zero, suc, ◌+◌, ◌-◌, ◌/◌, ◌%◌, ◌<◌, ◌≤◌, ◌≡◌, refl, arith, returns, sym, ◌∙◌, ap, min, leb,
  ltb, if◌then◌else◌, Bool-cases, inl, inr,
}
use jos_operating_system.Fs.{Fs, blksize}
use jos_operating_system.Fs.Bytes.{byte, splice, splice_two, copy_out}
use jos_operating_system.Fs.File.{File, ok}
use jos_operating_system.Fs.File.Io.{part, read_loop, file_read}
use jos_operating_system.Fs.File.Io.Layout.{IsLayout, content, get_layout}

-- The bytes of one round lie in one block.
pub part_lem :
    (pos stop k : ℕ)
    → k < part pos stop
    → ((pos + k) / blksize ≡ pos / blksize) × ((pos + k) % blksize ≡ pos % blksize + k)
part_lem pos stop k h = (omega arith, omega arith)

-- what the buffer holds after the file's bytes from `pos` to `stop` have come to place `done`
abbrev filled : (ℕ → ℕ) → Fs → (ℕ → ℕ) → ℕ → ℕ → ℕ → ℕ → ℕ
filled buf fs block done pos stop = splice buf done (stop - pos) (content fs block) pos

content_near :
    (fs : Fs) (block : ℕ → ℕ) (pos stop k : ℕ)
    → k < part pos stop
    → byte (fs.word (block (pos / blksize))) (pos % blksize + k) ≡ content fs block (pos + k)
content_near fs block pos stop k l =
    let (same, at) = part_lem pos stop k l in
    ap (λ n. byte (fs.word (block n)) (pos % blksize + k)) (sym same)
    ∙ ap (λ j. byte (fs.word (block ((pos + k) / blksize))) j) (sym at)

one_round :
    (buf : ℕ → ℕ) (fs : Fs) (block : ℕ → ℕ) (done pos stop i : ℕ)
    → pos < stop
    → filled
        (copy_out fs (block (pos / blksize)) (pos % blksize) (part pos stop) buf done)
        fs
        block
        (done + part pos stop)
        (pos + part pos stop)
        stop
        i
      ≡ filled buf fs block done pos stop i
one_round buf fs block done pos stop i h =
    let n = part pos stop in
    let rest : stop - (pos + n) ≡ stop - pos - n = omega arith in
    let total : n + (stop - pos - n) ≡ stop - pos = omega arith in
    rw rest (
      splice_two buf (byte (fs.word (block (pos / blksize)))) (content fs block) done n
        (stop - pos - n) (pos % blksize) pos i (λ k l. content_near fs block pos stop k l)
      ∙ ap (λ t. splice buf done t (content fs block) pos i) total)

read_loop_lem :
    (fuel count pos stop done : ℕ) (buf : ℕ → ℕ) (f : File) (fs : Fs) (block : ℕ → ℕ)
    → IsLayout f fs block
    → stop ≤ f.f_size
    → stop ≤ pos + fuel
    → (buf' : ℕ → ℕ) × (read_loop fuel count pos stop done buf f fs
        ≡ returns (ok count, buf', f, fs))
      × ((i : ℕ) → buf' i ≡ filled buf fs block done pos stop i)
unfolding read_loop
read_loop_lem zero count pos stop done buf f fs block v inside enough =
    (buf, refl, λ i. ground arith)
read_loop_lem (suc fuel) count pos stop done buf f fs block v inside enough =
    elim (Bool-cases (leb stop pos)) [
      | inl over ↦ (buf, rw over refl, λ i. ground arith)
      | inr more ↦
          (let got = get_layout f fs block (pos / blksize) v (ground arith) in
            let bn = part pos stop in
            let next = copy_out fs (block (pos / blksize)) (pos % blksize) bn buf done in
            let (buf', ran, holds) =
              read_loop_lem fuel count (pos + bn) stop (done + bn) next f fs block v inside
                (ground arith) in
            (
              buf',
              rw (more, got) ran,
              λ i. holds i ∙ one_round buf fs block done pos stop i (ground arith),
            ))
    ]

from_start :
    (buf whole : ℕ → ℕ) (offset n i : ℕ)
    → splice buf 0 (offset + n - offset) whole offset i
      ≡ (if ltb i n then whole (offset + i) else buf i)
from_start buf whole offset n i =
    let all : offset + n - offset ≡ n = omega arith in rw all (ground arith)

-- `file_read` of a file all of whose blocks are there returns the smaller of `count` and the number
-- of bytes from `offset` to the file's end, puts these bytes of the file, in order, in front of the
-- buffer, leaves the rest of the buffer, and changes neither the file nor the disk.
pub file_read_lem :
    (buf : ℕ → ℕ) (count offset : ℕ) (f : File) (fs : Fs) (block : ℕ → ℕ)
    → IsLayout f fs block
    → let n = min count (f.f_size - offset) in
      (buf' : ℕ → ℕ) × (file_read buf count offset f fs ≡ returns (ok n, buf', f, fs))
      × ((i : ℕ) → buf' i ≡ (if ltb i n then content fs block (offset + i) else buf i))
unfolding file_read
file_read_lem buf count offset f fs block v = elim (Bool-cases (leb f.f_size offset)) [
  | inl past ↦
      (let zero_left : min count (f.f_size - offset) ≡ 0 = ground arith in
        (buf, rw (past, zero_left) refl, λ i. rw zero_left (ground arith)))
  | inr inside ↦
      (let n = min count (f.f_size - offset) in
        let (buf', ran, holds) =
          read_loop_lem n n offset (offset + n) 0 buf f fs block v (ground arith) (omega arith) in
        (buf', rw inside ran, λ i. holds i ∙ from_start buf (content fs block) offset n i))
]
