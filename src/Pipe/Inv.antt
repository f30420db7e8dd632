-- ===== src/Pipe/Inv.antt =====
-- The invariant of the pipe, kept by every step of either side.
use jos_operating_system.Prelude.{
  ℕ, ◌+◌, ◌%◌, ◌<◌, ◌≤◌, ◌≡◌, refl, Bool, arith, ◌==◌, leb, ltb, update, ap, sym, ◌∙◌, Bool-cases,
  inl, inr,
}
use native.Mathlib.Decide.{ℕ_discrete}
use jos_operating_system.Pipe.{
  pipebufsiz, Pipe, Reader, Writer, System, read_at, write_at, Step, reads, writes, calls_read,
  calls_write, Reach, start, later,
}

-- The positions: the reader is behind the writer, by no more than the buffer holds, and what lies
-- between them is what was sent.
pub record Between (p : Pipe) (sent : ℕ → ℕ) : Type 0 where
  pub order : p.p_rpos ≤ p.p_wpos
  pub room : p.p_wpos ≤ p.p_rpos + pipebufsiz
  pub window : (k : ℕ) → p.p_rpos ≤ k → k < p.p_wpos → p.p_buf (k % pipebufsiz) ≡ sent k

-- bytes of the call that are in the caller's buffer, and bytes that are off the pipe
abbrev pub stored : Reader → ℕ
stored (Reader.loop n i) = i
stored (Reader.wait n i) = i
stored (Reader.taking n i) = i
stored (Reader.bump n i) = i + 1
stored (Reader.returned n r) = r

abbrev pub taken : Reader → ℕ
taken (Reader.loop n i) = i
taken (Reader.wait n i) = i
taken (Reader.taking n i) = i
taken (Reader.bump n i) = i
taken (Reader.returned n r) = r

-- What the point of control says about the call.
abbrev pub ReaderAt : Pipe → Reader → Type 0
ReaderAt p (Reader.loop n i) = i ≤ n
ReaderAt p (Reader.wait n i) = i < n
ReaderAt p (Reader.taking n i) = (i < n) × (p.p_rpos < p.p_wpos)
ReaderAt p (Reader.bump n i) = (i < n) × (p.p_rpos < p.p_wpos)
ReaderAt p (Reader.returned n r) = r ≤ n

abbrev pub WriterAt : Pipe → (ℕ → ℕ) → Writer → Type 0
WriterAt p sent (Writer.loop n i) = i ≤ n
WriterAt p sent (Writer.wait n i) = i < n
WriterAt p sent (Writer.storing n i) = (i < n) × (p.p_wpos < p.p_rpos + pipebufsiz)
WriterAt p sent (Writer.bump n i) =
    (i < n) × (p.p_wpos < p.p_rpos + pipebufsiz) × (p.p_buf (p.p_wpos % pipebufsiz) ≡ sent p.p_wpos)
WriterAt p sent (Writer.returned n r) = r ≤ n

pub record Inv (p : Pipe) (r : Reader) (rbuf : ℕ → ℕ) (base : ℕ) (w : Writer) (sent : ℕ → ℕ)
    : Type 0 where
  pub between : Between p sent
  pub reader_at : ReaderAt p r
  pub writer_at : WriterAt p sent w
  pub position : p.p_rpos ≡ base + taken r
  pub copied : (k : ℕ) → k < stored r → rbuf k ≡ sent (base + k)

abbrev pub Holds : System → Type 0
Holds s = Inv s.pipe s.reader s.rbuf s.base s.writer s.sent

-- A control point of the writer is good whatever the reader has taken meanwhile.
WriterAt-bump :
    (p : Pipe) (sent : ℕ → ℕ) (w : Writer)
    → WriterAt p sent w
    → WriterAt (record p { p_rpos = p.p_rpos + 1 }) sent w
WriterAt-bump p sent (Writer.loop n i) v = v
WriterAt-bump p sent (Writer.wait n i) v = v
WriterAt-bump p sent (Writer.storing n i) v = ground arith
WriterAt-bump p sent (Writer.bump n i) v = ground arith
WriterAt-bump p sent (Writer.returned n r) v = v

-- A control point of the reader is good when the writer has moved on.
ReaderAt-grow :
    (p : Pipe) (q : Pipe) (r : Reader)
    → q.p_rpos ≡ p.p_rpos
    → p.p_wpos ≤ q.p_wpos
    → ReaderAt p r
    → ReaderAt q r
ReaderAt-grow p q (Reader.loop n i) e l v = v
ReaderAt-grow p q (Reader.wait n i) e l v = v
ReaderAt-grow p q (Reader.taking n i) e l v = ground arith
ReaderAt-grow p q (Reader.bump n i) e l v = ground arith
ReaderAt-grow p q (Reader.returned n r) e l v = v

-- The invariant at another control point of the reader, with the same bytes copied.
moved :
    {p : Pipe} {r r' : Reader} {rbuf : ℕ → ℕ} {base : ℕ} {w : Writer} {sent : ℕ → ℕ}
    → Inv p r rbuf base w sent
    → ReaderAt p r'
    → taken r' ≡ taken r
    → stored r' ≤ stored r
    → Inv p r' rbuf base w sent
moved {base = base} v good same fewer = record {
  between = v.between;
  reader_at = good;
  writer_at = v.writer_at;
  position = v.position ∙ ap (λ x. base + x) (sym same);
  copied = λ k l. v.copied k ground arith;
}

-- the byte that is taken off the pipe is the one that was sent at its position
copied-taking :
    (s : System) (n i : ℕ)
    → Inv s.pipe (Reader.taking n i) s.rbuf s.base s.writer s.sent
    → (k : ℕ) → k < i + 1
    → update s.rbuf i (s.pipe.p_buf (s.pipe.p_rpos % pipebufsiz)) k ≡ s.sent (s.base + k)
copied-taking s n i v k l =
    let here : s.pipe.p_buf (s.pipe.p_rpos % pipebufsiz) ≡ s.sent s.pipe.p_rpos =
      v.between.window s.pipe.p_rpos ground arith ground arith in
    elim (ℕ_discrete i k) [
      | yes e ↦ ground (arith, v.position, here)
      | no ne ↦ ground (arith, v.copied k ground arith)
    ]

read_at-Inv :
    (closed : Bool) (s : System) (r : Reader)
    → Inv s.pipe r s.rbuf s.base s.writer s.sent
    → Holds (read_at closed s r)
unfolding read_at
read_at-Inv closed s (Reader.loop n i) v = elim (Bool-cases (ltb i n)) [
  | inl more ↦ rw more (moved v ground arith refl ground arith)
  | inr over ↦ rw over (moved v v.reader_at refl ground arith)
]
read_at-Inv closed s (Reader.wait n i) v = elim (Bool-cases (s.pipe.p_rpos == s.pipe.p_wpos)) [
  | inl empty ↦ elim (Bool-cases (ltb 0 i)) [
    | inl some ↦ rw (empty, some) (moved v ground arith refl ground arith)
    | inr none ↦ elim (Bool-cases closed) [
      | inl shut ↦ rw (empty, none, shut) (moved v ground arith ground arith ground arith)
      | inr ajar ↦ rw (empty, none, ajar) v
    ]
  ]
  | inr full ↦ rw full (moved v ground (arith, v.between.order) refl ground arith)
]
read_at-Inv closed s (Reader.taking n i) v = record {
  between = v.between;
  reader_at = v.reader_at;
  writer_at = v.writer_at;
  position = v.position;
  copied = λ k l. copied-taking s n i v k l;
}
read_at-Inv closed s (Reader.bump n i) v = record {
  between = record {
    order = ground arith;
    room = ground (arith, v.between.room);
    window = λ k l m. v.between.window k ground arith m;
  };
  reader_at = ground arith;
  writer_at = WriterAt-bump s.pipe s.sent s.writer v.writer_at;
  position = ground (arith, v.position);
  copied = v.copied;
}
read_at-Inv closed s (Reader.returned n r) v = v

-- The window after the writer's store: the byte goes to a place that holds none of the window.
window-storing :
    (p : Pipe) (sent : ℕ → ℕ) (x : ℕ)
    → Between p sent
    → p.p_wpos < p.p_rpos + pipebufsiz
    → (k : ℕ) → p.p_rpos ≤ k
    → k < p.p_wpos
    → update p.p_buf (p.p_wpos % pipebufsiz) x (k % pipebufsiz) ≡ update sent p.p_wpos x k
window-storing p sent x b l k m o = ground (arith, b.window k m o)

-- What the reader has in its buffer, or is about to have, lies before the writer's position.
stored-below :
    (p : Pipe) (r : Reader) (base : ℕ)
    → ReaderAt p r
    → p.p_rpos ≤ p.p_wpos
    → p.p_rpos ≡ base + taken r
    → base + stored r ≤ p.p_wpos
stored-below p (Reader.loop n i) base v l e = ground arith
stored-below p (Reader.wait n i) base v l e = ground arith
stored-below p (Reader.taking n i) base v l e = ground arith
stored-below p (Reader.bump n i) base v l e = ground arith
stored-below p (Reader.returned n r) base v l e = ground arith

copied-storing :
    (s : System) (x : ℕ) {w : Writer}
    → Inv s.pipe s.reader s.rbuf s.base w s.sent
    → (k : ℕ) → k < stored s.reader
    → s.rbuf k ≡ update s.sent s.pipe.p_wpos x (s.base + k)
copied-storing s x v k l = ground (
  arith,
  v.copied k l,
  stored-below s.pipe s.reader s.base v.reader_at v.between.order v.position,
)

window-bump :
    (s : System) (n i : ℕ)
    → Inv s.pipe s.reader s.rbuf s.base (Writer.bump n i) s.sent
    → (k : ℕ) → s.pipe.p_rpos ≤ k
    → k < s.pipe.p_wpos + 1
    → s.pipe.p_buf (k % pipebufsiz) ≡ s.sent k
window-bump s n i v k l m = elim (ℕ_discrete k s.pipe.p_wpos) [
  | yes e ↦ rw e v.writer_at.2
  | no ne ↦ v.between.window k l ground arith
]

-- The invariant at another control point of the writer.
steered :
    {p : Pipe} {r : Reader} {rbuf : ℕ → ℕ} {base : ℕ} {w w' : Writer} {sent : ℕ → ℕ}
    → Inv p r rbuf base w sent
    → WriterAt p sent w'
    → Inv p r rbuf base w' sent
steered v good = record {
  between = v.between;
  reader_at = v.reader_at;
  writer_at = good;
  position = v.position;
  copied = v.copied;
}

write_at-Inv :
    (closed : Bool) (s : System) (w : Writer)
    → Inv s.pipe s.reader s.rbuf s.base w s.sent
    → Holds (write_at closed s w)
unfolding write_at
write_at-Inv closed s (Writer.loop n i) v = elim (Bool-cases (ltb i n)) [
  | inl more ↦ rw more (steered v ground arith)
  | inr over ↦ rw over (steered v ground arith)
]
write_at-Inv closed s (Writer.wait n i) v =
    elim (Bool-cases (leb (s.pipe.p_rpos + pipebufsiz) s.pipe.p_wpos)) [
      | inl full ↦ elim (Bool-cases closed) [
        | inl shut ↦ rw (full, shut) (steered v ground arith)
        | inr ajar ↦ rw (full, ajar) v
      ]
      | inr room ↦ rw room (steered v ground arith)
    ]
write_at-Inv closed s (Writer.storing n i) v = record {
  between = record {
    order = v.between.order;
    room = v.between.room;
    window = window-storing s.pipe s.sent (s.wbuf i) v.between ground arith;
  };
  reader_at =
      ReaderAt-grow s.pipe (write_at closed s (Writer.storing n i)).pipe s.reader refl ground arith
        v.reader_at;
  writer_at = ground arith;
  position = v.position;
  copied = copied-storing s (s.wbuf i) v;
}
write_at-Inv closed s (Writer.bump n i) v = record {
  between = record {
    order = ground (arith, v.between.order);
    room = ground (arith, v.between.room);
    window = λ k l m. window-bump s n i v k l ground arith;
  };
  reader_at =
      ReaderAt-grow s.pipe (write_at closed s (Writer.bump n i)).pipe s.reader refl ground arith
        v.reader_at;
  writer_at = ground arith;
  position = v.position;
  copied = v.copied;
}
write_at-Inv closed s (Writer.returned n r) v = v

Step-Inv : {s t : System} → Holds s → Step s t → Holds t
Step-Inv {s = s} v (reads closed) = read_at-Inv closed s s.reader v
Step-Inv {s = s} v (writes closed small) = write_at-Inv closed s s.writer v
Step-Inv {s = s} v (calls_read n m r e) = record {
  between = v.between;
  reader_at = ground arith;
  writer_at = v.writer_at;
  position = ground arith;
  copied = λ k l. absurd ground arith;
}
Step-Inv {s = s} v (calls_write n m r bytes e) = record {
  between = v.between;
  reader_at = v.reader_at;
  writer_at = ground arith;
  position = v.position;
  copied = v.copied;
}

pub Reach-Inv : {s : System} → Reach s → Holds s
Reach-Inv start = record {
  between = record {
    order = ground arith;
    room = ground arith;
    window = λ k l m. absurd ground arith;
  };
  reader_at = ground arith;
  writer_at = ground arith;
  position = refl;
  copied = λ k l. absurd ground arith;
}
Reach-Inv (later r step) = Step-Inv (Reach-Inv r) step
