-- ===== src/Pipe.antt =====
-- The pipe of lib/pipe.c between one reader and one writer, interleaved at each shared access.
-- `devpipe_read` and `devpipe_write` become programs with a point of control for each access to
-- `struct Pipe`; either side may be preempted at any point, so `sys_yield` is a step that does
-- nothing. Whether `_pipeisclosed` says so is left open at each test. `p_rpos` and `p_wpos` are
-- `off_t`s; the model stops before one reaches 2 ^ 31.
pub mod Inv
pub mod Fifo
mod Tests
use jos_operating_system.Prelude.{
  ℕ, zero, suc, ◌+◌, ◌-◌, ◌%◌, ◌^◌, ◌<◌, ◌≡◌, Bool, true, false, ◌==◌, leb, ltb, if◌then◌else◌,
  update,
}

-- PIPEBUFSIZ
abbrev pub pipebufsiz : ℕ
pipebufsiz = 32

-- `struct Pipe`
pub record Pipe : Type 0 where
  pub p_rpos : ℕ
  pub p_wpos : ℕ
  pub p_buf : ℕ → ℕ

-- Where `devpipe_read` stands, with its variables `n` and `i`.
pub data Reader : Type 0 where
  loop : (n i : ℕ) → Reader  -- before the test `i < n`
  wait : (n i : ℕ) → Reader  -- before the test `p_rpos == p_wpos`
  taking : (n i : ℕ) → Reader  -- before `buf[i] = p_buf[p_rpos % PIPEBUFSIZ]`
  bump : (n i : ℕ) → Reader  -- before `p_rpos++`
  returned : (n r : ℕ) → Reader  -- the call for `n` bytes returned `r`

-- Where `devpipe_write` stands.
pub data Writer : Type 0 where
  loop : (n i : ℕ) → Writer
  wait : (n i : ℕ) → Writer  -- before the test `p_wpos >= p_rpos + sizeof(p_buf)`
  storing : (n i : ℕ) → Writer  -- before `p_buf[p_wpos % PIPEBUFSIZ] = buf[i]`
  bump : (n i : ℕ) → Writer  -- before `p_wpos++`
  returned : (n r : ℕ) → Writer

-- `rbuf` and `wbuf` are the callers' buffers. `sent` and `base` are not in the program: the byte
-- that was written at each position of the pipe, and the reader's position when its call began.
pub record System : Type 0 where
  pub pipe : Pipe
  pub reader : Reader
  pub rbuf : ℕ → ℕ
  pub base : ℕ
  pub writer : Writer
  pub wbuf : ℕ → ℕ
  pub sent : ℕ → ℕ

-- the outcome of the tests in the loop of `devpipe_read` on an empty pipe
abbrev pub empty_pipe : Bool → ℕ → ℕ → Reader
empty_pipe closed n i =
    if ltb 0 i then Reader.returned n i else if closed then Reader.returned n 0 else Reader.wait n i

-- One step of `devpipe_read`; `closed` is what `_pipeisclosed` would say.
unfoldable pub read_at : Bool → System → Reader → System
read_at closed s (Reader.loop n i) = record s {
  reader = if ltb i n then Reader.wait n i else Reader.returned n i;
}
read_at closed s (Reader.wait n i) = record s {
  reader = if s.pipe.p_rpos == s.pipe.p_wpos then empty_pipe closed n i else Reader.taking n i;
}
read_at closed s (Reader.taking n i) = record s {
  rbuf = update s.rbuf i (s.pipe.p_buf (s.pipe.p_rpos % pipebufsiz));
  reader = Reader.bump n i;
}
read_at closed s (Reader.bump n i) = record s {
  pipe = record (s.pipe) { p_rpos = s.pipe.p_rpos + 1 };
  reader = Reader.loop n (i + 1);
}
read_at closed s (Reader.returned n r) = record s { reader = Reader.returned n r }

-- One step of `devpipe_write`.
unfoldable pub write_at : Bool → System → Writer → System
write_at closed s (Writer.loop n i) = record s {
  writer = if ltb i n then Writer.wait n i else Writer.returned n i;
}
write_at closed s (Writer.wait n i) = record s {
  writer =
      if leb (s.pipe.p_rpos + pipebufsiz) s.pipe.p_wpos
      then (if closed then Writer.returned n 0 else Writer.wait n i)
      else Writer.storing n i;
}
write_at closed s (Writer.storing n i) = record s {
  pipe = record (s.pipe) { p_buf = update s.pipe.p_buf (s.pipe.p_wpos % pipebufsiz) (s.wbuf i) };
  sent = update s.sent s.pipe.p_wpos (s.wbuf i);
  writer = Writer.bump n i;
}
write_at closed s (Writer.bump n i) = record s {
  pipe = record (s.pipe) { p_wpos = s.pipe.p_wpos + 1 };
  writer = Writer.loop n (i + 1);
}
write_at closed s (Writer.returned n r) = record s { writer = Writer.returned n r }

abbrev pub read_step : Bool → System → System
read_step closed s = read_at closed s s.reader

abbrev pub write_step : Bool → System → System
write_step closed s = write_at closed s s.writer

-- A call that has returned may be followed by the next one, for any number of bytes.
pub data Step (s : System) : System → Type 0 where
  reads : (closed : Bool) → Step s (read_step closed s)
  writes : (closed : Bool) → s.pipe.p_wpos + 1 < 2 ^ 31 → Step s (write_step closed s)
  calls_read :
      (n m r : ℕ)
      → s.reader ≡ Reader.returned m r
      → Step s (record s { reader = Reader.loop n 0; base = s.pipe.p_rpos })
  calls_write :
      (n m r : ℕ) (bytes : ℕ → ℕ)
      → s.writer ≡ Writer.returned m r
      → Step s (record s { writer = Writer.loop n 0; wbuf = bytes })

-- `pipe` has just made the pipe: its page is new, and no call is under way.
abbrev pub fresh : System
fresh = record {
  pipe = record { p_rpos = 0; p_wpos = 0; p_buf = λ _. 0 };
  reader = Reader.returned 0 0;
  rbuf = λ _. 0;
  base = 0;
  writer = Writer.returned 0 0;
  wbuf = λ _. 0;
  sent = λ _. 0;
}

pub data Reach : System → Type 0 where
  start : Reach fresh
  later : {s t : System} → Reach s → Step s t → Reach t
