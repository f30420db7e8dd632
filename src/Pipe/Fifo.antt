-- ===== src/Pipe/Fifo.antt =====
-- What a reader of the pipe may rely on, whatever the interleaving.
use jos_operating_system.Prelude.{ℕ, ◌+◌, ◌<◌, ◌≤◌, ◌≡◌}
use mathlib.Core.Path.{subst}
use jos_operating_system.Pipe.{Reader, System, Reach}
use jos_operating_system.Pipe.Inv.{Reach-Inv, Inv, Between}

-- What a call of `devpipe_read` that was asked for `n` bytes and returned `r` has done.
pub record Delivered (s : System) (n r : ℕ) : Type 0 where
  pub no_more : r ≤ n
  pub advanced : s.pipe.p_rpos ≡ s.base + r
  pub bytes : (k : ℕ) → k < r → s.rbuf k ≡ s.sent (s.base + k)

-- In every state that the interleaved steps of reader and writer reach, a call of `devpipe_read`
-- that has returned `r` put into its buffer, in order, the next `r` bytes that were written to the
-- pipe, at most as many as it was asked for, and moved the reader's position past just these.
pub read_delivers :
    {s : System} → Reach s → (n r : ℕ) → s.reader ≡ Reader.returned n r → Delivered s n r
read_delivers {s = s} reach n r e =
    let v : Inv s.pipe (Reader.returned n r) s.rbuf s.base s.writer s.sent =
      subst (λ x. Inv s.pipe x s.rbuf s.base s.writer s.sent) e (Reach-Inv reach) in
    record { no_more = v.reader_at; advanced = v.position; bytes = v.copied }

-- In every state that the interleaved steps of reader and writer reach, the reader's position is
-- not ahead of the writer's, the two are no further apart than the buffer is long, and each byte
-- between them is still in the buffer at its place, not overwritten.
pub pipe_holds : {s : System} → Reach s → Between s.pipe s.sent
pipe_holds reach = (Reach-Inv reach).between
