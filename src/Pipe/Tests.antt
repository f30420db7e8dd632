-- ===== src/Pipe/Tests.antt =====
-- The theorems on the pipe at a run in which one byte goes through it.
use jos_operating_system.Prelude.{refl, false, arith}
use jos_operating_system.Pipe.{
  Reader, Writer, System, read_at, write_at, read_step, write_step, reads, writes, calls_read,
  calls_write, fresh, Reach, start, later,
}
use jos_operating_system.Pipe.Fifo.{Delivered, read_delivers}

-- The writer has been called for one byte, 65, and has returned.
abbrev called : System
called = record fresh { writer = Writer.loop 1 0; wbuf = λ _. 65 }

abbrev written : System
written =
    write_step false
      (write_step false (write_step false (write_step false (write_step false called))))

called-Reach : Reach called
called-Reach = later start (calls_write 1 0 0 (λ _. 65) refl)

written-Reach : Reach written
unfolding write_at
written-Reach =
    later
      (later
        (later
          (later (later called-Reach (writes false (omega arith))) (writes false (omega arith)))
          (writes false (omega arith)))
        (writes false (omega arith)))
      (writes false (omega arith))

-- A reader has asked for two bytes, and has returned with the one.
abbrev asked : System
asked = record written { reader = Reader.loop 2 0; base = written.pipe.p_rpos }

abbrev read : System
read =
    read_step false (
      read_step false (read_step false (read_step false (read_step false (read_step false asked)))))

read-Reach : Reach read
unfolding write_at read_at
read-Reach =
    later
      (later
        (later
          (later
            (later (later (later written-Reach (calls_read 2 0 0 refl)) (reads false))
              (reads false))
            (reads false))
          (reads false))
        (reads false))
      (reads false)

read_delivers_example : Delivered read 2 1
unfolding write_at read_at
read_delivers_example = read_delivers read-Reach 2 1 refl
