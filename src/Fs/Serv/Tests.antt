-- ===== src/Fs/Serv/Tests.antt =====
-- The theorems on the file server at the table as it is after `serve_init`, and at one where entry 0
-- is open with a file of 1000 bytes in block 5, whose `struct File` is the second of block 4.
use jos_operating_system.Prelude.{
  ℕ, ◌+◌, ◌<◌, ◌≡◌, refl, true, Option, none, some, [], arith, ◌==◌, if◌then◌else◌, returns,
}
use jos_operating_system.Fs.{Fs}
use jos_operating_system.Fs.File.Io.Layout.{IsLayout, content}
use jos_operating_system.Fs.Dir.{entry, load_file}
use jos_operating_system.Fs.Serv.{
  result, Server, loaded, serve_init, zero_fd, taken, with_page, case_0, openfile_alloc,
  openfile_alloc_loop, openfile_lookup,
}
use jos_operating_system.Fs.Serv.Requests.{serve_read}
use jos_operating_system.Fs.Serv.Inv.{IsServer}
use jos_operating_system.Fs.Serv.Reach.{clients, start, one_more, Run-IsServer}
use jos_operating_system.Fs.Serv.Renewed.{IsRenewed, openfile_lookup-openfile_alloc}
use jos_operating_system.Fs.Serv.Sequence.{IsOpen, moved, serve_read_twice}

abbrev disk : Fs
disk = record {
  super_set = true;
  s_magic = 0x4a0530ae;
  s_nblocks = 6;
  word = λ b k. if b == 4 then (if k == 96 then 1000 else if k == 98 then 5 else 0) else k;
  flushed = [];
  blocks_allocated = 0;
}

abbrev boot : Server
boot = record { opentab = loaded; fd = λ i. zero_fd; pageref = λ i. 0; fs = disk }

abbrev pages : ℕ → Option ℕ
pages i = none

abbrev numbered : Server
numbered = serve_init boot

numbered-IsServer : IsServer numbered
unfolding serve_init
numbered-IsServer i h = ground arith

-- a client changes the seek position of entry 0
Run-IsServer_example : IsServer (record numbered { fd = λ i. record zero_fd { fd_offset = 7 } })
Run-IsServer_example =
    Run-IsServer boot (record numbered { fd = λ i. record zero_fd { fd_offset = 7 } }) refl
      (one_more numbered (record numbered { fd = λ i. record zero_fd { fd_offset = 7 } }) start
        (clients numbered.pageref (λ i. record zero_fd { fd_offset = 7 }) (λ i. (λ e. e, λ e. e))))

first_alloc : openfile_alloc pages numbered ≡ (result 1024, some 0, taken 0 (with_page 0 numbered))
unfolding openfile_alloc openfile_alloc_loop case_0 serve_init
first_alloc = refl

openfile_lookup-openfile_alloc_example : IsRenewed numbered (taken 0 (with_page 0 numbered)) 1024 0
openfile_lookup-openfile_alloc_example =
    openfile_lookup-openfile_alloc pages numbered (taken 0 (with_page 0 numbered)) 1024 0
      numbered-IsServer first_alloc

abbrev opened : Server
opened = record boot {
  opentab = λ i. record { o_fileid = 1024; o_file = some (entry 4 1); o_mode = 0 };
  fd = λ i. record zero_fd { fd_offset = 100 };
  pageref = λ i. 2;
}

file_laid_out : IsLayout (load_file disk (entry 4 1)) disk (λ n. 5)
file_laid_out = record {
  small = omega arith;
  low = λ n h g. ground arith;
  high = λ n h g. absurd (omega arith);
  table = λ h. absurd (omega arith);
  address = λ n h. ground arith;
  distinct = λ n m h g e. omega arith;
  apart = λ n h g. absurd (omega arith);
}

is_open : IsOpen opened 1024 0 (entry 4 1) (λ n. 5)
unfolding openfile_lookup
is_open = record { found = refl; file = refl; mapped = λ e. omega arith; layout = file_laid_out }

serve_read_twice_example :
    (x y : ℕ → ℕ) × (serve_read 1024 300 (λ k. 0) opened
      ≡ returns (result 300, x, moved 0 300 opened))
    × (serve_read 1024 9000 (λ k. 0) (moved 0 300 opened)
        ≡ returns (result 600, y, moved 0 600 (moved 0 300 opened)))
    × ((k : ℕ) → k < 300 → x k ≡ content disk (λ n. 5) (100 + k))
    × ((k : ℕ) → k < 600 → y k ≡ content disk (λ n. 5) (400 + k))
serve_read_twice_example =
    serve_read_twice 1024 300 9000 0 (entry 4 1) (λ k. 0) (λ k. 0) opened (λ n. 5) is_open
