-- ===== src/Fs/Serv.antt =====
-- The file server's table of open files and its answers to requests: fs/serv.c.
-- `o_fd` of entry `i` is the page at FILEVA + i * PGSIZE, which `serve_init` fixes, so that `fd` and
-- `pageref` are found under `i`. The call of sys_page_alloc for that page is a parameter: `none` if
-- it returns 0, or the negative number that it returns. A negative `int` is an error of the file
-- system or its 32 bits. Offsets stay below 2 ^ 31, as the sizes of files do.
pub mod Requests
pub mod Open
pub mod Table
pub mod Inv
pub mod Reach
pub mod Renewed
pub mod Sequence
mod Tests
use jos_operating_system.Prelude.{
  ℕ, zero, suc, ◌+◌, ◌%◌, ◌^◌, Option, none, some, ◌==◌, ◌!=◌, ltb, ◌||◌, if◌then◌else◌, update,
}
use jos_operating_system.Fs.{Fs}
use jos_operating_system.Fs.File.{FsError, max_open}
use jos_operating_system.Fs.Dir.{FilePtr}

abbrev pub maxopen : ℕ
maxopen = 1024

pub data Answer : Type 0 where
  result : ℕ → Answer
  error : FsError → Answer
  negative : ℕ → Answer

-- an `unsigned` returned as an `int`
abbrev pub as_int : ℕ → Answer
as_int n = if ltb n (2 ^ 31) then result n else negative n

pub record OpenFile : Type 0 where
  pub o_fileid : ℕ
  pub o_file : Option FilePtr
  pub o_mode : ℕ

-- `struct Fd` of a file
pub record Fd : Type 0 where
  pub fd_dev_id : ℕ
  pub fd_offset : ℕ
  pub fd_omode : ℕ
  pub id : ℕ

pub record Server : Type 0 where
  pub opentab : ℕ → OpenFile
  pub fd : ℕ → Fd
  pub pageref : ℕ → ℕ
  pub fs : Fs

-- `opentab` as it is loaded, and `serve_init`
abbrev pub loaded : ℕ → OpenFile
loaded i = record { o_fileid = 0; o_file = none; o_mode = if i == 0 then 1 else 0 }

unfoldable pub serve_init : Server → Server
serve_init s = record s {
  opentab = λ i. if ltb i maxopen then record (s.opentab i) { o_fileid = i } else s.opentab i;
}

abbrev pub zero_fd : Fd
zero_fd = record { fd_dev_id = 0; fd_offset = 0; fd_omode = 0; id = 0 }

-- case 1 of `openfile_alloc`: the number returned, `*o`, and the state
abbrev pub next_fileid : OpenFile → ℕ
next_fileid o = (o.o_fileid + maxopen) % 2 ^ 32

abbrev pub taken : ℕ → Server → Server
taken i s = record s {
  opentab = update s.opentab i (record (s.opentab i) { o_fileid = next_fileid (s.opentab i) });
  fd = update s.fd i zero_fd;
}

abbrev pub take_entry : ℕ → Server → Answer × Option ℕ × Server
take_entry i s = (as_int (next_fileid (s.opentab i)), some i, taken i s)

-- case 0, behind the call of sys_page_alloc
abbrev pub with_page : ℕ → Server → Server
with_page i s = record s { pageref = update s.pageref i 1 }

module _ (sys_page_alloc : ℕ → Option ℕ) where
  unfoldable pub case_0 : ℕ → Server → Option ℕ → Answer × Option ℕ × Server
  case_0 i s (some e) = (negative e, none, s)
  case_0 i s none = take_entry i (with_page i s)

  -- the loop, `n` rounds from entry `i` on
  openfile_alloc_loop : ℕ → ℕ → Server → Answer × Option ℕ × Server
  unfolding case_0
  openfile_alloc_loop zero i s = (error max_open, none, s)
  openfile_alloc_loop (suc n) i s =
      let rest = openfile_alloc_loop n (i + 1) s in
      if s.pageref i == 0
      then case_0 i s (sys_page_alloc i)
      else if s.pageref i == 1
      then take_entry i s
      else rest

  unfoldable pub openfile_alloc : Server → Answer × Option ℕ × Server
  unfolding openfile_alloc_loop
  openfile_alloc s = openfile_alloc_loop maxopen 0 s

-- `*po`, or `none` for -E_INVAL
unfoldable pub openfile_lookup : ℕ → Server → Option ℕ
openfile_lookup fileid s =
    let i = fileid % maxopen in
    if s.pageref i == 1 || (s.opentab i).o_fileid != fileid then none else some i
