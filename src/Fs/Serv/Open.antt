-- ===== src/Fs/Serv/Open.antt =====
-- `serve_open` and the loop of the file server, `serve` of fs/serv.c.
use jos_operating_system.Prelude.{
  ℕ, ◌-◌, Bool, Option, none, some, List, ◌==◌, ◌!=◌, if◌then◌else◌, Outcome, returns, panics,
  ◌>>=◌, update, bit_and,
}
use jos_operating_system.Fs.{Fs}
use jos_operating_system.Fs.File.{inval, file_exists, Reply, ok, fail}
use jos_operating_system.Fs.Dir.{FilePtr}
use jos_operating_system.Fs.Dir.Path.{file_create, file_open}
use jos_operating_system.Fs.Serv.{Answer, result, error, Server, openfile_alloc}
use jos_operating_system.Fs.Serv.Requests.{
  o_accmode, o_creat, o_trunc, o_excl, copied_path, maxpathlen, Stat, set_size_at, serve_set_size,
  serve_read, serve_write, serve_stat, serve_flush, serve_remove, serve_sync,
}

-- behind `file_create`, with the jump to `try_open`
try_open : List ℕ → ℕ → Reply FilePtr × Fs → Outcome (Reply FilePtr × Fs)
try_open path omode (fail file_exists, g) =
    if bit_and omode o_excl == 0 then file_open path g else returns (fail file_exists, g)
try_open path omode (r, g) = returns (r, g)

-- the file created or opened
pub find_file : List ℕ → ℕ → Fs → Outcome (Reply FilePtr × Fs)
unfolding try_open
find_file path omode g =
    if bit_and omode o_creat != 0
    then file_create path g >>= try_open path omode
    else file_open path g

-- `devfile.dev_id`, the letter f
abbrev pub devfile_id : ℕ
devfile_id = 102

-- the file pointer and the Fd structure of entry `i`
abbrev pub file_opened : ℕ → FilePtr → ℕ → Server → Server
file_opened i p omode s = record s {
  opentab = update s.opentab i (record (s.opentab i) { o_file = some p; o_mode = omode });
  fd = update s.fd i (record (s.fd i) {
    id = (s.opentab i).o_fileid;
    fd_omode = bit_and omode o_accmode;
    fd_dev_id = devfile_id;
  });
}

-- what `serve_open` returns, `*pg_store` as the entry whose page it is, and the state
abbrev pub Opened : Type 0
Opened = Answer × Option ℕ × Server

-- from the file found on, for entry `i`
unfoldable pub store_open : ℕ → ℕ → Server → Reply FilePtr × Fs → Outcome Opened
store_open i omode s (fail e, g) = returns (error e, none, record s { fs = g })
store_open i omode s (ok p, g) =
    (if bit_and omode o_trunc != 0 then set_size_at p 0 g else returns g) >>= λ h.
    returns (result 0, some i, file_opened i p omode (record s { fs = h }))

-- behind `openfile_alloc`; a negative number is returned, also where the entry is taken
unfoldable pub open_entry : List ℕ → ℕ → Answer × Option ℕ × Server → Outcome Opened
unfolding find_file store_open
open_entry path omode (result n, some i, s) = find_file path omode s.fs >>= store_open i omode s
open_entry path omode (result n, none, s) = panics
open_entry path omode (a, o, s) = returns (a, none, s)

unfoldable pub serve_open : (ℕ → Option ℕ) → List ℕ → ℕ → Server → Outcome Opened
unfolding open_entry
serve_open sys_page_alloc req_path req_omode s =
    open_entry (copied_path (maxpathlen - 1) req_path) req_omode (openfile_alloc sys_page_alloc s)

-- A request with the code that `serve` looks at and the fields that its handler reads; `unknown` is
-- any code without a handler.
pub data Request : Type 0 where
  open_file : List ℕ → ℕ → Request
  set_size : ℕ → ℕ → Request
  read_file : ℕ → ℕ → (ℕ → ℕ) → Request
  write_file : ℕ → ℕ → (ℕ → ℕ) → Request
  stat_file : ℕ → Stat → Request
  flush_file : ℕ → Request
  remove_file : List ℕ → Request
  sync_all : Request
  unknown : ℕ → Request

-- What goes back to the caller beside the page of the request.
abbrev pub no_page : Answer × Server → Opened
no_page (a, s) = (a, none, s)

abbrev pub drop_reply : {A : Type 0} → Answer × A × Server → Opened
drop_reply (a, x, s) = (a, none, s)

unfoldable pub handle : (ℕ → Option ℕ) → Request → Server → Outcome Opened
handle alloc (open_file path omode) s = serve_open alloc path omode s
handle alloc (set_size fileid size) s = serve_set_size fileid size s >>= λ r. returns (no_page r)
handle alloc (read_file fileid n buf) s = serve_read fileid n buf s >>= λ r. returns (drop_reply r)
handle alloc (write_file fileid n buf) s = serve_write fileid n buf s >>= λ r. returns (no_page r)
handle alloc (stat_file fileid stat) s = serve_stat fileid stat s >>= λ r. returns (drop_reply r)
handle alloc (flush_file fileid) s = serve_flush fileid s >>= λ r. returns (no_page r)
handle alloc (remove_file path) s = serve_remove path s >>= λ r. returns (no_page r)
handle alloc sync_all s = serve_sync s >>= λ r. returns (no_page r)
handle alloc (unknown code) s = returns (error inval, none, s)

answered : Opened → Option Answer × Option ℕ × Server
answered (a, page, s) = (some a, page, s)

-- A round of `serve` up to the answer: `has_page` is `perm & PTE_P`, without which none is sent.
unfoldable pub serve_round :
    (ℕ → Option ℕ) → Bool → Request → Server → Outcome (Option Answer × Option ℕ × Server)
unfolding answered
serve_round alloc has_page req s =
    if has_page then (handle alloc req s >>= λ r. returns (answered r)) else returns (none, none, s)
