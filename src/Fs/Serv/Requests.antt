-- ===== src/Fs/Serv/Requests.antt =====
-- The handlers of fs/serv.c. A handler that goes on with a NULL `o_file`, or with an Fd page that is
-- not mapped, faults: the model panics.
use jos_operating_system.Prelude.{
  ℕ, ◌≡◌, ap, zero, suc, ◌+◌, ◌-◌, ◌^◌, Bool, Option, none, some, List, [], ◌∷◌, min, ◌==◌,
  if◌then◌else◌, Outcome, returns, panics, ◌>>=◌, update,
}
use jos_operating_system.Cstring.{strcpy}
use jos_operating_system.Fs.{Fs}
use jos_operating_system.Fs.File.{File, FsError, inval, Reply, ok, fail, file_set_size}
use jos_operating_system.Fs.File.Io.{file_read, file_write, fs_sync}
use jos_operating_system.Fs.Dir.{FilePtr, load_file, store_file, f_name}
use jos_operating_system.Fs.Dir.Path.{file_remove, flush_of}
use jos_operating_system.Fs.Serv.{Answer, result, error, negative, Server, openfile_lookup}

abbrev pub o_accmode : ℕ
o_accmode = 3

abbrev pub o_creat : ℕ
o_creat = 0x100

abbrev pub o_trunc : ℕ
o_trunc = 0x200

abbrev pub o_excl : ℕ
o_excl = 0x400

-- The string in a request's path, `n` bytes of which are copied in front of a 0.
pub copied_path : ℕ → List ℕ → List ℕ
copied_path zero p = []
copied_path (suc n) [] = []
copied_path (suc n) (c ∷ p) = let rest = copied_path n p in if c == 0 then [] else c ∷ rest

abbrev pub maxpathlen : ℕ
maxpathlen = 1024

-- a handler's answer and the state behind it
abbrev pub Handled : Type 0
Handled = Outcome (Answer × Server)

-- `openfile_lookup` in front of a handler
abbrev pub lookup_or : {A : Type 0} → Server → ℕ → A → (ℕ → A) → A
lookup_or s fileid refused f = elim (openfile_lookup fileid s) [ none ↦ refused | some i ↦ f i ]

-- the file of entry `i`
abbrev pub on_file : {A : Type 0} → Server → ℕ → Outcome A → (FilePtr → Outcome A) → Outcome A
on_file s i missing f = elim (s.opentab i).o_file [ none ↦ missing | some p ↦ f p ]

pub lookup_found :
    {A : Type 0} (s : Server) (fileid i : ℕ) (refused : A) (f : ℕ → A)
    → openfile_lookup fileid s ≡ some i
    → lookup_or s fileid refused f ≡ f i
lookup_found s fileid i refused f e = ap (λ o. elim o [ none ↦ refused | some j ↦ f j ]) e

pub file_missing :
    {A : Type 0} (s : Server) (i : ℕ) (missing : Outcome A) (f : FilePtr → Outcome A)
    → (s.opentab i).o_file ≡ none
    → on_file s i missing f ≡ missing
file_missing s i missing f e = ap (λ o. elim o [ none ↦ missing | some p ↦ f p ]) e

pub file_there :
    {A : Type 0} (s : Server) (i : ℕ) (p : FilePtr) (missing : Outcome A) (f : FilePtr → Outcome A)
    → (s.opentab i).o_file ≡ some p
    → on_file s i missing f ≡ f p
file_there s i p missing f e = ap (λ o. elim o [ none ↦ missing | some q ↦ f q ]) e

abbrev pub answer_fs : Answer → Server → Fs → Answer × Server
answer_fs a s g = (a, record s { fs = g })

abbrev pub set_size_at : FilePtr → ℕ → Fs → Outcome Fs
set_size_at p size fs =
    file_set_size p.block (load_file fs p) size fs >>= λ r. returns (store_file r.1 p r.0)

unfoldable pub serve_set_size : ℕ → ℕ → Server → Handled
serve_set_size fileid size s =
    lookup_or s fileid (returns (error inval, s)) λ i.
      on_file s i panics λ p. set_size_at p size s.fs >>= λ g. returns (answer_fs (result 0) s g)

abbrev pub minus_one : Answer
minus_one = negative (2 ^ 32 - 1)

-- `o->o_fd->fd_offset += r`
abbrev pub advance : ℕ → ℕ → Server → Server
advance i r s = record s {
  fd = update s.fd i (record (s.fd i) { fd_offset = (s.fd i).fd_offset + r });
}

-- behind `file_read`, of the file `p` of entry `i`
unfoldable pub read_done :
    ℕ → FilePtr → Server → Reply ℕ × (ℕ → ℕ) × File × Fs → Answer × (ℕ → ℕ) × Server
read_done i p s (fail e, buf, f, g) = (error e, buf, record s { fs = store_file g p f })
read_done i p s (ok r, buf, f, g) =
    let s' = record s { fs = store_file g p f } in
    if r == 0 then (result 0, buf, s') else (result r, buf, advance i r s')

-- `ret_buf` lies over the request, and is `buf` before the call.
unfoldable pub serve_read : ℕ → ℕ → (ℕ → ℕ) → Server → Outcome (Answer × (ℕ → ℕ) × Server)
unfolding read_done
serve_read fileid req_n buf s = lookup_or s fileid (returns (error inval, buf, s)) λ i.
    on_file s i (returns (minus_one, buf, s)) λ p.
      if s.pageref i == 0
      then panics
      else (file_read buf (min req_n 4096) (s.fd i).fd_offset (load_file s.fs p) s.fs >>= λ r.
          returns (read_done i p s r))

-- behind `file_write`
unfoldable pub write_done : ℕ → FilePtr → Server → Reply ℕ × File × Fs → Answer × Server
write_done i p s (fail e, f, g) = (error e, record s { fs = store_file g p f })
write_done i p s (ok r, f, g) = (result r, advance i r (record s { fs = store_file g p f }))

-- `buf` is what lies in memory from `req_buf` on, `req_n` is not bounded.
unfoldable pub serve_write : ℕ → ℕ → (ℕ → ℕ) → Server → Handled
unfolding write_done
serve_write fileid req_n buf s = lookup_or s fileid (returns (error inval, s)) λ i.
    on_file s i (returns (minus_one, s)) λ p.
      if s.pageref i == 0
      then panics
      else (file_write p.block buf req_n (s.fd i).fd_offset (load_file s.fs p) s.fs >>= λ r.
          returns (write_done i p s r))

pub record Stat : Type 0 where
  pub ret_name : List ℕ
  pub ret_size : ℕ
  pub ret_isdir : Bool

-- `stat` is what `ret` holds before; a copy that leaves one of the two names is a panic.
unfoldable pub serve_stat : ℕ → Stat → Server → Outcome (Answer × Stat × Server)
serve_stat fileid stat s = lookup_or s fileid (returns (error inval, stat, s)) λ i.
    on_file s i panics λ p. elim (strcpy stat.ret_name (f_name s.fs p)) [
      | none ↦ panics
      | some name ↦
          (let f = load_file s.fs p in
            returns (
              result 0,
              record { ret_name = name; ret_size = f.f_size; ret_isdir = f.f_type == 1 },
              s,
            ))
    ]

unfoldable pub serve_flush : ℕ → Server → Handled
serve_flush fileid s =
    lookup_or s fileid (returns (error inval, s))
      λ i. on_file s i panics λ p. flush_of p s.fs >>= λ g. returns (answer_fs (result 0) s g)

removal : Option FsError → Answer
removal none = result 0
removal (some e) = error e

unfoldable pub serve_remove : List ℕ → Server → Handled
unfolding removal
serve_remove req_path s = file_remove (copied_path (maxpathlen - 1) req_path) s.fs >>= λ r.
    returns (answer_fs (removal r.0) s r.1)

unfoldable pub serve_sync : Server → Handled
serve_sync s = fs_sync s.fs >>= λ g. returns (answer_fs (result 0) s g)
