-- ===== src/Fs/Serv/Inv.antt =====
-- What holds of the open-file table at all times, however requests and clients take turns.
use jos_operating_system.Prelude.{
  ℕ, ◌-◌, ◌%◌, ◌^◌, ◌<◌, ◌≡◌, ◌≢◌, Bool, true, false, Option, none, some, List, arith, ◌==◌, ◌!=◌,
  min, if◌then◌else◌, Outcome, returns, panics, Answers, Answers-then, bit_and,
}
use native.Mathlib.Decide.{ℕ_discrete}
use jos_operating_system.Cstring.{strcpy}
use jos_operating_system.Fs.{Fs}
use jos_operating_system.Fs.File.{inval, File, Reply, ok, fail}
use jos_operating_system.Fs.Dir.{FilePtr, f_name, load_file, store_file}
use jos_operating_system.Fs.Dir.Path.{flush_of, file_remove}
use jos_operating_system.Fs.File.Io.{fs_sync, file_read, file_write}
use jos_operating_system.Fs.Serv.{
  maxopen, Answer, result, error, OpenFile, Server, next_fileid, take_entry, openfile_lookup,
}
use jos_operating_system.Fs.Serv.Requests.{
  o_trunc, copied_path, maxpathlen, advance, Stat, lookup_or, on_file, serve_set_size, serve_read,
  read_done, serve_write, write_done, serve_stat, serve_flush, serve_remove, serve_sync,
  set_size_at,
}
use jos_operating_system.Fs.Serv.Open.{store_open, file_opened, Opened}

-- Each entry has its place in its identifier, and its page if it has a file.
abbrev pub IsServer : Server → Type 0
IsServer s =
    (i : ℕ)
    → i < maxopen
    → ((s.opentab i).o_fileid % maxopen ≡ i)
      × ((s.opentab i).o_fileid < 2 ^ 32)
      × (s.pageref i ≡ 0 → (s.opentab i).o_file ≡ none)

pub Answers-lookup_or :
    {A : Type 0} (P : A → Type 0) (s : Server) (fileid : ℕ) (refused : Outcome A)
    (f : ℕ → Outcome A)
    → Answers P refused
    → ((i : ℕ) → Answers P (f i))
    → Answers P (lookup_or s fileid refused f)
Answers-lookup_or P s fileid refused f h g = by_found (openfile_lookup fileid s)
  where
    by_found : (o : Option ℕ) → Answers P (elim o [ none ↦ refused | some i ↦ f i ])
    by_found none = h
    by_found (some i) = g i

pub Answers-on_file :
    {A : Type 0} (P : A → Type 0) (s : Server) (i : ℕ) (missing : Outcome A)
    (f : FilePtr → Outcome A)
    → Answers P missing
    → ((p : FilePtr) → Answers P (f p))
    → Answers P (on_file s i missing f)
Answers-on_file P s i missing f h g = by_file ((s.opentab i).o_file)
  where
    by_file : (o : Option FilePtr) → Answers P (elim o [ none ↦ missing | some p ↦ f p ])
    by_file none = h
    by_file (some p) = g p

pub either_way :
    {A : Type 0} (P : A → Type 0) (b : Bool) (x y : A) → P x → P y → P (if b then x else y)
either_way P true x y h g = h
either_way P false x y h g = g

-- the property of the server behind an answer, and behind an answer with a reply
abbrev pub Kept : Answer × Server → Type 0
Kept r = IsServer r.1

abbrev pub KeptRead : Answer × (ℕ → ℕ) × Server → Type 0
KeptRead r = IsServer r.2

abbrev pub KeptStat : Answer × Stat × Server → Type 0
KeptStat r = IsServer r.2

pub read_done-IsServer :
    (i : ℕ) (p : FilePtr) (s : Server) (r : Reply ℕ × (ℕ → ℕ) × File × Fs)
    → IsServer s
    → IsServer (read_done i p s r).2
unfolding read_done
read_done-IsServer i p s (fail e, buf, f, g) v = v
read_done-IsServer i p s (ok r, buf, f, g) v =
    let s' = record s { fs = store_file g p f } in
    either_way KeptRead (r == 0) (result 0, buf, s') (result r, buf, advance i r s') v v

pub write_done-IsServer :
    (i : ℕ) (p : FilePtr) (s : Server) (r : Reply ℕ × File × Fs)
    → IsServer s
    → IsServer (write_done i p s r).1
unfolding write_done
write_done-IsServer i p s (fail e, f, g) v = v
write_done-IsServer i p s (ok r, f, g) v = v

pub serve_set_size-IsServer :
    (fileid size : ℕ) (s : Server) → IsServer s → Answers Kept (serve_set_size fileid size s)
unfolding serve_set_size
serve_set_size-IsServer fileid size s v =
    Answers-lookup_or Kept s fileid (returns (error inval, s)) _ v λ i.
      Answers-on_file Kept s i panics _ tt λ p. Answers-then Kept (set_size_at p size s.fs) _ λ g. v

pub serve_read-IsServer :
    (fileid n : ℕ) (buf : ℕ → ℕ) (s : Server)
    → IsServer s
    → Answers KeptRead (serve_read fileid n buf s)
unfolding serve_read
serve_read-IsServer fileid n buf s v =
    Answers-lookup_or KeptRead s fileid (returns (error inval, buf, s)) _ v λ i.
      Answers-on_file KeptRead s i _ _ v λ p.
        either_way (Answers KeptRead) (s.pageref i == 0) panics _ tt (
          Answers-then KeptRead
            (file_read buf (min n 4096) (s.fd i).fd_offset (load_file s.fs p) s.fs)
            (λ r. returns (read_done i p s r)) (λ r. read_done-IsServer i p s r v))

pub serve_write-IsServer :
    (fileid n : ℕ) (buf : ℕ → ℕ) (s : Server)
    → IsServer s
    → Answers Kept (serve_write fileid n buf s)
unfolding serve_write
serve_write-IsServer fileid n buf s v =
    Answers-lookup_or Kept s fileid (returns (error inval, s)) _ v λ i.
      Answers-on_file Kept s i _ _ v λ p. either_way (Answers Kept) (s.pageref i == 0) panics _ tt (
        Answers-then Kept (file_write p.block buf n (s.fd i).fd_offset (load_file s.fs p) s.fs)
          (λ r. returns (write_done i p s r)) (λ r. write_done-IsServer i p s r v))

pub serve_stat-IsServer :
    (fileid : ℕ) (stat : Stat) (s : Server)
    → IsServer s
    → Answers KeptStat (serve_stat fileid stat s)
unfolding serve_stat
serve_stat-IsServer fileid stat s v =
    Answers-lookup_or KeptStat s fileid (returns (error inval, stat, s)) _ v λ i.
      Answers-on_file KeptStat s i panics _ tt
        λ p. by_copy i p (strcpy stat.ret_name (f_name s.fs p))
  where
    by_copy :
        (i : ℕ) (p : FilePtr) (o : Option (List ℕ))
        → Answers KeptStat (elim o [
          | none ↦ panics
          | some name ↦ returns (
            result 0,
            record {
              ret_name = name;
              ret_size = (load_file s.fs p).f_size;
              ret_isdir = (load_file s.fs p).f_type == 1;
            },
            s,
          )
        ])
    by_copy i p none = tt
    by_copy i p (some name) = v

pub serve_flush-IsServer :
    (fileid : ℕ) (s : Server) → IsServer s → Answers Kept (serve_flush fileid s)
unfolding serve_flush
serve_flush-IsServer fileid s v =
    Answers-lookup_or Kept s fileid (returns (error inval, s)) _ v
      λ i. Answers-on_file Kept s i panics _ tt λ p. Answers-then Kept (flush_of p s.fs) _ λ g. v

pub serve_remove-IsServer :
    (path : List ℕ) (s : Server) → IsServer s → Answers Kept (serve_remove path s)
unfolding serve_remove
serve_remove-IsServer path s v =
    Answers-then Kept (file_remove (copied_path (maxpathlen - 1) path) s.fs) _ λ r. v

pub serve_sync-IsServer : (s : Server) → IsServer s → Answers Kept (serve_sync s)
unfolding serve_sync
serve_sync-IsServer s v = Answers-then Kept (fs_sync s.fs) _ λ g. v

-- the property of the server behind the answer to any request
abbrev pub KeptOpen : Opened → Type 0
KeptOpen r = IsServer r.2

pub file_opened-IsServer :
    (i : ℕ) (p : FilePtr) (omode : ℕ) (s : Server)
    → s.pageref i ≢ 0
    → IsServer s
    → IsServer (file_opened i p omode s)
file_opened-IsServer i p omode s mapped v j h = elim (ℕ_discrete i j) [
  | yes same ↦ ground (arith, v j h, mapped)
  | no other ↦ ground (arith, v j h)
]

pub store_open-IsServer :
    (i omode : ℕ) (s : Server) (r : Reply FilePtr × Fs)
    → s.pageref i ≢ 0
    → IsServer s
    → Answers KeptOpen (store_open i omode s r)
unfolding store_open
store_open-IsServer i omode s (fail e, g) mapped v = v
store_open-IsServer i omode s (ok p, g) mapped v =
    Answers-then KeptOpen (if bit_and omode o_trunc != 0 then set_size_at p 0 g else returns g)
      (λ h. returns (result 0, some i, file_opened i p omode (record s { fs = h })))
      (λ h. file_opened-IsServer i p omode (record s { fs = h }) mapped v)

-- what `openfile_alloc` leaves, and that the entry it returns has its page
abbrev pub KeptEntry : Answer × Option ℕ × Server → Type 0
KeptEntry r = IsServer r.2 × ((i : ℕ) → r.1 ≡ some i → r.2.pageref i ≢ 0)

next_fileid-Numbered :
    (o : OpenFile) (i : ℕ) → o.o_fileid % maxopen ≡ i → next_fileid o % maxopen ≡ i
next_fileid-Numbered o i h = omega arith

pub take_entry-IsServer :
    (i : ℕ) (s : Server) → s.pageref i ≢ 0 → IsServer s → KeptEntry (take_entry i s)
take_entry-IsServer i s mapped v = (
  λ j h. elim (ℕ_discrete i j) [
    | yes same ↦ ground (arith, v j h, next_fileid-Numbered (s.opentab i) j)
    | no other ↦ ground (arith, v j h)
  ],
  λ j e. ground (arith, mapped),
)
