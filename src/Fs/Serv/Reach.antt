-- ===== src/Fs/Serv/Reach.antt =====
-- The file server's rounds and what its clients do in between, in any order.
use jos_operating_system.Prelude.{
  ℕ, ◌-◌, ◌≡◌, ◌↔◌, refl, sym, ap, true, false, Option, none, some, List, arith, ◌==◌, inl, inr,
  Outcome, returns, panics, ◌>>=◌, Answers, Answers-then, Answers-returns,
}
use mathlib.Core.Path.{subst}
use native.Mathlib.Decide.{ℕ_discrete}
use jos_operating_system.Fs.Serv.{
  Answer, result, error, negative, Fd, Server, loaded, serve_init, with_page, case_0,
  openfile_alloc,
}
use jos_operating_system.Fs.Serv.Requests.{
  copied_path, maxpathlen, serve_set_size, serve_read, serve_write, serve_stat, serve_flush,
  serve_remove, serve_sync,
}
use jos_operating_system.Fs.Serv.Open.{
  serve_open, open_entry, store_open, find_file, Request, open_file, set_size, read_file,
  write_file, stat_file, flush_file, remove_file, sync_all, unknown, handle, no_page, drop_reply,
}
use jos_operating_system.Fs.Serv.Table.{openfile_alloc_lem}
use jos_operating_system.Fs.Serv.Inv.{
  IsServer, Kept, KeptRead, KeptStat, serve_set_size-IsServer, serve_read-IsServer,
  serve_write-IsServer, serve_stat-IsServer, serve_flush-IsServer, serve_remove-IsServer,
  serve_sync-IsServer, KeptOpen, store_open-IsServer, KeptEntry, take_entry-IsServer,
}

case_0-IsServer :
    (alloc : ℕ → Option ℕ) (i : ℕ) (s : Server) (o : Option ℕ)
    → IsServer s
    → KeptEntry (case_0 alloc i s o)
unfolding case_0
case_0-IsServer alloc i s (some e) v = (v, λ j h. absurd (ground arith))
case_0-IsServer alloc i s none v = take_entry-IsServer i (with_page i s) (ground arith) λ j h.
    elim (ℕ_discrete i j) [ yes same ↦ ground (arith, v j h) | no other ↦ ground (arith, v j h) ]

openfile_alloc-IsServer :
    (alloc : ℕ → Option ℕ) (s : Server) → IsServer s → KeptEntry (openfile_alloc alloc s)
openfile_alloc-IsServer alloc s v = elim (openfile_alloc_lem s alloc) [
  | inl (i, first, e) ↦ subst KeptEntry (sym e) (elim (ℕ_discrete (s.pageref i) 1) [
    | yes own ↦
        (let hit : (s.pageref i == 1) ≡ true = ground (arith, own) in
          rw hit (take_entry-IsServer i s (omega arith) v))
    | no shared ↦
        (let miss : (s.pageref i == 1) ≡ false = ground arith in
          rw miss (case_0-IsServer alloc i s (alloc i) v))
  ])
  | inr (all, e) ↦ subst KeptEntry (sym e) (v, λ i h. absurd (ground arith))
]

open_entry-IsServer :
    (path : List ℕ) (omode : ℕ) (r : Answer × Option ℕ × Server)
    → KeptEntry r
    → Answers KeptOpen (open_entry path omode r)
unfolding open_entry
open_entry-IsServer path omode (result n, some i, s) (v, mapped) =
    Answers-then KeptOpen (find_file path omode s.fs) (store_open i omode s)
      (λ r. store_open-IsServer i omode s r (mapped i refl) v)
open_entry-IsServer path omode (result n, none, s) (v, mapped) = tt
open_entry-IsServer path omode (error e, o, s) (v, mapped) = v
open_entry-IsServer path omode (negative e, o, s) (v, mapped) = v

Answers-map :
    {A B : Type 0} (P : A → Type 0) (Q : B → Type 0) (o : Outcome A) (f : A → B)
    → Answers P o
    → ((a : A) → P a → Q (f a))
    → Answers Q (o >>= λ a. returns (f a))
Answers-map P Q panics f h g = tt
Answers-map P Q (returns a) f h g = g a h

-- Every request leaves the table of open files well formed, also one with an error.
pub handle-IsServer :
    (alloc : ℕ → Option ℕ) (req : Request) (s : Server)
    → IsServer s
    → Answers KeptOpen (handle alloc req s)
unfolding handle serve_open
handle-IsServer alloc (open_file path omode) s v =
    open_entry-IsServer (copied_path (maxpathlen - 1) path) omode (openfile_alloc alloc s)
      (openfile_alloc-IsServer alloc s v)
handle-IsServer alloc (set_size fileid size) s v =
    Answers-map Kept KeptOpen (serve_set_size fileid size s) no_page
      (serve_set_size-IsServer fileid size s v) (λ r h. h)
handle-IsServer alloc (read_file fileid n buf) s v =
    Answers-map KeptRead KeptOpen (serve_read fileid n buf s) drop_reply
      (serve_read-IsServer fileid n buf s v) (λ r h. h)
handle-IsServer alloc (write_file fileid n buf) s v =
    Answers-map Kept KeptOpen (serve_write fileid n buf s) no_page
      (serve_write-IsServer fileid n buf s v) (λ r h. h)
handle-IsServer alloc (stat_file fileid stat) s v =
    Answers-map KeptStat KeptOpen (serve_stat fileid stat s) drop_reply
      (serve_stat-IsServer fileid stat s v) (λ r h. h)
handle-IsServer alloc (flush_file fileid) s v =
    Answers-map Kept KeptOpen (serve_flush fileid s) no_page (serve_flush-IsServer fileid s v)
      (λ r h. h)
handle-IsServer alloc (remove_file path) s v =
    Answers-map Kept KeptOpen (serve_remove path s) no_page (serve_remove-IsServer path s v)
      (λ r h. h)
handle-IsServer alloc sync_all s v =
    Answers-map Kept KeptOpen (serve_sync s) no_page (serve_sync-IsServer s v) (λ r h. h)
handle-IsServer alloc (unknown code) s v = v

-- One step: the server answers a request, with the results that sys_page_alloc then has, or clients
-- map, unmap and write the Fd pages that they share; the server itself never unmaps one.
pub data Step (s : Server) : Server → Type 0 where
  one_request :
      (alloc : ℕ → Option ℕ) (req : Request) (s' : Server) (a : Answer) (page : Option ℕ)
      → handle alloc req s ≡ returns (a, page, s')
      → Step s s'
  clients :
      (refs : ℕ → ℕ) (fds : ℕ → Fd)
      → ((i : ℕ) → (refs i ≡ 0) ↔ (s.pageref i ≡ 0))
      → Step s (record s { pageref = refs; fd = fds })

pub data Run (s : Server) : Server → Type 0 where
  start : Run s s
  one_more : (t u : Server) → Run s t → Step t u → Run s u

Step-IsServer : (s s' : Server) → Step s s' → IsServer s → IsServer s'
Step-IsServer s s' (one_request alloc req t a page e) v =
    Answers-returns KeptOpen (handle alloc req s) (a, page, s') (handle-IsServer alloc req s v) e
Step-IsServer s s' (clients refs fds same) v =
    λ i h. let (at, small, bare) = v i h in (at, small, λ none_left. bare ((same i).0 none_left))

serve_init-IsServer : (s : Server) → s.opentab ≡ loaded → IsServer (serve_init s)
unfolding serve_init
serve_init-IsServer s e i h = ground (arith, ap (λ t. t i) e)

-- From `serve_init` on, however requests and what clients do with their Fd pages take turns, each
-- entry of the table keeps its place in its identifier, and has its page mapped if it has a file.
pub Run-IsServer : (s s' : Server) → s.opentab ≡ loaded → Run (serve_init s) s' → IsServer s'
Run-IsServer s s' e start = serve_init-IsServer s e
Run-IsServer s s' e (one_more t u r m) = Step-IsServer t s' m (Run-IsServer s t e r)
