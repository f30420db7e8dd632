-- ===== src/Fs/Serv/Sequence.antt =====
-- Reads of an open file, one after the other.
use jos_operating_system.Prelude.{
  ℕ, ◌+◌, ◌-◌, ◌<◌, ◌≡◌, ◌≢◌, refl, ◌∙◌, ap, false, some, arith, ◌==◌, ltb, min, if◌then◌else◌,
  Bool-cases, inl, inr, returns,
}
use jos_operating_system.Fs.File.{ok}
use jos_operating_system.Fs.File.Io.Layout.{IsLayout, content}
use jos_operating_system.Fs.File.Io.Read.{file_read_lem}
use jos_operating_system.Fs.Dir.{FilePtr, load_file}
use jos_operating_system.Fs.Dir.Lookup.{store-load}
use jos_operating_system.Fs.Serv.{result, Server, openfile_lookup}
use jos_operating_system.Fs.Serv.Requests.{serve_read, read_done, advance, lookup_found, file_there}

-- The identifier stands for entry `i`, whose file `p` has all its blocks and whose Fd is mapped.
pub record IsOpen (s : Server) (fileid i : ℕ) (p : FilePtr) (block : ℕ → ℕ) : Type 0 where
  pub found : openfile_lookup fileid s ≡ some i
  pub file : (s.opentab i).o_file ≡ some p
  pub mapped : s.pageref i ≢ 0
  pub layout : IsLayout (load_file s.fs p) s.fs block

-- the number of bytes that a read returns, and the server behind it
abbrev pub read_size : ℕ → ℕ → FilePtr → Server → ℕ
read_size count i p s = min (min count 4096) ((load_file s.fs p).f_size - (s.fd i).fd_offset)

abbrev pub moved : ℕ → ℕ → Server → Server
moved i n s = if n == 0 then s else advance i n s

read_done-ok :
    (i n : ℕ) (p : FilePtr) (s : Server) (buf : ℕ → ℕ)
    → read_done i p s (ok n, buf, load_file s.fs p, s.fs) ≡ (result n, buf, moved i n s)
unfolding read_done
read_done-ok i n p s buf =
    ap
      (λ g.
        if n == 0
        then (result 0, buf, record s { fs = g })
        else (result n, buf, advance i n (record s { fs = g })))
      (store-load s.fs p)
    ∙ (elim (Bool-cases (n == 0)) [
      | inl nothing ↦ rw nothing (ground (arith, nothing))
      | inr some_bytes ↦ rw some_bytes refl
    ])

-- `serve_read` of an open file returns the smallest of the count, 4096 and what is left of the file
-- behind the seek position, gives these bytes of the file, in order, and moves the seek position
-- behind them; nothing else changes.
pub serve_read_lem :
    (fileid count i : ℕ) (p : FilePtr) (buf : ℕ → ℕ) (s : Server) (block : ℕ → ℕ)
    → IsOpen s fileid i p block
    → let n = read_size count i p s in
      (buf' : ℕ → ℕ) × (serve_read fileid count buf s ≡ returns (result n, buf', moved i n s))
      × ((k : ℕ)
          → buf' k ≡ (if ltb k n then content s.fs block ((s.fd i).fd_offset + k) else buf k))
unfolding serve_read
serve_read_lem fileid count i p buf s block v =
    let (buf', ran, holds) =
      file_read_lem buf (min count 4096) (s.fd i).fd_offset (load_file s.fs p) s.fs block
        v.layout in
    let here : (s.pageref i == 0) ≡ false = ground (arith, v.mapped) in
    let n = read_size count i p s in
    (
      buf',
      lookup_found s fileid i _ _ v.found
          ∙ file_there s i p _ _ v.file
          ∙ rw (here, ran) (ap returns (read_done-ok i n p s buf')),
      holds,
    )

advance-IsOpen :
    (s : Server) (fileid i n : ℕ) (p : FilePtr) (block : ℕ → ℕ)
    → IsOpen s fileid i p block
    → IsOpen (moved i n s) fileid i p block
unfolding openfile_lookup
advance-IsOpen s fileid i n p block v = elim (Bool-cases (n == 0)) [
  | inl nothing ↦ rw nothing v
  | inr some_bytes ↦
      rw some_bytes
        (record { found = v.found; file = v.file; mapped = v.mapped; layout = v.layout })
]

moved_lem :
    (i n : ℕ) (s : Server)
    → ((moved i n s).fs ≡ s.fs) × (((moved i n s).fd i).fd_offset ≡ (s.fd i).fd_offset + n)
moved_lem i n s = elim (Bool-cases (n == 0)) [
  | inl nothing ↦ rw nothing (refl, ground (arith, nothing))
  | inr some_bytes ↦ rw some_bytes (refl, ground arith)
]

-- Two reads of an open file, one after the other, give the file's bytes without a gap and without a
-- repetition: the first read's from the seek position on, and the second read's from where the first
-- ended.
pub serve_read_twice :
    (fileid a b i : ℕ) (p : FilePtr) (first second : ℕ → ℕ) (s : Server) (block : ℕ → ℕ)
    → IsOpen s fileid i p block
    → let n = read_size a i p s in
      let at = (s.fd i).fd_offset in
      let t = moved i n s in
      let m = read_size b i p t in
      (x y : ℕ → ℕ) × (serve_read fileid a first s ≡ returns (result n, x, t))
      × (serve_read fileid b second t ≡ returns (result m, y, moved i m t))
      × ((k : ℕ) → k < n → x k ≡ content s.fs block (at + k))
      × ((k : ℕ) → k < m → y k ≡ content s.fs block (at + n + k))
serve_read_twice fileid a b i p first second s block v =
    let n = read_size a i p s in
    let (x, ran, holds) = serve_read_lem fileid a i p first s block v in
    let (y, ran', holds') =
      serve_read_lem fileid b i p second (moved i n s) block
        (advance-IsOpen s fileid i n p block v) in
    let (same, at) = moved_lem i n s in
    (
      x,
      y,
      ran,
      ran',
      λ k h. holds k ∙ ground (arith, h),
      λ k h.
          holds' k
          ∙ ground (arith, h)
          ∙ ap (λ f. content f block (((moved i n s).fd i).fd_offset + k)) same
          ∙ ap (λ o. content s.fs block (o + k)) at,
    )
