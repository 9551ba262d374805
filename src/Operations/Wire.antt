-- ===== src/Operations/Wire.antt =====
-- From a request of an operation to the bytes that a server thread gets: protocol.h and driver.c
-- together.
use uvfs.Base.{
  ℕ, ◌+◌, ◌≤◌, ◌<◌, ◌≡◌, false, List, ◌++◌, arith, length, length-append, bytes32, get32,
  get32-copy_at, copy_at, take, word, ◌∙◌, sym,
}
use uvfs.Protocol.{Request}
use uvfs.Protocol.Limits.{max_namelen, max_pathlen}
use uvfs.Protocol.Wire.{
  header_bytes, fhandle_bytes, timespec_bytes, array_bytes, length-array_bytes, body_bytes, generic,
  request_bytes,
}
use uvfs.Driver.State.{Driver, modify}
use uvfs.Driver.Daemon.{request_size, read_result}
use uvfs.Protocol.Offsets.{HoldsWords, HoldsTexts, members, texts}
use uvfs.Operations.Requests.Members.{Fits}
use uvfs.Operations.Fields.{take-append, request_bytes-HoldsWords, request_bytes-HoldsTexts}

length-header_bytes :
    (t s n : ℕ) (rest : List ℕ) → length (header_bytes t s n rest) ≡ 12 + length rest
unfolding bytes32
length-header_bytes t s n rest = omega arith

get32-header_bytes :
    (t s n : ℕ) (rest : List ℕ)
    → t < word
    → s < word
    → n < word
    → (get32 (header_bytes t s n rest) 0 ≡ t)
      × (get32 (header_bytes t s n rest) 4 ≡ s)
      × (get32 (header_bytes t s n rest) 8 ≡ n)
unfolding get32 bytes32
get32-header_bytes t s n rest l m o = (omega arith, omega arith, omega arith)

length-array_append :
    (old : ℕ → ℕ) (o room : ℕ) (xs ys : List ℕ)
    → length xs ≤ room
    → length (array_bytes old o room xs ++ ys) ≡ room + length ys
length-array_append old o room xs ys h =
    omega (arith, length-append (array_bytes old o room xs) ys, length-array_bytes old o room xs h)

-- Behind a request's header stand as many bytes as its size has more.
length-body_bytes :
    (old : ℕ → ℕ) (r : Request)
    → Fits r
    → (12 + length (body_bytes old r) ≡ (generic r).2)
      × ((generic r).0 < 16)
      × ((generic r).2 ≤ request_size)
unfolding body_bytes fhandle_bytes timespec_bytes bytes32
length-body_bytes old (Request.file_write r) f =
    ground (arith, length-array_bytes old 60 r.count r.buff)
length-body_bytes old (Request.file_read r) f = ground arith
length-body_bytes old (Request.create r) f = ground arith
length-body_bytes old (Request.lookup r) f = ground arith
length-body_bytes old (Request.unlink r) f = ground arith
length-body_bytes old (Request.symlink r) f = ground (
  arith,
  length-array_append old 52 max_namelen r.name
      (bytes32 r.namelen ++ (array_bytes old 312 max_pathlen r.sympath ++ bytes32 r.symlen)),
  length-array_append old 312 max_pathlen r.sympath (bytes32 r.symlen),
)
length-body_bytes old (Request.mkdir r) f = ground arith
length-body_bytes old (Request.rmdir r) f = ground arith
length-body_bytes old (Request.rename r) f = ground (
  arith,
  length-array_append old 52 max_namelen r.old_name (
      bytes32 r.old_namelen
      ++ (fhandle_bytes r.fh_new
          ++ (array_bytes old 344 max_namelen r.new_name ++ bytes32 r.new_namelen))),
  length-array_append old 344 max_namelen r.new_name (bytes32 r.new_namelen),
)
length-body_bytes old (Request.getattr r) f = ground arith
length-body_bytes old (Request.readlink r) f = ground arith
length-body_bytes old (Request.readdir r) f = ground arith
length-body_bytes old (Request.setattr r) f = ground arith
length-body_bytes old (Request.statfs r) f = ground arith
length-body_bytes old (Request.read_super r) f = ground arith

take-copy_at : (u bytes : List ℕ) → take (length bytes) (copy_at u 0 bytes) ≡ bytes
unfolding copy_at
take-copy_at u bytes = take-append bytes _

length-request_bytes :
    (old : ℕ → ℕ) (r : Request) → Fits r → length (request_bytes old r) ≡ (generic r).2
unfolding request_bytes
length-request_bytes old r f =
    length-header_bytes (generic r).0 (generic r).1 (generic r).2 (body_bytes old r)
    ∙ (length-body_bytes old r f).0

request_bytes-words :
    (old : ℕ → ℕ) (r : Request)
    → Fits r
    → (generic r).1 < word
    → (12 ≤ length (request_bytes old r))
      × (get32 (request_bytes old r) 0 ≡ (generic r).0)
      × (get32 (request_bytes old r) 4 ≡ (generic r).1)
      × (get32 (request_bytes old r) 8 ≡ (generic r).2)
unfolding request_bytes
request_bytes-words old r f s =
    let (type, serial, size) = generic r in
    let (_, small, fits) = length-body_bytes old r f in
    let (t, n, z) =
      get32-header_bytes type serial size (body_bytes old r) (omega arith) s (omega arith) in
    (omega (arith, length-header_bytes type serial size (body_bytes old r)), t, n, z)

-- A request that fits its place in the union and has a 32-bit serial, stored into a transaction: what
-- uvfsd_read returns is the number of the request's bytes, which is at most the 4156 that it asks the
-- server's buffer to have; that many bytes at the start of the union are the request's; the first three
-- words that the server finds there are the request's type, its serial and its size; each further
-- member of 4 bytes, the handles' parts among them, is read there in 32 bits at its own offset; and each
-- character array begins there with what was copied into it.
pub request_reaches_server :
    (old : ℕ → ℕ) (r : Request) (a : ℕ) (d : Driver)
    → Fits r
    → (generic r).1 < word
    → let bytes = request_bytes old r in
      let d' = modify a (λ t. record t { u = copy_at t.u 0 bytes }) d in
      let count = read_result false a d' in
      (count ≡ length bytes)
      × (count ≤ request_size)
      × (take count (d'.heap a).u ≡ bytes)
      × (get32 bytes 0 ≡ (generic r).0)
      × (get32 bytes 4 ≡ (generic r).1)
      × (get32 bytes 8 ≡ (generic r).2)
      × HoldsWords bytes (members r)
      × HoldsTexts bytes (texts r)
unfolding read_result
request_reaches_server old r a d f s =
    let bytes = request_bytes old r in
    let size = length-request_bytes old r f in
    let (_, small, fits) = length-body_bytes old r f in
    let (long, t, n, z) = request_bytes-words old r f s in
    let stored = modify a (λ t. record t { u = copy_at t.u 0 bytes }) d in
    let held : (stored.heap a).u ≡ copy_at (d.heap a).u 0 bytes = ground arith in
    let count : get32 (stored.heap a).u 8 ≡ length bytes =
      rw held (get32-copy_at (d.heap a).u bytes 8 long ∙ z ∙ sym size) in
    (
      count,
      omega (arith, count, size),
      rw count (rw held (take-copy_at (d.heap a).u bytes)),
      t,
      n,
      z,
      request_bytes-HoldsWords old r f,
      request_bytes-HoldsTexts old r f,
    )
