-- ===== src/File/Pages.antt =====
-- file.c: uvfs_write, uvfs_writepage, uvfs_readpage, uvfs_commit_write, uvfs_write_begin and
-- uvfs_write_end. A page is its index in the file and its bytes; `unsigned` arithmetic wraps at 2 ^ 32.
use uvfs.Base.{
  ℕ, zero, suc, ◌+◌, ◌-◌, ◌*◌, ◌/◌, ◌%◌, Bool, true, false, List, [], ◌∷◌, ◌++◌, ◌==◌, ltb, Option,
  none, some, if◌then◌else◌, is_negative, word, take, drop, copy_at,
}
use uvfs.Base.Errno.{enomem}
use uvfs.Protocol.{Request, FileWriteReq, FileReadReq, Reply}
use uvfs.Protocol
use uvfs.Protocol.Limits.{page_size}
use uvfs.Vfs.{
  Kernel, Op, ◌>>=◌, ◌>>◌, return, when, with_transaction, get_inode, modify_inode, make_request,
  free,
}

-- A page of the cache. The flag PG_error or PG_uptodate is what the last operation set.
pub record Page : Type 0 where
  pub index : ℕ
  pub bytes : List ℕ
  pub uptodate : Bool
  pub error : Bool
  pub locked : Bool

abbrev pub zeros : ℕ → List ℕ
zeros zero = []
zeros (suc n) = 0 ∷ zeros n

abbrev pub offset_of : ℕ → ℕ
offset_of index = index * page_size % word

-- How many bytes of a page uvfs_writepage writes, of a file of the given size.
unfoldable pub writepage_count : ℕ → ℕ → ℕ
writepage_count index size =
    let end_index = size / page_size % word in
    if ltb index end_index then page_size else if ltb end_index index then 0 else size % page_size

unfoldable pub uvfs_prepare_write : Page → ℕ → ℕ → ℕ
uvfs_prepare_write pg offset to = 0

-- The error, or 0, and the page; `grab` is the kernel's grab_cache_page_write_begin, by the index.
unfoldable pub uvfs_write_begin : (ℕ → Option Page) → ℕ → ℕ → ℕ × Option Page
unfolding uvfs_prepare_write
uvfs_write_begin grab pos len =
    let from = pos % page_size in
    elim (grab (pos / page_size)) [
      | none ↦ (enomem, none)
      | some pg ↦ (uvfs_prepare_write pg from (from + len), some pg)
    ]

-- The page after a reply of `bytes_read` bytes, at most a page.
unfoldable pub filled : Reply → Page → Page
filled reply pg =
    let n = reply.bytes_read in
    record pg {
      bytes =
          take n reply.read_buff
          ++ (if ltb n page_size then zeros (page_size - n) else drop n pg.bytes);
      uptodate = true;
      locked = false;
    }

-- How uvfs_readpage ends: with an error or 0 and the page; or its memcpy goes beyond the page and the
-- reply's buffer, and what it does then is not followed.
pub data ReadOutcome : Type 0 where
  returned : ℕ → Page → ReadOutcome
  overrun : ReadOutcome

module _ (k : Kernel) where
  write_with : ℕ → List ℕ → ℕ → ℕ → ℕ → Op ℕ
  write_with p buff offset count serial = do
    inode ← get_inode p
    reply ← make_request k (
        Request.file_write (record {
          type = Protocol.Code.write;
          serial = serial;
          size = Protocol.Layout.file_write_buff + count;
          uid = k.current_fsuid;
          gid = k.current_fsgid;
          fh = inode.fh;
          count = count;
          offset = offset;
          buff = take count buff;
        }))
    free
    return reply.error

  unfoldable pub uvfs_write : ℕ → List ℕ → ℕ → ℕ → Op ℕ
  unfolding write_with
  uvfs_write p buff offset count =
      with_transaction k enomem (λ serial. write_with p buff offset count serial)

  -- The error and the page.
  unfoldable pub uvfs_writepage : ℕ → Page → Op (ℕ × Page)
  unfolding writepage_count
  uvfs_writepage p pg = do
    inode ← get_inode p
    let count = writepage_count pg.index inode.i_size
    if count == 0 then return (0, record pg { uptodate = true; locked = false }) else (do
      err ← uvfs_write p pg.bytes (offset_of pg.index) count
      return (
          if err == 0
          then (0, record pg { uptodate = true; locked = false })
          else (err, record pg { error = true; locked = false })))

  -- `bytes_read` is an int that memcpy takes as a size_t: a negative one is beyond the page too.
  readpage_with : ℕ → Page → ℕ → Op ReadOutcome
  unfolding filled
  readpage_with p pg serial = do
    inode ← get_inode p
    reply ← make_request k (
        Request.file_read (record {
          type = Protocol.Code.read;
          serial = serial;
          size = Protocol.Layout.file_read;
          uid = k.current_fsuid;
          gid = k.current_fsgid;
          fh = inode.fh;
          count = page_size;
          offset = offset_of pg.index;
        }))
    free
    return (
        if is_negative reply.error
        then returned reply.error (record pg { error = true; locked = false })
        else if ltb page_size reply.bytes_read
        then overrun
        else returned 0 (filled reply pg))

  -- Without memory for a transaction the page stays as it is, locked.
  unfoldable pub uvfs_readpage : ℕ → Page → Op ReadOutcome
  unfolding readpage_with
  uvfs_readpage p pg = with_transaction k (returned enomem pg) (λ serial. readpage_with p pg serial)

  -- Writes the bytes from `offset` to `to` of the page, and grows the file.
  unfoldable pub uvfs_commit_write : ℕ → Page → ℕ → ℕ → Op (ℕ × Page)
  uvfs_commit_write p pg offset to = do
    err ← uvfs_write p (drop offset pg.bytes) ((offset_of pg.index + offset) % word) (to - offset)
    let pos = pg.index * page_size + to
    inode ← get_inode p
    when (ltb inode.i_size pos) (modify_inode p (λ i. record i { i_size = pos }))
    return (err, record pg { uptodate = true })

  -- The number of bytes that count as written; what commit_write returns is not looked at.
  unfoldable pub uvfs_write_end : ℕ → Page → ℕ → ℕ → ℕ → Op (ℕ × Page)
  uvfs_write_end p pg pos len copied = do
    let from = pos % page_size
    let stale =
        if ltb copied len
        then record pg { bytes = copy_at pg.bytes (from + copied) (zeros (len - copied)) }
        else pg
    (_, pg') ← uvfs_commit_write p stale from (from + copied)
    return (copied, record pg' { locked = false })
