-- ===== src/File/Content.antt =====
-- file.c: which bytes of a file and of a page are moved.
use uvfs.Base.{
  ℕ, zero, suc, ◌+◌, ◌-◌, ◌*◌, ◌%◌, ◌≤◌, ◌<◌, ◌≡◌, refl, true, false, List, [], ◌∷◌, ◌++◌, arith,
  ◌==◌, ltb, if◌then◌else◌, length, take, drop, get_or, length-append, length-take, length-drop,
  word, is_negative,
}
use Prim.Native.Nat.{min}
use uvfs.Base.Errno.{enomem}
use uvfs.Protocol.{Request, Reply}
use uvfs.Protocol.Limits.{page_size}
use uvfs.Vfs.{Kernel, World, new_transaction, make_request, free}
use uvfs.File.Pages.{
  Page, zeros, offset_of, filled, writepage_count, uvfs_commit_write, uvfs_write_end, uvfs_readpage,
  returned, overrun,
}

-- Of a file shorter than 2 ^ 32: the part of a page that lies in the file, and its offset.
pub writepage_range :
    (index size : ℕ)
    → size < word
    → (writepage_count index size ≡ min page_size (size - index * page_size))
      × (if writepage_count index size == 0
          then size ≤ index * page_size
          else offset_of index ≡ index * page_size)
unfolding writepage_count
writepage_range index size h = (ground arith, ground arith)

length-zeros : (n : ℕ) → length (zeros n) ≡ n
length-zeros zero = refl
length-zeros (suc n) = omega (arith, length-zeros n)

get_or-zeros : (n i : ℕ) → get_or (zeros n) i 0 ≡ 0
get_or-zeros zero i = refl
get_or-zeros (suc n) zero = refl
get_or-zeros (suc n) (suc i) = get_or-zeros n i

get_or-take : (n : ℕ) (xs : List ℕ) (i : ℕ) → i < n → get_or (take n xs) i 0 ≡ get_or xs i 0
get_or-take zero xs i h = absurd (omega arith)
get_or-take (suc n) [] i h = refl
get_or-take (suc n) (x ∷ xs) zero h = refl
get_or-take (suc n) (x ∷ xs) (suc i) h = get_or-take n xs i (omega arith)

get_or-beyond : (xs : List ℕ) (i : ℕ) → length xs ≤ i → get_or xs i 0 ≡ 0
get_or-beyond [] i h = refl
get_or-beyond (x ∷ xs) zero h = absurd (omega arith)
get_or-beyond (x ∷ xs) (suc i) h = get_or-beyond xs i (omega arith)

get_or-front :
    (n : ℕ) (xs rest : List ℕ) (i : ℕ)
    → n ≤ length xs
    → get_or (take n xs ++ rest) i 0 ≡ (if ltb i n then get_or xs i 0 else get_or rest (i - n) 0)
get_or-front zero xs rest i h = ground arith
get_or-front (suc n) [] rest i h = absurd (omega arith)
get_or-front (suc n) (x ∷ xs) rest zero h = ground arith
get_or-front (suc n) (x ∷ xs) rest (suc i) h =
    ground (arith, get_or-front n xs rest i (omega arith))

padding-get_or :
    (n : ℕ) (old : List ℕ) (i : ℕ)
    → length old ≡ page_size
    → n ≤ page_size
    → get_or (if ltb n page_size then zeros (page_size - n) else drop n old) i 0 ≡ 0
padding-get_or n old i l b =
    ground (arith, get_or-zeros (page_size - n) i, get_or-beyond (drop n old) i, length-drop n old)

-- A page of 4096 bytes that is filled from a reply with at most that many bytes, all of which are in
-- the reply's buffer, still has 4096 bytes: those of the reply and zeros behind them. It is up to date
-- and unlocked.
pub readpage_content :
    (reply : Reply) (pg : Page) (i : ℕ)
    → length pg.bytes ≡ page_size
    → reply.bytes_read ≤ page_size
    → reply.bytes_read ≤ length reply.read_buff
    → let pg' = filled reply pg in
      (length pg'.bytes ≡ page_size)
      × (get_or pg'.bytes i 0 ≡ (if ltb i reply.bytes_read then get_or reply.read_buff i 0 else 0))
      × (pg'.uptodate ≡ true)
      × (pg'.locked ≡ false)
unfolding filled
readpage_content reply pg i l b c = (
  ground (
    arith,
    length-append (take reply.bytes_read reply.read_buff) (zeros (page_size - reply.bytes_read)),
    length-append (take reply.bytes_read reply.read_buff) (drop reply.bytes_read pg.bytes),
    length-take reply.bytes_read reply.read_buff,
    length-drop reply.bytes_read pg.bytes,
    length-zeros (page_size - reply.bytes_read),
  ),
  ground (
    arith,
    get_or-front reply.bytes_read reply.read_buff
        (if ltb reply.bytes_read page_size
          then zeros (page_size - reply.bytes_read)
          else drop reply.bytes_read pg.bytes)
        i c,
    padding-get_or reply.bytes_read pg.bytes (i - reply.bytes_read) l b,
  ),
  refl,
  refl,
)

-- Whatever becomes of the write to the server, uvfs_write_end returns the number of bytes that were
-- copied, with the page up to date and unlocked, and the file's size covers the write: an error is lost.
pub write_end_hides_error :
    (k : Kernel) (p : ℕ) (pg : Page) (pos len copied : ℕ) (w : World)
    → let ((n, pg'), w') = uvfs_write_end k p pg pos len copied w in
      (n ≡ copied)
      × (pg'.uptodate ≡ true)
      × (pg'.locked ≡ false)
      × (pg.index * page_size + (pos % page_size + copied) ≤ (w'.inode p).i_size)
unfolding uvfs_write_end uvfs_commit_write
write_end_hides_error k p pg pos len copied w = (refl, refl, refl, ground arith)

-- The request for a page.
abbrev pub page_request : Kernel → World → ℕ → ℕ → Request
page_request k w p index = Request.file_read (record {
  type = 2;
  serial = w.serial_number;
  size = 60;
  uid = k.current_fsuid;
  gid = k.current_fsgid;
  fh = (w.inode p).fh;
  count = 4096;
  offset = index * 4096 % word;
})

-- uvfs_readpage with memory for a transaction asks for the page's 4096 bytes. A server's error is what it
-- returns, with the page's bytes as they were, marked as erroneous and unlocked; a reply of at most a
-- page makes it return 0 with the page that `filled` makes of it, up to date and unlocked; a reply
-- without an error and with any other number of bytes, a negative one too, makes it copy beyond the
-- page. Without memory it returns ENOMEM and does nothing: a page that the kernel passed locked stays
-- locked, with no error set.
pub readpage_unlocks :
    (k : Kernel) (p : ℕ) (pg : Page) (w : World)
    → let (outcome, w') = uvfs_readpage k p pg w in
      let r = page_request k w p pg.index in
      let reply = k.answer (new_transaction k w).1 r in
      if k.kmalloc w
      then (w'.sent ≡ r ∷ w.sent)
        × (if is_negative reply.error
            then outcome ≡ returned reply.error (record pg { error = true; locked = false })
            else if ltb 4096 reply.bytes_read
            then outcome ≡ overrun
            else (outcome ≡ returned 0 (filled reply pg))
              × ((filled reply pg).uptodate ≡ true)
              × ((filled reply pg).locked ≡ false)
              × ((filled reply pg).index ≡ pg.index))
      else (outcome ≡ returned enomem pg) × (w' ≡ w)
unfolding uvfs_readpage filled new_transaction make_request free
readpage_unlocks k p pg w = ground arith
