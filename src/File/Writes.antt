-- ===== src/File/Writes.antt =====
-- file.c: a buffered write from uvfs_write_begin to the request of uvfs_write_end.
use uvfs.Base.{
  inl, inr, Bool-cases, ◌==◌, ◌*◌, ℕ, zero, suc, ◌+◌, ◌-◌, ◌/◌, ◌%◌, ◌≤◌, ◌<◌, ◌≡◌, refl, ◌∙◌, ap,
  subst, true, false, List, [], ◌∷◌, ◌++◌, Option, some, arith, ltb, if◌then◌else◌, Bool-cases,
  length, take, drop, copy_at, word,
}
use uvfs.Protocol.{Request, FileWriteReq}
use uvfs.Protocol.Limits.{page_size}
use uvfs.Protocol
use uvfs.Vfs.{Kernel, World, new_transaction, make_request, free}
use Prim.Native.Nat.{min}
use uvfs.File.Content.{write_end_hides_error, writepage_range}
use uvfs.File.Pages.{
  Page, zeros, offset_of, uvfs_write, uvfs_prepare_write, uvfs_write_begin, uvfs_commit_write,
  uvfs_write_end, writepage_count, uvfs_writepage,
}

-- What lies before the place of a copy is not touched by it.
take-take-append : (n : ℕ) (xs ys : List ℕ) → n ≤ length xs → take n (take n xs ++ ys) ≡ take n xs
take-take-append zero xs ys h = refl
take-take-append (suc n) [] ys h = absurd (omega arith)
take-take-append (suc n) (x ∷ xs) ys h = ap (λ l. x ∷ l) (take-take-append n xs ys (omega arith))

take-drop-front :
    (m n : ℕ) (xs ys : List ℕ)
    → m + n ≤ length xs
    → take n (drop m (take (m + n) xs ++ ys)) ≡ take n (drop m xs)
take-drop-front zero n xs ys h =
    subst (λ t. take n (take t xs ++ ys) ≡ take n xs) (omega arith)
      (take-take-append n xs ys (omega arith))
take-drop-front (suc m) n [] ys h = absurd (omega arith)
take-drop-front (suc m) n (x ∷ xs) ys h =
    subst (λ t. take n (drop (suc m) (take t (x ∷ xs) ++ ys)) ≡ take n (drop m xs)) e
      (take-drop-front m n xs ys (omega arith))
  where
    e : suc (m + n) ≡ suc m + n
    e = omega arith

take-drop-copy_at :
    (m n : ℕ) (xs bytes : List ℕ)
    → m + n ≤ length xs
    → take n (drop m (copy_at xs (m + n) bytes)) ≡ take n (drop m xs)
unfolding copy_at
take-drop-copy_at m n xs bytes h = take-drop-front m n xs _ h

-- The request that writes some bytes of a page at a position of the file.
abbrev pub write_request : Kernel → World → ℕ → ℕ → List ℕ → ℕ → Request
write_request k w p pos bytes count = Request.file_write (record {
  type = Protocol.Code.write;
  serial = w.serial_number;
  size = Protocol.Layout.file_write_buff + count;
  uid = k.current_fsuid;
  gid = k.current_fsgid;
  fh = (w.inode p).fh;
  count = count;
  offset = pos;
  buff = take count (drop (pos % page_size) bytes);
})

write-sent :
    (k : Kernel) (p : ℕ) (buff : List ℕ) (pos count : ℕ) (w : World)
    → k.kmalloc w ≡ true
    → (uvfs_write k p buff pos count w).1.sent
      ≡ Request.file_write (record {
        type = Protocol.Code.write;
        serial = w.serial_number;
        size = Protocol.Layout.file_write_buff + count;
        uid = k.current_fsuid;
        gid = k.current_fsgid;
        fh = (w.inode p).fh;
        count = count;
        offset = pos;
        buff = take count buff;
      })
        ∷ w.sent
unfolding uvfs_write new_transaction make_request free
write-sent k p buff pos count w m = ground arith

commit_write-sent :
    (k : Kernel) (p : ℕ) (pg : Page) (offset to : ℕ) (w : World)
    → (uvfs_commit_write k p pg offset to w).1.sent
      ≡ (uvfs_write k p
          (drop offset pg.bytes)
          ((offset_of pg.index + offset) % word)
          (to - offset)
          w).1.sent
unfolding uvfs_commit_write
commit_write-sent k p pg offset to w = ground arith

-- The page that uvfs_write_end passes on: zeros over what was not copied.
cleared : Page → ℕ → ℕ → ℕ → Page
cleared pg from len copied =
    if ltb copied len
    then record pg { bytes = copy_at pg.bytes (from + copied) (zeros (len - copied)) }
    else pg

cleared-keeps :
    (pg : Page) (from len copied : ℕ)
    → from + copied ≤ length pg.bytes
    → ((cleared pg from len copied).index ≡ pg.index)
      × (take copied (drop from (cleared pg from len copied).bytes)
          ≡ take copied (drop from pg.bytes))
unfolding cleared
cleared-keeps pg from len copied h =
    ground (arith, take-drop-copy_at from copied pg.bytes (zeros (len - copied)) h)

write_end-sent :
    (k : Kernel) (p : ℕ) (pg : Page) (pos len copied : ℕ) (w : World)
    → (uvfs_write_end k p pg pos len copied w).1.sent
      ≡ (uvfs_commit_write k p
          (cleared pg (pos % page_size) len copied)
          (pos % page_size)
          (pos % page_size + copied)
          w).1.sent
unfolding uvfs_write_end cleared
write_end-sent k p pg pos len copied w = refl

write_end-request :
    (k : Kernel) (p : ℕ) (pg : Page) (pos len copied : ℕ) (w : World)
    → pg.index ≡ pos / page_size
    → length pg.bytes ≡ page_size
    → pos % page_size + copied ≤ page_size
    → pos < word
    → k.kmalloc w ≡ true
    → (uvfs_write_end k p pg pos len copied w).1.sent
      ≡ write_request k w p pos pg.bytes copied ∷ w.sent
write_end-request k p pg pos len copied w index size inside small m =
    let from = pos % page_size in
    let sent_page = cleared pg from len copied in
    let (at_index, front) = cleared-keeps pg from len copied (omega (arith, size, inside)) in
    let offset : (offset_of sent_page.index + from) % word ≡ pos = omega (arith, index, at_index) in
    let amount : from + copied - from ≡ copied = omega arith in
    write_end-sent k p pg pos len copied w
    ∙ commit_write-sent k p sent_page from (from + copied) w
    ∙ write-sent k p (drop from sent_page.bytes) ((offset_of sent_page.index + from) % word)
        (from + copied - from) w m
    ∙ rw (offset, amount, front) refl

-- A write of up to one page, at a position below 2 ^ 32, with memory for a transaction, if the kernel's
-- grab_cache_page_write_begin returns the page with the index that it is asked for: uvfs_write_begin
-- returns 0 with that page, and after bytes were copied into it uvfs_write_end sends one request, which
-- carries exactly the bytes of the page from the position on, as many as were copied, with the position
-- as the offset in the file. Whatever the server answers, it returns the number of copied bytes, with
-- the page up to date and unlocked, and the file's size covers the write: an error is lost.
pub write_reaches_server :
    (k : Kernel) (grab : ℕ → Option Page) (p : ℕ) (pg pg' : Page) (pos len copied : ℕ) (w : World)
    → grab (pos / page_size) ≡ some pg
    → pg.index ≡ pos / page_size
    → pg'.index ≡ pg.index
    → length pg'.bytes ≡ page_size
    → pos % page_size + copied ≤ page_size
    → pos < word
    → k.kmalloc w ≡ true
    → let ((n, pg''), w') = uvfs_write_end k p pg' pos len copied w in
      (uvfs_write_begin grab pos len ≡ (0, some pg))
      × (w'.sent ≡ write_request k w p pos pg'.bytes copied ∷ w.sent)
      × (n ≡ copied)
      × (pg''.uptodate ≡ true)
      × (pg''.locked ≡ false)
      × (pos + copied ≤ (w'.inode p).i_size)
unfolding uvfs_write_begin uvfs_prepare_write
write_reaches_server k grab p pg pg' pos len copied w g index same size inside small m =
    let (n, uptodate, locked, covers) = write_end_hides_error k p pg' pos len copied w in
    (
      ground arith,
      write_end-request k p pg' pos len copied w (same ∙ index) size inside small m,
      n,
      uptodate,
      locked,
      omega (arith, covers, index, same),
    )

-- The request that writes the first bytes of a page.
abbrev pub page_write_request : Kernel → World → ℕ → Page → ℕ → Request
page_write_request k w p pg count = Request.file_write (record {
  type = 1;
  serial = w.serial_number;
  size = 60 + count;
  uid = k.current_fsuid;
  gid = k.current_fsgid;
  fh = (w.inode p).fh;
  count = count;
  offset = pg.index * 4096;
  buff = take count pg.bytes;
})

-- uvfs_writepage on a file shorter than 2 ^ 32, with memory for a transaction, writes the part of the page
-- that lies in the file. If the file ends at or before the page's start it returns 0 and sends nothing.
-- Otherwise it sends one request, with the page's first bytes, as many as the file has from the page's
-- start on, at most 4096, with the page's start as the offset in the file, and returns the server's
-- error. The page is unlocked at the end, up to date where 0 is returned and marked as erroneous
-- otherwise.
pub writepage_sends :
    (k : Kernel) (p : ℕ) (pg : Page) (w : World)
    → (w.inode p).i_size < word
    → k.kmalloc w ≡ true
    → let ((err, pg'), w') = uvfs_writepage k p pg w in
      let count = min 4096 ((w.inode p).i_size - pg.index * 4096) in
      let r = page_write_request k w p pg count in
      (if count == 0
        then (err ≡ 0) × (w' ≡ w)
        else (err ≡ (k.answer (new_transaction k w).1 r).error) × (w'.sent ≡ r ∷ w.sent))
      × (pg'.locked ≡ false)
      × (if err == 0 then pg'.uptodate ≡ true else pg'.error ≡ true)
unfolding uvfs_writepage uvfs_write new_transaction make_request free
writepage_sends k p pg w small m =
    let (amount, offset) = writepage_range pg.index (w.inode p).i_size small in
    elim (Bool-cases (writepage_count pg.index (w.inode p).i_size == 0)) [
      | inl none_left ↦ ground (arith, amount, none_left)
      | inr some_left ↦ ground (arith, amount, some_left, offset)
    ]
