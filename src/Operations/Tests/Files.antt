-- ===== src/Operations/Tests/Files.antt =====
-- Writing to a file and setting its attributes on the kernel of Operations/Sample.antt.
use Prim.Native.Nat.{min}
use uvfs.Base.{
  ◌%◌, ◌/◌, ◌-◌, ◌*◌, ◌==◌, if◌then◌else◌, ◌≤◌, ◌≡◌, refl, true, false, [], ◌∷◌, some, arith,
  length,
}
use uvfs.Base.Errno.{eio}
use uvfs.Protocol.Limits.{page_size}
use uvfs.Vfs.{Iattr}
use uvfs.File.Pages.{uvfs_write_begin, uvfs_write_end, uvfs_writepage}
use uvfs.File.Writes.{write_request, write_reaches_server, page_write_request, writepage_sends}
use uvfs.File.Calls.{without_times, set_locally, uvfs_setattr}
use uvfs.File.Attributes.{attributes_request, setattr_outcomes}
use uvfs.Operations.Sample.{at, file, kernel, world, page}

length-page : length page.bytes ≡ page_size
length-page = refl

-- Three bytes at position 2, which the server refuses.
write_reaches_server_example :
    let ((n, pg), w') = uvfs_write_end (kernel eio) 5 page 2 4 3 world in
    (uvfs_write_begin (λ index. some page) 2 4 ≡ (0, some page))
    × (w'.sent ≡ write_request (kernel eio) world 5 2 page.bytes 3 ∷ [])
    × (n ≡ 3)
    × (pg.uptodate ≡ true)
    × (pg.locked ≡ false)
    × (5 ≤ (w'.inode 5).i_size)
write_reaches_server_example =
    write_reaches_server (kernel eio) (λ index. some page) 5 page page 2 4 3 world refl refl refl
      length-page (omega arith) (omega arith) refl

-- A new size, with times.
abbrev attr : Iattr
attr = record {
  ia_valid = 120;
  ia_mode = 33188;
  ia_uid = 100;
  ia_gid = 100;
  ia_size = 3;
  ia_atime = at 1;
  ia_mtime = at 2;
  ia_ctime = at 3;
}

setattr_outcomes_example :
    let ((err, attr'), w') = uvfs_setattr (kernel 0) 5 attr world in
    (without_times 120 % 16 ≡ 120 % 16)
    × (without_times 120 / 16 % 8 ≡ 0)
    × (without_times 120 / 128 ≡ 120 / 128)
    × ((attr' ≡ attr)
        × ((err ≡ 0) × (w'.sent ≡ attributes_request (kernel 0) world file attr ∷ [])))
unfolding uvfs_setattr set_locally
setattr_outcomes_example = setattr_outcomes (kernel 0) 5 attr world

-- The only page of the file, of which six bytes are in the file.
writepage_sends_example :
    let ((err, pg), w') = uvfs_writepage (kernel 0) 5 page world in
    let count = min 4096 ((world.inode 5).i_size - page.index * 4096) in
    let r = page_write_request (kernel 0) world 5 page count in
    (if count == 0 then (err ≡ 0) × (w' ≡ world) else (err ≡ 0) × (w'.sent ≡ r ∷ []))
    × (pg.locked ≡ false)
    × (if err == 0 then pg.uptodate ≡ true else pg.error ≡ true)
writepage_sends_example = writepage_sends (kernel 0) 5 page world (omega arith) refl
