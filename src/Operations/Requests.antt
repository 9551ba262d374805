-- ===== src/Operations/Requests.antt =====
-- What every operation sends fits its place in the union, whatever name it is given.
pub mod Members
mod Inodes
mod Mounts
pub use Members.{AllFit}
use uvfs.Base.{
  Bool, ℕ, ◌+◌, ◌%◌, ◌≤◌, ◌≡◌, refl, arith, List, [], ◌∷◌, Option, none, some, length, length-take,
}
use uvfs.Protocol.{Request, Fhandle, Attr}
use uvfs.Protocol.Limits.{max_namelen, max_pathlen, page_size}
use uvfs.Vfs.{Kernel, World, new_transaction, make_request, free}
use uvfs.Super.Inodes.{uvfs_iget, uvfs_refresh_inode, revalidate_with, uvfs_revalidate_inode}
use uvfs.Dir.Create.{uvfs_create, uvfs_symlink, uvfs_mkdir}
use uvfs.Dir.Lookup.{uvfs_lookup_by_name, lookup_inode, uvfs_lookup, uvfs_dentry_revalidate}
use uvfs.Dir.Permission.{uvfs_permission, current_mode, ask_mode}
use uvfs.Dir.Remove.{uvfs_unlink, uvfs_rmdir, uvfs_rename, move_links, replace_target, reparent}
use uvfs.File.Pages.{
  Page, uvfs_write, writepage_count, uvfs_writepage, uvfs_readpage, uvfs_commit_write,
  uvfs_write_end,
}
use uvfs.Operations.{
  permission, Operation, create, lookup, unlink, symlink, mkdir, rmdir, rename, revalidate,
  d_revalidate, writepage, readpage, write_end, getattr, setattr, readlink, follow_link, readdir,
  statfs, read_super, get_parent, fh_to_dentry, fh_to_parent, perform,
}
use uvfs.Operations.Requests.Members.{Fits, InArray, AllFit}
use uvfs.Operations.Requests.Mounts.{
  getattr-AllFit, setattr-AllFit, readlink-AllFit, follow_link-AllFit, readdir-AllFit,
  statfs-AllFit, read_super-AllFit, get_parent-AllFit, dentry_of_fh-AllFit, parent_of_fh-AllFit,
}
use uvfs.Operations.Requests.Inodes.{iget-sent, lookup_by_name-AllFit, revalidate-AllFit}

module _ (k : Kernel) where
  create-AllFit :
      (p : ℕ) (name : List ℕ) (mode : ℕ) (w : World)
      → AllFit w.sent
      → AllFit (uvfs_create k p name mode w).1.sent
  unfolding uvfs_create new_transaction make_request free
  create-AllFit p name mode w h = grind (arith, (iget-sent k))

  symlink-AllFit :
      (p : ℕ) (name path : List ℕ) (w : World)
      → AllFit w.sent
      → AllFit (uvfs_symlink k p name path w).1.sent
  unfolding uvfs_symlink new_transaction make_request free
  symlink-AllFit p name path w h = grind (arith, (iget-sent k))

  mkdir-AllFit :
      (p : ℕ) (name : List ℕ) (mode : ℕ) (w : World)
      → AllFit w.sent
      → AllFit (uvfs_mkdir k p name mode w).1.sent
  unfolding uvfs_mkdir new_transaction make_request free
  mkdir-AllFit p name mode w h = grind (arith, (iget-sent k))

  lookup_inode-sent :
      (r : ℕ × Option (Fhandle × Attr)) (w : World) → (lookup_inode k r w).1.sent ≡ w.sent
  unfolding lookup_inode
  lookup_inode-sent (err, none) w = refl
  lookup_inode-sent (err, some (fh, attr)) w = ground (arith, iget-sent k fh attr w)

  lookup-AllFit :
      (p : ℕ) (name : List ℕ) (w : World) → AllFit w.sent → AllFit (uvfs_lookup k p name w).1.sent
  unfolding uvfs_lookup
  lookup-AllFit p name w h = grind (arith, lookup_inode-sent, (lookup_by_name-AllFit k))

  d_revalidate-AllFit :
      (parent : ℕ) (name : List ℕ) (p : Option ℕ) (w : World)
      → AllFit w.sent
      → AllFit (uvfs_dentry_revalidate k parent name p w).1.sent
  unfolding uvfs_dentry_revalidate
  d_revalidate-AllFit parent name none w h = ground arith
  d_revalidate-AllFit parent name (some p) w h =
      ground (arith, lookup_by_name-AllFit k parent name w)

  unlink-AllFit :
      (d : ℕ) (name : List ℕ) (p : ℕ) (w : World)
      → AllFit w.sent
      → AllFit (uvfs_unlink k d name p w).1.sent
  unfolding uvfs_unlink new_transaction make_request free
  unlink-AllFit d name p w h = ground arith

  rmdir-AllFit :
      (d : ℕ) (name : List ℕ) (p : ℕ) (w : World)
      → AllFit w.sent
      → AllFit (uvfs_rmdir k d name p w).1.sent
  unfolding uvfs_rmdir new_transaction make_request free
  rmdir-AllFit d name p w h = ground arith

  move_links-sent :
      (sd src dd : ℕ) (d : Option ℕ) (w : World) → (move_links k sd src dd d w).1.sent ≡ w.sent
  unfolding move_links replace_target reparent
  move_links-sent sd src dd none w = ground arith
  move_links-sent sd src dd (some d) w = ground arith

  rename-AllFit :
      (sd : ℕ) (sn : List ℕ) (s dd : ℕ) (dn : List ℕ) (d : Option ℕ) (w : World)
      → AllFit w.sent
      → AllFit (uvfs_rename k sd sn s dd dn d w).1.sent
  unfolding uvfs_rename new_transaction make_request free
  rename-AllFit sd sn s dd dn d w h = grind (arith, move_links-sent)

  write-AllFit :
      (p : ℕ) (buff : List ℕ) (offset count : ℕ) (w : World)
      → count ≤ page_size
      → AllFit w.sent
      → AllFit (uvfs_write k p buff offset count w).1.sent
  unfolding uvfs_write new_transaction make_request free
  write-AllFit p buff offset count w c h = ground (arith, length-take count buff)

  writepage_count-le : (index size : ℕ) → writepage_count index size ≤ page_size
  unfolding writepage_count
  writepage_count-le index size = ground arith

  writepage-AllFit :
      (p : ℕ) (pg : Page) (w : World) → AllFit w.sent → AllFit (uvfs_writepage k p pg w).1.sent
  unfolding uvfs_writepage
  writepage-AllFit p pg w h = grind (arith, write-AllFit, writepage_count-le)

  permission-AllFit :
      (p bits : ℕ) (rdonly immutable : Bool) (w : World)
      → AllFit w.sent
      → AllFit (uvfs_permission k p bits rdonly immutable w).1.sent
  unfolding uvfs_permission current_mode ask_mode new_transaction make_request free
  permission-AllFit p bits rdonly immutable w h = ground arith

  readpage-AllFit :
      (p : ℕ) (pg : Page) (w : World) → AllFit w.sent → AllFit (uvfs_readpage k p pg w).1.sent
  unfolding uvfs_readpage new_transaction make_request free
  readpage-AllFit p pg w h = ground arith

  commit_write-AllFit :
      (p : ℕ) (pg : Page) (offset to : ℕ) (w : World)
      → to ≤ page_size
      → AllFit w.sent
      → AllFit (uvfs_commit_write k p pg offset to w).1.sent
  unfolding uvfs_commit_write
  commit_write-AllFit p pg offset to w c h = grind (arith, write-AllFit)

  write_end-AllFit :
      (p : ℕ) (pg : Page) (pos len copied : ℕ) (w : World)
      → pos % page_size + copied ≤ page_size
      → AllFit w.sent
      → AllFit (uvfs_write_end k p pg pos len copied w).1.sent
  unfolding uvfs_write_end
  write_end-AllFit p pg pos len copied w c h = grind (arith, commit_write-AllFit)

-- What the kernel keeps to: it ends a write inside the page that it began in.
abbrev pub InPage : Operation → Type 0
InPage (write_end p pg pos len copied) = pos % page_size + copied ≤ page_size
InPage _ = Unit

-- If all requests sent before fit, so do those that an operation sends, whatever names and paths it is
-- given, provided that a write ends inside its page: the code in a request is that of its kind, its
-- size is what was filled in and at most that of the union, and no array gets more bytes than it holds.
pub perform-AllFit :
    (k : Kernel) (o : Operation) (w : World)
    → InPage o
    → AllFit w.sent
    → AllFit (perform k o w).sent
unfolding perform
perform-AllFit k (create p name mode) w i h = create-AllFit k p name mode w h
perform-AllFit k (lookup p name) w i h = lookup-AllFit k p name w h
perform-AllFit k (unlink d name p) w i h = unlink-AllFit k d name p w h
perform-AllFit k (symlink p name path) w i h = symlink-AllFit k p name path w h
perform-AllFit k (mkdir p name mode) w i h = mkdir-AllFit k p name mode w h
perform-AllFit k (rmdir d name p) w i h = rmdir-AllFit k d name p w h
perform-AllFit k (rename sd sn s dd dn d) w i h = rename-AllFit k sd sn s dd dn d w h
perform-AllFit k (revalidate p) w i h = revalidate-AllFit k p w h
perform-AllFit k (d_revalidate parent name p) w i h = d_revalidate-AllFit k parent name p w h
perform-AllFit k (permission p bits rdonly immutable) w i h =
    permission-AllFit k p bits rdonly immutable w h
perform-AllFit k (writepage p pg) w i h = writepage-AllFit k p pg w h
perform-AllFit k (readpage p pg) w i h = readpage-AllFit k p pg w h
perform-AllFit k (write_end p pg pos len copied) w i h =
    write_end-AllFit k p pg pos len copied w i h
perform-AllFit k (getattr p) w i h = getattr-AllFit k p w h
perform-AllFit k (setattr p attr) w i h = setattr-AllFit k p attr w h
perform-AllFit k (readlink p buflen) w i h = readlink-AllFit k p buflen w h
perform-AllFit k (follow_link p) w i h = follow_link-AllFit k p w h
perform-AllFit k (readdir filldir p fuel pos out) w i h =
    readdir-AllFit k filldir p fuel pos out w h
perform-AllFit k (statfs p) w i h = statfs-AllFit k p w h
perform-AllFit k (read_super sb given) w i h = read_super-AllFit k sb given w h
perform-AllFit k (get_parent child) w i h = get_parent-AllFit k child w h
perform-AllFit k (fh_to_dentry raw fh_len fh_type) w i h =
    dentry_of_fh-AllFit k raw fh_len fh_type w h
perform-AllFit k (fh_to_parent raw fh_len fh_type) w i h =
    parent_of_fh-AllFit k raw fh_len fh_type w h
