-- ===== src/Operations/Balance.antt =====
-- Every operation frees the transaction that it allocates, on each of its paths.
mod Inodes
mod Mounts
use uvfs.Base.{Bool, ℕ, ◌-◌, ◌≡◌, refl, arith, List, Option, none, some}
use uvfs.Vfs.{Kernel, World, new_transaction, make_request, free}
use uvfs.Super.Inodes.{uvfs_iget, uvfs_refresh_inode, revalidate_with, uvfs_revalidate_inode}
use uvfs.Protocol.{Fhandle, Attr}
use uvfs.Dir.Create.{uvfs_create, uvfs_symlink, uvfs_mkdir}
use uvfs.Dir.Lookup.{uvfs_lookup_by_name, lookup_inode, uvfs_lookup, uvfs_dentry_revalidate}
use uvfs.Dir.Permission.{uvfs_permission, current_mode, ask_mode}
use uvfs.Dir.Remove.{uvfs_unlink, uvfs_rmdir, uvfs_rename, move_links, replace_target, reparent}
use uvfs.File.Pages.{
  Page, uvfs_write, uvfs_writepage, uvfs_readpage, uvfs_commit_write, uvfs_write_end,
}
use uvfs.Operations.{
  permission, Operation, create, lookup, unlink, symlink, mkdir, rmdir, rename, revalidate,
  d_revalidate, writepage, readpage, write_end, getattr, setattr, readlink, follow_link, readdir,
  statfs, read_super, get_parent, fh_to_dentry, fh_to_parent, perform,
}
use uvfs.Operations.Balance.Mounts.{
  getattr-transactions, setattr-transactions, readlink-transactions, follow_link-transactions,
  readdir-transactions, statfs-transactions, read_super-transactions, get_parent-transactions,
  dentry_of_fh-transactions, parent_of_fh-transactions,
}
use uvfs.Operations.Balance.Inodes.{
  iget-transactions, lookup_by_name-transactions, revalidate-transactions,
}

module _ (k : Kernel) where
  create-transactions :
      (p : ℕ) (name : List ℕ) (mode : ℕ) (w : World)
      → (uvfs_create k p name mode w).1.transactions ≡ w.transactions
  unfolding uvfs_create new_transaction make_request free
  create-transactions p name mode w = grind (arith, (iget-transactions k))

  symlink-transactions :
      (p : ℕ) (name path : List ℕ) (w : World)
      → (uvfs_symlink k p name path w).1.transactions ≡ w.transactions
  unfolding uvfs_symlink new_transaction make_request free
  symlink-transactions p name path w = grind (arith, (iget-transactions k))

  mkdir-transactions :
      (p : ℕ) (name : List ℕ) (mode : ℕ) (w : World)
      → (uvfs_mkdir k p name mode w).1.transactions ≡ w.transactions
  unfolding uvfs_mkdir new_transaction make_request free
  mkdir-transactions p name mode w = grind (arith, (iget-transactions k))

  lookup_inode-transactions :
      (r : ℕ × Option (Fhandle × Attr)) (w : World)
      → (lookup_inode k r w).1.transactions ≡ w.transactions
  unfolding lookup_inode
  lookup_inode-transactions (err, none) w = refl
  lookup_inode-transactions (err, some (fh, attr)) w =
      ground (arith, (iget-transactions k) fh attr w)

  lookup-transactions :
      (p : ℕ) (name : List ℕ) (w : World) → (uvfs_lookup k p name w).1.transactions ≡ w.transactions
  unfolding uvfs_lookup
  lookup-transactions p name w =
      grind (arith, lookup_inode-transactions, (lookup_by_name-transactions k))

  d_revalidate-transactions :
      (parent : ℕ) (name : List ℕ) (p : Option ℕ) (w : World)
      → (uvfs_dentry_revalidate k parent name p w).1.transactions ≡ w.transactions
  unfolding uvfs_dentry_revalidate
  d_revalidate-transactions parent name none w = ground arith
  d_revalidate-transactions parent name (some p) w = grind (arith, (lookup_by_name-transactions k))

  unlink-transactions :
      (d : ℕ) (name : List ℕ) (p : ℕ) (w : World)
      → (uvfs_unlink k d name p w).1.transactions ≡ w.transactions
  unfolding uvfs_unlink new_transaction make_request free
  unlink-transactions d name p w = ground arith

  rmdir-transactions :
      (d : ℕ) (name : List ℕ) (p : ℕ) (w : World)
      → (uvfs_rmdir k d name p w).1.transactions ≡ w.transactions
  unfolding uvfs_rmdir new_transaction make_request free
  rmdir-transactions d name p w = ground arith

  move_links-transactions :
      (sd src dd : ℕ) (d : Option ℕ) (w : World)
      → (move_links k sd src dd d w).1.transactions ≡ w.transactions
  unfolding move_links replace_target reparent
  move_links-transactions sd src dd none w = ground arith
  move_links-transactions sd src dd (some d) w = ground arith

  rename-transactions :
      (sd : ℕ) (sn : List ℕ) (s dd : ℕ) (dn : List ℕ) (d : Option ℕ) (w : World)
      → (uvfs_rename k sd sn s dd dn d w).1.transactions ≡ w.transactions
  unfolding uvfs_rename new_transaction make_request free
  rename-transactions sd sn s dd dn d w = grind (arith, move_links-transactions)

  write-transactions :
      (p : ℕ) (buff : List ℕ) (offset count : ℕ) (w : World)
      → (uvfs_write k p buff offset count w).1.transactions ≡ w.transactions
  unfolding uvfs_write new_transaction make_request free
  write-transactions p buff offset count w = ground arith

  writepage-transactions :
      (p : ℕ) (pg : Page) (w : World) → (uvfs_writepage k p pg w).1.transactions ≡ w.transactions
  unfolding uvfs_writepage
  writepage-transactions p pg w = grind (arith, write-transactions)

  permission-transactions :
      (p bits : ℕ) (rdonly immutable : Bool) (w : World)
      → (uvfs_permission k p bits rdonly immutable w).1.transactions ≡ w.transactions
  unfolding uvfs_permission current_mode ask_mode new_transaction make_request free
  permission-transactions p bits rdonly immutable w = ground arith

  readpage-transactions :
      (p : ℕ) (pg : Page) (w : World) → (uvfs_readpage k p pg w).1.transactions ≡ w.transactions
  unfolding uvfs_readpage new_transaction make_request free
  readpage-transactions p pg w = ground arith

  commit_write-transactions :
      (p : ℕ) (pg : Page) (offset to : ℕ) (w : World)
      → (uvfs_commit_write k p pg offset to w).1.transactions ≡ w.transactions
  unfolding uvfs_commit_write
  commit_write-transactions p pg offset to w = grind (arith, write-transactions)

  write_end-transactions :
      (p : ℕ) (pg : Page) (pos len copied : ℕ) (w : World)
      → (uvfs_write_end k p pg pos len copied w).1.transactions ≡ w.transactions
  unfolding uvfs_write_end
  write_end-transactions p pg pos len copied w = grind (arith, commit_write-transactions)

-- No operation leaks its transaction or frees one twice: when it returns, on whatever path, the thread
-- has as many allocated transactions as before, whatever the server answers, whether or not the
-- allocation fails, and whatever the kernel's functions return.
pub perform-transactions :
    (k : Kernel) (o : Operation) (w : World) → (perform k o w).transactions ≡ w.transactions
unfolding perform
perform-transactions k (create p name mode) w = create-transactions k p name mode w
perform-transactions k (lookup p name) w = lookup-transactions k p name w
perform-transactions k (unlink d name p) w = unlink-transactions k d name p w
perform-transactions k (symlink p name path) w = symlink-transactions k p name path w
perform-transactions k (mkdir p name mode) w = mkdir-transactions k p name mode w
perform-transactions k (rmdir d name p) w = rmdir-transactions k d name p w
perform-transactions k (rename sd sn s dd dn d) w = rename-transactions k sd sn s dd dn d w
perform-transactions k (revalidate p) w = revalidate-transactions k p w
perform-transactions k (d_revalidate parent name p) w = d_revalidate-transactions k parent name p w
perform-transactions k (permission p bits rdonly immutable) w =
    permission-transactions k p bits rdonly immutable w
perform-transactions k (writepage p pg) w = writepage-transactions k p pg w
perform-transactions k (readpage p pg) w = readpage-transactions k p pg w
perform-transactions k (write_end p pg pos len copied) w =
    write_end-transactions k p pg pos len copied w
perform-transactions k (getattr p) w = getattr-transactions k p w
perform-transactions k (setattr p attr) w = setattr-transactions k p attr w
perform-transactions k (readlink p buflen) w = readlink-transactions k p buflen w
perform-transactions k (follow_link p) w = follow_link-transactions k p w
perform-transactions k (readdir filldir p fuel pos out) w =
    readdir-transactions k filldir p fuel pos out w
perform-transactions k (statfs p) w = statfs-transactions k p w
perform-transactions k (read_super sb given) w = read_super-transactions k sb given w
perform-transactions k (get_parent child) w = get_parent-transactions k child w
perform-transactions k (fh_to_dentry raw fh_len fh_type) w =
    dentry_of_fh-transactions k raw fh_len fh_type w
perform-transactions k (fh_to_parent raw fh_len fh_type) w =
    parent_of_fh-transactions k raw fh_len fh_type w
