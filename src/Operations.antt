-- ===== src/Operations.antt =====
-- operations.c: the operations that the kernel can call, as one type, and what holds of all of them.
pub mod Balance
pub mod Requests
pub mod Sample
pub mod Wire
mod Fields
mod Tests
use uvfs.Base.{ℕ, Bool, List, Option}
use uvfs.Vfs.{Iattr, Kernel, World}
use uvfs.Super.Inodes.{uvfs_revalidate_inode}
use uvfs.Dir.Create.{uvfs_create, uvfs_symlink, uvfs_mkdir}
use uvfs.Dir.Lookup.{uvfs_lookup, uvfs_dentry_revalidate}
use uvfs.Dir.Permission.{uvfs_permission}
use uvfs.Dir.Remove.{uvfs_unlink, uvfs_rmdir, uvfs_rename}
use uvfs.Super.Entries.{uvfs_get_parent, dentry_of_fh, parent_of_fh}
use uvfs.Super.Mount.{Superblock, uvfs_statfs, uvfs_read_super}
use uvfs.Dir.Readdir.{Dirent, Filldir, uvfs_readdir}
use uvfs.File.Calls.{uvfs_getattr, uvfs_setattr}
use uvfs.Symlink.{uvfs_readlink, uvfs_follow_link}
use uvfs.File.Pages.{Page, uvfs_writepage, uvfs_readpage, uvfs_write_end}

-- The entries of the tables that send requests. Inodes are given by their addresses, entries by their
-- names; the reading, writing and mapping of a file begin with `revalidate`, and then are the kernel's.
-- `readdir` has its rounds, the position and what the callback has taken.
pub data Operation : Type 0 where
  create : ℕ → List ℕ → ℕ → Operation
  lookup : ℕ → List ℕ → Operation
  unlink : ℕ → List ℕ → ℕ → Operation
  symlink : ℕ → List ℕ → List ℕ → Operation
  mkdir : ℕ → List ℕ → ℕ → Operation
  rmdir : ℕ → List ℕ → ℕ → Operation
  rename : ℕ → List ℕ → ℕ → ℕ → List ℕ → Option ℕ → Operation
  revalidate : ℕ → Operation
  d_revalidate : ℕ → List ℕ → Option ℕ → Operation
  permission : ℕ → ℕ → Bool → Bool → Operation
  writepage : ℕ → Page → Operation
  readpage : ℕ → Page → Operation
  write_end : ℕ → Page → ℕ → ℕ → ℕ → Operation
  getattr : ℕ → Operation
  setattr : ℕ → Iattr → Operation
  readlink : ℕ → ℕ → Operation
  follow_link : ℕ → Operation
  readdir : Filldir → ℕ → ℕ → ℕ → List Dirent → Operation
  statfs : ℕ → Operation
  read_super : Superblock → Option (List ℕ) → Operation
  get_parent : ℕ → Operation
  fh_to_dentry : List ℕ → ℕ → ℕ → Operation
  fh_to_parent : List ℕ → ℕ → ℕ → Operation

-- The world that an operation leaves.
unfoldable pub perform : Kernel → Operation → World → World
perform k (create p name mode) w = (uvfs_create k p name mode w).1
perform k (lookup p name) w = (uvfs_lookup k p name w).1
perform k (unlink d name p) w = (uvfs_unlink k d name p w).1
perform k (symlink p name path) w = (uvfs_symlink k p name path w).1
perform k (mkdir p name mode) w = (uvfs_mkdir k p name mode w).1
perform k (rmdir d name p) w = (uvfs_rmdir k d name p w).1
perform k (rename sd sn s dd dn d) w = (uvfs_rename k sd sn s dd dn d w).1
perform k (revalidate p) w = (uvfs_revalidate_inode k p w).1
perform k (d_revalidate parent name p) w = (uvfs_dentry_revalidate k parent name p w).1
perform k (permission p bits rdonly immutable) w = (uvfs_permission k p bits rdonly immutable w).1
perform k (writepage p pg) w = (uvfs_writepage k p pg w).1
perform k (readpage p pg) w = (uvfs_readpage k p pg w).1
perform k (write_end p pg pos len copied) w = (uvfs_write_end k p pg pos len copied w).1
perform k (getattr p) w = (uvfs_getattr k p w).1
perform k (setattr p attr) w = (uvfs_setattr k p attr w).1
perform k (readlink p buflen) w = (uvfs_readlink k p buflen w).1
perform k (follow_link p) w = (uvfs_follow_link k p w).1
perform k (readdir filldir p fuel pos out) w = (uvfs_readdir k filldir p fuel pos out w).1
perform k (statfs p) w = (uvfs_statfs k p w).1
perform k (read_super sb given) w = (uvfs_read_super k sb given w).1
perform k (get_parent child) w = (uvfs_get_parent k child w).1
perform k (fh_to_dentry raw fh_len fh_type) w = (dentry_of_fh k raw fh_len fh_type w).1
perform k (fh_to_parent raw fh_len fh_type) w = (parent_of_fh k raw fh_len fh_type w).1
