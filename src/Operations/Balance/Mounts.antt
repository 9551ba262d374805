-- ===== src/Operations/Balance/Mounts.antt =====
-- The transactions of mounts, exported handles, links, attributes and the reading of directories.
use uvfs.Base.{ℕ, zero, suc, ◌≡◌, refl, arith, List, [], ◌∷◌, Option, none, some, length-append}
use uvfs.Protocol.{Fhandle, Attr}
use uvfs.Vfs.{Iattr, Kernel, World, new_transaction, make_request, free}
use uvfs.Super.Entries.{
  alias_of, entry_or_eacces, parent_of, uvfs_get_parent, ask_server, find_inode, entry_or_error,
  uvfs_get_dentry, get_or_null, dentry_of_fh, parent_of_fh,
}
use uvfs.Super.Handles.{uvfs_fh_to_dentry, uvfs_fh_to_parent}
use uvfs.Super.Mount.{
  Superblock, statfs_with, uvfs_statfs, set_root, read_super_with, mount_store, parse_data,
  uvfs_read_super,
}
use uvfs.Dir.Readdir.{Dirent, Filldir, ask_entries, read_entries, round, uvfs_readdir}
use uvfs.File.Calls.{setattr_with, set_locally, uvfs_getattr, uvfs_setattr}
use uvfs.Symlink.{link_with, uvfs_readlink, uvfs_follow_link}
use uvfs.Operations.Balance.Inodes.{
  iget-transactions, lookup_by_name-transactions, revalidate-transactions,
}

module _ (k : Kernel) where
  pub getattr-transactions :
      (p : ℕ) (w : World) → (uvfs_getattr k p w).1.transactions ≡ w.transactions
  unfolding uvfs_getattr
  getattr-transactions p w = grind (arith, (revalidate-transactions k))

  pub setattr-transactions :
      (p : ℕ) (attr : Iattr) (w : World) → (uvfs_setattr k p attr w).1.transactions ≡ w.transactions
  unfolding uvfs_setattr set_locally setattr_with new_transaction make_request free
  setattr-transactions p attr w = ground arith

  pub readlink-transactions :
      (p buflen : ℕ) (w : World) → (uvfs_readlink k p buflen w).1.transactions ≡ w.transactions
  unfolding uvfs_readlink link_with new_transaction make_request free
  readlink-transactions p buflen w = ground arith

  pub follow_link-transactions :
      (p : ℕ) (w : World) → (uvfs_follow_link k p w).1.transactions ≡ w.transactions
  unfolding uvfs_follow_link link_with new_transaction make_request free
  follow_link-transactions p w = ground arith

  pub statfs-transactions :
      (p : ℕ) (w : World) → (uvfs_statfs k p w).1.transactions ≡ w.transactions
  unfolding uvfs_statfs statfs_with new_transaction make_request free
  statfs-transactions p w = ground arith

  set_root-transactions :
      (sb : Superblock) (root : Option ℕ) (w : World)
      → (set_root k sb root w).1.transactions ≡ w.transactions
  unfolding set_root
  set_root-transactions sb none w = refl
  set_root-transactions sb (some p) w = refl

  mount_store-transactions :
      (sb : Superblock) (parsed : Option (List ℕ)) (w : World)
      → (mount_store k sb parsed w).1.transactions ≡ w.transactions
  unfolding mount_store read_super_with new_transaction make_request free
  mount_store-transactions sb none w = ground arith
  mount_store-transactions sb (some arg) w =
      grind (arith, (iget-transactions k), set_root-transactions, length-append arg (0 ∷ []))

  pub read_super-transactions :
      (sb : Superblock) (given : Option (List ℕ)) (w : World)
      → (uvfs_read_super k sb given w).1.transactions ≡ w.transactions
  unfolding uvfs_read_super
  read_super-transactions sb given w = mount_store-transactions sb (parse_data given) w

  alias_of-transactions : (p : ℕ) (w : World) → (alias_of k p w).1.transactions ≡ w.transactions
  unfolding alias_of
  alias_of-transactions p w = ground arith

  parent_of-transactions :
      (r : ℕ × Option (Fhandle × Attr)) (w : World)
      → (parent_of k r w).1.transactions ≡ w.transactions
  unfolding parent_of entry_or_eacces
  parent_of-transactions (err, none) w = refl
  parent_of-transactions (err, some (fh, attr)) w =
      grind (arith, (iget-transactions k), alias_of-transactions)

  pub get_parent-transactions :
      (child : ℕ) (w : World) → (uvfs_get_parent k child w).1.transactions ≡ w.transactions
  unfolding uvfs_get_parent
  get_parent-transactions child w =
      grind (arith, (lookup_by_name-transactions k), parent_of-transactions)

  find_inode-transactions :
      (fh : Fhandle) (w : World) → (find_inode k fh w).1.transactions ≡ w.transactions
  unfolding find_inode ask_server new_transaction make_request free
  find_inode-transactions fh w = grind (arith, (iget-transactions k))

  entry_or_error-transactions :
      (r : ℕ × Option ℕ) (w : World) → (entry_or_error k r w).1.transactions ≡ w.transactions
  unfolding entry_or_error
  entry_or_error-transactions (err, none) w = refl
  entry_or_error-transactions (err, some p) w = alias_of-transactions p w

  get_or_null-transactions :
      (fh : Option Fhandle) (w : World) → (get_or_null k fh w).1.transactions ≡ w.transactions
  unfolding get_or_null uvfs_get_dentry
  get_or_null-transactions none w = refl
  get_or_null-transactions (some fh) w =
      grind (arith, find_inode-transactions, entry_or_error-transactions)

  pub dentry_of_fh-transactions :
      (raw : List ℕ) (fh_len fh_type : ℕ) (w : World)
      → (dentry_of_fh k raw fh_len fh_type w).1.transactions ≡ w.transactions
  unfolding dentry_of_fh
  dentry_of_fh-transactions raw fh_len fh_type w =
      get_or_null-transactions (uvfs_fh_to_dentry raw fh_len fh_type) w

  pub parent_of_fh-transactions :
      (raw : List ℕ) (fh_len fh_type : ℕ) (w : World)
      → (parent_of_fh k raw fh_len fh_type w).1.transactions ≡ w.transactions
  unfolding parent_of_fh
  parent_of_fh-transactions raw fh_len fh_type w =
      get_or_null-transactions (uvfs_fh_to_parent raw fh_len fh_type) w

  round-transactions :
      (filldir : Filldir) (p pos : ℕ) (out : List Dirent) (w : World)
      → (round k filldir p pos out w).1.transactions ≡ w.transactions
  unfolding round read_entries ask_entries new_transaction make_request free
  round-transactions filldir p pos out w = ground arith

  pub readdir-transactions :
      (filldir : Filldir) (p fuel pos : ℕ) (out : List Dirent) (w : World)
      → (uvfs_readdir k filldir p fuel pos out w).1.transactions ≡ w.transactions
  unfolding uvfs_readdir
  readdir-transactions filldir p zero pos out w = refl
  readdir-transactions filldir p (suc fuel) pos out w =
      grind (arith, round-transactions filldir p pos out w, readdir-transactions filldir p fuel)
