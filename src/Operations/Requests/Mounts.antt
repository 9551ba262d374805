-- ===== src/Operations/Requests/Mounts.antt =====
-- What mounts, exported handles, links, attributes and the reading of directories send.
use uvfs.Base.{ℕ, zero, suc, ◌≡◌, refl, arith, List, [], ◌∷◌, Option, none, some, length-append}
use uvfs.Protocol.{Fhandle, Attr}
use uvfs.Vfs.{Iattr, Kernel, World, new_transaction, make_request, free}
use uvfs.Super.Entries.{
  alias_of, entry_or_eacces, parent_of, uvfs_get_parent, ask_server, find_inode, entry_or_error,
  uvfs_get_dentry, get_or_null, dentry_of_fh, parent_of_fh,
}
use uvfs.Super.Handles.{uvfs_fh_to_dentry, uvfs_fh_to_parent}
use uvfs.Super.Mount.{
  Superblock, statfs_with, uvfs_statfs, set_root, read_super_with, mount_store, parse_data,
  uvfs_read_super,
}
use uvfs.Dir.Readdir.{Dirent, Filldir, ask_entries, read_entries, round, uvfs_readdir}
use uvfs.File.Calls.{setattr_with, set_locally, uvfs_getattr, uvfs_setattr}
use uvfs.Symlink.{link_with, uvfs_readlink, uvfs_follow_link}
use uvfs.Operations.Requests.Inodes.{iget-sent, lookup_by_name-AllFit, revalidate-AllFit}
use uvfs.Operations.Requests.Members.{AllFit}

module _ (k : Kernel) where
  pub getattr-AllFit : (p : ℕ) (w : World) → AllFit w.sent → AllFit (uvfs_getattr k p w).1.sent
  unfolding uvfs_getattr
  getattr-AllFit p w h = grind (arith, (revalidate-AllFit k))

  pub setattr-AllFit :
      (p : ℕ) (attr : Iattr) (w : World) → AllFit w.sent → AllFit (uvfs_setattr k p attr w).1.sent
  unfolding uvfs_setattr set_locally setattr_with new_transaction make_request free
  setattr-AllFit p attr w h = ground arith

  pub readlink-AllFit :
      (p buflen : ℕ) (w : World) → AllFit w.sent → AllFit (uvfs_readlink k p buflen w).1.sent
  unfolding uvfs_readlink link_with new_transaction make_request free
  readlink-AllFit p buflen w h = ground arith

  pub follow_link-AllFit :
      (p : ℕ) (w : World) → AllFit w.sent → AllFit (uvfs_follow_link k p w).1.sent
  unfolding uvfs_follow_link link_with new_transaction make_request free
  follow_link-AllFit p w h = ground arith

  pub statfs-AllFit : (p : ℕ) (w : World) → AllFit w.sent → AllFit (uvfs_statfs k p w).1.sent
  unfolding uvfs_statfs statfs_with new_transaction make_request free
  statfs-AllFit p w h = ground arith

  set_root-sent :
      (sb : Superblock) (root : Option ℕ) (w : World) → (set_root k sb root w).1.sent ≡ w.sent
  unfolding set_root
  set_root-sent sb none w = refl
  set_root-sent sb (some p) w = refl

  mount_store-AllFit :
      (sb : Superblock) (parsed : Option (List ℕ)) (w : World)
      → AllFit w.sent
      → AllFit (mount_store k sb parsed w).1.sent
  unfolding mount_store read_super_with new_transaction make_request free
  mount_store-AllFit sb none w h = ground arith
  mount_store-AllFit sb (some arg) w h =
      grind (arith, (iget-sent k), set_root-sent, length-append arg (0 ∷ []))

  pub read_super-AllFit :
      (sb : Superblock) (given : Option (List ℕ)) (w : World)
      → AllFit w.sent
      → AllFit (uvfs_read_super k sb given w).1.sent
  unfolding uvfs_read_super
  read_super-AllFit sb given w h = mount_store-AllFit sb (parse_data given) w h

  alias_of-sent : (p : ℕ) (w : World) → (alias_of k p w).1.sent ≡ w.sent
  unfolding alias_of
  alias_of-sent p w = ground arith

  parent_of-sent : (r : ℕ × Option (Fhandle × Attr)) (w : World) → (parent_of k r w).1.sent ≡ w.sent
  unfolding parent_of entry_or_eacces
  parent_of-sent (err, none) w = refl
  parent_of-sent (err, some (fh, attr)) w = grind (arith, (iget-sent k), alias_of-sent)

  pub get_parent-AllFit :
      (child : ℕ) (w : World) → AllFit w.sent → AllFit (uvfs_get_parent k child w).1.sent
  unfolding uvfs_get_parent
  get_parent-AllFit child w h = grind (arith, (lookup_by_name-AllFit k), parent_of-sent)

  find_inode-AllFit : (fh : Fhandle) (w : World) → AllFit w.sent → AllFit (find_inode k fh w).1.sent
  unfolding find_inode ask_server new_transaction make_request free
  find_inode-AllFit fh w h = grind (arith, (iget-sent k))

  entry_or_error-sent : (r : ℕ × Option ℕ) (w : World) → (entry_or_error k r w).1.sent ≡ w.sent
  unfolding entry_or_error
  entry_or_error-sent (err, none) w = refl
  entry_or_error-sent (err, some p) w = alias_of-sent p w

  get_or_null-AllFit :
      (fh : Option Fhandle) (w : World) → AllFit w.sent → AllFit (get_or_null k fh w).1.sent
  unfolding get_or_null uvfs_get_dentry
  get_or_null-AllFit none w h = h
  get_or_null-AllFit (some fh) w h = grind (arith, find_inode-AllFit, entry_or_error-sent)

  pub dentry_of_fh-AllFit :
      (raw : List ℕ) (fh_len fh_type : ℕ) (w : World)
      → AllFit w.sent
      → AllFit (dentry_of_fh k raw fh_len fh_type w).1.sent
  unfolding dentry_of_fh
  dentry_of_fh-AllFit raw fh_len fh_type w h =
      get_or_null-AllFit (uvfs_fh_to_dentry raw fh_len fh_type) w h

  pub parent_of_fh-AllFit :
      (raw : List ℕ) (fh_len fh_type : ℕ) (w : World)
      → AllFit w.sent
      → AllFit (parent_of_fh k raw fh_len fh_type w).1.sent
  unfolding parent_of_fh
  parent_of_fh-AllFit raw fh_len fh_type w h =
      get_or_null-AllFit (uvfs_fh_to_parent raw fh_len fh_type) w h

  round-AllFit :
      (filldir : Filldir) (p pos : ℕ) (out : List Dirent) (w : World)
      → AllFit w.sent
      → AllFit (round k filldir p pos out w).1.sent
  unfolding round read_entries ask_entries new_transaction make_request free
  round-AllFit filldir p pos out w h = ground arith

  pub readdir-AllFit :
      (filldir : Filldir) (p fuel pos : ℕ) (out : List Dirent) (w : World)
      → AllFit w.sent
      → AllFit (uvfs_readdir k filldir p fuel pos out w).1.sent
  unfolding uvfs_readdir
  readdir-AllFit filldir p zero pos out w h = h
  readdir-AllFit filldir p (suc fuel) pos out w h =
      grind (arith, round-AllFit filldir p pos out w, readdir-AllFit filldir p fuel)
