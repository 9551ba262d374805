-- ===== src/Super/Entries.antt =====
-- super.c: uvfs_get_parent and uvfs_get_dentry, which give the server of NFS an entry for a handle.
pub mod Aliases
use uvfs.Base.{ℕ, Bool, true, false, List, [], ◌∷◌, Option, none, some, ◌==◌, if◌then◌else◌}
use uvfs.Base.Errno.{enomem, eacces, ecomm, estale}
use uvfs.Protocol.{Fhandle, Attr, Reply}
use uvfs.Vfs.{
  Inode, Kernel, Op, ◌>>=◌, ◌>>◌, return, with_transaction, call, new_transaction, make_request,
  free, EntryPointer, null, err_ptr, entry, set_dentry_operations,
}
use uvfs.Super.Inodes.{uvfs_compare_inode, uvfs_iget, getattr_request}
use uvfs.Super.Handles.{uvfs_fh_to_dentry, uvfs_fh_to_parent}
use uvfs.Dir.Lookup.{uvfs_lookup_by_name}

abbrev pub dotdot : List ℕ
dotdot = 46 ∷ 46 ∷ []

module _ (k : Kernel) where
  -- The entry of an inode, from `d_obtain_alias` on, which returns an entry or an error, never NULL.
  unfoldable pub alias_of : ℕ → Op EntryPointer
  alias_of p w = elim (k.d_obtain_alias w p) [
    | entry d ↦ (entry d, (call (set_dentry_operations d) w).1)
    | err_ptr e ↦ (err_ptr e, w)
    | null ↦ (null, w)
  ]

  -- What follows uvfs_iget: -EACCES for no inode.
  unfoldable pub entry_or_eacces : Option ℕ → Op EntryPointer
  unfolding alias_of
  entry_or_eacces none = return (err_ptr eacces)
  entry_or_eacces (some p) = alias_of p

  -- What follows the lookup of "..": where it returns 0 it has stored a handle and attributes.
  unfoldable pub parent_of : ℕ × Option (Fhandle × Attr) → Op EntryPointer
  parent_of (err, none) = return (err_ptr err)
  parent_of (err, some (fh, attr)) =
      if err == 0
      then (do inode ← uvfs_iget k fh attr; entry_or_eacces inode)
      else return (err_ptr err)

  unfoldable pub uvfs_get_parent : ℕ → Op EntryPointer
  uvfs_get_parent child = do result ← uvfs_lookup_by_name k child dotdot; parent_of result

  -- The inode that the server knows the handle by, or the error.
  unfoldable pub ask_server : Fhandle → ℕ → Op (ℕ × Option ℕ)
  ask_server fh serial = do
    reply ← make_request k (getattr_request k serial fh)
    if reply.error == 0
        then (do inode ← uvfs_iget k fh reply.getattr_a; free; return (eacces, inode))
        else (do free; return (if reply.error == ecomm then estale else reply.error, none))

  unfoldable pub find_inode : Fhandle → Op (ℕ × Option ℕ)
  find_inode fh w = elim (k.ilookup5 w fh.fs_sfuid (λ inode. uvfs_compare_inode inode fh)) [
    | some p ↦ ((0, some p), w)
    | none ↦ with_transaction k (enomem, none) (λ serial. ask_server fh serial) w
  ]

  unfoldable pub entry_or_error : ℕ × Option ℕ → Op EntryPointer
  entry_or_error (err, none) = return (err_ptr err)
  entry_or_error (err, some p) = alias_of p

  unfoldable pub uvfs_get_dentry : Fhandle → Op EntryPointer
  uvfs_get_dentry fh = do result ← find_inode fh; entry_or_error result

  -- `return uvfs_get_dentry(...)` of uvfs_fh_to_dentry and uvfs_fh_to_parent.
  unfoldable pub get_or_null : Option Fhandle → Op EntryPointer
  get_or_null none = return null
  get_or_null (some fh) = uvfs_get_dentry fh

  unfoldable pub dentry_of_fh : List ℕ → ℕ → ℕ → Op EntryPointer
  dentry_of_fh raw fh_len fh_type = get_or_null (uvfs_fh_to_dentry raw fh_len fh_type)

  unfoldable pub parent_of_fh : List ℕ → ℕ → ℕ → Op EntryPointer
  parent_of_fh raw fh_len fh_type = get_or_null (uvfs_fh_to_parent raw fh_len fh_type)
