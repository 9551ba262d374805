-- ===== src/Dir/Lookup.antt =====
-- dir.c: uvfs_lookup_by_name, uvfs_lookup and uvfs_dentry_revalidate.
use uvfs.Base.{
  ℕ, ◌+◌, Bool, false, ◌&&◌, List, Option, none, some, ◌==◌, ltb, if◌then◌else◌, length,
  is_negative,
}
use uvfs.Base.Errno.{enomem, enametoolong, erestartsys}
use uvfs.Protocol.{
  Fhandle, Attr, Request, CreateReq, SymlinkReq, MkdirReq, NameReq, RenameReq, Reply,
}
use uvfs.Protocol
use uvfs.Protocol.Limits.{max_namelen}
use uvfs.Vfs.{
  Kernel, Op, ◌>>=◌, ◌>>◌, return, when, with_transaction, get_inode, call, make_request, free,
  d_drop, splice_alias, set_entry_operations, shrink_dcache_parent, EntryPointer,
}
use uvfs.Vfs.Mode.{s_isdir}
use uvfs.Super.Inodes.{uvfs_iget, uvfs_compare_inode}

module _ (k : Kernel) where
  lookup_by_name_with : ℕ → List ℕ → ℕ → Op (ℕ × Option (Fhandle × Attr))
  lookup_by_name_with p name serial = do
    dir ← get_inode p
    reply ← make_request k (
        Request.lookup (record {
          type = Protocol.Code.lookup;
          serial = serial;
          size = Protocol.Layout.lookup_name + length name;
          uid = k.current_fsuid;
          gid = k.current_fsgid;
          fh = dir.fh;
          namelen = length name;
          name = name;
        }))
    free
    return (reply.error, some (reply.fh, reply.a))

  -- The error, or 0, and what was stored through `fh` and `attr`, if anything was.
  unfoldable pub uvfs_lookup_by_name : ℕ → List ℕ → Op (ℕ × Option (Fhandle × Attr))
  unfolding lookup_by_name_with
  uvfs_lookup_by_name p name =
      if ltb max_namelen (length name)
      then return (enametoolong, none)
      else (with_transaction k (enomem, none) (λ serial. lookup_by_name_with p name serial))

  -- The end of uvfs_lookup: what `retval` held before is overwritten.
  abbrev splice : Option ℕ → List ℕ → Op EntryPointer
  splice inode name w = (k.d_splice_alias w inode name, (call (splice_alias inode name) w).1)

  -- The inode of a successful lookup; where nothing was stored the error is negative.
  unfoldable pub lookup_inode : ℕ × Option (Fhandle × Attr) → Op (Option ℕ)
  lookup_inode (err, none) = return none
  lookup_inode (err, some (fh, attr)) = if is_negative err then return none else uvfs_iget k fh attr

  unfoldable pub uvfs_lookup : ℕ → List ℕ → Op EntryPointer
  uvfs_lookup p name = do
    result ← uvfs_lookup_by_name p name
    inode ← lookup_inode result
    call (set_entry_operations name)
    splice inode name

  -- `out_bad` of uvfs_dentry_revalidate: 1 if the entry is kept after all.
  unfoldable pub invalidate : List ℕ → Bool → Op ℕ
  invalidate name is_dir w =
      if is_dir && k.have_submounts w name
      then (1, w)
      else (do when (is_dir) (call (shrink_dcache_parent name)); call (d_drop name); return 0) w

  -- With the inode of the parent, and the entry's own if it has one.
  unfoldable pub revalidate_entry : ℕ → List ℕ → ℕ → ℕ × Option (Fhandle × Attr) → Op ℕ
  unfolding invalidate
  revalidate_entry parent name p (err, stored) = do
    inode ← get_inode p
    if err == 0
        then elim stored [
          | none ↦ invalidate name (s_isdir inode.i_mode)
          | some (fh, attr) ↦
              if uvfs_compare_inode inode fh
              then return 1
              else invalidate name (s_isdir inode.i_mode)
        ]
        else if err == erestartsys
        then return 1
        else invalidate name (s_isdir inode.i_mode)

  unfoldable pub uvfs_dentry_revalidate : ℕ → List ℕ → Option ℕ → Op ℕ
  unfolding revalidate_entry
  uvfs_dentry_revalidate parent name none = invalidate name false
  uvfs_dentry_revalidate parent name (some p) = do
    result ← uvfs_lookup_by_name parent name
    revalidate_entry parent name p result
