-- ===== src/File/Calls.antt =====
-- file.c: uvfs_file_read, uvfs_file_write, uvfs_file_mmap, uvfs_getattr and uvfs_setattr.
use uvfs.Base.{ℕ, ◌-◌, ◌*◌, ◌/◌, ◌%◌, ◌==◌, if◌then◌else◌, is_negative, word, widen}
use uvfs.Base.Errno.{enomem, einval}
use uvfs.Protocol.{Timespec, Request, SetattrReq, Reply}
use uvfs.Protocol
use uvfs.Vfs.{
  Inode, Iattr, Kernel, Op, ◌>>=◌, ◌>>◌, return, with_transaction, get_inode, modify_inode, call,
  make_request, free, inode_setattr,
}
use uvfs.Super.Inodes.{uvfs_revalidate_inode}

-- `ia_valid & ~(ATTR_ATIME|ATTR_MTIME|ATTR_CTIME)`: the bits 4 to 6 go.
abbrev pub without_times : ℕ → ℕ
without_times valid = valid - valid / 16 % 8 * 16

abbrev pub truncated : Timespec → Timespec
truncated t = record { tv_sec = t.tv_sec % word; tv_nsec = t.tv_nsec % word }

module _ (k : Kernel) where
  -- Each of the three is given what the kernel has for a file: do_sync_read, do_sync_write and
  -- generic_file_mmap. An error is widened to the ssize_t that a read or write returns.
  unfoldable pub uvfs_file_read : Op ℕ → ℕ → Op ℕ
  uvfs_file_read do_sync_read p = do
    ret ← uvfs_revalidate_inode k p
    if ret == 0 then do_sync_read else return (widen ret)

  unfoldable pub uvfs_file_write : Op ℕ → ℕ → Op ℕ
  uvfs_file_write do_sync_write p = do
    ret ← uvfs_revalidate_inode k p
    if ret == 0 then do_sync_write else return (widen ret)

  unfoldable pub uvfs_file_mmap : Op ℕ → ℕ → Op ℕ
  uvfs_file_mmap generic_file_mmap p = do
    ret ← uvfs_revalidate_inode k p
    if ret == 0 then generic_file_mmap else return ret

  -- The error of the revalidation, and the inode from which generic_fillattr fills `stat`.
  unfoldable pub uvfs_getattr : ℕ → Op (ℕ × Inode)
  uvfs_getattr p = do error ← uvfs_revalidate_inode k p; inode ← get_inode p; return (error, inode)

  abbrev pub setattr_request : Inode → Iattr → ℕ → Request
  setattr_request inode attr serial = Request.setattr (record {
    type = Protocol.Code.setattr;
    serial = serial;
    size = Protocol.Layout.setattr;
    uid = k.current_fsuid;
    gid = k.current_fsgid;
    fh = inode.fh;
    ia_valid = attr.ia_valid;
    ia_uid = attr.ia_uid;
    ia_gid = attr.ia_gid;
    ia_size = attr.ia_size % word;
    ia_atime = truncated attr.ia_atime;
    ia_mtime = truncated attr.ia_mtime;
    ia_ctime = truncated attr.ia_ctime;
    ia_mode = attr.ia_mode;
  })

  unfoldable pub setattr_with : ℕ → Iattr → ℕ → Op (ℕ × Iattr)
  setattr_with p attr serial = do
    inode ← get_inode p
    reply ← make_request k (setattr_request inode attr serial)
    free
    return (reply.error, attr)

  -- `inode_setattr`, with its error.
  unfoldable pub set_locally : ℕ → Iattr → Op ℕ
  set_locally p attr = do
    inode ← get_inode p
    modify_inode p (λ i. (k.inode_setattr i attr).1)
    call (inode_setattr p attr)
    return ((k.inode_setattr inode attr).0)

  -- The error, or 0, and what is left of the caller's `attr`.
  unfoldable pub uvfs_setattr : ℕ → Iattr → Op (ℕ × Iattr)
  uvfs_setattr p attr = do
    inode ← get_inode p
    let allowed = k.inode_change_ok inode attr
    let untimed = record attr { ia_valid = without_times attr.ia_valid }
    if is_negative allowed then return (allowed, attr) else (do
      failed ← set_locally p untimed
      if failed == 0
          then with_transaction k (enomem, attr) (λ serial. setattr_with p attr serial)
          else return (einval, untimed))
