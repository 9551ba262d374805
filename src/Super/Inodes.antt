-- ===== src/Super/Inodes.antt =====
-- super.c: the inodes of the file system and their attributes.
use uvfs.Base.{ℕ, ◌%◌, ◌^◌, Bool, true, ◌&&◌, ◌||◌, not, Option, none, some, ◌==◌, if◌then◌else◌}
use uvfs.Base.Errno.{enomem}
use uvfs.Protocol.{Fhandle, Timespec, Attr, Request, GetattrReq, Reply}
use uvfs.Protocol
use uvfs.Vfs.{
  Inode, Operations, file_operations, dir_operations, symlink_operations, special_operations,
  Kernel, Op, ◌>>=◌, ◌>>◌, return, when, with_transaction, get_inode, modify_inode, call,
  make_request, free, found, new, missing, unlock_new_inode, invalidate_inode_pages,
}
use uvfs.Vfs.Mode.{s_isreg, s_isdir, s_islnk}

-- The test that iget5_locked and ilookup5 are given.
unfoldable pub uvfs_compare_inode : Inode → Fhandle → Bool
uvfs_compare_inode inode other =
    inode.fh.na_aruid == other.na_aruid
    && (inode.fh.fs_sfuid == other.fs_sfuid && inode.fh.fs_sbxid == other.fs_sbxid)

unfoldable pub uvfs_init_inode : Fhandle → Inode → Inode
uvfs_init_inode fh inode = record inode { fh = fh }

-- The attributes that both uvfs_iget and uvfs_refresh_inode copy. `umode_t` has 16 bits. The block
-- size is copied only by kernels before 2.6.18.
abbrev pub copy_attributes : ℕ → Attr → Inode → Inode
copy_attributes uid a inode = record inode {
  i_mode = a.i_mode % 2 ^ 16;
  i_nlink = a.i_nlink;
  i_uid = a.i_uid;
  i_gid = a.i_gid;
  i_size = a.i_size;
  i_atime = a.i_atime;
  i_mtime = a.i_mtime;
  i_ctime = a.i_ctime;
  i_blocks = a.i_blocks;
  i_rdev = a.devno;
  attr_uid = uid;
}

-- The operation tables by file type; a regular file's also include its address space's.
unfoldable pub operations_of : ℕ → Operations
operations_of mode =
    if s_isreg mode
    then file_operations
    else if s_isdir mode
    then dir_operations
    else if s_islnk mode
    then symlink_operations
    else special_operations

unfoldable pub fill_new_inode : ℕ → Fhandle → Attr → Inode → Inode
unfolding operations_of
fill_new_inode uid fh a inode =
    let filled = copy_attributes uid a inode in
    record filled { i_ino = fh.fs_sfuid; no_times = true; i_op = operations_of filled.i_mode }

-- The cached pages of a file go when its size or its modification time has changed.
unfoldable pub is_changed : Inode → Attr → Bool
is_changed inode a =
    not (inode.i_size == a.i_size)
    || (not (inode.i_mtime.tv_sec == a.i_mtime.tv_sec)
        || not (inode.i_mtime.tv_nsec == a.i_mtime.tv_nsec))

module _ (k : Kernel) where
  unfoldable pub uvfs_refresh_inode : ℕ → Attr → Op (Unit {0})
  unfolding is_changed
  uvfs_refresh_inode p a = do
    inode ← get_inode p
    when (is_changed inode a) (call (invalidate_inode_pages p))
    modify_inode p (copy_attributes k.current_fsuid a)

  unfoldable pub uvfs_iget : Fhandle → Attr → Op (Option ℕ)
  unfolding uvfs_compare_inode uvfs_init_inode uvfs_refresh_inode fill_new_inode
  uvfs_iget fh a w = elim (k.iget5_locked w fh.fs_sfuid (λ inode. uvfs_compare_inode inode fh)) [
    | missing ↦ (none, w)
    | new p ↦
        (do
          modify_inode p (uvfs_init_inode fh)
          modify_inode p (fill_new_inode k.current_fsuid fh a)
          call (unlock_new_inode p)
          return (some p))
          w
    | found p ↦ (do uvfs_refresh_inode p a; return (some p)) w
  ]

  -- The request of uvfs_revalidate_inode, uvfs_get_dentry and uvfs_permission.
  abbrev pub getattr_request : ℕ → Fhandle → Request
  getattr_request serial fh = Request.getattr (record {
    type = Protocol.Code.getattr;
    serial = serial;
    size = Protocol.Layout.getattr;
    uid = k.current_fsuid;
    gid = k.current_fsgid;
    fh = fh;
  })

  unfoldable pub revalidate_with : ℕ → ℕ → Op ℕ
  revalidate_with p serial = do
    inode ← get_inode p
    reply ← make_request k (getattr_request serial inode.fh)
    when (reply.error == 0) (uvfs_refresh_inode p reply.getattr_a)
    free
    return reply.error

  -- 0, or the error.
  unfoldable pub uvfs_revalidate_inode : ℕ → Op ℕ
  uvfs_revalidate_inode p = with_transaction k enomem (λ serial. revalidate_with p serial)
