-- ===== src/Dir/Remove.antt =====
-- dir.c: uvfs_unlink, uvfs_rmdir and uvfs_rename. Inodes are given by their addresses, so that two of
-- them may be one.
use uvfs.Base.{
  ℕ, ◌+◌, ◌-◌, ◌%◌, ◌||◌, List, Option, none, some, ◌==◌, ltb, if◌then◌else◌, length, word,
}
use uvfs.Base.Errno.{enomem, enametoolong, enotempty, eremote}
use uvfs.Protocol.{
  Fhandle, Attr, Request, CreateReq, SymlinkReq, MkdirReq, NameReq, RenameReq, Reply,
}
use uvfs.Protocol
use uvfs.Protocol.Limits.{max_namelen}
use uvfs.Vfs.{
  Inode, Kernel, Op, ◌>>=◌, ◌>>◌, return, when, with_transaction, get_inode, modify_inode,
  make_request, free,
}
use uvfs.Vfs.Mode.{s_isdir}

-- `i_nlink -= n` and `i_nlink++` on an unsigned int.
abbrev pub drop_links : ℕ → Inode → Inode
drop_links n inode = record inode { i_nlink = (inode.i_nlink + word - n) % word }

abbrev pub add_link : Inode → Inode
add_link inode = record inode { i_nlink = (inode.i_nlink + 1) % word }

module _ (k : Kernel) where
  -- The fields of the requests of unlink and rmdir.
  abbrev name_request : ℕ → ℕ → Fhandle → List ℕ → NameReq
  name_request type serial fh name = record {
    type = type;
    serial = serial;
    size = Protocol.Layout.lookup_name + length name;
    uid = k.current_fsuid;
    gid = k.current_fsgid;
    fh = fh;
    namelen = length name;
    name = name;
  }

  unlink_with : ℕ → List ℕ → ℕ → ℕ → Op ℕ
  unlink_with d name p serial = do
    dir ← get_inode d
    reply ← make_request k (Request.unlink (name_request Protocol.Code.unlink serial dir.fh name))
    when (reply.error == 0) (modify_inode p (drop_links 1))
    free
    return reply.error

  unfoldable pub uvfs_unlink : ℕ → List ℕ → ℕ → Op ℕ
  unfolding unlink_with
  uvfs_unlink d name p =
      if ltb max_namelen (length name)
      then return enametoolong
      else (with_transaction k enomem (λ serial. unlink_with d name p serial))

  rmdir_with : ℕ → List ℕ → ℕ → ℕ → Op ℕ
  rmdir_with d name p serial = do
    dir ← get_inode d
    reply ← make_request k (Request.rmdir (name_request Protocol.Code.rmdir serial dir.fh name))
    when (reply.error == 0) ((do modify_inode p (drop_links 2); modify_inode d (drop_links 1)))
    free
    return (if reply.error == eremote then enotempty else reply.error)

  unfoldable pub uvfs_rmdir : ℕ → List ℕ → ℕ → Op ℕ
  unfolding rmdir_with
  uvfs_rmdir d name p =
      if ltb max_namelen (length name)
      then return enametoolong
      else (with_transaction k enomem (λ serial. rmdir_with d name p serial))

  -- The inode that the destination's entry had, if any, loses its links.
  unfoldable pub replace_target : ℕ → Option ℕ → Op (Unit {0})
  replace_target dstdir none = return tt
  replace_target dstdir (some d) = do
    dnode ← get_inode d
    if s_isdir dnode.i_mode
        then (do modify_inode d (drop_links 2); modify_inode dstdir (drop_links 1))
        else modify_inode d (drop_links 1)

  -- A directory that is moved leaves one parent for another.
  unfoldable pub reparent : ℕ → ℕ → ℕ → Op (Unit {0})
  reparent srcdir src dstdir = do
    inode ← get_inode src
    when (s_isdir inode.i_mode)
        (do modify_inode dstdir add_link; modify_inode srcdir (drop_links 1))

  unfoldable pub move_links : ℕ → ℕ → ℕ → Option ℕ → Op (Unit {0})
  move_links srcdir src dstdir dst = do replace_target dstdir dst; reparent srcdir src dstdir

  rename_with : ℕ → List ℕ → ℕ → ℕ → List ℕ → Option ℕ → ℕ → Op ℕ
  unfolding move_links
  rename_with srcdir srcname src dstdir dstname dst serial = do
    old ← get_inode srcdir
    new ← get_inode dstdir
    reply ← make_request k (
        Request.rename (record {
          type = Protocol.Code.rename;
          serial = serial;
          size = Protocol.Layout.rename;
          uid = k.current_fsuid;
          gid = k.current_fsgid;
          fh_old = old.fh;
          old_name = srcname;
          old_namelen = length srcname;
          fh_new = new.fh;
          new_name = dstname;
          new_namelen = length dstname;
        }))
    when (reply.error == 0) (move_links srcdir src dstdir dst)
    free
    return reply.error

  unfoldable pub uvfs_rename : ℕ → List ℕ → ℕ → ℕ → List ℕ → Option ℕ → Op ℕ
  unfolding rename_with
  uvfs_rename srcdir srcname src dstdir dstname dst =
      if ltb max_namelen (length srcname) || ltb max_namelen (length dstname)
      then return enametoolong
      else (with_transaction k enomem
          (λ serial. rename_with srcdir srcname src dstdir dstname dst serial))
