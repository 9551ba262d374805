-- ===== src/Dir/Create.antt =====
-- dir.c: uvfs_create, uvfs_symlink and uvfs_mkdir. A directory is given by its inode's address, a new
-- entry by its name; 0 or the error is returned.
use uvfs.Base.{
  ℕ, ◌+◌, ◌/◌, ◌%◌, ◌||◌, List, none, some, ◌==◌, ltb, if◌then◌else◌, length, is_negative, word,
}
use uvfs.Base.Errno.{enomem, enametoolong}
use uvfs.Protocol.{
  Fhandle, Attr, Request, CreateReq, SymlinkReq, MkdirReq, NameReq, RenameReq, Reply,
}
use uvfs.Protocol
use uvfs.Protocol.Limits.{max_namelen, max_pathlen}
use uvfs.Vfs.{
  Inode, Kernel, Op, ◌>>=◌, ◌>>◌, return, with_transaction, get_inode, modify_inode, call,
  make_request, free, d_drop, d_instantiate,
}
use uvfs.Vfs.Mode.{s_isgid}
use uvfs.Super.Inodes.{uvfs_iget}

-- The group of a new object: the directory's, if that has the set-group-id bit.
abbrev pub new_gid : Kernel → Inode → ℕ
new_gid k dir = if s_isgid dir.i_mode then dir.i_gid else k.current_fsgid

module _ (k : Kernel) where
  -- From `reply = &trans->u.reply.create` to the end; `linked` is what mkdir does besides.
  abbrev finish_new : List ℕ → Op (Unit {0}) → Reply → Op ℕ
  finish_new name linked reply =
      if is_negative reply.error then (do call (d_drop name); free; return reply.error) else (do
        inode ← uvfs_iget k reply.fh reply.a
        elim inode [
          | none ↦ do free; return enomem
          | some p ↦ do call (d_instantiate name p); linked; free; return 0
        ])

  create_with : ℕ → List ℕ → ℕ → ℕ → Op ℕ
  create_with p name mode serial = do
    dir ← get_inode p
    reply ← make_request k (
        Request.create (record {
          type = Protocol.Code.create;
          serial = serial;
          size = Protocol.Layout.create_name + length name;
          uid = k.current_fsuid;
          gid = new_gid k dir;
          fh = dir.fh;
          mode = mode;
          namelen = length name;
          name = name;
        }))
    finish_new name (return tt) reply

  unfoldable pub uvfs_create : ℕ → List ℕ → ℕ → Op ℕ
  unfolding create_with
  uvfs_create p name mode =
      if ltb max_namelen (length name)
      then return enametoolong
      else (with_transaction k enomem (λ serial. create_with p name mode serial))

  symlink_with : ℕ → List ℕ → List ℕ → ℕ → Op ℕ
  symlink_with p name path serial = do
    dir ← get_inode p
    reply ← make_request k (
        Request.symlink (record {
          type = Protocol.Code.symlink;
          serial = serial;
          size = Protocol.Layout.symlink;
          uid = k.current_fsuid;
          gid = new_gid k dir;
          fh = dir.fh;
          name = name;
          namelen = length name;
          sympath = path;
          symlen = length path;
        }))
    finish_new name (return tt) reply

  unfoldable pub uvfs_symlink : ℕ → List ℕ → List ℕ → Op ℕ
  unfolding symlink_with
  uvfs_symlink p name path =
      if ltb max_namelen (length name) || ltb max_pathlen (length path)
      then return enametoolong
      else (with_transaction k enomem (λ serial. symlink_with p name path serial))

  -- `mode | S_IFDIR`, with S_ISGID set too in a directory that has it. A bit is set by adding it where
  -- it is not there.
  abbrev set_bit : ℕ → ℕ → ℕ
  set_bit b mode = if mode / b % 2 == 1 then mode else mode + b

  abbrev mkdir_mode : Inode → ℕ → ℕ
  mkdir_mode dir mode =
      if s_isgid dir.i_mode then set_bit 1024 (set_bit 16384 mode) else set_bit 16384 mode

  mkdir_with : ℕ → List ℕ → ℕ → ℕ → Op ℕ
  mkdir_with p name mode serial = do
    dir ← get_inode p
    reply ← make_request k (
        Request.mkdir (record {
          type = Protocol.Code.mkdir;
          serial = serial;
          size = Protocol.Layout.mkdir_name + length name;
          uid = k.current_fsuid;
          gid = new_gid k dir;
          mode = mkdir_mode dir mode;
          fh = dir.fh;
          namelen = length name;
          name = name;
        }))
    finish_new name
        (modify_inode p (λ inode. record inode { i_nlink = (inode.i_nlink + 1) % word })) reply

  unfoldable pub uvfs_mkdir : ℕ → List ℕ → ℕ → Op ℕ
  unfolding mkdir_with
  uvfs_mkdir p name mode =
      if ltb max_namelen (length name)
      then return enametoolong
      else (with_transaction k enomem (λ serial. mkdir_with p name mode serial))
