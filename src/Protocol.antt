-- ===== src/Protocol.antt =====
-- protocol.h: the messages between the file system and the server. A number is the bit pattern of its
-- C type; a character array is the bytes that are written into it.
pub mod Limits
pub mod Code
pub mod Layout
pub mod Wire
pub mod Offsets
use uvfs.Base.{ℕ, List}

-- `uvfs_fhandle_s`, with the fields of its parts `no_narid` and `no_fspid`.
pub record Fhandle : Type 0 where
  pub no_mntid : ℕ
  pub no_flags : ℕ
  pub na_ipaddr : ℕ
  pub na_aruid : ℕ
  pub no_sbxid : ℕ
  pub fs_sbxid : ℕ
  pub fs_sfuid : ℕ
  pub no_blank2 : ℕ

pub record Timespec : Type 0 where
  pub tv_sec : ℕ
  pub tv_nsec : ℕ

pub record Attr : Type 0 where
  pub i_mode : ℕ
  pub i_nlink : ℕ
  pub i_uid : ℕ
  pub i_gid : ℕ
  pub i_size : ℕ
  pub i_atime : Timespec
  pub i_mtime : Timespec
  pub i_ctime : Timespec
  pub i_blksize : ℕ
  pub i_blocks : ℕ
  pub devno : ℕ

pub record FileWriteReq : Type 0 where
  pub type : ℕ
  pub serial : ℕ
  pub size : ℕ
  pub uid : ℕ
  pub gid : ℕ
  pub fh : Fhandle
  pub count : ℕ
  pub offset : ℕ
  pub buff : List ℕ

pub record FileReadReq : Type 0 where
  pub type : ℕ
  pub serial : ℕ
  pub size : ℕ
  pub uid : ℕ
  pub gid : ℕ
  pub fh : Fhandle
  pub count : ℕ
  pub offset : ℕ

pub record CreateReq : Type 0 where
  pub type : ℕ
  pub serial : ℕ
  pub size : ℕ
  pub uid : ℕ
  pub gid : ℕ
  pub fh : Fhandle
  pub mode : ℕ
  pub namelen : ℕ
  pub name : List ℕ

-- The requests of lookup, unlink and rmdir, which have the same fields.
pub record NameReq : Type 0 where
  pub type : ℕ
  pub serial : ℕ
  pub size : ℕ
  pub uid : ℕ
  pub gid : ℕ
  pub fh : Fhandle
  pub namelen : ℕ
  pub name : List ℕ

pub record SymlinkReq : Type 0 where
  pub type : ℕ
  pub serial : ℕ
  pub size : ℕ
  pub uid : ℕ
  pub gid : ℕ
  pub fh : Fhandle
  pub name : List ℕ
  pub namelen : ℕ
  pub sympath : List ℕ
  pub symlen : ℕ

pub record MkdirReq : Type 0 where
  pub type : ℕ
  pub serial : ℕ
  pub size : ℕ
  pub uid : ℕ
  pub gid : ℕ
  pub mode : ℕ
  pub fh : Fhandle
  pub namelen : ℕ
  pub name : List ℕ

pub record RenameReq : Type 0 where
  pub type : ℕ
  pub serial : ℕ
  pub size : ℕ
  pub uid : ℕ
  pub gid : ℕ
  pub fh_old : Fhandle
  pub old_name : List ℕ
  pub old_namelen : ℕ
  pub fh_new : Fhandle
  pub new_name : List ℕ
  pub new_namelen : ℕ

-- The requests of getattr and readlink, which have the same fields.
pub record GetattrReq : Type 0 where
  pub type : ℕ
  pub serial : ℕ
  pub size : ℕ
  pub uid : ℕ
  pub gid : ℕ
  pub fh : Fhandle

pub record ReaddirReq : Type 0 where
  pub type : ℕ
  pub serial : ℕ
  pub size : ℕ
  pub uid : ℕ
  pub gid : ℕ
  pub fh : Fhandle
  pub entry_no : ℕ

pub record SetattrReq : Type 0 where
  pub type : ℕ
  pub serial : ℕ
  pub size : ℕ
  pub uid : ℕ
  pub gid : ℕ
  pub fh : Fhandle
  pub ia_valid : ℕ
  pub ia_uid : ℕ
  pub ia_gid : ℕ
  pub ia_size : ℕ
  pub ia_atime : Timespec
  pub ia_mtime : Timespec
  pub ia_ctime : Timespec
  pub ia_mode : ℕ

pub record StatfsReq : Type 0 where
  pub type : ℕ
  pub serial : ℕ
  pub size : ℕ
  pub fh : Fhandle

pub record ReadSuperReq : Type 0 where
  pub type : ℕ
  pub serial : ℕ
  pub size : ℕ
  pub uid : ℕ
  pub gid : ℕ
  pub arglength : ℕ
  pub buff : List ℕ

-- `uvfs_request_u`, by the member that was filled.
pub data Request : Type 0 where
  file_write : FileWriteReq → Request
  file_read : FileReadReq → Request
  create : CreateReq → Request
  lookup : NameReq → Request
  unlink : NameReq → Request
  symlink : SymlinkReq → Request
  mkdir : MkdirReq → Request
  rmdir : NameReq → Request
  rename : RenameReq → Request
  getattr : GetattrReq → Request
  readlink : GetattrReq → Request
  readdir : ReaddirReq → Request
  setattr : SetattrReq → Request
  statfs : StatfsReq → Request
  read_super : ReadSuperReq → Request

-- The members of `uvfs_statfs_rep_s` behind its error.
pub record StatfsRep : Type 0 where
  pub f_type : ℕ
  pub f_bsize : ℕ
  pub f_blocks : ℕ
  pub f_bfree : ℕ
  pub f_bavail : ℕ
  pub f_files : ℕ
  pub f_ffree : ℕ
  pub f_namelen : ℕ

-- The members of `uvfs_read_super_rep_s` behind its error.
pub record SuperRep : Type 0 where
  pub s_blocksize : ℕ
  pub s_blocksize_bits : ℕ
  pub s_magic : ℕ
  pub fh : Fhandle
  pub a : Attr

-- What the members of `uvfs_reply_u` hold, each by its own structure. In the source they overlap: the
-- replies that the union can hold are some of the values of this record.
pub record Reply : Type 0 where
  pub error : ℕ  -- at the same place in every reply
  pub fh : Fhandle  -- of create, lookup, symlink and mkdir
  pub a : Attr  -- of create, lookup, symlink and mkdir
  pub getattr_a : Attr
  pub bytes_read : ℕ
  pub read_buff : List ℕ
  pub readlink_len : ℕ
  pub readlink_buff : List ℕ
  pub readdir_count : ℕ
  pub readdir_data : List ℕ
  pub statfs : StatfsRep
  pub read_super : SuperRep
