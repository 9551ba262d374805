-- ===== src/Super/Mount.antt =====
-- super.c: uvfs_statfs, uvfs_parse_options and uvfs_read_super.
use uvfs.Base.{
  ℕ, ◌+◌, ◌%◌, Bool, true, false, ◌&&◌, List, [], ◌∷◌, ◌++◌, Option, none, some, ◌==◌, leb,
  if◌then◌else◌, is_negative, length, drop, widen,
}
use uvfs.Base.Errno.{enomem, einval, enametoolong}
use uvfs.Protocol.{Fhandle, Request, StatfsReq, ReadSuperReq, StatfsRep, SuperRep, Reply}
use uvfs.Protocol
use uvfs.Protocol.Limits.{max_pathlen}
use uvfs.Vfs.{Kernel, Op, ◌>>=◌, ◌>>◌, return, with_transaction, get_inode, make_request, free}
use uvfs.Super.Inodes.{uvfs_iget}

-- The fields of the superblock that the code sets. The tables of operations are set together.
pub record Superblock : Type 0 where
  pub s_maxbytes : ℕ
  pub s_blocksize : ℕ
  pub s_blocksize_bits : ℕ
  pub s_magic : ℕ
  pub has_operations : Bool
  pub s_root : Option ℕ

-- "store="
abbrev pub store_option : List ℕ
store_option = 115 ∷ 116 ∷ 111 ∷ 114 ∷ 101 ∷ 61 ∷ []

-- `strncmp(text, prefix, strlen(prefix)) == 0`, of the bytes before the terminating zeros.
unfoldable pub starts_with : List ℕ → List ℕ → Bool
starts_with [] text = true
starts_with (b ∷ bs) [] = false
starts_with (b ∷ bs) (c ∷ cs) = b == c && starts_with bs cs

-- What `*iwstore` is set to; `none` is the result 1.
unfoldable pub uvfs_parse_options : List ℕ → Option (List ℕ)
uvfs_parse_options options =
    if starts_with store_option options then some (drop 6 options) else none

-- `data`, NULL or a string, and the parsed options.
unfoldable pub parse_data : Option (List ℕ) → Option (List ℕ)
parse_data none = none
parse_data (some options) = uvfs_parse_options options

-- The fields of struct kstatfs, which have 64 bits, as the reply's have them.
unfoldable pub fill_stat : StatfsRep → StatfsRep
fill_stat r = record {
  f_type = widen r.f_type;
  f_bsize = widen r.f_bsize;
  f_blocks = widen r.f_blocks;
  f_bfree = widen r.f_bfree;
  f_bavail = widen r.f_bavail;
  f_files = widen r.f_files;
  f_ffree = widen r.f_ffree;
  f_namelen = widen r.f_namelen;
}

module _ (k : Kernel) where
  unfoldable pub statfs_with : ℕ → ℕ → Op (ℕ × Option StatfsRep)
  unfolding fill_stat
  statfs_with p serial = do
    inode ← get_inode p
    reply ← make_request k (
        Request.statfs (record {
          type = Protocol.Code.statfs;
          serial = serial;
          size = Protocol.Layout.statfs;
          fh = inode.fh;
        }))
    free
    return (reply.error, some (fill_stat reply.statfs))

  -- The error, and what was stored through `stat`, if anything was.
  unfoldable pub uvfs_statfs : ℕ → Op (ℕ × Option StatfsRep)
  uvfs_statfs p = with_transaction k (enomem, none) (λ serial. statfs_with p serial)

  -- The superblock after a successful reply, up to the root.
  unfoldable pub fill_super : SuperRep → Superblock → Superblock
  fill_super r sb = record sb {
    s_maxbytes = 0xffffffff;
    s_blocksize = r.s_blocksize;
    s_blocksize_bits = r.s_blocksize_bits % 256;
    s_magic = r.s_magic;
    has_operations = true;
  }

  -- From uvfs_iget on. What d_alloc_root returns is not looked at.
  unfoldable pub set_root : Superblock → Option ℕ → Op (ℕ × Superblock)
  set_root sb none w = ((enomem, sb), w)
  set_root sb (some p) w = ((0, record sb { s_root = k.d_alloc_root w p }), w)

  abbrev pub super_request : List ℕ → ℕ → Request
  super_request arg serial = Request.read_super (record {
    type = Protocol.Code.read_super;
    serial = serial;
    size = Protocol.Layout.read_super_buff + (length arg + 1);
    uid = k.current_fsuid;
    gid = k.current_fsgid;
    arglength = length arg + 1;
    buff = arg ++ 0 ∷ [];
  })

  unfoldable pub read_super_with : Superblock → List ℕ → ℕ → Op (ℕ × Superblock)
  unfolding fill_super
  read_super_with sb arg serial = do
    reply ← make_request k (super_request arg serial)
    if is_negative reply.error then (do free; return (reply.error, sb)) else (do
      root ← uvfs_iget k reply.read_super.fh reply.read_super.a
      result ← set_root (fill_super reply.read_super sb) root
      free
      return result)

  -- With the string behind "store=", if there is one.
  unfoldable pub mount_store : Superblock → Option (List ℕ) → Op (ℕ × Superblock)
  mount_store sb none = return (einval, sb)
  mount_store sb (some arg) =
      if leb max_pathlen (length arg + 1)
      then return (enametoolong, sb)
      else with_transaction k (enomem, sb) (λ serial. read_super_with sb arg serial)

  -- The error, or 0, and the superblock.
  unfoldable pub uvfs_read_super : Superblock → Option (List ℕ) → Op (ℕ × Superblock)
  uvfs_read_super sb given = mount_store sb (parse_data given)
