-- ===== src/Operations/Sample.antt =====
-- A kernel with two inodes, a directory at address 4 and a file at address 5, which it finds by its
-- handle; any other handle gets a new inode at address 6. The server answers every request alike.
use uvfs.Base.{ℕ, true, false, List, [], ◌∷◌, ◌==◌, if◌then◌else◌, ◌+◌, none, some, length}
use uvfs.Protocol.{Fhandle, Timespec, Attr, StatfsRep, Reply}
use uvfs.Vfs.{Inode, Kernel, World, found, new, null, entry, file_operations, dir_operations}
use uvfs.File.Pages.{Page, zeros}

abbrev pub handle : ℕ → Fhandle
handle n = record {
  no_mntid = 1;
  no_flags = 0;
  na_ipaddr = 0;
  na_aruid = 2;
  no_sbxid = 3;
  fs_sbxid = 3;
  fs_sfuid = n;
  no_blank2 = 0;
}

abbrev pub at : ℕ → Timespec
at s = record { tv_sec = s; tv_nsec = 0 }

abbrev pub attributes : Attr
attributes = record {
  i_mode = 33188;
  i_nlink = 1;
  i_uid = 100;
  i_gid = 100;
  i_size = 6;
  i_atime = at 10;
  i_mtime = at 20;
  i_ctime = at 30;
  i_blksize = 4096;
  i_blocks = 8;
  devno = 0;
}

abbrev pub file : Inode
file = record {
  fh = handle 50;
  attr_uid = 100;
  i_ino = 50;
  no_times = true;
  i_mode = 33188;
  i_nlink = 1;
  i_uid = 100;
  i_gid = 100;
  i_size = 5;
  i_atime = at 1;
  i_mtime = at 2;
  i_ctime = at 3;
  i_blocks = 8;
  i_rdev = 0;
  i_op = file_operations;
}

abbrev pub directory : Inode
directory = record file { fh = handle 40; i_mode = 16877; i_nlink = 3; i_op = dir_operations }

abbrev pub totals : StatfsRep
totals = record {
  f_type = 77;
  f_bsize = 4096;
  f_blocks = 1000;
  f_bfree = 10;
  f_bavail = 10;
  f_files = 100;
  f_ffree = 50;
  f_namelen = 255;
}

abbrev pub answer : ℕ → Reply
answer error = record {
  error = error;
  fh = handle 50;
  a = attributes;
  getattr_a = attributes;
  bytes_read = 3;
  read_buff = 97 ∷ 98 ∷ 99 ∷ [];
  readlink_len = 2;
  readlink_buff = 97 ∷ 98 ∷ [];
  readdir_count = 0;
  readdir_data = [];
  statfs = totals;
  read_super = record {
    s_blocksize = 4096;
    s_blocksize_bits = 12;
    s_magic = 77;
    fh = handle 50;
    a = attributes;
  };
}

-- The kernel, with a server that answers every request with the same error or success.
abbrev pub kernel : ℕ → Kernel
kernel error = record {
  current_fsuid = 100;
  current_fsgid = 100;
  kmalloc = λ w. true;
  answer = λ w r. answer error;
  meanwhile = λ w r. w.inode;
  iget5_locked = λ w hash test. if test (w.inode 5) then found 5 else new 6;
  d_splice_alias = λ w inode name. null;
  in_group_p = λ g. false;
  dac_override = false;
  dac_read_search = false;
  have_submounts = λ w name. false;
  ilookup5 = λ w hash test. if test (w.inode 5) then some 5 else none;
  d_obtain_alias = λ w p. entry (100 + p);
  d_alloc_root = λ w p. some (100 + p);
  stray_byte = λ w o. 0;
  inode_change_ok = λ inode attr. 0;
  inode_setattr = λ inode attr. (0, inode);
  vfs_readlink = λ buflen text. length text;
  vfs_follow_link = λ text. 0;
}

abbrev pub world : World
world = record {
  inode = λ p. if p == 5 then file else directory;
  serial_number = 8;
  transactions = 0;
  sent = [];
  events = [];
}

abbrev pub name : List ℕ
name = 97 ∷ []

abbrev pub page : Page
page = record { index = 0; bytes = zeros 4096; uptodate = false; error = false; locked = true }
