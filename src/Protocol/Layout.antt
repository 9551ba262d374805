-- ===== src/Protocol/Layout.antt =====
-- protocol.h: offsets and sizes of the structures, whose members are all of 4 bytes or characters: 12 bytes of
-- header, 8 of uid and gid, 32 of a file handle.
use uvfs.Base.{ℕ, ◌+◌}
use uvfs.Protocol.Limits.{max_namelen, max_pathlen, page_size}

-- offsetof(uvfs_file_write_req_s, buff)
abbrev pub file_write_buff : ℕ
file_write_buff = 12 + 8 + 32 + 8

abbrev pub file_read : ℕ
file_read = 12 + 8 + 32 + 8

-- offsetof(uvfs_create_req_s, name)
abbrev pub create_name : ℕ
create_name = 12 + 8 + 32 + 4 + 4

-- offsetof(uvfs_lookup_req_s, name), and so for unlink and rmdir
abbrev pub lookup_name : ℕ
lookup_name = 12 + 8 + 32 + 4

abbrev pub symlink : ℕ
symlink = 12 + 8 + 32 + max_namelen + 4 + max_pathlen + 4

-- offsetof(uvfs_mkdir_req_s, name)
abbrev pub mkdir_name : ℕ
mkdir_name = 12 + 8 + 4 + 32 + 4

abbrev pub rename : ℕ
rename = 12 + 8 + 32 + max_namelen + 4 + 32 + max_namelen + 4

abbrev pub getattr : ℕ
getattr = 12 + 8 + 32

abbrev pub readdir : ℕ
readdir = 12 + 8 + 32 + 4

abbrev pub setattr : ℕ
setattr = 12 + 8 + 32 + 16 + 24 + 4

abbrev pub statfs : ℕ
statfs = 12 + 32

-- offsetof(uvfs_read_super_req_s, buff)
abbrev pub read_super_buff : ℕ
read_super_buff = 12 + 8 + 4

-- sizeof(uvfs_request_u): a write of one page is the longest request.
abbrev pub request : ℕ
request = file_write_buff + page_size
