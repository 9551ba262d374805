-- ===== src/Protocol/Code.antt =====
-- protocol.h: the request codes, UVFS_WRITE to UVFS_READLINK.
use uvfs.Base.{ℕ}

abbrev pub write : ℕ
write = 1

abbrev pub read : ℕ
read = 2

abbrev pub create : ℕ
create = 3

abbrev pub lookup : ℕ
lookup = 4

abbrev pub unlink : ℕ
unlink = 5

abbrev pub symlink : ℕ
symlink = 6

abbrev pub mkdir : ℕ
mkdir = 7

abbrev pub rmdir : ℕ
rmdir = 8

abbrev pub rename : ℕ
rename = 9

abbrev pub getattr : ℕ
getattr = 12

abbrev pub readlink : ℕ
readlink = 15

abbrev pub readdir : ℕ
readdir = 10

abbrev pub setattr : ℕ
setattr = 11

abbrev pub statfs : ℕ
statfs = 13

abbrev pub read_super : ℕ
read_super = 14
