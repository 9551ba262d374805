-- ===== src/Protocol/Limits.antt =====
-- protocol.h: the limits of names, paths and pages.
use uvfs.Base.{ℕ}

-- UVFS_MAX_NAMELEN, UVFS_MAX_PATHLEN, UVFS_BUFFSIZE and PAGE_CACHE_SIZE.
abbrev pub max_namelen : ℕ
max_namelen = 256

abbrev pub max_pathlen : ℕ
max_pathlen = 1024

abbrev pub page_size : ℕ
page_size = 4096

abbrev pub buffsize : ℕ
buffsize = 2048

-- sizeof(uvfs_dirent_s)
abbrev pub dirent_size : ℕ
dirent_size = 12
