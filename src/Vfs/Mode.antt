-- ===== src/Vfs/Mode.antt =====
-- The kernel's tests of a file mode (linux/stat.h), as arithmetic on its bits.
use uvfs.Base.{ℕ, ◌/◌, ◌%◌, Bool, ◌==◌}

-- `mode & S_IFMT`, shifted down.
abbrev pub file_type : ℕ → ℕ
file_type mode = mode / 4096 % 16

abbrev pub s_isreg : ℕ → Bool
s_isreg mode = file_type mode == 8

abbrev pub s_isdir : ℕ → Bool
s_isdir mode = file_type mode == 4

abbrev pub s_islnk : ℕ → Bool
s_islnk mode = file_type mode == 10

-- `mode & S_ISGID`
abbrev pub s_isgid : ℕ → Bool
s_isgid mode = mode / 1024 % 2 == 1
