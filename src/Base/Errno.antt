-- ===== src/Base/Errno.antt =====
-- The error numbers of Linux (asm-generic/errno.h, linux/errno.h) that the module returns, as the
-- bit patterns of the negative `int`s.
use Prim.Native.Nat.{ℕ}
use uvfs.Base.Words.{neg32}

abbrev pub enoent : ℕ
enoent = neg32 2

abbrev pub eio : ℕ
eio = neg32 5

abbrev pub enomem : ℕ
enomem = neg32 12

abbrev pub eacces : ℕ
eacces = neg32 13

abbrev pub efault : ℕ
efault = neg32 14

abbrev pub einval : ℕ
einval = neg32 22

abbrev pub erofs : ℕ
erofs = neg32 30

abbrev pub enametoolong : ℕ
enametoolong = neg32 36

abbrev pub enotempty : ℕ
enotempty = neg32 39

abbrev pub eremote : ℕ
eremote = neg32 66

abbrev pub ecomm : ℕ
ecomm = neg32 70

abbrev pub estale : ℕ
estale = neg32 116

abbrev pub erestartsys : ℕ
erestartsys = neg32 512
