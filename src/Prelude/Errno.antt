-- ===== src/Prelude/Errno.antt =====
-- The error numbers that the crates declare (crates/mm, crates/proc and crates/vfs).
use Prim.Native.Nat.{ℕ}

abbrev pub enoent : ℕ
enoent = 2

abbrev pub esrch : ℕ
esrch = 3

abbrev pub enoexec : ℕ
enoexec = 8

abbrev pub ebadf : ℕ
ebadf = 9

abbrev pub echild : ℕ
echild = 10

abbrev pub eagain : ℕ
eagain = 11

abbrev pub enomem : ℕ
enomem = 12

abbrev pub efault : ℕ
efault = 14

abbrev pub einval : ℕ
einval = 22

abbrev pub eexist : ℕ
eexist = 17

abbrev pub enotdir : ℕ
enotdir = 20

abbrev pub eisdir : ℕ
eisdir = 21

abbrev pub enospc : ℕ
enospc = 28

abbrev pub erofs : ℕ
erofs = 30

abbrev pub epipe : ℕ
epipe = 32

abbrev pub enotempty : ℕ
enotempty = 39

abbrev pub eloop : ℕ
eloop = 40

abbrev pub enotsock : ℕ
enotsock = 88

abbrev pub eopnotsupp : ℕ
eopnotsupp = 95

abbrev pub eaddrinuse : ℕ
eaddrinuse = 98

abbrev pub eaddrnotavail : ℕ
eaddrnotavail = 99
