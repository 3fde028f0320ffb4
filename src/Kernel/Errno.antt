-- ===== src/Kernel/Errno.antt =====
-- The values of `errno` that the program tests, as on Linux.
use hail2_repos.Prelude.{ℕ}

abbrev pub eperm : ℕ
eperm = 1

abbrev pub enoent : ℕ
enoent = 2

abbrev pub esrch : ℕ
esrch = 3

abbrev pub eintr : ℕ
eintr = 4

abbrev pub echild : ℕ
echild = 10

abbrev pub eagain : ℕ
eagain = 11

abbrev pub eacces : ℕ
eacces = 13

abbrev pub ebusy : ℕ
ebusy = 16

abbrev pub eexist : ℕ
eexist = 17

abbrev pub enotdir : ℕ
enotdir = 20
