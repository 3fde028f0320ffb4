-- ===== src/Kernel/SignalNumber.antt =====
-- The signals that the program names, with their numbers on Linux.
use hail2_repos.Prelude.{ℤ, pos}

abbrev pub sigint : ℤ
sigint = pos 2

abbrev pub sigkill : ℤ
sigkill = pos 9

abbrev pub sigusr1 : ℤ
sigusr1 = pos 10

abbrev pub sigterm : ℤ
sigterm = pos 15

abbrev pub sigchld : ℤ
sigchld = pos 17
