-- ===== src/Image.antt =====
-- The static variables of one running program: those of log.c and the calls it made (`out`), of
-- [ENG]/mode.c, [ENG]/load.c and [ENG]/signal.c. Each program starts with fresh ones.
use hail2_repos.Prelude.{ℕ, Bool, false, [], ℤ, pos, minus_one, Text}
use hail2_repos.Kernel.{Out, M}

-- mode.c: `current_mode`, `md2_pid`, `md2_shutdown_requested`
pub record Controller : Type 0 where
  pub current_mode : ℤ
  pub md2_pid : ℤ
  pub md2_shutdown_requested : Bool

-- load.c: `struct hsv_entry`
pub record HsvEntry : Type 0 where
  pub pid : ℤ
  pub service : Text

-- load.c: the array `hsv_table`, as a function of the index, and `hsv_count`
pub record HsvTable : Type 0 where
  pub slot : ℕ → HsvEntry
  pub hsv_count : ℕ

-- signal.c: the flags that the handler sets
pub record Pending : Type 0 where
  pub sigchld_pending : Bool
  pub sigterm_pending : Bool
  pub sigint_pending : Bool

pub record Image (W : Type 0) : Type 0 where
  pub out : Out W
  pub mode : Controller
  pub load : HsvTable
  pub pending : Pending

-- the static initialisers
abbrev pub fresh : {W : Type 0} → W → Image W
fresh w = record {
  out = record { world = w; log_file = false; lines = []; trace = []; console = [] };
  mode = record { current_mode = minus_one; md2_pid = minus_one; md2_shutdown_requested = false };
  load = record { slot = λ _. record { pid = pos 0; service = [] }; hsv_count = 0 };
  pending = record { sigchld_pending = false; sigterm_pending = false; sigint_pending = false };
}

module _ {W A : Type 0} where
  -- code of log.c or process.c called by code with variables of its own
  abbrev pub lift : M (Out W) A → M (Image W) A
  lift m s = let (a, o) = m s.out in (a, record s { out = o })
