-- ===== src/Feed/Commands.antt =====
-- [FEED]/feed.c: the commands.
pub mod Requests
pub mod Printing
use hail2_repos.Prelude.{
  ℕ, Bool, true, false, ◌||◌, Option, none, some, List, [], ◌∷◌, ◌++◌, ℤ, pos, is_negative, lt_ℤ,
  Text, codes, text_eq, ◌==◌, if◌then◌else◌,
}
use hail2_repos.Kernel.{System, M, pure, ◌>>=◌, ◌>>◌}
use hail2_repos.Image.{Image}
use hail2_repos.Mode.{mode_start}
use hail2_repos.Load.Services.{load_start_service, load_stop_service, load_restart_service}
use hail2_repos.Load.Boot.{load_enable_service, load_disable_service}
use hail2_repos.Feed.Words.{isspace, strtok, strtol}

-- The static variables: those of the other files, and `feed_fd` (`none` for -1); and what was sent to the
-- clients, newest first.
pub record Session (W : Type 0) : Type 0 where
  pub image : Image W
  pub feed_fd : Option ℕ
  pub replies : List Text

module _ {W A : Type 0} where
  -- a call of code of another file
  abbrev pub within : M (Image W) A → M (Session W) A
  within m s = let (a, i) = m s.image in (a, record s { image = i })

module _ {W : Type 0} where
  -- Only called with literals: the NULL check has no case here, and the result of send is dropped.
  abbrev pub feed_reply : Text → M (Session W) (Unit {0})
  feed_reply message s = (tt, record s { replies = message ∷ s.replies })

-- the loop of `feed_valid_service`
abbrev pub all_valid : Text → Bool
all_valid [] = true
all_valid (c ∷ cs) =
    let rest = all_valid cs in if c == 47 || (isspace c || c == 92) then false else rest

abbrev pub feed_valid_service : Text → Bool
feed_valid_service [] = false
feed_valid_service (c ∷ cs) = all_valid (c ∷ cs)

module _ {W : Type 0} (os : System W) where
  -- the reply to an operation of load.c
  unfoldable pub answer : Text → M (Image W) ℤ → M (Session W) (Unit {0})
  answer failure operation = do
    result ← within operation
    feed_reply (if is_negative result then failure else codes "OK\n")

  pub set_mode : ℤ × Text → M (Session W) (Unit {0})
  set_mode (mode, []) =
      if lt_ℤ mode (pos 0) || lt_ℤ (pos 2) mode
      then feed_reply (codes "ERR invalid mode\n")
      else (do within (mode_start os mode); feed_reply (codes "OK\n"))
  set_mode (mode, c ∷ cs) = feed_reply (codes "ERR invalid mode\n")

  pub mode_command : Option (Text × Text) → M (Session W) (Unit {0})
  mode_command none = feed_reply (codes "ERR missing mode\n")
  mode_command (some (arg, _)) = set_mode (strtol arg)

  pub service_operation : Text → Text → M (Session W) (Unit {0})
  service_operation cmd arg =
      if text_eq cmd (codes "enable")
      then answer (codes "ERR enable failed\n") (load_enable_service os (some arg))
      else if text_eq cmd (codes "disable")
      then answer (codes "ERR disable failed\n") (load_disable_service os (some arg))
      else if text_eq cmd (codes "start")
      then answer (codes "ERR start failed\n") (load_start_service os (some arg))
      else if text_eq cmd (codes "stop")
      then answer (codes "ERR stop failed\n") (load_stop_service os (some arg))
      else if text_eq cmd (codes "restart")
      then answer (codes "ERR restart failed\n") (load_restart_service os (some arg))
      else feed_reply (codes "ERR unknown command\n")

  pub service_command : Text → Option (Text × Text) → M (Session W) (Unit {0})
  service_command cmd none = feed_reply (codes "ERR missing service\n")
  service_command cmd (some (arg, _)) =
      if feed_valid_service arg
      then service_operation cmd arg
      else feed_reply (codes "ERR invalid service\n")

  pub command_read : Option (Text × Text) → M (Session W) (Unit {0})
  command_read none = feed_reply (codes "ERR empty command\n")
  command_read (some (cmd, rest)) =
      if text_eq cmd (codes "setmode")
      then mode_command (strtok rest)
      else service_command cmd (strtok rest)

  pub feed_command : Text → M (Session W) (Unit {0})
  feed_command command = command_read (strtok command)
