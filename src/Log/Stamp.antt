-- ===== src/Log/Stamp.antt =====
-- The layout of a log line.
use hail2_repos.Prelude.{ℕ, ◌+◌, ◌-◌, ◌*◌, ◌<◌, ◌≡◌, refl, arith, [], ◌∷◌, ◌++◌, Text, take, drop}
use hail2_repos.Prelude.Digits.{padded_two, padded_four}
use hail2_repos.Kernel.{Tm}
use hail2_repos.Log.{log_line, log_level_name, time_stamp}

-- the number that digits stand for
abbrev value : ℕ → Text → ℕ
value acc [] = acc
value acc (c ∷ cs) = value (acc * 10 + (c - 48)) cs

-- the fields of a stamp, by their places
pub read_stamp : Text → Tm
read_stamp line = record {
  tm_mon = value 0 (take 2 (drop 1 line)) - 1;
  tm_mday = value 0 (take 2 (drop 4 line));
  tm_year = value 0 (take 4 (drop 7 line)) - 1900;
  tm_hour = value 0 (take 2 (drop 14 line));
  tm_min = value 0 (take 2 (drop 17 line));
}

-- what localtime_r gives, for years before 10000
pub record IsCalendar (tm : Tm) : Type 0 where
  pub mon : tm.tm_mon < 12
  pub mday : tm.tm_mday < 32
  pub year : tm.tm_year < 8100
  pub hour : tm.tm_hour < 24
  pub min : tm.tm_min < 60

-- For a time within the calendar and before the year 10000, the first 21 bytes of a log line
-- give the month, day, year, hour and minute back, and what follows them is the component, the
-- message, the name of the level and a line feed.
pub log_line-read_stamp :
    (tm : Tm) (component message : Text) (level : ℕ)
    → IsCalendar tm
    → (read_stamp (log_line tm component message level) ≡ tm)
      × (drop 21 (log_line tm component message level)
          ≡ component ++ (32 ∷ message ++ (32 ∷ log_level_name level ++ 10 ∷ [])))
unfolding log_line time_stamp read_stamp
log_line-read_stamp tm component message level h =
    rw
      (
        padded_two (tm.tm_mon + 1) (omega (arith, h.mon)),
        padded_two tm.tm_mday (omega (arith, h.mday)),
        padded_four (tm.tm_year + 1900) (omega arith) (omega (arith, h.year)),
        padded_two tm.tm_hour (omega (arith, h.hour)),
        padded_two tm.tm_min (omega (arith, h.min)),
      )
      (ground arith, refl)
