-- ===== src/Load/Table.antt =====
-- [ENG]/load.c: the table of supervisors, its search, insertion and removal.
pub mod View
pub mod Paths
pub mod Invariant
use hail2_repos.Prelude.{
  ℕ, zero, suc, ◌+◌, ◌-◌, Bool, true, false, ◌&&◌, ◌||◌, not, Option, none, some, List, [], ◌∷◌,
  ◌++◌, ℤ, pos, minus_one, is_positive, eq_ℤ, Text, codes, text_eq, has_byte, joined, fitted,
  length, ltb, leb, ◌==◌, if◌then◌else◌,
}
use hail2_repos.Image.{HsvEntry, HsvTable}

abbrev pub max_hsv : ℕ
max_hsv = 128

-- <limits.h>, as on Linux
abbrev pub path_max : ℕ
path_max = 4096

abbrev pub service_dir : Text
service_dir = codes "/etc/hinit/[SV]"

-- The path that is left in the buffer, and `none` for the result -1.
pub load_service_path : ℕ → Option Text → Option Text
load_service_path size none = none
load_service_path size (some []) = none
load_service_path size (some (c ∷ cs)) =
    if has_byte 47 (c ∷ cs) then none else fitted size (joined service_dir (c ∷ cs))

-- The loop of `hsv_find` from index `i`, with `rounds` left.
pub find_from : ℕ → ℕ → (ℕ → HsvEntry) → Text → Option ℕ
find_from zero i slot path = none
find_from (suc rounds) i slot path =
    let rest = find_from rounds (suc i) slot path in
    if text_eq (slot i).service path then some i else rest

-- `none` is the result -1.
pub hsv_find : HsvTable → Text → Option ℕ
hsv_find t path = find_from t.hsv_count 0 t.slot path

abbrev pub is_found : Option ℕ → Bool
is_found none = false
is_found (some i) = true

-- the two stores into `hsv_table[hsv_count]` and the increment
pub append_entry : HsvTable → HsvEntry → HsvTable
append_entry t e = record {
  slot = λ i. if i == t.hsv_count then e else t.slot i;
  hsv_count = t.hsv_count + 1;
}

pub hsv_register : ℤ → Text → HsvTable → ℤ × HsvTable
hsv_register pid path t =
    if not (is_positive pid)
    then (minus_one, t)
    else if leb max_hsv t.hsv_count
    then (minus_one, t)
    else if leb path_max (length path)
    then (minus_one, t)
    else if is_found (hsv_find t path)
    then (minus_one, t)
    else (pos 0, append_entry t (record { pid = pid; service = path }))

-- memmove of `n` entries
pub memmove : ℕ → ℕ → ℕ → (ℕ → HsvEntry) → ℕ → HsvEntry
memmove dst src n slot i = if leb dst i && ltb i (dst + n) then slot (i - dst + src) else slot i

unfoldable pub hsv_unregister : ℕ → HsvTable → HsvTable
hsv_unregister index t = if leb t.hsv_count index then t else record {
  slot =
      if ltb (index + 1) t.hsv_count
      then memmove index (index + 1) (t.hsv_count - index - 1) t.slot
      else t.slot;
  hsv_count = t.hsv_count - 1;
}

-- The loop of `load_child_exit` from index `i`, with `rounds` left: the entry that it removes.
pub find_pid_from : ℕ → ℕ → (ℕ → HsvEntry) → ℤ → Option ℕ
find_pid_from zero i slot pid = none
find_pid_from (suc rounds) i slot pid =
    let rest = find_pid_from rounds (suc i) slot pid in
    if eq_ℤ (slot i).pid pid then some i else rest

abbrev pub unregister_found : Option ℕ → HsvTable → HsvTable
unregister_found none t = t
unregister_found (some i) t = hsv_unregister i t

pub load_child_exit : ℤ → HsvTable → HsvTable
load_child_exit pid t = unregister_found (find_pid_from t.hsv_count 0 t.slot pid) t
