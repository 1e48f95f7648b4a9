-- ===== src/Linux/Tools.antt =====
-- examples/*/source/LinuxModbusTools.h: the time between two stamps.
use modbus_basic.Common.{ℕ, ◌+◌, ◌*◌, ◌-◌, Bool, false, leb, if◌then◌else◌, ℤ, pos, negsuc}

-- `timeval`
pub record Timeval : Type 0 where
  pub tv_sec : ℕ
  pub tv_usec : ℕ

abbrev pub micro_seconds : Timeval → ℕ
micro_seconds t = t.tv_sec * 1000000 + t.tv_usec

-- `(second.tv_sec - first.tv_sec) * 1000000 + (second.tv_usec - first.tv_usec)`, which is the difference
-- of the two times in microseconds.
unfoldable pub get_micro_seconds_since : Timeval → Timeval → ℤ
get_micro_seconds_since first second =
    if leb (micro_seconds first) (micro_seconds second)
    then pos (micro_seconds second - micro_seconds first)
    else negsuc (micro_seconds first - micro_seconds second - 1)

-- `duration >= bound`
abbrev pub at_least : ℤ → ℕ → Bool
at_least (pos n) bound = leb bound n
at_least (negsuc n) bound = false
