-- ===== src/Prelude/Time.antt =====
-- `datetime` of the Gregorian calendar, to the microsecond, and `timedelta.days`.
use Prim.Native.Nat.{ℕ, zero, suc, ◌+◌, ◌-◌, ◌*◌, ◌/◌, ◌%◌}
use mathlib.Core.Bool.{Bool, ◌&&◌, ◌||◌, not}
use insurance_claim_approval.Prelude.Tests.{leb, ltb, ◌==◌, if◌then◌else◌}
use insurance_claim_approval.Prelude.Int.{ℤ, pos, negsuc}

pub record DateTime : Type 0 where
  pub year : ℕ
  pub month : ℕ
  pub day : ℕ
  pub micros : ℕ  -- since midnight

abbrev pub day_micros : ℕ
day_micros = 86_400_000_000

is_leap : ℕ → Bool
is_leap y = y % 4 == 0 && (not (y % 100 == 0) || y % 400 == 0)

-- Days of a common year before the month.
days_before_month : ℕ → ℕ
days_before_month (suc (suc zero)) = 31
days_before_month (suc (suc (suc zero))) = 59
days_before_month (suc (suc (suc (suc zero)))) = 90
days_before_month (suc (suc (suc (suc (suc zero))))) = 120
days_before_month (suc (suc (suc (suc (suc (suc zero)))))) = 151
days_before_month (suc (suc (suc (suc (suc (suc (suc zero))))))) = 181
days_before_month (suc (suc (suc (suc (suc (suc (suc (suc zero)))))))) = 212
days_before_month (suc (suc (suc (suc (suc (suc (suc (suc (suc zero))))))))) = 243
days_before_month (suc (suc (suc (suc (suc (suc (suc (suc (suc (suc zero)))))))))) = 273
days_before_month (suc (suc (suc (suc (suc (suc (suc (suc (suc (suc (suc zero))))))))))) = 304
days_before_month (suc (suc (suc (suc (suc (suc (suc (suc (suc (suc (suc (suc zero)))))))))))) = 334
days_before_month _ = 0

-- `datetime.toordinal`
unfoldable pub to_ordinal : DateTime → ℕ
unfolding is_leap days_before_month
to_ordinal d =
    let y = d.year - 1 in
    y * 365
    + y / 4
    - y / 100
    + y / 400
    + days_before_month d.month
    + (if ltb 2 d.month && is_leap d.year then 1 else 0)
    + d.day

-- Microseconds since the start of the calendar: the order of `datetime` values.
unfoldable pub stamp : DateTime → ℕ
unfolding to_ordinal
stamp d = to_ordinal d * day_micros + d.micros

-- `(a - b).days`, which rounds down.
unfoldable pub days_between : ℕ → ℕ → ℤ
days_between a b = if leb b a then pos ((a - b) / day_micros) else negsuc ((b - a - 1) / day_micros)

-- `(a - b).days` for two moments.
unfoldable pub days_since : DateTime → DateTime → ℤ
unfolding stamp days_between
days_since a b = days_between (stamp a) (stamp b)
