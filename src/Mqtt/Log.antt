-- ===== src/Mqtt/Log.antt =====
-- The limits on log lines: `rateLimitedLog` of mqtt/client.go, and `overflowLog` of
-- controller/controller.go. Times are nanoseconds; `last` is `none` while it is the zero time. What is
-- printed is the number that the line reports.
pub mod Accounting
use mqtt_raspberry_controlle.Base.{
  ℕ, suc, ◌+◌, ◌-◌, ◌%◌, ◌^◌, Bool, false, Option, none, some, List, [], ◌∷◌, ltb, if◌then◌else◌,
}

pub record Limiter : Type 0 where
  pub count : ℕ
  pub last : Option ℕ

abbrev pub second : ℕ
second = 10 ^ 9

-- !last.IsZero() && now.Sub(last) < time.Second
unfoldable pub is_recent : ℕ → Option ℕ → Bool
is_recent now none = false
is_recent now (some last) = ltb (now - last) second

-- A uint64 that goes up by one.
unfoldable pub increment : ℕ → ℕ
increment n = (n + 1) % 2 ^ 64

-- rateLimitedLog.printf: the line reports the lines that were left out.
unfoldable pub printf : ℕ → Limiter → Option ℕ × Limiter
printf now l =
    if is_recent now l.last
    then (none, record l { count = increment l.count })
    else (some l.count, record { count = 0; last = some now })

-- overflowLog.record: the line reports the commands that were dropped, with this one.
unfoldable pub record_overflow : ℕ → Limiter → Option ℕ × Limiter
record_overflow now o =
    let dropped = increment o.count in
    if is_recent now o.last
    then (none, record o { count = dropped })
    else (some dropped, record { count = 0; last = some now })

-- overflowLog.recordRejection: `some 0` is a line without a number.
unfoldable pub record_rejection : ℕ → Limiter → Option ℕ × Limiter
record_rejection now o =
    let dropped = increment o.count in
    if is_recent now o.last
    then (none, record o { count = dropped })
    else (some (if ltb 1 dropped then dropped - 1 else 0), record { count = 0; last = some now })
