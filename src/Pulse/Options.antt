-- ===== src/Pulse/Options.antt =====
-- pulse/options.go: the configuration of a health check.
use gorb.Prelude.{Text_eq, Bool, if◌then◌else◌, ◌==◌, ◌||◌, []}
use gorb.Prelude.Text.{Text, text, is_empty, to_lower}
use gorb.Prelude.Int.{ℤ, pos, is_positive}
use gorb.Prelude.Exec.{Outcome, ok, err, panic, unknown_pulse_type, invalid_pulse_interval}
use gorb.Util.Interval.{parse_interval}
use gorb.Util.DynamicMap.{DynamicMap}

pub record PulseOptions : Type 0 where
  pub type : Text
  pub interval : Text
  pub args : DynamicMap
  -- The parsed interval, in nanoseconds.
  pub duration : ℤ

-- `&pulse.Options{}`
abbrev pub empty_options : PulseOptions
empty_options = record { type = []; interval = []; args = []; duration = pos 0 }

-- `get[o.Type] != nil`: the keys of the table of drivers in pulse/pulse.go
unfoldable pub known_type : Text → Bool
known_type t = t == text "tcp" || t == text "http" || t == text "none"

unfoldable pub check_interval : PulseOptions → Outcome PulseOptions
check_interval o = elim (parse_interval o.interval) [
  | ok d ↦ if is_positive d then ok (record o { duration = d }) else err invalid_pulse_interval
  | err e ↦ err e
  | panic ↦ panic
]

-- `Validate`, which changes the options in place; the changed ones are returned.
unfoldable pub validate : PulseOptions → Outcome PulseOptions
unfolding known_type check_interval
validate o =
    let type' = to_lower (if is_empty o.type then text "tcp" else o.type) in
    let interval' = if is_empty o.interval then text "1m" else o.interval in
    if known_type type'
    then check_interval (record o { type = type'; interval = interval' })
    else err unknown_pulse_type
