-- ===== src/Util/Interval.antt =====
-- util/time.go: intervals such as `5s` or `24h`. Durations are int64 nanoseconds.
pub mod Format
use mathlib.Core.List.{foldl}
use gorb.Prelude.{
  Text_eq, ℕ, zero, suc, ◌+◌, ◌-◌, ◌*◌, ◌^◌, ◌≤◌, ◌<◌, ◌≡◌, refl, Bool, true, false, not, ◌&&◌,
  ◌||◌, List, [], ◌∷◌, ◌++◌, Option, none, some, arith, ltb, leb, nat_eq, if◌then◌else◌,
}
use gorb.Prelude.Text.{Text, text, is_empty, to_lower, lower_code}
use gorb.Prelude.Int.{ℤ, pos, negsuc, neg, mul64}
use gorb.Prelude.Map.{Map, lookup}
use gorb.Prelude.Exec.{Outcome, ok, err, invalid_interval_format}

abbrev pub second : ℕ
second = 1_000_000_000

abbrev pub minute : ℕ
minute = 60 * second

abbrev pub hour : ℕ
hour = 60 * minute

abbrev pub intervals : Map Text ℕ
intervals =
    (text "s", second)
    ∷ (text "sec", second)
    ∷ (text "seconds", second)
    ∷ (text "m", minute)
    ∷ (text "min", minute)
    ∷ (text "minutes", minute)
    ∷ (text "h", hour)
    ∷ (text "hours", hour)
    ∷ []

-- `unicode.IsSpace`
unfoldable pub is_space : ℕ → Bool
is_space c =
    (leb 9 c && leb c 13)
    || nat_eq c 32
    || nat_eq c 0x85
    || nat_eq c 0xa0
    || nat_eq c 0x1680
    || (leb 0x2000 c && leb c 0x200a)
    || nat_eq c 0x2028
    || nat_eq c 0x2029
    || nat_eq c 0x202f
    || nat_eq c 0x205f
    || nat_eq c 0x3000

unfoldable pub trim_left : Text → Text
unfolding is_space
trim_left [] = []
trim_left (c ∷ s) = let rest = trim_left s in if is_space c then rest else c ∷ s

unfoldable pub trim_right : Text → Text
unfolding is_space
trim_right [] = []
trim_right (c ∷ s) = let rest = trim_right s in if is_empty rest && is_space c then [] else c ∷ rest

-- `strings.TrimSpace`
unfoldable pub trim_space : Text → Text
unfolding trim_left trim_right
trim_space s = trim_right (trim_left s)

unfoldable pub is_digit : ℕ → Bool
is_digit c = leb b'0' c && leb c b'9'

-- The longest prefix of digits, `[0-9]+`, and what follows it.
unfoldable pub span_digits : Text → Text × Text
unfolding is_digit
span_digits [] = ([], [])
span_digits (c ∷ s) =
    let (ds, rest) = span_digits s in if is_digit c then (c ∷ ds, rest) else ([], c ∷ s)

abbrev add_digit : ℕ → ℕ → ℕ
add_digit n c = n * 10 + (c - b'0')

unfoldable pub digits_value : Text → ℕ
digits_value = foldl add_digit 0

-- `strconv.ParseInt(digits, 10, 32)` of a text that matches; its range error is dropped, and the
-- value that comes with it is the nearest bound.
unfoldable pub parse_int32 : Bool → Text → ℤ
unfolding digits_value
parse_int32 negative ds =
    let n = digits_value ds in
    if negative
    then neg (if leb n (2 ^ 31) then n else 2 ^ 31)
    else pos (if ltb n (2 ^ 31) then n else 2 ^ 31 - 1)

-- What the groups of the regular expression capture.
parse_unsigned : Bool → Text → Outcome ℤ
unfolding span_digits parse_int32 lookup to_lower mul64
parse_unsigned negative s =
    let (ds, unit_name) = span_digits s in
    if is_empty ds
    then err invalid_interval_format
    else (elim (lookup (to_lower unit_name) intervals) [
      | none ↦ err invalid_interval_format
      | some duration ↦ ok (mul64 (parse_int32 negative ds) duration)
    ])

parse_signed : Text → Outcome ℤ
unfolding parse_unsigned
parse_signed [] = parse_unsigned false []
parse_signed (c ∷ s) =
    if nat_eq c b'-'
    then parse_unsigned true s
    else if nat_eq c b'+'
    then parse_unsigned false s
    else parse_unsigned false (c ∷ s)

-- `ParseInterval`
unfoldable pub parse_interval : Text → Outcome ℤ
unfolding parse_signed trim_space
parse_interval s = parse_signed (trim_space s)
