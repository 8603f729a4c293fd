-- ===== src/Tests/Util.antt =====
-- Tests of the helpers, and their theorems at concrete inputs.
use gorb.Prelude.{Text_eq, some, ◌≡◌, ◌≢◌, ◌*◌, ◌^◌, ◌≤◌, ◌<◌, ◌-◌, refl, true, All, [], ◌∷◌, arith}
use gorb.Prelude.Text.{text, to_lower, Lacks}
use gorb.Prelude.Int.{pos, negsuc}
use gorb.Prelude.Map.{lookup}
use gorb.Prelude.Exec.{ok, err, invalid_interval_format}
use gorb.Util.Interval.{
  second, minute, intervals, is_space, is_digit, span_digits, digits_value, parse_interval,
}
use gorb.Util.Interval.Format.{Solid, parse_interval-format}
use gorb.Util.Net.{to_16, addr_family, ipv4}
use gorb.Core.Store.{slash, get_id, service_key}
use gorb.Core.Store.Keys.{get_id-service_key}

test_seconds : parse_interval (text "600s") ≡ ok (pos (600 * second))
unfolding parse_interval
test_seconds = refl

test_case : parse_interval (text "  -2MIN ") ≡ ok (negsuc (120 * second - 1))
unfolding parse_interval
test_case = refl

test_overflow : parse_interval (text "2562048h") ≡ ok (negsuc 9_223_371_273_709_551_615)
unfolding parse_interval
test_overflow = refl

test_missing_unit : parse_interval (text "600") ≡ err invalid_interval_format
unfolding parse_interval
test_missing_unit = refl

minutes_only : span_digits (text "Minutes") ≡ ([], text "Minutes")
unfolding span_digits
minutes_only = refl

minutes_known : lookup (to_lower (text "Minutes")) intervals ≡ some minute
unfolding lookup to_lower
minutes_known = refl

ninety : digits_value (text "90") < 2 ^ 31
unfolding digits_value
ninety = omega arith

minutes-Solid : Solid (text "Minutes")
unfolding is_space
minutes-Solid = (refl, (refl, (refl, (refl, (refl, (refl, (refl, tt)))))))

ninety_digits : All (λ c. is_digit c ≡ true) (text "90")
unfolding is_digit
ninety_digits = (refl, (refl, tt))

web_plain : Lacks slash (text "web")
web_plain =
    (λ e. absurd (omega arith), (λ e. absurd (omega arith), (λ e. absurd (omega arith), tt)))

parse_interval-format_example :
    (digits_value (text "90") * minute < 2 ^ 63
      → parse_interval (text "90Minutes") ≡ ok (pos (digits_value (text "90") * minute)))
    × (2 ^ 63 ≤ digits_value (text "90") * minute
        → parse_interval (text "90Minutes") ≢ ok (pos (digits_value (text "90") * minute)))
parse_interval-format_example =
    parse_interval-format (text "90") (text "Minutes") minute refl ninety_digits ninety minutes_only
      minutes-Solid minutes_known

get_id-service_key_example :
    get_id (
      service_key
        (record {
          store_service_path = text "gorb/services";
          store_backend_path = text "gorb/backends";
        })
        (text "web"))
    ≡ text "web"
get_id-service_key_example =
    get_id-service_key
      (record {
        store_service_path = text "gorb/services";
        store_backend_path = text "gorb/backends";
      })
      (text "web") refl web_plain

test_addr_family : addr_family (to_16 (10 ∷ 0 ∷ 0 ∷ 1 ∷ [])) ≡ ipv4
unfolding addr_family to_16
test_addr_family = refl
