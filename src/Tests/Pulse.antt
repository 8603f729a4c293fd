-- ===== src/Tests/Pulse.antt =====
-- Tests of the health checks, and their theorems at concrete inputs.
use gorb.Prelude.{
  Text_eq, some, true, ℕ, ◌≡◌, refl, List, [], ◌∷◌, ◌++◌, arith, map, last, suc, zero,
}
use gorb.Prelude.Text.{text, to_lower}
use gorb.Util.Interval.{parse_interval}
use gorb.Prelude.Int.{pos}
use gorb.Prelude.Exec.{ok}
use gorb.Util.DynamicMap.{float64, string, get, as_string, as_int}
use gorb.Pulse.Status.{StatusType, up, down, id_string}
use gorb.Pulse.Metrics.{Metrics, update, record_size}
use gorb.Pulse.Options.{PulseOptions, validate}
use gorb.Pulse.Driver.{Pulse, new_pulse, new_driver, new_request_method, check}
use gorb.Pulse.Window.{update_all, update_all-recorded}
use gorb.Pulse.Expect.{expecting}
use gorb.Tests.Fixtures.{fixed}

abbrev pub repeat : ℕ → StatusType → List (StatusType × ℕ)
repeat zero status = []
repeat (suc n) status = (status, n) ∷ repeat n status

abbrev fresh : Metrics ℕ
fresh = record { status = up; health = 1000; uptime = 0; last_ts = 0; recorded = [] }

-- One failure in four checks leaves three quarters of the health.
test_health : (update_all fresh ((up, 1) ∷ (up, 2) ∷ (down, 3) ∷ (up, 4) ∷ [])).health ≡ 750
unfolding update_all
test_health = refl

test_uptime : (update fresh up 3_500_000_000).uptime ≡ 3
unfolding update
test_uptime = refl

test_check :
    check
      (record { dials = λ ip port. true; fetches = λ p. some (pos 404) })
      (expecting (10 ∷ 0 ∷ 0 ∷ 1 ∷ []) 80 (text "GET") (text "/") (pos 200))
    ≡ down
unfolding check
test_check = refl

test_id : id_string (text "web", text "a") ≡ text "[web/a]"
unfolding id_string
test_id = refl

update_all-recorded_example :
    (update_all fresh (repeat 120 down)).recorded
    ≡ last record_size ([] ++ map (λ e. e.0) (repeat 120 down))
update_all-recorded_example = update_all-recorded fresh (repeat 120 down) (omega arith)

-- The options of the README.
abbrev http_options : PulseOptions
http_options = record {
  type = text "http";
  interval = text "5s";
  args =
      (text "method", string (text "GET"))
      ∷ (text "path", string (text "/health"))
      ∷ (text "expect", float64 (pos 200))
      ∷ [];
  duration = pos 0;
}

abbrev valid_options : PulseOptions
valid_options = record http_options { duration = pos 5_000_000_000 }

-- A text of digits is taken.
test_text :
    (p : Pulse ℕ) × (new_pulse 1
        (10 ∷ 0 ∷ 0 ∷ 1 ∷ [])
        80
        (record http_options { args = (text "expect", string (text "204")) ∷ [] })
      ≡ ok (p, record valid_options { args = (text "expect", string (text "204")) ∷ [] }))
    × (p.driver ≡ expecting (10 ∷ 0 ∷ 0 ∷ 1 ∷ []) 80 (text "GET") (text "/") (pos 204))
unfolding new_pulse validate to_lower parse_interval new_driver get as_string as_int
    new_request_method
test_text = (_, refl, refl)
