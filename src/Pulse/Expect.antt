-- ===== src/Pulse/Expect.antt =====
-- What becomes of the status code that the options of an HTTP check ask for.
use gorb.Prelude.{Text_eq, ℕ, ◌≡◌, refl, false, Option, none, some, if◌then◌else◌}
use gorb.Prelude.Text.{Text}
use gorb.Prelude.Int.{ℤ, pos}
use gorb.Prelude.Exec.{Outcome, ok, err, panic}
use gorb.Util.Net.{Ip}
use gorb.Util.DynamicMap.{DynamicMap, Value, is_int, atoi, string, int}
use gorb.Pulse.Options.{PulseOptions}
use gorb.Pulse.Floats.{Floats}
use gorb.Pulse.Metrics.{new_metrics}
use gorb.Pulse.Driver.{Driver, Pulse, http_pulse, bind_outcome}

bind_bind :
    {A B C : Type 0} (r : Outcome A) (f : A → Outcome B) (g : B → Outcome C)
    → bind_outcome (bind_outcome r f) g ≡ bind_outcome r (λ a. bind_outcome (f a) g)
bind_bind (ok a) f g = refl
bind_bind (err e) f g = refl
bind_bind panic f g = refl

-- The text of an option that is missing or is a text.
abbrev pub IsText : Text → Option Value → Text → Type 0
IsText d none s = s ≡ d
IsText d (some (string t)) s = s ≡ t
IsText d (some _) s = ⊥

-- The status code that an option asks for, or none where the request panics: for a number, which JSON
-- decoding makes a float64, a truth value, a list, an object and null.
abbrev pub asked_code : Option Value → Option ℤ
asked_code none = some (pos 200)
asked_code (some (int n)) = some n
asked_code (some (string t)) = some (if is_int t then atoi t else pos 200)
asked_code (some _) = none

abbrev pub code_or_panic : Option ℤ → Outcome ℤ
code_or_panic none = panic
code_or_panic (some n) = ok n

abbrev pub expecting : Ip → ℕ → Text → Text → ℤ → Driver
expecting host port method path expect =
    http_pulse (record { host = host; port = port; method = method; path = path; expect = expect })

module _ {A : Type 0} ⦃f : Floats A⦄ (now : ℕ) (host : Ip) (port : ℕ) (o o' : PulseOptions)
    (path method : Text) where
  -- A check that New has made, or its panic where there is no status code.
  abbrev pub made_check : Option ℤ → Outcome (Pulse A × PulseOptions)
  made_check none = panic
  made_check (some n) = ok (
    record {
      driver = expecting host port method path n;
      interval = o'.duration;
      stopped = false;
      metrics = new_metrics now;
    },
    o',
  )
