-- ===== src/Pulse/Loop/Start.antt =====
-- The start of the goroutine: the first interval is drawn at random.
use gorb.Prelude.{ℕ, zero, suc, ◌<◌, ◌≡◌, refl, ap, ◌∙◌, true, arith, Text_eq}
use gorb.Prelude.Int.{ℤ, pos, negsuc, is_positive}
use gorb.Prelude.Exec.{Outcome, ok, err, panic}
use gorb.Util.Net.{Ip}
use gorb.Pulse.Floats.{Floats}
use gorb.Pulse.Options.{PulseOptions, validate, check_interval}
use gorb.Pulse.Driver.{Pulse, new_pulse}
use gorb.Pulse.Loop.{first_interval}

check_interval-positive :
    (o o' : PulseOptions) → check_interval o ≡ ok o' → is_positive o'.duration ≡ true
unfolding check_interval
check_interval-positive o o' h = ground arith

validate-positive : (o o' : PulseOptions) → validate o ≡ ok o' → is_positive o'.duration ≡ true
unfolding validate
validate-positive o o' h = grind (arith, check_interval-positive)

first_interval-suc : (draw : ℕ → ℕ) (n : ℕ) → first_interval draw (pos (suc n)) ≡ ok (draw (suc n))
unfolding first_interval
first_interval-suc draw n = refl

module _ {A : Type 0} ⦃f : Floats A⦄ where
  new_pulse-positive :
      (now : ℕ) (host : Ip) (port : ℕ) (opts o : PulseOptions) (p : Pulse A)
      → new_pulse now host port opts ≡ ok (p, o)
      → is_positive p.interval ≡ true
  unfolding new_pulse
  new_pulse-positive now host port opts o p h = go (validate opts) refl
    where
      go : (r : Outcome PulseOptions) → validate opts ≡ r → is_positive p.interval ≡ true
      go (ok x) e = ground (arith, validate-positive opts x e)
      go (err x) e = ground arith
      go panic e = ground arith

  -- A check that `New` has made starts with an interval below its own, and the draw does not panic,
  -- when each draw below a positive bound is below that bound.
  pub new_pulse-first_interval :
      (draw : ℕ → ℕ) (now : ℕ) (host : Ip) (port : ℕ) (opts o : PulseOptions) (p : Pulse A)
      → ((n : ℕ) → 0 < n → draw n < n)
      → new_pulse now host port opts ≡ ok (p, o)
      → (n : ℕ) × (r : ℕ) × (p.interval ≡ pos n) × (first_interval draw p.interval ≡ ok r) × (r < n)
  new_pulse-first_interval draw now host port opts o p fair h =
      go p.interval refl (new_pulse-positive now host port opts o p h)
    where
      go :
          (z : ℤ)
          → p.interval ≡ z
          → is_positive z ≡ true
          → (n : ℕ) × (r : ℕ) × (p.interval ≡ pos n)
            × (first_interval draw p.interval ≡ ok r)
            × (r < n)
      go (pos zero) e q = absurd cc
      go (pos (suc n)) e q = (
        suc n,
        draw (suc n),
        e,
        ap (first_interval draw) e ∙ first_interval-suc draw n,
        fair (suc n) (omega arith),
      )
      go (negsuc n) e q = absurd cc
