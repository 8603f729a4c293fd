-- ===== src/Tests/Loop.antt =====
-- The goroutine of a health check, run by hand: one round, a stop and the last update.
use gorb.Prelude.{ℕ, ◌<◌, ◌≤◌, ◌≡◌, ◌≢◌, refl, ◌⊎◌, true, none, List, [], ◌∷◌}
use gorb.Prelude.Int.{pos}
use gorb.Prelude.Exec.{ok}
use gorb.Pulse.Status.{removed}
use gorb.Pulse.Metrics.{Metrics, Update, update}
use gorb.Pulse.Driver.{Driver, Network, tcp_pulse, check, new_pulse, new_driver}
use gorb.Pulse.Loop.{
  first_interval, Loop, waiting, finished, closing, listening, gone, new_loop, message, Move, tick,
  send, notice_stop, send_last, move, halt, Reach, here, later, Moves,
}
use gorb.Pulse.Loop.Start.{new_pulse-first_interval}
use gorb.Pulse.Loop.Order.{new_driver-removed_last}
use gorb.Pulse.Loop.Ending.{progress, can_end, never_ends}
use gorb.Tests.Fixtures.{web, backend_a, running_backend, fixed}
use gorb.Prelude.Text.{text, to_lower}
use gorb.Pulse.Options.{PulseOptions, validate}
use gorb.Util.Interval.{parse_interval}

abbrev dialler : Driver
dialler = tcp_pulse (10 ∷ 0 ∷ 0 ∷ 1 ∷ []) 8080

abbrev reachable : Network
reachable = record { dials = λ host port. true; fetches = λ p. none }

abbrev before : Metrics ℕ
before = (running_backend 2).monitor.metrics

abbrev checked : Metrics ℕ
checked = update before (check reachable dialler) 5

abbrev at_stop : Metrics ℕ
at_stop = update checked removed 9

-- `Stop` has been called after the first update.
abbrev stopping : Loop ℕ
stopping = record {
  place = waiting;
  stopped = true;
  consumer = listening;
  metrics = checked;
  sent = message web backend_a checked ∷ [];
}

stopping-Reach : Reach web backend_a dialler (new_loop before) stopping
stopping-Reach =
    later (later (later here (move (tick reachable 5 refl refl))) (move (send refl cc))) (halt refl)

abbrev ended : Loop ℕ
ended = record stopping {
  place = finished;
  metrics = at_stop;
  sent = message web backend_a at_stop ∷ message web backend_a checked ∷ [];
}

ended-Reach : Reach web backend_a dialler (new_loop before) ended
ended-Reach =
    later (later stopping-Reach (move (notice_stop 9 refl refl refl))) (move (send_last refl cc))

made : new_driver (text "tcp") (10 ∷ 0 ∷ 0 ∷ 1 ∷ []) 8080 [] ≡ ok dialler
unfolding new_driver
made = refl

at_stop-removed : at_stop.status ≡ removed
unfolding update
at_stop-removed = refl

abbrev nothing : List (Update ℕ)
nothing = []

new_driver-removed_last_example : (nothing ≡ []) × (ended.place ≡ finished)
new_driver-removed_last_example =
    new_driver-removed_last (text "tcp") (10 ∷ 0 ∷ 0 ∷ 1 ∷ []) 8080 [] dialler web backend_a before
      ended nothing (message web backend_a checked ∷ []) (message web backend_a at_stop) made
      ended-Reach refl at_stop-removed

-- The consumer has returned before the last update was taken.
abbrev left_alone : Loop ℕ
left_alone = record stopping { consumer = gone }

progress_example :
    ((t : Loop ℕ) × Move web backend_a dialler left_alone t)
    ⊎ ((left_alone.place ≡ finished)
        ⊎ (((u : Update ℕ) × (left_alone.place ≡ closing u)) × (left_alone.consumer ≡ gone)))
progress_example = progress web backend_a dialler reachable 9 left_alone

can_end_example :
    (n : ℕ) × (n ≤ 3)
    × ((end : Loop ℕ) × Moves web backend_a dialler stopping end n × (end.place ≡ finished))
can_end_example = can_end web backend_a dialler stopping refl cc

abbrev abandoned : Loop ℕ
abandoned = record left_alone { place = closing (message web backend_a at_stop); metrics = at_stop }

never_ends_example : (abandoned.place ≢ finished) × (abandoned.sent ≡ left_alone.sent)
never_ends_example =
    never_ends web backend_a dialler left_alone abandoned refl (cc)
      (later here (move (notice_stop 9 refl refl refl)))

abbrev plain_options : PulseOptions
plain_options = record { type = []; interval = []; args = []; duration = pos 0 }

abbrev minute_options : PulseOptions
minute_options = record {
  type = text "tcp";
  interval = text "1m";
  args = [];
  duration = pos 60_000_000_000;
}

plain_options-made :
    new_pulse 2 (10 ∷ 0 ∷ 0 ∷ 1 ∷ []) 8080 plain_options
    ≡ ok ((running_backend 2).monitor, minute_options)
unfolding new_pulse validate to_lower parse_interval new_driver
plain_options-made = refl

new_pulse-first_interval_example :
    (n : ℕ) × (r : ℕ) × ((running_backend 2).monitor.interval ≡ pos n)
    × (first_interval (λ n. 0) (running_backend 2).monitor.interval ≡ ok r)
    × (r < n)
new_pulse-first_interval_example =
    new_pulse-first_interval (λ n. 0) 2 (10 ∷ 0 ∷ 0 ∷ 1 ∷ []) 8080 plain_options minute_options
      (running_backend 2).monitor (λ n h. h) plain_options-made
