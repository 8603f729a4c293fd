-- ===== src/Pulse/Metrics.antt =====
-- pulse/metrics.go: the statistics of a health check. Times are nanoseconds of the monotonic clock
-- that Go's times carry, which does not go back.
use mathlib.Core.List.{foldl}
use gorb.Prelude.{ℕ, ◌+◌, ◌-◌, ◌/◌, List, [], ◌∷◌, ◌++◌, ltb, if◌then◌else◌, length, drop}
use gorb.Util.Interval.{second}
use gorb.Pulse.Floats.{Floats}
use gorb.Pulse.Status.{StatusType, up, down, removed, status_code}

pub record Metrics (A : Type 0) : Type 0 where
  pub status : StatusType
  pub health : A
  pub uptime : ℕ
  pub last_ts : ℕ
  pub recorded : List StatusType

pub record Update (A : Type 0) : Type 0 where
  pub vs_id : List ℕ
  pub rs_id : List ℕ
  pub metrics : Metrics A

abbrev pub record_size : ℕ
record_size = 100

-- The field `record` once `status` has been appended to it.
unfoldable pub push_status : List StatusType → StatusType → List StatusType
push_status recorded status =
    let longer = recorded ++ status ∷ [] in
    if ltb record_size (length longer) then drop 1 longer else longer

abbrev uptime_after : StatusType → ℕ → ℕ → ℕ → ℕ
uptime_after up uptime last_ts now = uptime + (now - last_ts) / second
uptime_after down uptime last_ts now = 0
uptime_after removed uptime last_ts now = 0

module _ {A : Type 0} ⦃f : Floats A⦄ where
  -- `NewMetrics`
  unfoldable pub new_metrics : ℕ → Metrics A
  new_metrics now = record {
    status = up;
    health = f.of_ℕ 1;
    uptime = 0;
    last_ts = now;
    recorded = [];
  }

  abbrev pub add_result : A → StatusType → A
  add_result h result = f.add h (f.of_ℕ (status_code result))

  unfoldable pub sum_results : List StatusType → A
  sum_results = foldl add_result (f.of_ℕ 0)

  unfoldable pub health_of : List StatusType → A
  unfolding sum_results
  health_of recorded = f.sub (f.of_ℕ 1) (f.div (sum_results recorded) (f.of_ℕ (length recorded)))

  -- `Metrics.Update`, at the time `now`
  unfoldable pub update : Metrics A → StatusType → ℕ → Metrics A
  unfolding push_status health_of
  update m status now =
      let recorded' = push_status m.recorded status in
      record {
        status = status;
        health = health_of recorded';
        uptime = uptime_after status m.uptime m.last_ts now;
        last_ts = now;
        recorded = recorded';
      }
