-- ===== src/Core/Daemon.antt =====
-- The daemon as a whole: requests, updates of health checks and rounds of the store, in the order in
-- which the mutex of the context lets them in. `run` of core/runtime.go, the handlers of http.go and
-- the ticker of core/store.go take turns.
pub mod Keeping
use gorb.Prelude.{Text_eq, Pair_eq, Bool, true, some, none, ℕ, List, [], ◌∷◌, Option, false}
use gorb.Prelude.Exec.{Outcome, ok, err, panic, pure}
use gorb.System.{Env}
use gorb.Util.Net.{Ip}
use gorb.Prelude.Text.{Text}
use gorb.Disco.{Driver}
use gorb.Pulse.Floats.{Floats}
use gorb.Pulse.Metrics.{Update}
use gorb.Prelude.Map.{delete}
use gorb.Core.Store.Reading.{sync}
use gorb.Core.Store.{Store}
use gorb.Core.Context.{State, M}
use gorb.Core.Runtime.{Stash, source, note_metrics, reweight}
use gorb.Http.{Request, serve}

pub record Daemon (A : Type 0) : Type 0 where
  pub state : State A
  pub stash : Stash
  -- The update between the two critical sections of `processPulseUpdate`, if there is one.
  pub pending : Option (Update A)

pub data Event (A : Type 0) : Type 0 where
  request : ℕ → Request → Event A
  -- The ticker of the store.
  poll : ℕ → Event A
  receive : Update A → Event A
  settle : Event A

-- A context that `NewContext` has made.
abbrev pub new_state : {A : Type 0} → Option Ip → Option Text → Driver → Option Store → State A
new_state endpoint link disco store = record {
  ctx = record {
    endpoint = endpoint;
    services = [];
    backends = [];
    vip_interface = link;
    disco = disco;
    store = store;
    stopped = false;
    next_addr = 0;
  };
  trace = [];
}

abbrev pub keep_stash : Stash → Outcome Stash → Stash
keep_stash old (ok new) = new
keep_stash old (err e) = old
keep_stash old panic = old

module _ {A : Type 0} where
  abbrev pub received : Daemon A → Update A → Outcome Bool × State A → Daemon A
  received d u (ok true, s) = record d { state = s; pending = some u }
  received d u (ok false, s) = record d { state = s; stash = delete (source u) d.stash }
  received d u (err e, s) = record d { state = s }
  received d u (panic, s) = record d { state = s }

  -- The loop takes an update only once it has done with the one before: the first critical section.
  abbrev pub take_update : Daemon A → Update A → Option (Update A) → Daemon A
  take_update d u (some earlier) = d
  take_update d u none = received d u (note_metrics u d.state)

  abbrev settled : Daemon A → Outcome Stash × State A → Daemon A
  settled d (r, s) = record { state = s; stash = keep_stash d.stash r; pending = none }

module _ (env : Env) {A : Type 0} ⦃f : Floats A⦄ where
  -- The rest of `processPulseUpdate`.
  abbrev pub finish_update : Daemon A → Option (Update A) → Daemon A
  finish_update d none = d
  finish_update d (some u) = settled d (reweight env d.stash u u.metrics.status d.state)

  abbrev pub poll_store : ℕ → Option Store → M A Unit
  poll_store now none = pure tt
  poll_store now (some store) = sync env now store

  unfoldable pub step : Daemon A → Event A → Daemon A
  step d (request now r) = record d { state = (serve env now r d.state).1 }
  step d (poll now) = record d { state = (poll_store now d.state.ctx.store d.state).1 }
  step d (receive u) = take_update d u d.pending
  step d settle = finish_update d d.pending

  unfoldable pub run : Daemon A → List (Event A) → Daemon A
  run d [] = d
  run d (e ∷ es) = run (step d e) es
