-- ===== src/Core/Invariant/Run.antt =====
-- The context stays valid in every run of the daemon.
use gorb.Prelude.{List}
use gorb.System.{Env}
use gorb.Pulse.Floats.{Floats}
use gorb.Core.Daemon.{Daemon, Event, run}
use gorb.Core.Daemon.Keeping.{IsKept, run-Keeps}
use gorb.Core.Invariant.{IsValid}
use gorb.Core.Invariant.Keeps.{
  create_service-IsValid, update_service-IsValid, remove_service-IsValid, create_backend-IsValid,
  update_backend-IsValid, remove_backend-IsValid, note_metrics-IsValid, reweight-IsValid,
}
use gorb.Core.Invariant.Sync.{Valid}

module _ (env : Env) {A : Type 0} ⦃f : Floats A⦄ where
  pub Valid-IsKept : IsKept env {A = A} (Valid env)
  Valid-IsKept = record {
    makes = create_service-IsValid env;
    changes = update_service-IsValid env;
    unmakes = remove_service-IsValid env;
    attaches = create_backend-IsValid env;
    weighs = update_backend-IsValid env;
    detaches = remove_backend-IsValid env;
    notes = note_metrics-IsValid env;
    reweighs = reweight-IsValid env;
    lists_services = λ store s v. v;
    lists_backends = λ store s v. v;
  }

  -- Whatever requests, updates of health checks and contents of the store a daemon with a valid
  -- context meets, and whatever the world answers, its context is valid after them.
  pub run-IsValid :
      (d : Daemon A) (es : List (Event A))
      → IsValid env d.state.ctx
      → IsValid env (run env d es).state.ctx
  run-IsValid d es v = run-Keeps env (Valid env) Valid-IsKept d es v
