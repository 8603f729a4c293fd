-- ===== src/Core/Kernel/Run.antt =====
-- In every run of the daemon IPVS has the services of the context.
use gorb.Prelude.{Text_eq, ℕ, ◌≡◌, refl, List}
use gorb.Prelude.Text.{Text}
use gorb.System.{Env}
use gorb.Pulse.Floats.{Floats}
use gorb.Pulse.Status.{StatusType}
use gorb.Pulse.Metrics.{Update}
use gorb.Ipvs.Table.{serves, IsKernel, Neutral}
use gorb.Core.Options.{BackendOptions}
use gorb.Core.Context.{Context, on_trace}
use gorb.Core.Context.Attach.{IsReweighted, update_backend-Effect}
use gorb.Core.Context.Backends.{create_backend, update_backend, remove_backend}
use gorb.Core.Store.{Store}
use gorb.Core.Store.Reading.{get_external_services, get_external_backends}
use gorb.Core.Runtime.{Stash, note_metrics, reweight}
use gorb.Core.Runtime.Rules.{note_metrics_rule, note_metrics-trace, reweight_rule}
use gorb.Core.Sync.Keeping.{Keeps}
use gorb.Core.Sync.Followed.{create_backend-Same, remove_backend-Same}
use gorb.Core.Invariant.Keeps.{Effect-keeps}
use gorb.Core.Daemon.{Daemon, Event, run}
use gorb.Core.Daemon.Keeping.{IsKept, run-Keeps}
use gorb.Core.Kernel.Backends.{
  update_backend-IsNeutral, remove_backend-IsNeutral, create_backend-IsNeutral, reweight-IsNeutral,
}
use gorb.Core.Kernel.Services.{Served, Served-Same, create_service-Served, update_service-Served}
use gorb.Core.Kernel.Remove.{remove_service-Served}

module _ (env : Env) where
  get_external_services-Neutral : (store : Store) → Neutral env (get_external_services env store)
  unfolding get_external_services serves
  get_external_services-Neutral store t k = refl

  get_external_backends-Neutral : (store : Store) → Neutral env (get_external_backends env store)
  unfolding get_external_backends serves
  get_external_backends-Neutral store t k = refl

module _ (env : Env) {A : Type 0} ⦃f : Floats A⦄ (kernel : IsKernel env) where
  attaches-Served :
      (now : ℕ) (vs_id id : Text) (o : BackendOptions)
      → Keeps {A = A} (Served env) (create_backend env now vs_id id o)
  attaches-Served now vs_id id o s =
      Served-Same env s (create_backend env now vs_id id o s).1
        (create_backend-Same env s.ctx.services now vs_id id o s refl)
        (create_backend-IsNeutral env now vs_id id o s)

  detaches-Served : (vs_id id : Text) → Keeps {A = A} (Served env) (remove_backend env vs_id id)
  detaches-Served vs_id id s =
      Served-Same env s (remove_backend env vs_id id s).1
        (remove_backend-Same env s.ctx.services vs_id id s refl)
        (remove_backend-IsNeutral env vs_id id s)

  weighs-Served :
      (vs_id id : Text) (w : ℕ) → Keeps {A = A} (Served env) (update_backend env vs_id id w)
  weighs-Served vs_id id w s =
      Served-Same env s (update_backend env vs_id id w s).1
        (Effect-keeps (λ (c : Context A). c.services ≡ s.ctx.services) s.ctx
          (IsReweighted id w s.ctx) (update_backend env vs_id id w s) (λ _ d h. rw h.3 refl) refl
          (update_backend-Effect env vs_id id w s))
        (update_backend-IsNeutral env vs_id id w s)

  notes-Served : (u : Update A) → Keeps {A = A} (Served env) (note_metrics u)
  notes-Served u s =
      Served-Same env s (note_metrics u s).1
        (note_metrics_rule env u (λ (c : Context A). c.services ≡ s.ctx.services)
          (λ c b m there e. e) (λ c b w there e. e) s refl)
        (rw (note_metrics-trace u s) (λ k. refl))

  reweighs-Served :
      (stash : Stash) (u : Update A) (status : StatusType)
      → Keeps {A = A} (Served env) (reweight env stash u status)
  reweighs-Served stash u status s =
      Served-Same env s (reweight env stash u status s).1
        (reweight_rule env u (λ (c : Context A). c.services ≡ s.ctx.services) (λ c b m there e. e)
          (λ c b w there e. e) stash status s refl)
        (reweight-IsNeutral env stash u status s)

  pub Served-IsKept : IsKept env {A = A} (Served env)
  Served-IsKept = record {
    makes = λ id o s. create_service-Served env id o s kernel;
    changes = λ id o s. update_service-Served env id o s kernel;
    unmakes = λ id s. remove_service-Served env id s kernel;
    attaches = attaches-Served;
    weighs = weighs-Served;
    detaches = detaches-Served;
    notes = notes-Served;
    reweighs = reweighs-Served;
    lists_services = λ store s.
        Served-Same env s (on_trace (get_external_services env store) s).1 refl
          (get_external_services-Neutral env store s.trace);
    lists_backends = λ store s.
        Served-Same env s (on_trace (get_external_backends env store) s).1 refl
          (get_external_backends-Neutral env store s.trace);
  }

  -- On a kernel that refuses a service it has and deletes one it has, a daemon whose services are
  -- those of IPVS keeps them so: whatever requests, updates of health checks and contents of the store
  -- follow, and whatever else the world answers, each service of the context is in IPVS under its
  -- address, port and protocol, no two are one there, and IPVS has no other.
  pub run-Served :
      (d : Daemon A) (es : List (Event A)) → Served env d.state → Served env (run env d es).state
  run-Served d es v = run-Keeps env (Served env) Served-IsKept d es v
