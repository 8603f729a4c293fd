-- ===== src/Core/Daemon/Keeping.antt =====
-- What the operations of the context keep, the daemon keeps in every run.
use gorb.Prelude.{ℕ, Bool, true, false, Option, none, some, List, [], ◌∷◌}
use gorb.Prelude.Text.{Text}
use gorb.Prelude.Exec.{Outcome, ok, err, panic}
use gorb.System.{Env}
use gorb.Pulse.Floats.{Floats}
use gorb.Pulse.Status.{StatusType}
use gorb.Pulse.Metrics.{Update}
use gorb.Core.Options.{ServiceOptions, BackendOptions}
use gorb.Core.Context.{State, on_trace}
use gorb.Core.Context.Services.{create_service, update_service, remove_service}
use gorb.Core.Context.Backends.{create_backend, update_backend, remove_backend}
use gorb.Core.Store.{Store}
use gorb.Core.Store.Reading.{get_external_services, get_external_backends, sync}
use gorb.Core.Runtime.{Stash, note_metrics, reweight}
use gorb.Core.Sync.Keeping.{Keeps, sync-Keeps}
use gorb.Core.Daemon.{
  Daemon, Event, request, poll, receive, settle, received, take_update, finish_update, poll_store,
  step, run,
}
use gorb.Http.{
  Request, put_service, patch_service, put_backend, patch_backend, delete_service, delete_backend,
  serve,
}

-- Each operation on the context, and each call that reads the store, keeps a property.
pub record IsKept (env : Env) {A : Type 0} ⦃f : Floats A⦄ (P : State A → Type 0) : Type 0 where
  pub makes : (id : Text) (o : ServiceOptions) → Keeps P (create_service env id o)
  pub changes : (id : Text) (o : ServiceOptions) → Keeps P (update_service env id o)
  pub unmakes : (id : Text) → Keeps P (remove_service env id)
  pub attaches :
      (now : ℕ) (vs_id id : Text) (o : BackendOptions) → Keeps P (create_backend env now vs_id id o)
  pub weighs : (vs_id id : Text) (w : ℕ) → Keeps P (update_backend env vs_id id w)
  pub detaches : (vs_id id : Text) → Keeps P (remove_backend env vs_id id)
  pub notes : (u : Update A) → Keeps P (note_metrics u)
  pub reweighs :
      (stash : Stash) (u : Update A) (status : StatusType) → Keeps P (reweight env stash u status)
  pub lists_services : (store : Store) → Keeps P (on_trace (get_external_services env store))
  pub lists_backends : (store : Store) → Keeps P (on_trace (get_external_backends env store))

module _ (env : Env) {A : Type 0} ⦃f : Floats A⦄ (P : State A → Type 0) (kept : IsKept env P) where
  serve-Keeps : (now : ℕ) (r : Request) (s : State A) → P s → P (serve env now r s).1
  unfolding serve
  serve-Keeps now (put_service vs none) s v = v
  serve-Keeps now (put_service vs (some body)) s v = kept.makes vs _ s v
  serve-Keeps now (patch_service vs none) s v = v
  serve-Keeps now (patch_service vs (some body)) s v = kept.changes vs _ s v
  serve-Keeps now (put_backend vs rs none) s v = v
  serve-Keeps now (put_backend vs rs (some body)) s v = kept.attaches now vs rs _ s v
  serve-Keeps now (patch_backend vs rs none) s v = v
  serve-Keeps now (patch_backend vs rs (some body)) s v = kept.weighs vs rs body.weight s v
  serve-Keeps now (delete_service vs) s v = kept.unmakes vs s v
  serve-Keeps now (delete_backend vs rs) s v = kept.detaches vs rs s v
  serve-Keeps now _ s v = v

  received-Keeps :
      (d : Daemon A) (u : Update A) (r : Outcome Bool × State A) → P r.1 → P (received d u r).state
  received-Keeps d u (ok true, s) v = v
  received-Keeps d u (ok false, s) v = v
  received-Keeps d u (err e, s) v = v
  received-Keeps d u (panic, s) v = v

  take_update-Keeps :
      (d : Daemon A) (u : Update A) (earlier : Option (Update A))
      → P d.state
      → P (take_update d u earlier).state
  take_update-Keeps d u (some w) v = v
  take_update-Keeps d u none v =
      received-Keeps d u (note_metrics u d.state) (kept.notes u d.state v)

  finish_update-Keeps :
      (d : Daemon A) (pending : Option (Update A))
      → P d.state
      → P (finish_update env d pending).state
  finish_update-Keeps d none v = v
  finish_update-Keeps d (some u) v = kept.reweighs d.stash u u.metrics.status d.state v

  pub sync-IsKept : (now : ℕ) (store : Store) → Keeps P (sync env now store)
  sync-IsKept now store =
      sync-Keeps env P kept.attaches kept.detaches kept.makes kept.unmakes now store
        (kept.lists_services store) (kept.lists_backends store)

  poll_store-Keeps :
      (now : ℕ) (store : Option Store) (s : State A) → P s → P (poll_store env now store s).1
  poll_store-Keeps now none s v = v
  poll_store-Keeps now (some store) s v = sync-IsKept now store s v

  step-Keeps : (d : Daemon A) (e : Event A) → P d.state → P (step env d e).state
  unfolding step
  step-Keeps d (request now r) v = serve-Keeps now r d.state v
  step-Keeps d (poll now) v = poll_store-Keeps now d.state.ctx.store d.state v
  step-Keeps d (receive u) v = take_update-Keeps d u d.pending v
  step-Keeps d settle v = finish_update-Keeps d d.pending v

  pub run-Keeps : (d : Daemon A) (es : List (Event A)) → P d.state → P (run env d es).state
  unfolding run
  run-Keeps d [] v = v
  run-Keeps d (e ∷ es) v = run-Keeps (step env d e) es (step-Keeps d e v)
