-- ===== src/Core/Sync.antt =====
-- core/context.go: Synchronize, which makes the context follow what the external store holds.
pub mod Agreed
pub mod Keeping
pub mod Services
pub mod Backends
pub mod Followed
pub mod Quiet
pub mod Total
pub mod Returning
pub mod Defaults
pub mod Stuck
use gorb.Prelude.{Text_eq, ℕ, Option, none, some, List, [], ◌∷◌, if◌then◌else◌}
use gorb.Prelude.Text.{Text}
use gorb.Prelude.Map.{Map, lookup, keys}
use gorb.Prelude.Exec.{pure, ◌>>=◌, ◌>>◌}
use gorb.System.{Env}
use gorb.Pulse.Floats.{Floats}
use gorb.Core.Options.{ServiceOptions, BackendOptions, compare_service, compare_backend}
use gorb.Core.Context.{Service, Backend, M, ignore, get_ctx}
use gorb.Core.Context.Services.{create_service, remove_service}
use gorb.Core.Context.Backends.{create_backend, remove_backend}

module _ (env : Env) {A : Type 0} where
  abbrev pub drop_service : Text → Option ServiceOptions → M A Unit
  drop_service id none = ignore (remove_service env id)
  drop_service id (some o) = pure tt

  -- Services that the store does not hold are removed; errors are ignored.
  unfoldable pub drop_services : Map Text ServiceOptions → List Text → M A Unit
  drop_services stored [] = pure tt
  drop_services stored (id ∷ ids) = drop_service id (lookup id stored) >> drop_services stored ids

  abbrev pub refresh_service : Text → ServiceOptions → Option Service → M A Unit
  refresh_service id o none = ignore (create_service env id o)
  refresh_service id o (some vs) =
      if compare_service vs.options o
      then pure tt
      else ignore (remove_service env id) >> ignore (create_service env id o)

  -- Services that the store holds are made, and made again if their options differ.
  unfoldable pub refresh_services : Map Text ServiceOptions → M A Unit
  refresh_services [] = pure tt
  refresh_services ((id, o) ∷ rest) = do
    ctx ← get_ctx
    refresh_service id o (lookup id ctx.services)
    refresh_services rest

  abbrev pub drop_backend : Text → Backend A → Option BackendOptions → M A Unit
  drop_backend id b none = ignore (remove_backend env b.options.vs_id id)
  drop_backend id b (some o) = pure tt

  unfoldable pub drop_backends : Map Text BackendOptions → Map Text (Backend A) → M A Unit
  drop_backends stored [] = pure tt
  drop_backends stored ((id, b) ∷ rest) =
      drop_backend id b (lookup id stored) >> drop_backends stored rest

module _ (env : Env) {A : Type 0} ⦃f : Floats A⦄ where
  abbrev pub refresh_backend : ℕ → Text → BackendOptions → Option (Backend A) → M A Unit
  refresh_backend now id o none = ignore (create_backend env now o.vs_id id o)
  refresh_backend now id o (some b) =
      if compare_backend b.options o
      then pure tt
      else ignore (remove_backend env o.vs_id id) >> ignore (create_backend env now o.vs_id id o)

  unfoldable pub refresh_backends : ℕ → Map Text BackendOptions → M A Unit
  refresh_backends now [] = pure tt
  refresh_backends now ((id, o) ∷ rest) = do
    ctx ← get_ctx
    refresh_backend now id o (lookup id ctx.backends)
    refresh_backends now rest

  -- `Synchronize`, at the time `now`
  unfoldable pub synchronize : ℕ → Map Text ServiceOptions → Map Text BackendOptions → M A Unit
  synchronize now services backends = do
    ctx ← get_ctx
    drop_services env services (keys ctx.services)
    refresh_services env services
    ctx' ← get_ctx
    drop_backends env backends ctx'.backends
    refresh_backends now backends
