-- ===== src/Core/Sync/Agreed.antt =====
-- Synchronize of core/context.go where the store holds what the context holds.
use gorb.Prelude.{Text_eq, ℕ, ◌≡◌, refl, true, some, List, [], ◌∷◌, All}
use gorb.Prelude.Text.{Text}
use gorb.Prelude.Map.{Map, lookup, keys}
use gorb.Prelude.Exec.{ok}
use gorb.System.{Env}
use gorb.Pulse.Floats.{Floats}
use gorb.Core.Options.{ServiceOptions, BackendOptions, compare_service, compare_backend}
use gorb.Core.Context.{Service, Backend, Context, State}
use gorb.Core.Sync.{drop_services, refresh_services, drop_backends, refresh_backends, synchronize}

-- The store and the context have the same names, and options that compare equal under them.
pub record Agrees {A : Type 0} (c : Context A) (services : Map Text ServiceOptions)
    (backends : Map Text BackendOptions) : Type 0 where
  pub services_stored :
      All (λ id. (o : ServiceOptions) × (lookup id services ≡ some o)) (keys c.services)
  pub services_equal :
      All
        (λ e.
          (vs : Service) × (lookup e.0 c.services ≡ some vs)
          × (compare_service vs.options e.1 ≡ true))
        services
  pub backends_stored : All (λ e. (o : BackendOptions) × (lookup e.0 backends ≡ some o)) c.backends
  pub backends_equal :
      All
        (λ e.
          (b : Backend A) × (lookup e.0 c.backends ≡ some b)
          × (compare_backend b.options e.1 ≡ true))
        backends

module _ (env : Env) {A : Type 0} where
  drop_services-agreed :
      (stored : Map Text ServiceOptions) (ids : List Text) (s : State A)
      → All (λ id. (o : ServiceOptions) × (lookup id stored ≡ some o)) ids
      → drop_services env stored ids s ≡ (ok tt, s)
  unfolding drop_services
  drop_services-agreed stored [] s h = refl
  drop_services-agreed stored (id ∷ ids) s ((o, e), h) = rw e (drop_services-agreed stored ids s h)

  refresh_services-agreed :
      (stored : Map Text ServiceOptions) (s : State A)
      → All
          (λ e.
            (vs : Service) × (lookup e.0 s.ctx.services ≡ some vs)
            × (compare_service vs.options e.1 ≡ true))
          stored
      → refresh_services env stored s ≡ (ok tt, s)
  unfolding refresh_services
  refresh_services-agreed [] s h = refl
  refresh_services-agreed ((id, o) ∷ stored) s ((vs, e, same), h) =
      rw (e, same) (refresh_services-agreed stored s h)

  drop_backends-agreed :
      (stored : Map Text BackendOptions) (bs : Map Text (Backend A)) (s : State A)
      → All (λ e. (o : BackendOptions) × (lookup e.0 stored ≡ some o)) bs
      → drop_backends env stored bs s ≡ (ok tt, s)
  unfolding drop_backends
  drop_backends-agreed stored [] s h = refl
  drop_backends-agreed stored ((id, b) ∷ bs) s ((o, e), h) =
      rw e (drop_backends-agreed stored bs s h)

module _ (env : Env) {A : Type 0} ⦃f : Floats A⦄ where
  refresh_backends-agreed :
      (now : ℕ) (stored : Map Text BackendOptions) (s : State A)
      → All
          (λ e.
            (b : Backend A) × (lookup e.0 s.ctx.backends ≡ some b)
            × (compare_backend b.options e.1 ≡ true))
          stored
      → refresh_backends env now stored s ≡ (ok tt, s)
  unfolding refresh_backends
  refresh_backends-agreed now [] s h = refl
  refresh_backends-agreed now ((id, o) ∷ stored) s ((b, e, same), h) =
      rw (e, same) (refresh_backends-agreed now stored s h)

  -- Nothing is called and nothing changes.
  pub synchronize-agreed :
      (now : ℕ) (services : Map Text ServiceOptions) (backends : Map Text BackendOptions)
      (s : State A)
      → Agrees s.ctx services backends
      → synchronize env now services backends s ≡ (ok tt, s)
  unfolding synchronize
  synchronize-agreed now services backends s h =
      rw
        (
          drop_services-agreed env services (keys s.ctx.services) s h.services_stored,
          refresh_services-agreed env services s h.services_equal,
          drop_backends-agreed env backends s.ctx.backends s h.backends_stored,
        )
        (refresh_backends-agreed now backends s h.backends_equal)
