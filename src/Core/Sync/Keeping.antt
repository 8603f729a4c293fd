-- ===== src/Core/Sync/Keeping.antt =====
-- What the four operations that following the store is made of keep, following the store keeps.
use gorb.Prelude.{Text_eq, ℕ, Option, none, some, List, [], ◌∷◌, Bool-cases, inl, inr}
use gorb.Prelude.Text.{Text}
use gorb.Prelude.Map.{Map, lookup, keys}
use gorb.Prelude.Exec.{Outcome, ok, err, panic, continue, ◌>>=◌, ◌>>◌}
use gorb.System.{Env}
use gorb.Pulse.Floats.{Floats}
use gorb.Core.Options.{ServiceOptions, BackendOptions, compare_service, compare_backend}
use gorb.Core.Context.{Service, Backend, State, M, ignore, on_trace}
use gorb.Core.Context.Services.{create_service, remove_service}
use gorb.Core.Context.Backends.{create_backend, remove_backend}
use gorb.Core.Store.{Store}
use gorb.Core.Store.Reading.{get_external_services, get_external_backends, sync}
use gorb.Core.Sync.{
  drop_service, drop_services, refresh_service, refresh_services, drop_backend, drop_backends,
  refresh_backend, refresh_backends, synchronize,
}

module _ {A : Type 0} (P : State A → Type 0) where
  -- An operation that keeps a property of the state.
  abbrev pub Keeps : {B : Type 0} → M A B → Type 0
  Keeps m = (s : State A) → P s → P (m s).1

  continue-Keeps :
      {B C : Type 0} (r : Outcome B × State A) (k : B → M A C)
      → ((b : B) → Keeps (k b))
      → P r.1
      → P (continue r.0 k r.1).1
  continue-Keeps (ok b, s) k rest p = rest b s p
  continue-Keeps (err e, s) k rest p = p
  continue-Keeps (panic, s) k rest p = p

  pub bind-Keeps :
      {B C : Type 0} (m : M A B) (k : B → M A C)
      → Keeps m
      → ((b : B) → Keeps (k b))
      → Keeps (m >>= k)
  bind-Keeps m k first rest s p = continue-Keeps (m s) k rest (first s p)

module _ (env : Env) {A : Type 0} (P : State A → Type 0) where
  module _ (makes : (id : Text) (o : ServiceOptions) → Keeps P (create_service env id o))
      (unmakes : (id : Text) → Keeps P (remove_service env id)) where
    drop_services-Keeps :
        (stored : Map Text ServiceOptions) (ids : List Text)
        → Keeps P (drop_services env stored ids)
    unfolding drop_services
    drop_services-Keeps stored [] s v = v
    drop_services-Keeps stored (id ∷ ids) s v =
        bind-Keeps P (drop_service env id (lookup id stored)) (λ _. drop_services env stored ids)
          (drop (lookup id stored)) (λ _. drop_services-Keeps stored ids) s v
      where
        drop : (o : Option ServiceOptions) → Keeps P (drop_service env id o)
        drop none t w = unmakes id t w
        drop (some o) t w = w

    refresh_service-Keeps :
        (id : Text) (o : ServiceOptions) (found : Option Service)
        → Keeps P (refresh_service env id o found)
    refresh_service-Keeps id o none s v = makes id o s v
    refresh_service-Keeps id o (some vs) s v = elim (Bool-cases (compare_service vs.options o)) [
      | inl same ↦ rw same v
      | inr other ↦ rw other (
          bind-Keeps P (ignore (remove_service env id)) (λ _. ignore (create_service env id o))
            (unmakes id) (λ _. makes id o) s v)
    ]

    refresh_services-Keeps :
        (stored : Map Text ServiceOptions) → Keeps P (refresh_services env stored)
    unfolding refresh_services
    refresh_services-Keeps [] s v = v
    refresh_services-Keeps ((id, o) ∷ rest) s v =
        bind-Keeps P (refresh_service env id o (lookup id s.ctx.services))
          (λ _. refresh_services env rest) (refresh_service-Keeps id o (lookup id s.ctx.services))
          (λ _. refresh_services-Keeps rest) s v

  drop_backends-Keeps :
      ((vs_id id : Text) → Keeps P (remove_backend env vs_id id))
      → (stored : Map Text BackendOptions) (bs : Map Text (Backend A))
      → Keeps P (drop_backends env stored bs)
  unfolding drop_backends
  drop_backends-Keeps detaches stored [] s v = v
  drop_backends-Keeps detaches stored ((id, b) ∷ rest) s v =
      bind-Keeps P (drop_backend env id b (lookup id stored)) (λ _. drop_backends env stored rest)
        (drop (lookup id stored)) (λ _. drop_backends-Keeps detaches stored rest) s v
    where
      drop : (o : Option BackendOptions) → Keeps P (drop_backend env id b o)
      drop none t w = detaches b.options.vs_id id t w
      drop (some o) t w = w

module _ (env : Env) {A : Type 0} ⦃f : Floats A⦄ (P : State A → Type 0)
    (attaches : (now : ℕ) (vs_id id : Text) (o : BackendOptions)
      → Keeps P (create_backend env now vs_id id o))
    (detaches : (vs_id id : Text) → Keeps P (remove_backend env vs_id id)) where
  refresh_backend-Keeps :
      (now : ℕ) (id : Text) (o : BackendOptions) (found : Option (Backend A))
      → Keeps P (refresh_backend env now id o found)
  refresh_backend-Keeps now id o none s v = attaches now o.vs_id id o s v
  refresh_backend-Keeps now id o (some b) s v = elim (Bool-cases (compare_backend b.options o)) [
    | inl same ↦ rw same v
    | inr other ↦ rw other (
        bind-Keeps P (ignore (remove_backend env o.vs_id id))
          (λ _. ignore (create_backend env now o.vs_id id o)) (detaches o.vs_id id)
          (λ _. attaches now o.vs_id id o) s v)
  ]

  refresh_backends-Keeps :
      (now : ℕ) (stored : Map Text BackendOptions) → Keeps P (refresh_backends env now stored)
  unfolding refresh_backends
  refresh_backends-Keeps now [] s v = v
  refresh_backends-Keeps now ((id, o) ∷ rest) s v =
      bind-Keeps P (refresh_backend env now id o (lookup id s.ctx.backends))
        (λ _. refresh_backends env now rest)
        (refresh_backend-Keeps now id o (lookup id s.ctx.backends))
        (λ _. refresh_backends-Keeps now rest) s v

  pub backends-Keeps :
      (now : ℕ) (stored : Map Text BackendOptions) (bs : Map Text (Backend A))
      → Keeps P (drop_backends env stored bs >> refresh_backends env now stored)
  backends-Keeps now stored bs =
      bind-Keeps P (drop_backends env stored bs) (λ _. refresh_backends env now stored)
        (drop_backends-Keeps env P detaches stored bs) (λ _. refresh_backends-Keeps now stored)

  module _ (makes : (id : Text) (o : ServiceOptions) → Keeps P (create_service env id o))
      (unmakes : (id : Text) → Keeps P (remove_service env id)) where
    synchronize-Keeps :
        (now : ℕ) (services : Map Text ServiceOptions) (backends : Map Text BackendOptions)
        → Keeps P (synchronize env now services backends)
    unfolding synchronize
    synchronize-Keeps now services backends s =
        bind-Keeps P (drop_services env services (keys s.ctx.services)) _
          (drop_services-Keeps env P makes unmakes services (keys s.ctx.services))
          (λ _.
            bind-Keeps P (refresh_services env services) _
              (refresh_services-Keeps env P makes unmakes services)
              (λ _ t. backends-Keeps now backends t.ctx.backends t))
          s

    pub sync-Keeps :
        (now : ℕ) (store : Store)
        → Keeps P (on_trace (get_external_services env store))
        → Keeps P (on_trace (get_external_backends env store))
        → Keeps P (sync env now store)
    unfolding sync
    sync-Keeps now store lists lists' =
        bind-Keeps P (on_trace (get_external_services env store))
          (λ services. on_trace (get_external_backends env store) >>= λ backends.
            synchronize env now services backends)
          lists
          (λ services.
            bind-Keeps P (on_trace (get_external_backends env store))
              (λ backends. synchronize env now services backends) lists'
              (λ backends. synchronize-Keeps now services backends))
