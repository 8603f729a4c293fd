-- ===== src/Core/Sync/Quiet.antt =====
-- Synchronize of core/context.go passes no error on: it returns or panics.
use gorb.Prelude.{
  Text_eq, ℕ, ◌≡◌, ◌≢◌, refl, Option, none, some, List, [], ◌∷◌, inl, inr, Bool-cases, ◌⊎◌,
}
use gorb.Prelude.Text.{Text}
use gorb.Prelude.Map.{Map, lookup, keys}
use gorb.Prelude.Exec.{Outcome, ok, err, panic, Error, continue, ◌>>=◌, ◌>>◌}
use gorb.System.{Env}
use gorb.Pulse.Floats.{Floats}
use gorb.Core.Options.{ServiceOptions, BackendOptions, compare_service, compare_backend}
use gorb.Core.Context.{Service, Backend, State, M, ignore, drop_error}
use gorb.Core.Context.Services.{create_service, remove_service}
use gorb.Core.Context.Backends.{create_backend, remove_backend}
use gorb.Core.Sync.{
  drop_service, drop_services, refresh_service, refresh_services, drop_backend, drop_backends,
  refresh_backend, refresh_backends, synchronize,
}

-- An operation that returns or panics.
abbrev pub Quiet : {A : Type 0} → M A Unit → Type 0
Quiet m = (s : State _) (e : Error) → (m s).0 ≢ err e

module _ {A : Type 0} where
  ignore-Quiet : {B : Type 0} (m : M A B) → Quiet (ignore m)
  ignore-Quiet {B} m s e = quiet (m s).0
    where
      quiet : (r : Outcome B) → drop_error r ≢ err e
      quiet (ok b) h = cc
      quiet (err x) h = cc
      quiet panic h = cc

  bind-Quiet : (m n : M A Unit) → Quiet m → Quiet n → Quiet (m >> n)
  bind-Quiet m n first second s e = quiet (m s).0 (m s).1 (first s)
    where
      quiet :
          (r : Outcome Unit) (t : State A)
          → ((x : Error) → r ≢ err x)
          → (continue r (λ _. n) t).0 ≢ err e
      quiet (ok u) t calm h = second t e h
      quiet (err x) t calm h = calm x refl
      quiet panic t calm h = cc

module _ (env : Env) {A : Type 0} where
  drop_services-Quiet :
      (stored : Map Text ServiceOptions) (ids : List Text)
      → Quiet {A = A} (drop_services env stored ids)
  unfolding drop_services
  drop_services-Quiet stored [] s e h = cc
  drop_services-Quiet stored (id ∷ ids) s e h =
      bind-Quiet (drop_service env id (lookup id stored)) (drop_services env stored ids)
        (drop (lookup id stored)) (drop_services-Quiet stored ids) s e h
    where
      drop : (o : Option ServiceOptions) → Quiet {A = A} (drop_service env id o)
      drop none t x q = ignore-Quiet (remove_service env id) t x q
      drop (some o) t x q = cc

  refresh_service-Quiet :
      (id : Text) (o : ServiceOptions) (found : Option Service)
      → Quiet {A = A} (refresh_service env id o found)
  refresh_service-Quiet id o none s e h = ignore-Quiet (create_service env id o) s e h
  refresh_service-Quiet id o (some vs) s e h = elim (Bool-cases (compare_service vs.options o)) [
    | inl equal ↦ absurd (cc)
    | inr other ↦
        bind-Quiet (ignore (remove_service env id)) (ignore (create_service env id o))
          (ignore-Quiet (remove_service env id)) (ignore-Quiet (create_service env id o)) s e
          (rw other at h)
  ]

  refresh_services-Quiet :
      (stored : Map Text ServiceOptions) → Quiet {A = A} (refresh_services env stored)
  unfolding refresh_services
  refresh_services-Quiet [] s e h = cc
  refresh_services-Quiet ((id, o) ∷ rest) s e h =
      bind-Quiet (refresh_service env id o (lookup id s.ctx.services)) (refresh_services env rest)
        (refresh_service-Quiet id o (lookup id s.ctx.services)) (refresh_services-Quiet rest) s e h

  drop_backends-Quiet :
      (stored : Map Text BackendOptions) (bs : Map Text (Backend A))
      → Quiet (drop_backends env stored bs)
  unfolding drop_backends
  drop_backends-Quiet stored [] s e h = cc
  drop_backends-Quiet stored ((id, b) ∷ bs) s e h =
      bind-Quiet (drop_backend env id b (lookup id stored)) (drop_backends env stored bs)
        (drop (lookup id stored)) (drop_backends-Quiet stored bs) s e h
    where
      drop : (o : Option BackendOptions) → Quiet (drop_backend env id b o)
      drop none t x q = ignore-Quiet (remove_backend env b.options.vs_id id) t x q
      drop (some o) t x q = cc

module _ (env : Env) {A : Type 0} ⦃f : Floats A⦄ where
  refresh_backend-Quiet :
      (now : ℕ) (id : Text) (o : BackendOptions) (found : Option (Backend A))
      → Quiet (refresh_backend env now id o found)
  refresh_backend-Quiet now id o none s e h =
      ignore-Quiet (create_backend env now o.vs_id id o) s e h
  refresh_backend-Quiet now id o (some b) s e h = elim (Bool-cases (compare_backend b.options o)) [
    | inl equal ↦ absurd (cc)
    | inr other ↦
        bind-Quiet (ignore (remove_backend env o.vs_id id))
          (ignore (create_backend env now o.vs_id id o))
          (ignore-Quiet (remove_backend env o.vs_id id))
          (ignore-Quiet (create_backend env now o.vs_id id o)) s e (rw other at h)
  ]

  refresh_backends-Quiet :
      (now : ℕ) (stored : Map Text BackendOptions) → Quiet {A = A} (refresh_backends env now stored)
  unfolding refresh_backends
  refresh_backends-Quiet now [] s e h = cc
  refresh_backends-Quiet now ((id, o) ∷ rest) s e h =
      bind-Quiet (refresh_backend env now id o (lookup id s.ctx.backends))
        (refresh_backends env now rest) (refresh_backend-Quiet now id o (lookup id s.ctx.backends))
        (refresh_backends-Quiet now rest) s e h

  synchronize-Quiet :
      (now : ℕ) (services : Map Text ServiceOptions) (backends : Map Text BackendOptions)
      → Quiet {A = A} (synchronize env now services backends)
  unfolding synchronize
  synchronize-Quiet now services backends s =
      bind-Quiet (drop_services env services (keys s.ctx.services))
        (λ t. (refresh_services env services >>= λ _. rest) t)
        (drop_services-Quiet env services (keys s.ctx.services))
        (bind-Quiet (refresh_services env services) rest (refresh_services-Quiet env services) (λ t.
          bind-Quiet (drop_backends env backends t.ctx.backends) (refresh_backends env now backends)
            (drop_backends-Quiet env backends t.ctx.backends) (refresh_backends-Quiet now backends)
            t))
        s
    where
      rest : M A Unit
      rest t = (drop_backends env backends t.ctx.backends >> refresh_backends env now backends) t

  -- So it panics or returns.
  pub synchronize-cases :
      (now : ℕ) (services : Map Text ServiceOptions) (backends : Map Text BackendOptions)
      (s : State A)
      → ((synchronize env now services backends s).0 ≡ ok tt)
        ⊎ ((synchronize env now services backends s).0 ≡ panic)
  synchronize-cases now services backends s =
      cases (synchronize env now services backends s).0 (synchronize-Quiet now services backends s)
    where
      cases : (r : Outcome Unit) → ((e : Error) → r ≢ err e) → (r ≡ ok tt) ⊎ (r ≡ panic)
      cases (ok u) calm = inl refl
      cases (err x) calm = absurd (calm x refl)
      cases panic calm = inr refl
