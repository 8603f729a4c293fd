-- ===== src/Core/Invariant/Sync.antt =====
-- Following the store keeps the context valid.
use gorb.Prelude.{ℕ}
use gorb.System.{Env}
use gorb.Pulse.Floats.{Floats}
use gorb.Core.Context.{State}
use gorb.Core.Invariant.{IsValid}
use gorb.Core.Invariant.Keeps.{
  create_service-IsValid, remove_service-IsValid, create_backend-IsValid, remove_backend-IsValid,
}
use gorb.Core.Store.{Store}
use gorb.Core.Store.Reading.{sync}
use gorb.Core.Sync.Keeping.{Keeps, sync-Keeps}

abbrev pub Valid : (env : Env) → {A : Type 0} → State A → Type 0
Valid env s = IsValid env s.ctx

module _ (env : Env) {A : Type 0} ⦃f : Floats A⦄ where
  pub sync-IsValid : (now : ℕ) (store : Store) → Keeps {A = A} (Valid env) (sync env now store)
  sync-IsValid now store =
      sync-Keeps env (Valid env) (create_backend-IsValid env) (remove_backend-IsValid env)
        (create_service-IsValid env) (remove_service-IsValid env) now store (λ s v. v) (λ s v. v)
