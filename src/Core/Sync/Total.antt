-- ===== src/Core/Sync/Total.antt =====
-- Synchronize of core/context.go where every check runs: its calls return.
use gorb.Prelude.{
  Text_eq, ◌≡◌, ◌≢◌, refl, false, Option, none, some, List, [], ◌∷◌, inl, inr, Bool-cases, arith,
  All, All-weaken,
}
use gorb.Prelude.Text.{Text}
use gorb.Prelude.Map.{Map, lookup, IsUnique, unique-entries}
use gorb.Prelude.Exec.{Outcome, ok, err, panic, continue, ◌>>◌}
use gorb.System.{Env}
use gorb.Core.Options.{ServiceOptions, BackendOptions, compare_service}
use gorb.Core.Context.{Service, Backend, Context, State, M, ignore, drop_error}
use gorb.Core.Context.Rules.{Effect}
use gorb.Core.Context.Services.{create_service, remove_service}
use gorb.Core.Context.Backends.{remove_backend}
use gorb.Core.Context.Create.{IsCreated, create_service-Effect}
use gorb.Core.Context.Detach.{IsDetached, remove_backend-IsDetached}
use gorb.Core.Context.Remove.{has_halted, IsRemoved, remove_service-IsRemoved, drop_orphans-Fewer}
use gorb.Core.Context.Total.{create_service-ne_panic}
use gorb.Core.Sync.{drop_service, drop_services, refresh_service, refresh_services}

-- From a context with the one property the operation returns, to one with the other.
abbrev pub Reaches : {A : Type 0} → (Context A → Type 0) → (Context A → Type 0) → M A Unit → Type 0
Reaches P Q m = (s : State _) → P s.ctx → ((m s).0 ≡ ok tt) × Q (m s).1.ctx

pub bind-Reaches :
    {A : Type 0} (P Q R : Context A → Type 0) (m n : M A Unit)
    → Reaches P Q m
    → Reaches Q R n
    → Reaches P R (m >> n)
bind-Reaches {A} P Q R m n first second s p = let (e, q) = first s p in go (m s) e q
  where
    go :
        (r : Outcome Unit × State A)
        → r.0 ≡ ok tt
        → Q r.1.ctx
        → ((continue r.0 (λ _. n) r.1).0 ≡ ok tt) × R (continue r.0 (λ _. n) r.1).1.ctx
    go (ok u, t) e q = second t q
    go (err x, t) e q = absurd cc
    go (panic, t) e q = absurd cc

pub returns : {B : Type 0} (r : Outcome B) → r ≢ panic → drop_error r ≡ ok tt
returns (ok b) calm = refl
returns (err e) calm = refl
returns panic calm = absurd (calm refl)

module _ {A : Type 0} where
  abbrev pub IsRunning : Backend A → Type 0
  IsRunning b = b.monitor.stopped ≡ false

  -- The checks of the backends of some names run.
  abbrev pub Run : (Text → Type 0) → Context A → Type 0
  Run S c = (k : Text) (b : Backend A) → S k → lookup k c.backends ≡ some b → IsRunning b

  abbrev pub Healthy : Context A → Type 0
  Healthy c = IsUnique c.backends × Run (λ _. Unit) c

  none_halted :
      (vs : Service) (bs : Map Text (Backend A))
      → All (λ e. IsRunning e.1) bs
      → has_halted vs bs ≡ false
  unfolding has_halted
  none_halted vs [] h = refl
  none_halted vs ((j, b) ∷ bs) (run, h) = ground (arith, none_halted vs bs h)

  Healthy-none_halted :
      (vs : Service) (c : Context A) → Healthy c → has_halted vs c.backends ≡ false
  Healthy-none_halted vs c (unique, run) =
      none_halted vs c.backends
        (All-weaken _ _ c.backends (λ e h. run e.0 e.1 tt h) (unique-entries c.backends unique))

module _ (env : Env) {A : Type 0} where
  remove_service-Reaches :
      (id : Text) → Reaches {A = A} Healthy Healthy (ignore (remove_service env id))
  remove_service-Reaches id s (unique, run) =
      go (remove_service env id s) (remove_service-IsRemoved env id s)
    where
      go :
          (r : Outcome ServiceOptions × State A)
          → IsRemoved id s.ctx r
          → (drop_error r.0 ≡ ok tt) × Healthy r.1.ctx
      go (ok o, t) (vs, _, _, _, e) =
          let (within, once) = drop_orphans-Fewer vs s.ctx.backends s.ctx.backends in
          (refl, rw e (once unique, λ k b _ h. run k b tt (within k b h)))
      go (err x, t) (inl (_, _, e)) = (refl, rw e (unique, run))
      go (err x, t) (inr (_, _, _, e)) = (refl, rw e (unique, run))
      go (panic, t) (vs, there, halted, more) =
          let calm = Healthy-none_halted vs s.ctx (unique, run) in absurd cc

  create_service-Reaches :
      (id : Text) (o : ServiceOptions)
      → Reaches {A = A} Healthy Healthy (ignore (create_service env id o))
  create_service-Reaches id o s p = (
    returns (create_service env id o s).0 (create_service-ne_panic env id o s),
    go (create_service env id o s) (create_service-Effect env id o s),
  )
    where
      go :
          (r : Outcome Unit × State A) → Effect s.ctx (IsCreated env id o s.ctx) r → Healthy r.1.ctx
      go (ok _, t) (_, (_, _, _, e)) = rw e p
      go (err x, t) e = rw e p
      go (panic, t) e = rw e p

  pub drop_services-Reaches :
      (stored : Map Text ServiceOptions) (ids : List Text)
      → Reaches {A = A} Healthy Healthy (drop_services env stored ids)
  unfolding drop_services
  drop_services-Reaches stored [] s p = (refl, p)
  drop_services-Reaches stored (id ∷ ids) s p =
      bind-Reaches Healthy Healthy Healthy (drop_service env id (lookup id stored))
        (drop_services env stored ids) (drop (lookup id stored)) (drop_services-Reaches stored ids)
        s p
    where
      drop : (o : Option ServiceOptions) → Reaches {A = A} Healthy Healthy (drop_service env id o)
      drop none = remove_service-Reaches id
      drop (some o) = λ t q. (refl, q)

  refresh_service-Reaches :
      (id : Text) (o : ServiceOptions) (found : Option Service)
      → Reaches {A = A} Healthy Healthy (refresh_service env id o found)
  refresh_service-Reaches id o none s p = create_service-Reaches id o s p
  refresh_service-Reaches id o (some vs) s p = elim (Bool-cases (compare_service vs.options o)) [
    | inl equal ↦ rw equal (refl, p)
    | inr other ↦ rw other (
        bind-Reaches Healthy Healthy Healthy (ignore (remove_service env id))
          (ignore (create_service env id o)) (remove_service-Reaches id)
          (create_service-Reaches id o) s p)
  ]

  pub refresh_services-Reaches :
      (stored : Map Text ServiceOptions)
      → Reaches {A = A} Healthy Healthy (refresh_services env stored)
  unfolding refresh_services
  refresh_services-Reaches [] s p = (refl, p)
  refresh_services-Reaches ((id, o) ∷ rest) s p =
      bind-Reaches Healthy Healthy Healthy (refresh_service env id o (lookup id s.ctx.services))
        (refresh_services env rest) (refresh_service-Reaches id o (lookup id s.ctx.services))
        (refresh_services-Reaches rest) s p

  -- A backend whose check runs is removed without a panic.
  pub remove_backend-returns :
      (vs_id id : Text) (s : State A)
      → Run (λ k. k ≡ id) s.ctx
      → (ignore (remove_backend env vs_id id) s).0 ≡ ok tt
  remove_backend-returns vs_id id s run =
      go (remove_backend env vs_id id s) (remove_backend-IsDetached env vs_id id s)
    where
      go : (r : Outcome BackendOptions × State A) → IsDetached id s.ctx r → drop_error r.0 ≡ ok tt
      go (ok o, t) d = refl
      go (err x, t) d = refl
      go (panic, t) (b, there, halted, _) = let runs = run id b refl there in absurd cc
