-- ===== src/Core/Sync/Stuck.antt =====
-- Synchronize of core/context.go where a backend is left with its check stopped.
use gorb.Prelude.{
  Text_eq, ℕ, ◌≡◌, ◌≢◌, refl, ◌∙◌, sym, false, Option, none, some, List, [], ◌∷◌, inl, inr,
  Bool-cases, ◌==◌, arith, subst,
}
use gorb.Prelude.Text.{Text}
use gorb.Prelude.Map.{Map, lookup, keys, IsUnique, lookup-delete_ne, lookup-insert_ne}
use gorb.Prelude.Exec.{Outcome, ok, err, panic, ◌>>=◌, ◌>>◌}
use gorb.System.{Env}
use gorb.Pulse.Floats.{Floats}
use gorb.Core.Options.{ServiceOptions, BackendOptions, compare_service}
use gorb.Core.Context.{Service, Backend, Context, State, M, ignore, drop_error}
use gorb.Core.Context.Rules.{continue-ok, Effect}
use gorb.Core.Context.Services.{create_service, remove_service}
use gorb.Core.Context.Backends.{remove_backend}
use gorb.Core.Context.Create.{IsCreated, create_service-Effect}
use gorb.Core.Context.Detach.{IsDetached, remove_backend-IsDetached}
use gorb.Core.Context.Remove.{
  points_to, has_halted, IsRemoved, remove_service-IsRemoved, drop_orphans-Fewer,
}
use gorb.Core.Removal.{drop_orphans-lookup}
use gorb.Core.Sync.{
  drop_service, drop_services, refresh_service, refresh_services, drop_backend, drop_backends,
  refresh_backends, synchronize,
}
use gorb.Core.Sync.Backends.{IsHalted}
use gorb.Core.Sync.Quiet.{synchronize-cases}

-- A part that returns keeps a property of the context.
abbrev KeepsIfOk : {A : Type 0} → (Context A → Type 0) → M A Unit → Type 0
KeepsIfOk P m = (s : State _) → (m s).0 ≡ ok tt → P s.ctx → P (m s).1.ctx

bind-KeepsIfOk :
    {A : Type 0} (P : Context A → Type 0) (m n : M A Unit)
    → KeepsIfOk P m
    → KeepsIfOk P n
    → KeepsIfOk P (m >> n)
bind-KeepsIfOk P m n first second s h p =
    let (_, done, more, same) = continue-ok (m s).0 (λ _. n) (m s).1 tt h in
    subst (λ (t : State _). P t.ctx) (sym same) (second (m s).1 more (first s done p))

module _ {A : Type 0} where
  spared :
      (vs : Service) (id : Text) (b : Backend A) (bs : Map Text (Backend A))
      → lookup id bs ≡ some b
      → IsHalted b
      → has_halted vs bs ≡ false
      → points_to vs b ≡ false
  unfolding lookup has_halted
  spared vs id b [] there stopped h = cc
  spared vs id b ((j, c) ∷ bs) there stopped h = elim (Bool-cases (j == id)) [
    | inl same ↦ ground arith
    | inr other ↦ spared vs id b bs (ground arith) stopped (ground arith)
  ]

module _ (env : Env) {A : Type 0} (id : Text) (b : Backend A) (stopped : IsHalted b) where
  -- The backend stands, with its check stopped.
  abbrev Stands : Context A → Type 0
  Stands c = IsUnique c.backends × (lookup id c.backends ≡ some b)

  remove_service-Stands : (vs_id : Text) → KeepsIfOk Stands (ignore (remove_service env vs_id))
  remove_service-Stands vs_id s h (unique, there) =
      kept (remove_service env vs_id s) (remove_service-IsRemoved env vs_id s) h
    where
      kept :
          (r : Outcome ServiceOptions × State A)
          → IsRemoved vs_id s.ctx r
          → drop_error r.0 ≡ ok tt
          → Stands r.1.ctx
      kept (ok o, t) (vs, _, _, calm, e) h =
          let far = spared vs id b s.ctx.backends there stopped calm in
          rw e (
            (drop_orphans-Fewer vs s.ctx.backends s.ctx.backends).1 unique,
            drop_orphans-lookup vs id s.ctx.backends s.ctx.backends unique refl ∙ rw (there, far),
          )
      kept (err x, t) (inl (_, _, e)) h = rw e (unique, there)
      kept (err x, t) (inr (_, _, _, e)) h = rw e (unique, there)
      kept (panic, t) d h = cc

  create_service-Stands :
      (vs_id : Text) (o : ServiceOptions) → KeepsIfOk Stands (ignore (create_service env vs_id o))
  create_service-Stands vs_id o s h p =
      kept (create_service env vs_id o s) (create_service-Effect env vs_id o s)
    where
      kept :
          (r : Outcome Unit × State A)
          → Effect s.ctx (IsCreated env vs_id o s.ctx) r
          → Stands r.1.ctx
      kept (ok _, t) (_, (_, _, _, e)) = rw e p
      kept (err x, t) e = rw e p
      kept (panic, t) e = rw e p

  drop_services-Stands :
      (stored : Map Text ServiceOptions) (ids : List Text)
      → KeepsIfOk Stands (drop_services env stored ids)
  unfolding drop_services
  drop_services-Stands stored [] s h p = p
  drop_services-Stands stored (vs_id ∷ ids) s h p =
      bind-KeepsIfOk Stands (drop_service env vs_id (lookup vs_id stored))
        (drop_services env stored ids) (drop (lookup vs_id stored))
        (drop_services-Stands stored ids) s h p
    where
      drop : (o : Option ServiceOptions) → KeepsIfOk Stands (drop_service env vs_id o)
      drop none = remove_service-Stands vs_id
      drop (some o) = λ _ _ q. q

  refresh_service-Stands :
      (vs_id : Text) (o : ServiceOptions) (found : Option Service)
      → KeepsIfOk Stands (refresh_service env vs_id o found)
  refresh_service-Stands vs_id o none s h p = create_service-Stands vs_id o s h p
  refresh_service-Stands vs_id o (some vs) s h p =
      elim (Bool-cases (compare_service vs.options o)) [
        | inl equal ↦ rw equal p
        | inr other ↦ rw other (
            bind-KeepsIfOk Stands (ignore (remove_service env vs_id))
              (ignore (create_service env vs_id o)) (remove_service-Stands vs_id)
              (create_service-Stands vs_id o) s (rw other at h) p)
      ]

  refresh_services-Stands :
      (stored : Map Text ServiceOptions) → KeepsIfOk Stands (refresh_services env stored)
  unfolding refresh_services
  refresh_services-Stands [] s h p = p
  refresh_services-Stands ((vs_id, o) ∷ rest) s h p =
      bind-KeepsIfOk Stands (refresh_service env vs_id o (lookup vs_id s.ctx.services))
        (refresh_services env rest) (refresh_service-Stands vs_id o (lookup vs_id s.ctx.services))
        (refresh_services-Stands rest) s h p

  -- Its removal panics, and that of another backend leaves it.
  remove_backend-stuck :
      (vs_id : Text) (s : State A)
      → lookup id s.ctx.backends ≡ some b
      → (ignore (remove_backend env vs_id id) s).0 ≢ ok tt
  remove_backend-stuck vs_id s there =
      kept (remove_backend env vs_id id s) (remove_backend-IsDetached env vs_id id s)
    where
      kept : (r : Outcome BackendOptions × State A) → IsDetached id s.ctx r → drop_error r.0 ≢ ok tt
      kept (ok o, t) (d, at, running, _, _) h = cc
      kept (err x, t) (inl (free, _, _)) h = cc
      kept (err x, t) (inr (d, at, running, _, _)) h = cc
      kept (panic, t) d h = cc

  remove_backend-other :
      (vs_id j : Text) (s : State A)
      → j ≢ id
      → lookup id (ignore (remove_backend env vs_id j) s).1.ctx.backends ≡ lookup id s.ctx.backends
  remove_backend-other vs_id j s other =
      kept (remove_backend env vs_id j s) (remove_backend-IsDetached env vs_id j s)
    where
      kept :
          (r : Outcome BackendOptions × State A)
          → IsDetached j s.ctx r
          → lookup id r.1.ctx.backends ≡ lookup id s.ctx.backends
      kept (ok o, t) (_, _, _, _, e) = rw e (lookup-delete_ne j id s.ctx.backends other)
      kept (err x, t) (inl (_, _, e)) = rw e refl
      kept (err x, t) (inr (_, _, _, _, e)) = rw e (lookup-insert_ne j id _ s.ctx.backends other)
      kept (panic, t) (_, _, _, e) = rw e refl

  drop_backend-other :
      (j : Text) (d : Backend A) (found : Option BackendOptions) (s : State A)
      → j ≢ id
      → lookup id (drop_backend env j d found s).1.ctx.backends ≡ lookup id s.ctx.backends
  drop_backend-other j d none s other = remove_backend-other d.options.vs_id j s other
  drop_backend-other j d (some o) s other = refl

  drop_backend-stuck :
      (d : Backend A) (found : Option BackendOptions) (s : State A)
      → found ≡ none
      → lookup id s.ctx.backends ≡ some b
      → (drop_backend env id d found s).0 ≢ ok tt
  drop_backend-stuck d none s e there = remove_backend-stuck d.options.vs_id s there
  drop_backend-stuck d (some o) s e there = cc

  drop_backends-stuck :
      (stored : Map Text BackendOptions) (bs : Map Text (Backend A)) (c : Backend A) (s : State A)
      → lookup id stored ≡ none
      → lookup id bs ≡ some c
      → lookup id s.ctx.backends ≡ some b
      → (drop_backends env stored bs s).0 ≢ ok tt
  unfolding drop_backends lookup
  drop_backends-stuck stored [] c s gone listed there h = cc
  drop_backends-stuck stored ((j, d) ∷ bs) c s gone listed there h =
      let m = drop_backend env j d (lookup j stored) in
      let (_, done, more, _) =
        continue-ok (m s).0 (λ _. drop_backends env stored bs) (m s).1 tt h in
      elim (Bool-cases (j == id)) [
        | inl same ↦
            let eq = (Text_eq.same_iff j id).0 same in
            drop_backend-stuck d (lookup id stored) s gone there
              (subst (λ i. (drop_backend env i d (lookup i stored) s).0 ≡ ok tt) eq done)
        | inr other ↦
            drop_backends-stuck stored bs c (m s).1 gone (ground arith)
              (drop_backend-other j d (lookup j stored) s
                  (λ eq. absurd (ground (arith, Text_eq.same_iff j id)))
                ∙ there)
              more
      ]

module _ (env : Env) {A : Type 0} ⦃f : Floats A⦄ where
  not_ok :
      (now : ℕ) (services : Map Text ServiceOptions) (backends : Map Text BackendOptions)
      (id : Text) (b : Backend A) (s : State A)
      → IsUnique s.ctx.backends
      → lookup id s.ctx.backends ≡ some b
      → IsHalted b
      → lookup id backends ≡ none
      → (synchronize env now services backends s).0 ≢ ok tt
  unfolding synchronize
  not_ok now services backends id b s unique there stopped gone h =
      let rest = λ (t : State A).
        (drop_backends env backends t.ctx.backends >> refresh_backends env now backends) t in
      let first = drop_services env services (keys s.ctx.services) s in
      let (_, dropped, more, _) =
        continue-ok first.0 (λ _ t. (refresh_services env services >>= λ _. rest) t) first.1 tt h in
      let second = refresh_services env services first.1 in
      let (_, refreshed, last, _) = continue-ok second.0 (λ _. rest) second.1 tt more in
      let third = drop_backends env backends second.1.ctx.backends second.1 in
      let (_, dropped', _, _) =
        continue-ok third.0 (λ _. refresh_backends env now backends) third.1 tt last in
      let stands =
        drop_services-Stands env id b stopped services (keys s.ctx.services) s dropped
          (unique, there) in
      let (_, there') =
        refresh_services-Stands env id b stopped services first.1 refreshed stands in
      drop_backends-stuck env id b stopped backends second.1.ctx.backends b second.1 gone there'
        there' dropped'

  -- Where the context has a backend whose check is stopped, and the store does not hold it, Synchronize
  -- panics. No name stands twice among the backends.
  pub synchronize-stuck :
      (now : ℕ) (services : Map Text ServiceOptions) (backends : Map Text BackendOptions)
      (id : Text) (b : Backend A) (s : State A)
      → IsUnique s.ctx.backends
      → lookup id s.ctx.backends ≡ some b
      → IsHalted b
      → lookup id backends ≡ none
      → (synchronize env now services backends s).0 ≡ panic
  synchronize-stuck now services backends id b s unique there stopped gone =
      elim (synchronize-cases env now services backends s) [
        | inl returned ↦
            absurd (not_ok now services backends id b s unique there stopped gone returned)
        | inr crashed ↦ crashed
      ]
