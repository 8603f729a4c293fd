-- ===== src/Core/Sync/Followed.antt =====
-- What Synchronize of core/context.go has reached when it returns, whatever has failed on the way.
use gorb.Prelude.{Text_eq, ℕ, ◌≡◌, refl, ◌∙◌, ap, sym, some, inl, inr}
use gorb.Prelude.Text.{Text}
use gorb.Prelude.Map.{Map, lookup, keys, IsUnique}
use gorb.Prelude.Exec.{Outcome, ok, err, panic, ◌>>=◌, ◌>>◌}
use gorb.System.{Env}
use gorb.Pulse.Floats.{Floats}
use gorb.Core.Options.{ServiceOptions, BackendOptions}
use gorb.Core.Context.{Service, Backend, Context, State}
use gorb.Core.Context.Rules.{continue-ok, Effect}
use gorb.Core.Context.Backends.{create_backend, remove_backend}
use gorb.Core.Context.Attach.{IsAttached, create_backend-Effect}
use gorb.Core.Context.Detach.{IsDetached, remove_backend-IsDetached}
use gorb.Core.Sync.Keeping.{Keeps, backends-Keeps}
use gorb.Core.Sync.{drop_services, refresh_services, drop_backends, refresh_backends, synchronize}
use gorb.Core.Sync.Services.{Follows, drop_services-IsStored, refresh_services-Follows}
use gorb.Core.Sync.Backends.{FollowsBackend, backends-FollowsBackend}

module _ (env : Env) {A : Type 0} (ss : Map Text Service) where
  -- The services stay.
  abbrev pub Same : State A → Type 0
  Same s = s.ctx.services ≡ ss

  pub remove_backend-Same : (vs_id id : Text) → Keeps Same (remove_backend env vs_id id)
  remove_backend-Same vs_id id s e =
      kept (remove_backend env vs_id id s) (remove_backend-IsDetached env vs_id id s)
    where
      kept : (r : Outcome BackendOptions × State A) → IsDetached id s.ctx r → Same r.1
      kept (ok o, t) (_, _, _, _, q) = ap (λ (c : Context A). c.services) q ∙ e
      kept (err x, t) (inl (_, _, q)) = ap (λ (c : Context A). c.services) q ∙ e
      kept (err x, t) (inr (_, _, _, _, q)) = ap (λ (c : Context A). c.services) q ∙ e
      kept (panic, t) (_, _, _, q) = ap (λ (c : Context A). c.services) q ∙ e

module _ (env : Env) {A : Type 0} ⦃f : Floats A⦄ (ss : Map Text Service) where
  pub create_backend-Same :
      (now : ℕ) (vs_id id : Text) (o : BackendOptions)
      → Keeps {A = A} (Same env ss) (create_backend env now vs_id id o)
  create_backend-Same now vs_id id o s e =
      kept (create_backend env now vs_id id o s) (create_backend-Effect env now vs_id id o s)
    where
      kept :
          (r : Outcome Unit × State A)
          → Effect s.ctx (IsAttached env vs_id id o s.ctx) r
          → Same env ss r.1
      kept (ok _, t) (_, (_, _, _, _, _, q)) = ap (λ (c : Context A). c.services) q ∙ e
      kept (err x, t) q = ap (λ (c : Context A). c.services) q ∙ e
      kept (panic, t) q = ap (λ (c : Context A). c.services) q ∙ e

module _ (env : Env) {A : Type 0} ⦃f : Floats A⦄ where
  backends-Same :
      (now : ℕ) (stored : Map Text BackendOptions) (s : State A)
      → ((drop_backends env stored s.ctx.backends >> refresh_backends env now stored)
          s).1.ctx.services
        ≡ s.ctx.services
  backends-Same now stored s =
      backends-Keeps env (Same env s.ctx.services) (create_backend-Same env s.ctx.services)
        (remove_backend-Same env s.ctx.services) now stored s.ctx.backends s refl

  -- When Synchronize returns, whatever calls have failed on the way, each service of the context is
  -- one that the store holds, with options that compare equal to its document or were made from it.
  -- Each backend is so too, unless its check is stopped. No name stands twice in the store.
  pub synchronize-Follows :
      (now : ℕ) (services : Map Text ServiceOptions) (backends : Map Text BackendOptions)
      (s : State A)
      → IsUnique services
      → IsUnique backends
      → let r = synchronize env now services backends s in
        r.0 ≡ ok tt
        → ((k : Text) (vs : Service) → lookup k r.1.ctx.services ≡ some vs → Follows services k vs)
          × ((k : Text) (b : Backend A)
              → lookup k r.1.ctx.backends ≡ some b
              → FollowsBackend backends k b)
  unfolding synchronize
  synchronize-Follows now services backends s us ub h =
      let first = drop_services env services (keys s.ctx.services) s in
      let rest = λ (t : State A).
        (drop_backends env backends t.ctx.backends >> refresh_backends env now backends) t in
      let (_, dropped, more, same) =
        continue-ok first.0 (λ _ t. (refresh_services env services >>= λ _. rest) t) first.1 tt h in
      let second = refresh_services env services first.1 in
      let (_, refreshed, last, same') = continue-ok second.0 (λ _. rest) second.1 tt more in
      (
        λ k vs there.
            refresh_services-Follows env services first.1 us
              (drop_services-IsStored env services s dropped) refreshed k vs
              (ap (λ m. lookup k m)
                  (sym (
                    ap (λ (t : State A). t.ctx.services) (same ∙ same')
                    ∙ backends-Same now backends second.1))
                ∙ there),
        λ k b there.
            backends-FollowsBackend env now backends second.1 ub last k b
              (ap (λ (t : State A). lookup k t.ctx.backends) (sym (same ∙ same')) ∙ there),
      )
