-- ===== src/Http/Failures.antt =====
-- What a request that fails leaves behind.
use gorb.Prelude.{ℕ, ◌≡◌, refl, Bool, true, false, none, some}
use gorb.Prelude.Exec.{Outcome, ok, err, panic}
use gorb.System.{Env}
use gorb.Pulse.Floats.{Floats}
use gorb.Core.Store.{unmarshal_service, unmarshal_backend}
use gorb.Core.Context.{Context, State}
use gorb.Core.Context.Rules.{Effect}
use gorb.Core.Context.Create.{IsCreated, IsUpdated, create_service-Effect, update_service-Effect}
use gorb.Core.Context.Attach.{
  IsAttached, IsReweighted, create_backend-Effect, update_backend-Effect,
}
use gorb.Core.Context.Services.{create_service, update_service}
use gorb.Core.Context.Backends.{create_backend, update_backend}
use gorb.Http.{
  Request, put_service, patch_service, put_backend, patch_backend, delete_service, delete_backend,
  list_all, service_status, backend_status, Response, empty_response, error_response, aborted,
  answer, serve,
}

abbrev pub is_delete : Request → Bool
is_delete (delete_service vs) = true
is_delete (delete_backend vs rs) = true
is_delete _ = false

abbrev pub succeeded : {A : Type 0} → Response A → Bool
succeeded (error_response code) = false
succeeded aborted = false
succeeded _ = true

module _ {A B : Type 0} where
  answer_unchanged :
      (c : Context A) (Q : B → Context A → Type 0) (r : Outcome B × State A)
      → Effect c Q r
      → succeeded (answer (λ _. empty_response) r).0 ≡ false
      → (answer (λ _. empty_response) r).1.ctx ≡ c
  answer_unchanged c Q (ok b, s) h e = cc
  answer_unchanged c Q (err x, s) h e = h
  answer_unchanged c Q (panic, s) h e = h

module _ (env : Env) {A : Type 0} ⦃f : Floats A⦄ where
  -- A request other than a deletion that gets an error, or no response because the handler panics,
  -- leaves the context as it was.
  pub serve_unchanged :
      (now : ℕ) (r : Request) (s : State A)
      → is_delete r ≡ false
      → succeeded (serve env now r s).0 ≡ false
      → (serve env now r s).1.ctx ≡ s.ctx
  unfolding serve
  serve_unchanged now (put_service vs none) s h e = refl
  serve_unchanged now (put_service vs (some body)) s h e =
      answer_unchanged s.ctx (IsCreated env vs (unmarshal_service body) s.ctx)
        (create_service env vs (unmarshal_service body) s)
        (create_service-Effect env vs (unmarshal_service body) s) e
  serve_unchanged now (patch_service vs none) s h e = refl
  serve_unchanged now (patch_service vs (some body)) s h e =
      answer_unchanged s.ctx (IsUpdated env vs (unmarshal_service body) s.ctx)
        (update_service env vs (unmarshal_service body) s)
        (update_service-Effect env vs (unmarshal_service body) s) e
  serve_unchanged now (put_backend vs rs none) s h e = refl
  serve_unchanged now (put_backend vs rs (some body)) s h e =
      answer_unchanged s.ctx (IsAttached env vs rs (unmarshal_backend body) s.ctx)
        (create_backend env now vs rs (unmarshal_backend body) s)
        (create_backend-Effect env now vs rs (unmarshal_backend body) s) e
  serve_unchanged now (patch_backend vs rs none) s h e = refl
  serve_unchanged now (patch_backend vs rs (some body)) s h e =
      answer_unchanged s.ctx (IsReweighted rs body.weight s.ctx)
        (update_backend env vs rs body.weight s) (update_backend-Effect env vs rs body.weight s) e
  serve_unchanged now (delete_service vs) s h e = cc
  serve_unchanged now (delete_backend vs rs) s h e = cc
  serve_unchanged now list_all s h e = refl
  serve_unchanged now (service_status vs) s h e = refl
  serve_unchanged now (backend_status vs rs) s h e = refl
