-- ===== src/Http.antt =====
-- http.go and the routes of main.go: the REST API. A body is the document that JSON decoding gives,
-- or nothing if it fails.
pub mod Failures
use gorb.Prelude.{ℕ, Option, none, some, Bool, false, List, []}
use gorb.Prelude.Text.{Text}
use gorb.Prelude.Int.{pos}
use gorb.Prelude.Exec.{
  Exec, Outcome, ok, err, panic, Error, ipvs_syscall_failed, object_exists, object_not_found, pure,
  ◌>>=◌,
}
use gorb.System.{Env}
use gorb.Pulse.Floats.{Floats}
use gorb.Pulse.Options.{PulseOptions}
use gorb.Core.Payload.{ServicePayload, BackendPayload, PulsePayload}
use gorb.Core.Options.{ServiceOptions, BackendOptions}
use gorb.Core.Store.{unmarshal_service, unmarshal_backend}
use gorb.Core.Context.{Context, State, M, get_ctx}
use gorb.Core.Context.Services.{create_service, update_service, remove_service}
use gorb.Core.Context.Backends.{create_backend, update_backend, remove_backend}
use gorb.Core.Context.Queries.{ServiceInfo, BackendInfo, list_services, get_service, get_backend}

-- One constructor for each route.
pub data Request : Type 0 where
  put_service patch_service : Text → Option ServicePayload → Request
  put_backend patch_backend : Text → Text → Option BackendPayload → Request
  delete_service : Text → Request
  delete_backend : Text → Text → Request
  list_all : Request
  service_status : Text → Request
  backend_status : Text → Text → Request

-- A panic aborts the response.
pub data Response (A : Type 0) : Type 0 where
  empty_response : Response A
  error_response : ℕ → Response A
  services_response : List Text → Response A
  service_response : ServiceInfo A → Response A
  backend_response : BackendInfo A → Response A
  aborted : Response A

-- `writeError`
unfoldable pub error_code : Error → ℕ
error_code ipvs_syscall_failed = 500
error_code object_exists = 409
error_code object_not_found = 404
error_code _ = 400

module _ {A B : Type 0} where
  abbrev write : (B → Response A) → Outcome B → Response A
  write f (ok b) = f b
  write f (err e) = error_response (error_code e)
  write f panic = aborted

  abbrev answer : (B → Response A) → Outcome B × State A → Response A × State A
  answer f (r, s) = (write f r, s)

module _ (env : Env) {A : Type 0} ⦃f : Floats A⦄ where
  -- The handlers, at the time `now`
  unfoldable pub serve : ℕ → Request → State A → Response A × State A
  unfolding error_code
  serve now (put_service vs none) s = (error_response 400, s)
  serve now (put_service vs (some body)) s =
      answer (λ _. empty_response) (create_service env vs (unmarshal_service body) s)
  serve now (patch_service vs none) s = (error_response 400, s)
  serve now (patch_service vs (some body)) s =
      answer (λ _. empty_response) (update_service env vs (unmarshal_service body) s)
  serve now (put_backend vs rs none) s = (error_response 400, s)
  serve now (put_backend vs rs (some body)) s =
      answer (λ _. empty_response) (create_backend env now vs rs (unmarshal_backend body) s)
  serve now (patch_backend vs rs none) s = (error_response 400, s)
  serve now (patch_backend vs rs (some body)) s =
      answer (λ _. empty_response) (update_backend env vs rs body.weight s)
  serve now (delete_service vs) s = answer (λ _. empty_response) (remove_service env vs s)
  serve now (delete_backend vs rs) s = answer (λ _. empty_response) (remove_backend env vs rs s)
  serve now list_all s = (services_response (list_services s.ctx), s)
  serve now (service_status vs) s = (write service_response (get_service s.ctx vs), s)
  serve now (backend_status vs rs) s = (write backend_response (get_backend s.ctx rs), s)
