-- ===== src/Tests/Sync.antt =====
-- The theorems on Synchronize, at a store whose documents leave defaults out.
use gorb.Prelude.{
  Text_eq, ℕ, ◌≡◌, ◌≢◌, refl, Bool, true, false, none, some, [], ◌∷◌, if◌then◌else◌, arith, All,
}
use gorb.Prelude.Text.{Text, text, to_lower, split}
use gorb.Prelude.Map.{Map, lookup, insert, IsUnique}
use gorb.Prelude.Exec.{Outcome, ok, err, panic, ◌>>◌}
use gorb.Util.Interval.{parse_interval}
use gorb.Disco
use gorb.Ipvs
use gorb.Pulse.Options.{validate}
use gorb.Pulse.Driver.{new_driver, new_pulse}
use gorb.Core.Options.{ServiceOptions, BackendOptions, fill_service}
use gorb.Core.Store
use gorb.Core.Store.{unmarshal_service, unmarshal_backend}
use gorb.Core.Context.{Service, Backend, State, ignore}
use gorb.Core.Context.Services.{create_service, remove_service}
use gorb.Core.Context.Detach.{halted}
use gorb.Core.Sync.{refresh_service, synchronize}
use gorb.Core.Sync.Services.{Follows}
use gorb.Core.Sync.Backends.{FollowsBackend}
use gorb.Core.Sync.Defaults.{is_explicit, refresh_service-create_service}
use gorb.Core.Sync.Followed.{synchronize-Follows}
use gorb.Core.Sync.Total.{IsRunning}
use gorb.Core.Sync.Returning.{synchronize-returns}
use gorb.Core.Sync.Stuck.{synchronize-stuck}
use gorb.Tests.Fixtures.{
  accepting, refusing, fixed, blank, serving, web, backend_a, backend_b, web_body, backend_body,
  running_backend,
}

abbrev services : Map Text ServiceOptions
services = (web, unmarshal_service web_body) ∷ []

-- A backend that the context has, and one for another service.
abbrev backends : Map Text BackendOptions
backends =
    (backend_a, record (unmarshal_backend backend_body) { vs_id = web })
    ∷ (text "c", record (unmarshal_backend backend_body) { vs_id = text "mail" })
    ∷ []

services-IsUnique : IsUnique services
unfolding lookup
services-IsUnique = (refl, tt)

backends-IsUnique : IsUnique backends
unfolding lookup
backends-IsUnique = (refl, (refl, tt))

serving-IsUnique : IsUnique serving.ctx.backends
unfolding lookup
serving-IsUnique = (refl, (refl, tt))

serving-IsRunning :
    (id : Text) (b : Backend ℕ) → lookup id serving.ctx.backends ≡ some b → IsRunning b
unfolding lookup
serving-IsRunning id b h = ground arith

abbrev is_panic : {B : Type 0} → Outcome B → Bool
is_panic (ok b) = false
is_panic (err e) = false
is_panic panic = true

no_panic : {B : Type 0} (r : Outcome B) → is_panic r ≡ false → r ≢ panic
no_panic (ok b) h e = cc
no_panic (err x) h e = cc
no_panic panic h e = cc

checkable : All (λ e. gorb.Core.Context.Total.IsCheckable ℕ 9 e.1) backends
unfolding new_pulse validate parse_interval new_driver unmarshal_backend
checkable = (λ ip port. no_panic _ refl, (λ ip port. no_panic _ refl, tt))

-- IPVS refuses everything.
synchronize-returns_example : (synchronize refusing 9 services backends serving).0 ≡ ok tt
synchronize-returns_example =
    synchronize-returns refusing 9 services backends serving serving-IsUnique serving-IsRunning
      backends-IsUnique checkable

returned : (synchronize accepting 9 services backends serving).0 ≡ ok tt
returned =
    synchronize-returns accepting 9 services backends serving serving-IsUnique serving-IsRunning
      backends-IsUnique checkable

synchronize-Follows_example :
    let s = (synchronize accepting 9 services backends serving).1 in
    ((k : Text) (vs : Service) → lookup k s.ctx.services ≡ some vs → Follows services k vs)
    × ((k : Text) (b : Backend ℕ) → lookup k s.ctx.backends ≡ some b → FollowsBackend backends k b)
synchronize-Follows_example =
    synchronize-Follows accepting 9 services backends serving services-IsUnique backends-IsUnique
      returned

-- After IPVS has refused to remove `b`.
abbrev stuck : State ℕ
stuck = record serving {
  ctx = record serving.ctx {
    backends = (backend_a, running_backend 2) ∷ (backend_b, halted (running_backend 3)) ∷ [];
  };
}

stuck-IsUnique : IsUnique stuck.ctx.backends
unfolding lookup
stuck-IsUnique = (refl, (refl, tt))

stuck-there : lookup backend_b stuck.ctx.backends ≡ some (halted (running_backend 3))
unfolding lookup
stuck-there = refl

b-gone : lookup backend_b backends ≡ none
unfolding lookup
b-gone = refl

synchronize-stuck_example : (synchronize accepting 9 services backends stuck).0 ≡ panic
synchronize-stuck_example =
    synchronize-stuck accepting 9 services backends backend_b (halted (running_backend 3)) stuck
      stuck-IsUnique stuck-there refl b-gone

abbrev made : State ℕ
made = (create_service accepting web (unmarshal_service web_body) blank).1

created : create_service accepting web (unmarshal_service web_body) blank ≡ (ok tt, made)
unfolding create_service fill_service Ipvs.valid_protocol split Ipvs.valid_flag to_lower
    Store.create_service Store.put Ipvs.add_service Ipvs.create_svc_key insert lookup Disco.expose
    unmarshal_service
created = refl

refresh_service-create_service_example :
    refresh_service accepting web (unmarshal_service web_body) (lookup web made.ctx.services) made
    ≡ (if is_explicit (unmarshal_service web_body)
        then (ok tt, made)
        else (ignore (remove_service accepting web)
              >> ignore (create_service accepting web (unmarshal_service web_body)))
            made)
refresh_service-create_service_example =
    refresh_service-create_service accepting web (unmarshal_service web_body) blank made created
