-- ===== src/Core/Context/Queries.antt =====
-- core/context.go: the read-only requests.
pub mod Listing
use gorb.Prelude.{
  Text_eq, ℕ, Bool, true, false, Option, none, some, List, [], ◌∷◌, ◌++◌, nat_eq, if◌then◌else◌,
  length,
}
use gorb.Prelude.Text.{Text}
use gorb.Prelude.Map.{Map, lookup, keys}
use gorb.Prelude.Exec.{Outcome, ok, err, object_not_found}
use gorb.Pulse.Floats.{Floats}
use gorb.Pulse.Metrics.{Metrics}
use gorb.Core.Options.{ServiceOptions, BackendOptions}
use gorb.Core.Context.{Service, Backend, Context}

pub record ServiceInfo (A : Type 0) : Type 0 where
  pub options : ServiceOptions
  pub health : A
  pub backends : List Text

pub record BackendInfo (A : Type 0) : Type 0 where
  pub options : BackendOptions
  pub metrics : Metrics A

-- `ListServices`
unfoldable pub list_services : {A : Type 0} → Context A → List Text
list_services ctx = keys ctx.services

module _ {A : Type 0} ⦃f : Floats A⦄ where
  -- The loop of `GetService` over the backends.
  unfoldable pub gather : Service → Map Text (Backend A) → ServiceInfo A → ServiceInfo A
  gather vs [] info = info
  gather vs ((rs_id, b) ∷ rest) info = gather vs rest (
      if nat_eq b.service.addr vs.addr
      then record info {
        health = f.add info.health b.metrics.health;
        backends = info.backends ++ rs_id ∷ [];
      }
      else info)

  abbrev average : ServiceInfo A → ServiceInfo A
  average info = record info {
    health =
        if nat_eq (length info.backends) 0
        then f.of_ℕ 1
        else f.div info.health (f.of_ℕ (length info.backends));
  }

  -- `GetService`
  unfoldable pub get_service : Context A → Text → Outcome (ServiceInfo A)
  unfolding gather
  get_service ctx vs_id = elim (lookup vs_id ctx.services) [
    | none ↦ err object_not_found
    | some vs ↦ ok (
        average (
          gather vs ctx.backends
            (record { options = vs.options; health = f.of_ℕ 0; backends = [] })))
  ]

-- `GetBackend`
unfoldable pub get_backend : {A : Type 0} → Context A → Text → Outcome (BackendInfo A)
get_backend ctx rs_id = elim (lookup rs_id ctx.backends) [
  | none ↦ err object_not_found
  | some rs ↦ ok (record { options = rs.options; metrics = rs.metrics })
]
