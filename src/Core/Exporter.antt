-- ===== src/Core/Exporter.antt =====
-- core/prometheus_exporter.go: the gauges that are set from the context, in `collect`. A vector of
-- gauges maps the values of its labels to a number; handing the vectors on is the Prometheus library's.
pub mod Shown
use gorb.Prelude.{Texts_eq, Text_eq, ℕ, ◌/◌, ◌%◌, List, [], ◌∷◌, length}
use gorb.Prelude.Text.{Text}
use gorb.Prelude.Decimal.{decimal}
use gorb.Prelude.Map.{Map, insert, keys}
use gorb.Prelude.Exec.{Exec, Outcome, ok, pure, lift, ◌>>=◌, ◌>>◌}
use gorb.Util.Interval.{second}
use gorb.Pulse.Floats.{Floats}
use gorb.Pulse.Status.{status_code}
use gorb.Core.Options.{ServiceOptions, BackendOptions}
use gorb.Core.Context.{Context}
use gorb.Core.Context.Queries.{ServiceInfo, BackendInfo, get_service, get_backend}

abbrev pub GaugeVec : Type 0 → Type 0
GaugeVec A = Map (List Text) A

pub record Gauges (A : Type 0) : Type 0 where
  pub service_health : GaugeVec A
  pub service_backends : GaugeVec A
  pub backend_uptime : GaugeVec A
  pub backend_health : GaugeVec A
  pub backend_status : GaugeVec A
  pub backend_weight : GaugeVec A

-- The arguments of `WithLabelValues`
unfoldable pub service_labels : Text → ServiceOptions → List Text
service_labels name o = name ∷ o.host ∷ decimal o.port ∷ o.protocol ∷ []

unfoldable pub backend_labels : Text → Text → BackendOptions → List Text
backend_labels service_name name o = service_name ∷ name ∷ o.host ∷ decimal o.port ∷ []

module _ {A : Type 0} ⦃f : Floats A⦄ where
  -- `Duration.Seconds`
  unfoldable pub seconds : ℕ → A
  seconds d = f.add (f.of_ℕ (d / second)) (f.div (f.of_ℕ (d % second)) (f.of_ℕ second))

  abbrev pub set_service : Text → ServiceInfo A → Gauges A → Gauges A
  set_service name service g = record g {
    service_health = insert (service_labels name service.options) service.health g.service_health;
    service_backends =
        insert (service_labels name service.options) (f.of_ℕ (length service.backends))
          g.service_backends;
  }

  abbrev pub set_backend : Text → Text → BackendInfo A → Gauges A → Gauges A
  set_backend service_name name backend g =
      let labels = backend_labels service_name name backend.options in
      record g {
        backend_uptime = insert labels (seconds backend.metrics.uptime) g.backend_uptime;
        backend_health = insert labels backend.metrics.health g.backend_health;
        backend_status =
            insert labels (f.of_ℕ (status_code backend.metrics.status)) g.backend_status;
        backend_weight = insert labels (f.of_ℕ backend.options.weight) g.backend_weight;
      }

  abbrev pub update_gauges : (Gauges A → Gauges A) → Exec (Gauges A) Unit
  update_gauges change g = (ok tt, change g)

  -- The inner loop, over the names of the backends of a service.
  unfoldable pub export_backends : Context A → Text → List Text → Exec (Gauges A) Unit
  export_backends ctx service_name [] = pure tt
  export_backends ctx service_name (name ∷ names) = do
    backend ← lift (get_backend ctx name)
    update_gauges (set_backend service_name name backend)
    export_backends ctx service_name names

  unfoldable pub export_service : Context A → Text → Exec (Gauges A) Unit
  export_service ctx name = do
    service ← lift (get_service ctx name)
    update_gauges (set_service name service)
    export_backends ctx name service.backends

  unfoldable pub export_services : Context A → List Text → Exec (Gauges A) Unit
  export_services ctx [] = pure tt
  export_services ctx (name ∷ names) = do export_service ctx name; export_services ctx names

  -- `collect`
  unfoldable pub collect : Context A → Exec (Gauges A) Unit
  collect ctx = export_services ctx (keys ctx.services)
