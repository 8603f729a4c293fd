-- ===== src/Core/Context/Backends.antt =====
-- core/context.go: creating, updating and removing a backend.
use gorb.Prelude.{Text_eq, ℕ, Option, none, some, []}
use gorb.Prelude.Text.{Text}
use gorb.Prelude.Map.{lookup, insert, delete}
use gorb.Prelude.Exec.{Exec, object_exists, incompatible_afs, pure, throw, lift, ◌>>=◌, ◌>>◌}
use gorb.System.{Env, Trace, perform, start_loop}
use gorb.Util.Net.{addr_family, family_eq}
use gorb.Ipvs
use gorb.Pulse.Floats.{Floats}
use gorb.Pulse.Status.{up}
use gorb.Pulse.Options.{PulseOptions, empty_options}
use gorb.Pulse.Metrics.{Metrics}
use gorb.Pulse.Driver.{new_pulse, stop}
use gorb.Core.Options.{BackendOptions, fill_backend}
use gorb.Core.Store
use gorb.Core.Store.{Store}
use gorb.Core.Context.{
  Backend, M, on_trace, ignore, as_ipvs, get_ctx, set_backends, found, when_some, require,
}

abbrev pub pulse_of : BackendOptions → PulseOptions
pulse_of o = elim o.pulse [ none ↦ empty_options | some p ↦ p ]

module _ (env : Env) where
  abbrev pub store_backend : Option Store → Text → Text → BackendOptions → Exec Trace BackendOptions
  store_backend none vs_id rs_id o = pure o
  store_backend (some store) vs_id rs_id o = Store.create_backend env store vs_id rs_id o

abbrev pub absent : {A : Type 0} → Option (Backend A) → M A Unit
absent none = pure tt
absent (some rs) = throw object_exists

module _ {A : Type 0} ⦃f : Floats A⦄ where
  -- `pulse.Metrics{}`
  abbrev pub zero_metrics : Metrics A
  zero_metrics = record { status = up; health = f.of_ℕ 0; uptime = 0; last_ts = 0; recorded = [] }

module _ (env : Env) {A : Type 0} ⦃f : Floats A⦄ where
  -- `createBackend`, at the time `now`
  unfoldable pub create_backend : ℕ → Text → Text → BackendOptions → M A Unit
  create_backend now vs_id rs_id opts = do
    filled ← on_trace (fill_backend env opts)
    (monitor, pulse') ← lift (new_pulse now filled.host_ip filled.port (pulse_of filled))
    ctx ← get_ctx
    absent (lookup rs_id ctx.backends)
    vs ← found (lookup vs_id ctx.services)
    require (family_eq (addr_family filled.host_ip) (addr_family vs.options.host_ip))
        incompatible_afs
    o ← on_trace (store_backend env ctx.store vs_id rs_id (record filled { pulse = some pulse' }))
    as_ipvs (
        on_trace (
          Ipvs.add_dest_port env vs.options.host_ip vs.options.port o.host_ip o.port
            vs.options.protocol o.weight o.method))
    set_backends (
        insert rs_id
          (record { options = o; service = vs; monitor = monitor; metrics = zero_metrics })
          ctx.backends)
    on_trace (do started ← perform env (start_loop vs_id rs_id); pure tt)

module _ (env : Env) {A : Type 0} where
  -- `updateBackend`: the old weight is returned.
  unfoldable pub update_backend : Text → Text → ℕ → M A ℕ
  update_backend vs_id rs_id weight = do
    ctx ← get_ctx
    rs ← found (lookup rs_id ctx.backends)
    as_ipvs (
        on_trace (
          Ipvs.update_dest_port env rs.service.options.host_ip rs.service.options.port
            rs.options.host_ip rs.options.port rs.service.options.protocol weight
            rs.options.method))
    set_backends
        (insert rs_id (record rs { options = record rs.options { weight = weight } }) ctx.backends)
    pure rs.options.weight

  -- `removeBackend`
  unfoldable pub remove_backend : Text → Text → M A BackendOptions
  remove_backend vs_id rs_id = do
    ctx ← get_ctx
    rs ← found (lookup rs_id ctx.backends)
    ignore (on_trace (when_some ctx.store λ store. Store.remove_backend env store rs_id))
    monitor ← lift (stop rs.monitor)
    set_backends (insert rs_id (record rs { monitor = monitor }) ctx.backends)
    as_ipvs (
        on_trace (
          Ipvs.del_dest_port env rs.service.options.host_ip rs.service.options.port
            rs.options.host_ip rs.options.port rs.service.options.protocol))
    set_backends (delete rs_id ctx.backends)
    pure rs.options
