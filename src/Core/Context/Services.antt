-- ===== src/Core/Context/Services.antt =====
-- core/context.go: creating, updating and removing a virtual service.
use gorb.Prelude.{
  Text_eq, Bool, true, ◌&&◌, Option, none, some, List, [], ◌∷◌, nat_eq, if◌then◌else◌, ◌==◌,
}
use gorb.Prelude.Text.{Text}
use gorb.Prelude.Map.{Map, lookup, insert, delete, keys}
use gorb.Prelude.Exec.{
  Exec, ok, panic, object_exists, immutable_endpoint, netlink_error, pure, throw, lift, ◌>>=◌, ◌>>◌,
}
use gorb.System.{Env, Trace, attempt, perform, addr_add, addr_del}
use gorb.Util.Net.{to_16, same_text}
use gorb.Disco
use gorb.Ipvs
use gorb.Pulse.Driver.{stop}
use gorb.Core.Options.{ServiceOptions, fill_service}
use gorb.Core.Store
use gorb.Core.Context.{
  Service, Backend, M, on_trace, ignore, as_ipvs, get_ctx, set_services, set_backends, take_addr,
  found, when_some, flag_list, require,
}

module _ (env : Env) where
  -- The options once the address is on the interface: a failure is logged only.
  abbrev pub add_vip : Option Text → ServiceOptions → Exec Trace ServiceOptions
  add_vip none o = pure o
  add_vip (some link) o = do
    added ← perform env (addr_add link (to_16 o.host_ip))
    pure (if added then record o { del_if_addr = true } else o)

  abbrev pub del_vip : Option Text → ServiceOptions → Exec Trace Unit
  del_vip none o = pure tt
  del_vip (some link) o =
      if o.del_if_addr then attempt env (addr_del link (to_16 o.host_ip)) netlink_error else pure tt

abbrev pub same_endpoint : ServiceOptions → ServiceOptions → Bool
same_endpoint old o =
    same_text old.host_ip o.host_ip && nat_eq old.port o.port && old.protocol == o.protocol

module _ (env : Env) {A : Type 0} where
  abbrev pub absent : Option Service → M A Unit
  absent none = pure tt
  absent (some vs) = throw object_exists

  -- `ctx.services[vsID] = &service{options: opts}`
  abbrev pub register : Text → ServiceOptions → M A Unit
  register vs_id o = do
    addr ← take_addr
    ctx ← get_ctx
    set_services (insert vs_id (record { addr = addr; options = o }) ctx.services)

  abbrev pub expose : Text → ServiceOptions → M A Unit
  expose vs_id o = do
    ctx ← get_ctx
    ignore (on_trace (Disco.expose env ctx.disco vs_id o.host_ip o.port))

  -- `createService`
  unfoldable pub create_service : Text → ServiceOptions → M A Unit
  create_service vs_id opts = do
    ctx ← get_ctx
    filled ← on_trace (fill_service env ctx.endpoint opts)
    absent (lookup vs_id ctx.services)
    o ← on_trace (add_vip env ctx.vip_interface filled)
    on_trace (when_some ctx.store λ store. Store.create_service env store vs_id o)
    as_ipvs
        (on_trace (Ipvs.add_service env o.host_ip o.port o.protocol o.method (flag_list o.flags)))
    register vs_id o
    expose vs_id o

  -- `updateService` of a service that exists, with options that have been filled
  unfoldable pub replace_service : Text → Service → ServiceOptions → M A Unit
  replace_service vs_id old o = do
    require (same_endpoint old.options o) immutable_endpoint
    ctx ← get_ctx
    on_trace (when_some ctx.store λ store. Store.update_service env store vs_id o)
    as_ipvs (
        on_trace (Ipvs.change_service env o.host_ip o.port o.protocol o.method (flag_list o.flags)))
    register vs_id o
    expose vs_id o

  abbrev pub update_or_create : Text → ServiceOptions → Option Service → M A Unit
  update_or_create vs_id o none = create_service vs_id o
  update_or_create vs_id o (some old) = replace_service vs_id old o

  -- `updateService`
  unfoldable pub update_service : Text → ServiceOptions → M A Unit
  unfolding create_service replace_service
  update_service vs_id opts = do
    ctx ← get_ctx
    o ← on_trace (fill_service env ctx.endpoint opts)
    update_or_create vs_id o (lookup vs_id ctx.services)

  -- The body of the loop of `removeService` for a backend of the service.
  unfoldable pub clean_up_backend : Text → Backend A → M A Unit
  clean_up_backend rs_id b = do
    _ ← lift (stop b.monitor)
    ctx ← get_ctx
    set_backends (delete rs_id ctx.backends)
    ignore (on_trace (when_some ctx.store λ store. Store.remove_backend env store rs_id))

  -- One round of the loop: the pointers to the service are compared.
  unfoldable pub visit : Service → Text → Backend A → M A Unit
  visit vs rs_id b = if nat_eq b.service.addr vs.addr then clean_up_backend rs_id b else pure tt

  unfoldable pub clean_up : Service → Map Text (Backend A) → M A Unit
  clean_up vs [] = pure tt
  clean_up vs ((rs_id, b) ∷ rest) = visit vs rs_id b >> clean_up vs rest

  -- `removeService`
  unfoldable pub remove_service : Text → M A ServiceOptions
  remove_service vs_id = do
    ctx ← get_ctx
    vs ← found (lookup vs_id ctx.services)
    set_services (delete vs_id ctx.services)
    ignore (on_trace (del_vip env ctx.vip_interface vs.options))
    as_ipvs
        (on_trace (Ipvs.remove_service env vs.options.host_ip vs.options.port vs.options.protocol))
    ignore (on_trace (when_some ctx.store λ store. Store.remove_service env store vs_id))
    clean_up vs ctx.backends
    ignore (on_trace (Disco.remove env ctx.disco vs_id))
    pure vs.options

  -- `for vsID := range ctx.services { ctx.RemoveService(vsID) }`
  remove_all : List Text → M A Unit
  remove_all [] = pure tt
  remove_all (vs_id ∷ rest) = ignore (remove_service vs_id) >> remove_all rest

  abbrev close_stop : M A Unit
  close_stop s =
      if s.ctx.stopped
      then (panic, s)
      else (ok tt, record s { ctx = record s.ctx { stopped = true } })

  -- `Close`
  unfoldable pub close : M A Unit
  unfolding remove_all remove_service
  close = do close_stop; ctx ← get_ctx; remove_all (keys ctx.services)
