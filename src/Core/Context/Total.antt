-- ===== src/Core/Context/Total.antt =====
-- Creating a service never panics, and creating a backend does only if its check does.
use gorb.Prelude.{Text_eq, ℕ, ◌≢◌, ◌≡◌, refl, some, subst}
use gorb.Prelude.Text.{Text}
use gorb.Prelude.Map.{lookup}
use gorb.Prelude.Exec.{Outcome, panic}
use gorb.System.{Env, Trace}
use gorb.Util.Net.{Ip, addr_family, family_eq}
use gorb.Ipvs
use gorb.Pulse.Floats.{Floats}
use gorb.Pulse.Driver.{new_pulse}
use gorb.Core.Options.{ServiceOptions, BackendOptions, fill_service, fill_backend}
use gorb.Core.Options.Total.{
  fill_service-ne_panic, fill_backend-ne_panic, IsPulseOf, fill_backend-pulse,
}
use gorb.Core.Store
use gorb.Core.Context.{Context, State, when_some, flag_list}
use gorb.Core.Context.Rules.{calm_trace_rule, calm_ipvs_rule, found_rule, require_rule, lift_rule}
use gorb.Core.Context.Calm.{
  add_vip-Calm, store_create_service-Calm, store_backend-Calm, add_service-Calm, add_dest_port-Calm,
}
use gorb.Core.Context.Services.{create_service, add_vip}
use gorb.Core.Context.Backends.{create_backend, store_backend, pulse_of}
use gorb.Core.Context.Create
use gorb.Core.Context.Attach

abbrev Safe : {A B : Type 0} → Outcome B × State A → Type 0
Safe r = r.0 ≢ panic

module _ (env : Env) {A : Type 0} where
  pub create_service-ne_panic :
      (vs_id : Text) (opts : ServiceOptions) (s : State A)
      → (create_service env vs_id opts s).0 ≢ panic
  unfolding create_service
  create_service-ne_panic vs_id opts s =
      calm_trace_rule Safe _ s (fill_service env s.ctx.endpoint opts)
        (fill_service-ne_panic env s.ctx.endpoint opts) (λ e t h. cc)
        λ filled t _.
          Create.absent_rule env Safe _ (lookup vs_id s.ctx.services) _ (λ h. cc)
            λ gone.
              calm_trace_rule Safe _ _ (add_vip env s.ctx.vip_interface filled)
                (add_vip-Calm env s.ctx.vip_interface filled) (λ e u h. cc)
                λ o u _.
                  calm_trace_rule Safe _ _
                    (when_some s.ctx.store λ store. Store.create_service env store vs_id o)
                    (store_create_service-Calm env s.ctx.store vs_id o) (λ e v h. cc)
                    λ _ v _.
                      calm_ipvs_rule Safe _ (record s { trace = v })
                        (Ipvs.add_service env o.host_ip o.port o.protocol o.method
                          (flag_list o.flags))
                        (add_service-Calm env o.host_ip o.port o.protocol o.method
                          (flag_list o.flags))
                        (λ w h. cc) λ _ w. exposed o w
    where
      exposed :
          (o : ServiceOptions) (w : Trace)
          → (gorb.Core.Context.Services.expose env vs_id o
              (record { ctx = Create.with_service s.ctx vs_id o; trace = w })).0
            ≢ panic
      exposed o w h =
          let (t, e) =
            Create.expose_lem env vs_id o
              (record { ctx = Create.with_service s.ctx vs_id o; trace = w }) in
          absurd cc

same_pulse : (o o' : BackendOptions) → IsPulseOf o o' → pulse_of o' ≡ pulse_of o
same_pulse o o' h = rw h refl

-- The check of a backend can be made, wherever the host is.
abbrev pub IsCheckable : (A : Type 0) ⦃f : Floats A⦄ → ℕ → BackendOptions → Type 0
IsCheckable A now o = (ip : Ip) (port : ℕ) → new_pulse {A = A} now ip port (pulse_of o) ≢ panic

module _ (env : Env) {A : Type 0} ⦃f : Floats A⦄ where
  pub create_backend-ne_panic :
      (now : ℕ) (vs_id rs_id : Text) (opts : BackendOptions) (s : State A)
      → IsCheckable A now opts
      → (create_backend env now vs_id rs_id opts s).0 ≢ panic
  unfolding create_backend
  create_backend-ne_panic now vs_id rs_id opts s checkable =
      calm_trace_rule Safe _ s (fill_backend env opts) (fill_backend-ne_panic env opts)
        (λ e t h. cc)
        λ o t filled.
          lift_rule Safe _ _ (new_pulse now o.host_ip o.port (pulse_of o)) (λ e h. cc)
            (λ h. absurd (
              checkable o.host_ip o.port (
                subst (λ p. new_pulse {A = A} now o.host_ip o.port p ≡ panic)
                  (same_pulse opts o (fill_backend-pulse env opts o s.trace t filled)) h)))
            λ p _.
              Attach.absent_rule Safe _ (lookup rs_id s.ctx.backends) _ (λ h. cc)
                λ gone.
                  found_rule Safe _ _ (lookup vs_id s.ctx.services) (λ h q. cc)
                    λ vs there.
                      require_rule Safe _ _
                        (family_eq (addr_family o.host_ip) (addr_family vs.options.host_ip)) _
                        (λ h q. cc)
                        λ same.
                          calm_trace_rule Safe _ _
                            (store_backend env s.ctx.store vs_id rs_id
                              (record o { pulse = some p.1 }))
                            (store_backend-Calm env s.ctx.store vs_id rs_id
                              (record o { pulse = some p.1 }))
                            (λ e u h. cc)
                            λ o' u _.
                              calm_ipvs_rule Safe _ (record s { trace = u })
                                (Ipvs.add_dest_port env vs.options.host_ip vs.options.port
                                  o'.host_ip o'.port vs.options.protocol o'.weight o'.method)
                                (add_dest_port-Calm env vs.options.host_ip vs.options.port
                                  o'.host_ip o'.port vs.options.protocol o'.weight o'.method)
                                (λ v h. cc) (λ _ v h. cc)
