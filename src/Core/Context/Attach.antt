-- ===== src/Core/Context/Attach.antt =====
-- What creating a backend and changing its weight do to the context, on every branch.
use gorb.Prelude.{Text_eq, ℕ, ◌≡◌, refl, true, false, Option, none, some, arith}
use gorb.Prelude.Text.{Text}
use gorb.Prelude.Map.{lookup, insert}
use gorb.Prelude.Exec.{Outcome, ok, err, object_exists, incompatible_afs, ◌>>=◌}
use gorb.System.{Env, Trace}
use gorb.Util.Net.{Ip, addr_family, family_eq}
use gorb.Ipvs
use gorb.Pulse.Floats.{Floats}
use gorb.Pulse.Options.{PulseOptions}
use gorb.Pulse.Driver.{Pulse, new_pulse}
use gorb.Core.Options.{BackendOptions, fill_backend}
use gorb.Core.Options.Filled.{
  IsFilledBackend, CompletesBackend, fill_backend-IsFilled, fill_backend-Completes,
}
use gorb.Core.Store
use gorb.Core.Context.{Service, Backend, Context, State, M}
use gorb.Core.Context.Rules.{Effect, trace_rule, ipvs_rule, found_rule, require_rule, lift_rule}
use gorb.Core.Context.Backends.{
  pulse_of, store_backend, absent, create_backend, update_backend, zero_metrics,
}

abbrev pub with_backend : {A : Type 0} → Context A → Text → Backend A → Context A
with_backend c rs_id b = record c { backends = insert rs_id b c.backends }

module _ (env : Env) where
  store_backend_keeps :
      (store : Option Store.Store) (vs_id rs_id : Text) (o o' : BackendOptions) (t t' : Trace)
      → store_backend env store vs_id rs_id o t ≡ (ok o', t')
      → IsFilledBackend env o
      → (IsFilledBackend env o' × (o'.host_ip ≡ o.host_ip))
        × ((opts : BackendOptions) → CompletesBackend opts o → CompletesBackend opts o')
  unfolding Store.create_backend
  store_backend_keeps none vs_id rs_id o o' t t' h v = ground arith
  store_backend_keeps (some store) vs_id rs_id o o' t t' h v = ground arith

module _ {A : Type 0} where
  pub absent_rule :
      (P : Outcome Unit × State A → Type 0) (k : Unit {0} → M A Unit) (o : Option (Backend A))
      (s : State A)
      → P (err object_exists, s)
      → (o ≡ none → P (k tt s))
      → P ((absent o >>= k) s)
  absent_rule P k none s there gone = gone refl
  absent_rule P k (some vs) s there gone = there

module _ (env : Env) {A : Type 0} ⦃f : Floats A⦄ where
  -- The backend was not there, and is now: the options of the request completed, valid, a service that is registered under the
  -- name and has an address of the same family, and a check that runs.
  abbrev pub IsAttached : Text → Text → BackendOptions → Context A → Unit {0} → Context A → Type 0
  IsAttached vs_id rs_id opts c _ c' =
      (lookup rs_id c.backends ≡ none)
      × ((b : Backend A) × (lookup vs_id c.services ≡ some b.service)
          × (IsFilledBackend env b.options × CompletesBackend opts b.options)
          × (family_eq (addr_family b.options.host_ip) (addr_family b.service.options.host_ip)
              ≡ true)
          × (b.monitor.stopped ≡ false)
          × (c' ≡ with_backend c rs_id b))

  new_pulse-running :
      (now : ℕ) (host : Ip) (port : ℕ) (o o' : PulseOptions) (p : Pulse A)
      → new_pulse now host port o ≡ ok (p, o')
      → p.stopped ≡ false
  unfolding new_pulse
  new_pulse-running now host port o o' p h = ground arith

  attached :
      (vs_id rs_id : Text) (c : Context A) (now : ℕ) (vs : Service) (opts o o' : BackendOptions)
      (p : Pulse A × PulseOptions) (s t u : Trace)
      → lookup rs_id c.backends ≡ none
      → lookup vs_id c.services ≡ some vs
      → fill_backend env opts s ≡ (ok o, t)
      → family_eq (addr_family o.host_ip) (addr_family vs.options.host_ip) ≡ true
      → new_pulse now o.host_ip o.port (pulse_of o) ≡ ok p
      → store_backend env c.store vs_id rs_id (record o { pulse = some p.1 }) t ≡ (ok o', u)
      → IsAttached vs_id rs_id opts c tt (
          with_backend c rs_id
            (record { options = o'; service = vs; monitor = p.0; metrics = zero_metrics }))
  attached vs_id rs_id c now vs opts o o' p s t u gone there filled_e same pulse_e store_e =
      let v = fill_backend-IsFilled env opts o s t filled_e in
      let ((w, ip), same_options) =
        store_backend_keeps env c.store vs_id rs_id (record o { pulse = some p.1 }) o' t u store_e
          (record {
            host_set = v.host_set;
            port_set = v.port_set;
            weight_set = v.weight_set;
            method_known = v.method_known;
            method_lower = v.method_lower;
          }) in
      (
        gone,
        (
          record { options = o'; service = vs; monitor = p.0; metrics = zero_metrics },
          there,
          (w, same_options opts (complete (fill_backend-Completes env opts o s t filled_e))),
          rw ip same,
          new_pulse-running now o.host_ip o.port (pulse_of o) p.1 p.0 pulse_e,
          refl,
        ),
      )
    where
      complete : CompletesBackend opts o → CompletesBackend opts (record o { pulse = some p.1 })
      complete v = record { host = v.host; port = v.port; weight = v.weight; method = v.method }

  pub create_backend-Effect :
      (now : ℕ) (vs_id rs_id : Text) (opts : BackendOptions) (s : State A)
      → Effect s.ctx (IsAttached vs_id rs_id opts s.ctx) (create_backend env now vs_id rs_id opts s)
  unfolding create_backend
  create_backend-Effect now vs_id rs_id opts s =
      trace_rule E _ s (fill_backend env opts) (λ e t. refl) (λ t. refl)
        λ o t filled_e.
          lift_rule E _ _ (new_pulse now o.host_ip o.port (pulse_of o)) (λ e. refl) (λ h. refl)
            λ p pulse_e. absent_rule E _ (lookup rs_id s.ctx.backends) _ refl λ gone.
              found_rule E _ _ (lookup vs_id s.ctx.services) (λ h. refl)
                λ vs there.
                  require_rule E _ _
                    (family_eq (addr_family o.host_ip) (addr_family vs.options.host_ip))
                    incompatible_afs (λ h. refl)
                    λ same.
                      trace_rule E _ _
                        (store_backend env s.ctx.store vs_id rs_id (record o { pulse = some p.1 }))
                        (λ e u. refl) (λ u. refl)
                        λ o' u store_e.
                          ipvs_rule E _ (record s { trace = u })
                            (Ipvs.add_dest_port env vs.options.host_ip vs.options.port o'.host_ip
                              o'.port vs.options.protocol o'.weight o'.method)
                            (λ v. refl) (λ v. refl)
                            λ _ v _.
                              attached vs_id rs_id s.ctx now vs opts o o' p s.trace t u gone there
                                filled_e same pulse_e store_e
    where
      E : Outcome Unit × State A → Type 0
      E = Effect s.ctx (IsAttached vs_id rs_id opts s.ctx)

module _ {A : Type 0} where
  -- The old weight is returned, and only the weight of the backend changes.
  abbrev pub IsReweighted : Text → ℕ → Context A → ℕ → Context A → Type 0
  IsReweighted rs_id weight c old c' =
      (b : Backend A) × (lookup rs_id c.backends ≡ some b)
      × (old ≡ b.options.weight)
      × (c' ≡ with_backend c rs_id (record b { options = record b.options { weight = weight } }))

module _ (env : Env) {A : Type 0} where
  pub update_backend-Effect :
      (vs_id rs_id : Text) (weight : ℕ) (s : State A)
      → Effect s.ctx (IsReweighted rs_id weight s.ctx) (update_backend env vs_id rs_id weight s)
  unfolding update_backend
  update_backend-Effect vs_id rs_id weight s =
      found_rule E _ _ (lookup rs_id s.ctx.backends) (λ h. refl)
        λ b there.
          ipvs_rule E _ s
            (Ipvs.update_dest_port env b.service.options.host_ip b.service.options.port
              b.options.host_ip b.options.port b.service.options.protocol weight b.options.method)
            (λ t. refl) (λ t. refl) λ _ t _. (b, there, refl, refl)
    where
      E : Outcome ℕ × State A → Type 0
      E = Effect s.ctx (IsReweighted rs_id weight s.ctx)
