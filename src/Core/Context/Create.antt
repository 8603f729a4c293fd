-- ===== src/Core/Context/Create.antt =====
-- What creating and updating a service does to the context, on every branch.
use gorb.Prelude.{Text_eq, ◌+◌, ◌≡◌, refl, true, Option, none, some, arith}
use gorb.Prelude.Text.{Text}
use gorb.Prelude.Map.{lookup, insert}
use gorb.Prelude.Exec.{Exec, Outcome, ok, err, object_exists, immutable_endpoint, ◌>>=◌, ◌>>◌}
use gorb.System.{Env, Trace}
use gorb.Disco
use gorb.Ipvs
use gorb.Core.Options.{ServiceOptions, fill_service}
use gorb.Core.Options.Filled.{
  IsFilled, Completes, fill_service-IsFilled, fill_service-Completes, fill_service-del_if_addr,
  Completes-trans,
}
use gorb.Core.Store
use gorb.Core.Context.{Service, Context, State, M, on_trace, as_ipvs, when_some, flag_list}
use gorb.Core.Context.Calm.{expose-Calm}
use gorb.Core.Context.Rules.{Effect-mono, require_rule, ignore_lem, Effect, trace_rule, ipvs_rule}
use gorb.Core.Context.Services.{
  add_vip, update_or_create, register, expose, absent, create_service, replace_service,
  update_service, same_endpoint,
}

-- The context once a new service has been put under the name.
abbrev pub with_service : {A : Type 0} → Context A → Text → ServiceOptions → Context A
with_service c vs_id o = record c {
  services = insert vs_id (record { addr = c.next_addr; options = o }) c.services;
  next_addr = c.next_addr + 1;
}

module _ (env : Env) where
  add_vip_keeps :
      (link : Option Text) (o o' : ServiceOptions) (t t' : Trace)
      → add_vip env link o t ≡ (ok o', t')
      → (opts : ServiceOptions) → IsFilled env o
      → Completes opts o
      → IsFilled env o' × Completes opts o'
  add_vip_keeps none o o' t t' h opts v w = ground arith
  add_vip_keeps (some link) o o' t t' h opts v w = ground arith

module _ (env : Env) {A : Type 0} where
  -- The service was not there, and is now, with the options of the request completed.
  abbrev pub IsCreated : Text → ServiceOptions → Context A → Unit {0} → Context A → Type 0
  IsCreated vs_id opts c _ c' =
      (lookup vs_id c.services ≡ none)
      × ((o : ServiceOptions) × IsFilled env o × Completes opts o × (c' ≡ with_service c vs_id o))

  -- Registration with Consul changes nothing here, and its failure is no error.
  pub expose_lem :
      (vs_id : Text) (o : ServiceOptions) (s : State A)
      → (t : Trace) × (expose env vs_id o s ≡ (ok tt, record s { trace = t }))
  expose_lem vs_id o s =
      let m = Disco.expose env s.ctx.disco vs_id o.host_ip o.port in
      ((m s.trace).1, ignore_lem s m (expose-Calm env s.ctx.disco vs_id o.host_ip o.port))

  pub absent_rule :
      (P : Outcome Unit × State A → Type 0) (k : Unit {0} → M A Unit) (o : Option Service)
      (s : State A)
      → P (err object_exists, s)
      → (o ≡ none → P (k tt s))
      → P ((absent env o >>= k) s)
  absent_rule P k none s there gone = gone refl
  absent_rule P k (some vs) s there gone = there

  -- The end that creating and updating share.
  install_Effect :
      (m n : Exec Trace Unit) (vs_id : Text) (o : ServiceOptions) (s : State A)
      (Q : Context A → Type 0)
      → Q (with_service s.ctx vs_id o)
      → Effect s.ctx
          (λ _. Q)
          ((on_trace m >> (as_ipvs (on_trace n) >> (register env vs_id o >> expose env vs_id o))) s)
  install_Effect m n vs_id o s Q q =
      trace_rule (Effect s.ctx (λ _. Q)) _ s m (λ e t. refl) (λ t. refl)
        λ _ t _.
          ipvs_rule (Effect s.ctx (λ _. Q)) _ _ n (λ t. refl) (λ t. refl)
            λ _ u _.
              rw ((expose_lem vs_id o (record { ctx = with_service s.ctx vs_id o; trace = u })).1) q

  -- Creating a service leaves the context as it was if it fails. If it succeeds, the name was free,
  -- and the context differs by a service with a fresh pointer under the name, whose options are those
  -- of the request with the defaults filled in, and valid.
  pub create_service-Effect :
      (vs_id : Text) (opts : ServiceOptions) (s : State A)
      → Effect s.ctx (IsCreated vs_id opts s.ctx) (create_service env vs_id opts s)
  unfolding create_service
  create_service-Effect vs_id opts s =
      trace_rule E _ s (fill_service env s.ctx.endpoint opts) (λ e t. refl) (λ t. refl)
        λ filled t filled_e. absent_rule E _ (lookup vs_id s.ctx.services) _ refl λ gone.
          trace_rule E _ _ (add_vip env s.ctx.vip_interface filled) (λ e t. refl) (λ t. refl)
            λ o u vip_e.
              let (v, w) =
                add_vip_keeps env s.ctx.vip_interface filled o t u vip_e opts
                  (fill_service-IsFilled env s.ctx.endpoint opts filled s.trace t filled_e)
                  (fill_service-Completes env s.ctx.endpoint opts filled s.trace t filled_e) in
              install_Effect (when_some s.ctx.store λ store. Store.create_service env store vs_id o)
                (Ipvs.add_service env o.host_ip o.port o.protocol o.method (flag_list o.flags))
                vs_id o (record s { trace = u }) (IsCreated vs_id opts s.ctx tt)
                (gone, (o, v, w, refl))
    where
      E : Outcome Unit × State A → Type 0
      E = Effect s.ctx (IsCreated vs_id opts s.ctx)

  -- The name has a new service, whose endpoint is that of the service that it had before, if any.
  abbrev pub IsUpdated : Text → ServiceOptions → Context A → Unit {0} → Context A → Type 0
  IsUpdated vs_id opts c _ c' =
      (o : ServiceOptions) × IsFilled env o
      × Completes opts o
      × (c' ≡ with_service c vs_id o)
      × ((old : Service)
          → lookup vs_id c.services ≡ some old
          → (same_endpoint old.options o ≡ true) × (o.del_if_addr ≡ opts.del_if_addr))

  replace_service-Effect :
      (vs_id : Text) (old : Service) (opts o : ServiceOptions) (s : State A)
      → lookup vs_id s.ctx.services ≡ some old
      → IsFilled env o
      → Completes opts o
      → o.del_if_addr ≡ opts.del_if_addr
      → Effect s.ctx (IsUpdated vs_id opts s.ctx) (replace_service env vs_id old o s)
  unfolding replace_service
  replace_service-Effect vs_id old opts o s there v w d =
      require_rule (Effect s.ctx (IsUpdated vs_id opts s.ctx)) _ s (same_endpoint old.options o)
        immutable_endpoint (λ other. refl)
        λ same.
          install_Effect (when_some s.ctx.store λ store. Store.update_service env store vs_id o)
            (Ipvs.change_service env o.host_ip o.port o.protocol o.method (flag_list o.flags)) vs_id
            o s (IsUpdated vs_id opts s.ctx tt) (o, v, w, refl, λ vs known. (ground arith, d))

  update_or_create-Effect :
      (vs_id : Text) (opts o : ServiceOptions) (s : State A) (found : Option Service)
      → lookup vs_id s.ctx.services ≡ found
      → IsFilled env o
      → Completes opts o
      → o.del_if_addr ≡ opts.del_if_addr
      → Effect s.ctx (IsUpdated vs_id opts s.ctx) (update_or_create env vs_id o found s)
  update_or_create-Effect vs_id opts o s none gone v w d =
      Effect-mono s.ctx (IsCreated vs_id o s.ctx) (IsUpdated vs_id opts s.ctx)
        (create_service env vs_id o s)
        (λ _ _ h.
          (h.1.0, h.1.1, Completes-trans env v w h.1.2, h.1.3, λ old known. absurd (ground arith)))
        (create_service-Effect vs_id o s)
  update_or_create-Effect vs_id opts o s (some old) there v w d =
      replace_service-Effect vs_id old opts o s there v w d

  -- Updating a service leaves the context as it was if it fails. If it succeeds, the context differs
  -- by a service with a fresh pointer under the name, whose options are those of the request with the
  -- defaults filled in, and valid; a service that had the name before has the same endpoint.
  pub update_service-Effect :
      (vs_id : Text) (opts : ServiceOptions) (s : State A)
      → Effect s.ctx (IsUpdated vs_id opts s.ctx) (update_service env vs_id opts s)
  unfolding update_service
  update_service-Effect vs_id opts s =
      trace_rule (Effect s.ctx (IsUpdated vs_id opts s.ctx)) _ s
        (fill_service env s.ctx.endpoint opts) (λ e t. refl) (λ t. refl)
        λ o t filled_e.
          update_or_create-Effect vs_id opts o (record s { trace = t })
            (lookup vs_id s.ctx.services) refl
            (fill_service-IsFilled env s.ctx.endpoint opts o s.trace t filled_e)
            (fill_service-Completes env s.ctx.endpoint opts o s.trace t filled_e)
            (fill_service-del_if_addr env s.ctx.endpoint opts o s.trace t filled_e)
