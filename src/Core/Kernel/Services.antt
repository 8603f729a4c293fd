-- ===== src/Core/Kernel/Services.antt =====
-- Creating, updating and removing a service keeps the context and IPVS together.
use gorb.Prelude.{
  Text_eq, ◌≡◌, refl, sym, ap, subst, true, Option, none, some, nat_eq_iff, arith, Bool-cases, inl,
  inr, ◌+◌,
}
use gorb.Prelude.Text.{Text}
use gorb.Prelude.Map.{lookup, insert}
use gorb.Prelude.Exec.{Exec, Outcome, ok, err, panic, continue, ◌>>=◌, ◌>>◌}
use gorb.System.{Env, Trace}
use gorb.Util.Net.{to_16, same_text}
use gorb.Ipvs
use gorb.Ipvs.{protocol_number}
use gorb.Ipvs.Table.{
  Key, IsKernel, Same, Neutral, IsAdded, add_service-IsAdded, change_service-Neutral,
}
use gorb.Core.Options.{ServiceOptions, fill_service}
use gorb.Core.Store
use gorb.Core.Context.{Service, State, M, on_trace, as_ipvs, blame, when_some, flag_list}
use gorb.Core.Context.Services.{
  add_vip, absent, register, expose, create_service, replace_service, update_or_create,
  update_service, same_endpoint,
}
use gorb.Core.Kernel.{HasKey, IsServed, IsServed-Same, IsServed-insert, IsServed-replace}
use gorb.Core.Kernel.Neutral.{
  fill_service-Neutral, add_vip-Neutral, store_create_service-Neutral, store_update_service-Neutral,
  expose-Neutral,
}

same_key :
    (old new : Service)
    → same_endpoint old.options new.options ≡ true
    → ((q : Key) → HasKey old q → HasKey new q) × ((q : Key) → HasKey new q → HasKey old q)
unfolding same_text
same_key old new same =
    let host =
      (Text_eq.same_iff (to_16 old.options.host_ip) (to_16 new.options.host_ip)).0 (ground arith) in
    let port = (nat_eq_iff old.options.port new.options.port).0 (ground arith) in
    let protocol = (Text_eq.same_iff old.options.protocol new.options.protocol).0 (ground arith) in
    (
      λ q (n, p, e). (n, rw (← protocol) p, rw (← host, ← port) e),
      λ q (n, p, e). (n, rw protocol p, rw (host, port) e),
    )

module _ (env : Env) {A : Type 0} where
  -- IPVS has the services of the daemon.
  abbrev pub Served : State A → Type 0
  Served s = IsServed env s.ctx.services s.trace

  pub Served-Same :
      (s t : State A)
      → t.ctx.services ≡ s.ctx.services
      → Same env t.trace s.trace
      → Served s
      → Served t
  Served-Same s t e same v =
      subst (λ m. IsServed env m t.trace) (sym e)
        (IsServed-Same env s.ctx.services s.trace t.trace same v)

  -- A call outside that makes and deletes no service.
  pub neutral_rule :
      {B C : Type 0} (m : Exec Trace B) (k : B → M A C) (s : State A)
      → Neutral env m
      → Served s
      → ((b : B) (u : Trace)
          → m s.trace ≡ (ok b, u)
          → Served (record s { trace = u })
          → Served (k b (record s { trace = u })).1)
      → Served ((on_trace m >>= k) s).1
  neutral_rule {B} m k s neutral v rest = go (m s.trace) (neutral s.trace) refl
    where
      go :
          (r : Outcome B × Trace)
          → Same env r.1 s.trace
          → m s.trace ≡ r
          → Served (continue r.0 k (record s { trace = r.1 })).1
      go (ok b, u) same e = rest b u e (Served-Same s (record s { trace = u }) refl same v)
      go (err x, u) same e = Served-Same s (record s { trace = u }) refl same v
      go (panic, u) same e = Served-Same s (record s { trace = u }) refl same v

  pub neutral_ipvs_rule :
      {B C : Type 0} (m : Exec Trace B) (k : B → M A C) (s : State A)
      → Neutral env m
      → Served s
      → ((b : B) (u : Trace)
          → Served (record s { trace = u })
          → Served (k b (record s { trace = u })).1)
      → Served ((as_ipvs (on_trace m) >>= k) s).1
  neutral_ipvs_rule {B} m k s neutral v rest = go (m s.trace) (neutral s.trace)
    where
      go :
          (r : Outcome B × Trace)
          → Same env r.1 s.trace
          → Served (continue (blame r.0) k (record s { trace = r.1 })).1
      go (ok b, u) same = rest b u (Served-Same s (record s { trace = u }) refl same v)
      go (err x, u) same = Served-Same s (record s { trace = u }) refl same v
      go (panic, u) same = Served-Same s (record s { trace = u }) refl same v

  exposed :
      (vs_id : Text) (o : ServiceOptions) (s : State A) → Served s → Served (expose env vs_id o s).1
  exposed vs_id o s v =
      Served-Same s (expose env vs_id o s).1 refl
        (expose-Neutral env s.ctx.disco vs_id o.host_ip o.port s.trace) v

  install-Served :
      (vs_id : Text) (o : ServiceOptions) (s : State A)
      → IsKernel env
      → Served s
      → lookup vs_id s.ctx.services ≡ none
      → Served
          ((as_ipvs (
                on_trace
                  (Ipvs.add_service env o.host_ip o.port o.protocol o.method (flag_list o.flags)))
              >> (register env vs_id o >> expose env vs_id o))
            s).1
  install-Served vs_id o s kernel v free =
      go (Ipvs.add_service env o.host_ip o.port o.protocol o.method (flag_list o.flags) s.trace)
        (add_service-IsAdded env o.host_ip o.port o.protocol o.method (flag_list o.flags) s.trace)
    where
      go :
          (r : Outcome Unit × Trace)
          → IsAdded env o.host_ip o.port o.protocol s.trace r
          → Served
              (continue
                (blame r.0)
                (λ _. register env vs_id o >> expose env vs_id o)
                (record s { trace = r.1 })).1
      go (ok u, t) (inl (e, q, same)) = absurd cc
      go (err x, t) (inl (e, q, same)) = Served-Same s (record s { trace = t }) refl same v
      go (panic, t) (inl (e, q, same)) = absurd cc
      go (err x, t) (inr (n, p, (svc, key, done, q))) = absurd cc
      go (panic, t) (inr (n, p, (svc, key, done, q))) = absurd cc
      go (ok u, t) (inr (n, p, (svc, key, done, q))) =
          let new : Service = record { addr = s.ctx.next_addr; options = o } in
          exposed vs_id o
            (record {
              ctx = record s.ctx {
                services = insert vs_id new s.ctx.services;
                next_addr = s.ctx.next_addr + 1;
              };
              trace = t;
            })
            (subst (IsServed env (insert vs_id new s.ctx.services)) (ap (λ z. z.1) (sym q)) (
              IsServed-insert env kernel s.ctx.services s.trace v vs_id svc new (n, p, sym key) free
                done))

  absent_rule :
      (o : Option Service) (k : Unit {0} → M A Unit) (s : State A)
      → Served s
      → (o ≡ none → Served (k tt s).1)
      → Served ((absent env o >>= k) s).1
  absent_rule none k s v free = free refl
  absent_rule (some vs) k s v free = v

  pub create_service-Served :
      (vs_id : Text) (opts : ServiceOptions) (s : State A)
      → IsKernel env
      → Served s
      → Served (create_service env vs_id opts s).1
  unfolding create_service
  create_service-Served vs_id opts s kernel v =
      neutral_rule (fill_service env s.ctx.endpoint opts) _ s
        (fill_service-Neutral env s.ctx.endpoint opts) v
        λ filled t _ v1.
          absent_rule (lookup vs_id s.ctx.services) _ (record s { trace = t }) v1
            λ free.
              neutral_rule (add_vip env s.ctx.vip_interface filled) _ (record s { trace = t })
                (add_vip-Neutral env s.ctx.vip_interface filled) v1
                λ o u _ v2.
                  neutral_rule
                    (when_some s.ctx.store λ store. Store.create_service env store vs_id o) _
                    (record s { trace = u }) (store_create_service-Neutral env s.ctx.store vs_id o)
                    v2 λ _ w _ v3. install-Served vs_id o (record s { trace = w }) kernel v3 free

  replace_service-Served :
      (vs_id : Text) (old : Service) (o : ServiceOptions) (s : State A)
      → lookup vs_id s.ctx.services ≡ some old
      → Served s
      → Served (replace_service env vs_id old o s).1
  unfolding replace_service
  replace_service-Served vs_id old o s there v = elim (Bool-cases (same_endpoint old.options o)) [
    | inr other ↦ rw other v
    | inl same ↦ rw same (
        neutral_rule (when_some s.ctx.store λ store. Store.update_service env store vs_id o) _ s
          (store_update_service-Neutral env s.ctx.store vs_id o) v
          λ _ t _ v1.
            neutral_ipvs_rule
              (Ipvs.change_service env o.host_ip o.port o.protocol o.method (flag_list o.flags)) _
              (record s { trace = t })
              (change_service-Neutral env o.host_ip o.port o.protocol o.method (flag_list o.flags))
              v1
              λ _ u v2.
                let new : Service = record { addr = s.ctx.next_addr; options = o } in
                let (to_new, to_old) = same_key old new same in
                exposed vs_id o
                  (record {
                    ctx = record s.ctx {
                      services = insert vs_id new s.ctx.services;
                      next_addr = s.ctx.next_addr + 1;
                    };
                    trace = u;
                  })
                  (IsServed-replace env s.ctx.services u vs_id old new v2 there to_new to_old))
  ]

  pub update_service-Served :
      (vs_id : Text) (opts : ServiceOptions) (s : State A)
      → IsKernel env
      → Served s
      → Served (update_service env vs_id opts s).1
  unfolding update_service
  update_service-Served vs_id opts s kernel v =
      neutral_rule (fill_service env s.ctx.endpoint opts) _ s
        (fill_service-Neutral env s.ctx.endpoint opts) v
        λ filled t _ v1. go filled t (lookup vs_id s.ctx.services) refl v1
    where
      go :
          (o : ServiceOptions) (t : Trace) (known : Option Service)
          → lookup vs_id s.ctx.services ≡ known
          → Served (record s { trace = t })
          → Served (update_or_create env vs_id o known (record s { trace = t })).1
      go o t none e v = create_service-Served vs_id o (record s { trace = t }) kernel v
      go o t (some old) e v = replace_service-Served vs_id old o (record s { trace = t }) e v
