-- ===== src/Core/Kernel/Remove.antt =====
-- Removing a service takes it from the context and from IPVS.
use gorb.Prelude.{Text_eq, ◌≡◌, refl, ◌∙◌, sym, ap, subst, ◌≢◌, ◌∷◌}
use gorb.Prelude.Text.{Text}
use gorb.Prelude.Map.{Map, lookup, delete}
use gorb.Prelude.Exec.{Exec, Outcome, ok, err, panic, continue, pure, ◌>>=◌, ◌>>◌}
use gorb.System.{Env, Trace, del_service}
use gorb.Disco
use gorb.Ipvs
use gorb.Ipvs.Table.{serves, IsKernel, Same, Neutral, remove_service-held}
use gorb.Core.Store
use gorb.Core.Context.{
  Service, Backend, Context, State, M, on_trace, ignore, as_ipvs, drop_error, blame, when_some,
}
use gorb.Core.Context.Services.{del_vip, clean_up, remove_service}
use gorb.Core.Context.Rules.{Calm, found_rule}
use gorb.Core.Context.Calm.{del_vip-Calm, disco_remove-Calm, store_remove_service-Calm}
use gorb.Core.Context.Remove.{CleansUp, clean_up-CleansUp}
use gorb.Core.Kernel.{IsServed-delete}
use gorb.Core.Kernel.Neutral.{del_vip-Neutral, store_remove_service-Neutral, disco_remove-Neutral}
use gorb.Core.Kernel.Backends.{clean_up-IsNeutral}
use gorb.Core.Kernel.Services.{Served, Served-Same}

module _ (env : Env) {A : Type 0} where
  module _ {B C : Type 0} (m : Exec Trace B) (s : State A) where
    -- A call that does not panic, whose error is ignored.
    ignored_rule :
        (k : Unit {0} → M A C)
        → Calm m
        → Neutral env m
        → ((t : Trace) → Same env t s.trace → Served env (k tt (record s { trace = t })).1)
        → Served env ((ignore (on_trace m) >>= k) s).1
    ignored_rule k calm neutral rest = go (m s.trace) (calm s.trace) (neutral s.trace)
      where
        go :
            (r : Outcome B × Trace)
            → r.0 ≢ panic
            → Same env r.1 s.trace
            → Served env (continue (drop_error r.0) k (record s { trace = r.1 })).1
        go (ok b, t) fine same = rest t same
        go (err e, t) fine same = rest t same
        go (panic, t) fine same = absurd (fine refl)

    done_rule :
        (k : B → M A C) (b : B) (t : Trace)
        → m s.trace ≡ (ok b, t)
        → Served env (k b (record s { trace = t })).1
        → Served env ((as_ipvs (on_trace m) >>= k) s).1
    done_rule k b t e v =
        subst
          (λ (r : Outcome B × Trace).
            Served env (continue (blame r.0) k (record s { trace = r.1 })).1)
          (sym e) v

  cleaned :
      (vs_id : Text) (vs : Service) (bs : Map Text (Backend A)) (s : State A)
      → Served env s
      → Served env
          ((clean_up env vs bs
              >> (ignore (on_trace (Disco.remove env s.ctx.disco vs_id)) >> pure vs.options))
            s).1
  cleaned vs_id vs bs s v =
      go (clean_up env vs bs s) (clean_up-CleansUp env vs bs s) (clean_up-IsNeutral env vs bs s)
    where
      go :
          (r : Outcome Unit × State A)
          → CleansUp vs bs s.ctx r
          → Same env r.1.trace s.trace
          → Served env
              (continue r.0
                (λ _. ignore (on_trace (Disco.remove env s.ctx.disco vs_id)) >> pure vs.options)
                r.1).1
      go (ok u, t) (running, e) same =
          let w = Served-Same env s t (ap (λ (c : Context A). c.services) e) same v in
          ignored_rule (Disco.remove env s.ctx.disco vs_id) t _
            (disco_remove-Calm env s.ctx.disco vs_id) (disco_remove-Neutral env s.ctx.disco vs_id)
            λ u same'. Served-Same env t (record t { trace = u }) refl same' w
      go (err x, t) h same = absurd h
      go (panic, t) (halted, (m, fewer, e)) same =
          Served-Same env s t (ap (λ (c : Context A). c.services) e) same v

  pub remove_service-Served :
      (vs_id : Text) (s : State A)
      → IsKernel env
      → Served env s
      → Served env (remove_service env vs_id s).1
  unfolding remove_service
  remove_service-Served vs_id s kernel v =
      found_rule (λ r. Served env r.1) _ s (lookup vs_id s.ctx.services) (λ _. v)
        λ vs there.
          let gone : Context A = record s.ctx { services = delete vs_id s.ctx.services } in
          let (q, (n, p, key), on) = v.held vs_id vs there in
          ignored_rule (del_vip env s.ctx.vip_interface vs.options) (record s { ctx = gone }) _
            (del_vip-Calm env s.ctx.vip_interface vs.options)
            (del_vip-Neutral env s.ctx.vip_interface vs.options)
            λ t same.
              let (svc, own, accepted, e) =
                remove_service-held env vs.options.host_ip vs.options.port vs.options.protocol n t
                  kernel p (ap (serves env.accepts t) key ∙ same q ∙ on) in
              let w = Served-Same env s (record s { trace = t }) refl same v in
              done_rule
                (Ipvs.remove_service env vs.options.host_ip vs.options.port vs.options.protocol)
                (record { ctx = gone; trace = t }) _ tt (del_service svc ∷ t) e
                (ignored_rule (when_some s.ctx.store λ store. Store.remove_service env store vs_id)
                  (record { ctx = gone; trace = del_service svc ∷ t }) _
                  (store_remove_service-Calm env s.ctx.store vs_id)
                  (store_remove_service-Neutral env s.ctx.store vs_id)
                  λ u same'.
                    cleaned vs_id vs s.ctx.backends (record { ctx = gone; trace = u })
                      (Served-Same env (record { ctx = gone; trace = del_service svc ∷ t })
                        (record { ctx = gone; trace = u }) refl same'
                        (IsServed-delete env kernel s.ctx.services t w vs_id svc vs (n, p, sym own)
                          there accepted)))
