-- ===== src/Core/Kernel/Backends.antt =====
-- What is done to backends makes no service in IPVS and deletes none.
use gorb.Prelude.{
  Text_eq, Pair_eq, ℕ, refl, ◌∙◌, sym, subst, Bool, true, false, [], ◌∷◌, Option, none, some,
  nat_eq, Bool-cases, inl, inr,
}
use gorb.Prelude.Text.{Text}
use gorb.Prelude.Map.{Map, lookup, insert, delete}
use gorb.Prelude.Exec.{Exec, Outcome, ok, err, panic, continue, pure, lift, Error, ◌>>=◌, ◌>>◌}
use gorb.System.{Env, Trace}
use gorb.Util.Net.{addr_family, family_eq}
use gorb.Ipvs
use gorb.Pulse.Floats.{Floats}
use gorb.Pulse.Driver.{stop, new_pulse}
use gorb.Pulse.Status.{StatusType, up, down, removed}
use gorb.Pulse.Metrics.{Update}
use gorb.Ipvs.Table.{
  serves, Same, Neutral, add_dest_port-Neutral, update_dest_port-Neutral, del_dest_port-Neutral,
}
use gorb.Core.Options.{BackendOptions, fill_backend}
use gorb.Core.Store
use gorb.Core.Context.{
  Service, Backend, State, M, on_trace, ignore, as_ipvs, found, require, when_some, set_backends,
}
use gorb.Core.Context.Services.{clean_up_backend, visit, clean_up}
use gorb.Core.Context.Backends.{
  absent, pulse_of, store_backend, create_backend, update_backend, remove_backend,
}
use gorb.Core.Kernel.Neutral.{
  fill_backend-Neutral, store_backend-Neutral, store_remove_backend-Neutral,
}
use gorb.Core.Runtime.{Stash, source, try_some, unstash, stash_weight, reweight, relative_weight}
use gorb.Core.Runtime.Rules.{try_some-state}

module _ (env : Env) {A : Type 0} where
  -- An operation of the context that makes and deletes no service.
  abbrev pub IsNeutral : {B : Type 0} → M A B → Type 0
  IsNeutral m = (s : State A) → Same env (m s).1.trace s.trace

  continue-IsNeutral :
      {B C : Type 0} (r : Outcome B) (k : B → M A C) (s : State A)
      → ((b : B) → IsNeutral (k b))
      → Same env (continue r k s).1.trace s.trace
  continue-IsNeutral (ok b) k s rest = rest b s
  continue-IsNeutral (err e) k s rest = λ j. refl
  continue-IsNeutral panic k s rest = λ j. refl

  pub bind-IsNeutral :
      {B C : Type 0} (m : M A B) (k : B → M A C)
      → IsNeutral m
      → ((b : B) → IsNeutral (k b))
      → IsNeutral (m >>= k)
  bind-IsNeutral m k first rest s j = continue-IsNeutral (m s).0 k (m s).1 rest j ∙ first s j

  pub on_trace-IsNeutral : {B : Type 0} (m : Exec Trace B) → Neutral env m → IsNeutral (on_trace m)
  on_trace-IsNeutral m h s = h s.trace

  found-IsNeutral : {B : Type 0} (o : Option B) → IsNeutral (found {S = State A} o)
  found-IsNeutral none s j = refl
  found-IsNeutral (some b) s j = refl

  require-IsNeutral : (b : Bool) (e : Error) → IsNeutral (require {S = State A} b e)
  require-IsNeutral true e s j = refl
  require-IsNeutral false e s j = refl

  absent-IsNeutral : (o : Option (Backend A)) → IsNeutral (absent o)
  absent-IsNeutral none s j = refl
  absent-IsNeutral (some b) s j = refl

  pub update_backend-IsNeutral :
      (vs_id rs_id : Text) (weight : ℕ) → IsNeutral (update_backend env vs_id rs_id weight)
  unfolding update_backend
  update_backend-IsNeutral vs_id rs_id weight s =
      bind-IsNeutral (found (lookup rs_id s.ctx.backends)) _ (found-IsNeutral _)
        (λ rs.
          bind-IsNeutral
            (as_ipvs (
              on_trace (
                Ipvs.update_dest_port env rs.service.options.host_ip rs.service.options.port
                  rs.options.host_ip rs.options.port rs.service.options.protocol weight
                  rs.options.method)))
            _
            (λ t.
              update_dest_port-Neutral env rs.service.options.host_ip rs.service.options.port
                rs.options.host_ip rs.options.port rs.service.options.protocol weight
                rs.options.method t.trace)
            (λ _ t j. refl))
        s

  pub remove_backend-IsNeutral : (vs_id rs_id : Text) → IsNeutral (remove_backend env vs_id rs_id)
  unfolding remove_backend
  remove_backend-IsNeutral vs_id rs_id s =
      bind-IsNeutral (found (lookup rs_id s.ctx.backends)) _ (found-IsNeutral _)
        (λ rs.
          bind-IsNeutral
            (ignore
              (on_trace (when_some s.ctx.store λ store. Store.remove_backend env store rs_id)))
            _ (λ t. store_remove_backend-Neutral env s.ctx.store rs_id t.trace)
            (λ _.
              bind-IsNeutral (lift (stop rs.monitor)) _ (λ t j. refl)
                (λ monitor t.
                  bind-IsNeutral
                    (as_ipvs (
                      on_trace (
                        Ipvs.del_dest_port env rs.service.options.host_ip rs.service.options.port
                          rs.options.host_ip rs.options.port rs.service.options.protocol)))
                    (λ _. set_backends (delete rs_id s.ctx.backends) >> pure rs.options)
                    (λ u.
                      del_dest_port-Neutral env rs.service.options.host_ip rs.service.options.port
                        rs.options.host_ip rs.options.port rs.service.options.protocol u.trace)
                    (λ _ u j. refl)
                    (record t {
                      ctx = record t.ctx {
                        backends = insert rs_id (record rs { monitor = monitor }) s.ctx.backends;
                      };
                    }))))
        s

  clean_up_backend-IsNeutral :
      (rs_id : Text) (b : Backend A) → IsNeutral (clean_up_backend env rs_id b)
  unfolding clean_up_backend
  clean_up_backend-IsNeutral rs_id b =
      bind-IsNeutral (lift (stop b.monitor)) _ (λ t j. refl)
        (λ _ t. store_remove_backend-Neutral env t.ctx.store rs_id t.trace)

  visit-IsNeutral : (vs : Service) (rs_id : Text) (b : Backend A) → IsNeutral (visit env vs rs_id b)
  unfolding visit
  visit-IsNeutral vs rs_id b s = elim (Bool-cases (nat_eq b.service.addr vs.addr)) [
    | inl own ↦ rw own (clean_up_backend-IsNeutral rs_id b s)
    | inr other ↦ rw other (λ j. refl)
  ]

  pub clean_up-IsNeutral :
      (vs : Service) (bs : Map Text (Backend A)) → IsNeutral (clean_up env vs bs)
  unfolding clean_up
  clean_up-IsNeutral vs [] = λ s j. refl
  clean_up-IsNeutral vs ((rs_id, b) ∷ bs) =
      bind-IsNeutral (visit env vs rs_id b) (λ _. clean_up env vs bs) (visit-IsNeutral vs rs_id b)
        (λ _. clean_up-IsNeutral vs bs)

module _ (env : Env) {A : Type 0} ⦃f : Floats A⦄ where
  pub create_backend-IsNeutral :
      (now : ℕ) (vs_id rs_id : Text) (opts : BackendOptions)
      → IsNeutral env {A = A} (create_backend env now vs_id rs_id opts)
  unfolding create_backend serves
  create_backend-IsNeutral now vs_id rs_id opts =
      bind-IsNeutral env (on_trace (fill_backend env opts)) _
        (on_trace-IsNeutral env (fill_backend env opts) (fill_backend-Neutral env opts))
        (λ o.
          bind-IsNeutral env (lift (new_pulse now o.host_ip o.port (pulse_of o))) _ (λ t j. refl)
            (λ p s.
              bind-IsNeutral env (absent (lookup rs_id s.ctx.backends)) _ (absent-IsNeutral env _)
                (λ _.
                  bind-IsNeutral env (found (lookup vs_id s.ctx.services)) _ (found-IsNeutral env _)
                    (λ vs.
                      bind-IsNeutral env
                        (require
                          (family_eq (addr_family o.host_ip) (addr_family vs.options.host_ip)) _)
                        _ (require-IsNeutral env _ _)
                        (λ _.
                          bind-IsNeutral env
                            (on_trace (
                              store_backend env s.ctx.store vs_id rs_id
                                (record o { pulse = some p.1 })))
                            _
                            (λ t.
                              store_backend-Neutral env s.ctx.store vs_id rs_id
                                (record o { pulse = some p.1 }) t.trace)
                            (λ o'.
                              bind-IsNeutral env
                                (as_ipvs (
                                  on_trace (
                                    Ipvs.add_dest_port env vs.options.host_ip vs.options.port
                                      o'.host_ip o'.port vs.options.protocol o'.weight o'.method)))
                                _
                                (λ t.
                                  add_dest_port-Neutral env vs.options.host_ip vs.options.port
                                    o'.host_ip o'.port vs.options.protocol o'.weight o'.method
                                    t.trace)
                                (λ _ t j. refl)))))
                s))

  tried-IsNeutral :
      {C : Type 0} (g : Option ℕ → C) (vs_id rs_id : Text) (w : ℕ)
      → IsNeutral env {A = A} (try_some (update_backend env vs_id rs_id w) >>= λ o. pure (g o))
  tried-IsNeutral g vs_id rs_id w s =
      subst (λ (x : State A). Same env x.trace s.trace)
        (sym (try_some-state g (update_backend env vs_id rs_id w) s))
        (update_backend-IsNeutral env vs_id rs_id w s)

  unstash-IsNeutral :
      (stash : Stash) (u : Update A) (o : Option ℕ) → IsNeutral env (unstash env stash u o)
  unfolding unstash
  unstash-IsNeutral stash u none = λ s j. refl
  unstash-IsNeutral stash u (some w) =
      tried-IsNeutral _ u.vs_id u.rs_id (relative_weight w u.metrics.health)

  stash_weight-IsNeutral :
      (stash : Stash) (u : Update A) (o : Option ℕ) → IsNeutral env (stash_weight env stash u o)
  unfolding stash_weight
  stash_weight-IsNeutral stash u (some w) = λ s j. refl
  stash_weight-IsNeutral stash u none = tried-IsNeutral _ u.vs_id u.rs_id 0

  pub reweight-IsNeutral :
      (stash : Stash) (u : Update A) (status : StatusType)
      → IsNeutral env (reweight env stash u status)
  unfolding reweight
  reweight-IsNeutral stash u up = unstash-IsNeutral stash u (lookup (source u) stash)
  reweight-IsNeutral stash u down = stash_weight-IsNeutral stash u (lookup (source u) stash)
  reweight-IsNeutral stash u removed = λ s j. refl
