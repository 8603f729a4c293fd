-- ===== src/Core/Start/Started.antt =====
-- What NewContext leaves when it returns no error, and what becomes of it.
use gorb.Prelude.{
  Text_eq, ℕ, ◌≡◌, refl, sym, ap, subst, ◌∙◌, Bool, true, false, Option, none, some, List, [], ◌∷◌,
  nat_eq, Bool-cases, inl, inr, arith,
}
use gorb.Prelude.Text.{Text}
use gorb.Prelude.Map.{lookup}
use gorb.Prelude.Exec.{Outcome, ok, err, panic, Error, ◌>>=◌, throw}
use gorb.System.{Env, Trace, link_by_name}
use gorb.Util.Net.{Ip}
use gorb.Disco
use gorb.Ipvs
use gorb.Pulse.Floats.{Floats}
use gorb.Core.Context.{State, Context, on_trace, as_ipvs}
use gorb.Core.Context.Rules.{continue-ok}
use gorb.Core.Context.Services.{close}
use gorb.Core.Daemon.{Event, run}
use gorb.Core.Invariant.{IsValid}
use gorb.Core.Invariant.Run.{run-IsValid}
use gorb.Core.Start.{
  ContextOptions, first_state, choose_disco, register_rest, choose_endpoint, close_and_fail,
  flushed, flush_pools, found_interface, choose_interface, open_ipvs, with_disco, new_context,
}

abbrev first : List Ip → Option Ip
first [] = none
first (ip ∷ rest) = some ip

abbrev named : Text → Option Text
named [] = none
named (c ∷ name) = some (c ∷ name)

-- The context of the options, with nothing in it yet.
abbrev pub started : {A : Type 0} → Disco.Driver → ContextOptions → Context A
started d o = record {
  endpoint = first o.endpoints;
  services = [];
  backends = [];
  vip_interface = named o.vip_interface;
  disco = d;
  store = none;
  stopped = false;
  next_addr = 0;
}

module _ (env : Env) {A : Type 0} where
  started-IsValid : (d : Disco.Driver) (o : ContextOptions) → IsValid env {A = A} (started d o)
  unfolding lookup
  started-IsValid d o = record {
    services = λ k vs h. absurd (ground arith);
    distinct = λ j k vs ws p q e. absurd (ground arith);
    backends = λ k b h. absurd (ground arith);
    unique = tt;
  }

  register_rest-ctx :
      (ip : Ip) (port : ℕ) (s : State A) → (register_rest env ip port s).1.ctx ≡ s.ctx
  register_rest-ctx ip port s = elim (Bool-cases (nat_eq port 0)) [
    | inl e ↦ rw e refl
    | inr e ↦ rw e refl
  ]

  choose_endpoint-ctx :
      (ips : List Ip) (port : ℕ) (s : State A)
      → s.ctx.endpoint ≡ none
      → (choose_endpoint env ips port s).1.ctx ≡ record s.ctx { endpoint = first ips }
  choose_endpoint-ctx [] port s e = ap (λ x. record s.ctx { endpoint = x }) e
  choose_endpoint-ctx (ip ∷ ips) port s e = register_rest-ctx ip port _

  pub close_and_fail-fails :
      {B : Type 0} (e : Error) (s : State A) → (close_and_fail env e s).0 ≡ ok tt → B
  close_and_fail-fails e s h =
      let (u, _, failed, _) = continue-ok (close env s).0 (λ _. throw e) (close env s).1 tt h in
      absurd cc

  flushed-ctx :
      (r : Outcome Unit × Trace) (s : State A)
      → (flushed env r s).0 ≡ ok tt
      → (flushed env r s).1.ctx ≡ s.ctx
  flushed-ctx (ok u, t) s h = refl
  flushed-ctx (err e, t) s h = close_and_fail-fails _ _ h
  flushed-ctx (panic, t) s h = absurd cc

  flush_pools-ctx :
      (b : Bool) (s : State A)
      → (flush_pools env b s).0 ≡ ok tt
      → (flush_pools env b s).1.ctx ≡ s.ctx
  flush_pools-ctx false s h = refl
  flush_pools-ctx true s h = flushed-ctx (Ipvs.flush env s.trace) s h

  choose_interface-ctx :
      (name : Text) (s : State A)
      → s.ctx.vip_interface ≡ none
      → (choose_interface env name s).0 ≡ ok tt
      → (choose_interface env name s).1.ctx ≡ record s.ctx { vip_interface = named name }
  choose_interface-ctx [] s e h = ap (λ x. record s.ctx { vip_interface = x }) e
  choose_interface-ctx (c ∷ name) s e h = go (env.accepts s.trace (link_by_name (c ∷ name))) h
    where
      t : State A
      t = record s { trace = link_by_name (c ∷ name) ∷ s.trace }

      go :
          (found : Bool)
          → (found_interface env (c ∷ name) found t).0 ≡ ok tt
          → (found_interface env (c ∷ name) found t).1.ctx
            ≡ record s.ctx { vip_interface = some (c ∷ name) }
      go true h = refl
      go false h = close_and_fail-fails _ _ h

  flush_then-ctx :
      (o : ContextOptions) (s : State A)
      → s.ctx.vip_interface ≡ none
      → let m = flush_pools env o.flush >>= λ _. choose_interface env o.vip_interface in
        (m s).0 ≡ ok tt → (m s).1.ctx ≡ record s.ctx { vip_interface = named o.vip_interface }
  flush_then-ctx o s e h =
      let t = (flush_pools env o.flush s).1 in
      let (_, done, rest, same) =
        continue-ok (flush_pools env o.flush s).0 (λ _. choose_interface env o.vip_interface) t tt
          h in
      let kept : t.ctx ≡ s.ctx = flush_pools-ctx o.flush s done in
      ap (λ u. u.ctx) same
      ∙ choose_interface-ctx o.vip_interface t (ap (λ c. c.vip_interface) kept ∙ e) rest
      ∙ ap (λ (c : Context A). record c { vip_interface = named o.vip_interface }) kept

  -- The parts that follow the choice of the endpoint.
  after_endpoint-ctx :
      (o : ContextOptions) (s : State A)
      → s.ctx.vip_interface ≡ none
      → let m = as_ipvs (on_trace (Ipvs.init env)) >>= λ _.
          flush_pools env o.flush >>= λ _. choose_interface env o.vip_interface in
        (m s).0 ≡ ok tt → (m s).1.ctx ≡ record s.ctx { vip_interface = named o.vip_interface }
  after_endpoint-ctx o s e h =
      let t = record s { trace = (Ipvs.init env s.trace).1 } in
      let (_, done, rest, same) =
        continue-ok (as_ipvs (on_trace (Ipvs.init env)) s).0
          (λ _. flush_pools env o.flush >>= λ _. choose_interface env o.vip_interface) t tt h in
      ap (λ u. u.ctx) same ∙ flush_then-ctx o t e rest

  pub new_context-ctx :
      (parse : Text → Outcome Text) (o : ContextOptions) (t : Trace)
      → (new_context env {A = A} parse o (first_state t)).0 ≡ ok tt
      → (d : Disco.Driver) × (choose_disco parse o.disco ≡ ok d)
        × ((new_context env {A = A} parse o (first_state t)).1.ctx ≡ started d o)
  unfolding new_context
  new_context-ctx parse o t h =
      let s : State A = first_state t in
      let (d, chosen, rest, same) =
        continue-ok (choose_disco parse o.disco) (with_disco env o) s tt h in
      let s' : State A = record s { ctx = record s.ctx { disco = d } } in
      let placed = choose_endpoint env o.endpoints o.listen_port s' in
      let (_, done, more, same') = continue-ok placed.0 (λ _. open_ipvs env o) placed.1 tt rest in
      let ctx : placed.1.ctx ≡ record s'.ctx { endpoint = first o.endpoints } =
        choose_endpoint-ctx o.endpoints o.listen_port s' refl in
      (
        d,
        chosen,
        ap (λ (u : State A). u.ctx) (same ∙ same')
            ∙ after_endpoint-ctx o placed.1 (ap (λ (c : Context A). c.vip_interface) ctx) more
            ∙ ap (λ (c : Context A). record c { vip_interface = named o.vip_interface }) ctx,
      )

  pub new_context-IsValid :
      (parse : Text → Outcome Text) (o : ContextOptions) (t : Trace)
      → (new_context env {A = A} parse o (first_state t)).0 ≡ ok tt
      → IsValid env (new_context env {A = A} parse o (first_state t)).1.ctx
  new_context-IsValid parse o t h =
      let (d, chosen, ctx) = new_context-ctx parse o t h in
      subst (IsValid env) (sym ctx) (started-IsValid d o)

module _ (env : Env) {A : Type 0} ⦃f : Floats A⦄ where
  -- When NewContext returns no error, the context has what the options say, no service and no backend;
  -- and it stays valid whatever requests, updates and rounds of the store follow.
  pub new_context-run :
      (parse : Text → Outcome Text) (o : ContextOptions) (t : Trace) (es : List (Event A))
      → let s = (new_context env {A = A} parse o (first_state t)).1 in
        (new_context env {A = A} parse o (first_state t)).0 ≡ ok tt
        → ((d : Disco.Driver) × (choose_disco parse o.disco ≡ ok d) × (s.ctx ≡ started d o))
          × IsValid env (run env (record { state = s; stash = []; pending = none }) es).state.ctx
  new_context-run parse o t es h =
      let (d, chosen, ctx) = new_context-ctx env parse o t h in
      let s = (new_context env {A = A} parse o (first_state t)).1 in
      (
        (d, chosen, ctx),
        run-IsValid env (record { state = s; stash = []; pending = none }) es
            (new_context-IsValid env parse o t h),
      )
