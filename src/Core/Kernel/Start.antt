-- ===== src/Core/Kernel/Start.antt =====
-- NewContext with its flush leaves nothing in IPVS.
use gorb.Prelude.{
  Text_eq, ◌≡◌, refl, ◌∙◌, ap, subst, Bool, true, false, some, [], ◌∷◌, arith, if◌then◌else◌,
}
use gorb.Prelude.Text.{Text}
use gorb.Prelude.Map.{lookup}
use gorb.Prelude.Exec.{Outcome, ok, err, panic, shim_error, ◌>>=◌}
use gorb.System.{Env, Trace, ipvs_flush, link_by_name}
use gorb.Ipvs
use gorb.Ipvs.Table.{Key, serves, Same, attempt_lem}
use gorb.Core.Context.{Context, State, on_trace, as_ipvs}
use gorb.Core.Context.Rules.{continue-ok}
use gorb.Core.Start.{
  ContextOptions, first_state, choose_disco, choose_endpoint, flushed, flush_pools, found_interface,
  choose_interface, open_ipvs, with_disco, new_context,
}
use gorb.Core.Start.Started.{close_and_fail-fails, new_context-ctx}
use gorb.Core.Kernel.Services.{Served}

-- IPVS has no service.
abbrev IsCleared : Env → Trace → Type 0
IsCleared env t = (q : Key) → serves env.accepts t q ≡ false

module _ (env : Env) {A : Type 0} where
  pub cleared-Served : (s : State A) → s.ctx.services ≡ [] → IsCleared env s.trace → Served env s
  unfolding lookup
  cleared-Served s e clear = record {
    held = λ k vs h. let none_there = subst (λ m. lookup k m ≡ some vs) e h in absurd cc;
    distinct = λ j k vs ws q p p' key_v key_w.
        let none_there = subst (λ m. lookup j m ≡ some vs) e p in absurd cc;
    known = λ q on. let off = clear q in absurd cc;
  }

  flushed-IsCleared :
      (s : State A) (done : Bool) (r : Outcome Unit × Trace)
      → env.accepts s.trace ipvs_flush ≡ done
      → r ≡ ((if done then ok tt else err shim_error), ipvs_flush ∷ s.trace)
      → (flushed env r s).0 ≡ ok tt
      → IsCleared env (flushed env r s).1.trace
  unfolding serves
  flushed-IsCleared s true (ok u, t) e same h = λ q. rw (ap (λ z. z.1) same, e) (ground arith)
  flushed-IsCleared s false (ok u, t) e same h = let bad = ap (λ z. z.0) same in absurd cc
  flushed-IsCleared s done (err x, t) e same h = close_and_fail-fails env _ _ h
  flushed-IsCleared s done (panic, t) e same h = absurd cc

  flush_pools-IsCleared :
      (s : State A)
      → (flush_pools env true s).0 ≡ ok tt
      → IsCleared env (flush_pools env true s).1.trace
  unfolding Ipvs.flush
  flush_pools-IsCleared s =
      flushed-IsCleared s (env.accepts s.trace ipvs_flush) (Ipvs.flush env s.trace) refl
        (attempt_lem env ipvs_flush shim_error s.trace)

  choose_interface-Same :
      (name : Text) (s : State A)
      → (choose_interface env name s).0 ≡ ok tt
      → Same env (choose_interface env name s).1.trace s.trace
  unfolding serves
  choose_interface-Same [] s h = λ q. refl
  choose_interface-Same (c ∷ name) s h = go (env.accepts s.trace (link_by_name (c ∷ name))) h
    where
      t : State A
      t = record s { trace = link_by_name (c ∷ name) ∷ s.trace }

      go :
          (found : Bool)
          → (found_interface env (c ∷ name) found t).0 ≡ ok tt
          → Same env (found_interface env (c ∷ name) found t).1.trace s.trace
      go true h = λ q. refl
      go false h = close_and_fail-fails env _ _ h

  open_ipvs-IsCleared :
      (o : ContextOptions) (s : State A)
      → o.flush ≡ true
      → (open_ipvs env o s).0 ≡ ok tt
      → IsCleared env (open_ipvs env o s).1.trace
  open_ipvs-IsCleared o s flush h q =
      let t = record s { trace = (Ipvs.init env s.trace).1 } in
      let (_, done, rest, same) =
        continue-ok (as_ipvs (on_trace (Ipvs.init env)) s).0
          (λ _. flush_pools env o.flush >>= λ _. choose_interface env o.vip_interface) t tt h in
      let u = (flush_pools env o.flush t).1 in
      let (_, done', rest', same') =
        continue-ok (flush_pools env o.flush t).0 (λ _. choose_interface env o.vip_interface) u tt
          rest in
      ap (λ (x : State A). serves env.accepts x.trace q) (same ∙ same')
      ∙ choose_interface-Same o.vip_interface u rest' q
      ∙ ap (λ b. serves env.accepts (flush_pools env b t).1.trace q) flush
      ∙ flush_pools-IsCleared t (subst (λ b. (flush_pools env b t).0 ≡ ok tt) flush done') q

module _ (env : Env) (A : Type 0) where
  -- The services that were in IPVS before are gone.
  pub new_context-Served :
      (parse : Text → Outcome Text) (o : ContextOptions) (t : Trace)
      → o.flush ≡ true
      → (new_context env {A = A} parse o (first_state t)).0 ≡ ok tt
      → Served env (new_context env {A = A} parse o (first_state t)).1
  unfolding new_context
  new_context-Served parse o t flush h =
      let s : State A = first_state t in
      let (d, chosen, rest, same) =
        continue-ok (choose_disco parse o.disco) (with_disco env o) s tt h in
      let s' : State A = record s { ctx = record s.ctx { disco = d } } in
      let placed = choose_endpoint env o.endpoints o.listen_port s' in
      let (_, done, more, same') = continue-ok placed.0 (λ _. open_ipvs env o) placed.1 tt rest in
      let (_, _, ctx) = new_context-ctx env {A = A} parse o t h in
      cleared-Served env (new_context env {A = A} parse o (first_state t)).1
        (ap (λ (c : Context A). c.services) ctx)
        λ q.
          ap (λ (x : State A). serves env.accepts x.trace q) (same ∙ same')
          ∙ open_ipvs-IsCleared env o placed.1 flush more q
