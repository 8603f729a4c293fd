-- ===== src/Core/Runtime/Rules.antt =====
-- What an update of a health check can do to the context.
use gorb.Prelude.{Text_eq, Pair_eq, ℕ, ◌≡◌, refl, Bool, true, false, Option, none, some, sym, subst}
use gorb.Prelude.Map.{lookup}
use gorb.Prelude.Exec.{Exec, Outcome, ok, err, panic, continue, pure, ◌>>=◌}
use gorb.System.{Env}
use gorb.Pulse.Floats.{Floats}
use gorb.Pulse.Status.{StatusType, up, down, removed}
use gorb.Pulse.Metrics.{Metrics, Update}
use gorb.Core.Context.{Backend, Context, State}
use gorb.Core.Context.Rules.{Effect}
use gorb.Core.Context.Backends.{update_backend}
use gorb.Core.Context.Attach.{with_backend, IsReweighted, update_backend-Effect}
use gorb.Core.Runtime.{
  Stash, source, note, note_metrics, try_some, to_option, unstashed, stashed_old, relative_weight,
  unstash, stash_weight, reweight, proceed, process_pulse_update,
}

module _ {S B C : Type 0} (g : Option B → C) where
  tried_cases :
      (r : Outcome B × S) → (continue {S = S} (to_option r.0) (λ o. pure (g o)) r.1).1 ≡ r.1
  tried_cases (ok b, s) = refl
  tried_cases (err e, s) = refl
  tried_cases (panic, s) = refl

  -- A call whose error is dropped, at the end of an operation.
  pub try_some-state : (m : Exec S B) (s : S) → ((try_some m >>= λ o. pure (g o)) s).1 ≡ (m s).1
  try_some-state m s = tried_cases (m s)

module _ {A : Type 0} where
  note-trace :
      (u : Update A) (status : StatusType) (o : Option (Backend A)) (s : State A)
      → (note u status o s).1.trace ≡ s.trace
  unfolding note
  note-trace u up none s = refl
  note-trace u down none s = refl
  note-trace u removed none s = refl
  note-trace u up (some rs) s = refl
  note-trace u down (some rs) s = refl
  note-trace u removed (some rs) s = refl

  -- No call is made.
  pub note_metrics-trace : (u : Update A) (s : State A) → (note_metrics u s).1.trace ≡ s.trace
  unfolding note_metrics
  note_metrics-trace u s = note-trace u u.metrics.status (lookup u.rs_id s.ctx.backends) s

module _ (env : Env) {A : Type 0} ⦃f : Floats A⦄ (u : Update A) (P : Context A → Type 0)
    (keeps_metrics : (c : Context A) (b : Backend A) (m : Metrics A)
      → lookup u.rs_id c.backends ≡ some b
      → P c
      → P (with_backend c u.rs_id (record b { metrics = m })))
    (keeps_weight : (c : Context A) (b : Backend A) (w : ℕ)
      → lookup u.rs_id c.backends ≡ some b
      → P c
      → P (with_backend c u.rs_id (record b { options = record b.options { weight = w } }))) where
  note_rule :
      (status : StatusType) (o : Option (Backend A)) (s : State A)
      → lookup u.rs_id s.ctx.backends ≡ o
      → P s.ctx
      → P (note u status o s).1.ctx
  unfolding note
  note_rule status none s there p = p
  note_rule up (some rs) s there p = keeps_metrics s.ctx rs u.metrics there p
  note_rule down (some rs) s there p = keeps_metrics s.ctx rs u.metrics there p
  note_rule removed (some rs) s there p = p

  reweighted :
      (w : ℕ) (c : Context A) (r : Outcome ℕ × State A)
      → P c
      → Effect c (IsReweighted u.rs_id w c) r
      → P r.1.ctx
  reweighted w c (ok old, s) p (b, there, _, e) = subst P (sym e) (keeps_weight c b w there p)
  reweighted w c (err x, s) p e = subst P (sym e) p
  reweighted w c (panic, s) p e = subst P (sym e) p

  update_rule : (w : ℕ) (s : State A) → P s.ctx → P (update_backend env u.vs_id u.rs_id w s).1.ctx
  update_rule w s p =
      reweighted w s.ctx (update_backend env u.vs_id u.rs_id w s) p
        (update_backend-Effect env u.vs_id u.rs_id w s)

  unstash_rule :
      (stash : Stash) (o : Option ℕ) (s : State A) → P s.ctx → P (unstash env stash u o s).1.ctx
  unfolding unstash
  unstash_rule stash none s p = p
  unstash_rule stash (some w) s p =
      let weight = relative_weight w u.metrics.health in
      subst (λ (x : State A). P x.ctx)
        (sym (
          try_some-state (unstashed stash (source u) w weight)
            (update_backend env u.vs_id u.rs_id weight) s))
        (update_rule weight s p)

  stash_rule :
      (stash : Stash) (o : Option ℕ) (s : State A)
      → P s.ctx
      → P (stash_weight env stash u o s).1.ctx
  unfolding stash_weight
  stash_rule stash (some w) s p = p
  stash_rule stash none s p =
      subst (λ (x : State A). P x.ctx)
        (sym
          (try_some-state (stashed_old stash (source u)) (update_backend env u.vs_id u.rs_id 0) s))
        (update_rule 0 s p)

  pub reweight_rule :
      (stash : Stash) (status : StatusType) (s : State A)
      → P s.ctx
      → P (reweight env stash u status s).1.ctx
  unfolding reweight
  reweight_rule stash up s p = unstash_rule stash (lookup (source u) stash) s p
  reweight_rule stash down s p = stash_rule stash (lookup (source u) stash) s p
  reweight_rule stash removed s p = p

  pub note_metrics_rule : (s : State A) → P s.ctx → P (note_metrics u s).1.ctx
  unfolding note_metrics
  note_metrics_rule s p = note_rule u.metrics.status (lookup u.rs_id s.ctx.backends) s refl p

  proceed_rule :
      (stash : Stash) (r : Outcome Bool × State A)
      → P r.1.ctx
      → P (continue r.0 (proceed env stash u) r.1).1.ctx
  proceed_rule stash (ok true, s) p = reweight_rule stash u.metrics.status s p
  proceed_rule stash (ok false, s) p = p
  proceed_rule stash (err e, s) p = p
  proceed_rule stash (panic, s) p = p

  -- Such an update changes the metrics and the weight of its backend only: what these keep, it keeps.
  pub process_rule :
      (stash : Stash) (s : State A) → P s.ctx → P (process_pulse_update env stash u s).1.ctx
  unfolding process_pulse_update
  process_rule stash s p = proceed_rule stash (note_metrics u s) (note_metrics_rule s p)
