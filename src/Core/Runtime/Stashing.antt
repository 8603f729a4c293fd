-- ===== src/Core/Runtime/Stashing.antt =====
-- How the weight of a backend is stashed when its check fails, and restored when it has recovered.
use gorb.Prelude.{
  Text_eq, Pair_eq, ℕ, ◌<◌, ◌^◌, ◌≡◌, ◌≢◌, refl, true, none, some, ◌∷◌, arith, if◌then◌else◌, ap,
  ◌∙◌, nat_eq, nat_eq_iff, subst,
}
use gorb.Prelude.Text.{Text}
use gorb.Prelude.Map.{lookup, insert, delete, lookup-insert_self}
use gorb.Prelude.Exec.{ok}
use gorb.System.{Env, Trace, Call, update_destination}
use gorb.Pulse.Floats.{Floats, IsIeee}
use gorb.Pulse.Status.{StatusType, up, down, removed}
use gorb.Pulse.Metrics.{Metrics, Update}
use gorb.Core.Context.{Backend, State}
use gorb.Core.Context.Backends.{update_backend}
use gorb.Core.Context.Attach.{with_backend}
use gorb.Core.Context.Weight.{reweighted, weight_call, update_backend_sound}
use gorb.Core.Invariant.{IsSound, IsValid}
use gorb.Core.Runtime.{
  Stash, source, note, note_metrics, relative_weight, unstash, stash_weight, reweight,
  process_pulse_update,
}

-- Whether IPVS and the rest of the world accept every call.
abbrev pub Accepts : Env → Type 0
Accepts env = (t : Trace) (c : Call) → env.accepts t c ≡ true

module _ {A : Type 0} where
  abbrev pub with_metrics : Backend A → Metrics A → Backend A
  with_metrics b m = record b { metrics = m }

  with_metrics-IsSound :
      {env : Env} {n : ℕ} {b : Backend A} (m : Metrics A)
      → IsSound env n b
      → IsSound env n (with_metrics b m)
  with_metrics-IsSound m v = record {
    addr_used = v.addr_used;
    service_filled = v.service_filled;
    host_set = v.host_set;
    port_set = v.port_set;
    method_known = v.method_known;
    one_family = v.one_family;
  }

  note_metrics-live :
      (u : Update A) (b : Backend A) (s : State A) (status : StatusType)
      → u.metrics.status ≡ status
      → status ≢ removed
      → lookup u.rs_id s.ctx.backends ≡ some b
      → note_metrics u s
        ≡ (ok true, record s { ctx = with_backend s.ctx u.rs_id (with_metrics b u.metrics) })
  unfolding note_metrics note
  note_metrics-live u b s up e live there = rw (e, there)
  note_metrics-live u b s down e live there = rw (e, there)
  note_metrics-live u b s removed e live there = absurd (live refl)

module _ (env : Env) (accepts : Accepts env) {A : Type 0} where
  update_backend-accepted :
      (n : ℕ) (vs_id rs_id : Text) (b : Backend A) (weight : ℕ) (s : State A)
      → IsSound env n b
      → lookup rs_id s.ctx.backends ≡ some b
      → (t : Trace) × (update_backend env vs_id rs_id weight s ≡ (
        ok b.options.weight,
        record { ctx = with_backend s.ctx rs_id (reweighted b weight); trace = t },
      ))
  update_backend-accepted n vs_id rs_id b weight s sound there =
      let (protocol, bits, _, _, e) =
        update_backend_sound env n vs_id rs_id b weight s sound there in
      let (svc, dest) = weight_call env b weight protocol bits in
      (
        update_destination svc dest ∷ s.trace,
        e ∙ rw (accepts s.trace (update_destination svc dest)),
      )

module _ (env : Env) {A : Type 0} ⦃f : Floats A⦄ where
  process-live :
      (stash : Stash) (u : Update A) (b : Backend A) (s : State A) (status : StatusType)
      → u.metrics.status ≡ status
      → status ≢ removed
      → lookup u.rs_id s.ctx.backends ≡ some b
      → process_pulse_update env stash u s
        ≡ reweight env stash u status
            (record s { ctx = with_backend s.ctx u.rs_id (with_metrics b u.metrics) })
  unfolding process_pulse_update
  process-live stash u b s status e live there = rw (note_metrics-live u b s status e live there) (
      ap
        (λ x.
          reweight env stash u x
            (record s { ctx = with_backend s.ctx u.rs_id (with_metrics b u.metrics) }))
        e)

  -- What an update does to a backend that is registered, and to the stash.
  abbrev pub Settles : Stash → Update A → Stash → Backend A → State A → Type 0
  Settles stash u stash' b' s =
      (s' : State A) × (process_pulse_update env stash u s ≡ (ok stash', s'))
      × (lookup u.rs_id s'.ctx.backends ≡ some b')

  -- A check that fails again changes the metrics only.
  pub process_down_again :
      (stash : Stash) (u : Update A) (w : ℕ) (b : Backend A) (s : State A)
      → lookup u.rs_id s.ctx.backends ≡ some b
      → u.metrics.status ≡ down
      → lookup (source u) stash ≡ some w
      → Settles stash u stash (with_metrics b u.metrics) s
  unfolding reweight stash_weight
  process_down_again stash u w b s there failed stashed =
      let noted : State A = record s {
        ctx = with_backend s.ctx u.rs_id (with_metrics b u.metrics);
      } in
      (
        noted,
        process-live stash u b s down failed (λ h. cc) there
            ∙ ap (λ o. stash_weight env stash u o noted) stashed,
        lookup-insert_self u.rs_id (with_metrics b u.metrics) s.ctx.backends,
      )

  -- A check that succeeds changes the metrics only, if no weight is stashed.
  pub process_up_fresh :
      (stash : Stash) (u : Update A) (b : Backend A) (s : State A)
      → lookup u.rs_id s.ctx.backends ≡ some b
      → u.metrics.status ≡ up
      → lookup (source u) stash ≡ none
      → Settles stash u stash (with_metrics b u.metrics) s
  unfolding reweight unstash
  process_up_fresh stash u b s there passed fresh =
      let noted : State A = record s {
        ctx = with_backend s.ctx u.rs_id (with_metrics b u.metrics);
      } in
      (
        noted,
        process-live stash u b s up passed (λ h. cc) there
            ∙ ap (λ o. unstash env stash u o noted) fresh,
        lookup-insert_self u.rs_id (with_metrics b u.metrics) s.ctx.backends,
      )

  pub relative_weight-full : (_ : IsIeee f) (w : ℕ) → w < 2 ^ 32 → relative_weight w (f.of_ℕ 1) ≡ w
  unfolding relative_weight
  relative_weight-full ieee w h = ap f.to_uint32 (ieee.mul_one (f.of_ℕ w)) ∙ ieee.to_of w h

module _ (env : Env) (accepts : Accepts env) {A : Type 0} ⦃f : Floats A⦄ where
  stash_weight-live :
      (n : ℕ) (stash : Stash) (u : Update A) (b : Backend A) (s : State A)
      → IsSound env n b
      → lookup u.rs_id s.ctx.backends ≡ some b
      → (t : Trace) × (stash_weight env stash u none s ≡ (
        ok (insert (source u) b.options.weight stash),
        record { ctx = with_backend s.ctx u.rs_id (reweighted b 0); trace = t },
      ))
  unfolding stash_weight
  stash_weight-live n stash u b s sound there =
      let (t, e) = update_backend-accepted env accepts n u.vs_id u.rs_id b 0 s sound there in
      (t, rw e)

  unstash-live :
      (n : ℕ) (stash : Stash) (u : Update A) (w : ℕ) (b : Backend A) (s : State A)
      → IsSound env n b
      → lookup u.rs_id s.ctx.backends ≡ some b
      → (t : Trace) × (unstash env stash u (some w) s ≡ (
        ok (
            if nat_eq (relative_weight w u.metrics.health) w
            then delete (source u) stash
            else stash),
        record {
          ctx = with_backend s.ctx u.rs_id (reweighted b (relative_weight w u.metrics.health));
          trace = t;
        },
      ))
  unfolding unstash
  unstash-live n stash u w b s sound there =
      let (t, e) =
        update_backend-accepted env accepts n u.vs_id u.rs_id b (relative_weight w u.metrics.health)
          s sound there in
      (t, rw e)

  -- A failed check of a backend with a valid context, whose weight is not stashed, stashes its weight
  -- and sets it to 0.
  pub process_down :
      (stash : Stash) (u : Update A) (b : Backend A) (s : State A)
      → IsValid env s.ctx
      → lookup u.rs_id s.ctx.backends ≡ some b
      → u.metrics.status ≡ down
      → lookup (source u) stash ≡ none
      → Settles env stash u
          (insert (source u) b.options.weight stash)
          (reweighted (with_metrics b u.metrics) 0)
          s
  unfolding reweight
  process_down stash u b s v there failed fresh =
      let noted : State A = record s {
        ctx = with_backend s.ctx u.rs_id (with_metrics b u.metrics);
      } in
      let (t, e) =
        stash_weight-live s.ctx.next_addr stash u (with_metrics b u.metrics) noted
          (with_metrics-IsSound u.metrics (v.backends u.rs_id b there))
          (lookup-insert_self u.rs_id (with_metrics b u.metrics) s.ctx.backends) in
      (
        record {
          ctx = with_backend noted.ctx u.rs_id (reweighted (with_metrics b u.metrics) 0);
          trace = t;
        },
        process-live env stash u b s down failed (λ h. cc) there
            ∙ ap (λ o. stash_weight env stash u o noted) fresh
            ∙ e,
        lookup-insert_self u.rs_id (reweighted (with_metrics b u.metrics) 0) noted.ctx.backends,
      )

  -- A check that succeeds sets the weight to the part of the stashed one that the health gives, and
  -- forgets the stashed weight if that is all of it.
  pub process_up :
      (stash : Stash) (u : Update A) (w : ℕ) (b : Backend A) (s : State A)
      → IsValid env s.ctx
      → lookup u.rs_id s.ctx.backends ≡ some b
      → u.metrics.status ≡ up
      → lookup (source u) stash ≡ some w
      → Settles env stash u
          (if nat_eq (relative_weight w u.metrics.health) w then delete (source u) stash else stash)
          (reweighted (with_metrics b u.metrics) (relative_weight w u.metrics.health))
          s
  unfolding reweight
  process_up stash u w b s v there passed stashed =
      let noted : State A = record s {
        ctx = with_backend s.ctx u.rs_id (with_metrics b u.metrics);
      } in
      let (t, e) =
        unstash-live s.ctx.next_addr stash u w (with_metrics b u.metrics) noted
          (with_metrics-IsSound u.metrics (v.backends u.rs_id b there))
          (lookup-insert_self u.rs_id (with_metrics b u.metrics) s.ctx.backends) in
      (
        record {
          ctx =
              with_backend noted.ctx u.rs_id
                (reweighted (with_metrics b u.metrics) (relative_weight w u.metrics.health));
          trace = t;
        },
        process-live env stash u b s up passed (λ h. cc) there
            ∙ ap (λ o. unstash env stash u o noted) stashed
            ∙ e,
        lookup-insert_self u.rs_id
            (reweighted (with_metrics b u.metrics) (relative_weight w u.metrics.health))
            noted.ctx.backends,
      )

  -- A check that finds the backend in the health that restores its stashed weight forgets it.
  pub process_recovered :
      (stash : Stash) (u : Update A) (w : ℕ) (b : Backend A) (s : State A)
      → IsValid env s.ctx
      → lookup u.rs_id s.ctx.backends ≡ some b
      → u.metrics.status ≡ up
      → lookup (source u) stash ≡ some w
      → (v : ℕ) → relative_weight w u.metrics.health ≡ v
      → v ≡ w
      → Settles env stash u (delete (source u) stash) (reweighted (with_metrics b u.metrics) v) s
  process_recovered stash u w b s valid there passed stashed v e same =
      subst (λ (st : Stash). Settles env stash u st (reweighted (with_metrics b u.metrics) v) s)
        (ground (arith, nat_eq_iff v w))
        (subst
          (λ (x : ℕ).
            Settles env stash u (if nat_eq x w then delete (source u) stash else stash)
              (reweighted (with_metrics b u.metrics) x) s)
          e (process_up stash u w b s valid there passed stashed))
