-- ===== src/Core/Invariant/Keeps.antt =====
-- Every request and every update of a health check keeps the context valid.
use gorb.Prelude.{Text_eq, ℕ, ◌≡◌, refl, some, inl, inr, sym, subst}
use gorb.Prelude.Text.{Text}
use gorb.Prelude.Map.{lookup, delete, lookup-delete-some, delete-IsUnique}
use gorb.Prelude.Exec.{Outcome, ok, err, panic}
use gorb.System.{Env}
use gorb.Pulse.Floats.{Floats}
use gorb.Pulse.Status.{StatusType}
use gorb.Pulse.Metrics.{Update}
use gorb.Core.Options.{ServiceOptions, BackendOptions}
use gorb.Core.Context.{Backend, Context, State}
use gorb.Core.Context.Rules.{Effect}
use gorb.Core.Context.Services.{create_service, update_service, remove_service}
use gorb.Core.Context.Backends.{create_backend, update_backend, remove_backend}
use gorb.Core.Context.Create.{IsCreated, IsUpdated, create_service-Effect, update_service-Effect}
use gorb.Core.Context.Attach.{
  with_backend, IsAttached, IsReweighted, create_backend-Effect, update_backend-Effect,
}
use gorb.Core.Context.Detach.{halted, IsDetached, remove_backend-IsDetached}
use gorb.Core.Context.Remove.{IsRemoved, remove_service-IsRemoved, drop_orphans-Fewer}
use gorb.Core.Runtime.{Stash, note_metrics, reweight, process_pulse_update}
use gorb.Core.Runtime.Rules.{note_metrics_rule, reweight_rule, process_rule}
use gorb.Core.Invariant.{IsValid, with_service-IsValid, with_backend-IsValid, shrink-IsValid}

-- An operation that keeps a property of the context whenever it succeeds keeps it.
pub Effect-keeps :
    {A B : Type 0} (P : Context A → Type 0) (c : Context A) (Q : B → Context A → Type 0)
    (r : Outcome B × State A)
    → ((b : B) (d : Context A) → Q b d → P d)
    → P c
    → Effect c Q r
    → P r.1.ctx
Effect-keeps P c Q (ok b, s) good p h = good b s.ctx h
Effect-keeps P c Q (err e, s) good p h = subst P (sym h) p
Effect-keeps P c Q (panic, s) good p h = subst P (sym h) p

module _ (env : Env) {A : Type 0} where
  pub create_service-IsValid :
      (vs_id : Text) (opts : ServiceOptions) (s : State A)
      → IsValid env s.ctx
      → IsValid env (create_service env vs_id opts s).1.ctx
  create_service-IsValid vs_id opts s v =
      Effect-keeps (IsValid env) s.ctx (IsCreated env vs_id opts s.ctx)
        (create_service env vs_id opts s)
        (λ _ d h. rw h.1.3 (with_service-IsValid env s.ctx vs_id h.1.0 h.1.1 v)) v
        (create_service-Effect env vs_id opts s)

  pub update_service-IsValid :
      (vs_id : Text) (opts : ServiceOptions) (s : State A)
      → IsValid env s.ctx
      → IsValid env (update_service env vs_id opts s).1.ctx
  update_service-IsValid vs_id opts s v =
      Effect-keeps (IsValid env) s.ctx (IsUpdated env vs_id opts s.ctx)
        (update_service env vs_id opts s)
        (λ _ d h. rw h.3 (with_service-IsValid env s.ctx vs_id h.0 h.1 v)) v
        (update_service-Effect env vs_id opts s)

  -- A backend that differs from one of the map in its weight, its metrics or its check.
  altered-IsValid :
      (c : Context A) (rs_id : Text) (b b' : Backend A)
      → lookup rs_id c.backends ≡ some b
      → (b'.service ≡ b.service)
      → (b'.options.host ≡ b.options.host)
      → (b'.options.port ≡ b.options.port)
      → (b'.options.method ≡ b.options.method)
      → (b'.options.host_ip ≡ b.options.host_ip)
      → IsValid env c
      → IsValid env (with_backend c rs_id b')
  altered-IsValid c rs_id b b' there e1 e2 e3 e4 e5 v =
      let sound = v.backends rs_id b there in
      with_backend-IsValid env c rs_id b'
        (record {
          addr_used = rw e1 sound.addr_used;
          service_filled = rw e1 sound.service_filled;
          host_set = rw e2 sound.host_set;
          port_set = rw e3 sound.port_set;
          method_known = rw e4 sound.method_known;
          one_family = rw (e1, e5) sound.one_family;
        })
        v

  pub update_backend-IsValid :
      (vs_id rs_id : Text) (weight : ℕ) (s : State A)
      → IsValid env s.ctx
      → IsValid env (update_backend env vs_id rs_id weight s).1.ctx
  update_backend-IsValid vs_id rs_id weight s v =
      Effect-keeps (IsValid env) s.ctx (IsReweighted rs_id weight s.ctx)
        (update_backend env vs_id rs_id weight s)
        (λ _ d h. rw h.3 (altered-IsValid s.ctx rs_id h.0 _ h.1 refl refl refl refl refl v)) v
        (update_backend-Effect env vs_id rs_id weight s)

  detached-IsValid :
      (rs_id : Text) (c : Context A) (r : Outcome BackendOptions × State A)
      → IsDetached rs_id c r
      → IsValid env c
      → IsValid env r.1.ctx
  detached-IsValid rs_id c (ok o, s) (b, there, running, same, e) v = rw e (
      shrink-IsValid env c c.services (delete rs_id c.backends) (λ k vs h. h)
        (λ k b h. lookup-delete-some rs_id k b c.backends h, delete-IsUnique rs_id c.backends) v)
  detached-IsValid rs_id c (err x, s) (inl (_, _, e)) v = rw e v
  detached-IsValid rs_id c (err x, s) (inr (b, there, _, _, e)) v =
      rw e (altered-IsValid c rs_id b (halted b) there refl refl refl refl refl v)
  detached-IsValid rs_id c (panic, s) (b, there, _, e) v = rw e v

  pub remove_backend-IsValid :
      (vs_id rs_id : Text) (s : State A)
      → IsValid env s.ctx
      → IsValid env (remove_backend env vs_id rs_id s).1.ctx
  remove_backend-IsValid vs_id rs_id s =
      detached-IsValid rs_id s.ctx (remove_backend env vs_id rs_id s)
        (remove_backend-IsDetached env vs_id rs_id s)

  removed-IsValid :
      (vs_id : Text) (c : Context A) (r : Outcome ServiceOptions × State A)
      → IsRemoved vs_id c r
      → IsValid env c
      → IsValid env r.1.ctx
  removed-IsValid vs_id c (ok o, s) (vs, _, _, _, e) v = rw e (
      shrink-IsValid env c (delete vs_id c.services) _
        (λ k w h. lookup-delete-some vs_id k w c.services h)
        (drop_orphans-Fewer vs c.backends c.backends) v)
  removed-IsValid vs_id c (err x, s) (inl (_, _, e)) v = rw e v
  removed-IsValid vs_id c (err x, s) (inr (vs, _, _, e)) v = rw e (
      shrink-IsValid env c (delete vs_id c.services) c.backends
        (λ k w h. lookup-delete-some vs_id k w c.services h) (λ k b h. h, λ u. u) v)
  removed-IsValid vs_id c (panic, s) (vs, _, _, (m, w, e)) v = rw e (
      shrink-IsValid env c (delete vs_id c.services) m
        (λ k w h. lookup-delete-some vs_id k w c.services h) w v)

  pub remove_service-IsValid :
      (vs_id : Text) (s : State A)
      → IsValid env s.ctx
      → IsValid env (remove_service env vs_id s).1.ctx
  remove_service-IsValid vs_id s =
      removed-IsValid vs_id s.ctx (remove_service env vs_id s)
        (remove_service-IsRemoved env vs_id s)

module _ (env : Env) {A : Type 0} ⦃f : Floats A⦄ where
  attached-IsValid :
      (vs_id rs_id : Text) (opts : BackendOptions) (c d : Context A)
      → IsAttached env vs_id rs_id opts c tt d
      → IsValid env c
      → IsValid env d
  attached-IsValid vs_id rs_id opts c d (_, (b, there, (filled, _), same, _, e)) v =
      let (below, valid) = v.services vs_id b.service there in
      rw e (
        with_backend-IsValid env c rs_id b
          (record {
            addr_used = below;
            service_filled = valid;
            host_set = filled.host_set;
            port_set = filled.port_set;
            method_known = filled.method_known;
            one_family = same;
          })
          v)

  pub create_backend-IsValid :
      (now : ℕ) (vs_id rs_id : Text) (opts : BackendOptions) (s : State A)
      → IsValid env s.ctx
      → IsValid env (create_backend env now vs_id rs_id opts s).1.ctx
  create_backend-IsValid now vs_id rs_id opts s v =
      Effect-keeps (IsValid env) s.ctx (IsAttached env vs_id rs_id opts s.ctx)
        (create_backend env now vs_id rs_id opts s)
        (λ _ d h. attached-IsValid vs_id rs_id opts s.ctx d h v) v
        (create_backend-Effect env now vs_id rs_id opts s)

  pub note_metrics-IsValid :
      (u : Update A) (s : State A) → IsValid env s.ctx → IsValid env (note_metrics u s).1.ctx
  note_metrics-IsValid u s =
      note_metrics_rule env u (IsValid env)
        (λ c b m there v. altered-IsValid env c u.rs_id b _ there refl refl refl refl refl v)
        (λ c b w there v. altered-IsValid env c u.rs_id b _ there refl refl refl refl refl v) s

  pub reweight-IsValid :
      (stash : Stash) (u : Update A) (status : StatusType) (s : State A)
      → IsValid env s.ctx
      → IsValid env (reweight env stash u status s).1.ctx
  reweight-IsValid stash u =
      reweight_rule env u (IsValid env)
        (λ c b m there v. altered-IsValid env c u.rs_id b _ there refl refl refl refl refl v)
        (λ c b w there v. altered-IsValid env c u.rs_id b _ there refl refl refl refl refl v) stash

  pub process_pulse_update-IsValid :
      (stash : Stash) (u : Update A) (s : State A)
      → IsValid env s.ctx
      → IsValid env (process_pulse_update env stash u s).1.ctx
  process_pulse_update-IsValid stash u s =
      process_rule env u (IsValid env)
        (λ c b m there v. altered-IsValid env c u.rs_id b _ there refl refl refl refl refl v)
        (λ c b w there v. altered-IsValid env c u.rs_id b _ there refl refl refl refl refl v) stash
        s
