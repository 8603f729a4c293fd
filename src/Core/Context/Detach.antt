-- ===== src/Core/Context/Detach.antt =====
-- What removing a backend does to the context, on every branch.
use gorb.Prelude.{Text_eq, ◌≡◌, refl, true, false, none, some, ◌⊎◌, inl, inr}
use gorb.Prelude.Text.{Text}
use gorb.Prelude.Map.{lookup, delete}
use gorb.Prelude.Exec.{Outcome, ok, err, panic, object_not_found, ipvs_syscall_failed}
use gorb.System.{Env}
use gorb.Ipvs
use gorb.Core.Options.{BackendOptions}
use gorb.Core.Store
use gorb.Core.Context.{Backend, Context, State, when_some}
use gorb.Core.Context.Rules.{found_rule, stop_rule, calm_ipvs_rule, calm_ignore_rule}
use gorb.Core.Context.Calm.{del_dest_port-Calm, store_remove_backend-Calm}
use gorb.Core.Context.Backends.{remove_backend}
use gorb.Core.Context.Attach.{with_backend}

-- The backend with its check stopped.
abbrev pub halted : {A : Type 0} → Backend A → Backend A
halted b = record b { monitor = record b.monitor { stopped = true } }

module _ {A : Type 0} where
  -- On success the backend is gone. If IPVS fails it stays, but its check is stopped; and if its
  -- check had been stopped before, the call panics.
  abbrev pub IsDetached : Text → Context A → Outcome BackendOptions × State A → Type 0
  IsDetached rs_id c (ok o, s) =
      (b : Backend A) × (lookup rs_id c.backends ≡ some b)
      × (b.monitor.stopped ≡ false)
      × (o ≡ b.options)
      × (s.ctx ≡ record c { backends = delete rs_id c.backends })
  IsDetached rs_id c (err e, s) =
      ((lookup rs_id c.backends ≡ none) × (e ≡ object_not_found) × (s.ctx ≡ c))
      ⊎ ((b : Backend A) × (lookup rs_id c.backends ≡ some b)
          × (b.monitor.stopped ≡ false)
          × (e ≡ ipvs_syscall_failed)
          × (s.ctx ≡ with_backend c rs_id (halted b)))
  IsDetached rs_id c (panic, s) =
      (b : Backend A) × (lookup rs_id c.backends ≡ some b)
      × (b.monitor.stopped ≡ true)
      × (s.ctx ≡ c)

module _ (env : Env) {A : Type 0} where
  -- Removing a backend that is not there fails and changes nothing. If the check of the backend has
  -- been stopped before, the call panics and changes nothing. Otherwise it takes the backend away, or,
  -- if IPVS fails, leaves it with its check stopped.
  pub remove_backend-IsDetached :
      (vs_id rs_id : Text) (s : State A) → IsDetached rs_id s.ctx (remove_backend env vs_id rs_id s)
  unfolding remove_backend
  remove_backend-IsDetached vs_id rs_id s =
      found_rule P _ _ (lookup rs_id s.ctx.backends) (λ h. inl (h, refl, refl))
        λ b there.
          calm_ignore_rule P _ s
            (when_some s.ctx.store λ store. Store.remove_backend env store rs_id)
            (store_remove_backend-Calm env s.ctx.store rs_id)
            λ t.
              stop_rule P _ _ b.monitor (λ h. (b, there, h, refl))
                λ running.
                  calm_ipvs_rule P _
                    (record { ctx = with_backend s.ctx rs_id (halted b); trace = t })
                    (Ipvs.del_dest_port env b.service.options.host_ip b.service.options.port
                      b.options.host_ip b.options.port b.service.options.protocol)
                    (del_dest_port-Calm env b.service.options.host_ip b.service.options.port
                      b.options.host_ip b.options.port b.service.options.protocol)
                    (λ u. inr (b, there, running, refl, refl))
                    λ _ u. (b, there, running, refl, refl)
    where
      P : Outcome BackendOptions × State A → Type 0
      P = IsDetached rs_id s.ctx
