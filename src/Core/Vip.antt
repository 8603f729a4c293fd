-- ===== src/Core/Vip.antt =====
-- Whether the address of a service is taken off the interface again.
use gorb.Prelude.{Text_eq, ◌≡◌, refl, ap, ◌∙◌, subst, false, Option, none, some}
use gorb.Prelude.Text.{Text}
use gorb.Prelude.Map.{lookup, lookup-insert_self}
use gorb.Prelude.Exec.{ok}
use gorb.System.{Env, Trace}
use gorb.Core.Payload.{ServicePayload}
use gorb.Core.Options.{ServiceOptions}
use gorb.Core.Store.{unmarshal_service}
use gorb.Core.Context.{Service, Context, State}
use gorb.Core.Context.Rules.{Effect}
use gorb.Core.Context.Services.{update_service, del_vip}
use gorb.Core.Context.Create.{IsUpdated, update_service-Effect}

module _ (env : Env) where
  del_vip-unset :
      (link : Option Text) (o : ServiceOptions) (t : Trace)
      → o.del_if_addr ≡ false
      → del_vip env link o t ≡ (ok tt, t)
  del_vip-unset none o t h = refl
  del_vip-unset (some link) o t h = rw h

module _ (env : Env) {A : Type 0} where
  -- Once a service that exists has been updated by a request with success, the part of its removal
  -- that takes the address off the interface makes no call, whatever the interface.
  pub del_vip-update_service :
      (vs_id : Text) (body : ServicePayload) (s s' : State A) (old : Service)
      → lookup vs_id s.ctx.services ≡ some old
      → update_service env vs_id (unmarshal_service body) s ≡ (ok tt, s')
      → (vs : Service) × (lookup vs_id s'.ctx.services ≡ some vs)
        × ((link : Option Text) (t : Trace) → del_vip env link vs.options t ≡ (ok tt, t))
  unfolding unmarshal_service
  del_vip-update_service vs_id body s s' old there updated =
      let (p, _, _, e, kept) =
        subst (Effect s.ctx (IsUpdated env vs_id (unmarshal_service body) s.ctx)) updated
          (update_service-Effect env vs_id (unmarshal_service body) s) in
      let new : Service = record { addr = s.ctx.next_addr; options = p } in
      (
        new,
        ap (λ (c : Context A). lookup vs_id c.services) e
            ∙ lookup-insert_self vs_id new s.ctx.services,
        λ link t. del_vip-unset env link p t (kept old there).1,
      )
