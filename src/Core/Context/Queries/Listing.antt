-- ===== src/Core/Context/Queries/Listing.antt =====
-- Which backends the status of a service lists.
use gorb.Prelude.{
  Text_eq, ◌≡◌, refl, sym, ap, ◌∙◌, subst, false, some, List, [], ◌∷◌, ◌++◌, arith, nat_eq,
  nat_eq_iff, if◌then◌else◌, same_refl, append_nil, append_one, Bool-cases, inl, inr,
}
use gorb.Prelude.Text.{Text}
use gorb.Prelude.Map.{Map, lookup, lookup-insert_self, IsUnique}
use gorb.Prelude.Exec.{ok}
use gorb.System.{Env}
use gorb.Pulse.Floats.{Floats}
use gorb.Core.Options.{ServiceOptions}
use gorb.Core.Context.{Service, Backend, Context, State}
use gorb.Core.Context.Rules.{Effect}
use gorb.Core.Context.Create.{IsUpdated, update_service-Effect}
use gorb.Core.Context.Services.{update_service}
use gorb.Core.Context.Remove.{points_to}
use gorb.Core.Context.Queries.{ServiceInfo, average, gather, get_service}
use gorb.Core.Invariant.{IsSound, IsValid}

-- The names of the backends that point to a service, in the order of the map.
unfoldable pub attached : {A : Type 0} → Service → Map Text (Backend A) → List Text
attached vs [] = []
attached vs ((rs_id, b) ∷ rest) =
    let names = attached vs rest in if points_to vs b then rs_id ∷ names else names

module _ {A : Type 0} ⦃f : Floats A⦄ where
  gather-attached :
      (vs : Service) (bs : Map Text (Backend A)) (info : ServiceInfo A)
      → ((gather vs bs info).backends ≡ info.backends ++ attached vs bs)
        × ((gather vs bs info).options ≡ info.options)
  unfolding gather attached
  gather-attached vs [] info = (sym (append_nil info.backends), refl)
  gather-attached vs ((rs_id, b) ∷ rest) info = elim (Bool-cases (points_to vs b)) [
    | inl own ↦
        let more : ServiceInfo A = record info {
          health = f.add info.health b.metrics.health;
          backends = info.backends ++ rs_id ∷ [];
        } in
        ground
          (arith, gather-attached vs rest more, append_one info.backends rs_id (attached vs rest))
    | inr other ↦ ground (arith, gather-attached vs rest info)
  ]

  -- The status of a service that is registered gives its options and the names of exactly the
  -- backends that point to it.
  pub get_service-attached :
      (c : Context A) (vs_id : Text) (vs : Service)
      → lookup vs_id c.services ≡ some vs
      → (info : ServiceInfo A) × (get_service c vs_id ≡ ok info)
        × (info.options ≡ vs.options)
        × (info.backends ≡ attached vs c.backends)
  unfolding get_service
  get_service-attached c vs_id vs there =
      let start : ServiceInfo A = record {
        options = vs.options;
        health = f.of_ℕ 0;
        backends = [];
      } in
      let (e, e') = gather-attached vs c.backends start in
      (average (gather vs c.backends start), rw (there, get_service), e', e)

attached-none :
    {A : Type 0} (vs : Service) (bs : Map Text (Backend A))
    → IsUnique bs
    → ((k : Text) (b : Backend A) → lookup k bs ≡ some b → points_to vs b ≡ false)
    → attached vs bs ≡ []
unfolding attached lookup
attached-none vs [] u apart = refl
attached-none vs ((j, c) ∷ rest) (fresh, u) apart =
    rw (apart j c (rw (same_refl j)))
      (attached-none vs rest u (λ k b h. apart k b (ground (arith, Text_eq.same_iff j k))))

module _ (env : Env) {A : Type 0} ⦃f : Floats A⦄ where
  -- From a valid context, once a service has been updated with success, its status lists no backend.
  get_service-update_service :
      (vs_id : Text) (opts : ServiceOptions) (s s' : State A)
      → IsValid env s.ctx
      → update_service env vs_id opts s ≡ (ok tt, s')
      → (info : ServiceInfo A) × (get_service s'.ctx vs_id ≡ ok info) × (info.backends ≡ [])
  get_service-update_service vs_id opts s s' v updated =
      let (p, _, _, e, _) =
        subst (Effect s.ctx (IsUpdated env vs_id opts s.ctx)) updated
          (update_service-Effect env vs_id opts s) in
      let new : Service = record { addr = s.ctx.next_addr; options = p } in
      let (info, listed, _, names) = get_service-attached s'.ctx vs_id new (
        ap (λ (c : Context A). lookup vs_id c.services) e
        ∙ lookup-insert_self vs_id new s.ctx.services) in
      (
        info,
        listed,
        names
            ∙ ap (λ (c : Context A). attached new c.backends) e
            ∙ attached-none new s.ctx.backends v.unique
                λ k b there. used_below b (v.backends k b there),
      )
    where
      used_below :
          (b : Backend A)
          → IsSound env s.ctx.next_addr b
          → nat_eq b.service.addr s.ctx.next_addr ≡ false
      used_below b sound =
          ground (arith, sound.addr_used, nat_eq_iff b.service.addr s.ctx.next_addr)
