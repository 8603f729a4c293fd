-- ===== src/Core/Sync/Defaults.antt =====
-- Synchronize of core/context.go and the defaults that Fill has put into a service.
use gorb.Prelude.{
  Text_eq, ◌≡◌, refl, ◌∙◌, ap, Bool, true, false, not, ◌&&◌, some, [], ◌∷◌, nat_eq_iff, ◌==◌,
  if◌then◌else◌, same_refl, subst,
}
use gorb.Prelude.Text.{Text, text, is_empty, to_lower}
use gorb.Prelude.Map.{lookup, lookup-insert_self}
use gorb.Prelude.Exec.{ok, pure, ◌>>◌}
use gorb.System.{Env}
use gorb.Core.Options.{ServiceOptions, compare_service, bool_eq}
use gorb.Core.Options.Filled.{Completes}
use gorb.Core.Context.{Service, Context, State, ignore}
use gorb.Core.Context.Rules.{Effect}
use gorb.Core.Context.Services.{create_service, remove_service}
use gorb.Core.Context.Create.{IsCreated, create_service-Effect}
use gorb.Core.Sync.{refresh_service}

-- The options leave nothing to Fill: the protocol is named in small letters, and the method is named.
abbrev pub is_explicit : ServiceOptions → Bool
is_explicit o =
    (not (is_empty o.protocol) && to_lower o.protocol == o.protocol) && not (is_empty o.method)

protocol_kept :
    (p : Text)
    → (to_lower (if is_empty p then text "tcp" else p) == p) ≡ (not (is_empty p) && to_lower p == p)
unfolding to_lower
protocol_kept [] = refl
protocol_kept (c ∷ p) = refl

method_kept : (m : Text) → ((if is_empty m then text "wrr" else m) == m) ≡ not (is_empty m)
method_kept [] = refl
method_kept (c ∷ m) = same_refl (c ∷ m)

bool_eq_refl : (b : Bool) → bool_eq b b ≡ true
bool_eq_refl true = refl
bool_eq_refl false = refl

rest : (a b c : Bool) → (a && b && true && c && true) ≡ ((a && b) && c)
rest true true true = refl
rest true true false = refl
rest true false c = refl
rest false b c = refl

compare_service-Completes :
    (o o' : ServiceOptions) → Completes o o' → compare_service o' o ≡ is_explicit o
unfolding compare_service
compare_service-Completes o o' v =
    rw
      (
        v.host,
        v.port,
        v.flags,
        v.persistent,
        v.protocol,
        v.method,
        same_refl o.host,
        same_refl o.flags,
        bool_eq_refl o.persistent,
        (nat_eq_iff o.port o.port).1 refl,
        protocol_kept o.protocol,
        method_kept o.method,
      )
      (rest (not (is_empty o.protocol)) (to_lower o.protocol == o.protocol)
        (not (is_empty o.method)))

module _ (env : Env) {A : Type 0} where
  -- What the next round of Synchronize does with a service that was made from a document which has
  -- not changed: nothing, if the document names the protocol, in small letters, and the method. If
  -- not, the service is removed and made again.
  pub refresh_service-create_service :
      (id : Text) (o : ServiceOptions) (s s' : State A)
      → create_service env id o s ≡ (ok tt, s')
      → refresh_service env id o (lookup id s'.ctx.services) s' ≡ (
          if is_explicit o
          then (ok tt, s')
          else (ignore (remove_service env id) >> ignore (create_service env id o)) s')
  refresh_service-create_service id o s s' created =
      let (gone, (o', _, w, e)) =
        subst (Effect s.ctx (IsCreated env id o s.ctx)) created
          (create_service-Effect env id o s) in
      let new : Service = record { addr = s.ctx.next_addr; options = o' } in
      let at : lookup id s'.ctx.services ≡ some new =
        ap (λ (c : Context A). lookup id c.services) e ∙ lookup-insert_self id new s.ctx.services in
      rw (at, compare_service-Completes o o' w) (branch (is_explicit o))
    where
      branch :
          (b : Bool)
          → (if b
                then pure tt
                else ignore (remove_service env id) >> ignore (create_service env id o))
              s'
            ≡ (if b
                then (ok tt, s')
                else (ignore (remove_service env id) >> ignore (create_service env id o)) s')
      branch true = refl
      branch false = refl
