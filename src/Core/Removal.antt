-- ===== src/Core/Removal.antt =====
-- What becomes of the backends of a service that is removed, and of a backend that is removed twice.
use gorb.Prelude.{
  Text_eq, ◌≡◌, ◌≢◌, refl, sym, ap, ◌∙◌, false, Option, none, some, [], ◌∷◌, arith, nat_eq,
  nat_eq_iff, if◌then◌else◌, inl, inr, Bool-cases, ◌==◌, same_refl, subst,
}
use gorb.Prelude.Text.{Text}
use gorb.Prelude.Map.{
  Map, lookup, delete, lookup-delete, lookup-delete_self, lookup-insert_self, lookup-delete_ne,
  IsUnique,
}
use gorb.Prelude.Exec.{Outcome, ok, err, panic, ipvs_syscall_failed}
use gorb.System.{Env}
use gorb.Core.Options.{ServiceOptions, BackendOptions}
use gorb.Core.Context.{Service, Backend, Context, State}
use gorb.Core.Context.Rules.{Effect}
use gorb.Core.Context.Services.{update_service, remove_service}
use gorb.Core.Context.Backends.{remove_backend}
use gorb.Core.Context.Create.{IsUpdated, update_service-Effect}
use gorb.Core.Context.Detach.{halted, IsDetached, remove_backend-IsDetached}
use gorb.Core.Context.Remove.{points_to, drop_orphans, IsRemoved, remove_service-IsRemoved}
use gorb.Core.Invariant.{IsSound, IsValid}

module _ {A : Type 0} where
  -- What is left of an entry once the backends of a service have gone.
  abbrev pub survive : Service → Option (Backend A) → Option (Backend A)
  survive vs none = none
  survive vs (some b) = if points_to vs b then none else some b

  -- The loop spares what does not stand among the entries listed.
  drop_orphans-absent :
      (vs : Service) (k : Text) (bs m : Map Text (Backend A))
      → lookup k bs ≡ none
      → lookup k (drop_orphans vs bs m) ≡ lookup k m
  unfolding drop_orphans lookup
  drop_orphans-absent vs k [] m h = refl
  drop_orphans-absent vs k ((j, c) ∷ rest) m h = elim (Bool-cases (j == k)) [
    | inl same ↦ absurd (ground arith)
    | inr other ↦
        drop_orphans-absent vs k rest (if points_to vs c then delete j m else m) (ground arith)
        ∙ ground (arith, lookup-delete j k m)
  ]

  pub drop_orphans-lookup :
      (vs : Service) (k : Text) (bs m : Map Text (Backend A))
      → IsUnique bs
      → lookup k bs ≡ lookup k m
      → lookup k (drop_orphans vs bs m) ≡ survive vs (lookup k m)
  unfolding drop_orphans lookup
  drop_orphans-lookup vs k [] m u h = ground arith
  drop_orphans-lookup vs k ((j, c) ∷ rest) m (fresh, u) h = elim (Bool-cases (j == k)) [
    | inl same ↦
        drop_orphans-absent vs k rest (if points_to vs c then delete j m else m)
          (subst (λ i. lookup i rest ≡ none) ((Text_eq.same_iff j k).0 same) fresh)
        ∙ ground (arith, lookup-delete j k m)
    | inr other ↦
        drop_orphans-lookup vs k rest (if points_to vs c then delete j m else m) u
          (ground (arith, lookup-delete j k m))
        ∙ ground (arith, lookup-delete j k m)
  ]

  -- A service to which no backend points leaves all of them.
  drop_orphans-none :
      (vs : Service) (bs m : Map Text (Backend A))
      → IsUnique bs
      → ((k : Text) (b : Backend A) → lookup k bs ≡ some b → points_to vs b ≡ false)
      → drop_orphans vs bs m ≡ m
  unfolding drop_orphans lookup
  drop_orphans-none vs [] m u apart = refl
  drop_orphans-none vs ((j, c) ∷ rest) m (fresh, u) apart =
      rw (apart j c (rw (same_refl j)))
        (drop_orphans-none vs rest m u (λ k b h. apart k b (ground (arith, Text_eq.same_iff j k))))

-- Every backend points to a service that is registered.
pub record IsLinked {A : Type 0} (c : Context A) : Type 0 where
  pub target :
      (k : Text) (b : Backend A)
      → lookup k c.backends ≡ some b
      → (j : Text) × (lookup j c.services ≡ some b.service)

module _ (env : Env) {A : Type 0} where
  -- From a valid context, removing a service that succeeds takes the service away, takes away each
  -- backend that points to it, and leaves every other backend as it was.
  pub remove_service-backends :
      (vs_id : Text) (s s' : State A) (vs : Service) (o : ServiceOptions)
      → IsValid env s.ctx
      → lookup vs_id s.ctx.services ≡ some vs
      → remove_service env vs_id s ≡ (ok o, s')
      → (lookup vs_id s'.ctx.services ≡ none)
        × (o ≡ vs.options)
        × ((k : Text) → lookup k s'.ctx.backends ≡ survive vs (lookup k s.ctx.backends))
  remove_service-backends vs_id s s' vs o v there h =
      let (ws, known, same, _, e) =
        subst (IsRemoved vs_id s.ctx) h (remove_service-IsRemoved env vs_id s) in
      let eq : vs ≡ ws = ground arith in
      rw (e, eq)
        (
          lookup-delete_self vs_id s.ctx.services,
          same,
          λ k. drop_orphans-lookup ws k s.ctx.backends s.ctx.backends v.unique refl,
        )

  remove_service-target :
      (vs_id : Text) (s s' : State A) (o : ServiceOptions)
      → IsValid env s.ctx
      → IsLinked s.ctx
      → remove_service env vs_id s ≡ (ok o, s')
      → (k : Text) (b : Backend A) → lookup k s'.ctx.backends ≡ some b
      → (j : Text) × (lookup j s'.ctx.services ≡ some b.service)
  remove_service-target vs_id s s' o v linked h k b there =
      let (vs, known, _, _, e) =
        subst (IsRemoved vs_id s.ctx) h (remove_service-IsRemoved env vs_id s) in
      let left : survive vs (lookup k s.ctx.backends) ≡ some b =
        sym ((remove_service-backends vs_id s s' vs o v known h).2 k) ∙ there in
      linked_after vs (lookup k s.ctx.backends) refl left known e
    where
      linked_after :
          (vs : Service) (found : Option (Backend A))
          → lookup k s.ctx.backends ≡ found
          → survive vs found ≡ some b
          → lookup vs_id s.ctx.services ≡ some vs
          → s'.ctx ≡ record s.ctx {
            services = delete vs_id s.ctx.services;
            backends = drop_orphans vs s.ctx.backends s.ctx.backends;
          }
          → (j : Text) × (lookup j s'.ctx.services ≡ some b.service)
      linked_after vs none at left known e = cc
      linked_after vs (some c) at left known e = elim (Bool-cases (points_to vs c)) [
        | inl own ↦ absurd (ground arith)
        | inr other ↦
            let (j, held) = linked.target k c at in
            let apart : vs_id ≢ j = λ q. absurd (
              ground (
                arith,
                nat_eq_iff c.service.addr vs.addr,
                subst (λ i. lookup i s.ctx.services ≡ some c.service) (sym q) held,
              )) in
            (j, rw (e, lookup-delete_ne vs_id j s.ctx.services apart) (ground arith))
      ]

  -- From a valid context in which every backend points to a registered service, removing a service
  -- that succeeds leads to a context in which every backend points to a registered service.
  pub remove_service-IsLinked :
      (vs_id : Text) (s s' : State A) (o : ServiceOptions)
      → IsValid env s.ctx
      → IsLinked s.ctx
      → remove_service env vs_id s ≡ (ok o, s')
      → IsLinked s'.ctx
  remove_service-IsLinked vs_id s s' o v linked h = record {
    target = remove_service-target vs_id s s' o v linked h;
  }

  -- From a valid context, updating a service and then removing it, both with success, leaves the
  -- backends as they were: none is removed with the service.
  pub remove_service-update_service :
      (vs_id : Text) (opts o : ServiceOptions) (s s' s'' : State A)
      → IsValid env s.ctx
      → update_service env vs_id opts s ≡ (ok tt, s')
      → remove_service env vs_id s' ≡ (ok o, s'')
      → s''.ctx.backends ≡ s.ctx.backends
  remove_service-update_service vs_id opts o s s' s'' v updated gone =
      let (p, _, _, e, _) =
        subst (Effect s.ctx (IsUpdated env vs_id opts s.ctx)) updated
          (update_service-Effect env vs_id opts s) in
      let (vs, known, _, _, e') =
        subst (IsRemoved vs_id s'.ctx) gone (remove_service-IsRemoved env vs_id s') in
      let new : Service = record { addr = s.ctx.next_addr; options = p } in
      let eq : vs ≡ new = ground (
        arith,
        ap (λ (c : Context A). lookup vs_id c.services) e,
        lookup-insert_self vs_id new s.ctx.services,
      ) in
      rw (e', e, eq)
        (drop_orphans-none new s.ctx.backends s.ctx.backends v.unique
          λ k b there. older b (v.backends k b there))
    where
      older :
          (b : Backend A)
          → IsSound env s.ctx.next_addr b
          → nat_eq b.service.addr s.ctx.next_addr ≡ false
      older b sound = ground (arith, sound.addr_used, nat_eq_iff b.service.addr s.ctx.next_addr)

  stuck :
      (rs_id : Text) (c : Context A) (b : Backend A) (r : Outcome BackendOptions × State A)
      → IsDetached rs_id c r
      → lookup rs_id c.backends ≡ some (halted b)
      → r.0 ≡ panic
  stuck rs_id c b (ok x, t) (d, at, running, _, _) there = cc
  stuck rs_id c b (err x, t) (inl (gone, _, _)) there = cc
  stuck rs_id c b (err x, t) (inr (d, at, running, _, _)) there = cc
  stuck rs_id c b (panic, t) d there = refl

  -- Once IPVS has refused the removal of a backend, the next removal of it panics.
  pub remove_backend_twice :
      (vs_id vs_id' rs_id : Text) (s s' : State A)
      → remove_backend env vs_id rs_id s ≡ (err ipvs_syscall_failed, s')
      → (remove_backend env vs_id' rs_id s').0 ≡ panic
  remove_backend_twice vs_id vs_id' rs_id s s' refused =
      again (subst (IsDetached rs_id s.ctx) refused (remove_backend-IsDetached env vs_id rs_id s))
        (remove_backend env vs_id' rs_id s') (remove_backend-IsDetached env vs_id' rs_id s')
    where
      again :
          IsDetached rs_id s.ctx (err ipvs_syscall_failed, s')
          → (r : Outcome BackendOptions × State A) → IsDetached rs_id s'.ctx r
          → r.0 ≡ panic
      again (inl (_, e, _)) r d = cc
      again (inr (b, _, _, _, e)) r d = stuck rs_id s'.ctx b r d (
          ap (λ (c : Context A). lookup rs_id c.backends) e
          ∙ lookup-insert_self rs_id (halted b) s.ctx.backends)
