-- ===== src/Core/Context/Remove.antt =====
-- What removing a service does to the context, on every branch.
use gorb.Prelude.{
  Text_eq, ◌≡◌, refl, Bool, true, false, ◌&&◌, ◌||◌, none, some, [], ◌∷◌, arith, nat_eq,
  if◌then◌else◌, ◌∙◌, ◌⊎◌, inl, inr, Bool-cases,
}
use gorb.Prelude.Text.{Text}
use gorb.Prelude.Map.{Map, lookup, delete, lookup-delete, IsUnique, delete-IsUnique}
use gorb.Prelude.Exec.{
  Outcome, ok, err, panic, object_not_found, ipvs_syscall_failed, pure, ◌>>=◌, ◌>>◌,
}
use gorb.System.{Env, Trace}
use gorb.Disco
use gorb.Ipvs
use gorb.Pulse.Driver.{stop}
use gorb.Core.Options.{ServiceOptions}
use gorb.Core.Store
use gorb.Core.Context.{Service, Backend, Context, State, on_trace, ignore, when_some}
use gorb.Core.Context.Rules.{found_rule, calm_ipvs_rule, calm_ignore_rule, ignore_lem}
use gorb.Core.Context.Calm.{
  del_vip-Calm, store_remove_backend-Calm, store_remove_service-Calm, disco_remove-Calm,
  ipvs_remove_service-Calm,
}
use gorb.Core.Context.Services.{clean_up_backend, visit, clean_up, remove_service, del_vip}

module _ {A : Type 0} where
  abbrev pub points_to : Service → Backend A → Bool
  points_to vs b = nat_eq b.service.addr vs.addr

  -- The backends left once those of a service, among the entries listed, have been deleted.
  unfoldable pub drop_orphans :
      Service → Map Text (Backend A) → Map Text (Backend A) → Map Text (Backend A)
  drop_orphans vs [] m = m
  drop_orphans vs ((rs_id, b) ∷ rest) m =
      drop_orphans vs rest (if points_to vs b then delete rs_id m else m)

  -- Whether the check of one of those backends has been stopped before.
  unfoldable pub has_halted : Service → Map Text (Backend A) → Bool
  has_halted vs [] = false
  has_halted vs ((rs_id, b) ∷ rest) = (points_to vs b && b.monitor.stopped) || has_halted vs rest

  abbrev pub Within : Map Text (Backend A) → Map Text (Backend A) → Type 0
  Within m n = (k : Text) (b : Backend A) → lookup k m ≡ some b → lookup k n ≡ some b

  -- Some entries of a map, with no key twice if the map has none.
  abbrev pub Fewer : Map Text (Backend A) → Map Text (Backend A) → Type 0
  Fewer m n = Within m n × (IsUnique n → IsUnique m)

  delete-Fewer : (rs_id : Text) (m n : Map Text (Backend A)) → Fewer m (delete rs_id n) → Fewer m n
  delete-Fewer rs_id m n (w, u) = (
    λ k b h. ground (arith, w k b h, lookup-delete rs_id k n),
    λ v. u (delete-IsUnique rs_id n v),
  )

  pub drop_orphans-Within :
      (vs : Service) (bs m : Map Text (Backend A)) → Within (drop_orphans vs bs m) m
  unfolding drop_orphans
  drop_orphans-Within vs [] m k b h = h
  drop_orphans-Within vs ((rs_id, c) ∷ rest) m k b h = elim (Bool-cases (points_to vs c)) [
    | inl e ↦
        ground (arith, drop_orphans-Within vs rest (delete rs_id m) k b, lookup-delete rs_id k m)
    | inr e ↦ ground (arith, drop_orphans-Within vs rest m k b)
  ]

  drop_orphans-IsUnique :
      (vs : Service) (bs m : Map Text (Backend A)) → IsUnique m → IsUnique (drop_orphans vs bs m)
  unfolding drop_orphans
  drop_orphans-IsUnique vs [] m u = u
  drop_orphans-IsUnique vs ((rs_id, c) ∷ rest) m u = elim (Bool-cases (points_to vs c)) [
    | inl e ↦ rw e (drop_orphans-IsUnique vs rest (delete rs_id m) (delete-IsUnique rs_id m u))
    | inr e ↦ rw e (drop_orphans-IsUnique vs rest m u)
  ]

  pub drop_orphans-Fewer :
      (vs : Service) (bs m : Map Text (Backend A)) → Fewer (drop_orphans vs bs m) m
  drop_orphans-Fewer vs bs m = (drop_orphans-Within vs bs m, drop_orphans-IsUnique vs bs m)

  -- The loop deletes exactly the backends of the service, or panics at one that has been stopped.
  abbrev pub CleansUp : Service → Map Text (Backend A) → Context A → Outcome Unit × State A → Type 0
  CleansUp vs bs c (ok _, s) =
      (has_halted vs bs ≡ false) × (s.ctx ≡ record c { backends = drop_orphans vs bs c.backends })
  CleansUp vs bs c (err e, s) = ⊥
  CleansUp vs bs c (panic, s) =
      (has_halted vs bs ≡ true)
      × ((m : Map Text (Backend A)) × Fewer m c.backends × (s.ctx ≡ record c { backends = m }))

  CleansUp-other :
      (vs : Service) (rs_id : Text) (b : Backend A) (rest : Map Text (Backend A)) (c : Context A)
      (r : Outcome Unit × State A)
      → points_to vs b ≡ false
      → CleansUp vs rest c r
      → CleansUp vs ((rs_id, b) ∷ rest) c r
  unfolding drop_orphans has_halted
  CleansUp-other vs rs_id b rest c (ok x, s) other h = rw other h
  CleansUp-other vs rs_id b rest c (err e, s) other h = h
  CleansUp-other vs rs_id b rest c (panic, s) other h = rw other h

  CleansUp-own :
      (vs : Service) (rs_id : Text) (b : Backend A) (rest : Map Text (Backend A)) (c : Context A)
      (r : Outcome Unit × State A)
      → points_to vs b ≡ true
      → b.monitor.stopped ≡ false
      → CleansUp vs rest (record c { backends = delete rs_id c.backends }) r
      → CleansUp vs ((rs_id, b) ∷ rest) c r
  unfolding drop_orphans has_halted
  CleansUp-own vs rs_id b rest c (ok x, s) own running h = ground arith
  CleansUp-own vs rs_id b rest c (err e, s) own running h = h
  CleansUp-own vs rs_id b rest c (panic, s) own running (h, (m, w, e)) =
      (ground arith, (m, delete-Fewer rs_id m c.backends w, e))

  -- On success the service is gone, and so are the backends that point to it. If IPVS fails, the
  -- service is gone too, and its backends are not.
  abbrev pub IsRemoved : Text → Context A → Outcome ServiceOptions × State A → Type 0
  IsRemoved vs_id c (ok o, s) =
      (vs : Service) × (lookup vs_id c.services ≡ some vs)
      × (o ≡ vs.options)
      × (has_halted vs c.backends ≡ false)
      × (s.ctx ≡ record c {
        services = delete vs_id c.services;
        backends = drop_orphans vs c.backends c.backends;
      })
  IsRemoved vs_id c (err e, s) =
      ((lookup vs_id c.services ≡ none) × (e ≡ object_not_found) × (s.ctx ≡ c))
      ⊎ ((vs : Service) × (lookup vs_id c.services ≡ some vs)
          × (e ≡ ipvs_syscall_failed)
          × (s.ctx ≡ record c { services = delete vs_id c.services }))
  IsRemoved vs_id c (panic, s) =
      (vs : Service) × (lookup vs_id c.services ≡ some vs)
      × (has_halted vs c.backends ≡ true)
      × ((m : Map Text (Backend A)) × Fewer m c.backends
          × (s.ctx ≡ record c { services = delete vs_id c.services; backends = m }))

module _ (env : Env) {A : Type 0} where
  clean_up_backend-running :
      (rs_id : Text) (b : Backend A) (s : State A)
      → b.monitor.stopped ≡ false
      → (t : Trace) × (clean_up_backend env rs_id b s ≡ (
        ok tt,
        record { ctx = record s.ctx { backends = delete rs_id s.ctx.backends }; trace = t },
      ))
  unfolding clean_up_backend stop
  clean_up_backend-running rs_id b s h =
      let m = when_some s.ctx.store λ store. Store.remove_backend env store rs_id in
      (
        (m s.trace).1,
        rw h (
            ignore_lem (record s { ctx = record s.ctx { backends = delete rs_id s.ctx.backends } })
              m (store_remove_backend-Calm env s.ctx.store rs_id)),
      )

  clean_up_backend-halted :
      (rs_id : Text) (b : Backend A) (s : State A)
      → b.monitor.stopped ≡ true
      → clean_up_backend env rs_id b s ≡ (panic, s)
  unfolding clean_up_backend stop
  clean_up_backend-halted rs_id b s h = rw h

  visit-other :
      (vs : Service) (rs_id : Text) (b : Backend A) (s : State A)
      → points_to vs b ≡ false
      → visit env vs rs_id b s ≡ (ok tt, s)
  unfolding visit
  visit-other vs rs_id b s h = rw h

  visit-own :
      (vs : Service) (rs_id : Text) (b : Backend A) (s : State A)
      → points_to vs b ≡ true
      → visit env vs rs_id b s ≡ clean_up_backend env rs_id b s
  unfolding visit
  visit-own vs rs_id b s h = rw h

  pub clean_up-CleansUp :
      (vs : Service) (bs : Map Text (Backend A)) (s : State A)
      → CleansUp vs bs s.ctx (clean_up env vs bs s)
  unfolding clean_up drop_orphans has_halted
  clean_up-CleansUp vs [] s = (refl, refl)
  clean_up-CleansUp vs ((rs_id, b) ∷ rest) s = elim (Bool-cases (points_to vs b)) [
    | inr other ↦ rw (visit-other vs rs_id b s other) (
        CleansUp-other vs rs_id b rest s.ctx (clean_up env vs rest s) other
          (clean_up-CleansUp vs rest s))
    | inl own ↦ (elim (Bool-cases b.monitor.stopped) [
      | inl halted ↦
          rw (visit-own vs rs_id b s own ∙ clean_up_backend-halted rs_id b s halted)
            (ground arith, (s.ctx.backends, (λ k b h. h, λ u. u), refl))
      | inr running ↦
          let (t, e) = clean_up_backend-running rs_id b s running in
          let s' : State A = record {
            ctx = record s.ctx { backends = delete rs_id s.ctx.backends };
            trace = t;
          } in
          rw (visit-own vs rs_id b s own ∙ e) (
            CleansUp-own vs rs_id b rest s.ctx (clean_up env vs rest s') own running
              (clean_up-CleansUp vs rest s'))
    ])
  ]

  cleaned :
      (vs_id : Text) (vs : Service) (c : Context A) (r : Outcome Unit × State A)
      → lookup vs_id c.services ≡ some vs
      → CleansUp vs c.backends (record c { services = delete vs_id c.services }) r
      → IsRemoved vs_id c (
          ((λ (_ : State A). r) >>= λ _. (do
            ignore (on_trace (Disco.remove env c.disco vs_id))
            pure vs.options))
            r.1)
  cleaned vs_id vs c (ok x, s) there (running, e) =
      calm_ignore_rule (IsRemoved vs_id c) _ s (Disco.remove env c.disco vs_id)
        (disco_remove-Calm env c.disco vs_id) λ t. (vs, there, refl, running, e)
  cleaned vs_id vs c (err x, s) there h = absurd h
  cleaned vs_id vs c (panic, s) there (halted, (m, w, e)) = (vs, there, halted, (m, w, e))

  -- Removing a service that is not there fails and changes nothing. Otherwise the service is taken
  -- away. If IPVS fails, its backends stay. If not, the call takes away the backends that point to the
  -- service, or panics if the check of one of them has been stopped before.
  pub remove_service-IsRemoved :
      (vs_id : Text) (s : State A) → IsRemoved vs_id s.ctx (remove_service env vs_id s)
  unfolding remove_service
  remove_service-IsRemoved vs_id s =
      found_rule P _ _ (lookup vs_id s.ctx.services) (λ h. inl (h, refl, refl))
        λ vs there.
          calm_ignore_rule P _ (record s { ctx = gone })
            (del_vip env s.ctx.vip_interface vs.options)
            (del_vip-Calm env s.ctx.vip_interface vs.options)
            λ t.
              calm_ipvs_rule P _ (record { ctx = gone; trace = t })
                (Ipvs.remove_service env vs.options.host_ip vs.options.port vs.options.protocol)
                (ipvs_remove_service-Calm env vs.options.host_ip vs.options.port
                  vs.options.protocol)
                (λ u. inr (vs, there, refl, refl))
                λ _ u.
                  calm_ignore_rule P _ (record { ctx = gone; trace = u })
                    (when_some s.ctx.store λ store. Store.remove_service env store vs_id)
                    (store_remove_service-Calm env s.ctx.store vs_id)
                    λ v.
                      cleaned vs_id vs s.ctx
                        (clean_up env vs s.ctx.backends (record { ctx = gone; trace = v })) there
                        (clean_up-CleansUp vs s.ctx.backends (record { ctx = gone; trace = v }))
    where
      P : Outcome ServiceOptions × State A → Type 0
      P = IsRemoved vs_id s.ctx

      gone : Context A
      gone = record s.ctx { services = delete vs_id s.ctx.services }
