-- ===== src/Core/Sync/Services.antt =====
-- The services after Synchronize of core/context.go.
use gorb.Prelude.{
  Text_eq, ◌≡◌, ◌≢◌, refl, true, false, Option, none, some, List, [], ◌∷◌, arith, Bool-cases, inl,
  inr, ◌⊎◌, ◌==◌, if◌then◌else◌, All, subst, ◌∙◌, same_refl,
}
use gorb.Prelude.Text.{Text}
use gorb.Prelude.Map.{
  Map, lookup, keys, lookup-delete, lookup-insert_cases, Round, Round-same, Round-gone, Remains,
  Remains-step, Remains-done, keys-Among, IsUnique, unique-entries,
}
use gorb.Prelude.Exec.{Outcome, ok, err, panic, ◌>>◌}
use gorb.System.{Env}
use gorb.Core.Options.{ServiceOptions, compare_service}
use gorb.Core.Options.Filled.{Completes}
use gorb.Core.Context.{Service, Context, State, ignore, drop_error}
use gorb.Core.Context.Rules.{continue-ok, Effect}
use gorb.Core.Context.Services.{create_service, remove_service}
use gorb.Core.Context.Create.{IsCreated, create_service-Effect}
use gorb.Core.Context.Remove.{IsRemoved, remove_service-IsRemoved}
use gorb.Core.Sync.{drop_service, drop_services, refresh_service, refresh_services}

abbrev Matching : ServiceOptions → Service → Type 0
Matching o vs = (compare_service vs.options o ≡ true) ⊎ Completes o vs.options

-- A service has options that compare equal to the document of its name, or was made from it.
abbrev pub Follows : Map Text ServiceOptions → Text → Service → Type 0
Follows stored k vs = (o : ServiceOptions) × (lookup k stored ≡ some o) × Matching o vs

abbrev pub IsStored : Map Text ServiceOptions → Text → Service → Type 0
IsStored stored k vs = (o : ServiceOptions) × (lookup k stored ≡ some o)

module _ (env : Env) {A : Type 0} where
  -- A removal that does not panic leaves no service of the name, and the others alone.
  remove_service-gone :
      (id : Text) (s : State A)
      → (ignore (remove_service env id) s).0 ≡ ok tt
      → (k : Text)
      → lookup k (ignore (remove_service env id) s).1.ctx.services
        ≡ (if id == k then none else lookup k s.ctx.services)
  remove_service-gone id s = gone (remove_service env id s) (remove_service-IsRemoved env id s)
    where
      gone :
          (r : Outcome ServiceOptions × State A)
          → IsRemoved id s.ctx r
          → drop_error r.0 ≡ ok tt
          → (k : Text)
          → lookup k r.1.ctx.services ≡ (if id == k then none else lookup k s.ctx.services)
      gone (ok o, t) (vs, there, _, _, e) h k = rw e (lookup-delete id k s.ctx.services)
      gone (err x, t) (inl (absent, _, e)) h k = rw e (ground (arith, Text_eq.same_iff id k))
      gone (err x, t) (inr (vs, there, _, e)) h k = rw e (lookup-delete id k s.ctx.services)
      gone (panic, t) d h k = cc

  -- A creation under a free name that does not panic.
  create_service-Round :
      (id : Text) (o : ServiceOptions) (s : State A)
      → lookup id s.ctx.services ≡ none
      → Round
          (λ (vs : Service). Completes o vs.options)
          id
          s.ctx.services
          (ignore (create_service env id o) s).1.ctx.services
  create_service-Round id o s free =
      new (create_service env id o s) (create_service-Effect env id o s)
    where
      kept :
          (k : Text) (vs : Service)
          → lookup k s.ctx.services ≡ some vs
          → ((id ≢ k) × (lookup k s.ctx.services ≡ some vs)) ⊎ ((id ≡ k) × Completes o vs.options)
      kept k vs h = inl (
        λ same. absurd (ground (arith, subst (λ j. lookup j s.ctx.services ≡ none) same free)),
        h,
      )

      new :
          (r : Outcome Unit × State A)
          → Effect s.ctx (IsCreated env id o s.ctx) r
          → Round (λ (vs : Service). Completes o vs.options) id s.ctx.services r.1.ctx.services
      new (ok _, t) (gone, (o', _, w, e)) k vs h =
          elim (lookup-insert_cases id k (record { addr = s.ctx.next_addr; options = o' }) vs
            s.ctx.services (subst (λ (c : Context A). lookup k c.services ≡ some vs) e h)) [
              | inl (same, made) ↦ inr (same, subst (λ (x : Service). Completes o x.options) made w)
              | inr old ↦ kept k vs old
            ]
      new (err x, t) e k vs h =
          kept k vs (subst (λ (c : Context A). lookup k c.services ≡ some vs) e h)
      new (panic, t) e k vs h =
          kept k vs (subst (λ (c : Context A). lookup k c.services ≡ some vs) e h)

  recreate-Round :
      (id : Text) (o : ServiceOptions) (s : State A)
      → (ignore (remove_service env id) s).0 ≡ ok tt
      → Round
          (Matching o)
          id
          s.ctx.services
          (ignore (create_service env id o) (ignore (remove_service env id) s).1).1.ctx.services
  recreate-Round id o s removed k vs there =
      let t = (ignore (remove_service env id) s).1 in
      let at = remove_service-gone id s removed in
      elim (create_service-Round id o t (at id ∙ rw (same_refl id)) k vs there) [
        | inl (other, h) ↦ inl (other, ground (arith, at k, Text_eq.same_iff id k))
        | inr (same, made) ↦ inr (same, inr made)
      ]

  refresh_service-Round :
      (id : Text) (o : ServiceOptions) (found : Option Service) (s : State A)
      → lookup id s.ctx.services ≡ found
      → (refresh_service env id o found s).0 ≡ ok tt
      → Round (Matching o) id s.ctx.services (refresh_service env id o found s).1.ctx.services
  refresh_service-Round id o none s e h = λ k vs there.
      elim (create_service-Round id o s e k vs there) [
        | inl other ↦ inl other
        | inr (same, made) ↦ inr (same, inr made)
      ]
  refresh_service-Round id o (some ws) s e h = elim (Bool-cases (compare_service ws.options o)) [
    | inl equal ↦
        rw equal (Round-same (Matching o) id s.ctx.services (λ vs there. inl (ground arith)))
    | inr other ↦ rw other (again other)
  ]
    where
      again :
          compare_service ws.options o ≡ false
          → Round
              (Matching o)
              id
              s.ctx.services
              ((ignore (remove_service env id) >> ignore (create_service env id o))
                s).1.ctx.services
      again other =
          let (u, removed, done, same) =
            continue-ok (ignore (remove_service env id) s).0 (λ _. ignore (create_service env id o))
              (ignore (remove_service env id) s).1 tt (rw other at h) in
          rw same (recreate-Round id o s removed)

  drop_service-Round :
      (stored : Map Text ServiceOptions) (id : Text) (found : Option ServiceOptions) (s : State A)
      → lookup id stored ≡ found
      → (drop_service env id found s).0 ≡ ok tt
      → Round (IsStored stored id) id s.ctx.services (drop_service env id found s).1.ctx.services
  drop_service-Round stored id none s e h =
      Round-gone (IsStored stored id) id s.ctx.services
        (ignore (remove_service env id) s).1.ctx.services (remove_service-gone id s h)
  drop_service-Round stored id (some o) s e h =
      Round-same (IsStored stored id) id s.ctx.services (λ _ _. (o, e))

  drop_services-Remains :
      (stored : Map Text ServiceOptions) (ids : List Text) (s : State A)
      → (drop_services env stored ids s).0 ≡ ok tt
      → Remains (IsStored stored) s.ctx.services ids
      → Remains (IsStored stored) (drop_services env stored ids s).1.ctx.services []
  unfolding drop_services
  drop_services-Remains stored [] s h r = r
  drop_services-Remains stored (id ∷ ids) s h r =
      let m = drop_service env id (lookup id stored) in
      let (u, done, more, same) =
        continue-ok (m s).0 (λ _. drop_services env stored ids) (m s).1 tt h in
      rw same (
        drop_services-Remains stored ids (m s).1 more (
          Remains-step (IsStored stored) (IsStored stored id) s.ctx.services (m s).1.ctx.services id
            ids (drop_service-Round stored id (lookup id stored) s refl done) (λ vs q. q) r))

  refresh_services-Remains :
      (stored rest : Map Text ServiceOptions) (s : State A)
      → All (λ e. lookup e.0 stored ≡ some e.1) rest
      → (refresh_services env rest s).0 ≡ ok tt
      → Remains (Follows stored) s.ctx.services (keys rest)
      → Remains (Follows stored) (refresh_services env rest s).1.ctx.services []
  unfolding refresh_services
  refresh_services-Remains stored [] s a h r = r
  refresh_services-Remains stored ((id, o) ∷ rest) s (at, a) h r =
      let m = refresh_service env id o (lookup id s.ctx.services) in
      let (u, done, more, same) =
        continue-ok (m s).0 (λ _. refresh_services env rest) (m s).1 tt h in
      rw same (
        refresh_services-Remains stored rest (m s).1 a more (
          Remains-step (Follows stored) (Matching o) s.ctx.services (m s).1.ctx.services id
            (keys rest) (refresh_service-Round id o (lookup id s.ctx.services) s refl done)
            (λ vs q. (o, at, q)) r))

  -- Services that the store holds are all that is left, and then agree with it.
  pub drop_services-IsStored :
      (stored : Map Text ServiceOptions) (s : State A)
      → (drop_services env stored (keys s.ctx.services) s).0 ≡ ok tt
      → (k : Text) (vs : Service)
      → lookup k (drop_services env stored (keys s.ctx.services) s).1.ctx.services ≡ some vs
      → IsStored stored k vs
  drop_services-IsStored stored s h =
      let m = (drop_services env stored (keys s.ctx.services) s).1.ctx.services in
      Remains-done (IsStored stored) m (
        drop_services-Remains stored (keys s.ctx.services) s h
          (λ k vs there. inr (keys-Among k vs s.ctx.services there)))

  pub refresh_services-Follows :
      (stored : Map Text ServiceOptions) (s : State A)
      → IsUnique stored
      → ((k : Text) (vs : Service) → lookup k s.ctx.services ≡ some vs → IsStored stored k vs)
      → (refresh_services env stored s).0 ≡ ok tt
      → (k : Text) (vs : Service)
      → lookup k (refresh_services env stored s).1.ctx.services ≡ some vs
      → Follows stored k vs
  refresh_services-Follows stored s unique before h =
      Remains-done (Follows stored) (refresh_services env stored s).1.ctx.services (
        refresh_services-Remains stored stored s (unique-entries stored unique) h
          (λ k vs there. let (o, e) = before k vs there in inr (keys-Among k o stored e)))
