-- ===== src/Core/Options/Total.antt =====
-- Fill of core/options.go never panics; what it makes of the check of a backend.
use gorb.Prelude.{
  Text_eq, ◌≡◌, ◌≢◌, ◌||◌, ◌⊎◌, refl, [], ◌∷◌, Option, none, some, arith, nat_eq, Bool-cases, inl,
  inr,
}
use gorb.Prelude.Text.{Text, is_empty}
use gorb.Prelude.Exec.{Exec, Outcome, ok, err, panic, continue, lift, pure, throw, unresolved_host}
use gorb.Util.Net.{Ip}
use gorb.System.{Env, Trace, resolve_addr}
use gorb.Core.Options
use gorb.Pulse.Options.{PulseOptions, empty_options}
use gorb.Core.Options.Filled.{fill_backend_rule}
use gorb.Core.Options.{
  ServiceOptions, BackendOptions, fill_host, fill_rest, fill_service, fill_backend_rest,
  fill_backend,
}

continue-ne_panic :
    {S B C : Type 0} (r : Outcome B) (k : B → Exec S C) (s : S)
    → r ≢ panic
    → ((b : B) (t : S) → (k b t).0 ≢ panic)
    → (continue r k s).0 ≢ panic
continue-ne_panic (ok b) k s calm rest h = rest b s h
continue-ne_panic (err e) k s calm rest h = cc
continue-ne_panic panic k s calm rest h = calm refl

abbrev pub IsPulseOf : BackendOptions → BackendOptions → Type 0
IsPulseOf o o' =
    o'.pulse ≡ some (elim o.pulse as (λ _. PulseOptions) [ none ↦ empty_options | some p ↦ p ])

module _ (env : Env) where
  resolve_addr-ne_panic : (name : Text) (t : Trace) → (Options.resolve_addr env name t).0 ≢ panic
  resolve_addr-ne_panic name t h = ground arith

  fill_host-ne_panic :
      (name : Text) (d : Option Ip) (t : Trace) → (fill_host env name d t).0 ≢ panic
  unfolding fill_host
  fill_host-ne_panic [] none t h = cc
  fill_host-ne_panic [] (some ip) t h = cc
  fill_host-ne_panic (c ∷ name) d t h = resolve_addr-ne_panic (c ∷ name) t h

  fill_rest-ne_panic : (o : ServiceOptions) → fill_rest env o ≢ panic
  unfolding fill_rest
  fill_rest-ne_panic o h = ground arith

  pub fill_service-ne_panic :
      (d : Option Ip) (o : ServiceOptions) (t : Trace) → (fill_service env d o t).0 ≢ panic
  unfolding fill_service
  fill_service-ne_panic d o t h = elim (Bool-cases (nat_eq o.port 0)) [
    | inl p ↦ absurd (ground arith)
    | inr p ↦
        continue-ne_panic (fill_host env o.host d t).0
          (λ ip. lift (fill_rest env (record o { host_ip = ip }))) (fill_host env o.host d t).1
          (fill_host-ne_panic o.host d t) (λ ip u. fill_rest-ne_panic (record o { host_ip = ip }))
          (rw p at h)
  ]

  fill_backend_rest-ne_panic : (o : BackendOptions) → fill_backend_rest env o ≢ panic
  unfolding fill_backend_rest
  fill_backend_rest-ne_panic o h = ground arith

  pub fill_backend-ne_panic : (o : BackendOptions) (t : Trace) → (fill_backend env o t).0 ≢ panic
  unfolding fill_backend
  fill_backend-ne_panic o t h = elim (Bool-cases (is_empty o.host || nat_eq o.port 0)) [
    | inl p ↦ absurd (ground arith)
    | inr p ↦
        continue-ne_panic (Options.resolve_addr env o.host t).0
          (λ ip. lift (fill_backend_rest env (record o { host_ip = ip })))
          (Options.resolve_addr env o.host t).1 (resolve_addr-ne_panic o.host t)
          (λ ip u. fill_backend_rest-ne_panic (record o { host_ip = ip })) (rw p at h)
  ]

  fill_backend_rest-pulse :
      (o o' : BackendOptions) (ip : Ip)
      → fill_backend_rest env (record o { host_ip = ip }) ≡ ok o'
      → IsPulseOf o o'
  unfolding fill_backend_rest
  fill_backend_rest-pulse o o' ip h = ground arith

  -- The check is the one asked for, or the one without options.
  pub fill_backend-pulse :
      (o o' : BackendOptions) (t t' : Trace) → fill_backend env o t ≡ (ok o', t') → IsPulseOf o o'
  fill_backend-pulse o o' t t' =
      fill_backend_rule env (IsPulseOf o) o o' t t' λ _ _ ip. fill_backend_rest-pulse o o' ip

continue-trace :
    {B C : Type 0} (r : Outcome B) (g : B → Outcome C) (t : Trace)
    → (continue r (λ b. lift (g b)) t).1 ≡ t
continue-trace (ok b) g t = refl
continue-trace (err e) g t = refl
continue-trace panic g t = refl

-- Validation makes no call but that of the resolver.
abbrev pub OnlyResolves : Text → Trace → Trace → Type 0
OnlyResolves name t u = (u ≡ t) ⊎ (u ≡ resolve_addr name ∷ t)

module _ (env : Env) where
  found_address-trace :
      (found : Option Ip) (t : Trace)
      → (let m : Exec Trace Ip = elim found [ none ↦ throw unresolved_host | some ip ↦ pure ip ] in
          m t).1
        ≡ t
  found_address-trace none t = refl
  found_address-trace (some ip) t = refl

  fill_host-OnlyResolves :
      (name : Text) (d : Option Ip) (t : Trace) → OnlyResolves name t (fill_host env name d t).1
  unfolding fill_host
  fill_host-OnlyResolves [] none t = inl refl
  fill_host-OnlyResolves [] (some ip) t = inl refl
  fill_host-OnlyResolves (c ∷ name) d t =
      inr (found_address-trace (env.resolves t (c ∷ name)) (resolve_addr (c ∷ name) ∷ t))

  pub fill_service-OnlyResolves :
      (d : Option Ip) (o : ServiceOptions) (t : Trace)
      → OnlyResolves o.host t (fill_service env d o t).1
  unfolding fill_service
  fill_service-OnlyResolves d o t = elim (Bool-cases (nat_eq o.port 0)) [
    | inl p ↦ rw p (inl refl)
    | inr p ↦
        let r = fill_host env o.host d t in
        rw (p, continue-trace r.0 (λ ip. fill_rest env (record o { host_ip = ip })) r.1)
          (fill_host-OnlyResolves o.host d t)
  ]

  pub fill_backend-OnlyResolves :
      (o : BackendOptions) (t : Trace) → OnlyResolves o.host t (fill_backend env o t).1
  unfolding fill_backend
  fill_backend-OnlyResolves o t = elim (Bool-cases (is_empty o.host || nat_eq o.port 0)) [
    | inl p ↦ rw p (inl refl)
    | inr p ↦
        let r = Options.resolve_addr env o.host t in
        rw (p, continue-trace r.0 (λ ip. fill_backend_rest env (record o { host_ip = ip })) r.1)
          (inr (found_address-trace (env.resolves t o.host) (resolve_addr o.host ∷ t)))
  ]
