-- ===== src/Core/Options/Filled.antt =====
-- What validation guarantees of options.
use gorb.Prelude.{
  Text_eq, ◌≡◌, ◌||◌, refl, true, false, [], ◌∷◌, Option, none, some, arith, nat_eq, if◌then◌else◌,
  Bool-cases, inl, inr, ap,
}
use gorb.Prelude.Text.{Text, text, is_empty, to_lower, to_lower_idem}
use gorb.Prelude.Exec.{
  Outcome, ok, err, panic, Exec, unresolved_host, throw, pure, ◌>>=◌, lift, continue,
}
use gorb.Util.Net.{Ip}
use gorb.System.{Env, Trace, resolve_addr}
use gorb.Ipvs.{valid_protocol, valid_forwarding}
use gorb.Core.Options.{
  ServiceOptions, BackendOptions, fill_host, fill_rest, fill_service, fill_backend_rest,
  fill_backend, valid_flags,
}

pub record IsFilled (env : Env) (o : ServiceOptions) : Type 0 where
  pub port_set : nat_eq o.port 0 ≡ false
  pub protocol_known : valid_protocol o.protocol ≡ true
  pub protocol_lower : to_lower o.protocol ≡ o.protocol
  pub flags_known : valid_flags env o.flags ≡ true
  pub method_set : is_empty o.method ≡ false

-- The options `o'` are those of a request, `o`, with the defaults filled in.
pub record Completes (o o' : ServiceOptions) : Type 0 where
  pub host : o'.host ≡ o.host
  pub port : o'.port ≡ o.port
  pub flags : o'.flags ≡ o.flags
  pub persistent : o'.persistent ≡ o.persistent
  pub protocol : o'.protocol ≡ to_lower (if is_empty o.protocol then text "tcp" else o.protocol)
  pub method : o'.method ≡ (if is_empty o.method then text "wrr" else o.method)

-- The same of backends, less the check, whose type is chosen later.
pub record CompletesBackend (o o' : BackendOptions) : Type 0 where
  pub host : o'.host ≡ o.host
  pub port : o'.port ≡ o.port
  pub weight : o'.weight ≡ (if nat_eq o.weight 0 then 100 else o.weight)
  pub method : o'.method ≡ to_lower (if is_empty o.method then text "nat" else o.method)

pub record IsFilledBackend (env : Env) (o : BackendOptions) : Type 0 where
  pub host_set : is_empty o.host ≡ false
  pub port_set : nat_eq o.port 0 ≡ false
  pub weight_set : nat_eq o.weight 0 ≡ false
  pub method_known : valid_forwarding env o.method ≡ true
  pub method_lower : to_lower o.method ≡ o.method

module _ (env : Env) where
  wrr_set : (m : Text) → is_empty (if is_empty m then text "wrr" else m) ≡ false
  wrr_set [] = refl
  wrr_set (c ∷ m) = refl

  fill_rest-IsFilled :
      (o o' : ServiceOptions) → nat_eq o.port 0 ≡ false → fill_rest env o ≡ ok o' → IsFilled env o'
  unfolding fill_rest
  fill_rest-IsFilled o o' p h = ground (
    arith,
    to_lower_idem (if is_empty o.protocol then text "tcp" else o.protocol),
    wrr_set o.method,
  )

  fill_rest-Completes :
      (o o' : ServiceOptions) (ip : Ip)
      → fill_rest env (record o { host_ip = ip }) ≡ ok o'
      → Completes o o'
  unfolding fill_rest
  fill_rest-Completes o o' ip h = ground arith

  fill_after_rule :
      (P : ServiceOptions → Type 0) (o o' : ServiceOptions) (t' : Trace) (r : Outcome Ip × Trace)
      → ((ip : Ip) → fill_rest env (record o { host_ip = ip }) ≡ ok o' → P o')
      → continue r.0 (λ ip. lift (fill_rest env (record o { host_ip = ip }))) r.1 ≡ (ok o', t')
      → P o'
  fill_after_rule P o o' t' (ok ip, u) rest e = rest ip (ap (λ q. q.0) e)
  fill_after_rule P o o' t' (err x, u) rest e = cc
  fill_after_rule P o o' t' (panic, u) rest e = cc

  fill_service_rule :
      (P : ServiceOptions → Type 0) (d : Option Ip) (o o' : ServiceOptions) (t t' : Trace)
      → (nat_eq o.port 0 ≡ false
          → (ip : Ip) → fill_rest env (record o { host_ip = ip }) ≡ ok o'
          → P o')
      → fill_service env d o t ≡ (ok o', t')
      → P o'
  unfolding fill_service
  fill_service_rule P d o o' t t' rest h = elim (Bool-cases (nat_eq o.port 0)) [
    | inl p ↦ absurd (ground arith)
    | inr p ↦ fill_after_rule P o o' t' (fill_host env o.host d t) (rest p) (rw p at h)
  ]

  pub fill_service-IsFilled :
      (d : Option Ip) (o o' : ServiceOptions) (t t' : Trace)
      → fill_service env d o t ≡ (ok o', t')
      → IsFilled env o'
  fill_service-IsFilled d o o' t t' =
      fill_service_rule (IsFilled env) d o o' t t'
        λ p ip. fill_rest-IsFilled (record o { host_ip = ip }) o' p

  pub fill_service-Completes :
      (d : Option Ip) (o o' : ServiceOptions) (t t' : Trace)
      → fill_service env d o t ≡ (ok o', t')
      → Completes o o'
  fill_service-Completes d o o' t t' =
      fill_service_rule (Completes o) d o o' t t' λ p ip. fill_rest-Completes o o' ip

  fill_rest-del_if_addr :
      (o o' : ServiceOptions) (ip : Ip)
      → fill_rest env (record o { host_ip = ip }) ≡ ok o'
      → o'.del_if_addr ≡ o.del_if_addr
  unfolding fill_rest
  fill_rest-del_if_addr o o' ip h = ground arith

  pub fill_service-del_if_addr :
      (d : Option Ip) (o o' : ServiceOptions) (t t' : Trace)
      → fill_service env d o t ≡ (ok o', t')
      → o'.del_if_addr ≡ o.del_if_addr
  fill_service-del_if_addr d o o' t t' =
      fill_service_rule (λ p. p.del_if_addr ≡ o.del_if_addr) d o o' t t'
        λ _ ip. fill_rest-del_if_addr o o' ip

  not_empty_of_valid : (p : Text) → valid_protocol p ≡ true → is_empty p ≡ false
  unfolding valid_protocol
  not_empty_of_valid [] h = cc
  not_empty_of_valid (c ∷ p) h = refl

  -- Service options that are filled in and valid are accepted by another validation, and left as they
  -- are; the resolution of the host is not part of this.
  fill_rest-stable : (o : ServiceOptions) → IsFilled env o → fill_rest env o ≡ ok o
  unfolding fill_rest
  fill_rest-stable o v = ground (arith, not_empty_of_valid o.protocol v.protocol_known)

  nat_set : (m : Text) → is_empty (if is_empty m then text "nat" else m) ≡ false
  nat_set [] = refl
  nat_set (c ∷ m) = refl

  fill_backend_rest-IsFilled :
      (o o' : BackendOptions)
      → is_empty o.host ≡ false
      → nat_eq o.port 0 ≡ false
      → fill_backend_rest env o ≡ ok o'
      → IsFilledBackend env o'
  unfolding fill_backend_rest
  fill_backend_rest-IsFilled o o' p q h =
      ground (arith, to_lower_idem (if is_empty o.method then text "nat" else o.method))

  fill_backend_rest-Completes :
      (o o' : BackendOptions) (ip : Ip)
      → fill_backend_rest env (record o { host_ip = ip }) ≡ ok o'
      → CompletesBackend o o'
  unfolding fill_backend_rest
  fill_backend_rest-Completes o o' ip h = ground arith

  fill_backend_after_rule :
      (P : BackendOptions → Type 0) (o o' : BackendOptions) (t' : Trace) (r : Option Ip) (u : Trace)
      → ((ip : Ip) → fill_backend_rest env (record o { host_ip = ip }) ≡ ok o' → P o')
      → let found : Exec Trace Ip = elim r [ none ↦ throw unresolved_host | some ip ↦ pure ip ] in
        (found >>= λ ip. lift (fill_backend_rest env (record o { host_ip = ip }))) u ≡ (ok o', t')
        → P o'
  fill_backend_after_rule P o o' t' (some ip) u rest e = rest ip (ap (λ z. z.0) e)
  fill_backend_after_rule P o o' t' none u rest e = cc

  pub fill_backend_rule :
      (P : BackendOptions → Type 0) (o o' : BackendOptions) (t t' : Trace)
      → (is_empty o.host ≡ false
          → nat_eq o.port 0 ≡ false
          → (ip : Ip) → fill_backend_rest env (record o { host_ip = ip }) ≡ ok o'
          → P o')
      → fill_backend env o t ≡ (ok o', t')
      → P o'
  unfolding fill_backend
  fill_backend_rule P o o' t t' rest h = elim (Bool-cases (is_empty o.host || nat_eq o.port 0)) [
    | inl p ↦ absurd (ground arith)
    | inr p ↦
        fill_backend_after_rule P o o' t' (env.resolves t o.host) (resolve_addr o.host ∷ t)
          (rest (ground arith) (ground arith)) (rw p at h)
  ]

  pub fill_backend-IsFilled :
      (o o' : BackendOptions) (t t' : Trace)
      → fill_backend env o t ≡ (ok o', t')
      → IsFilledBackend env o'
  fill_backend-IsFilled o o' t t' =
      fill_backend_rule (IsFilledBackend env) o o' t t'
        λ p q ip. fill_backend_rest-IsFilled (record o { host_ip = ip }) o' p q

  pub fill_backend-Completes :
      (o o' : BackendOptions) (t t' : Trace)
      → fill_backend env o t ≡ (ok o', t')
      → CompletesBackend o o'
  fill_backend-Completes o o' t t' =
      fill_backend_rule (CompletesBackend o) o o' t t' λ _ _ ip. fill_backend_rest-Completes o o' ip

  -- Completing options twice is completing them once.
  pub Completes-trans :
      {o o' o'' : ServiceOptions}
      → IsFilled env o'
      → Completes o o'
      → Completes o' o''
      → Completes o o''
  Completes-trans {o} {o'} {o''} v a b =
      ground (arith, not_empty_of_valid o'.protocol v.protocol_known)
