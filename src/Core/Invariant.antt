-- ===== src/Core/Invariant.antt =====
-- What holds of the context whatever requests and updates come in.
pub mod Keeps
pub mod Sync
pub mod Run
use gorb.Prelude.{
  sym, ◌∙◌, ap, Text_eq, ℕ, ◌+◌, ◌≤◌, ◌<◌, ◌≡◌, refl, Bool, true, false, Option, none, some, List,
  [], ◌∷◌, arith, nat_eq, if◌then◌else◌, inl, inr, Bool-cases, ◌==◌, Eq, same_refl,
}
use gorb.Prelude.Text.{Text, is_empty}
use gorb.Prelude.Map.{
  Map, lookup, insert, delete, lookup-insert, lookup-insert_cases, IsUnique, insert-IsUnique,
}
use gorb.System.{Env}
use gorb.Util.Net.{addr_family, family_eq}
use gorb.Ipvs.{valid_forwarding}
use gorb.Core.Options.{ServiceOptions}
use gorb.Core.Options.Filled.{IsFilled}
use gorb.Core.Context.{Service, Backend, Context}
use gorb.Core.Context.Create.{with_service}
use gorb.Core.Context.Remove.{Fewer}
use gorb.Core.Context.Attach.{with_backend}

module _ (env : Env) {A : Type 0} where
  -- A backend that IPVS can be told of: its service's options and its own are valid, and the two have
  -- addresses of one family.
  pub record IsSound (n : ℕ) (b : Backend A) : Type 0 where
    pub addr_used : b.service.addr < n
    pub service_filled : IsFilled env b.service.options
    pub host_set : is_empty b.options.host ≡ false
    pub port_set : nat_eq b.options.port 0 ≡ false
    pub method_known : valid_forwarding env b.options.method ≡ true
    pub one_family :
        family_eq (addr_family b.options.host_ip) (addr_family b.service.options.host_ip) ≡ true

  -- Services have distinct addresses below the next one and valid options; backends are sound.
  pub record IsValid (c : Context A) : Type 0 where
    pub services :
        (k : Text) (vs : Service)
        → lookup k c.services ≡ some vs
        → (vs.addr < c.next_addr) × IsFilled env vs.options
    pub distinct :
        (j k : Text) (vs ws : Service)
        → lookup j c.services ≡ some vs
        → lookup k c.services ≡ some ws
        → vs.addr ≡ ws.addr
        → j ≡ k
    pub backends : (k : Text) (b : Backend A) → lookup k c.backends ≡ some b → IsSound c.next_addr b
    pub unique : IsUnique c.backends

  IsSound-later : {n m : ℕ} {b : Backend A} → n ≤ m → IsSound n b → IsSound m b
  IsSound-later h v = record {
    addr_used = omega arith;
    service_filled = v.service_filled;
    host_set = v.host_set;
    port_set = v.port_set;
    method_known = v.method_known;
    one_family = v.one_family;
  }

  with_service-services :
      (c : Context A) (vs_id : Text) (o : ServiceOptions)
      → IsFilled env o
      → IsValid c
      → (k : Text) (vs : Service) → lookup k (with_service c vs_id o).services ≡ some vs
      → (vs.addr < c.next_addr + 1) × IsFilled env vs.options
  with_service-services c vs_id o filled v k vs h =
      elim (lookup-insert_cases vs_id k (record { addr = c.next_addr; options = o }) vs c.services
        h) [
          | inl (_, e) ↦ rw (← e) (omega arith, filled)
          | inr old ↦ let (below, valid) = v.services k vs old in (omega arith, valid)
        ]

  with_service-distinct :
      (c : Context A) (vs_id : Text) (o : ServiceOptions)
      → IsValid c
      → (j k : Text) (vs ws : Service) → lookup j (with_service c vs_id o).services ≡ some vs
      → lookup k (with_service c vs_id o).services ≡ some ws
      → vs.addr ≡ ws.addr
      → j ≡ k
  with_service-distinct c vs_id o v j k vs ws p q same =
      let new : Service = record { addr = c.next_addr; options = o } in
      elim (lookup-insert_cases vs_id j new vs c.services p) [
        | inl (a, e) ↦ (elim (lookup-insert_cases vs_id k new ws c.services q) [
          | inl (b, _) ↦ sym a ∙ b
          | inr old ↦
              absurd (omega (arith, (v.services k ws old).0, ap (λ (x : Service). x.addr) e))
        ])
        | inr old ↦ (elim (lookup-insert_cases vs_id k new ws c.services q) [
          | inl (_, e) ↦
              absurd (omega (arith, (v.services j vs old).0, ap (λ (x : Service). x.addr) e))
          | inr old' ↦ v.distinct j k vs ws old old' same
        ])
      ]

  pub with_service-IsValid :
      (c : Context A) (vs_id : Text) (o : ServiceOptions)
      → IsFilled env o
      → IsValid c
      → IsValid (with_service c vs_id o)
  with_service-IsValid c vs_id o filled v = record {
    services = with_service-services c vs_id o filled v;
    distinct = with_service-distinct c vs_id o v;
    backends = λ k b h. IsSound-later (omega arith) (v.backends k b h);
    unique = v.unique;
  }

  pub with_backend-IsValid :
      (c : Context A) (rs_id : Text) (b : Backend A)
      → IsSound c.next_addr b
      → IsValid c
      → IsValid (with_backend c rs_id b)
  with_backend-IsValid c rs_id b sound v = record {
    services = v.services;
    distinct = v.distinct;
    backends = λ k a h. ground (arith, lookup-insert rs_id k b c.backends, v.backends k a);
    unique = insert-IsUnique rs_id b c.backends v.unique;
  }

  -- Taking services and backends away keeps the context valid.
  pub shrink-IsValid :
      (c : Context A) (ss : Map Text Service) (bs : Map Text (Backend A))
      → ((k : Text) (vs : Service) → lookup k ss ≡ some vs → lookup k c.services ≡ some vs)
      → Fewer bs c.backends
      → IsValid c
      → IsValid (record c { services = ss; backends = bs })
  shrink-IsValid c ss bs fewer_s fewer_b v = record {
    services = λ k vs h. v.services k vs (fewer_s k vs h);
    distinct = λ j k vs ws p q. v.distinct j k vs ws (fewer_s j vs p) (fewer_s k ws q);
    backends = λ k b h. v.backends k b (fewer_b.0 k b h);
    unique = fewer_b.1 v.unique;
  }
