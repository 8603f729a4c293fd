-- ===== src/Core/Context/Weight.antt =====
-- What changing the weight of a backend asks of IPVS.
use gorb.Prelude.{Text_eq, ℕ, ◌≡◌, some, [], ◌∷◌, arith, if◌then◌else◌, Option-cases, inl, inr}
use gorb.Prelude.Text.{Text}
use gorb.Prelude.Map.{lookup}
use gorb.Prelude.Exec.{Outcome, ok, err, shim_error, ipvs_syscall_failed}
use gorb.System.{Env, Trace, attempt, Svc, Dest, update_destination}
use gorb.Util.Net.{Ip, ipv4, to_16}
use gorb.Ipvs.{
  valid_protocol, valid_forwarding, protocol_number, create_svc_key, create_dest, update_dest_port,
  backend_forwarding,
}
use gorb.Core.Options.{ServiceOptions}
use gorb.Core.Context.{Backend, State}
use gorb.Core.Context.Backends.{update_backend}
use gorb.Core.Context.Attach.{with_backend}
use gorb.Core.Invariant.{IsSound}

-- The key of a service and a destination, as the shim makes them.
abbrev pub svc_key : ServiceOptions → ℕ → Svc
svc_key o protocol = record {
  address = to_16 o.host_ip;
  protocol = protocol;
  port = o.port;
  address_family = ipv4;
  sched_name = [];
  flags = 0;
  mask = 0;
}

module _ {A : Type 0} where
  abbrev pub reweighted : Backend A → ℕ → Backend A
  reweighted b weight = record b { options = record b.options { weight = weight } }

module _ (env : Env) where
  update_dest_port-known :
      (vip : Ip) (vport : ℕ) (rip : Ip) (rport : ℕ) (protocol : Text) (weight : ℕ) (fwd : Text)
      (number bits : ℕ) (t : Trace)
      → protocol_number protocol ≡ some number
      → lookup fwd (backend_forwarding env) ≡ some bits
      → update_dest_port env vip vport rip rport protocol weight fwd t
        ≡ attempt env
            (update_destination
              (record {
                address = to_16 vip;
                protocol = number;
                port = vport;
                address_family = ipv4;
                sched_name = [];
                flags = 0;
                mask = 0;
              })
              (create_dest env rip rport bits weight))
            shim_error
            t
  unfolding update_dest_port create_svc_key
  update_dest_port-known vip vport rip rport protocol weight fwd number bits t e e' = ground arith

module _ (env : Env) {A : Type 0} where
  -- The destination of a backend with a weight, in the service to which the backend points.
  abbrev pub weight_call : Backend A → ℕ → ℕ → ℕ → Svc × Dest
  weight_call b weight protocol bits = (
    svc_key b.service.options protocol,
    create_dest env b.options.host_ip b.options.port bits weight,
  )

  -- The outcome, once IPVS has been asked to set the weight.
  abbrev pub weight_done : Text → Backend A → ℕ → State A → Svc × Dest → Outcome ℕ × State A
  weight_done rs_id b weight s (svc, dest) =
      let t : Trace = update_destination svc dest ∷ s.trace in
      if env.accepts s.trace (update_destination svc dest)
      then (
        ok b.options.weight,
        record { ctx = with_backend s.ctx rs_id (reweighted b weight); trace = t },
      )
      else (err ipvs_syscall_failed, record s { trace = t })

  pub update_backend_sound :
      (n : ℕ) (vs_id rs_id : Text) (b : Backend A) (weight : ℕ) (s : State A)
      → IsSound env n b
      → lookup rs_id s.ctx.backends ≡ some b
      → (protocol bits : ℕ) × (protocol_number b.service.options.protocol ≡ some protocol)
        × (lookup b.options.method (backend_forwarding env) ≡ some bits)
        × (update_backend env vs_id rs_id weight s
            ≡ weight_done rs_id b weight s (weight_call b weight protocol bits))
  unfolding valid_protocol valid_forwarding update_backend
  update_backend_sound n vs_id rs_id b weight s sound there =
      elim (Option-cases (protocol_number b.service.options.protocol)) [
        | inl e ↦ absurd (ground (arith, sound.service_filled.protocol_known))
        | inr (protocol, e) ↦
            (elim (Option-cases (lookup b.options.method (backend_forwarding env))) [
              | inl e' ↦ absurd (ground (arith, sound.method_known))
              | inr (bits, e') ↦ (protocol, bits, e, e', sent protocol bits e e')
            ])
      ]
    where
      sent :
          (protocol bits : ℕ)
          → protocol_number b.service.options.protocol ≡ some protocol
          → lookup b.options.method (backend_forwarding env) ≡ some bits
          → update_backend env vs_id rs_id weight s
            ≡ weight_done rs_id b weight s (weight_call b weight protocol bits)
      sent protocol bits e e' =
          rw
            (
              there,
              update_dest_port-known env b.service.options.host_ip b.service.options.port
                  b.options.host_ip b.options.port b.service.options.protocol weight
                  b.options.method protocol bits s.trace e e',
            )
            (ground arith)
