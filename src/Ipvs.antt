-- ===== src/Ipvs.antt =====
-- ipvs-shim/ipvs_shim.go: the calls that the program makes of libipvs. An address that the Go code
-- prints and parses again is passed on in its 16-byte form.
pub mod Table
use Prim.Native.Nat.{bit_or}
use gorb.Prelude.{
  Text_eq, ℕ, ◌-◌, ◌^◌, Bool, true, false, List, [], ◌∷◌, Option, none, some, ◌==◌, if◌then◌else◌,
}
use gorb.Prelude.Text.{Text, text}
use gorb.Prelude.Map.{Map, lookup}
use gorb.Prelude.Exec.{Exec, Outcome, ok, err, shim_error, unknown_protocol, lift, ◌>>=◌}
use gorb.Util.Net.{Ip, ipv4, to_16}
use gorb.System.{
  Svc, Dest, Env, Trace, attempt, ipvs_new, ipvs_flush, new_service, update_service, del_service,
  new_destination, update_destination, del_destination,
}

-- `syscall.IPPROTO_TCP` and `syscall.IPPROTO_UDP`
abbrev pub ipproto_tcp : ℕ
ipproto_tcp = 6

abbrev pub ipproto_udp : ℕ
ipproto_udp = 17

unfoldable pub protocol_number : Text → Option ℕ
protocol_number p =
    if p == text "tcp" then some ipproto_tcp else if p == text "udp" then some ipproto_udp else none

abbrev pub is_some : {A : Type 0} → Option A → Bool
is_some none = false
is_some (some a) = true

unfoldable pub valid_protocol : Text → Bool
unfolding protocol_number
valid_protocol p = is_some (protocol_number p)

-- `^uint32(0)`
abbrev pub full_mask : ℕ
full_mask = 2 ^ 32 - 1

module _ (env : Env) where
  abbrev pub scheduler_flags : Map Text ℕ
  scheduler_flags =
      (text "sh-fallback", env.sched_sh_fallback)
      ∷ (text "sh-port", env.sched_sh_port)
      ∷ (text "flag-1", env.sched_1)
      ∷ (text "flag-2", env.sched_2)
      ∷ (text "flag-3", env.sched_3)
      ∷ []

  abbrev pub backend_forwarding : Map Text ℕ
  backend_forwarding =
      (text "dr", env.conn_droute)
      ∷ (text "nat", env.conn_masq)
      ∷ (text "tunnel", env.conn_tunnel)
      ∷ (text "ipip", env.conn_tunnel)
      ∷ []

  unfoldable pub valid_flag : Text → Bool
  valid_flag flag = is_some (lookup flag scheduler_flags)

  unfoldable pub valid_forwarding : Text → Bool
  valid_forwarding fwd = is_some (lookup fwd backend_forwarding)

  unfoldable pub init : Exec Trace Unit
  init = attempt env ipvs_new shim_error

  unfoldable pub flush : Exec Trace Unit
  flush = attempt env ipvs_flush shim_error

  -- The key of a service; the address family is always that of IPv4.
  unfoldable pub create_svc_key : Ip → Text → ℕ → Outcome Svc
  create_svc_key vip protocol port = elim (protocol_number protocol) [
    | none ↦ err unknown_protocol
    | some number ↦ ok (record {
      address = to_16 vip;
      protocol = number;
      port = port;
      address_family = ipv4;
      sched_name = [];
      flags = 0;
      mask = 0;
    })
  ]

  -- `flagbits |= b`; a flag that is not known is skipped.
  add_flagbits : ℕ → List Text → ℕ
  add_flagbits bits [] = bits
  add_flagbits bits (flag ∷ flags) =
      add_flagbits (elim (lookup flag scheduler_flags) [ none ↦ bits | some b ↦ bit_or bits b ])
        flags

  unfoldable pub create_flagbits : List Text → ℕ
  unfolding add_flagbits
  create_flagbits flags = add_flagbits 0 flags

  with_schedule : Svc → Text → List Text → Svc
  unfolding create_flagbits
  with_schedule svc sched flags = record svc {
    sched_name = sched;
    flags = create_flagbits flags;
    mask = full_mask;
  }

  unfoldable pub add_service : Ip → ℕ → Text → Text → List Text → Exec Trace Unit
  unfolding create_svc_key with_schedule
  add_service vip port protocol sched flags = do
    svc ← lift (create_svc_key vip protocol port)
    attempt env (new_service (with_schedule svc sched flags)) shim_error

  unfoldable pub change_service : Ip → ℕ → Text → Text → List Text → Exec Trace Unit
  unfolding create_svc_key with_schedule
  change_service vip port protocol sched flags = do
    svc ← lift (create_svc_key vip protocol port)
    attempt env (update_service (with_schedule svc sched flags)) shim_error

  unfoldable pub remove_service : Ip → ℕ → Text → Exec Trace Unit
  unfolding create_svc_key
  remove_service vip port protocol = do
    svc ← lift (create_svc_key vip protocol port)
    attempt env (del_service svc) shim_error

  unfoldable pub create_dest : Ip → ℕ → ℕ → ℕ → Dest
  create_dest rip rport fwd weight = record {
    address = to_16 rip;
    port = rport;
    address_family = ipv4;
    fwd_method = fwd;
    weight = weight;
  }

  abbrev forwarding_bits : Text → Outcome ℕ
  forwarding_bits fwd = elim (lookup fwd backend_forwarding) [
    | none ↦ err shim_error
    | some b ↦ ok b
  ]

  unfoldable pub add_dest_port : Ip → ℕ → Ip → ℕ → Text → ℕ → Text → Exec Trace Unit
  unfolding create_svc_key create_dest
  add_dest_port vip vport rip rport protocol weight fwd = do
    svc ← lift (create_svc_key vip protocol vport)
    bits ← lift (forwarding_bits fwd)
    attempt env (new_destination svc (create_dest rip rport bits weight)) shim_error

  unfoldable pub update_dest_port : Ip → ℕ → Ip → ℕ → Text → ℕ → Text → Exec Trace Unit
  unfolding create_svc_key create_dest
  update_dest_port vip vport rip rport protocol weight fwd = do
    svc ← lift (create_svc_key vip protocol vport)
    bits ← lift (forwarding_bits fwd)
    attempt env (update_destination svc (create_dest rip rport bits weight)) shim_error

  unfoldable pub del_dest_port : Ip → ℕ → Ip → ℕ → Text → Exec Trace Unit
  unfolding create_svc_key create_dest
  del_dest_port vip vport rip rport protocol = do
    svc ← lift (create_svc_key vip protocol vport)
    attempt env (del_destination svc (create_dest rip rport 0 0)) shim_error
