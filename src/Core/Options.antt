-- ===== src/Core/Options.antt =====
-- core/options.go: the options of services and backends, their defaults and their validation.
-- `host_ip` is the field `host`, the name `host` resolved to an address.
pub mod Filled
pub mod Total
use gorb.Prelude.{
  Text_eq, ℕ, ◌≡◌, refl, Bool, true, false, ◌&&◌, ◌||◌, List, [], ◌∷◌, Option, none, some, arith,
  nat_eq, if◌then◌else◌, ◌==◌, all,
}
use gorb.Prelude.Text.{Text, text, is_empty, to_lower, split}
use gorb.Prelude.Int.{pos}
use gorb.Prelude.Exec.{
  Exec, Outcome, ok, err, missing_endpoint, unknown_method, unknown_protocol, unknown_flag,
  unresolved_host, pure, throw, lift, ◌>>=◌,
}
use gorb.Util.Net.{Ip}
use gorb.System.{Env, Trace, resolve}
use gorb.Ipvs.{valid_protocol, valid_flag, valid_forwarding}
use gorb.Pulse.Options.{PulseOptions, empty_options}

pub record ServiceOptions : Type 0 where
  pub host : Text
  pub port : ℕ
  pub protocol : Text
  pub method : Text
  pub flags : Text
  pub persistent : Bool
  pub host_ip : Ip
  pub del_if_addr : Bool

pub record BackendOptions : Type 0 where
  pub host : Text
  pub port : ℕ
  pub weight : ℕ
  pub method : Text
  pub pulse : Option PulseOptions
  pub vs_id : Text
  pub host_ip : Ip

abbrev pub separator : ℕ
separator = b'|'

module _ (env : Env) where
  -- `net.ResolveIPAddr("ip", host)`
  abbrev resolve_addr : Text → Exec Trace Ip
  resolve_addr name = do
    found ← resolve env name
    (elim found [ none ↦ throw unresolved_host | some ip ↦ pure ip ])

  fill_host : Text → Option Ip → Exec Trace Ip
  fill_host [] none = throw missing_endpoint
  fill_host [] (some ip) = pure ip
  fill_host (c ∷ name) default_host = resolve_addr (c ∷ name)

  unfoldable pub valid_flags : Text → Bool
  valid_flags [] = true
  valid_flags (c ∷ flags) = all (valid_flag env) (split separator (c ∷ flags))

  -- The part of `Fill` behind the resolution of the host.
  unfoldable pub fill_rest : ServiceOptions → Outcome ServiceOptions
  unfolding valid_flags
  fill_rest o =
      let protocol' = to_lower (if is_empty o.protocol then text "tcp" else o.protocol) in
      let method' = if is_empty o.method then text "wrr" else o.method in
      if valid_protocol protocol'
      then if valid_flags o.flags
        then ok (record o { protocol = protocol'; method = method' })
        else err unknown_flag
      else err unknown_protocol

  -- `(*ServiceOptions).Fill`, which changes the options in place; the changed ones are returned.
  unfoldable pub fill_service : Option Ip → ServiceOptions → Exec Trace ServiceOptions
  unfolding fill_host fill_rest
  fill_service default_host o =
      if nat_eq o.port 0
      then throw missing_endpoint
      else do ip ← fill_host o.host default_host; lift (fill_rest (record o { host_ip = ip }))

  unfoldable pub fill_backend_rest : BackendOptions → Outcome BackendOptions
  fill_backend_rest o =
      let weight' = if nat_eq o.weight 0 then 100 else o.weight in
      let method' = to_lower (if is_empty o.method then text "nat" else o.method) in
      let pulse' : PulseOptions = elim o.pulse [ none ↦ empty_options | some p ↦ p ] in
      if valid_forwarding env method'
      then ok (record o { weight = weight'; method = method'; pulse = some pulse' })
      else err unknown_method

  -- `(*BackendOptions).Fill`
  unfoldable pub fill_backend : BackendOptions → Exec Trace BackendOptions
  unfolding fill_backend_rest
  fill_backend o =
      if is_empty o.host || nat_eq o.port 0
      then throw missing_endpoint
      else do ip ← resolve_addr o.host; lift (fill_backend_rest (record o { host_ip = ip }))

abbrev pub bool_eq : Bool → Bool → Bool
bool_eq true true = true
bool_eq false false = true
bool_eq _ _ = false

-- `(*ServiceOptions).CompareStoreOptions`
unfoldable pub compare_service : ServiceOptions → ServiceOptions → Bool
compare_service o options =
    o.host == options.host
    && nat_eq o.port options.port
    && o.protocol == options.protocol
    && o.flags == options.flags
    && o.method == options.method
    && bool_eq o.persistent options.persistent

-- `(*BackendOptions).CompareStoreOptions`
unfoldable pub compare_backend : BackendOptions → BackendOptions → Bool
compare_backend o options =
    o.host == options.host && nat_eq o.port options.port && o.method == options.method
