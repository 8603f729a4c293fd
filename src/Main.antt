-- ===== src/Main.antt =====
-- main.go: the start of the daemon, up to the routes and the server. What the flags say is a record;
-- a part that ends in `log.Fatalf` is an error.
pub mod Keeping
pub mod Lasting
pub mod Serving
use gorb.Prelude.{Text_eq, ℕ, ◌%◌, ◌^◌, Bool, Option, none, some, List, [], ◌∷◌}
use gorb.Prelude.Text.{Text, split}
use gorb.Prelude.Exec.{Outcome, ok, err, not_root, listen_error, pure, throw, lift, ◌>>=◌, ◌>>◌}
use gorb.Prelude.Int.{ℤ}
use gorb.System.{Env}
use gorb.Util.Net.{Ip, NetAddr, interface_ips}
use gorb.Pulse.Floats.{Floats}
use gorb.Core.Context.{M, require}
use gorb.Core.Start.{ContextOptions, new_context}
use gorb.Core.Store.Setup.{Url, new_store}

pub record Flags : Type 0 where
  pub device : Text
  pub flush : Bool
  pub listen : Text
  pub consul : Text
  pub vip_interface : Text
  pub store_urls : Text
  pub store_service_path : Text
  pub store_backend_path : Text
  pub store_sync_time : ℤ

-- What the operating system and Go's library answer: the user, the addresses of an interface, the
-- port of an address to listen at, and the two readings of a URL.
pub record Host : Type 0 where
  pub is_root : Bool
  pub addresses : Text → Outcome (List NetAddr)
  pub tcp_port : Text → Option ℕ
  pub parse_disco : Text → Outcome Text
  pub parse_store : Text → Option Url

abbrev pub listen_port : Option ℕ → Outcome ℕ
listen_port none = err listen_error
listen_port (some port) = ok (port % 2 ^ 16)

abbrev pub context_options : Flags → List Ip → ℕ → ContextOptions
context_options flags ips port = record {
  disco = flags.consul;
  endpoints = ips;
  flush = flags.flush;
  listen_port = port;
  vip_interface = flags.vip_interface;
}

module _ (env : Env) (host : Host) {A : Type 0} ⦃f : Floats A⦄ where
  -- A store is used if the flag names one.
  abbrev pub connect_store : ℕ → Flags → Text → M A Unit
  connect_store now flags [] = pure tt
  connect_store now flags (c ∷ urls) =
      new_store env now host.parse_store (split b',' (c ∷ urls)) flags.store_service_path
        flags.store_backend_path flags.store_sync_time
      >>= λ store. pure tt

  abbrev pub set_up : ℕ → Flags → List Ip → ℕ → M A Unit
  set_up now flags ips port = do
    new_context env host.parse_disco (context_options flags ips port)
    connect_store now flags flags.store_urls

  -- `main` up to the routes, at the time `now`
  unfoldable pub start_daemon : ℕ → Flags → M A Unit
  start_daemon now flags = do
    require host.is_root not_root
    ips ← lift (interface_ips host.addresses flags.device)
    port ← lift (listen_port (host.tcp_port flags.listen))
    set_up now flags ips port
