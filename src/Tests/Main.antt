-- ===== src/Tests/Main.antt =====
-- Tests of the start of main.go, and its theorem at one.
use gorb.Prelude.{
  Text_eq, ℕ, ◌≡◌, refl, Bool, true, false, Option, none, some, [], ◌==◌, if◌then◌else◌,
}
use gorb.Prelude.Text.{Text, text, to_lower, split}
use gorb.Prelude.Paths.{path_join}
use gorb.Prelude.Map.{keys, insert}
use gorb.Prelude.Int.{pos}
use gorb.Prelude.Exec.{Outcome, ok, err, panic, not_root, listen_error, path_mismatch}
use gorb.System.{Env, listed, no_key}
use gorb.Util.DynamicMap.{as_string, get}
use gorb.Util.Net.{interface_ips}
use gorb.Disco
use gorb.Ipvs
use gorb.Core.Daemon.{run}
use gorb.Core.Invariant.{IsValid}
use gorb.Core.Start.{first_state, new_context}
use gorb.Core.Store.Following.{service_document}
use gorb.Core.Store.Mirror.{entries}
use gorb.Core.Store.Reading.{sync, get_external_services, get_external_backends}
use gorb.Core.Store
use gorb.Core.Store.{marshal_service}
use gorb.Core.Context.{State}
use gorb.Core.Context.Services
use gorb.Core.Options.{fill_service}
use gorb.Core.Sync.{drop_services, refresh_services, synchronize, drop_backends, refresh_backends}
use gorb.Core.Store.Setup.{Url, new_store, read_urls, kv_backend}
use gorb.Main.{Flags, Host, start_daemon}
use gorb.Main.Lasting.{start_daemon-run}
use gorb.Tests.Fixtures.{accepting, fixed, serving, set_up}

-- The store holds the services of another daemon.
abbrev pub stored : Env
stored = record accepting {
  lists = λ t path.
      if path == text "gorb/services"
      then listed (entries path service_document serving.ctx.services)
      else no_key;
}

abbrev parse : Text → Option Url
parse url =
    if url == text "http://1"
    then none
    else some (record {
      scheme = text "Consul";
      host = url;
      path = if url == text "consul://3/lb" then text "lb" else text "gorb";
    })

abbrev pub flags : Text → Flags
flags urls = record {
  device = text "eth0";
  flush = true;
  listen = text ":4672";
  consul = [];
  vip_interface = [];
  store_urls = urls;
  store_service_path = text "services";
  store_backend_path = text "backends";
  store_sync_time = pos 60;
}

abbrev pub host : Bool → Option ℕ → Host
host root port = record {
  is_root = root;
  addresses = λ device. ok [];
  tcp_port = λ address. port;
  parse_disco = λ url. ok url;
  parse_store = parse;
}

abbrev begin : Bool → Option ℕ → Text → Outcome Unit × State ℕ
begin root port urls = start_daemon stored (host root port) 9 (flags urls) (first_state [])

test_user : (begin false (some 1) []).0 ≡ err not_root
unfolding start_daemon
test_user = refl

test_listen : (begin true none []).0 ≡ err listen_error
unfolding start_daemon interface_ips
test_listen = refl

test_paths : (begin true (some 1) (text "consul://1/gorb,consul://3/lb")).0 ≡ err path_mismatch
unfolding start_daemon interface_ips new_context Disco.new_driver Ipvs.init Ipvs.flush new_store
    read_urls to_lower split
test_paths = refl

abbrev pub two_urls : Text
two_urls = text "consul://1/gorb,consul://2/gorb"

-- A ticker that would never tick.
test_ticker :
    (start_daemon accepting
      (host true (some 4672))
      {A = ℕ}
      9
      (record (flags (text "consul://2/gorb")) { store_sync_time = pos 0 })
      (first_state [])).0
    ≡ panic
unfolding start_daemon interface_ips new_context Disco.new_driver Disco.expose Ipvs.init Ipvs.flush
    as_string get new_store read_urls kv_backend sync path_join to_lower split get_external_services
    get_external_backends synchronize drop_services refresh_services insert drop_backends
    refresh_backends
test_ticker = refl

-- What the store holds is taken over.
starts :
    ((begin true (some 4672) two_urls).0 ≡ ok tt)
    × (keys (begin true (some 4672) two_urls).1.ctx.services ≡ keys serving.ctx.services)
unfolding start_daemon interface_ips new_context Disco.new_driver Disco.expose Ipvs.init Ipvs.flush
    as_string get new_store read_urls kv_backend sync path_join to_lower split get_external_services
    get_external_backends synchronize drop_services refresh_services insert Services.create_service
    fill_service marshal_service Ipvs.valid_protocol Ipvs.valid_flag Store.create_service
    Ipvs.add_service drop_backends refresh_backends
starts = (refl, refl)

start_daemon-run_example :
    (true ≡ true)
    × IsValid stored
        (run stored
          (record { state = (begin true (some 4672) two_urls).1; stash = []; pending = none })
          set_up).state.ctx
start_daemon-run_example =
    start_daemon-run stored (host true (some 4672)) 9 (flags two_urls) [] set_up starts.0
