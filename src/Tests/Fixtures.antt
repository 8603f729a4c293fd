-- ===== src/Tests/Fixtures.antt =====
-- A world that accepts everything, floats with three decimals, and a daemon with a service and two
-- backends, made by requests.
use gorb.Prelude.{
  Text_eq, ℕ, ◌+◌, ◌-◌, ◌*◌, ◌/◌, ◌≡◌, refl, subst, true, false, none, some, List, [], ◌∷◌, arith,
  nat_eq, if◌then◌else◌,
}
use gorb.Prelude.Text.{Text, text}
use gorb.Prelude.Map.{lookup, insert}
use gorb.Prelude.Int.{pos}
use gorb.System.{Env, no_key}
use gorb.Disco
use gorb.Pulse.Floats.{Floats, IsIeee}
use gorb.Core.Payload.{ServicePayload, BackendPayload}
use gorb.Core.Options
use gorb.Core.Store
use gorb.Core.Store.{unmarshal_service, unmarshal_backend}
use gorb.Ipvs
use gorb.Prelude.Text.{to_lower, split}
use gorb.Pulse.Driver.{new_pulse, new_driver}
use gorb.Pulse.Options.{validate}
use gorb.Util.Interval.{parse_interval}
use gorb.Util.Net.{addr_family}
use gorb.Core.Context.{Service, Backend, State}
use gorb.Core.Daemon.{Daemon, Event, request, new_state, step, run}
use gorb.Core.Invariant.{IsValid}
use gorb.Core.Invariant.Run.{run-IsValid}
use gorb.Http.{put_service, put_backend, serve}
use gorb.Core.Options.{ServiceOptions}
use gorb.Pulse.Driver.{tcp_pulse}
use gorb.Pulse.Status.{up}
use gorb.Core.Context.Services.{create_service}
use gorb.Core.Context.Backends.{create_backend}

abbrev pub accepting : Env
accepting = record {
  accepts = λ t c. true;
  resolves = λ t name. some (10 ∷ 0 ∷ 0 ∷ 1 ∷ []);
  responds = λ t c. some 200;
  exists = λ t key. some false;
  lists = λ t path. no_key;
  sched_sh_fallback = 8;
  sched_sh_port = 16;
  sched_1 = 8;
  sched_2 = 16;
  sched_3 = 32;
  conn_droute = 3;
  conn_masq = 0;
  conn_tunnel = 2;
}

-- A world in which IPVS and the rest refuse every call, once the daemon is running.
abbrev pub refusing : Env
refusing = record accepting { accepts = λ t c. false }

instance abbrev pub fixed : Floats ℕ
fixed = record {
  of_ℕ = λ n. n * 1000;
  add = λ a b. a + b;
  sub = λ a b. a - b;
  mul = λ a b. a * b / 1000;
  div = λ a b. if nat_eq a 0 then 0 else a * 1000 / b;
  to_uint32 = λ a. a / 1000;
}

pub fixed-IsIeee : IsIeee fixed
fixed-IsIeee = record {
  add_exact = λ a b h. omega arith;
  zero_div = λ n h h'. refl;
  sub_zero = λ a. omega arith;
  mul_one = λ a. omega arith;
  to_of = λ n h. omega arith;
}

abbrev pub web : Text
web = text "web"

abbrev pub backend_a : Text
backend_a = text "a"

abbrev pub backend_b : Text
backend_b = text "b"

abbrev pub web_body : ServicePayload
web_body = record {
  host = text "web.example";
  port = 80;
  protocol = [];
  method = [];
  flags = text "sh-port|flag-1";
  persistent = false;
}

abbrev pub backend_body : BackendPayload
backend_body = record {
  host = text "a.example";
  port = 8080;
  weight = 0;
  method = [];
  pulse = none;
  vs_id = [];
}

abbrev pub blank : State ℕ
blank =
    new_state (some (10 ∷ 0 ∷ 0 ∷ 9 ∷ [])) (some (text "lo"))
      (Disco.consul_disco (text "http://localhost:8500"))
      (some (record { store_service_path = text "s"; store_backend_path = text "b" }))

abbrev pub start : Daemon ℕ
start = record { state = blank; stash = []; pending = none }

abbrev pub set_up : List (Event ℕ)
set_up =
    request 1 (put_service web (some web_body))
    ∷ request 2 (put_backend web backend_a (some backend_body))
    ∷ request 3 (put_backend web backend_b (some backend_body))
    ∷ []

pub blank-IsValid : (env : Env) → IsValid env blank.ctx
unfolding lookup
blank-IsValid env = record {
  services = λ k vs h. absurd (ground arith);
  distinct = λ j k vs ws p q e. absurd (ground arith);
  backends = λ k b h. absurd (ground arith);
  unique = tt;
}

abbrev pub web_options : ServiceOptions
web_options = record {
  host = text "web.example";
  port = 80;
  protocol = text "tcp";
  method = text "wrr";
  flags = text "sh-port|flag-1";
  persistent = false;
  host_ip = 10 ∷ 0 ∷ 0 ∷ 1 ∷ [];
  del_if_addr = true;
}

abbrev pub web_service : Service
web_service = record { addr = 0; options = web_options }

abbrev pub running_backend : ℕ → Backend ℕ
running_backend now = record {
  options = record {
    host = text "a.example";
    port = 8080;
    weight = 100;
    method = text "nat";
    pulse = some (record {
      type = text "tcp";
      interval = text "1m";
      args = [];
      duration = pos 60_000_000_000;
    });
    vs_id = web;
    host_ip = 10 ∷ 0 ∷ 0 ∷ 1 ∷ [];
  };
  service = web_service;
  monitor = record {
    driver = tcp_pulse (10 ∷ 0 ∷ 0 ∷ 1 ∷ []) 8080;
    interval = pos 60_000_000_000;
    stopped = false;
    metrics = record { status = up; health = 1000; uptime = 0; last_ts = now; recorded = [] };
  };
  metrics = record { status = up; health = 0; uptime = 0; last_ts = 0; recorded = [] };
}

abbrev pub serving : State ℕ
serving = record {
  ctx = record blank.ctx {
    services = (web, web_service) ∷ [];
    backends = (backend_a, running_backend 2) ∷ (backend_b, running_backend 3) ∷ [];
    next_addr = 1;
  };
  trace = [];
}

-- The requests lead to that state.
set_up-serving : (run accepting start set_up).state.ctx ≡ serving.ctx
unfolding run step serve create_service create_backend lookup insert Options.fill_backend
    unmarshal_backend unmarshal_service Ipvs.valid_forwarding to_lower new_pulse validate
    parse_interval new_driver Options.fill_service Ipvs.valid_protocol split Ipvs.valid_flag
    Store.create_service Store.create_backend Ipvs.add_service Ipvs.add_dest_port addr_family
    Disco.expose Store.put Ipvs.create_svc_key
set_up-serving = refl

pub serving-IsValid : IsValid accepting serving.ctx
serving-IsValid =
    subst (λ c. IsValid accepting c) set_up-serving
      (run-IsValid accepting start set_up (blank-IsValid accepting))

pub has_web : lookup web serving.ctx.services ≡ some web_service
unfolding lookup
has_web = refl

pub has_a : lookup backend_a serving.ctx.backends ≡ some (running_backend 2)
unfolding lookup
has_a = refl
