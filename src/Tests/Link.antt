-- ===== src/Tests/Link.antt =====
-- The daemon of Docker links on concrete containers and events.
use gorb.Prelude.{
  Text_eq, ◌≡◌, refl, true, some, none, List, [], ◌∷◌, length, nat_eq, if◌then◌else◌,
}
use gorb.Prelude.Text.{Text, text}
use gorb.Prelude.Decimal.{decimal, decimal_int}
use gorb.Prelude.Int.{pos, negsuc}
use gorb.Prelude.Map.{lookup, insert}
use gorb.Prelude.Exec.{ok, err, panic, backend_exists, parent_missing}
use gorb.Link.{ApiPort, Remote, Link, to_uint16, create_backend}
use gorb.Link.Names.{mangle, service_id, backend_id, port_name, trim}
use gorb.Link.Ports.{invoke_func, Container, DockerEvent, PortAction, process, run}
use gorb.Link.Tally.{exported_ports, act_each, invoke_func-act_each}
use gorb.Link.Cache.{WasSeen}
use gorb.Link.Seen.{run-WasSeen}
use gorb.Link.Attempts.{create_each, puts, create_each-known}
use gorb.Link.Total.{run-panics}

abbrev web_port : ApiPort
web_port = record {
  private_port = pos 80;
  public_port = pos 32_768;
  type = text "tcp";
  ip = text "0.0.0.0";
}

abbrev closed_port : ApiPort
closed_port = record web_port { public_port = pos 0 }

abbrev hosts : List Text
hosts = text "10.0.0.7" ∷ []

test_service_id : service_id (text "repo/web:1") web_port ≡ text "repo-web-1-80-tcp"
unfolding service_id port_name decimal_int decimal mangle
test_service_id = refl

-- Swarm's names begin with a slash.
test_backend_id : backend_id (text "/node/web") web_port ≡ text "node-web-32768-tcp"
unfolding backend_id port_name decimal_int decimal mangle trim
test_backend_id = refl

test_to_uint16 : to_uint16 (pos 65_616) ≡ 80
unfolding to_uint16
test_to_uint16 = refl

test_to_uint16_negative : to_uint16 (negsuc 0) ≡ 65_535
unfolding to_uint16
test_to_uint16_negative = refl

-- A host without an address.
test_no_host :
    (invoke_func []
      (λ vs rs b s. (ok tt, s))
      []
      []
      (web_port ∷ [])
      (record { exposed = []; sent = [] })).0
    ≡ panic
unfolding invoke_func
test_no_host = refl

-- GORB has the service, and takes each backend.
abbrev friendly : Remote
friendly = record { parses = λ path. true; answers = λ before r. some 200 }

-- GORB has lost the service.
abbrev forgetful : Remote
forgetful = record { parses = λ path. true; answers = λ before r. some 404 }

abbrev vs_id : Text
vs_id = text "web-80-tcp"

abbrev started : DockerEvent
started = record {
  status = text "start";
  inspection = some (record {
    name = text "/one";
    settings = some (web_port ∷ closed_port ∷ []);
    config = some (text "web");
  });
}

abbrev running : Container
running = record { image = text "web"; names = text "/two" ∷ []; ports = web_port ∷ [] }

abbrev initial : Link
initial = record { exposed = []; sent = [] }

-- One GET, and two PUTs of backends.
test_run : length (run friendly hosts (running ∷ []) (started ∷ []) initial).1.sent ≡ 3
unfolding run service_id backend_id port_name decimal_int decimal mangle trim insert
test_run = refl

known_after :
    lookup vs_id (run friendly hosts (running ∷ []) (started ∷ []) initial).1.exposed ≡ some tt
unfolding run service_id backend_id port_name decimal_int decimal mangle trim insert lookup
known_after = refl

run-WasSeen_example :
    WasSeen friendly vs_id (run friendly hosts (running ∷ []) (started ∷ []) initial).1.sent
run-WasSeen_example = run-WasSeen friendly hosts (running ∷ []) (started ∷ []) vs_id known_after

run-panics_example :
    (t : Link) × (process forgetful hosts (running ∷ []) (started ∷ []) initial ≡ (ok tt, t))
    × (run forgetful hosts (running ∷ []) (started ∷ []) initial ≡ (panic, t))
run-panics_example =
    run-panics forgetful hosts (λ path. refl) (λ e. absurd (cc)) (running ∷ []) (started ∷ [])
      initial (λ e. absurd (cc), tt) ((λ e. absurd (cc), λ e. absurd (cc)), tt)

abbrev knowing : Link
knowing = record { exposed = (vs_id, tt) ∷ []; sent = [] }

vs_id-known : lookup vs_id knowing.exposed ≡ some tt
unfolding lookup
vs_id-known = refl

abbrev two_backends : List (Text × ApiPort)
two_backends = (text "one", web_port) ∷ (text "two", web_port) ∷ []

test_forgotten :
    (create_backend forgetful vs_id (text "one") web_port knowing).0 ≡ err parent_missing
unfolding create_backend lookup
test_forgotten = refl

create_each-known_example :
    create_each forgetful vs_id two_backends knowing
    ≡ record knowing { sent = puts vs_id two_backends [] }
create_each-known_example =
    create_each-known forgetful vs_id two_backends knowing (λ path. refl) vs_id-known

-- An action that records its port as seen, and fails at the second one.
abbrev recording : PortAction
recording vs rs b s = (
  if nat_eq (length s.exposed) 1 then err backend_exists else ok tt,
  record s { exposed = (rs, tt) ∷ s.exposed },
)

abbrev three_ports : List ApiPort
three_ports = web_port ∷ closed_port ∷ web_port ∷ []

invoke_func-act_each_example :
    invoke_func (text "10.0.0.7" ∷ []) recording (text "web") (text "/one") three_ports initial
    ≡ act_each recording
        (text "web")
        (text "/one")
        (exported_ports (text "10.0.0.7") three_ports)
        initial
invoke_func-act_each_example =
    invoke_func-act_each (text "10.0.0.7") [] recording (text "web") (text "/one") three_ports
      initial

test_recording :
    (invoke_func hosts recording (text "web") (text "/one") three_ports initial).0
    ≡ ok (backend_exists ∷ [])
unfolding invoke_func
test_recording = refl

-- Docker gives no settings of the container.
test_no_settings :
    (run friendly hosts []
      (record started {
        inspection = some (record { name = text "/one"; settings = none; config = none });
      }
        ∷ [])
      initial).0
    ≡ panic
unfolding run
test_no_settings = refl

test_one_name : service_id (text "a/b") web_port ≡ service_id (text "a:b") web_port
unfolding service_id port_name mangle
test_one_name = refl
