-- ===== src/Pulse/Driver.antt =====
-- pulse/pulse.go, pulse/tcp.go, pulse/http.go and pulse/none.go: the drivers and the making of a
-- Pulse. What a probe meets in the network is a parameter.
use gorb.Prelude.{
  Text_eq, ℕ, Bool, true, false, ◌&&◌, ◌||◌, ◌==◌, Option, none, some, leb, nat_eq, if◌then◌else◌,
  all,
}
use gorb.Prelude.Text.{Text, text, is_empty}
use gorb.Prelude.Int.{ℤ, pos, negsuc}
use gorb.Prelude.Exec.{Outcome, ok, err, panic, invalid_method}
use gorb.Util.Net.{Ip}
use gorb.Util.DynamicMap.{DynamicMap, get, as_string, as_int, string, int}
use gorb.Pulse.Options.{PulseOptions, validate}
use gorb.Pulse.Floats.{Floats}
use gorb.Pulse.Status.{StatusType, up, down}
use gorb.Pulse.Metrics.{Metrics, new_metrics}

-- The request of an HTTP check, and the status code that it expects.
pub record HttpPulse : Type 0 where
  pub host : Ip
  pub port : ℕ
  pub method : Text
  pub path : Text
  pub expect : ℤ

pub data Driver : Type 0 where
  tcp_pulse : Ip → ℕ → Driver
  http_pulse : HttpPulse → Driver
  constant_driver : StatusType → Driver

-- A character of a token of HTTP.
is_token : ℕ → Bool
is_token c =
    (leb b'0' c && leb c b'9')
    || (leb b'a' c && leb c b'z')
    || (leb b'A' c && leb c b'Z')
    || nat_eq c b'!'
    || (leb b'#' c && leb c b'\'')
    || nat_eq c b'*'
    || nat_eq c b'+'
    || nat_eq c b'-'
    || nat_eq c b'.'
    || nat_eq c b'^'
    || nat_eq c b'_'
    || nat_eq c b'`'
    || nat_eq c b'|'
    || nat_eq c b'~'

abbrev pub bind_outcome : {A B : Type 0} → Outcome A → (A → Outcome B) → Outcome B
bind_outcome (ok a) f = f a
bind_outcome (err e) f = err e
bind_outcome panic f = panic

-- `http.NewRequest` refuses a method that is no token; the empty one is `GET`.
unfoldable pub new_request_method : Text → Outcome Text
unfolding is_token
new_request_method m =
    if all is_token m then ok (if is_empty m then text "GET" else m) else err invalid_method

-- `newGETDriver`
unfoldable pub new_get_driver : Ip → ℕ → DynamicMap → Outcome Driver
unfolding new_request_method
new_get_driver host port opts =
    bind_outcome (as_string (get opts (text "path") (string (text "/")))) λ path.
      bind_outcome (as_string (get opts (text "method") (string (text "GET")))) λ name.
        bind_outcome (new_request_method name) λ method.
          bind_outcome (as_int (get opts (text "expect") (int (pos 200)))) λ expect. ok (
            http_pulse
              (record { host = host; port = port; method = method; path = path; expect = expect }))

-- `newTCPDriver`
abbrev pub new_tcp_driver : Ip → ℕ → DynamicMap → Outcome Driver
new_tcp_driver host port opts = ok (tcp_pulse host port)

-- `newNoopDriver`
abbrev pub new_noop_driver : Ip → ℕ → DynamicMap → Outcome Driver
new_noop_driver host port opts = ok (constant_driver up)

-- The table `get`, at a type that `validate` has accepted.
unfoldable pub new_driver : Text → Ip → ℕ → DynamicMap → Outcome Driver
unfolding new_get_driver
new_driver type host port opts =
    if type == text "tcp"
    then new_tcp_driver host port opts
    else if type == text "http"
    then new_get_driver host port opts
    else new_noop_driver host port opts

-- `stopped` says whether `stopCh` is closed.
pub record Pulse (A : Type 0) : Type 0 where
  pub driver : Driver
  pub interval : ℤ
  pub stopped : Bool
  pub metrics : Metrics A

module _ {A : Type 0} ⦃f : Floats A⦄ where
  -- `New`, which also returns the options that `validate` has changed
  unfoldable pub new_pulse : ℕ → Ip → ℕ → PulseOptions → Outcome (Pulse A × PulseOptions)
  unfolding new_metrics
  new_pulse now host port opts = bind_outcome (validate opts) λ o.
      bind_outcome (new_driver o.type host port o.args) λ d. ok (
        record { driver = d; interval = o.duration; stopped = false; metrics = new_metrics now },
        o,
      )

-- `Stop`: closing a closed channel panics.
unfoldable pub stop : {A : Type 0} → Pulse A → Outcome (Pulse A)
stop p = if p.stopped then panic else ok (record p { stopped = true })

-- The network as a probe meets it: whether a connection is made, and the status code of a response.
pub record Network : Type 0 where
  pub dials : Ip → ℕ → Bool
  pub fetches : HttpPulse → Option ℤ

abbrev pub int_eq : ℤ → ℤ → Bool
int_eq (pos a) (pos b) = nat_eq a b
int_eq (negsuc a) (negsuc b) = nat_eq a b
int_eq _ _ = false

abbrev pub judge : ℤ → Option ℤ → StatusType
judge expect none = down
judge expect (some code) = if int_eq code expect then up else down

abbrev pub tcp_check : Network → Ip → ℕ → StatusType
tcp_check net host port = if net.dials host port then up else down

-- `Check` of each driver
unfoldable pub check : Network → Driver → StatusType
check net (tcp_pulse host port) = tcp_check net host port
check net (http_pulse p) = judge p.expect (net.fetches p)
check net (constant_driver status) = status
