-- ===== src/Link.antt =====
-- gorb-docker-link/main.go: the daemon that tells GORB of the ports of Docker containers. GORB and
-- Docker answer as the environment does.
pub mod Names
pub mod Ports
pub mod Tally
pub mod Cache
pub mod Seen
pub mod Attempts
pub mod Total
use gorb.Prelude.{
  ◌≡◌, ℕ, ◌+◌, ◌-◌, ◌%◌, ◌^◌, Bool, true, false, Option, none, some, List, [], ◌∷◌, nat_eq,
  if◌then◌else◌, Text_eq, ◌==◌, ℕ_eq,
}
use gorb.Prelude.Text.{Text, text}
use gorb.Prelude.Int.{ℤ, pos, negsuc}
use gorb.Prelude.Map.{Map, lookup, insert}
use gorb.Prelude.Exec.{
  Exec, Outcome, ok, Error, communication_error, unknown_response, backend_exists, backend_missing,
  parent_missing, pure, throw, crash, ◌>>=◌, ◌>>◌,
}
use gorb.Pulse.Options.{PulseOptions, empty_options}
use gorb.Core.Options.{ServiceOptions, BackendOptions}

-- `docker.APIPort`
pub record ApiPort : Type 0 where
  pub private_port : ℤ
  pub public_port : ℤ
  pub type : Text
  pub ip : Text

pub data Verb : Type 0 where
  get put delete : Verb

-- The options whose document is sent.
pub data Body : Type 0 where
  no_body : Body
  service_body : ServiceOptions → Body
  backend_body : BackendOptions → Body

-- `path` is what `path.Join` is given after the address of GORB.
pub record Rqst : Type 0 where
  pub verb : Verb
  pub path : List Text
  pub body : Body

-- Which paths make a URL that parses, and the status codes of GORB, in view of the requests before,
-- the latest first.
pub record Remote : Type 0 where
  pub parses : List Text → Bool
  pub answers : List Rqst → Rqst → Option ℕ

-- `struct{}`
abbrev pub Known : Type 0
Known = Unit

-- Every path makes a URL that parses.
abbrev pub Parses : Remote → Type 0
Parses remote = (path : List Text) → remote.parses path ≡ true

pub record Link : Type 0 where
  pub exposed : Map Text Known
  pub sent : List Rqst

abbrev pub L : Type 0 → Type 0
L B = Exec Link B

abbrev pub get_exposed : L (Map Text Known)
get_exposed s = (ok s.exposed, s)

-- `exposed[vs] = struct{}{}`
abbrev pub expose : Text → L Unit
expose vs s = (ok tt, record s { exposed = insert vs tt s.exposed })

-- `uint16(n)`
unfoldable pub to_uint16 : ℤ → ℕ
to_uint16 (pos n) = n % 2 ^ 16
to_uint16 (negsuc n) = 2 ^ 16 - 1 - n % 2 ^ 16

abbrev pub service_path : Text → List Text
service_path vs = text "service" ∷ vs ∷ []

abbrev pub backend_path : Text → Text → List Text
backend_path vs rs = text "service" ∷ vs ∷ rs ∷ []

unfoldable pub service_options : ℤ → Text → ServiceOptions
unfolding to_uint16
service_options n proto = record {
  host = [];
  port = to_uint16 n;
  protocol = proto;
  method = [];
  flags = [];
  persistent = false;
  host_ip = [];
  del_if_addr = false;
}

unfoldable pub backend_options : ApiPort → BackendOptions
unfolding to_uint16
backend_options b = record {
  host = b.ip;
  port = to_uint16 b.public_port;
  weight = 0;
  method = [];
  pulse = if b.type == text "udp" then some (record empty_options { type = text "none" }) else none;
  vs_id = [];
  host_ip = [];
}

abbrev pub handle : Option (L Unit) → L Unit
handle none = throw unknown_response
handle (some h) = h

abbrev pub conclude : Map ℕ (L Unit) → Option ℕ → L Unit
conclude eh none = throw communication_error
conclude eh (some status) = if nat_eq status 200 then pure tt else handle (lookup status eh)

module _ (remote : Remote) where
  -- `http.NewRequest`, whose error is dropped
  abbrev pub new_request : Verb → List Text → Body → Option Rqst
  new_request verb path body =
      if remote.parses path then some (record { verb = verb; path = path; body = body }) else none

  abbrev pub send : Rqst → L (Option ℕ)
  send r s = (ok (remote.answers s.sent r), record s { sent = r ∷ s.sent })

  -- `roundtrip`; a request that is nil makes `client.Do` panic.
  abbrev pub roundtrip : Option Rqst → Map ℕ (L Unit) → L Unit
  roundtrip none eh = crash
  roundtrip (some r) eh = send r >>= conclude eh

  -- `http.Get`
  abbrev pub fetch : List Text → L (Option ℕ)
  fetch path =
      if remote.parses path
      then send (record { verb = get; path = path; body = no_body })
      else pure none

  unfoldable pub create_service : Text → ℤ → Text → L Unit
  unfolding service_options lookup
  create_service vs n proto =
      roundtrip (new_request put (service_path vs) (service_body (service_options n proto)))
        ((409, expose vs) ∷ [])

  abbrev pub ensure_answered : Text → ApiPort → Option ℕ → L Unit
  ensure_answered vs b none = throw communication_error
  ensure_answered vs b (some status) =
      if nat_eq status 200 then expose vs else create_service vs b.private_port b.type

  abbrev pub ensure_service : Text → ApiPort → Option Known → L Unit
  ensure_service vs b (some known) = pure tt
  ensure_service vs b none = fetch (service_path vs) >>= ensure_answered vs b

  abbrev pub put_backend : Text → Text → ApiPort → L Unit
  put_backend vs rs b =
      roundtrip (new_request put (backend_path vs rs) (backend_body (backend_options b)))
        ((409, throw backend_exists) ∷ (404, throw parent_missing) ∷ [])

  unfoldable pub create_backend : Text → Text → ApiPort → L Unit
  unfolding create_service backend_options lookup
  create_backend vs rs b = do
    exposed ← get_exposed
    ensure_service vs b (lookup vs exposed)
    put_backend vs rs b

  unfoldable pub remove_backend : Text → Text → ApiPort → L Unit
  unfolding lookup
  remove_backend vs rs b =
      roundtrip (new_request delete (backend_path vs rs) no_body)
        ((404, throw backend_missing) ∷ [])
