-- ===== src/Link/Ports.antt =====
-- gorb-docker-link/main.go: invokeFunc, which acts on each public port of a container, and the two
-- parts of main that call it: the containers that run already, and the feed of events.
use gorb.Prelude.{
  Text_eq, ℕ, suc, ◌||◌, Bool, false, Option, none, some, List, [], ◌∷◌, ◌++◌, if◌then◌else◌, ◌==◌,
  nat_eq,
}
use gorb.Prelude.Text.{Text, text}
use gorb.Prelude.Int.{ℤ, pos, negsuc}
use gorb.Prelude.Map.{Map, lookup}
use gorb.Prelude.Exec.{Outcome, ok, err, panic, Error, pure, crash, ◌>>=◌}
use gorb.Link.{ApiPort, Remote, Link, L, create_backend, remove_backend}
use gorb.Link.Names.{service_id, backend_id}

-- `portAction`
abbrev pub PortAction : Type 0
PortAction = Text → Text → ApiPort → L Unit

abbrev is_zero : ℤ → Bool
is_zero (pos n) = nat_eq n 0
is_zero (negsuc n) = false

unfoldable pub is_unexported : ApiPort → Bool
is_unexported b = is_zero b.private_port || is_zero b.public_port

abbrev pub replace_ip : ApiPort → List Text → L ApiPort
replace_ip b [] = crash
replace_ip b (host ∷ hosts) = pure (record b { ip = host })

-- The catch-all address becomes the first one of this host; the index panics if there is none.
unfoldable pub rewrite_ip : List Text → ApiPort → L ApiPort
rewrite_ip hosts b = if b.ip == text "0.0.0.0" then replace_ip b hosts else pure b

abbrev pub tried : Outcome Unit × Link → Outcome (Option Error) × Link
tried (ok u, s) = (ok none, s)
tried (err e, s) = (ok (some e), s)
tried (panic, s) = (panic, s)

-- A call whose error is looked at.
abbrev pub try : L Unit → L (Option Error)
try m s = tried (m s)

-- `n` and `e`
abbrev pub Tally : Type 0
Tally = ℕ × List Error

abbrev pub add_result : Option Error → Tally → Tally
add_result none (n, e) = (suc n, e)
add_result (some x) (n, e) = (n, e ++ x ∷ [])

module _ (hosts : List Text) (act : PortAction) (vs rs : Text) where
  abbrev pub act_on : ApiPort → Tally → L Tally
  act_on b c = do
    b' ← rewrite_ip hosts b
    result ← try (act (service_id vs b') (backend_id rs b') b')
    pure (add_result result c)

  abbrev pub invoke_port : ApiPort → Tally → L Tally
  invoke_port b c = if is_unexported b then pure c else act_on b c

  unfoldable pub invoke_ports : List ApiPort → Tally → L Tally
  unfolding is_unexported rewrite_ip
  invoke_ports [] c = pure c
  invoke_ports (b ∷ ports) c = invoke_port b c >>= λ c'. invoke_ports ports c'

  -- `invokeFunc`, which returns the errors; the count of successes is only logged.
  unfoldable pub invoke_func : List ApiPort → L (List Error)
  unfolding invoke_ports
  invoke_func ports = invoke_ports ports (0, []) >>= λ c. pure c.1

-- A container as Docker lists it.
pub record Container : Type 0 where
  pub image : Text
  pub names : List Text
  pub ports : List ApiPort

-- What Docker says of the container of an event: what `PortMappingAPI` makes of `NetworkSettings`, and
-- the image in `Config`. Both are pointers, which may be nil.
pub record Inspection : Type 0 where
  pub name : Text
  pub settings : Option (List ApiPort)
  pub config : Option Text

pub record DockerEvent : Type 0 where
  pub status : Text
  pub inspection : Option Inspection

unfoldable pub actions : Remote → Map Text PortAction
unfolding create_backend remove_backend
actions remote = (text "start", create_backend remote) ∷ (text "kill", remove_backend remote) ∷ []

module _ (hosts : List Text) where
  abbrev pub on_image : PortAction → Text → List ApiPort → Option Text → L Unit
  on_image act name ports none = crash
  on_image act name ports (some image) = invoke_func hosts act image name ports >>= λ e. pure tt

  abbrev pub on_ports : PortAction → Inspection → List ApiPort → L Unit
  on_ports act i [] = pure tt
  on_ports act i (b ∷ ports) = on_image act i.name (b ∷ ports) i.config

  abbrev pub on_settings : PortAction → Inspection → Option (List ApiPort) → L Unit
  on_settings act i none = crash
  on_settings act i (some ports) = on_ports act i ports

  abbrev pub on_inspection : PortAction → Option Inspection → L Unit
  on_inspection act none = pure tt
  on_inspection act (some i) = on_settings act i i.settings

  abbrev pub on_action : Option PortAction → Option Inspection → L Unit
  on_action none i = pure tt
  on_action (some act) i = on_inspection act i

module _ (remote : Remote) (hosts : List Text) where
  abbrev pub boot_container : Text → List Text → List ApiPort → L (List Error)
  boot_container image [] ports = crash
  boot_container image (name ∷ names) ports =
      invoke_func hosts (create_backend remote) image name ports

  -- The loop over the containers that run already. `Names[0]` panics if there is no name.
  unfoldable pub bootstrap : List Container → List Error → L (List Error)
  unfolding invoke_func create_backend
  bootstrap [] e = pure e
  bootstrap (o ∷ rest) e =
      boot_container o.image o.names o.ports >>= λ more. bootstrap rest (e ++ more)

  -- The loop over the event feed.
  unfoldable pub follow_events : List DockerEvent → L Unit
  unfolding invoke_func actions lookup
  follow_events [] = pure tt
  follow_events (event ∷ events) =
      on_action hosts (lookup event.status (actions remote)) event.inspection >>= λ done.
      follow_events events

  -- The containers that run, and then the feed until its channel is closed.
  unfoldable pub process : List Container → List DockerEvent → L Unit
  unfolding bootstrap follow_events
  process containers events = bootstrap containers [] >>= λ e. follow_events events

  -- `main` from the list of containers on. The loop ends when the channel is closed, and the deferred
  -- call closes it again, which panics.
  unfoldable pub run : List Container → List DockerEvent → L Unit
  unfolding process
  run containers events = process containers events >>= λ done. crash
