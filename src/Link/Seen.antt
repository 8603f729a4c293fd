-- ===== src/Link/Seen.antt =====
-- The table `exposed` stays honest through everything that gorb-docker-link does.
use gorb.Prelude.{
  Text_eq, ◌≡◌, refl, subst, inl, inr, Bool, true, false, Option, none, some, List, [], ◌∷◌,
  if◌then◌else◌, Bool-cases, ◌==◌,
}
use gorb.Prelude.Text.{Text, text}
use gorb.Prelude.Map.{lookup}
use gorb.Prelude.Exec.{Outcome, ok, err, panic, Error, pure, crash}
use gorb.Link.{Known, ApiPort, Remote, Link, L, create_backend, remove_backend}
use gorb.Link.Ports.{
  PortAction, rewrite_ip, replace_ip, tried, try, Tally, act_on, invoke_port, invoke_ports,
  invoke_func, Container, Inspection, DockerEvent, boot_container, bootstrap, actions, on_image,
  on_ports, on_settings, on_action, follow_events, process, run,
}
use gorb.Link.Cache.{
  IsHonest, Keeps, bind-Keeps, create_backend-Keeps, remove_backend-Keeps, WasSeen,
}

abbrev known : Known
known = tt

nothing_known : {C : Type 0} (name : Text) → lookup name [] ≡ some known → C
unfolding lookup
nothing_known name h = absurd cc

-- What holds of both actions holds of the one that a status stands for.
pub actions-All :
    (remote : Remote) (P : PortAction → Type 0)
    → P (create_backend remote)
    → P (remove_backend remote)
    → (status : Text) (act : PortAction) → lookup status (actions remote) ≡ some act
    → P act
unfolding actions lookup
actions-All remote P created removed status act h = elim (Bool-cases (text "start" == status)) [
  | inl e ↦ let found : create_backend remote ≡ act = cc (rw e at h) in subst P found created
  | inr e ↦ elim (Bool-cases (text "kill" == status)) [
    | inl e' ↦
        let found : remove_backend remote ≡ act = cc (rw (e, e') at h) in subst P found removed
    | inr e' ↦ absurd (cc (rw (e, e') at h))
  ]
]

module _ (remote : Remote) where
  pure-Keeps : {B : Type 0} (b : B) → Keeps remote (pure b)
  pure-Keeps b s v = v

  if-Keeps :
      {B : Type 0} (b : Bool) (m n : L B)
      → Keeps remote m
      → Keeps remote n
      → Keeps remote (if b then m else n)
  if-Keeps true m n h k = h
  if-Keeps false m n h k = k

  try-Keeps : (m : L Unit) → Keeps remote m → Keeps remote (try m)
  try-Keeps m h s v = go (m s) (h s v)
    where
      go : (p : Outcome Unit × Link) → IsHonest remote p.1 → IsHonest remote (tried p).1
      go (ok u, t) v = v
      go (err e, t) v = v
      go (panic, t) v = v

  rewrite_ip-Keeps : (hosts : List Text) (b : ApiPort) → Keeps remote (rewrite_ip hosts b)
  unfolding rewrite_ip
  rewrite_ip-Keeps hosts b s v = elim (Bool-cases (b.ip == text "0.0.0.0")) [
    | inl e ↦ rw e (go hosts)
    | inr e ↦ rw e v
  ]
    where
      go : (hosts : List Text) → IsHonest remote (replace_ip b hosts s).1
      go [] = v
      go (h ∷ hs) = v

  -- An action that keeps the table honest at every port.
  abbrev KeepsAll : PortAction → Type 0
  KeepsAll act = (vs rs : Text) (b : ApiPort) → Keeps remote (act vs rs b)

  module _ (hosts : List Text) (act : PortAction) (vs rs : Text) (keeps : KeepsAll act) where
    act_on-Keeps : (b : ApiPort) (c : Tally) → Keeps remote (act_on hosts act vs rs b c)
    act_on-Keeps b c = search (bind-Keeps remote, rewrite_ip-Keeps, try-Keeps, pure-Keeps, keeps)

    invoke_port-Keeps : (b : ApiPort) (c : Tally) → Keeps remote (invoke_port hosts act vs rs b c)
    invoke_port-Keeps b c = search (if-Keeps, pure-Keeps, act_on-Keeps)

    invoke_ports-Keeps :
        (ports : List ApiPort) (c : Tally) → Keeps remote (invoke_ports hosts act vs rs ports c)
    unfolding invoke_ports
    invoke_ports-Keeps [] c = pure-Keeps c
    invoke_ports-Keeps (b ∷ ports) c =
        search (bind-Keeps remote, invoke_port-Keeps, invoke_ports-Keeps ports)

    invoke_func-Keeps : (ports : List ApiPort) → Keeps remote (invoke_func hosts act vs rs ports)
    unfolding invoke_func
    invoke_func-Keeps ports = search (bind-Keeps remote, invoke_ports-Keeps, pure-Keeps)

  module _ (hosts : List Text) where
    boot_container-Keeps :
        (image : Text) (names : List Text) (ports : List ApiPort)
        → Keeps remote (boot_container remote hosts image names ports)
    boot_container-Keeps image [] ports = λ s v. v
    boot_container-Keeps image (name ∷ names) ports =
        invoke_func-Keeps hosts (create_backend remote) image name (create_backend-Keeps remote)
          ports

    bootstrap-Keeps :
        (os : List Container) (e : List Error) → Keeps remote (bootstrap remote hosts os e)
    unfolding bootstrap
    bootstrap-Keeps [] e = pure-Keeps e
    bootstrap-Keeps (o ∷ os) e =
        search (bind-Keeps remote, boot_container-Keeps, bootstrap-Keeps os)

    on_image-Keeps :
        (act : PortAction) (name : Text) (ports : List ApiPort) (config : Option Text)
        → KeepsAll act
        → Keeps remote (on_image hosts act name ports config)
    on_image-Keeps act name ports none h = λ s v. v
    on_image-Keeps act name ports (some image) h =
        search (bind-Keeps remote, invoke_func-Keeps hosts act image name h, pure-Keeps)

    on_ports-Keeps :
        (act : PortAction) (i : Inspection) (ports : List ApiPort)
        → KeepsAll act
        → Keeps remote (on_ports hosts act i ports)
    on_ports-Keeps act i [] h = pure-Keeps tt
    on_ports-Keeps act i (b ∷ ports) h = on_image-Keeps act i.name (b ∷ ports) i.config h

    on_settings-Keeps :
        (act : PortAction) (i : Inspection) (settings : Option (List ApiPort))
        → KeepsAll act
        → Keeps remote (on_settings hosts act i settings)
    on_settings-Keeps act i none h = λ s v. v
    on_settings-Keeps act i (some ports) h = on_ports-Keeps act i ports h

    on_action-Keeps :
        (act : Option PortAction) (i : Option Inspection)
        → ((a : PortAction) → act ≡ some a → KeepsAll a)
        → Keeps remote (on_action hosts act i)
    on_action-Keeps none i h = pure-Keeps tt
    on_action-Keeps (some act) none h = pure-Keeps tt
    on_action-Keeps (some act) (some i) h = on_settings-Keeps act i i.settings (h act refl)

    follow_events-Keeps :
        (events : List DockerEvent) → Keeps remote (follow_events remote hosts events)
    unfolding follow_events
    follow_events-Keeps [] = pure-Keeps tt
    follow_events-Keeps (event ∷ events) =
        bind-Keeps remote (on_action hosts (lookup event.status (actions remote)) event.inspection)
          (λ done. follow_events remote hosts events)
          (on_action-Keeps _ event.inspection λ act.
            actions-All remote KeepsAll (create_backend-Keeps remote) (remove_backend-Keeps remote)
              event.status act)
          (λ done. follow_events-Keeps events)

    process-Keeps :
        (os : List Container) (events : List DockerEvent)
        → Keeps remote (process remote hosts os events)
    unfolding process
    process-Keeps os events =
        bind-Keeps remote (bootstrap remote hosts os []) (λ e. follow_events remote hosts events)
          (bootstrap-Keeps os []) (λ e. follow_events-Keeps events)

    -- Whatever containers run and whatever Docker and GORB tell the daemon, a service that it takes
    -- for known has been seen at GORB since the start: a GET of it gave 200, or a PUT of it 409.
    pub run-WasSeen :
        (os : List Container) (events : List DockerEvent) (vs : Text)
        → let s = (run remote hosts os events (record { exposed = []; sent = [] })).1 in
          lookup vs s.exposed ≡ some tt → WasSeen remote vs s.sent
    unfolding run
    run-WasSeen os events vs =
        (bind-Keeps remote (process remote hosts os events) (λ done. crash)
            (process-Keeps os events) (λ done s v. v) _
            (record { seen = λ name h. nothing_known name h })).seen
          vs
