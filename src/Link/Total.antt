-- ===== src/Link/Total.antt =====
-- When gorb-docker-link does not panic.
use gorb.Prelude.{
  Text_eq, ℕ, ◌≡◌, ◌≢◌, refl, inl, inr, Bool, true, false, Option, none, some, List, [], ◌∷◌, ◌++◌,
  if◌then◌else◌, nat_eq, Bool-cases, ℕ_eq, All,
}
use gorb.Prelude.Text.{Text}
use gorb.Prelude.Int.{ℤ}
use gorb.Prelude.Map.{Map, lookup}
use gorb.Prelude.Exec.{
  Outcome, ok, err, panic, Error, continue, pure, throw, backend_exists, backend_missing,
  parent_missing, ◌>>=◌,
}
use gorb.Link.{
  Verb, Body, Known, ApiPort, Rqst, Remote, Link, L, expose, new_request, handle, conclude,
  roundtrip, fetch, create_service, ensure_answered, ensure_service, put_backend, create_backend,
  remove_backend, Parses,
}
use gorb.Link.Ports.{
  PortAction, invoke_func, Container, Inspection, DockerEvent, boot_container, bootstrap, actions,
  on_image, on_ports, on_settings, on_action, follow_events, process, run,
}
use gorb.Link.Seen.{actions-All}
use gorb.Link.Tally.{IsCalm, invoke_func-total}

-- A part that does not panic.
abbrev Calm : {B : Type 0} → L B → Type 0
Calm m = (s : Link) → (m s).0 ≢ panic

pure-Calm : {B : Type 0} (b : B) → Calm (pure b)
pure-Calm b s h = absurd cc

throw-Calm : {B : Type 0} (e : Error) → Calm {B = B} (throw e)
throw-Calm e s h = absurd cc

expose-Calm : (vs : Text) → Calm (expose vs)
expose-Calm vs s h = absurd cc

if-Calm : {B : Type 0} (b : Bool) (m n : L B) → Calm m → Calm n → Calm (if b then m else n)
if-Calm true m n h k = h
if-Calm false m n h k = k

module _ {B C : Type 0} where
  continue-Calm :
      (r : Outcome B) (next : B → L C) (s : Link)
      → r ≢ panic
      → ((b : B) → Calm (next b))
      → (continue r next s).0 ≢ panic
  continue-Calm (ok b) next s h k = k b s
  continue-Calm (err e) next s h k = λ p. absurd cc
  continue-Calm panic next s h k = absurd (h refl)

  bind-Calm : (m : L B) (next : B → L C) → Calm m → ((b : B) → Calm (next b)) → Calm (m >>= next)
  bind-Calm m next h k s = continue-Calm (m s).0 next (m s).1 (h s) k

lookup-single-Calm :
    (k status : ℕ) (h : L Unit) → Calm h → Calm (handle (lookup status ((k, h) ∷ [])))
unfolding lookup
lookup-single-Calm k status h calm = elim (Bool-cases (nat_eq k status)) [
  | inl e ↦ rw e calm
  | inr e ↦ rw e (throw-Calm _)
]

lookup-pair-Calm :
    (j k status : ℕ) (g h : L Unit)
    → Calm g
    → Calm h
    → Calm (handle (lookup status ((j, g) ∷ (k, h) ∷ [])))
unfolding lookup
lookup-pair-Calm j k status g h cg ch = elim (Bool-cases (nat_eq j status)) [
  | inl e ↦ rw e cg
  | inr e ↦ elim (Bool-cases (nat_eq k status)) [
    | inl e' ↦ rw (e, e') ch
    | inr e' ↦ rw (e, e') (throw-Calm _)
  ]
]

module _ (remote : Remote) (parses : Parses remote) where
  roundtrip-Calm :
      (verb : Verb) (path : List Text) (body : Body) (eh : Map ℕ (L Unit))
      → ((status : ℕ) → Calm (handle (lookup status eh)))
      → Calm (roundtrip remote (new_request remote verb path body) eh)
  roundtrip-Calm verb path body eh h s =
      rw (parses path) (go (remote.answers s.sent r) (record s { sent = r ∷ s.sent }))
    where
      r : Rqst
      r = record { verb = verb; path = path; body = body }

      go : (a : Option ℕ) → Calm (conclude eh a)
      go none = throw-Calm _
      go (some status) = if-Calm (nat_eq status 200) _ _ (pure-Calm tt) (h status)

  create_service-Calm : (vs : Text) (n : ℤ) (proto : Text) → Calm (create_service remote vs n proto)
  unfolding create_service
  create_service-Calm vs n proto =
      roundtrip-Calm _ _ _ _ (λ status. lookup-single-Calm 409 status _ (expose-Calm vs))

  fetch-Calm : (path : List Text) → Calm (fetch remote path)
  fetch-Calm path s = rw (parses path) (λ h. absurd cc)

  ensure_answered-Calm :
      (vs : Text) (b : ApiPort) (a : Option ℕ) → Calm (ensure_answered remote vs b a)
  ensure_answered-Calm vs b none = throw-Calm _
  ensure_answered-Calm vs b (some status) =
      if-Calm (nat_eq status 200) _ _ (expose-Calm vs)
        (create_service-Calm vs b.private_port b.type)

  ensure_service-Calm :
      (vs : Text) (b : ApiPort) (known : Option Known) → Calm (ensure_service remote vs b known)
  ensure_service-Calm vs b (some known) = pure-Calm tt
  ensure_service-Calm vs b none = search (bind-Calm, fetch-Calm, ensure_answered-Calm)

  put_backend-Calm : (vs rs : Text) (b : ApiPort) → Calm (put_backend remote vs rs b)
  put_backend-Calm vs rs b = roundtrip-Calm _ _ _ _ λ status.
      lookup-pair-Calm 409 404 status _ _ (throw-Calm backend_exists) (throw-Calm parent_missing)

  create_backend-IsCalm : IsCalm (create_backend remote)
  unfolding create_backend
  create_backend-IsCalm vs rs b s =
      bind-Calm (ensure_service remote vs b (lookup vs s.exposed)) (λ _. put_backend remote vs rs b)
        (ensure_service-Calm vs b (lookup vs s.exposed)) (λ _. put_backend-Calm vs rs b) s

  remove_backend-IsCalm : IsCalm (remove_backend remote)
  unfolding remove_backend
  remove_backend-IsCalm vs rs b =
      roundtrip-Calm _ _ _ _ λ status. lookup-single-Calm 404 status _ (throw-Calm backend_missing)

-- A part that ends without an error and without a panic.
abbrev Succeeds : {B : Type 0} → L B → Type 0
Succeeds {B} m = (s : Link) → (b : B) × (t : Link) × (m s ≡ (ok b, t))

pure-Succeeds : {B : Type 0} (b : B) → Succeeds (pure b)
pure-Succeeds b s = (b, s, refl)

bind-Succeeds :
    {B C : Type 0} (m : L B) (next : B → L C)
    → Succeeds m
    → ((b : B) → Succeeds (next b))
    → Succeeds (m >>= next)
bind-Succeeds m next h k s =
    let (b, t, ran) = h s in let (c, u, rest) = k b t in (c, u, rw ran rest)

-- Docker's answer has its settings and its configuration.
abbrev pub IsComplete : Option Inspection → Type 0
IsComplete none = Unit
IsComplete (some i) = (i.settings ≢ none) × (i.config ≢ none)

module _ (remote : Remote) (hosts : List Text) (parses : Parses remote)
    (some_host : hosts ≢ []) where
  invoke_func-Succeeds :
      (act : PortAction) (vs rs : Text) (ports : List ApiPort)
      → IsCalm act
      → Succeeds (invoke_func hosts act vs rs ports)
  invoke_func-Succeeds act vs rs ports calm s =
      let (n, e, t, _, ran, _) = invoke_func-total hosts act vs rs some_host calm ports s in
      (e, t, ran)

  boot_container-Succeeds :
      (image : Text) (names : List Text) (ports : List ApiPort)
      → names ≢ []
      → Succeeds (boot_container remote hosts image names ports)
  boot_container-Succeeds image [] ports h = absurd (h refl)
  boot_container-Succeeds image (name ∷ names) ports h =
      invoke_func-Succeeds _ image name ports (create_backend-IsCalm remote parses)

  bootstrap-Succeeds :
      (os : List Container) (e : List Error)
      → All (λ o. o.names ≢ []) os
      → Succeeds (bootstrap remote hosts os e)
  unfolding bootstrap
  bootstrap-Succeeds [] e h = pure-Succeeds e
  bootstrap-Succeeds (o ∷ os) e (named, h) =
      bind-Succeeds (boot_container remote hosts o.image o.names o.ports)
        (λ more. bootstrap remote hosts os (e ++ more))
        (boot_container-Succeeds o.image o.names o.ports named)
        (λ more. bootstrap-Succeeds os (e ++ more) h)

  on_image-Succeeds :
      (act : PortAction) (name : Text) (ports : List ApiPort) (config : Option Text)
      → config ≢ none
      → IsCalm act
      → Succeeds (on_image hosts act name ports config)
  on_image-Succeeds act name ports none here h = absurd (here refl)
  on_image-Succeeds act name ports (some image) here h =
      bind-Succeeds (invoke_func hosts act image name ports) (λ e. pure tt)
        (invoke_func-Succeeds act image name ports h) (λ e. pure-Succeeds tt)

  on_ports-Succeeds :
      (act : PortAction) (i : Inspection) (ports : List ApiPort)
      → i.config ≢ none
      → IsCalm act
      → Succeeds (on_ports hosts act i ports)
  on_ports-Succeeds act i [] here h = pure-Succeeds tt
  on_ports-Succeeds act i (b ∷ ports) here h =
      on_image-Succeeds act i.name (b ∷ ports) i.config here h

  on_settings-Succeeds :
      (act : PortAction) (i : Inspection) (settings : Option (List ApiPort))
      → settings ≢ none
      → i.config ≢ none
      → IsCalm act
      → Succeeds (on_settings hosts act i settings)
  on_settings-Succeeds act i none set here h = absurd (set refl)
  on_settings-Succeeds act i (some ports) set here h = on_ports-Succeeds act i ports here h

  on_action-Succeeds :
      (act : Option PortAction) (i : Option Inspection)
      → IsComplete i
      → ((a : PortAction) → act ≡ some a → IsCalm a)
      → Succeeds (on_action hosts act i)
  on_action-Succeeds none i all h = pure-Succeeds tt
  on_action-Succeeds (some act) none all h = pure-Succeeds tt
  on_action-Succeeds (some act) (some i) (set, here) h =
      on_settings-Succeeds act i i.settings set here (h act refl)

  follow_events-Succeeds :
      (events : List DockerEvent)
      → All (λ event. IsComplete event.inspection) events
      → Succeeds (follow_events remote hosts events)
  unfolding follow_events
  follow_events-Succeeds [] h = pure-Succeeds tt
  follow_events-Succeeds (event ∷ events) (all, rest) =
      bind-Succeeds (on_action hosts (lookup event.status (actions remote)) event.inspection)
        (λ done. follow_events remote hosts events)
        (on_action-Succeeds _ event.inspection all λ act.
          actions-All remote IsCalm (create_backend-IsCalm remote parses)
            (remove_backend-IsCalm remote parses) event.status act)
        (λ done. follow_events-Succeeds events rest)

  process-Succeeds :
      (os : List Container) (events : List DockerEvent)
      → All (λ o. o.names ≢ []) os
      → All (λ event. IsComplete event.inspection) events
      → Succeeds (process remote hosts os events)
  unfolding process
  process-Succeeds os events named all =
      bind-Succeeds (bootstrap remote hosts os []) (λ e. follow_events remote hosts events)
        (bootstrap-Succeeds os [] named) (λ e. follow_events-Succeeds events all)

  -- If this host has an address, every path makes a URL that parses, every container that runs has a
  -- name, and Docker's answers have their settings and configuration, the daemon comes to the end of
  -- its event feed without an error and without a panic, whatever GORB answers. There it panics, since
  -- the feed ends with its channel closed, and the deferred call closes it again.
  pub run-panics :
      (os : List Container) (events : List DockerEvent) (s : Link)
      → All (λ o. o.names ≢ []) os
      → All (λ event. IsComplete event.inspection) events
      → (t : Link) × (process remote hosts os events s ≡ (ok tt, t))
        × (run remote hosts os events s ≡ (panic, t))
  unfolding run
  run-panics os events s named all =
      let (done, t, ran) = process-Succeeds os events named all s in (t, ran, rw ran refl)
