-- ===== src/Pulse/Loop/Order.antt =====
-- What the consumer of a health check receives, and when the goroutine of the check can end.
use gorb.Prelude.{
  ℕ, ◌≡◌, ◌≢◌, refl, sym, ap, subst, inl, inr, Bool, true, false, List, [], ◌∷◌, ◌++◌, All, arith,
  Option, none, some, if◌then◌else◌, Text_eq, ◌==◌, Bool-cases,
}
use gorb.Prelude.Text.{Text, text}
use gorb.Prelude.Int.{ℤ}
use gorb.Prelude.Exec.{Outcome, ok, err, panic}
use gorb.Util.Net.{Ip}
use gorb.Util.DynamicMap.{DynamicMap}
use gorb.Pulse.Floats.{Floats}
use gorb.Pulse.Status.{removed}
use gorb.Pulse.Metrics.{Metrics, Update, update}
use gorb.Pulse.Driver.{
  Driver, HttpPulse, Network, check, new_driver, tcp_pulse, http_pulse, new_get_driver, judge,
  int_eq, bind_outcome,
}
use gorb.Pulse.Loop.{
  Place, waiting, offering, closing, finished, Loop, new_loop, Move, tick, send, skip, notice_stop,
  send_last, Step, move, halt, leave, depart, Reach, here, later,
}

judge_sound : (expect : ℤ) (answer : Option ℤ) → judge expect answer ≢ removed
judge_sound expect none h = cc
judge_sound expect (some code) h = elim (Bool-cases (int_eq code expect)) [
  | inl e ↦ absurd (ground arith)
  | inr e ↦ absurd (ground arith)
]

-- The drivers that are made report no removal.
abbrev Sound : Outcome Driver → Type 0
Sound (ok d) = (net : Network) → check net d ≢ removed
Sound (err e) = Unit
Sound panic = Unit

bind_outcome-Sound :
    {B : Type 0} (o : Outcome B) (g : B → Outcome Driver)
    → ((b : B) → Sound (g b))
    → Sound (bind_outcome o g)
bind_outcome-Sound (ok b) g h = h b
bind_outcome-Sound (err e) g h = tt
bind_outcome-Sound panic g h = tt

if-Sound : (b : Bool) (x y : Outcome Driver) → Sound x → Sound y → Sound (if b then x else y)
if-Sound true x y h k = h
if-Sound false x y h k = k

tcp_pulse-Sound : (host : Ip) (port : ℕ) → Sound (ok (tcp_pulse host port))
unfolding check
tcp_pulse-Sound host port net h = elim (Bool-cases (net.dials host port)) [
  | inl e ↦ absurd (ground arith)
  | inr e ↦ absurd (ground arith)
]

http_pulse-Sound : (p : HttpPulse) → Sound (ok (http_pulse p))
unfolding check
http_pulse-Sound p net = judge_sound p.expect (net.fetches p)

new_get_driver-Sound :
    (host : Ip) (port : ℕ) (opts : DynamicMap) → Sound (new_get_driver host port opts)
unfolding new_get_driver
new_get_driver-Sound host port opts = search (bind_outcome-Sound, http_pulse-Sound)

new_driver-Sound :
    (type : Text) (host : Ip) (port : ℕ) (opts : DynamicMap)
    → Sound (new_driver type host port opts)
unfolding new_driver check
new_driver-Sound type host port opts =
    if-Sound (type == text "tcp") _ _ (tcp_pulse-Sound host port)
      (if-Sound (type == text "http") _ _ (new_get_driver-Sound host port opts) λ net h. absurd cc)

module _ {A : Type 0} where
  -- An update of a check that goes on.
  abbrev IsOngoing : Update A → Type 0
  IsOngoing u = u.metrics.status ≢ removed

  abbrev Fits : Place A → List (Update A) → Type 0
  Fits waiting sent = All IsOngoing sent
  Fits (offering u) sent = IsOngoing u × All IsOngoing sent
  Fits (closing u) sent = All IsOngoing sent
  Fits finished [] = Unit
  Fits finished (u ∷ sent) = All IsOngoing sent

  All-middle :
      (recent old : List (Update A)) (u : Update A)
      → All IsOngoing (recent ++ u ∷ old)
      → IsOngoing u
  All-middle [] old u h = h.0
  All-middle (v ∷ recent) old u h = All-middle recent old u h.1

  Fits-last :
      (place : Place A) (recent old : List (Update A)) (u : Update A)
      → Fits place (recent ++ u ∷ old)
      → u.metrics.status ≡ removed
      → (recent ≡ []) × (place ≡ finished)
  Fits-last waiting recent old u h r = absurd (All-middle recent old u h r)
  Fits-last (offering v) recent old u h r = absurd (All-middle recent old u h.1 r)
  Fits-last (closing v) recent old u h r = absurd (All-middle recent old u h r)
  Fits-last finished [] old u h r = (refl, refl)
  Fits-last finished (v ∷ recent) old u h r = absurd (All-middle recent old u h r)

module _ (vs rs : Text) (driver : Driver) {A : Type 0} ⦃f : Floats A⦄
    (sound : (net : Network) → check net driver ≢ removed) where
  Move-Fits : {s t : Loop A} → Move vs rs driver s t → Fits s.place s.sent → Fits t.place t.sent
  unfolding update
  Move-Fits {s} (tick net now at e) h = (
    subst (λ status. status ≢ removed) (sym (ap (λ m. m.status) e)) (sound net),
    subst (λ p. Fits p s.sent) at h,
  )
  Move-Fits {s} (send at c) h = subst (λ p. Fits p s.sent) at h
  Move-Fits {s} (skip at c) h = (subst (λ p. Fits p s.sent) at h).1
  Move-Fits {s} (notice_stop now at z e) h = subst (λ p. Fits p s.sent) at h
  Move-Fits {s} (send_last at c) h = subst (λ p. Fits p s.sent) at h

  Step-Fits : {s t : Loop A} → Step vs rs driver s t → Fits s.place s.sent → Fits t.place t.sent
  Step-Fits (move m) h = Move-Fits m h
  Step-Fits (halt e) h = h
  Step-Fits (leave e) h = h
  Step-Fits (depart e) h = h

  Reach-Fits : {s t : Loop A} → Reach vs rs driver s t → Fits s.place s.sent → Fits t.place t.sent
  Reach-Fits here h = h
  Reach-Fits (later r st) h = Step-Fits st (Reach-Fits r h)

  -- When the consumer has received an update that tells of a removal, the goroutine has ended, and
  -- that update is the last one.
  removed_last :
      {s : Loop A} (m : Metrics A) (recent old : List (Update A)) (u : Update A)
      → Reach vs rs driver (new_loop m) s
      → s.sent ≡ recent ++ u ∷ old
      → u.metrics.status ≡ removed
      → (recent ≡ []) × (s.place ≡ finished)
  removed_last {s} m recent old u r e h =
      Fits-last s.place recent old u (subst (λ l. Fits s.place l) e (Reach-Fits r tt)) h

-- For a check that `New` has made: when its consumer has received an update that tells of a removal,
-- the goroutine has ended, and that update is the last one.
pub new_driver-removed_last :
    (type : Text) (host : Ip) (port : ℕ) (opts : DynamicMap) (driver : Driver) (vs rs : Text)
    {A : Type 0} ⦃f : Floats A⦄ (m : Metrics A) (s : Loop A) (recent old : List (Update A))
    (u : Update A)
    → new_driver type host port opts ≡ ok driver
    → Reach vs rs driver (new_loop m) s
    → s.sent ≡ recent ++ u ∷ old
    → u.metrics.status ≡ removed
    → (recent ≡ []) × (s.place ≡ finished)
new_driver-removed_last type host port opts driver vs rs m s recent old u made =
    removed_last vs rs driver (subst Sound made (new_driver-Sound type host port opts)) m recent old
      u
