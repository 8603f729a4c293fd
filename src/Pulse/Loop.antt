-- ===== src/Pulse/Loop.antt =====
-- pulse/pulse.go: Loop, the goroutine of a health check, beside the consumer of its updates and the
-- caller of Stop. `select` takes any branch that is ready, so the steps are a relation.
pub mod Start
pub mod Order
pub mod Ending
use gorb.Prelude.{ℕ, zero, suc, ◌<◌, ◌≡◌, ◌≢◌, Bool, true, false, List, [], ◌∷◌}
use gorb.Prelude.Text.{Text}
use gorb.Prelude.Int.{ℤ, pos, negsuc}
use gorb.Prelude.Exec.{Outcome, ok, panic}
use gorb.Pulse.Floats.{Floats}
use gorb.Pulse.Status.{StatusType, removed}
use gorb.Pulse.Metrics.{Metrics, Update, update}
use gorb.Pulse.Driver.{Driver, Network, check}

-- `rng.Int63n`, which panics unless its argument is positive; `draw n` is below a positive `n`.
unfoldable pub first_interval : (ℕ → ℕ) → ℤ → Outcome ℕ
first_interval draw (pos zero) = panic
first_interval draw (pos n) = ok (draw n)
first_interval draw (negsuc n) = panic

-- Where the loop stands: at the outer `select`, at the inner one with an update to send, at the send
-- behind `stopCh` with the last update, or behind `return`.
pub data Place (A : Type 0) : Type 0 where
  waiting : Place A
  offering : Update A → Place A
  closing : Update A → Place A
  finished : Place A

-- The loop that receives from `pulseCh`: it receives until it sees that `consumerStopCh` is closed.
pub data Consumer : Type 0 where
  listening leaving gone : Consumer

-- `sent` lists the updates that the consumer has received, the latest first.
pub record Loop (A : Type 0) : Type 0 where
  pub place : Place A
  pub stopped : Bool
  pub consumer : Consumer
  pub metrics : Metrics A
  pub sent : List (Update A)

abbrev pub new_loop : {A : Type 0} → Metrics A → Loop A
new_loop m = record {
  place = waiting;
  stopped = false;
  consumer = listening;
  metrics = m;
  sent = [];
}

abbrev pub message : {A : Type 0} → Text → Text → Metrics A → Update A
message vs rs m = record { vs_id = vs; rs_id = rs; metrics = m }

module _ (vs rs : Text) (driver : Driver) {A : Type 0} ⦃f : Floats A⦄ where
  -- The steps of the goroutine. The update is made when the inner `select` is reached, whichever of
  -- its branches is taken then.
  pub data Move (s : Loop A) : Loop A → Type 0 where
    tick :
        (net : Network) (now : ℕ) {m : Metrics A}
        → s.place ≡ waiting
        → m ≡ update s.metrics (check net driver) now
        → Move s (record s { place = offering (message vs rs m); metrics = m })
    send :
        {u : Update A}
        → s.place ≡ offering u
        → s.consumer ≢ gone
        → Move s (record s { place = waiting; sent = u ∷ s.sent })
    skip :
        {u : Update A}
        → s.place ≡ offering u
        → s.consumer ≢ listening
        → Move s (record s { place = waiting })
    notice_stop :
        (now : ℕ) {m : Metrics A}
        → s.place ≡ waiting
        → s.stopped ≡ true
        → m ≡ update s.metrics removed now
        → Move s (record s { place = closing (message vs rs m); metrics = m })
    send_last :
        {u : Update A}
        → s.place ≡ closing u
        → s.consumer ≢ gone
        → Move s (record s { place = finished; sent = u ∷ s.sent })

  -- The goroutine moves, `Stop` is called, `consumerStopCh` is closed, or the consumer returns.
  pub data Step (s : Loop A) : Loop A → Type 0 where
    move : {t : Loop A} → Move s t → Step s t
    halt : s.stopped ≡ false → Step s (record s { stopped = true })
    leave : s.consumer ≡ listening → Step s (record s { consumer = leaving })
    depart : s.consumer ≡ leaving → Step s (record s { consumer = gone })

  -- So many moves of the goroutine alone.
  pub data Moves (s : Loop A) : Loop A → ℕ → Type 0 where
    no_move : Moves s s zero
    more : {t u : Loop A} {n : ℕ} → Moves s t n → Move t u → Moves s u (suc n)

  pub data Reach (s : Loop A) : Loop A → Type 0 where
    here : Reach s s
    later : {t u : Loop A} → Reach s t → Step t u → Reach s u
