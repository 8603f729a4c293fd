-- ===== src/Pulse/Loop/Ending.antt =====
-- When the goroutine of a health check can go on, when it ends, and when it never does.
use gorb.Prelude.{ℕ, suc, ◌≤◌, ◌≡◌, ◌≢◌, refl, ◌⊎◌, inl, inr, true, List, arith, Text_eq}
use gorb.Prelude.Text.{Text}
use gorb.Pulse.Floats.{Floats}
use gorb.Pulse.Metrics.{Update}
use gorb.Pulse.Driver.{Driver, Network}
use gorb.Pulse.Loop.{
  Place, waiting, offering, closing, finished, Consumer, listening, leaving, gone, Loop, Move, tick,
  send, skip, notice_stop, send_last, Step, move, halt, leave, depart, Reach, here, later, Moves,
  no_move, more,
}

gone? : (c : Consumer) → (c ≡ gone) ⊎ (c ≢ gone)
gone? listening = inr cc
gone? leaving = inr cc
gone? gone = inl refl

module _ (vs rs : Text) (driver : Driver) {A : Type 0} ⦃f : Floats A⦄ where
  -- The goroutine can move, unless it has returned, or stands at the send of the last update while
  -- the consumer has returned.
  pub progress :
      (net : Network) (now : ℕ) (s : Loop A)
      → ((t : Loop A) × Move vs rs driver s t)
        ⊎ ((s.place ≡ finished) ⊎ (((u : Update A) × (s.place ≡ closing u)) × (s.consumer ≡ gone)))
  progress net now s = go s.place refl
    where
      go :
          (p : Place A)
          → s.place ≡ p
          → ((t : Loop A) × Move vs rs driver s t)
            ⊎ ((s.place ≡ finished)
                ⊎ (((u : Update A) × (s.place ≡ closing u)) × (s.consumer ≡ gone)))
      go waiting e = inl (_, tick net now e refl)
      go (offering u) e = elim (gone? s.consumer) [
        | inl g ↦ inl (_, skip e (λ l. absurd cc))
        | inr g ↦ inl (_, send e g)
      ]
      go (closing u) e = elim (gone? s.consumer) [
        | inl g ↦ inr (inr ((u, e), g))
        | inr g ↦ inl (_, send_last e g)
      ]
      go finished e = inr (inl e)

  close_off :
      {s t : Loop A} {u : Update A} {n : ℕ}
      → Moves vs rs driver s t n
      → t.place ≡ closing u
      → t.consumer ≢ gone
      → (end : Loop A) × Moves vs rs driver s end (suc n) × (end.place ≡ finished)
  close_off ms at g = (_, more ms (send_last at g), refl)

  notice :
      {s t : Loop A} {n : ℕ}
      → Moves vs rs driver s t n
      → t.place ≡ waiting
      → t.stopped ≡ true
      → t.consumer ≢ gone
      → (end : Loop A) × Moves vs rs driver s end (suc (suc n)) × (end.place ≡ finished)
  notice ms at z g = close_off (more ms (notice_stop 0 at z refl)) refl g

  -- Once `Stop` has been called, and as long as the consumer has not returned, the goroutine can end
  -- by at most three moves of its own, from wherever it stands.
  pub can_end :
      (s : Loop A)
      → s.stopped ≡ true
      → s.consumer ≢ gone
      → (n : ℕ) × (n ≤ 3) × ((end : Loop A) × Moves vs rs driver s end n × (end.place ≡ finished))
  can_end s z g = go s.place refl
    where
      go :
          (p : Place A)
          → s.place ≡ p
          → (n : ℕ) × (n ≤ 3)
            × ((end : Loop A) × Moves vs rs driver s end n × (end.place ≡ finished))
      go waiting e = (2, omega arith, notice no_move e z g)
      go (offering u) e = (3, omega arith, notice (more no_move (send e g)) refl z g)
      go (closing u) e = (1, omega arith, close_off no_move e g)
      go finished e = (0, omega arith, (s, no_move, e))

  -- Nothing more is received, and the goroutine has not returned.
  record IsStuck (sent : List (Update A)) (s : Loop A) : Type 0 where
    gone : s.consumer ≡ Consumer.gone
    running : s.place ≢ finished
    same : s.sent ≡ sent

  Move-IsStuck :
      {s t : Loop A} {sent : List (Update A)}
      → Move vs rs driver s t
      → IsStuck sent s
      → IsStuck sent t
  Move-IsStuck (tick net now e _) h = record { gone = h.gone; running = cc; same = h.same }
  Move-IsStuck (send e g) h = absurd (g h.gone)
  Move-IsStuck (skip e g) h = record { gone = h.gone; running = cc; same = h.same }
  Move-IsStuck (notice_stop now e z _) h = record { gone = h.gone; running = cc; same = h.same }
  Move-IsStuck (send_last e g) h = absurd (g h.gone)

  Step-IsStuck :
      {s t : Loop A} {sent : List (Update A)}
      → Step vs rs driver s t
      → IsStuck sent s
      → IsStuck sent t
  Step-IsStuck (move m) h = Move-IsStuck m h
  Step-IsStuck (halt e) h = record { gone = h.gone; running = h.running; same = h.same }
  Step-IsStuck (leave e) h = absurd cc
  Step-IsStuck (depart e) h = absurd cc

  Reach-IsStuck :
      {s t : Loop A} {sent : List (Update A)}
      → Reach vs rs driver s t
      → IsStuck sent s
      → IsStuck sent t
  Reach-IsStuck here h = h
  Reach-IsStuck (later r st) h = Step-IsStuck st (Reach-IsStuck r h)

  -- If the consumer returns while the goroutine runs, the goroutine never returns, whether `Stop` is
  -- called or not, and no update is received any more.
  pub never_ends :
      (s t : Loop A)
      → s.consumer ≡ gone
      → s.place ≢ finished
      → Reach vs rs driver s t
      → (t.place ≢ finished) × (t.sent ≡ s.sent)
  never_ends s t g h r =
      let stuck : IsStuck s.sent t =
        Reach-IsStuck r (record { gone = g; running = h; same = refl }) in
      (stuck.running, stuck.same)
