-- ===== src/Core/Runtime/Feed.antt =====
-- The updates of one health check, processed one after the other.
use gorb.Prelude.{Text_eq, Pair_eq, ℕ, ◌≡◌, refl, some, List, [], ◌∷◌, subst}
use gorb.Prelude.Text.{Text}
use gorb.Prelude.Map.{lookup}
use gorb.Prelude.Exec.{Outcome, ok, pure, ◌>>=◌}
use gorb.System.{Env}
use gorb.Pulse.Floats.{Floats}
use gorb.Pulse.Status.{StatusType}
use gorb.Pulse.Metrics.{Metrics, Update, update}
use gorb.Core.Context.{Backend, State, M}
use gorb.Core.Invariant.{IsValid}
use gorb.Core.Invariant.Keeps.{process_pulse_update-IsValid}
use gorb.Core.Runtime.{Stash, process_pulse_update}
use gorb.Core.Runtime.Stashing.{Settles}

module _ {A : Type 0} where
  abbrev pub update_of : Text → Text → Metrics A → Update A
  update_of vs_id rs_id m = record { vs_id = vs_id; rs_id = rs_id; metrics = m }

module _ (env : Env) {A : Type 0} ⦃f : Floats A⦄ where
  -- The updates of one check, in their order.
  unfoldable pub feed : Text → Text → Stash → List (Metrics A) → M A Stash
  feed vs_id rs_id stash [] = pure stash
  feed vs_id rs_id stash (m ∷ ms) =
      process_pulse_update env stash (update_of vs_id rs_id m) >>= λ st. feed vs_id rs_id st ms

  abbrev pub Feeds : Text → Text → Stash → List (Metrics A) → Stash → Backend A → State A → Type 0
  Feeds vs_id rs_id stash ms stash' b' s =
      (s' : State A) × (feed vs_id rs_id stash ms s ≡ (ok stash', s'))
      × (lookup rs_id s'.ctx.backends ≡ some b')

  pub feed-cons :
      (vs_id rs_id : Text) (m : Metrics A) (ms : List (Metrics A)) (stash st st' : Stash)
      (b' b'' : Backend A) (s : State A)
      → IsValid env s.ctx
      → Settles env stash (update_of vs_id rs_id m) st b' s
      → ((s1 : State A)
          → IsValid env s1.ctx
          → lookup rs_id s1.ctx.backends ≡ some b'
          → Feeds vs_id rs_id st ms st' b'' s1)
      → Feeds vs_id rs_id stash (m ∷ ms) st' b'' s
  unfolding feed
  feed-cons vs_id rs_id m ms stash st st' b' b'' s v (s1, e, there) rest =
      let v1 : IsValid env s1.ctx =
        subst (λ (r : Outcome Stash × State A). IsValid env r.1.ctx) e
          (process_pulse_update-IsValid env stash (update_of vs_id rs_id m) s v) in
      let (s2, e2, there2) = rest s1 v1 there in (s2, rw e e2, there2)

  pub feed-nil :
      (vs_id rs_id : Text) (stash : Stash) (b : Backend A) (s : State A)
      → lookup rs_id s.ctx.backends ≡ some b
      → Feeds vs_id rs_id stash [] stash b s
  unfolding feed
  feed-nil vs_id rs_id stash b s there = (s, refl, there)

module _ {A : Type 0} ⦃f : Floats A⦄ where
  -- The metrics that a check sends, one result after the other.
  unfoldable pub history : Metrics A → List (StatusType × ℕ) → List (Metrics A)
  unfolding update
  history m [] = []
  history m ((status, now) ∷ es) = update m status now ∷ history (update m status now) es
