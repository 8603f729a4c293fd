-- ===== src/Core/Runtime.antt =====
-- core/runtime.go: the loop that receives the updates of the health checks. A backend that goes
-- down gets weight 0, and its weight is stashed until it has recovered; if it goes down again before,
-- its weight stays.
pub mod Rules
pub mod Stashing
pub mod Feed
pub mod Outage
use gorb.Prelude.{
  Text_eq, Pair_eq, ℕ, Bool, true, false, Option, none, some, List, [], ◌∷◌, nat_eq, if◌then◌else◌,
}
use gorb.Prelude.Text.{Text}
use gorb.Prelude.Map.{Map, lookup, insert, delete}
use gorb.Prelude.Exec.{Exec, Outcome, ok, err, panic, pure, ◌>>=◌, ◌>>◌}
use gorb.System.{Env}
use gorb.Pulse.Floats.{Floats}
use gorb.Pulse.Status.{StatusType, up, down, removed, PulseId}
use gorb.Pulse.Metrics.{Metrics, Update}
use gorb.Core.Context.{Backend, Context, State, M, get_ctx, set_backends}
use gorb.Core.Context.Backends.{update_backend}

abbrev pub Stash : Type 0
Stash = Map PulseId ℕ

abbrev pub source : {A : Type 0} → Update A → PulseId
source u = (u.vs_id, u.rs_id)

abbrev pub to_option : {B : Type 0} → Outcome B → Outcome (Option B)
to_option (ok b) = ok (some b)
to_option (err e) = ok none
to_option panic = panic

-- An error is logged, and the caller goes on without a result.
abbrev pub try_some : {S B : Type 0} → Exec S B → Exec S (Option B)
try_some m s = let (r, s') = m s in (to_option r, s')

module _ {A : Type 0} where
  note : Update A → StatusType → Option (Backend A) → M A Bool
  note u status none = pure false
  note u removed (some rs) = pure false
  note u _ (some rs) = do
    ctx ← get_ctx
    set_backends (insert u.rs_id (record rs { metrics = u.metrics }) ctx.backends)
    pure true

  -- The first critical section of `processPulseUpdate`: whether the backend is still there.
  unfoldable pub note_metrics : Update A → M A Bool
  unfolding note
  note_metrics u = do ctx ← get_ctx; note u u.metrics.status (lookup u.rs_id ctx.backends)

abbrev unstashed : Stash → PulseId → ℕ → ℕ → Option ℕ → Stash
unstashed stash id stashed weight none = stash
unstashed stash id stashed weight (some old) =
    if nat_eq weight stashed then delete id stash else stash

abbrev stashed_old : Stash → PulseId → Option ℕ → Stash
stashed_old stash id none = stash
stashed_old stash id (some old) = insert id old stash

module _ {A : Type 0} ⦃f : Floats A⦄ where
  -- `uint32(float64(weight) * u.Metrics.Health)`
  unfoldable pub relative_weight : ℕ → A → ℕ
  relative_weight weight health = f.to_uint32 (f.mul (f.of_ℕ weight) health)

module _ (env : Env) {A : Type 0} ⦃f : Floats A⦄ where
  unfoldable pub unstash : Stash → Update A → Option ℕ → M A Stash
  unfolding relative_weight
  unstash stash u none = pure stash
  unstash stash u (some stashed) = do
    let weight = relative_weight stashed u.metrics.health
    old ← try_some (update_backend env u.vs_id u.rs_id weight)
    pure (unstashed stash (source u) stashed weight old)

  unfoldable pub stash_weight : Stash → Update A → Option ℕ → M A Stash
  stash_weight stash u (some stashed) = pure stash
  stash_weight stash u none = do
    old ← try_some (update_backend env u.vs_id u.rs_id 0)
    pure (stashed_old stash (source u) old)

  -- The rest of `processPulseUpdate`, by the status of the update.
  unfoldable pub reweight : Stash → Update A → StatusType → M A Stash
  unfolding unstash stash_weight
  reweight stash u up = unstash stash u (lookup (source u) stash)
  reweight stash u down = stash_weight stash u (lookup (source u) stash)
  reweight stash u removed = pure stash

  abbrev proceed : Stash → Update A → Bool → M A Stash
  proceed stash u true = reweight stash u u.metrics.status
  proceed stash u false = pure (delete (source u) stash)

  -- `processPulseUpdate`; the stash that it leaves is returned.
  unfoldable pub process_pulse_update : Stash → Update A → M A Stash
  unfolding note_metrics reweight
  process_pulse_update stash u = do live ← note_metrics u; proceed stash u live
