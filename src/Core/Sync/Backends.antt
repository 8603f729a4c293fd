-- ===== src/Core/Sync/Backends.antt =====
-- The backends after Synchronize of core/context.go.
use gorb.Prelude.{
  Text_eq, ℕ, ◌≡◌, refl, true, false, Option, none, some, [], ◌∷◌, arith, Bool-cases, inl, inr, ◌⊎◌,
  All,
}
use gorb.Prelude.Text.{Text}
use gorb.Prelude.Map.{
  Map, lookup, keys, lookup-delete, Among, Round, Round-same, Round-gone, Round-insert, Round-mono,
  Round-twice, Remains, Remains-step, Remains-done, keys-Among, IsUnique, unique-entries,
}
use gorb.Prelude.Exec.{Outcome, ok, err, panic, ◌>>◌}
use gorb.System.{Env}
use gorb.Pulse.Floats.{Floats}
use gorb.Core.Options.{BackendOptions, compare_backend}
use gorb.Core.Options.Filled.{CompletesBackend}
use gorb.Core.Context.{Backend, State, ignore, drop_error}
use gorb.Core.Context.Rules.{continue-ok, Effect}
use gorb.Core.Context.Backends.{create_backend, remove_backend}
use gorb.Core.Context.Attach.{IsAttached, create_backend-Effect}
use gorb.Core.Context.Detach.{halted, IsDetached, remove_backend-IsDetached}
use gorb.Core.Sync.{drop_backend, drop_backends, refresh_backend, refresh_backends}

module _ {A : Type 0} where
  abbrev pub IsHalted : Backend A → Type 0
  IsHalted b = b.monitor.stopped ≡ true

  abbrev pub MatchingBackend : BackendOptions → Backend A → Type 0
  MatchingBackend o b = (compare_backend b.options o ≡ true) ⊎ CompletesBackend o b.options

  -- A backend has options that compare equal to the document of its name, or was made from it; or
  -- its check is stopped, because IPVS has refused to remove it.
  abbrev pub FollowsBackend : Map Text BackendOptions → Text → Backend A → Type 0
  FollowsBackend stored k b =
      IsHalted b ⊎ ((o : BackendOptions) × (lookup k stored ≡ some o) × MatchingBackend o b)

  abbrev pub IsStoredBackend : Map Text BackendOptions → Text → Backend A → Type 0
  IsStoredBackend stored k b = IsHalted b ⊎ ((o : BackendOptions) × (lookup k stored ≡ some o))

  abbrev pub Settled : BackendOptions → Backend A → Type 0
  Settled o b = IsHalted b ⊎ MatchingBackend o b

module _ (env : Env) {A : Type 0} where
  -- A removal that does not panic leaves nothing under the name but a backend that is halted.
  pub remove_backend-Round :
      (vs_id id : Text) (s : State A)
      → (ignore (remove_backend env vs_id id) s).0 ≡ ok tt
      → Round IsHalted id s.ctx.backends (ignore (remove_backend env vs_id id) s).1.ctx.backends
  remove_backend-Round vs_id id s =
      gone (remove_backend env vs_id id s) (remove_backend-IsDetached env vs_id id s)
    where
      gone :
          (r : Outcome BackendOptions × State A)
          → IsDetached id s.ctx r
          → drop_error r.0 ≡ ok tt
          → Round IsHalted id s.ctx.backends r.1.ctx.backends
      gone (ok o, t) (b, there, _, _, e) h =
          Round-gone IsHalted id s.ctx.backends t.ctx.backends
            (λ k. rw e (lookup-delete id k s.ctx.backends))
      gone (err x, t) (inl (absent, _, e)) h =
          rw e (Round-same IsHalted id s.ctx.backends (λ b there. absurd (ground arith)))
      gone (err x, t) (inr (b, there, _, _, e)) h =
          rw e (Round-insert IsHalted id (halted b) s.ctx.backends refl)
      gone (panic, t) d h = cc

  drop_backend-Round :
      (stored : Map Text BackendOptions) (id : Text) (b : Backend A) (found : Option BackendOptions)
      (s : State A)
      → lookup id stored ≡ found
      → (drop_backend env id b found s).0 ≡ ok tt
      → Round
          (IsStoredBackend stored id)
          id
          s.ctx.backends
          (drop_backend env id b found s).1.ctx.backends
  drop_backend-Round stored id b none s e h =
      Round-mono IsHalted (IsStoredBackend stored id) id s.ctx.backends
        (ignore (remove_backend env b.options.vs_id id) s).1.ctx.backends (λ _ halted. inl halted)
        (remove_backend-Round b.options.vs_id id s h)
  drop_backend-Round stored id b (some o) s e h =
      Round-same (IsStoredBackend stored id) id s.ctx.backends (λ _ _. inr (o, e))

  drop_backends-Remains :
      (stored : Map Text BackendOptions) (bs : Map Text (Backend A)) (s : State A)
      → (drop_backends env stored bs s).0 ≡ ok tt
      → Remains (IsStoredBackend stored) s.ctx.backends (keys bs)
      → Remains (IsStoredBackend stored) (drop_backends env stored bs s).1.ctx.backends []
  unfolding drop_backends
  drop_backends-Remains stored [] s h r = r
  drop_backends-Remains stored ((id, b) ∷ bs) s h r =
      let m = drop_backend env id b (lookup id stored) in
      let (u, done, more, same) =
        continue-ok (m s).0 (λ _. drop_backends env stored bs) (m s).1 tt h in
      rw same (
        drop_backends-Remains stored bs (m s).1 more (
          Remains-step (IsStoredBackend stored) (IsStoredBackend stored id) s.ctx.backends
            (m s).1.ctx.backends id (keys bs)
            (drop_backend-Round stored id b (lookup id stored) s refl done) (λ b' q. q) r))

module _ (env : Env) {A : Type 0} ⦃f : Floats A⦄ where
  -- A creation puts a backend with the options under a name that was free, or changes nothing.
  create_backend-Round :
      (now : ℕ) (id : Text) (o : BackendOptions) (s : State A)
      → ((b : Backend A) → lookup id s.ctx.backends ≡ some b → Settled o b)
      → Round
          (Settled o)
          id
          s.ctx.backends
          (ignore (create_backend env now o.vs_id id o) s).1.ctx.backends
  create_backend-Round now id o s old =
      new (create_backend env now o.vs_id id o s) (create_backend-Effect env now o.vs_id id o s)
    where
      new :
          (r : Outcome Unit × State A)
          → Effect s.ctx (IsAttached env o.vs_id id o s.ctx) r
          → Round (Settled o) id s.ctx.backends r.1.ctx.backends
      new (ok _, t) (free, (b, _, (_, made), _, _, e)) =
          rw e (Round-insert (Settled o) id b s.ctx.backends (inr (inr made)))
      new (err x, t) e = rw e (Round-same (Settled o) id s.ctx.backends old)
      new (panic, t) e = rw e (Round-same (Settled o) id s.ctx.backends old)

  recreate_backend-Round :
      (now : ℕ) (id : Text) (o : BackendOptions) (s : State A)
      → (ignore (remove_backend env o.vs_id id) s).0 ≡ ok tt
      → let t = (ignore (remove_backend env o.vs_id id) s).1 in
        Round
          (Settled o)
          id
          s.ctx.backends
          (ignore (create_backend env now o.vs_id id o) t).1.ctx.backends
  recreate_backend-Round now id o s removed =
      let t = (ignore (remove_backend env o.vs_id id) s).1 in
      let first = remove_backend-Round env o.vs_id id s removed in
      Round-twice IsHalted (Settled o) id s.ctx.backends t.ctx.backends
        (ignore (create_backend env now o.vs_id id o) t).1.ctx.backends first
        (create_backend-Round now id o t (λ b there. elim (first id b there) [
          | inl (other, _) ↦ absurd (other refl)
          | inr (_, stopped) ↦ inl stopped
        ]))

  pub refresh_backend-Round :
      (now : ℕ) (id : Text) (o : BackendOptions) (found : Option (Backend A)) (s : State A)
      → lookup id s.ctx.backends ≡ found
      → (refresh_backend env now id o found s).0 ≡ ok tt
      → Round (Settled o) id s.ctx.backends (refresh_backend env now id o found s).1.ctx.backends
  refresh_backend-Round now id o none s e h =
      create_backend-Round now id o s (λ b there. absurd (ground arith))
  refresh_backend-Round now id o (some c) s e h = elim (Bool-cases (compare_backend c.options o)) [
    | inl equal ↦
        rw equal (Round-same (Settled o) id s.ctx.backends (λ b there. inr (inl (ground arith))))
    | inr other ↦ rw other (again other)
  ]
    where
      again :
          compare_backend c.options o ≡ false
          → Round
              (Settled o)
              id
              s.ctx.backends
              ((ignore (remove_backend env o.vs_id id)
                  >> ignore (create_backend env now o.vs_id id o))
                s).1.ctx.backends
      again other =
          let r = ignore (remove_backend env o.vs_id id) s in
          let (u, removed, done, same) =
            continue-ok r.0 (λ _. ignore (create_backend env now o.vs_id id o)) r.1 tt
              (rw other at h) in
          rw same (recreate_backend-Round now id o s removed)

  refresh_backends-Remains :
      (now : ℕ) (stored rest : Map Text BackendOptions) (s : State A)
      → All (λ e. lookup e.0 stored ≡ some e.1) rest
      → (refresh_backends env now rest s).0 ≡ ok tt
      → Remains (FollowsBackend stored) s.ctx.backends (keys rest)
      → Remains (FollowsBackend stored) (refresh_backends env now rest s).1.ctx.backends []
  unfolding refresh_backends
  refresh_backends-Remains now stored [] s a h r = r
  refresh_backends-Remains now stored ((id, o) ∷ rest) s (at, a) h r =
      let m = refresh_backend env now id o (lookup id s.ctx.backends) in
      let (u, done, more, same) =
        continue-ok (m s).0 (λ _. refresh_backends env now rest) (m s).1 tt h in
      rw same (
        refresh_backends-Remains now stored rest (m s).1 a more (
          Remains-step (FollowsBackend stored) (Settled o) s.ctx.backends (m s).1.ctx.backends id
            (keys rest) (refresh_backend-Round now id o (lookup id s.ctx.backends) s refl done)
            (settled at) r))
    where
      settled :
          lookup id stored ≡ some o → (b : Backend A) → Settled o b → FollowsBackend stored id b
      settled at b (inl stopped) = inl stopped
      settled at b (inr match) = inr (o, at, match)

  -- The two loops over the backends.
  pub backends-FollowsBackend :
      (now : ℕ) (stored : Map Text BackendOptions) (s : State A)
      → IsUnique stored
      → let m = drop_backends env stored s.ctx.backends >> refresh_backends env now stored in
        (m s).0 ≡ ok tt
        → (k : Text) (b : Backend A) → lookup k (m s).1.ctx.backends ≡ some b
        → FollowsBackend stored k b
  backends-FollowsBackend now stored s unique h =
      let r = drop_backends env stored s.ctx.backends s in
      let (u, dropped, more, same) =
        continue-ok r.0 (λ _. refresh_backends env now stored) r.1 tt h in
      let left =
        drop_backends-Remains env stored s.ctx.backends s dropped
          (λ k b there. inr (keys-Among k b s.ctx.backends there)) in
      rw same (
        Remains-done (FollowsBackend stored) (refresh_backends env now stored r.1).1.ctx.backends (
          refresh_backends-Remains now stored stored r.1 (unique-entries stored unique) more
            (λ k b there.
              start k b (Remains-done (IsStoredBackend stored) r.1.ctx.backends left k b there))))
    where
      start :
          (k : Text) (b : Backend A)
          → IsStoredBackend stored k b
          → FollowsBackend stored k b ⊎ Among k (keys stored)
      start k b (inl stopped) = inl (inl stopped)
      start k b (inr (o, e)) = inr (keys-Among k o stored e)
