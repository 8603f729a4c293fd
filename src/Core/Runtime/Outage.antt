-- ===== src/Core/Runtime/Outage.antt =====
-- An outage of a backend: the results of a check that fails now and then, and then succeeds for long.
use gorb.Prelude.{
  Text_eq, Pair_eq, ℕ, ◌<◌, ◌≤◌, ◌^◌, ◌≡◌, ◌≢◌, ◌⊎◌, refl, none, some, List, [], ◌∷◌, ◌++◌, ap, ◌∙◌,
  subst, All, nat_eq, nat_eq_iff, if◌then◌else◌, Bool-cases, inl, inr, length, length-append, arith,
}
use gorb.Prelude.Text.{Text}
use gorb.Prelude.Map.{lookup, insert, delete, lookup-insert_self, delete-insert}
use gorb.System.{Env}
use gorb.Pulse.Floats.{Floats, IsIeee}
use gorb.Pulse.Status.{StatusType, up, down, removed}
use gorb.Pulse.Metrics.{Metrics, update, record_size}
use gorb.Pulse.Window.{update_all, update_all-ups, All-results}
use gorb.Core.Context.{Backend, State}
use gorb.Core.Context.Weight.{reweighted}
use gorb.Core.Invariant.{IsValid}
use gorb.Core.Runtime.{Stash, relative_weight}
use gorb.Core.Runtime.Feed.{update_of, Feeds, feed-cons, feed-nil, history}
use gorb.Core.Runtime.Stashing.{
  Accepts, Settles, with_metrics, process_down, process_down_again, process_up, process_up_fresh,
  process_recovered, relative_weight-full,
}

module _ (env : Env) (accepts : Accepts env) {A : Type 0} ⦃f : Floats A⦄ (vs_id rs_id : Text)
    (stash : Stash) (b : Backend A) (fresh : lookup (vs_id, rs_id) stash ≡ none) where
  -- Either the weight is that of before and not stashed, or it is stashed.
  abbrev IsUnderway : Stash → ℕ → Type 0
  IsUnderway st x =
      ((st ≡ stash) × (x ≡ b.options.weight)) ⊎ (st ≡ insert (vs_id, rs_id) b.options.weight stash)

  stashed :
      (st : Stash)
      → st ≡ insert (vs_id, rs_id) b.options.weight stash
      → lookup (vs_id, rs_id) st ≡ some b.options.weight
  stashed st e =
      ap (λ (m : Stash). lookup (vs_id, rs_id) m) e
      ∙ lookup-insert_self (vs_id, rs_id) b.options.weight stash

  forgotten :
      (st : Stash)
      → st ≡ insert (vs_id, rs_id) b.options.weight stash
      → delete (vs_id, rs_id) st ≡ stash
  forgotten st e =
      ap (λ (m : Stash). delete (vs_id, rs_id) m) e
      ∙ delete-insert (vs_id, rs_id) b.options.weight stash fresh

  not_stashed : (st : Stash) → st ≡ stash → lookup (vs_id, rs_id) st ≡ none
  not_stashed st e = ap (λ (m : Stash). lookup (vs_id, rs_id) m) e ∙ fresh

  unstashed-IsUnderway :
      (st : Stash) (x : ℕ)
      → st ≡ insert (vs_id, rs_id) b.options.weight stash
      → IsUnderway (if nat_eq x b.options.weight then delete (vs_id, rs_id) st else st) x
  unstashed-IsUnderway st x e = elim (Bool-cases (nat_eq x b.options.weight)) [
    | inl all ↦ rw all (inl (forgotten st e, (nat_eq_iff x b.options.weight).0 all))
    | inr part ↦ rw part (inr e)
  ]

  -- What an update leaves, that is no removal.
  abbrev Proceeds : Stash → Metrics A → State A → Type 0
  Proceeds st m s =
      (st' : Stash) × (x : ℕ) × IsUnderway st' x
      × Settles env st (update_of vs_id rs_id m) st' (reweighted (with_metrics b m) x) s

  step-IsUnderway :
      (m' m : Metrics A) (st : Stash) (x : ℕ) (s : State A) (status : StatusType)
      → IsValid env s.ctx
      → lookup rs_id s.ctx.backends ≡ some (reweighted (with_metrics b m') x)
      → IsUnderway st x
      → m.status ≡ status
      → status ≢ removed
      → Proceeds st m s
  step-IsUnderway m' m st x s up v there (inl (e, same)) passed live = (
    st,
    x,
    inl (e, same),
    process_up_fresh env st (update_of vs_id rs_id m) (reweighted (with_metrics b m') x) s there
        passed (not_stashed st e),
  )
  step-IsUnderway m' m st x s down v there (inl (e, same)) failed live = (
    insert (vs_id, rs_id) x st,
    0,
    inr (
        ap (λ (y : ℕ). insert (vs_id, rs_id) y st) same
        ∙ ap (λ (y : Stash). insert (vs_id, rs_id) b.options.weight y) e),
    process_down env accepts st (update_of vs_id rs_id m) (reweighted (with_metrics b m') x) s v
        there failed (not_stashed st e),
  )
  step-IsUnderway m' m st x s up v there (inr e) passed live =
      let part = relative_weight b.options.weight m.health in
      (
        (if nat_eq part b.options.weight then delete (vs_id, rs_id) st else st),
        part,
        unstashed-IsUnderway st part e,
        process_up env accepts st (update_of vs_id rs_id m) b.options.weight
            (reweighted (with_metrics b m') x) s v there passed (stashed st e),
      )
  step-IsUnderway m' m st x s down v there (inr e) failed live = (
    st,
    x,
    inr e,
    process_down_again env st (update_of vs_id rs_id m) b.options.weight
        (reweighted (with_metrics b m') x) s there failed (stashed st e),
  )
  step-IsUnderway m' m st x s removed v there underway gone live = absurd (live refl)

  last-Settles :
      (m' m : Metrics A) (st : Stash) (x : ℕ) (s : State A)
      → IsIeee f
      → b.options.weight < 2 ^ 32
      → IsValid env s.ctx
      → lookup rs_id s.ctx.backends ≡ some (reweighted (with_metrics b m') x)
      → IsUnderway st x
      → m.status ≡ up
      → m.health ≡ f.of_ℕ 1
      → Settles env st (update_of vs_id rs_id m) stash (with_metrics b m) s
  last-Settles m' m st x s ieee small v there (inl (e, same)) passed healthy =
      subst
        (λ (y : ℕ).
          Settles env st (update_of vs_id rs_id m) stash (reweighted (with_metrics b m) y) s)
        same
        (subst
          (λ (y : Stash).
            Settles env st (update_of vs_id rs_id m) y (reweighted (with_metrics b m) x) s)
          e
          (process_up_fresh env st (update_of vs_id rs_id m) (reweighted (with_metrics b m') x) s
            there passed (not_stashed st e)))
  last-Settles m' m st x s ieee small v there (inr e) passed healthy =
      subst (λ (y : Stash). Settles env st (update_of vs_id rs_id m) y (with_metrics b m) s)
        (forgotten st e)
        (process_recovered env accepts st (update_of vs_id rs_id m) b.options.weight
          (reweighted (with_metrics b m') x) s v there passed (stashed st e) b.options.weight
          (ap (relative_weight b.options.weight) healthy
            ∙ relative_weight-full env ieee b.options.weight small)
          refl)

  feed-history :
      (es : List (StatusType × ℕ)) (m' m : Metrics A) (st : Stash) (x : ℕ) (s : State A)
      → IsIeee f
      → b.options.weight < 2 ^ 32
      → IsValid env s.ctx
      → lookup rs_id s.ctx.backends ≡ some (reweighted (with_metrics b m') x)
      → IsUnderway st x
      → All (λ e. e.0 ≢ removed) es
      → es ≢ []
      → (update_all m es).status ≡ up
      → (update_all m es).health ≡ f.of_ℕ 1
      → Feeds env vs_id rs_id st (history m es) stash (with_metrics b (update_all m es)) s
  unfolding history update_all update
  feed-history [] m' m st x s ieee small v there underway live some_result passed healthy =
      absurd (some_result refl)
  feed-history ((status, now) ∷ []) m' m st x s ieee small v there underway live some_result passed
        healthy =
      let next = update m status now in
      feed-cons env vs_id rs_id next [] st stash stash (with_metrics b next) (with_metrics b next) s
        v (last-Settles m' next st x s ieee small v there underway passed healthy)
        λ s1 v1 there1. feed-nil env vs_id rs_id stash (with_metrics b next) s1 there1
  feed-history ((status, now) ∷ e ∷ es) m' m st x s ieee small v there underway (live, rest)
        some_result passed healthy =
      let next = update m status now in
      let (st', y, underway', settles) =
        step-IsUnderway m' next st x s status v there underway refl live in
      feed-cons env vs_id rs_id next (history next (e ∷ es)) st st' stash
        (reweighted (with_metrics b next) y) (with_metrics b (update_all next (e ∷ es))) s v settles
        λ s1 v1 there1.
          feed-history (e ∷ es) next next st' y s1 ieee small v1 there1 underway' rest (λ p. cc)
            passed healthy

module _ (env : Env) {A : Type 0} ⦃f : Floats A⦄ where
  -- Whatever results a health check finds, successes and failures in any order, once it has then found
  -- a hundred successes in a row, and its updates have been processed in their order, the stash is as
  -- before the first result, and the backend is as before but for its metrics, which are those of the
  -- last update; so its weight has been restored. The check remembers at most a hundred statuses, the
  -- context is valid, the world accepts every call, the floats are those of IEEE 754, and the weight of
  -- the backend is below 2^32 and was not stashed.
  pub feed_outage :
      (_ : Accepts env) (_ : IsIeee f) (vs_id rs_id : Text) (m : Metrics A)
      (es us : List (StatusType × ℕ)) (stash : Stash) (b : Backend A) (s : State A)
      → IsValid env s.ctx
      → lookup rs_id s.ctx.backends ≡ some b
      → b.options.weight < 2 ^ 32
      → lookup (vs_id, rs_id) stash ≡ none
      → length m.recorded ≤ record_size
      → All (λ e. e.0 ≢ removed) es
      → length us ≡ record_size
      → All (λ e. e.0 ≡ up) us
      → Feeds env vs_id rs_id stash
          (history m (es ++ us))
          stash
          (with_metrics b (update_all m (es ++ us)))
          s
  feed_outage accepts ieee vs_id rs_id m es us stash b s v there small fresh short live full ups =
      let (passed, healthy) = update_all-ups ieee m es us short full ups in
      feed-history env accepts vs_id rs_id stash b fresh (es ++ us) b.metrics m stash
        b.options.weight s ieee small v there (inl (refl, refl)) (All-results es us live ups)
        (λ p. absurd (ground (arith, ap length p, length-append es us))) passed healthy

  -- A check fails, then succeeds with a health that restores only a part of the weight, and then fails
  -- again: the weight stays that part and is not set to 0, and the stash has the whole of it. The
  -- context is valid, the world accepts every call, and the weight was not stashed.
  pub feed_relapse :
      (_ : Accepts env) (vs_id rs_id : Text) (m : Metrics A) (t1 t2 t3 : ℕ) (stash : Stash)
      (b : Backend A) (s : State A)
      → IsValid env s.ctx
      → lookup rs_id s.ctx.backends ≡ some b
      → lookup (vs_id, rs_id) stash ≡ none
      → let es : List (StatusType × ℕ) = (down, t1) ∷ (up, t2) ∷ [] in
        let part = relative_weight b.options.weight (update_all m es).health in
        part ≢ b.options.weight
        → Feeds env vs_id rs_id stash
            (history m (es ++ (down, t3) ∷ []))
            (insert (vs_id, rs_id) b.options.weight stash)
            (reweighted (with_metrics b (update_all m (es ++ (down, t3) ∷ []))) part)
            s
  unfolding history update_all update
  feed_relapse accepts vs_id rs_id m t1 t2 t3 stash b s v there fresh partial =
      let m1 = update m down t1 in
      let m2 = update m1 up t2 in
      let m3 = update m2 down t3 in
      let w = b.options.weight in
      let full : Stash = insert (vs_id, rs_id) w stash in
      let stashed : lookup (vs_id, rs_id) full ≡ some w =
        lookup-insert_self (vs_id, rs_id) w stash in
      let part = relative_weight w m2.health in
      let b1 = reweighted (with_metrics b m1) 0 in
      let b2 = reweighted (with_metrics b m2) part in
      let b3 = reweighted (with_metrics b m3) part in
      feed-cons env vs_id rs_id m1 (m2 ∷ m3 ∷ []) stash full full b1 b3 s v
        (process_down env accepts stash (update_of vs_id rs_id m1) b s v there refl fresh)
        λ s1 v1 there1.
          feed-cons env vs_id rs_id m2 (m3 ∷ []) full full full b2 b3 s1 v1
            (subst (λ (st : Stash). Settles env full (update_of vs_id rs_id m2) st b2 s1)
              (ground (arith, nat_eq_iff part w))
              (process_up env accepts full (update_of vs_id rs_id m2) w b1 s1 v1 there1 refl
                stashed))
            λ s2 v2 there2.
              feed-cons env vs_id rs_id m3 [] full full full b3 b3 s2 v2
                (process_down_again env full (update_of vs_id rs_id m3) w b2 s2 there2 refl stashed)
                λ s3 v3 there3. feed-nil env vs_id rs_id full b3 s3 there3
