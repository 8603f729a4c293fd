-- ===== src/Core/Sync/Returning.antt =====
-- Synchronize of core/context.go returns where every check runs.
use gorb.Prelude.{
  Text_eq, ℕ, ◌≡◌, ◌≢◌, refl, sym, Option, none, some, [], ◌∷◌, inl, inr, ◌⊎◌, Bool-cases, All,
  subst, same_refl,
}
use gorb.Prelude.Text.{Text}
use gorb.Prelude.Map.{Map, lookup, keys, IsUnique, found_behind, Round}
use gorb.Prelude.Exec.{ok, ◌>>=◌, ◌>>◌}
use gorb.System.{Env}
use gorb.Pulse.Floats.{Floats}
use gorb.Core.Options.{ServiceOptions, BackendOptions, compare_backend}
use gorb.Core.Context.{Backend, Context, State, M, ignore}
use gorb.Core.Context.Backends.{create_backend, remove_backend}
use gorb.Core.Context.Total.{IsCheckable, create_backend-ne_panic}
use gorb.Core.Sync.{
  drop_services, refresh_services, drop_backend, drop_backends, refresh_backend, refresh_backends,
  synchronize,
}
use gorb.Core.Sync.Backends.{IsHalted, Settled, remove_backend-Round, refresh_backend-Round}
use gorb.Core.Sync.Total.{
  Reaches, bind-Reaches, returns, IsRunning, Run, Healthy, drop_services-Reaches,
  refresh_services-Reaches, remove_backend-returns,
}

abbrev Listed : {V : Type 0} → Map Text V → Text → Type 0
Listed m k = (v : _) × (lookup k m ≡ some v)

module _ {V : Type 0} (id : Text) (v : V) (m : Map Text V) where
  Listed-head : Listed ((id, v) ∷ m) id
  unfolding lookup
  Listed-head = (v, rw (same_refl id) refl)

  not_again : lookup id m ≡ none → (k : Text) → Listed m k → id ≢ k
  not_again fresh k (w, there) e = let again = subst (λ j. lookup j m ≡ none) e fresh in absurd cc

module _ {A : Type 0} where
  later :
      (stored : Map Text BackendOptions) (id : Text) (b : Backend A) (bs : Map Text (Backend A))
      (k : Text)
      → Listed bs k ⊎ Listed stored k
      → Listed ((id, b) ∷ bs) k ⊎ Listed stored k
  later stored id b bs k (inl there) = inl (found_behind id k b bs there)
  later stored id b bs k (inr there) = inr there

module _ (env : Env) {A : Type 0} where
  -- The checks that run still do after a round for another name.
  Run-Round :
      (P : Backend A → Type 0) (S : Text → Type 0) (id : Text) (c c' : Context A)
      → Round P id c.backends c'.backends
      → ((k : Text) → S k → id ≢ k)
      → Run S c
      → Run S c'
  Run-Round P S id c c' round apart run k b at there = elim (round k b there) [
    | inl (_, before) ↦ run k b at before
    | inr (same, _) ↦ absurd (apart k at same)
  ]

  drop_backend-Reaches :
      (stored : Map Text BackendOptions) (id : Text) (b : Backend A) (bs : Map Text (Backend A))
      (found : Option BackendOptions)
      → lookup id bs ≡ none
      → lookup id stored ≡ found
      → Reaches
          (Run (λ k. Listed ((id, b) ∷ bs) k ⊎ Listed stored k))
          (Run (λ k. Listed bs k ⊎ Listed stored k))
          (drop_backend env id b found)
  drop_backend-Reaches stored id b bs none fresh gone s run =
      let returned = remove_backend-returns env b.options.vs_id id s (λ k c same there.
        run k c (inl (subst (Listed ((id, b) ∷ bs)) (sym same) (Listed-head id b bs))) there) in
      (
        returned,
        Run-Round IsHalted (λ k. Listed bs k ⊎ Listed stored k) id s.ctx
            (ignore (remove_backend env b.options.vs_id id) s).1.ctx
            (remove_backend-Round env b.options.vs_id id s returned) apart
            (λ k c at there. run k c (later stored id b bs k at) there),
      )
    where
      apart : (k : Text) → Listed bs k ⊎ Listed stored k → id ≢ k
      apart k (inl there) = not_again id b bs fresh k there
      apart k (inr (o, there)) =
          λ e. let gone' = subst (λ j. lookup j stored ≡ none) e gone in absurd cc
  drop_backend-Reaches stored id b bs (some o) fresh kept s run =
      (refl, λ k c at there. run k c (later stored id b bs k at) there)

  drop_backends-Reaches :
      (stored : Map Text BackendOptions) (bs : Map Text (Backend A))
      → IsUnique bs
      → Reaches
          (Run (λ k. Listed bs k ⊎ Listed stored k))
          (Run (Listed stored))
          (drop_backends env stored bs)
  unfolding drop_backends
  drop_backends-Reaches stored [] u s run = (refl, λ k b at there. run k b (inr at) there)
  drop_backends-Reaches stored ((id, b) ∷ bs) (fresh, u) s run =
      bind-Reaches (Run (λ k. Listed ((id, b) ∷ bs) k ⊎ Listed stored k))
        (Run (λ k. Listed bs k ⊎ Listed stored k)) (Run (Listed stored))
        (drop_backend env id b (lookup id stored)) (drop_backends env stored bs)
        (drop_backend-Reaches stored id b bs (lookup id stored) fresh refl)
        (drop_backends-Reaches stored bs u) s run

module _ (env : Env) {A : Type 0} ⦃f : Floats A⦄ where
  refresh_backend-returns :
      (now : ℕ) (id : Text) (o : BackendOptions) (found : Option (Backend A)) (s : State A)
      → IsCheckable A now o
      → Run (λ k. k ≡ id) s.ctx
      → (refresh_backend env now id o found s).0 ≡ ok tt
  refresh_backend-returns now id o none s checkable run =
      returns (create_backend env now o.vs_id id o s).0
        (create_backend-ne_panic env now o.vs_id id o s checkable)
  refresh_backend-returns now id o (some b) s checkable run =
      elim (Bool-cases (compare_backend b.options o)) [
        | inl equal ↦ rw equal refl
        | inr other ↦ rw other (
            (bind-Reaches (Run (λ k. k ≡ id)) (λ _. Unit {0}) (λ _. Unit {0})
              (ignore (remove_backend env o.vs_id id))
              (ignore (create_backend env now o.vs_id id o))
              (λ t r. (remove_backend-returns env o.vs_id id t r, tt))
              (λ t _. (
                returns (create_backend env now o.vs_id id o t).0
                    (create_backend-ne_panic env now o.vs_id id o t checkable),
                tt,
              ))
              s run).0)
      ]

  refresh_backends-Reaches :
      (now : ℕ) (stored : Map Text BackendOptions)
      → IsUnique stored
      → All (λ e. IsCheckable A now e.1) stored
      → Reaches {A = A} (Run (Listed stored)) (λ _. Unit {0}) (refresh_backends env now stored)
  unfolding refresh_backends
  refresh_backends-Reaches now [] u h s run = (refl, tt)
  refresh_backends-Reaches now ((id, o) ∷ rest) (fresh, u) (checkable, h) s run =
      bind-Reaches (Run (Listed ((id, o) ∷ rest))) (Run (Listed rest)) (λ _. Unit {0})
        (λ t. refresh_backend env now id o (lookup id t.ctx.backends) t)
        (refresh_backends env now rest) head (refresh_backends-Reaches now rest u h) s run
    where
      head :
          Reaches {A = A}
            (Run (Listed ((id, o) ∷ rest)))
            (Run (Listed rest))
            (λ t. refresh_backend env now id o (lookup id t.ctx.backends) t)
      head t r =
          let returned =
            refresh_backend-returns now id o (lookup id t.ctx.backends) t checkable
              (λ k b same there.
                r k b (subst (Listed ((id, o) ∷ rest)) (sym same) (Listed-head id o rest)) there) in
          (
            returned,
            Run-Round env (Settled o) (Listed rest) id t.ctx
                (refresh_backend env now id o (lookup id t.ctx.backends) t).1.ctx
                (refresh_backend-Round env now id o (lookup id t.ctx.backends) t refl returned)
                (not_again id o rest fresh)
                (λ k b at there. r k b (found_behind id k o rest at) there),
          )

  -- Synchronize returns, whatever calls fail, if the checks of all backends of the context run and a
  -- check can be made for each backend of the store. No name stands twice among either.
  pub synchronize-returns :
      (now : ℕ) (services : Map Text ServiceOptions) (backends : Map Text BackendOptions)
      (s : State A)
      → IsUnique s.ctx.backends
      → ((id : Text) (b : Backend A) → lookup id s.ctx.backends ≡ some b → IsRunning b)
      → IsUnique backends
      → All (λ e. IsCheckable A now e.1) backends
      → (synchronize env now services backends s).0 ≡ ok tt
  unfolding synchronize
  synchronize-returns now services backends s unique running once checkable =
      (bind-Reaches Healthy Healthy (λ _. Unit {0})
        (drop_services env services (keys s.ctx.services))
        (λ t. (refresh_services env services >>= λ _. rest) t)
        (drop_services-Reaches env services (keys s.ctx.services))
        (bind-Reaches Healthy Healthy (λ _. Unit {0}) (refresh_services env services) rest
          (refresh_services-Reaches env services)
          (λ t (unique', run).
            bind-Reaches (Run (λ k. Listed t.ctx.backends k ⊎ Listed backends k))
              (Run (Listed backends)) (λ _. Unit {0}) (drop_backends env backends t.ctx.backends)
              (refresh_backends env now backends)
              (drop_backends-Reaches env backends t.ctx.backends unique')
              (refresh_backends-Reaches now backends once checkable) t
              (λ k b _ there. run k b tt there)))
        s (unique, λ id b _ there. running id b there)).0
    where
      rest : M A Unit
      rest t = (drop_backends env backends t.ctx.backends >> refresh_backends env now backends) t
