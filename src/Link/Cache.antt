-- ===== src/Link/Cache.antt =====
-- The table `exposed` of gorb-docker-link/main.go: every service in it was seen at GORB.
use gorb.Prelude.{
  Text_eq, ℕ, ℕ_eq, ◌≡◌, refl, subst, ◌⊎◌, inl, inr, Option, none, some, List, [], ◌∷◌, arith,
  nat_eq, Bool-cases,
}
use gorb.Prelude.Text.{Text}
use gorb.Prelude.Int.{ℤ}
use gorb.Prelude.Map.{Map, lookup, lookup-insert_cases}
use gorb.Prelude.Exec.{Outcome, ok, err, panic, continue, ◌>>=◌}
use gorb.Core.Options.{ServiceOptions}
use gorb.Link.{
  ApiPort, Verb, get, put, Body, no_body, service_body, Rqst, Remote, Known, Link, L, expose,
  service_path, new_request, send, handle, conclude, roundtrip, create_service, ensure_answered,
  ensure_service, put_backend, create_backend, remove_backend,
}

module _ (remote : Remote) where
  -- A request whose answer shows that GORB has the service: a GET that succeeds, or a PUT that
  -- conflicts. `before` lists the requests before it.
  pub data Shows (vs : Text) (before : List Rqst) (r : Rqst) : Type 0 where
    present :
        r ≡ record { verb = get; path = service_path vs; body = no_body }
        → remote.answers before r ≡ some 200
        → Shows vs before r
    conflict :
        (o : ServiceOptions)
        → r ≡ record { verb = put; path = service_path vs; body = service_body o }
        → remote.answers before r ≡ some 409
        → Shows vs before r

  abbrev pub WasSeen : Text → List Rqst → Type 0
  WasSeen vs [] = ⊥
  WasSeen vs (r ∷ before) = Shows vs before r ⊎ WasSeen vs before

  -- What the table holds was seen.
  pub record IsHonest (s : Link) : Type 0 where
    pub seen : (vs : Text) → lookup vs s.exposed ≡ some tt → WasSeen vs s.sent

  abbrev pub Keeps : {B : Type 0} → L B → Type 0
  Keeps m = (s : Link) → IsHonest s → IsHonest (m s).1

  module _ {B C : Type 0} where
    continue-IsHonest :
        (r : Outcome B) (next : B → L C) (s : Link)
        → ((b : B) → Keeps (next b))
        → IsHonest s
        → IsHonest (continue r next s).1
    continue-IsHonest (ok b) next s h v = h b s v
    continue-IsHonest (err e) next s h v = v
    continue-IsHonest panic next s h v = v

    pub bind-Keeps :
        (m : L B) (next : B → L C) → Keeps m → ((b : B) → Keeps (next b)) → Keeps (m >>= next)
    bind-Keeps m next h k s v = continue-IsHonest (m s).0 next (m s).1 k (h s v)

  send-IsHonest : (r : Rqst) (s : Link) → IsHonest s → IsHonest (send remote r s).1
  send-IsHonest r s v = record { seen = λ vs h. inr (v.seen vs h) }

  expose-IsHonest :
      (vs : Text) (s : Link) → WasSeen vs s.sent → IsHonest s → IsHonest (expose vs s).1
  expose-IsHonest vs s w v = record {
    seen = λ name h. elim (lookup-insert_cases vs name tt tt s.exposed h) [
      | inl (same, _) ↦ subst (λ n. WasSeen n s.sent) same w
      | inr old ↦ v.seen name old
    ];
  }

  abbrev after : Rqst → Link → Link
  after r s = record s { sent = r ∷ s.sent }

  -- What the handlers of a request must keep.
  abbrev HandlesWell : Rqst → Map ℕ (L Unit) → Type 0
  HandlesWell r eh =
      (s : Link) (status : ℕ)
      → remote.answers s.sent r ≡ some status
      → IsHonest (after r s)
      → IsHonest (handle (lookup status eh) (after r s)).1

  roundtrip-Keeps :
      (r : Option Rqst) (eh : Map ℕ (L Unit))
      → ((q : Rqst) → r ≡ some q → HandlesWell q eh)
      → Keeps (roundtrip remote r eh)
  roundtrip-Keeps none eh h s v = v
  roundtrip-Keeps (some r) eh h s v = go (remote.answers s.sent r) refl
    where
      go : (a : Option ℕ) → remote.answers s.sent r ≡ a → IsHonest (conclude eh a (after r s)).1
      go none e = send-IsHonest r s v
      go (some status) e = elim (Bool-cases (nat_eq status 200)) [
        | inl good ↦ rw good (send-IsHonest r s v)
        | inr other ↦ rw other (h r refl s status e (send-IsHonest r s v))
      ]

  new_request-some :
      (verb : Verb) (path : List Text) (body : Body) (q : Rqst)
      → new_request remote verb path body ≡ some q
      → q ≡ record { verb = verb; path = path; body = body }
  new_request-some verb path body q h = ground arith

  create_service-Keeps :
      (vs : Text) (n : ℤ) (proto : Text) → Keeps (create_service remote vs n proto)
  unfolding create_service
  create_service-Keeps vs n proto = roundtrip-Keeps _ _ λ q made s status answer v.
      elim (Bool-cases (nat_eq 409 status)) [
        | inl e ↦
            unfold lookup in
            rw e (
              expose-IsHonest vs (after q s)
                (inl (conflict _ (new_request-some _ _ _ q made) (ground (arith, answer, e)))) v)
        | inr e ↦ unfold lookup in rw e v
      ]

  ensure_answered-IsHonest :
      (vs : Text) (b : ApiPort) (s : Link) (a : Option ℕ)
      → let r : Rqst = record { verb = get; path = service_path vs; body = no_body } in
        remote.answers s.sent r ≡ a
        → IsHonest s
        → IsHonest (ensure_answered remote vs b a (after r s)).1
  ensure_answered-IsHonest vs b s none e v = send-IsHonest _ s v
  ensure_answered-IsHonest vs b s (some status) e v = elim (Bool-cases (nat_eq status 200)) [
    | inl good ↦ rw good (
        expose-IsHonest vs (after _ s) (inl (present refl (ground (arith, e, good))))
          (send-IsHonest _ s v))
    | inr other ↦
        rw other (create_service-Keeps vs b.private_port b.type (after _ s) (send-IsHonest _ s v))
  ]

  ensure_service-Keeps :
      (vs : Text) (b : ApiPort) (known : Option Known) → Keeps (ensure_service remote vs b known)
  ensure_service-Keeps vs b (some known) s v = v
  ensure_service-Keeps vs b none s v = elim (Bool-cases (remote.parses (service_path vs))) [
    | inl e ↦ rw e (ensure_answered-IsHonest vs b s _ refl v)
    | inr e ↦ rw e v
  ]

  put_backend-Keeps : (vs rs : Text) (b : ApiPort) → Keeps (put_backend remote vs rs b)
  put_backend-Keeps vs rs b = roundtrip-Keeps _ _ λ q made s status answer v.
      elim (Bool-cases (nat_eq 409 status)) [
        | inl e ↦ unfold lookup in rw e v
        | inr e ↦ elim (Bool-cases (nat_eq 404 status)) [
          | inl e' ↦ unfold lookup in rw (e, e') v
          | inr e' ↦ unfold lookup in rw (e, e') v
        ]
      ]

  pub create_backend-Keeps : (vs rs : Text) (b : ApiPort) → Keeps (create_backend remote vs rs b)
  unfolding create_backend
  create_backend-Keeps vs rs b s v =
      bind-Keeps (ensure_service remote vs b (lookup vs s.exposed))
        (λ _. put_backend remote vs rs b) (ensure_service-Keeps vs b (lookup vs s.exposed))
        (λ _. put_backend-Keeps vs rs b) s v

  pub remove_backend-Keeps : (vs rs : Text) (b : ApiPort) → Keeps (remove_backend remote vs rs b)
  unfolding remove_backend
  remove_backend-Keeps vs rs b = roundtrip-Keeps _ _ λ q made s status answer v.
      elim (Bool-cases (nat_eq 404 status)) [
        | inl e ↦ unfold lookup in rw e v
        | inr e ↦ unfold lookup in rw e v
      ]
