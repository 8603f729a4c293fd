-- ===== src/Link/Attempts.antt =====
-- What gorb-docker-link sends for a service that it takes for known.
use gorb.Prelude.{
  Text_eq, ℕ, ◌≡◌, refl, ap, ◌∙◌, inl, inr, Option, none, some, List, [], ◌∷◌, nat_eq, Bool-cases,
  ℕ_eq,
}
use gorb.Prelude.Text.{Text}
use gorb.Prelude.Map.{lookup}
use gorb.Prelude.Exec.{backend_exists, parent_missing, throw}
use gorb.Link.{
  put, backend_body, ApiPort, Rqst, Remote, Parses, Link, backend_path, conclude, backend_options,
  create_backend,
}

abbrev put_rqst : Text → Text → ApiPort → Rqst
put_rqst vs rs b = record {
  verb = put;
  path = backend_path vs rs;
  body = backend_body (backend_options b);
}

-- The requests of so many backends of a service, before those sent already.
unfoldable pub puts : Text → List (Text × ApiPort) → List Rqst → List Rqst
puts vs [] sent = sent
puts vs ((rs, b) ∷ rest) sent = puts vs rest (put_rqst vs rs b ∷ sent)

module _ (remote : Remote) where
  -- `createBackend` of one backend after the other, whatever becomes of each.
  unfoldable pub create_each : Text → List (Text × ApiPort) → Link → Link
  create_each vs [] s = s
  create_each vs ((rs, b) ∷ rest) s = create_each vs rest (create_backend remote vs rs b s).1

  conclude-state :
      (a : Option ℕ) (s : Link)
      → (conclude ((409, throw backend_exists) ∷ (404, throw parent_missing) ∷ []) a s).1 ≡ s
  unfolding lookup
  conclude-state none s = refl
  conclude-state (some status) s = elim (Bool-cases (nat_eq status 200)) [
    | inl e ↦ rw e refl
    | inr e ↦ elim (Bool-cases (nat_eq 409 status)) [
      | inl e' ↦ rw (e, e') refl
      | inr e' ↦ elim (Bool-cases (nat_eq 404 status)) [
        | inl e'' ↦ rw (e, e', e'') refl
        | inr e'' ↦ rw (e, e', e'') refl
      ]
    ]
  ]

  create_backend-known :
      (vs rs : Text) (b : ApiPort) (s : Link)
      → Parses remote
      → lookup vs s.exposed ≡ some tt
      → (create_backend remote vs rs b s).1 ≡ record s { sent = put_rqst vs rs b ∷ s.sent }
  unfolding create_backend
  create_backend-known vs rs b s parses known =
      rw (known, parses (backend_path vs rs))
        (conclude-state (remote.answers s.sent (put_rqst vs rs b)) _)

  -- For a service in its table the daemon sends the PUT of each backend and nothing else, and its
  -- table stays: however GORB answers, it neither asks for the service nor creates it again.
  pub create_each-known :
      (vs : Text) (backends : List (Text × ApiPort)) (s : Link)
      → Parses remote
      → lookup vs s.exposed ≡ some tt
      → create_each vs backends s ≡ record s { sent = puts vs backends s.sent }
  unfolding create_each puts
  create_each-known vs [] s parses known = refl
  create_each-known vs ((rs, b) ∷ rest) s parses known =
      ap (create_each vs rest) (create_backend-known vs rs b s parses known)
      ∙ create_each-known vs rest (record s { sent = put_rqst vs rs b ∷ s.sent }) parses known
