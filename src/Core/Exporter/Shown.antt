-- ===== src/Core/Exporter/Shown.antt =====
-- What `collect` of core/prometheus_exporter.go leaves in the gauges.
use gorb.Prelude.{
  Texts_eq, Text_eq, ◌≡◌, ◌≢◌, refl, ap, subst, ◌∙◌, ◌⊎◌, Bool, true, false, some, List, [], ◌∷◌,
  ◌==◌, if◌then◌else◌, nat_eq, All, All-append, inl, inr, Bool-cases, length,
}
use gorb.Prelude.Text.{Text}
use gorb.Prelude.Map.{Map, lookup, keys, lookup-entries, lookup-insert_self, lookup-insert_ne}
use gorb.Prelude.Exec.{Outcome, ok}
use gorb.Pulse.Floats.{Floats}
use gorb.Core.Options.{ServiceOptions}
use gorb.Core.Context.{Service, Backend, Context}
use gorb.Core.Context.Queries.{ServiceInfo, BackendInfo, gather, get_service, get_backend}
use gorb.Core.Exporter.{
  Gauges, service_labels, set_service, set_backend, export_backends, export_service,
  export_services, collect,
}

first : List Text → Text
first [] = []
first (name ∷ labels) = name

-- Services of different names have different labels.
labels_ne :
    (n m : Text) (o p : ServiceOptions) → (n == m) ≡ false → service_labels n o ≢ service_labels m p
unfolding service_labels first
labels_ne n m o p h e = cc (h, (Text_eq.same_iff n m).1 (ap first e))

module _ {A : Type 0} ⦃f : Floats A⦄ where
  either :
      (P : Text → Type 0) (b : Bool) (x y : ServiceInfo A)
      → All P x.backends
      → All P y.backends
      → All P (if b then x else y).backends
  either P true x y h k = h
  either P false x y h k = k

  -- What holds of all names of backends holds of those that are gathered.
  gather-All :
      (P : Text → Type 0) (vs : Service) (bs : Map Text (Backend A)) (info : ServiceInfo A)
      → All P info.backends
      → All (λ e. P e.0) bs
      → All P (gather vs bs info).backends
  unfolding gather
  gather-All P vs [] info h hs = h
  gather-All P vs ((id, b) ∷ bs) info h (p, ps) =
      gather-All P vs bs _
        (either P (nat_eq b.service.addr vs.addr) _ info
          (All-append P info.backends (id ∷ []) (p, tt) h) h)
        ps

  -- A backend of this name exists.
  abbrev Known : Context A → Text → Type 0
  Known c name = (b : Backend A) × (lookup name c.backends ≡ some b)

  get_service-found :
      (c : Context A) (name : Text) (vs : Service)
      → lookup name c.services ≡ some vs
      → (info : ServiceInfo A) × (get_service c name ≡ ok info) × All (Known c) info.backends
  unfolding get_service
  get_service-found c name vs h =
      rw (h, get_service)
        (_, refl, gather-All (Known c) vs c.backends _ tt (lookup-entries c.backends))

  get_backend-found :
      (c : Context A) (name : Text) (b : Backend A)
      → lookup name c.backends ≡ some b
      → get_backend c name ≡ ok (record { options = b.options; metrics = b.metrics })
  unfolding get_backend
  get_backend-found c name b h = rw (h, get_backend) refl

  export_backends-ok :
      (c : Context A) (service_name : Text) (names : List Text) (g : Gauges A)
      → All (Known c) names
      → (g' : Gauges A) × (export_backends c service_name names g ≡ (ok tt, g'))
        × (g'.service_health ≡ g.service_health)
        × (g'.service_backends ≡ g.service_backends)
  unfolding export_backends
  export_backends-ok c service_name [] g h = (g, refl, refl, refl)
  export_backends-ok c service_name (name ∷ names) g ((b, e), h) =
      let info : BackendInfo A = record { options = b.options; metrics = b.metrics } in
      let (g', ran, same, same') =
        export_backends-ok c service_name names (set_backend service_name name info g) h in
      (g', rw (get_backend-found c name b e) ran, same, same')

  -- The gauges of a service show its health and the number of its backends.
  pub record IsShown (c : Context A) (g : Gauges A) (name : Text) : Type 0 where
    pub health :
        (info : ServiceInfo A)
        → get_service c name ≡ ok info
        → lookup (service_labels name info.options) g.service_health ≡ some info.health
    pub backends :
        (info : ServiceInfo A)
        → get_service c name ≡ ok info
        → lookup (service_labels name info.options) g.service_backends
          ≡ some (f.of_ℕ (length info.backends))

  ok_same : (x y : ServiceInfo A) (r : Outcome (ServiceInfo A)) → r ≡ ok x → r ≡ ok y → x ≡ y
  ok_same x y r p q = cc (p, q)

  -- What setting the gauges of one service leaves shown.
  set_service-IsShown :
      (c : Context A) (name m : Text) (info : ServiceInfo A) (g g' : Gauges A)
      → get_service c name ≡ ok info
      → g'.service_health ≡ (set_service name info g).service_health
      → g'.service_backends ≡ (set_service name info g).service_backends
      → (name ≡ m) ⊎ (((name == m) ≡ false) × IsShown c g m)
      → IsShown c g' m
  set_service-IsShown c name m info g g' e eh eb (inl same) = record {
    health = λ i h.
        subst (λ j. lookup (service_labels m j.options) g'.service_health ≡ some j.health)
          (info_same i h)
          (subst (λ n. lookup (service_labels n info.options) g'.service_health ≡ some info.health)
            same
            (ap (lookup (service_labels name info.options)) eh
              ∙ lookup-insert_self _ _ g.service_health));
    backends = λ i h.
        subst
          (λ j.
            lookup (service_labels m j.options) g'.service_backends
            ≡ some (f.of_ℕ (length j.backends)))
          (info_same i h)
          (subst
            (λ n.
              lookup (service_labels n info.options) g'.service_backends
              ≡ some (f.of_ℕ (length info.backends)))
            same
            (ap (lookup (service_labels name info.options)) eb
              ∙ lookup-insert_self _ _ g.service_backends));
  }
    where
      info_same : (i : ServiceInfo A) → get_service c m ≡ ok i → info ≡ i
      info_same i h = ok_same info i _ (subst (λ n. get_service c n ≡ ok info) same e) h
  set_service-IsShown c name m info g g' e eh eb (inr (other, shown)) = record {
    health = λ i h.
        ap (lookup (service_labels m i.options)) eh
        ∙ lookup-insert_ne _ _ _ g.service_health (labels_ne name m info.options i.options other)
        ∙ shown.health i h;
    backends = λ i h.
        ap (lookup (service_labels m i.options)) eb
        ∙ lookup-insert_ne _ _ _ g.service_backends (labels_ne name m info.options i.options other)
        ∙ shown.backends i h;
  }

  -- A service of this name exists.
  abbrev Exists : Context A → Text → Type 0
  Exists c name = (vs : Service) × (lookup name c.services ≡ some vs)

  export_service-ok :
      (c : Context A) (name : Text) (g : Gauges A)
      → Exists c name
      → (g' : Gauges A) × (export_service c name g ≡ (ok tt, g'))
        × ((m : Text) → (name ≡ m) ⊎ (((name == m) ≡ false) × IsShown c g m) → IsShown c g' m)
  unfolding export_service
  export_service-ok c name g (vs, there) =
      let (info, e, known) = get_service-found c name vs there in
      let (g', ran, eh, eb) =
        export_backends-ok c name info.backends (set_service name info g) known in
      (g', rw e ran, λ m. set_service-IsShown c name m info g g' e eh eb)

  export_services-ok :
      (c : Context A) (names : List Text) (g : Gauges A)
      → All (Exists c) names
      → (g' : Gauges A) × (export_services c names g ≡ (ok tt, g'))
        × All (IsShown c g') names
        × ((m : Text) → IsShown c g m → IsShown c g' m)
  unfolding export_services
  export_services-ok c [] g h = (g, refl, tt, λ m shown. shown)
  export_services-ok c (name ∷ names) g (e, h) =
      let (g', ran, set) = export_service-ok c name g e in
      let (g'', rest, shown, kept) = export_services-ok c names g' h in
      (
        g'',
        rw ran rest,
        (kept name (set name (inl refl)), shown),
        λ m before. kept m (elim (Bool-cases (name == m)) [
          | inl same ↦ set m (inl ((Text_eq.same_iff name m).0 same))
          | inr other ↦ set m (inr (other, before))
        ]),
      )

  All-keys :
      (c : Context A) (m : Map Text Service) → All (λ p. Exists c p.0) m → All (Exists c) (keys m)
  All-keys c [] h = tt
  All-keys c (p ∷ m) (h, hs) = (h, All-keys c m hs)

  -- Collecting never fails, and after it the gauges show, under the labels of each service, the health
  -- and the number of backends that GetService gives for it, whatever they showed before.
  pub collect-IsShown :
      (c : Context A) (g : Gauges A)
      → (g' : Gauges A) × (collect c g ≡ (ok tt, g')) × All (IsShown c g') (keys c.services)
  unfolding collect
  collect-IsShown c g =
      let (g', ran, shown, _) =
        export_services-ok c (keys c.services) g
          (All-keys c c.services (lookup-entries c.services)) in
      (g', ran, shown)
