-- ===== src/Core/Store/Following.antt =====
-- Sync of core/store.go on a store that holds the documents of the context.
use gorb.Prelude.{Text_eq, ℕ, ◌≡◌, refl, true, false, [], ◌∷◌, All, arith, same_refl}
use gorb.Prelude.Text.{Text, is_empty}
use gorb.Prelude.Map.{Map, keys, IsUnique}
use gorb.Prelude.Exec.{ok}
use gorb.System.{Env, Trace, listed, kv_list}
use gorb.Pulse.Floats.{Floats}
use gorb.Core.Payload.{Payload}
use gorb.Core.Options.{ServiceOptions, BackendOptions, compare_service, compare_backend}
use gorb.Core.Context.{Service, Backend, State}
use gorb.Core.Sync.Agreed.{Agrees, synchronize-agreed}
use gorb.Core.Store.{Store, marshal_service, marshal_backend}
use gorb.Core.Store.Keys.{bool_eq_refl}
use gorb.Core.Store.Reading.{
  decode_service, decode_backend, get_external_services, get_external_backends, sync,
}
use gorb.Core.Store.Mirror.{
  entries, read_back, Named, read_listing-entries, read_back-stored, read_back-equal,
}

abbrev pub service_document : Service → Payload
service_document vs = marshal_service vs.options

abbrev pub backend_document : {A : Type 0} → Backend A → Payload
backend_document b = marshal_backend b.options

compare_service-decode :
    (o : ServiceOptions) → compare_service o (decode_service (marshal_service o)) ≡ true
unfolding decode_service marshal_service compare_service
compare_service-decode o = ground (
  arith,
  same_refl o.host,
  same_refl o.protocol,
  same_refl o.flags,
  same_refl o.method,
  bool_eq_refl o.persistent,
)

compare_backend-decode :
    (o : BackendOptions) → compare_backend o (decode_backend (marshal_backend o)) ≡ true
unfolding decode_backend marshal_backend compare_backend
compare_backend-decode o = ground (arith, same_refl o.host, same_refl o.method)

All-keys : {V : Type 0} (P : Text → Type 0) (m : Map Text V) → All (λ e. P e.0) m → All P (keys m)
All-keys P [] h = tt
All-keys P (e ∷ m) (h, hs) = (h, All-keys P m hs)

get_external_services-entries :
    (env : Env) (store : Store) (m : Map Text Service) (t : Trace)
    → is_empty store.store_service_path ≡ false
    → Named m
    → IsUnique m
    → env.lists t store.store_service_path
      ≡ listed (entries store.store_service_path service_document m)
    → get_external_services env store t
      ≡ (ok (read_back service_document decode_service m), kv_list store.store_service_path ∷ t)
unfolding get_external_services
get_external_services-entries env store m t path names unique world =
    rw
      (
        world,
        read_listing-entries service_document decode_service store.store_service_path path m names
            unique,
      )
      refl

get_external_backends-entries :
    (env : Env) (store : Store) {A : Type 0} (m : Map Text (Backend A)) (t : Trace)
    → is_empty store.store_backend_path ≡ false
    → Named m
    → IsUnique m
    → env.lists t store.store_backend_path
      ≡ listed (entries store.store_backend_path backend_document m)
    → get_external_backends env store t
      ≡ (ok (read_back backend_document decode_backend m), kv_list store.store_backend_path ∷ t)
unfolding get_external_backends
get_external_backends-entries env store m t path names unique world =
    rw
      (
        world,
        read_listing-entries backend_document decode_backend store.store_backend_path path m names
            unique,
      )
      refl

module _ (env : Env) {A : Type 0} ⦃f : Floats A⦄ where
  -- The context and the documents of its own services and backends.
  read_back-Agrees :
      (s : State A)
      → IsUnique s.ctx.services
      → IsUnique s.ctx.backends
      → Agrees s.ctx
          (read_back service_document decode_service s.ctx.services)
          (read_back backend_document decode_backend s.ctx.backends)
  read_back-Agrees s us ub = record {
    services_stored =
        All-keys _ s.ctx.services (read_back-stored service_document decode_service s.ctx.services);
    services_equal =
        read_back-equal service_document decode_service (λ vs o. compare_service vs.options o)
          s.ctx.services us (λ vs. compare_service-decode vs.options);
    backends_stored = read_back-stored backend_document decode_backend s.ctx.backends;
    backends_equal =
        read_back-equal backend_document decode_backend (λ b o. compare_backend b.options o)
          s.ctx.backends ub (λ b. compare_backend-decode b.options);
  }

  -- If the directories of the store hold exactly the documents of the services and backends of the
  -- context, each under its key, Sync lists both and does nothing else: no service is made again, no
  -- call of IPVS follows and the context stays. The paths are not empty, and the names are unique and
  -- have no slash.
  pub sync-agreed :
      (now : ℕ) (store : Store) (s : State A)
      → is_empty store.store_service_path ≡ false
      → is_empty store.store_backend_path ≡ false
      → Named s.ctx.services
      → Named s.ctx.backends
      → IsUnique s.ctx.services
      → IsUnique s.ctx.backends
      → env.lists s.trace store.store_service_path
        ≡ listed (entries store.store_service_path service_document s.ctx.services)
      → env.lists (kv_list store.store_service_path ∷ s.trace) store.store_backend_path
        ≡ listed (entries store.store_backend_path backend_document s.ctx.backends)
      → sync env now store s ≡ (
        ok tt,
        record s {
          trace = kv_list store.store_backend_path ∷ kv_list store.store_service_path ∷ s.trace;
        },
      )
  unfolding sync
  sync-agreed now store s sp bp sn bn us ub ws wb =
      let s' = record s {
        trace = kv_list store.store_backend_path ∷ kv_list store.store_service_path ∷ s.trace;
      } in
      rw
        (
          get_external_services-entries env store s.ctx.services s.trace sp sn us ws,
          get_external_backends-entries env store s.ctx.backends
              (kv_list store.store_service_path ∷ s.trace) bp bn ub wb,
          synchronize-agreed env now _ _ s' (read_back-Agrees s' us ub),
        )
        refl
