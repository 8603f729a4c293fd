-- ===== src/Core/Store/Reading.antt =====
-- core/store.go: getExternalServices, getExternalBackends and Sync, which make the context follow what
-- the store holds.
use gorb.Prelude.{Text_eq, ℕ, none, some, List, [], ◌∷◌, false}
use gorb.Prelude.Text.{Text}
use gorb.Prelude.Map.{Map, insert}
use gorb.Prelude.Exec.{Exec, Outcome, ok, err, store_error, lift, ◌>>=◌}
use gorb.System.{Env, Trace, KvPair, Listing, no_key, list_failed, listed, list_keys}
use gorb.Pulse.Floats.{Floats}
use gorb.Core.Payload.{Payload, service_payload, backend_payload}
use gorb.Core.Options.{ServiceOptions, BackendOptions}
use gorb.Core.Store.{Store, get_id, unmarshal_service, unmarshal_backend}
use gorb.Core.Context.{M, on_trace, ignore}
use gorb.Core.Sync.{synchronize}

-- `json.Unmarshal` into new service options: the fields go by their tags.
unfoldable pub decode_service : Payload → ServiceOptions
unfolding unmarshal_service
decode_service (service_payload p) = unmarshal_service p
decode_service (backend_payload p) = record {
  host = p.host;
  port = p.port;
  protocol = [];
  method = p.method;
  flags = [];
  persistent = false;
  host_ip = [];
  del_if_addr = false;
}

-- The same into new backend options.
unfoldable pub decode_backend : Payload → BackendOptions
unfolding unmarshal_backend
decode_backend (backend_payload p) = unmarshal_backend p
decode_backend (service_payload p) = record {
  host = p.host;
  port = p.port;
  weight = 0;
  method = p.method;
  pulse = none;
  vs_id = [];
  host_ip = [];
}

-- The loops over the entries: the first value that cannot be decoded ends them.
unfoldable pub collect_entries :
    {B : Type 0} → (Payload → B) → List KvPair → Map Text B → Outcome (Map Text B)
unfolding get_id
collect_entries decode [] entries = ok entries
collect_entries decode (pair ∷ pairs) entries = elim pair.value [
  | none ↦ err store_error
  | some p ↦ collect_entries decode pairs (insert (get_id pair.key) (decode p) entries)
]

-- A directory that does not exist has no entries.
unfoldable pub read_listing : {B : Type 0} → (Payload → B) → Listing → Outcome (Map Text B)
unfolding collect_entries
read_listing decode no_key = ok []
read_listing decode list_failed = err store_error
read_listing decode (listed pairs) = collect_entries decode pairs []

module _ (env : Env) where
  unfoldable pub get_external_services : Store → Exec Trace (Map Text ServiceOptions)
  unfolding read_listing decode_service
  get_external_services s = do
    listing ← list_keys env s.store_service_path
    lift (read_listing decode_service listing)

  unfoldable pub get_external_backends : Store → Exec Trace (Map Text BackendOptions)
  unfolding read_listing decode_backend
  get_external_backends s = do
    listing ← list_keys env s.store_backend_path
    lift (read_listing decode_backend listing)

module _ (env : Env) {A : Type 0} ⦃f : Floats A⦄ where
  -- `Sync`, at the time `now`: an error of either reading is logged, and the context stays.
  unfoldable pub sync : ℕ → Store → M A Unit
  sync now s = ignore (do
    services ← on_trace (get_external_services env s)
    backends ← on_trace (get_external_backends env s)
    synchronize env now services backends)
