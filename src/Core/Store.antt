-- ===== src/Core/Store.antt =====
-- core/store.go: the external key-value store, through which options survive a restart. The store
-- itself (libkv) answers as the environment does; the documents are those of Core/Payload.antt.
pub mod Keys
pub mod Reading
pub mod Setup
pub mod Mirror
pub mod Following
pub mod Urls
pub mod Documents
use gorb.Prelude.{
  Text_eq, ℕ, ◌≡◌, refl, Bool, true, false, not, ◌&&◌, ◌||◌, List, [], ◌∷◌, ◌++◌, Option, none,
  some, arith, nat_eq, if◌then◌else◌, ◌==◌, map,
}
use gorb.Prelude.Text.{Text, text, is_empty}
use gorb.Prelude.Int.{ℤ, pos, negsuc}
use gorb.Prelude.Exec.{Exec, Outcome, ok, err, store_error, pure, throw, ◌>>=◌}
use gorb.System.{Env, Trace, attempt, kv_has, kv_put, kv_delete_tree}
use gorb.Pulse.Options.{PulseOptions}
use gorb.Util.DynamicMap.{Value, int, float64}
use gorb.Core.Payload.{
  Payload, service_payload, backend_payload, ServicePayload, BackendPayload, PulsePayload,
}
use gorb.Core.Options.{ServiceOptions, BackendOptions}

pub record Store : Type 0 where
  pub store_service_path : Text
  pub store_backend_path : Text

abbrev pub slash : ℕ
slash = b'/'

-- JSON has one type of numbers.
abbrev pub marshal_arg : Text × Value → Text × Value
marshal_arg (k, int n) = (k, float64 n)
marshal_arg (k, v) = (k, v)

unfoldable pub marshal_pulse : PulseOptions → PulsePayload
marshal_pulse o = record { type = o.type; interval = o.interval; args = map marshal_arg o.args }

unfoldable pub unmarshal_pulse : PulsePayload → PulseOptions
unmarshal_pulse p = record { type = p.type; interval = p.interval; args = p.args; duration = pos 0 }

unfoldable pub marshal_service : ServiceOptions → Payload
marshal_service o = service_payload (record {
  host = o.host;
  port = o.port;
  protocol = o.protocol;
  method = o.method;
  flags = o.flags;
  persistent = o.persistent;
})

unfoldable pub marshal_backend : BackendOptions → Payload
unfolding marshal_pulse
marshal_backend o = backend_payload (record {
  host = o.host;
  port = o.port;
  weight = o.weight;
  method = o.method;
  pulse = (elim o.pulse [ none ↦ none | some p ↦ some (marshal_pulse p) ]);
  vs_id = o.vs_id;
})

-- A document decoded into options that are new: the fields that are not exported are zero.
unfoldable pub unmarshal_service : ServicePayload → ServiceOptions
unmarshal_service p = record {
  host = p.host;
  port = p.port;
  protocol = p.protocol;
  method = p.method;
  flags = p.flags;
  persistent = p.persistent;
  host_ip = [];
  del_if_addr = false;
}

unfoldable pub unmarshal_backend : BackendPayload → BackendOptions
unfolding unmarshal_pulse
unmarshal_backend p = record {
  host = p.host;
  port = p.port;
  weight = p.weight;
  method = p.method;
  pulse = (elim p.pulse [ none ↦ none | some q ↦ some (unmarshal_pulse q) ]);
  vs_id = p.vs_id;
  host_ip = [];
}

-- What follows the last slash, if there is one.
unfoldable pub after_last_slash : Text → Option Text
after_last_slash [] = none
after_last_slash (c ∷ s) = elim (after_last_slash s) [
  | some r ↦ some r
  | none ↦ if nat_eq c slash then some s else none
]

-- `getID`: a key whose only slash is at its beginning is returned whole.
unfoldable pub get_id : Text → Text
unfolding after_last_slash
get_id [] = []
get_id (c ∷ key) = elim (after_last_slash key) [ some r ↦ r | none ↦ c ∷ key ]

abbrev pub service_key : Store → Text → Text
service_key s vs_id = s.store_service_path ++ slash ∷ vs_id

abbrev pub backend_key : Store → Text → Text
backend_key s rs_id = s.store_backend_path ++ slash ∷ rs_id

module _ (env : Env) where
  abbrev pub put_unless : Bool → Text → Payload → Exec Trace Unit
  put_unless true key value = pure tt
  put_unless false key value = attempt env (kv_put key value) store_error

  -- `put`: a key that exists is written only if `overwrite` is set.
  unfoldable pub put : Text → Payload → Bool → Exec Trace Unit
  put key value overwrite = do
    found ← kv_has env key
    (elim found [
      | none ↦ throw store_error
      | some exist ↦ put_unless (exist && not overwrite) key value
    ])

  unfoldable pub create_service : Store → Text → ServiceOptions → Exec Trace Unit
  unfolding put marshal_service
  create_service s vs_id opts = put (service_key s vs_id) (marshal_service opts) false

  unfoldable pub update_service : Store → Text → ServiceOptions → Exec Trace Unit
  unfolding put marshal_service
  update_service s vs_id opts = put (service_key s vs_id) (marshal_service opts) true

  -- The service's name is set in the options themselves, which are returned.
  unfoldable pub create_backend : Store → Text → Text → BackendOptions → Exec Trace BackendOptions
  unfolding put marshal_backend
  create_backend s vs_id rs_id opts = do
    let opts' = record opts { vs_id = vs_id }
    put (backend_key s rs_id) (marshal_backend opts') false >>= λ _. pure opts'

  unfoldable pub update_backend : Store → Text → Text → BackendOptions → Exec Trace BackendOptions
  unfolding put marshal_backend
  update_backend s vs_id rs_id opts = do
    let opts' = record opts { vs_id = vs_id }
    put (backend_key s rs_id) (marshal_backend opts') true >>= λ _. pure opts'

  unfoldable pub remove_service : Store → Text → Exec Trace Unit
  remove_service s vs_id = attempt env (kv_delete_tree (service_key s vs_id)) store_error

  unfoldable pub remove_backend : Store → Text → Exec Trace Unit
  remove_backend s rs_id = attempt env (kv_delete_tree (backend_key s rs_id)) store_error
