-- ===== src/Tests/Store.antt =====
-- Tests of the store, of the start of the daemon and of the exporter, and the theorems at them.
use gorb.Prelude.{
  Text_eq, Texts_eq, Bool, sym, ℕ, ◌≡◌, refl, true, none, some, Option, List, [], ◌∷◌, ◌==◌,
  if◌then◌else◌, All,
}
use gorb.Prelude.Text.{Text, text, to_lower}
use gorb.Prelude.Paths.{path_join}
use gorb.Prelude.Decimal.{decimal}
use gorb.Prelude.Map.{lookup, insert, keys, IsUnique}
use gorb.Prelude.Exec.{Outcome, ok, err, path_mismatch, ipvs_syscall_failed}
use gorb.System.{Env, listed, kv_list}
use gorb.Util.DynamicMap.{as_string, get}
use gorb.Disco
use gorb.Ipvs
use gorb.Core.Context.Queries.{get_service, get_backend}
use gorb.Core.Daemon.{run}
use gorb.Core.Exporter.{
  Gauges, collect, export_services, export_service, export_backends, service_labels, backend_labels,
}
use gorb.Core.Exporter.Shown.{IsShown, collect-IsShown}
use gorb.Core.Invariant.{IsValid}
use gorb.Core.Start.{ContextOptions, first_state, choose_disco, new_context}
use gorb.Core.Start.Started.{started, new_context-run}
use gorb.Core.Store.{
  Store, marshal_service, create_service, update_service, create_backend, remove_backend, put,
}
use gorb.Core.Store.Documents.{
  is_stored, remove_under, replay, IsFaithful, Change, adding_service, changing_service,
  adding_backend, deleting_backend, perform_all, change_all, perform_all-refines,
}
use gorb.Core.Store.Following.{service_document, backend_document, sync-agreed}
use gorb.Core.Store.Mirror.{entries, Named}
use gorb.Core.Store.Reading.{sync}
use gorb.Core.Store.Setup.{Url, Urls, no_urls, read_urls}
use gorb.Tests.Fixtures.{
  accepting, refusing, fixed, serving, set_up, web_options, running_backend, web, backend_a,
}

test_path_join : path_join (text "/gorb/") (text "services") ≡ text "/gorb/services"
unfolding path_join
test_path_join = refl

test_path_join_root : path_join [] (text "/") ≡ text "/"
unfolding path_join
test_path_join_root = refl

test_path_join_up : path_join (text "a/b") (text "../../..//c/.") ≡ text "../c"
unfolding path_join
test_path_join_up = refl

abbrev plain_store : Store
plain_store = record { store_service_path = text "s"; store_backend_path = text "b" }

-- A store that holds what the context holds.
abbrev mirroring : Env
mirroring = record accepting {
  lists = λ t path.
      if path == text "s"
      then listed (entries (text "s") service_document serving.ctx.services)
      else listed (entries (text "b") backend_document serving.ctx.backends);
}

services-Named : Named serving.ctx.services
services-Named = ((cc, (cc, (cc, tt))), tt)

backends-Named : Named serving.ctx.backends
backends-Named = ((cc, tt), ((cc, tt), tt))

services-IsUnique : IsUnique serving.ctx.services
unfolding lookup
services-IsUnique = (refl, tt)

backends-IsUnique : IsUnique serving.ctx.backends
unfolding lookup
backends-IsUnique = (refl, (refl, tt))

sync-agreed_example :
    sync mirroring 9 plain_store serving
    ≡ (ok tt, record serving { trace = kv_list (text "b") ∷ kv_list (text "s") ∷ [] })
sync-agreed_example =
    sync-agreed mirroring 9 plain_store serving refl refl services-Named backends-Named
      services-IsUnique backends-IsUnique refl refl

-- One URL without a path, and one with a path.
abbrev parse : Text → Option Url
parse u =
    if u == text "1"
    then some (record { scheme = text "Consul"; host = text "one"; path = [] })
    else some (record { scheme = text "consul"; host = text "two"; path = text "/kv" })

abbrev both : Urls
both = record {
  scheme = text "consul";
  store_path = text "/kv";
  hosts = text "one" ∷ text "two" ∷ [];
}

both-read : read_urls parse (text "1" ∷ text "2" ∷ []) no_urls ≡ ok both
unfolding read_urls to_lower
both-read = refl

-- The other way round they are refused.
test_order : read_urls parse (text "2" ∷ text "1" ∷ []) no_urls ≡ err path_mismatch
unfolding read_urls to_lower
test_order = refl

abbrev options : ContextOptions
options = record {
  disco = text "http://localhost:8500";
  endpoints = (10 ∷ 0 ∷ 0 ∷ 9 ∷ []) ∷ [];
  flush = true;
  listen_port = 4672;
  vip_interface = text "lo";
}

abbrev as_it_is : Text → Outcome Text
as_it_is url = ok url

starts : (new_context accepting {A = ℕ} as_it_is options (first_state [])).0 ≡ ok tt
unfolding new_context Disco.new_driver Disco.expose Ipvs.init Ipvs.flush as_string get
starts = refl

test_refused :
    (new_context refusing {A = ℕ} as_it_is options (first_state [])).0 ≡ err ipvs_syscall_failed
unfolding new_context Disco.new_driver Disco.expose Ipvs.init Ipvs.flush as_string get
test_refused = refl

new_context-run_example :
    ((d : Disco.Driver) × (choose_disco as_it_is options.disco ≡ ok d)
      × ((new_context accepting {A = ℕ} as_it_is options (first_state [])).1.ctx
          ≡ started d options))
    × IsValid accepting
        (run accepting
          (record {
            state = (new_context accepting {A = ℕ} as_it_is options (first_state [])).1;
            stash = [];
            pending = none;
          })
          set_up).state.ctx
new_context-run_example = new_context-run accepting as_it_is options [] set_up starts

abbrev no_gauges : Gauges ℕ
no_gauges = record {
  service_health = [];
  service_backends = [];
  backend_uptime = [];
  backend_health = [];
  backend_status = [];
  backend_weight = [];
}

test_weight :
    lookup
      (web ∷ backend_a ∷ text "a.example" ∷ text "8080" ∷ [])
      (collect serving.ctx no_gauges).1.backend_weight
    ≡ some 100_000
unfolding collect export_services export_service export_backends lookup insert get_service
    get_backend service_labels backend_labels decimal
test_weight = refl

collect-IsShown_example :
    (g : Gauges ℕ) × (collect serving.ctx no_gauges ≡ (ok tt, g))
    × All (IsShown serving.ctx g) (keys serving.ctx.services)
collect-IsShown_example = collect-IsShown serving.ctx no_gauges

abbrev same_key : Text → Text → Bool
same_key d k = d == k

-- A store that takes every call and remembers what it was given.
abbrev remembering : Env
remembering = record accepting {
  exists = λ t k. some (is_stored k (replay same_key (λ t c. true) t));
}

remembering-IsFaithful : IsFaithful same_key remembering
remembering-IsFaithful = record { faithful = λ t k b h. sym (cc h) }

abbrev changes : List Change
changes =
    adding_service web web_options
    ∷ adding_service web (record web_options { port = 81 })
    ∷ changing_service web (record web_options { port = 82 })
    ∷ adding_backend web backend_a (running_backend 2).options
    ∷ deleting_backend backend_a
    ∷ []

-- The second creation finds the key, and leaves the document.
test_changes :
    replay same_key (λ t c. true) (perform_all remembering plain_store changes []).1
    ≡ (text "s/web", marshal_service (record web_options { port = 82 })) ∷ []
unfolding replay perform_all create_service update_service create_backend remove_backend put insert
    lookup remove_under
test_changes = refl

perform_all-refines_example :
    replay same_key (λ t c. true) (perform_all remembering plain_store changes []).1
    ≡ change_all same_key plain_store
        (perform_all remembering plain_store changes []).0
        (replay same_key (λ t c. true) [])
perform_all-refines_example =
    perform_all-refines same_key remembering remembering-IsFaithful plain_store changes []
