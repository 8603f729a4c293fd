-- ===== src/Tests/Kernel.antt =====
-- A world whose IPVS keeps a table of its services, and the theorems on the table at it.
use gorb.Prelude.{
  Text_eq, ℕ, ◌≡◌, refl, ◌∙◌, sym, ap, Bool, true, false, not, none, some, List, [], ◌∷◌,
}
use gorb.Prelude.Text.{text, to_lower, split}
use gorb.Prelude.Paths.{path_join}
use gorb.Prelude.Map.{insert}
use gorb.Prelude.Exec.{ok}
use gorb.System.{Call, Env, Trace, new_service, del_service}
use gorb.Util.DynamicMap.{as_string, get}
use gorb.Util.Net.{interface_ips, ipv4, to_16}
use gorb.Disco
use gorb.Ipvs
use gorb.Ipvs.Table.{Key, key_of, note_call, serves, IsKernel}
use gorb.Core.Daemon.{Event, request, run}
use gorb.Core.Kernel.Services.{Served}
use gorb.Core.Kernel.Run.{run-Served}
use gorb.Core.Kernel.Start.{cleared-Served}
use gorb.Core.Start.{first_state, new_context}
use gorb.Core.Store.Reading.{sync, get_external_services, get_external_backends}
use gorb.Core.Store
use gorb.Core.Store.{marshal_service}
use gorb.Core.Context.Services
use gorb.Core.Options.{fill_service}
use gorb.Core.Sync.{drop_services, refresh_services, synchronize, drop_backends, refresh_backends}
use gorb.Core.Store.Setup.{new_store, read_urls, kv_backend}
use gorb.Http.{delete_service, patch_service}
use gorb.Main.{start_daemon}
use gorb.Main.Serving.{start_daemon-Served}
use gorb.Tests.Fixtures.{accepting, fixed, web, web_body, start, set_up}
use gorb.Tests.Main.{stored, host, flags, two_urls}

abbrev answer : Call → (Key → Bool) → Bool
answer (new_service svc) there = not (there (key_of svc))
answer (del_service svc) there = there (key_of svc)
answer _ there = true

unfoldable holds : Trace → Key → Bool
holds [] k = false
holds (c ∷ t) k = note_call c (answer c (holds t)) k (holds t k)

-- IPVS answers by its table, and the rest of the world as in `w`.
abbrev with_kernel : Env → Env
with_kernel w = record w { accepts = λ t c. answer c (holds t) }

serves-holds : (w : Env) (t : Trace) (k : Key) → serves (with_kernel w).accepts t k ≡ holds t k
unfolding serves holds
serves-holds w [] k = refl
serves-holds w (c ∷ t) k = ap (note_call c (answer c (holds t)) k) (serves-holds w t k)

with_kernel-IsKernel : (w : Env) → IsKernel (with_kernel w)
with_kernel-IsKernel w = record {
  refuses_twice = λ t svc on. ap not (sym (serves-holds w t (key_of svc)) ∙ on);
  deletes = λ t svc on. sym (serves-holds w t (key_of svc)) ∙ on;
}

-- A change of a service makes it; then it is deleted, and made again with backends.
abbrev course : List (Event ℕ)
course = request 1 (patch_service web (some web_body)) ∷ request 2 (delete_service web) ∷ set_up

run-Served_example : Served (with_kernel accepting) (run (with_kernel accepting) start course).state
unfolding serves
run-Served_example =
    run-Served (with_kernel accepting) (with_kernel-IsKernel accepting) start course
      (cleared-Served (with_kernel accepting) start.state refl (λ q. refl))

-- A service that another program has left in IPVS.
abbrev leftover : Trace
leftover =
    new_service (record {
      address = 9 ∷ 9 ∷ 9 ∷ 9 ∷ [];
      protocol = 6;
      port = 80;
      address_family = ipv4;
      sched_name = text "wrr";
      flags = 0;
      mask = 0;
    })
    ∷ []

comes_up :
    (start_daemon
      (with_kernel stored)
      (host true (some 4672))
      {A = ℕ}
      9
      (flags two_urls)
      (first_state leftover)).0
    ≡ ok tt
unfolding start_daemon interface_ips new_context Disco.new_driver Disco.expose Ipvs.init Ipvs.flush
    as_string get new_store read_urls kv_backend sync path_join to_lower split get_external_services
    get_external_backends synchronize drop_services refresh_services insert Services.create_service
    fill_service marshal_service Ipvs.valid_protocol Ipvs.valid_flag Store.create_service
    Ipvs.add_service drop_backends refresh_backends holds to_16
comes_up = refl

start_daemon-Served_example :
    Served
      (with_kernel stored)
      (run
        (with_kernel stored)
        (record {
          state =
              (start_daemon
                (with_kernel stored)
                (host true (some 4672))
                9
                (flags two_urls)
                (first_state leftover)).1;
          stash = [];
          pending = none;
        })
        course).state
start_daemon-Served_example =
    start_daemon-Served (with_kernel stored) (host true (some 4672)) 9 (flags two_urls) leftover
      course (with_kernel-IsKernel stored) refl comes_up
