-- ===== src/Main/Serving.antt =====
-- From the start of main.go on IPVS has the services of the context.
use gorb.Prelude.{ℕ, ◌≡◌, refl, true, Option, none, some, List, []}
use gorb.Prelude.Text.{Text}
use gorb.Prelude.Exec.{ok, store_error}
use gorb.System.{Env, Trace, KvBackend, kv_open}
use gorb.Pulse.Floats.{Floats}
use gorb.Ipvs.Table.{IsKernel, attempt-Neutral}
use gorb.Core.Daemon.{Event, run}
use gorb.Core.Kernel.Services.{Served, Served-Same}
use gorb.Core.Kernel.Run.{Served-IsKept, run-Served}
use gorb.Core.Kernel.Start.{new_context-Served}
use gorb.Core.Sync.Keeping.{Keeps}
use gorb.Core.Start.{first_state}
use gorb.Core.Store.{Store}
use gorb.Core.Store.Setup.{open_store, set_store}
use gorb.Main.{Flags, Host, context_options, start_daemon}
use gorb.Main.Keeping.{start_daemon-Keeps}

module _ (env : Env) {A : Type 0} ⦃f : Floats A⦄ where
  set_store-Served : (store : Store) → Keeps {A = A} (Served env) (set_store env store)
  set_store-Served store s = Served-Same env s (set_store env store s).1 refl (λ k. refl)

  open_store-Served :
      (backend : Option KvBackend) (hosts : List Text)
      → Keeps {A = A} (Served env) (open_store env backend hosts)
  open_store-Served none hosts s = λ v. v
  open_store-Served (some backend) hosts s =
      Served-Same env s (open_store env (some backend) hosts s).1 refl
        (attempt-Neutral env (kv_open backend hosts) store_error (λ _ _ _. refl) s.trace)

  -- Where the flags ask for a flush, on a kernel that refuses a service it has and deletes one it has:
  -- if `main` gets as far as the routes, then, whatever was in IPVS before and whatever requests,
  -- updates and rounds of the store follow, IPVS has each service of the context under its address,
  -- port and protocol, no two of them are one there, and it has no other.
  pub start_daemon-Served :
      (host : Host) (now : ℕ) (flags : Flags) (t : Trace) (es : List (Event A))
      → IsKernel env
      → flags.flush ≡ true
      → let s = (start_daemon env host {A = A} now flags (first_state t)).1 in
        (start_daemon env host {A = A} now flags (first_state t)).0 ≡ ok tt
        → Served env (run env (record { state = s; stash = []; pending = none }) es).state
  start_daemon-Served host now flags t es kernel flush h =
      let s = (start_daemon env host {A = A} now flags (first_state t)).1 in
      let (_, v) =
        start_daemon-Keeps env (Served env) (Served-IsKept env kernel) set_store-Served
          open_store-Served host now flags t
          (λ ips port.
            new_context-Served env A host.parse_disco (context_options flags ips port) t flush)
          h in
      run-Served env kernel (record { state = s; stash = []; pending = none }) es v
