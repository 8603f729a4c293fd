-- ===== src/Main/Lasting.antt =====
-- From the start of main.go on the context is valid.
use gorb.Prelude.{ℕ, ◌≡◌, true, Option, none, some, List, []}
use gorb.Prelude.Text.{Text}
use gorb.Prelude.Exec.{ok}
use gorb.System.{Env, Trace, KvBackend}
use gorb.Pulse.Floats.{Floats}
use gorb.Core.Daemon.{Event, run}
use gorb.Core.Invariant.{IsValid}
use gorb.Core.Invariant.Sync.{Valid}
use gorb.Core.Invariant.Run.{Valid-IsKept, run-IsValid}
use gorb.Core.Sync.Keeping.{Keeps}
use gorb.Core.Start.{first_state}
use gorb.Core.Start.Started.{new_context-IsValid}
use gorb.Core.Store.{Store}
use gorb.Core.Store.Setup.{open_store, set_store}
use gorb.Main.{Flags, Host, context_options, start_daemon}
use gorb.Main.Keeping.{start_daemon-Keeps}

module _ (env : Env) {A : Type 0} ⦃f : Floats A⦄ where
  set_store-IsValid : (store : Store) → Keeps {A = A} (Valid env) (set_store env store)
  set_store-IsValid store s v = record {
    services = v.services;
    distinct = v.distinct;
    backends = v.backends;
    unique = v.unique;
  }

  open_store-IsValid :
      (backend : Option KvBackend) (hosts : List Text)
      → Keeps {A = A} (Valid env) (open_store env backend hosts)
  open_store-IsValid none hosts s v = v
  open_store-IsValid (some backend) hosts s v = v

  start_daemon-IsValid :
      (host : Host) (now : ℕ) (flags : Flags) (t : Trace)
      → (start_daemon env host {A = A} now flags (first_state t)).0 ≡ ok tt
      → (host.is_root ≡ true)
        × IsValid env (start_daemon env host {A = A} now flags (first_state t)).1.ctx
  start_daemon-IsValid host now flags t =
      start_daemon-Keeps env (Valid env) (Valid-IsKept env) set_store-IsValid open_store-IsValid
        host now flags t
        λ ips port. new_context-IsValid env host.parse_disco (context_options flags ips port) t

  -- If `main` gets as far as the routes, it runs as root, and the context, with or without a store, is
  -- valid and stays so whatever requests, updates and rounds of the store follow.
  pub start_daemon-run :
      (host : Host) (now : ℕ) (flags : Flags) (t : Trace) (es : List (Event A))
      → let s = (start_daemon env host {A = A} now flags (first_state t)).1 in
        (start_daemon env host {A = A} now flags (first_state t)).0 ≡ ok tt
        → (host.is_root ≡ true)
          × IsValid env (run env (record { state = s; stash = []; pending = none }) es).state.ctx
  start_daemon-run host now flags t es h =
      let (root, valid) = start_daemon-IsValid host now flags t h in
      let s = (start_daemon env host {A = A} now flags (first_state t)).1 in
      (root, run-IsValid env (record { state = s; stash = []; pending = none }) es valid)
