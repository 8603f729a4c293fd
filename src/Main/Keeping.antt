-- ===== src/Main/Keeping.antt =====
-- What holds once NewContext is done, and what the operations of the context keep, holds when main.go
-- has got as far as the routes.
use gorb.Prelude.{
  Text_eq, ℕ, ◌≡◌, refl, sym, subst, Bool, true, false, Option, List, [], ◌∷◌, Bool-cases, inl, inr,
}
use gorb.Prelude.Text.{Text, split}
use gorb.Prelude.Exec.{Error, not_root, ok, ◌>>=◌, ◌>>◌, pure, lift}
use gorb.Prelude.Int.{ℤ, mul64}
use gorb.Util.Interval.{second}
use gorb.System.{Env, Trace, KvBackend}
use gorb.Util.Net.{Ip, interface_ips}
use gorb.Pulse.Floats.{Floats}
use gorb.Core.Context.{State, M, require}
use gorb.Core.Context.Rules.{continue-ok}
use gorb.Core.Daemon.Keeping.{IsKept, sync-IsKept}
use gorb.Core.Sync.Keeping.{Keeps, bind-Keeps}
use gorb.Core.Start.{first_state, new_context}
use gorb.Core.Store.{Store}
use gorb.Core.Store.Setup.{
  Url, new_store, open_store, set_store, is_positive, new_ticker, start_store, kv_backend,
  made_store, read_urls, no_urls,
}
use gorb.Core.Store.Reading.{sync}
use gorb.Main.{Flags, Host, listen_port, context_options, connect_store, set_up, start_daemon}

module _ {A : Type 0} where
  required :
      (b : Bool) (e : Error) (k : Unit → M A Unit) (s : State A)
      → ((require b e >>= k) s).0 ≡ ok tt
      → (b ≡ true) × ((k tt s).0 ≡ ok tt) × (((require b e >>= k) s).1 ≡ (k tt s).1)
  required true e k s h = (refl, h, refl)
  required false e k s h = absurd cc

module _ (env : Env) {A : Type 0} ⦃f : Floats A⦄ (P : State A → Type 0) (kept : IsKept env P)
    (sets : (store : Store) → Keeps P (set_store env store))
    (opens : (backend : Option KvBackend) (hosts : List Text)
      → Keeps P (open_store env backend hosts)) where
  new_ticker-Keeps : (duration : ℤ) → Keeps P (new_ticker env duration)
  new_ticker-Keeps duration s v = elim (Bool-cases (is_positive duration)) [
    | inl e ↦ rw e v
    | inr e ↦ rw e v
  ]

  start_store-Keeps :
      (now : ℕ) (sync_time : ℤ) (store : Store) → Keeps P (start_store env now sync_time store)
  start_store-Keeps now sync_time store =
      bind-Keeps P (set_store env store)
        (λ _. sync env now store >> (new_ticker env (mul64 sync_time second) >> pure store))
        (sets store)
        (λ _.
          bind-Keeps P (sync env now store)
            (λ _. new_ticker env (mul64 sync_time second) >> pure store)
            (sync-IsKept env P kept now store)
            (λ _.
              bind-Keeps P (new_ticker env (mul64 sync_time second)) (λ _. pure store)
                (new_ticker-Keeps (mul64 sync_time second)) (λ _ t w. w)))

  new_store-Keeps :
      (now : ℕ) (parse : Text → Option Url) (urls : List Text) (services backends : Text)
      (sync_time : ℤ)
      → Keeps P (new_store env now parse urls services backends sync_time)
  unfolding new_store
  new_store-Keeps now parse urls services backends sync_time =
      bind-Keeps P (lift (read_urls parse urls no_urls)) _ (λ t w. w)
        (λ found.
          bind-Keeps P (open_store env (kv_backend found.scheme) found.hosts) _
            (opens (kv_backend found.scheme) found.hosts)
            (λ _. start_store-Keeps now sync_time (made_store found services backends)))

  connect_store-Keeps :
      (host : Host) (now : ℕ) (flags : Flags) (urls : Text)
      → Keeps P (connect_store env host now flags urls)
  connect_store-Keeps host now flags [] = λ s v. v
  connect_store-Keeps host now flags (c ∷ urls) =
      bind-Keeps P
        (new_store env now host.parse_store (split b',' (c ∷ urls)) flags.store_service_path
          flags.store_backend_path flags.store_sync_time)
        (λ store. pure tt)
        (new_store-Keeps now host.parse_store (split b',' (c ∷ urls)) flags.store_service_path
          flags.store_backend_path flags.store_sync_time)
        (λ store t w. w)

  module _ (host : Host) (now : ℕ) (flags : Flags) (t : Trace)
      (made : (ips : List Ip) (port : ℕ)
        → (new_context env {A = A} host.parse_disco
            (context_options flags ips port)
            (first_state t)).0
          ≡ ok tt
        → P
            (new_context env {A = A} host.parse_disco
              (context_options flags ips port)
              (first_state t)).1) where
    set_up-Keeps :
        (ips : List Ip) (port : ℕ)
        → (set_up env host {A = A} now flags ips port (first_state t)).0 ≡ ok tt
        → P (set_up env host {A = A} now flags ips port (first_state t)).1
    set_up-Keeps ips port h =
        let o = context_options flags ips port in
        let fresh = new_context env {A = A} host.parse_disco o (first_state t) in
        let (_, done, rest, same) =
          continue-ok fresh.0 (λ _. connect_store env host now flags flags.store_urls) fresh.1 tt
            h in
        subst P (sym same)
          (connect_store-Keeps host now flags flags.store_urls fresh.1 (made ips port done))

    -- What was done before NewContext has changed nothing.
    after_port-Keeps :
        (ips : List Ip)
        → let m = lift (listen_port (host.tcp_port flags.listen)) >>= λ port.
            set_up env host {A = A} now flags ips port in
          (m (first_state t)).0 ≡ ok tt → P (m (first_state t)).1
    after_port-Keeps ips h =
        let (port, _, rest, same) =
          continue-ok (listen_port (host.tcp_port flags.listen))
            (λ port. set_up env host now flags ips port) (first_state t) tt h in
        subst P (sym same) (set_up-Keeps ips port rest)

    after_addresses-Keeps :
        let m = lift (interface_ips host.addresses flags.device) >>= λ ips.
        lift (listen_port (host.tcp_port flags.listen)) >>= λ port.
        set_up env host {A = A} now flags ips port in
        (m (first_state t)).0 ≡ ok tt → P (m (first_state t)).1
    after_addresses-Keeps h =
        let (ips, _, rest, same) =
          continue-ok (interface_ips host.addresses flags.device)
            (λ ips. lift (listen_port (host.tcp_port flags.listen)) >>= λ port.
              set_up env host now flags ips port)
            (first_state t) tt h in
        subst P (sym same) (after_port-Keeps ips rest)

    pub start_daemon-Keeps :
        (start_daemon env host {A = A} now flags (first_state t)).0 ≡ ok tt
        → (host.is_root ≡ true) × P (start_daemon env host {A = A} now flags (first_state t)).1
    unfolding start_daemon
    start_daemon-Keeps h =
        let (root, rest, same) = required host.is_root not_root _ (first_state t) h in
        (root, subst P (sym same) (after_addresses-Keeps rest))
