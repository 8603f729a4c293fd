-- ===== src/Core/Store/Setup.antt =====
-- core/store.go: NewStore.
use gorb.Prelude.{
  Text_eq, ℕ, Bool, false, ltb, not, ◌&&◌, Option, none, some, List, [], ◌∷◌, ◌++◌, if◌then◌else◌,
  ◌==◌,
}
use gorb.Prelude.Text.{Text, text, is_empty, to_lower}
use gorb.Prelude.Paths.{path_join}
use gorb.Prelude.Exec.{
  Outcome, ok, err, panic, invalid_url, scheme_mismatch, path_mismatch, unsupported_scheme,
  store_error, pure, throw, crash, lift, ◌>>=◌, ◌>>◌,
}
use gorb.System.{Env, attempt, kv_open, KvBackend, consul, etcd, zookeeper, boltdb, mock}
use gorb.Prelude.Int.{ℤ, pos, negsuc, mul64}
use gorb.Util.Interval.{second}
use gorb.Pulse.Floats.{Floats}
use gorb.Core.Store.{Store}
use gorb.Core.Store.Reading.{sync}
use gorb.Core.Context.{M, on_trace}

-- What NewStore reads of a URL that `url.Parse` has parsed.
pub record Url : Type 0 where
  pub scheme : Text
  pub host : Text
  pub path : Text

-- `scheme`, `storePath` and `hosts`
pub record Urls : Type 0 where
  pub scheme : Text
  pub store_path : Text
  pub hosts : List Text

abbrev pub no_urls : Urls
no_urls = record { scheme = []; store_path = []; hosts = [] }

-- Whether something else was found before.
abbrev pub differs : Text → Text → Bool
differs before now = not (is_empty before) && not (before == now)

unfoldable pub add_url : Urls → Url → Outcome Urls
unfolding to_lower
add_url acc uri =
    if differs acc.scheme (to_lower uri.scheme)
    then err scheme_mismatch
    else if differs acc.store_path uri.path
    then err path_mismatch
    else ok (record {
      scheme = to_lower uri.scheme;
      store_path = uri.path;
      hosts = acc.hosts ++ uri.host ∷ [];
    })

-- The loop over the URLs; `parse` is `url.Parse`.
unfoldable pub read_urls : (Text → Option Url) → List Text → Urls → Outcome Urls
unfolding add_url
read_urls parse [] acc = ok acc
read_urls parse (u ∷ urls) acc = elim (parse u) [
  | none ↦ err invalid_url
  | some uri ↦ (elim (add_url acc uri) [
    | ok acc' ↦ read_urls parse urls acc'
    | err e ↦ err e
    | panic ↦ panic
  ])
]

unfoldable pub kv_backend : Text → Option KvBackend
kv_backend scheme =
    if scheme == text "consul"
    then some consul
    else if scheme == text "etcd"
    then some etcd
    else if scheme == text "zookeeper"
    then some zookeeper
    else if scheme == text "boltdb"
    then some boltdb
    else if scheme == text "mock"
    then some mock
    else none

abbrev pub made_store : Urls → Text → Text → Store
made_store found service_path backend_path = record {
  store_service_path = path_join found.store_path service_path;
  store_backend_path = path_join found.store_path backend_path;
}

abbrev pub is_positive : ℤ → Bool
is_positive (pos n) = ltb 0 n
is_positive (negsuc n) = false

module _ (env : Env) {A : Type 0} ⦃f : Floats A⦄ where
  abbrev pub set_store : Store → M A Unit
  set_store store s = (ok tt, record s { ctx = record s.ctx { store = some store } })

  abbrev pub open_store : Option KvBackend → List Text → M A Unit
  open_store none hosts = throw unsupported_scheme
  open_store (some backend) hosts = on_trace (attempt env (kv_open backend hosts) store_error)

  -- `time.NewTicker`, which panics for a duration that is not positive
  abbrev pub new_ticker : ℤ → M A Unit
  new_ticker duration = if is_positive duration then pure tt else crash

  abbrev pub start_store : ℕ → ℤ → Store → M A Store
  start_store now sync_time store = do
    set_store store
    sync env now store
    new_ticker (mul64 sync_time second)
    pure store

  -- `NewStore`, at the time `now`, up to the goroutine that calls `Sync`; `parse` is `url.Parse`.
  unfoldable pub new_store : ℕ → (Text → Option Url) → List Text → Text → Text → ℤ → M A Store
  unfolding read_urls kv_backend sync path_join mul64
  new_store now parse urls service_path backend_path sync_time = do
    found ← lift (read_urls parse urls no_urls)
    open_store (kv_backend found.scheme) found.hosts
    start_store now sync_time (made_store found service_path backend_path)
