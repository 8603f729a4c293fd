-- ===== src/Disco.antt =====
-- disco/disco.go and disco/consul.go: registration of services with Consul.
use gorb.Prelude.{Text_eq, ℕ, Option, none, some, nat_eq, if◌then◌else◌, ◌==◌}
use gorb.Prelude.Text.{Text, text}
use gorb.Prelude.Exec.{Exec, Outcome, ok, err, panic, consul_error, pure, throw, ◌>>=◌}
use gorb.Util.Net.{Ip}
use gorb.Util.DynamicMap.{DynamicMap, get, as_string, string}
use gorb.System.{Env, Trace, request, consul_register, consul_deregister}

-- The drivers; `consul` holds the URL of the agent.
pub data Driver : Type 0 where
  noop_driver : Driver
  consul_disco : Text → Driver

pub record DiscoOptions : Type 0 where
  pub type : Text
  pub args : DynamicMap

-- `newConsulDriver`; `url.Parse` says whether the text is a URL.
unfoldable pub new_consul_driver : (Text → Outcome Text) → DynamicMap → Outcome Driver
new_consul_driver parse args =
    elim (as_string (get args (text "URL") (string (text "http://localhost:8500")))) [
      | ok url ↦ (elim (parse url) [ ok u ↦ ok (consul_disco u) | err e ↦ err e | panic ↦ panic ])
      | err e ↦ err e
      | panic ↦ panic
    ]

-- `New`
unfoldable pub new_driver : (Text → Outcome Text) → DiscoOptions → Outcome Driver
unfolding new_consul_driver
new_driver parse o =
    if o.type == text "consul" then new_consul_driver parse o.args else ok noop_driver

module _ (env : Env) where
  -- Anything but a response with status 200 is an error.
  abbrev pub expect_ok : Option ℕ → Exec Trace Unit
  expect_ok none = throw consul_error
  expect_ok (some code) = if nat_eq code 200 then pure tt else throw consul_error

  unfoldable pub expose : Driver → Text → Ip → ℕ → Exec Trace Unit
  expose noop_driver name host port = pure tt
  expose (consul_disco url) name host port = do
    code ← request env (consul_register name host port)
    expect_ok code

  unfoldable pub remove : Driver → Text → Exec Trace Unit
  remove noop_driver name = pure tt
  remove (consul_disco url) name = do code ← request env (consul_deregister name); expect_ok code
