-- ===== src/System.antt =====
-- What the program asks of the world outside it: the IPVS library, the network interfaces, the
-- resolver, Consul and the key-value store. A trace lists the calls, the latest first, and the
-- environment answers each call as it likes, in view of all calls before it.
use gorb.Prelude.{ℕ, Bool, List, ◌∷◌, Option, if◌then◌else◌}
use gorb.Prelude.Text.{Text}
use gorb.Prelude.Exec.{Exec, ok, Error, pure, throw, ◌>>=◌}
use gorb.Util.Net.{Ip, Family}
use gorb.Core.Payload.{Payload}

-- `libipvs.Service`
pub record Svc : Type 0 where
  pub address : Ip
  pub protocol : ℕ
  pub port : ℕ
  pub address_family : Family
  pub sched_name : Text
  pub flags : ℕ
  pub mask : ℕ

-- `libipvs.Destination`
pub record Dest : Type 0 where
  pub address : Ip
  pub port : ℕ
  pub address_family : Family
  pub fwd_method : ℕ
  pub weight : ℕ

-- The stores that libkv knows under the names of the program.
pub data KvBackend : Type 0 where
  consul etcd zookeeper boltdb mock : KvBackend

pub data Call : Type 0 where
  ipvs_new ipvs_flush : Call
  new_service update_service del_service : Svc → Call
  new_destination update_destination del_destination : Svc → Dest → Call
  addr_add addr_del : Text → Ip → Call
  link_by_name : Text → Call
  resolve_addr : Text → Call
  consul_register : Text → Ip → ℕ → Call
  consul_deregister : Text → Call
  kv_exists kv_delete_tree : Text → Call
  kv_put : Text → Payload → Call
  kv_open : KvBackend → List Text → Call
  kv_list : Text → Call
  -- `go monitor.Loop(pulse.ID{vsID, rsID}, …)`
  start_loop : Text → Text → Call

abbrev pub Trace : Type 0
Trace = List Call

-- An entry of the store; a value that is no JSON object decodes to nothing.
pub record KvPair : Type 0 where
  pub key : Text
  pub value : Option Payload

-- What listing a directory of the store gives; `no_key` is `ErrKeyNotFound`.
pub data Listing : Type 0 where
  no_key list_failed : Listing
  listed : List KvPair → Listing

-- The answers: whether a call returns without an error, the address of a host name, the status code
-- of an HTTP response, whether a key exists, and the entries of a directory. The bits are constants of libipvs.
pub record Env : Type 0 where
  pub accepts : Trace → Call → Bool
  pub resolves : Trace → Text → Option Ip
  pub responds : Trace → Call → Option ℕ
  pub exists : Trace → Text → Option Bool
  pub lists : Trace → Text → Listing
  pub sched_sh_fallback : ℕ
  pub sched_sh_port : ℕ
  pub sched_1 : ℕ
  pub sched_2 : ℕ
  pub sched_3 : ℕ
  pub conn_droute : ℕ
  pub conn_masq : ℕ
  pub conn_tunnel : ℕ

module _ (env : Env) where
  abbrev pub perform : Call → Exec Trace Bool
  perform c t = (ok (env.accepts t c), c ∷ t)

  -- A call whose error is returned as `e`.
  abbrev pub attempt : Call → Error → Exec Trace Unit
  attempt c e = do done ← perform c; if done then pure tt else throw e

  abbrev pub resolve : Text → Exec Trace (Option Ip)
  resolve host t = (ok (env.resolves t host), resolve_addr host ∷ t)

  abbrev pub request : Call → Exec Trace (Option ℕ)
  request c t = (ok (env.responds t c), c ∷ t)

  abbrev pub kv_has : Text → Exec Trace (Option Bool)
  kv_has key t = (ok (env.exists t key), kv_exists key ∷ t)

  abbrev pub list_keys : Text → Exec Trace Listing
  list_keys path t = (ok (env.lists t path), kv_list path ∷ t)
