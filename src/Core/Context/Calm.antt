-- ===== src/Core/Context/Calm.antt =====
-- The calls outside never panic.
use gorb.Prelude.{ℕ, Bool, false, List, Option, none, some, arith}
use gorb.Prelude.Text.{Text}
use gorb.System.{Env}
use gorb.Util.Net.{Ip}
use gorb.Disco
use gorb.Ipvs
use gorb.Core.Options.{ServiceOptions, BackendOptions}
use gorb.Core.Store
use gorb.Core.Context.{when_some}
use gorb.Core.Context.Services.{add_vip, del_vip}
use gorb.Core.Context.Backends.{store_backend}
use gorb.Core.Payload.{Payload}
use gorb.Core.Context.Rules.{Calm}

module _ (env : Env) where
  pub expose-Calm :
      (d : Disco.Driver) (name : Text) (host : Ip) (port : ℕ)
      → Calm (Disco.expose env d name host port)
  unfolding Disco.expose
  expose-Calm Disco.noop_driver name host port t h = ground arith
  expose-Calm (Disco.consul_disco url) name host port t h = ground arith

  pub disco_remove-Calm : (d : Disco.Driver) (name : Text) → Calm (Disco.remove env d name)
  unfolding Disco.remove
  disco_remove-Calm Disco.noop_driver name t h = ground arith
  disco_remove-Calm (Disco.consul_disco url) name t h = ground arith

  pub store_remove_service-Calm :
      (store : Option Store.Store) (vs_id : Text)
      → Calm (when_some store λ s. Store.remove_service env s vs_id)
  unfolding Store.remove_service
  store_remove_service-Calm none vs_id t h = ground arith
  store_remove_service-Calm (some s) vs_id t h = ground arith

  pub store_remove_backend-Calm :
      (store : Option Store.Store) (rs_id : Text)
      → Calm (when_some store λ s. Store.remove_backend env s rs_id)
  unfolding Store.remove_backend
  store_remove_backend-Calm none rs_id t h = ground arith
  store_remove_backend-Calm (some s) rs_id t h = ground arith

  pub del_vip-Calm : (link : Option Text) (o : ServiceOptions) → Calm (del_vip env link o)
  del_vip-Calm none o t h = ground arith
  del_vip-Calm (some link) o t h = ground arith

  pub ipvs_remove_service-Calm :
      (vip : Ip) (port : ℕ) (protocol : Text) → Calm (Ipvs.remove_service env vip port protocol)
  unfolding Ipvs.remove_service
  ipvs_remove_service-Calm vip port protocol t h = ground arith

  pub del_dest_port-Calm :
      (vip : Ip) (vport : ℕ) (rip : Ip) (rport : ℕ) (protocol : Text)
      → Calm (Ipvs.del_dest_port env vip vport rip rport protocol)
  unfolding Ipvs.del_dest_port
  del_dest_port-Calm vip vport rip rport protocol t h = ground arith

  pub add_vip-Calm : (link : Option Text) (o : ServiceOptions) → Calm (add_vip env link o)
  add_vip-Calm none o t h = ground arith
  add_vip-Calm (some link) o t h = ground arith

  put-Calm : (key : Text) (p : Payload) (overwrite : Bool) → Calm (Store.put env key p overwrite)
  unfolding Store.put
  put-Calm key p overwrite t h = ground arith

  pub store_create_service-Calm :
      (store : Option Store.Store) (vs_id : Text) (o : ServiceOptions)
      → Calm (when_some store λ s. Store.create_service env s vs_id o)
  unfolding Store.create_service
  store_create_service-Calm none vs_id o t h = ground arith
  store_create_service-Calm (some s) vs_id o t h = put-Calm _ _ false t h

  pub store_backend-Calm :
      (store : Option Store.Store) (vs_id rs_id : Text) (o : BackendOptions)
      → Calm (store_backend env store vs_id rs_id o)
  unfolding Store.create_backend Store.put
  store_backend-Calm none vs_id rs_id o t h = ground arith
  store_backend-Calm (some s) vs_id rs_id o t h = ground arith

  pub add_service-Calm :
      (vip : Ip) (port : ℕ) (protocol sched : Text) (flags : List Text)
      → Calm (Ipvs.add_service env vip port protocol sched flags)
  unfolding Ipvs.add_service
  add_service-Calm vip port protocol sched flags t h = ground arith

  pub add_dest_port-Calm :
      (vip : Ip) (vport : ℕ) (rip : Ip) (rport : ℕ) (protocol : Text) (weight : ℕ) (method : Text)
      → Calm (Ipvs.add_dest_port env vip vport rip rport protocol weight method)
  unfolding Ipvs.add_dest_port
  add_dest_port-Calm vip vport rip rport protocol weight method t h = ground arith
