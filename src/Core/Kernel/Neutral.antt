-- ===== src/Core/Kernel/Neutral.antt =====
-- The operations of the context that make no service in IPVS and delete none.
use gorb.Prelude.{
  Text_eq, Pair_eq, ℕ, refl, Bool, true, false, not, ◌&&◌, ◌∷◌, Option, none, some, inl, inr,
  Bool-cases, nat_eq,
}
use gorb.Prelude.Text.{Text}
use gorb.Prelude.Exec.{Exec, throw, store_error, netlink_error}
use gorb.System.{
  Env, Trace, resolve_addr, attempt, perform, request, kv_put, kv_has, addr_del, consul_register,
  consul_deregister, kv_delete_tree, start_loop,
}
use gorb.Util.Net.{Ip, to_16}
use gorb.Disco
use gorb.Ipvs.Table.{serves, Same, Neutral, bind-Neutral, attempt-Neutral}
use gorb.Core.Payload.{Payload}
use gorb.Core.Options.{ServiceOptions, BackendOptions, fill_service, fill_backend}
use gorb.Core.Options.Total.{OnlyResolves, fill_service-OnlyResolves, fill_backend-OnlyResolves}
use gorb.Core.Store
use gorb.Core.Context.{when_some}
use gorb.Core.Context.Services.{add_vip, del_vip}
use gorb.Core.Context.Backends.{store_backend}

module _ (env : Env) where
  OnlyResolves-Same : (name : Text) (t u : Trace) → OnlyResolves name t u → Same env u t
  unfolding serves
  OnlyResolves-Same name t u (inl e) k = rw e refl
  OnlyResolves-Same name t u (inr e) k = rw e refl

  pub fill_service-Neutral :
      (d : Option Ip) (o : ServiceOptions) → Neutral env (fill_service env d o)
  fill_service-Neutral d o t =
      OnlyResolves-Same o.host t (fill_service env d o t).1 (fill_service-OnlyResolves env d o t)

  pub fill_backend-Neutral : (o : BackendOptions) → Neutral env (fill_backend env o)
  fill_backend-Neutral o t =
      OnlyResolves-Same o.host t (fill_backend env o t).1 (fill_backend-OnlyResolves env o t)

  pub add_vip-Neutral : (link : Option Text) (o : ServiceOptions) → Neutral env (add_vip env link o)
  unfolding serves
  add_vip-Neutral none o t k = refl
  add_vip-Neutral (some link) o t k = refl

  pub del_vip-Neutral : (link : Option Text) (o : ServiceOptions) → Neutral env (del_vip env link o)
  del_vip-Neutral none o t k = refl
  del_vip-Neutral (some link) o t k = elim (Bool-cases o.del_if_addr) [
    | inl set ↦
        rw set
          (attempt-Neutral env (addr_del link (to_16 o.host_ip)) netlink_error (λ _ _ _. refl) t k)
    | inr unset ↦ rw unset refl
  ]

  put_unless-Neutral :
      (b : Bool) (key : Text) (p : Payload) → Neutral env (Store.put_unless env b key p)
  put_unless-Neutral true key p = λ t k. refl
  put_unless-Neutral false key p = attempt-Neutral env (kv_put key p) store_error (λ _ _ _. refl)

  put_after-Neutral :
      (key : Text) (p : Payload) (overwrite : Bool) (found : Option Bool)
      → Neutral env (elim found as (λ _. Exec Trace Unit) [
        | none ↦ throw store_error
        | some exist ↦ Store.put_unless env (exist && not overwrite) key p
      ])
  put_after-Neutral key p overwrite none = λ t k. refl
  put_after-Neutral key p overwrite (some exist) = put_unless-Neutral (exist && not overwrite) key p

  put-Neutral :
      (key : Text) (p : Payload) (overwrite : Bool) → Neutral env (Store.put env key p overwrite)
  unfolding Store.put serves
  put-Neutral key p overwrite t k =
      put_after-Neutral key p overwrite (env.exists t key) (gorb.System.kv_exists key ∷ t) k

  pub store_create_service-Neutral :
      (store : Option Store.Store) (id : Text) (o : ServiceOptions)
      → Neutral env (when_some store λ s. Store.create_service env s id o)
  unfolding Store.create_service
  store_create_service-Neutral none id o = λ t k. refl
  store_create_service-Neutral (some s) id o = put-Neutral _ _ false

  pub store_update_service-Neutral :
      (store : Option Store.Store) (id : Text) (o : ServiceOptions)
      → Neutral env (when_some store λ s. Store.update_service env s id o)
  unfolding Store.update_service
  store_update_service-Neutral none id o = λ t k. refl
  store_update_service-Neutral (some s) id o = put-Neutral _ _ true

  pub store_remove_service-Neutral :
      (store : Option Store.Store) (id : Text)
      → Neutral env (when_some store λ s. Store.remove_service env s id)
  unfolding Store.remove_service
  store_remove_service-Neutral none id = λ t k. refl
  store_remove_service-Neutral (some s) id = attempt-Neutral env _ store_error (λ _ _ _. refl)

  pub store_remove_backend-Neutral :
      (store : Option Store.Store) (id : Text)
      → Neutral env (when_some store λ s. Store.remove_backend env s id)
  unfolding Store.remove_backend
  store_remove_backend-Neutral none id = λ t k. refl
  store_remove_backend-Neutral (some s) id = attempt-Neutral env _ store_error (λ _ _ _. refl)

  pub store_backend-Neutral :
      (store : Option Store.Store) (vs_id rs_id : Text) (o : BackendOptions)
      → Neutral env (store_backend env store vs_id rs_id o)
  unfolding Store.create_backend
  store_backend-Neutral none vs_id rs_id o = λ t k. refl
  store_backend-Neutral (some s) vs_id rs_id o =
      bind-Neutral env (Store.put env _ _ false) _ (put-Neutral _ _ false) (λ _ t k. refl)

  expect_ok-Neutral : (code : Option ℕ) → Neutral env (Disco.expect_ok env code)
  expect_ok-Neutral none t k = refl
  expect_ok-Neutral (some code) t k = elim (Bool-cases (nat_eq code 200)) [
    | inl fine ↦ rw fine refl
    | inr other ↦ rw other refl
  ]

  pub expose-Neutral :
      (d : Disco.Driver) (name : Text) (host : Ip) (port : ℕ)
      → Neutral env (Disco.expose env d name host port)
  unfolding Disco.expose serves
  expose-Neutral Disco.noop_driver name host port t k = refl
  expose-Neutral (Disco.consul_disco url) name host port t k =
      expect_ok-Neutral (env.responds t (consul_register name host port))
        (consul_register name host port ∷ t) k

  pub disco_remove-Neutral :
      (d : Disco.Driver) (name : Text) → Neutral env (Disco.remove env d name)
  unfolding Disco.remove serves
  disco_remove-Neutral Disco.noop_driver name t k = refl
  disco_remove-Neutral (Disco.consul_disco url) name t k =
      expect_ok-Neutral (env.responds t (consul_deregister name)) (consul_deregister name ∷ t) k
