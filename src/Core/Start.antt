-- ===== src/Core/Start.antt =====
-- core/context.go: NewContext.
pub mod Started
use gorb.Prelude.{
  Text_eq, ℕ, ◌≡◌, refl, Bool, true, false, Option, none, some, List, [], ◌∷◌, if◌then◌else◌,
  nat_eq, Bool-cases, inl, inr, arith,
}
use gorb.Prelude.Text.{Text, text, is_empty}
use gorb.Prelude.Map.{Map, lookup}
use gorb.Prelude.Exec.{
  Outcome, ok, err, panic, Error, ipvs_syscall_failed, netlink_error, pure, throw, lift, ◌>>=◌,
  ◌>>◌,
}
use gorb.System.{Env, Trace, attempt, link_by_name, perform}
use gorb.Util.Net.{Ip}
use gorb.Util.DynamicMap.{string}
use gorb.Disco
use gorb.Ipvs
use gorb.Core.Context.{State, Context, M, on_trace, as_ipvs, ignore, get_ctx}
use gorb.Core.Context.Services.{close}
use gorb.Core.Daemon.{new_state}

pub record ContextOptions : Type 0 where
  pub disco : Text
  pub endpoints : List Ip
  pub flush : Bool
  pub listen_port : ℕ
  pub vip_interface : Text

-- The context that NewContext begins with.
abbrev pub first_state : {A : Type 0} → Trace → State A
first_state t = record (new_state none none Disco.noop_driver none) { trace = t }

-- `disco.New` for the URL of the options; `parse` is `url.Parse`.
unfoldable pub choose_disco : (Text → Outcome Text) → Text → Outcome Disco.Driver
choose_disco parse [] = Disco.new_driver parse (record { type = text "none"; args = [] })
choose_disco parse (c ∷ url) =
    Disco.new_driver parse
      (record { type = text "consul"; args = (text "URL", string (c ∷ url)) ∷ [] })

module _ (env : Env) {A : Type 0} where
  abbrev set_disco : Disco.Driver → M A Unit
  set_disco d s = (ok tt, record s { ctx = record s.ctx { disco = d } })

  abbrev pub set_endpoint : Ip → M A Unit
  set_endpoint ip s = (ok tt, record s { ctx = record s.ctx { endpoint = some ip } })

  abbrev pub set_vip_interface : Text → M A Unit
  set_vip_interface name s = (ok tt, record s { ctx = record s.ctx { vip_interface = some name } })

  -- The REST service itself is registered; an error is not looked at.
  abbrev pub register_rest : Ip → ℕ → M A Unit
  register_rest ip port = do
    ctx ← get_ctx
    let registration = ignore (on_trace (Disco.expose env ctx.disco (text "gorb") ip port))
    if nat_eq port 0 then pure tt else registration

  abbrev pub choose_endpoint : List Ip → ℕ → M A Unit
  choose_endpoint [] port = pure tt
  choose_endpoint (ip ∷ rest) port = set_endpoint ip >> register_rest ip port

  -- `ctx.Close()` before the return of an error
  abbrev pub close_and_fail : Error → M A Unit
  close_and_fail e = close env >> throw e

  abbrev pub flushed : Outcome Unit × Trace → State A → Outcome Unit × State A
  flushed (ok u, t) s = (ok tt, record s { trace = t })
  flushed (err e, t) s = close_and_fail ipvs_syscall_failed (record s { trace = t })
  flushed (panic, t) s = (panic, record s { trace = t })

  -- `options.Flush && ctx.ipvs.Flush() != nil`
  abbrev pub flush_pools : Bool → M A Unit
  flush_pools false s = (ok tt, s)
  flush_pools true s = flushed (Ipvs.flush env s.trace) s

  abbrev pub found_interface : Text → Bool → M A Unit
  found_interface name true = set_vip_interface name
  found_interface name false = close_and_fail netlink_error

  abbrev pub choose_interface : Text → M A Unit
  choose_interface [] = pure tt
  choose_interface (c ∷ name) =
      on_trace (perform env (link_by_name (c ∷ name))) >>= found_interface (c ∷ name)

  abbrev pub open_ipvs : ContextOptions → M A Unit
  open_ipvs options = do
    as_ipvs (on_trace (Ipvs.init env))
    flush_pools options.flush
    choose_interface options.vip_interface

  abbrev pub with_disco : ContextOptions → Disco.Driver → M A Unit
  with_disco options d = do
    set_disco d
    choose_endpoint options.endpoints options.listen_port
    open_ipvs options

  -- `NewContext`, up to the goroutine that it starts, on `first_state`
  unfoldable pub new_context : (Text → Outcome Text) → ContextOptions → M A Unit
  unfolding choose_disco
  new_context parse options = lift (choose_disco parse options.disco) >>= with_disco options
