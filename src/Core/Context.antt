-- ===== src/Core/Context.antt =====
-- core/context.go: the state of the daemon. A service is a pointer in the program: `addr` is its
-- address, and no two services that are made share one. Nothing behind the pointer changes.
pub mod Services
pub mod Backends
pub mod Queries
pub mod Rules
pub mod Create
pub mod Calm
pub mod Attach
pub mod Detach
pub mod Remove
pub mod Weight
pub mod Total
use gorb.Prelude.{Text_eq, ℕ, ◌+◌, Bool, true, false, Option, none, some, List, [], if◌then◌else◌}
use gorb.Prelude.Text.{Text, is_empty, split}
use gorb.Prelude.Map.{Map}
use gorb.Prelude.Exec.{
  Exec, Outcome, ok, err, panic, Error, ipvs_syscall_failed, object_not_found, pure, throw, lift,
  ◌>>=◌,
}
use gorb.System.{Env, Trace}
use gorb.Util.Net.{Ip}
use gorb.Disco.{Driver}
use gorb.Pulse.Metrics.{Metrics}
use gorb.Pulse.Driver.{Pulse}
use gorb.Core.Options.{ServiceOptions, BackendOptions, separator}
use gorb.Core.Store.{Store}

pub record Service : Type 0 where
  pub addr : ℕ
  pub options : ServiceOptions

pub record Backend (A : Type 0) : Type 0 where
  pub options : BackendOptions
  pub service : Service
  pub monitor : Pulse A
  pub metrics : Metrics A

pub record Context (A : Type 0) : Type 0 where
  pub endpoint : Option Ip
  pub services : Map Text Service
  pub backends : Map Text (Backend A)
  pub vip_interface : Option Text
  pub disco : Driver
  pub store : Option Store
  -- Whether `stopCh` is closed.
  pub stopped : Bool
  -- The address of the next service.
  pub next_addr : ℕ

-- The daemon with the calls that it has made.
pub record State (A : Type 0) : Type 0 where
  pub ctx : Context A
  pub trace : Trace

abbrev pub M : Type 0 → Type 0 → Type 0
M A B = Exec (State A) B

abbrev pub drop_error : {B : Type 0} → Outcome B → Outcome Unit
drop_error (ok b) = ok tt
drop_error (err e) = ok tt
drop_error panic = panic

abbrev pub blame : {B : Type 0} → Outcome B → Outcome B
blame (ok b) = ok b
blame (err e) = err ipvs_syscall_failed
blame panic = panic

module _ {A B : Type 0} where
  abbrev on_trace_done : State A → Outcome B × Trace → Outcome B × State A
  on_trace_done s (r, t) = (r, record s { trace = t })

  abbrev pub on_trace : Exec Trace B → M A B
  on_trace m s = on_trace_done s (m s.trace)

  abbrev drop_done : Outcome B × State A → Outcome Unit × State A
  drop_done (r, s) = (drop_error r, s)

  -- An error is logged only.
  abbrev pub ignore : M A B → M A Unit
  ignore m s = drop_done (m s)

  abbrev blame_done : Outcome B × State A → Outcome B × State A
  blame_done (r, s) = (blame r, s)

  -- Every error of IPVS is `ErrIpvsSyscallFailed`.
  abbrev pub as_ipvs : M A B → M A B
  as_ipvs m s = blame_done (m s)

module _ {A : Type 0} where
  abbrev pub get_ctx : M A (Context A)
  get_ctx s = (ok s.ctx, s)

  abbrev pub set_services : Map Text Service → M A Unit
  set_services m s = (ok tt, record s { ctx = record s.ctx { services = m } })

  abbrev pub set_backends : Map Text (Backend A) → M A Unit
  set_backends m s = (ok tt, record s { ctx = record s.ctx { backends = m } })

  abbrev pub take_addr : M A ℕ
  take_addr s =
      (ok s.ctx.next_addr, record s { ctx = record s.ctx { next_addr = s.ctx.next_addr + 1 } })

-- `if v, exists := m[k]; !exists { return ErrObjectNotFound }`
abbrev pub found : {S B : Type 0} → Option B → Exec S B
found none = throw object_not_found
found (some b) = pure b

-- What an optional part does, if it is there.
abbrev pub when_some : {S B : Type 0} → Option B → (B → Exec S Unit) → Exec S Unit
when_some none f = pure tt
when_some (some b) f = f b

abbrev pub flag_list : Text → List Text
flag_list flags = if is_empty flags then [] else split separator flags

-- `if !test { return e }`
abbrev pub require : {S : Type 0} → Bool → Error → Exec S Unit
require true e = pure tt
require false e = throw e
