-- ===== src/Core/Payload.antt =====
-- The JSON documents that the store holds: the exported fields of the options in core/options.go
-- and pulse/options.go, under their tags. The text of a document is the JSON library's business.
use gorb.Prelude.{ℕ, Bool, Option}
use gorb.Prelude.Text.{Text}
use gorb.Prelude.Map.{Map}
use gorb.Util.DynamicMap.{Value}

pub record ServicePayload : Type 0 where
  pub host : Text
  pub port : ℕ
  pub protocol : Text
  pub method : Text
  pub flags : Text
  pub persistent : Bool

pub record PulsePayload : Type 0 where
  pub type : Text
  pub interval : Text
  pub args : Map Text Value

pub record BackendPayload : Type 0 where
  pub host : Text
  pub port : ℕ
  pub weight : ℕ
  pub method : Text
  pub pulse : Option PulsePayload
  pub vs_id : Text

pub data Payload : Type 0 where
  service_payload : ServicePayload → Payload
  backend_payload : BackendPayload → Payload
