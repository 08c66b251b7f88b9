-- ===== src/Connectors/Credential.antt =====
-- Rotation of credentials in internal/connectors/service.go: a replacement is issued beside the live
-- credential and grants nothing until it is activated.
pub mod Rotation
pub mod DeviceCredential
pub mod ConnectorCredential
use openremotecode_api.Prelude.{ℕ, Bool, false, Option, none, some, ltb}
use openremotecode_api.Bytes.{Bytes}

-- `expiry != nil && expiry.After(now)`
abbrev pub lives : Option ℕ → ℕ → Bool
lives none now = false
lives (some t) now = ltb now t

pub record RotationResult : Type 0 where
  pub credential : Bytes
  pub activate_by : ℕ
