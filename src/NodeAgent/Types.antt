-- ===== src/NodeAgent/Types.antt =====
-- services/node-agent/internal/domain/types.go. Go's `int` and `int64` are 64-bit integers.
use vpn_platform.Prelude.{ℕ, String, List}
use vpn_platform.Prelude.Int.{ℤ}

-- `not_applied`, `not_saved`, `not_restored` and `not_journaled` are the failures of `Apply` behind
-- its checks: of the Xray manager, of the snapshot's file, of the file and then of the manager, and
-- of the journal's file.
pub data Failure : Type 0 where
  conflict stale not_applied not_saved not_restored not_journaled : Failure

pub record DesiredState : Type 0 where
  pub operation_id : String
  pub credential_id : String
  pub desired_revision : ℤ
  pub state : String
  pub protocol : String
  pub vless_client_uuid : String

pub record ApplyResult : Type 0 where
  pub operation_id : String
  pub credential_id : String
  pub desired_revision : ℤ
  pub state : String
  pub config_revision : ℤ
  pub applied_at : ℕ

pub record Credential : Type 0 where
  pub credential_id : String
  pub desired_revision : ℤ
  pub state : String
  pub protocol : String
  pub vless_client_uuid : String

pub record Snapshot : Type 0 where
  pub node_id : String
  pub config_revision : ℤ
  pub credentials : List (String × Credential)

pub record JournalEntry : Type 0 where
  pub operation_id : String
  pub request_hash : String
  pub result : ApplyResult
  pub completed_at : ℕ

pub record CredentialState : Type 0 where
  pub credential_id : String
  pub desired_revision : ℤ
  pub state : String
  pub config_revision : ℤ
