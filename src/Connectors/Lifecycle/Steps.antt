-- ===== src/Connectors/Lifecycle/Steps.antt =====
-- The operations of internal/connectors/service.go as steps between databases. Each call has its own
-- time, random bytes and authorizers, and calls follow one another in any order. The operations that
-- only read are not steps.
use openremotecode_api.Prelude.{ℕ, ◌≡◌, Option, []}
use openremotecode_api.Bytes.{Bytes}
use openremotecode_api.Connectors.Types.{Purpose}
use openremotecode_api.Connectors.Tx.{Db}
use openremotecode_api.Connectors.Service.{Service, Call}
use openremotecode_api.Connectors.Pairing.Begin.{BeginPairingInput, issue_challenge, begin_pairing}
use openremotecode_api.Connectors.Pairing.Claim.{ClaimPairingInput, claim_pairing}
use openremotecode_api.Connectors.Pairing.Confirm.{confirm_pairing}
use openremotecode_api.Connectors.Pairing.Poll.{poll_pairing}
use openremotecode_api.Connectors.Pairing.Approve.{approve_pairing, cancel_pairing}
use openremotecode_api.Connectors.Credential.DeviceCredential.{
  rotate_device_credential, activate_device_credential,
}
use openremotecode_api.Connectors.Credential.ConnectorCredential.{
  rotate_connector_credential, activate_connector_credential,
}
use openremotecode_api.Connectors.Revoke.{
  revoke_connector, revoke_account_connector, revoke_account_device, rename_account_connector,
}
use openremotecode_api.Connectors.Ticket.{
  issue_browser_ticket, issue_connector_ticket, consume_relay_ticket,
}

-- `db'` is what one call of an operation leaves of `db`.
pub data Step (service : Service) (db db' : Db) : Type 0 where
  issues :
      (call : Call) (p : Purpose) (u : Option Bytes)
      → db' ≡ (issue_challenge service call p u db).1
      → Step service db db'
  begins :
      (call : Call) (input : BeginPairingInput)
      → db' ≡ (begin_pairing service call input db).1
      → Step service db db'
  claims :
      (call : Call) (input : ClaimPairingInput)
      → db' ≡ (claim_pairing service call input db).1
      → Step service db db'
  confirms :
      (call : Call) (u p d : Bytes)
      → db' ≡ (confirm_pairing service call u p d db).1
      → Step service db db'
  polls :
      (call : Call) (secret : Bytes)
      → db' ≡ (poll_pairing service call secret db).1
      → Step service db db'
  approves :
      (call : Call) (p secret key : Bytes)
      → db' ≡ (approve_pairing service call p secret key db).1
      → Step service db db'
  cancels :
      (call : Call) (p secret : Bytes)
      → db' ≡ (cancel_pairing service call p secret db).1
      → Step service db db'
  rotates_device :
      (call : Call) (u s d k : Bytes)
      → db' ≡ (rotate_device_credential service call u s d k db).1
      → Step service db db'
  activates_device :
      (call : Call) (u s d k : Bytes)
      → db' ≡ (activate_device_credential service call u s d k db).1
      → Step service db db'
  rotates_connector :
      (call : Call) (k : Bytes)
      → db' ≡ (rotate_connector_credential service call k db).1
      → Step service db db'
  activates_connector :
      (call : Call) (k : Bytes)
      → db' ≡ (activate_connector_credential service call k db).1
      → Step service db db'
  revokes_connector :
      (call : Call) (k : Bytes) → db' ≡ (revoke_connector service call k db).1 → Step service db db'
  revokes_account_connector :
      (call : Call) (u k : Bytes)
      → db' ≡ (revoke_account_connector service call u k db).1
      → Step service db db'
  revokes_account_device :
      (call : Call) (u k : Bytes)
      → db' ≡ (revoke_account_device service call u k db).1
      → Step service db db'
  renames :
      (call : Call) (u k n : Bytes)
      → db' ≡ (rename_account_connector service call u k n db).1
      → Step service db db'
  issues_browser_ticket :
      (call : Call) (u s d k : Bytes) (t : ℕ)
      → db' ≡ (issue_browser_ticket service call u s d k t db).1
      → Step service db db'
  issues_connector_ticket :
      (call : Call) (k : Bytes)
      → db' ≡ (issue_connector_ticket service call k db).1
      → Step service db db'
  consumes :
      (call : Call) (t : Bytes)
      → db' ≡ (consume_relay_ticket service call t db).1
      → Step service db db'

pub data Reach (service : Service) (db : Db) : Db → Type 0 where
  here : Reach service db db
  next : {a b : Db} → Reach service db a → Step service a b → Reach service db b

-- The tables that a migration creates.
abbrev pub empty_db : Db
empty_db = record {
  challenges = [];
  pairings = [];
  devices = [];
  connectors = [];
  trusts = [];
  claim_failures = [];
  relay_tickets = [];
  audit_events = [];
}
