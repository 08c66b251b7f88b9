-- ===== src/Connectors/Ticket.antt =====
-- Relay tickets of internal/connectors/service.go: `IssueBrowserTicket`, `IssueConnectorTicket`,
-- `issueTicket` and `ConsumeRelayTicket`.
pub mod Admitted
use openremotecode_api.Prelude.{
  ℕ, ◌+◌, ◌*◌, ◌||◌, not, Option, none, some, [], ltb, nat_eq, is_some, is_none, if◌then◌else◌,
}
use openremotecode_api.Bytes.{Bytes, text, ◌==◌}
use openremotecode_api.Connectors.Errors.{Result, ok, err, unauthorized}
use openremotecode_api.Connectors.Types.{
  is_empty, PublicIdentity, Role, client, connector, other_role, is_client, RelayTicket, Admission,
}
use openremotecode_api.Connectors.Tx.{
  Tx, Db, pure, fail, ◌>>=◌, ◌>>◌, refuse, check, within_transaction, committed, attempt,
}
use openremotecode_api.Connectors.Tokens.{valid_token, issue_token, hash_secret}
use openremotecode_api.Connectors.Store.{
  device_by_credential_for_update, device_by_id_for_update, connector_by_credential_for_update,
  connector_by_id_for_update, create_relay_ticket, relay_ticket_for_update, save_relay_ticket,
}
use openremotecode_api.Connectors.Listing.{trusted_identities}
use openremotecode_api.Connectors.Service.{Service, Call, minute}
use openremotecode_api.Connectors.Credential.DeviceCredential.{cancel_pending_device_rotation}
use openremotecode_api.Connectors.Credential.ConnectorCredential.{cancel_pending_rotation}

pub record TicketResult : Type 0 where
  pub ticket : Bytes
  pub expires_at : ℕ

-- Whom a ticket is for: what the branches of `issueTicket` leave in its variables.
pub record Holder : Type 0 where
  pub user_id : Bytes
  pub subject_id : Bytes
  pub credential_id : Bytes
  pub identity : PublicIdentity
  pub authorization_expires_at : ℕ

-- `defaultAuthorizationLease`
abbrev pub authorization_lease : ℕ
authorization_lease = 5 * minute

-- The zero time is no bound; otherwise the earlier of the two.
abbrev pub bounded_by : ℕ → ℕ → ℕ
bounded_by authorization credential =
    if nat_eq authorization 0 || ltb credential authorization then credential else authorization

module _ (service : Service) (call : Call) where
  open service use {engine, lib}
  open call use {now, random}

  -- The expiry is there, since the credential lives.
  abbrev pub expiry : Option ℕ → Tx ℕ
  expiry none = fail unauthorized
  expiry (some t) = if ltb now t then pure t else fail unauthorized

  unfoldable pub device_holder : Bytes → Bytes → Bytes → Bytes → ℕ → Tx Holder
  device_holder user_id credential_id subject_id credential_hash authorization_expires_at = do
    device ← device_by_credential_for_update engine credential_hash
    refuse
        (not (device.id == subject_id)
          || not (device.user_id == user_id)
          || is_none device.activated_at
          || is_some device.revoked_at)
        unauthorized
    expires_at ← expiry device.credential_expires_at
    current ← cancel_pending_device_rotation service call device
    pure (record {
      user_id = user_id;
      subject_id = subject_id;
      credential_id = credential_id;
      identity = current.identity;
      authorization_expires_at = bounded_by authorization_expires_at expires_at;
    })

  unfoldable pub connector_holder : Bytes → Tx Holder
  connector_holder credential_hash = do
    found ← connector_by_credential_for_update engine credential_hash
    refuse (is_some found.revoked_at) unauthorized
    expires_at ← expiry found.credential_expires_at
    current ← cancel_pending_rotation service call found
    pure (record {
      user_id = current.user_id;
      subject_id = current.id;
      credential_id = current.id;
      identity = current.identity;
      authorization_expires_at = expires_at;
    })

  -- The transaction from the authorizers on.
  unfoldable pub store_ticket : Role → Bytes → Holder → Tx (Unit {0})
  store_ticket role ticket holder = do
    check (call.authorize_account holder.user_id)
    check (
        if is_client role then call.authorize_session holder.user_id holder.credential_id else none)
    create_relay_ticket engine (record {
      token_hash = hash_secret lib ticket;
      user_id = holder.user_id;
      role = role;
      subject_id = holder.subject_id;
      subject_key_id = holder.identity.key_id;
      credential_id = holder.credential_id;
      authorization_expires_at = some holder.authorization_expires_at;
      created_at = now;
      expires_at = now + service.ticket_lifetime;
      consumed_at = none;
    })

  -- `issueTicket`; who holds the ticket is found by `holder`.
  unfoldable pub issue_ticket : Role → Tx Holder → Db → Result TicketResult × Db
  issue_ticket role holder db = attempt (issue_token random (text "ort_")) db λ (ticket, _).
      committed (within_transaction (holder >>= store_ticket role ticket) db)
        λ _. ok (record { ticket = ticket; expires_at = now + service.ticket_lifetime })

  unfoldable pub issue_browser_ticket :
      Bytes → Bytes → Bytes → Bytes → ℕ → Db → Result TicketResult × Db
  issue_browser_ticket user_id session_id device_id credential authorization_expires_at db =
      if is_empty user_id
        || is_empty session_id
        || is_empty device_id
        || not (valid_token credential (text "ord_"))
      then (err unauthorized, db)
      else issue_ticket client
          (device_holder user_id session_id device_id (hash_secret lib credential)
            authorization_expires_at)
          db

  unfoldable pub issue_connector_ticket : Bytes → Db → Result TicketResult × Db
  issue_connector_ticket credential db =
      if not (valid_token credential (text "orc_"))
      then (err unauthorized, db)
      else issue_ticket connector (connector_holder (hash_secret lib credential)) db

  -- The subject of a ticket as it is now, by the ticket's role.
  unfoldable pub current_identity : RelayTicket → Role → Tx PublicIdentity
  current_identity ticket client = do
    device ← device_by_id_for_update engine ticket.subject_id
    refuse
        (not (device.user_id == ticket.user_id)
          || is_none device.activated_at
          || is_some device.revoked_at
          || not (device.identity.key_id == ticket.subject_key_id))
        unauthorized
    pure device.identity
  current_identity ticket connector = do
    found ← connector_by_id_for_update engine ticket.subject_id
    refuse
        (not (found.user_id == ticket.user_id)
          || is_some found.revoked_at
          || not (found.identity.key_id == ticket.subject_key_id))
        unauthorized
    pure found.identity
  current_identity ticket other_role = fail unauthorized

  -- The lease of an admission: five minutes, or what is left of the authorization.
  abbrev pub lease_until : ℕ → ℕ
  lease_until authorization =
      if ltb authorization (now + authorization_lease)
      then authorization
      else now + authorization_lease

  -- The reads and writes of a consumption, once the ticket is usable.
  unfoldable pub admit : RelayTicket → ℕ → Tx Admission
  admit ticket authorization = do
    check (call.authorize_account ticket.user_id)
    check (
        if is_client ticket.role
        then call.authorize_session ticket.user_id ticket.credential_id
        else none)
    identity ← current_identity ticket ticket.role
    trusted ← trusted_identities engine ticket.user_id ticket.role ticket.subject_id
    save_relay_ticket engine (record ticket { consumed_at = some now })
    pure (record {
      user_id = ticket.user_id;
      role = ticket.role;
      subject_id = ticket.subject_id;
      session_id = if is_client ticket.role then ticket.credential_id else [];
      identity = identity;
      trusted_identities = trusted;
      authorization_expires_at = lease_until authorization;
    })

  unfoldable pub consume_transaction : Bytes → Tx Admission
  consume_transaction ticket = do
    found ← relay_ticket_for_update engine (hash_secret lib ticket)
    refuse (is_some found.consumed_at || not (ltb now found.expires_at)) unauthorized
    authorization ← expiry found.authorization_expires_at
    admit found authorization

  unfoldable pub consume_relay_ticket : Bytes → Db → Result Admission × Db
  consume_relay_ticket ticket db =
      if not (valid_token ticket (text "ort_"))
      then (err unauthorized, db)
      else committed (within_transaction (consume_transaction ticket) db) ok
