-- ===== src/Identity/Materials.antt =====
-- What internal/identity/service.go makes before it stores anything: the material of a session and
-- of a verification, and audit events.
use openremotecode_api.Prelude.{ℕ, zero, ◌+◌, some, none}
use openremotecode_api.Bytes.{Bytes, text}
use openremotecode_api.Database.Transaction.{ok}
use openremotecode_api.Identity.Types.{
  Account, Session, RefreshCredential, Credentials, EmailVerification, VerificationChallenge,
  AuditEvent, EventType,
}
use openremotecode_api.Identity.Db.{Result}
use openremotecode_api.Identity.Tokens.{
  ◌>>=◌, issue_identifier, issue_token, issue_verification_code,
}
use openremotecode_api.Identity.Validation.{hash_token}
use openremotecode_api.Identity.Service.{Service, verification_code_lifetime}

pub record SessionMaterial : Type 0 where
  pub session : Session
  pub refresh : RefreshCredential
  pub credentials : Credentials

pub record VerificationMaterial : Type 0 where
  pub challenge : VerificationChallenge
  pub stored : EmailVerification
  pub code : Bytes

module _ (service : Service) where
  open service use {lib}

  abbrev pub session_material : Account → Bytes → ℕ → Bytes → Bytes → Bytes → SessionMaterial
  session_material account client_name now session_id access_token refresh_token = record {
    session = record {
      id = session_id;
      user_id = account.id;
      access_token_hash = hash_token lib access_token;
      access_token_expires_at = now + service.access_lifetime;
      refresh_expires_at = now + service.refresh_lifetime;
      client_name = client_name;
      created_at = now;
      last_refreshed_at = now;
      revoked_at = none;
    };
    refresh = record {
      token_hash = hash_token lib refresh_token;
      session_id = session_id;
      expires_at = now + service.refresh_lifetime;
      created_at = now;
      used_at = none;
    };
    credentials = record {
      account = account;
      access_token = access_token;
      access_token_expires_at = now + service.access_lifetime;
      refresh_token = refresh_token;
      refresh_token_expires_at = now + service.refresh_lifetime;
    };
  }

  unfoldable pub new_session_material : Account → Bytes → ℕ → Bytes → Result SessionMaterial
  unfolding ◌>>=◌
  new_session_material account client_name now random = do
    (session_id, random) ← issue_identifier random (text "asn_")
    (access_token, random) ← issue_token random (text "ora_")
    (refresh_token, _) ← issue_token random (text "orr_")
    ok (session_material account client_name now session_id access_token refresh_token)

  -- What the random source has left is handed on.
  unfoldable pub new_verification_material :
      Account → Bytes → ℕ → Bytes → Result (VerificationMaterial × Bytes)
  unfolding ◌>>=◌
  new_verification_material account client_name now random = do
    (ticket, random) ← issue_token random (text "vft_")
    (code, random) ← issue_verification_code random
    ok (
      record {
        challenge = record {
          account = account;
          ticket = ticket;
          ticket_expires_at = now + verification_code_lifetime;
        };
        stored = record {
          user_id = account.id;
          ticket_hash = hash_token lib ticket;
          code_hash = hash_token lib code;
          client_name = client_name;
          attempts = zero;
          expires_at = now + verification_code_lifetime;
          created_at = now;
        };
        code = code;
      },
      random,
    )

unfoldable pub audit_event : EventType → Bytes → Bytes → ℕ → AuditEvent
audit_event event_type user_id session_id occurred_at = record {
  user_id = some user_id;
  session_id = some session_id;
  event_type = event_type;
  occurred_at = occurred_at;
}

unfoldable pub account_audit_event : EventType → Bytes → ℕ → AuditEvent
account_audit_event event_type user_id occurred_at = record {
  user_id = some user_id;
  session_id = none;
  event_type = event_type;
  occurred_at = occurred_at;
}

unfoldable pub anonymous_audit_event : EventType → ℕ → AuditEvent
anonymous_audit_event event_type occurred_at = record {
  user_id = none;
  session_id = none;
  event_type = event_type;
  occurred_at = occurred_at;
}
