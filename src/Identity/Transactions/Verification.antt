-- ===== src/Identity/Transactions/Verification.antt =====
-- The transactions of `reissueVerification`, `VerifyEmail` and `ResendVerification` of
-- internal/identity/service.go.
use openremotecode_api.Prelude.{
  ℕ, ◌+◌, Bool, false, ◌&&◌, ◌||◌, not, Option, some, none, ltb, leb, if◌then◌else◌,
}
use openremotecode_api.Bytes.{Bytes, ◌==◌}
use openremotecode_api.Database.Transaction.{pure, lift, ◌>>=◌, ◌>>◌}
use openremotecode_api.Identity.Db.{Tx, optional}
use openremotecode_api.Identity.Types.{
  User, is_pending, EmailVerification, Credentials, verification_reissued, email_verified,
  verification_resent,
}
use openremotecode_api.Identity.Store.{
  email_verification_by_user_id_for_update, email_verification_for_update,
  replace_email_verification, increment_email_verification_attempts, delete_email_verification,
  user_by_id, activate_user, activated, append_audit_event,
}
use openremotecode_api.Identity.Service.{
  Service, minimum_resend_interval, max_verification_attempts,
}
use openremotecode_api.Identity.Materials.{
  VerificationMaterial, new_session_material, new_verification_material, audit_event,
  account_audit_event,
}
use openremotecode_api.Identity.Transactions.{persist_session_material}

-- How a resend ends when it commits.
pub data ResendOutcome : Type 0 where
  throttled refused : ResendOutcome
  reissued : VerificationMaterial → User → ResendOutcome

-- Within the cooldown of a challenge that is still open.
abbrev pub keeps_code : ℕ → Option EmailVerification → Bool
keeps_code now none = false
keeps_code now (some existing) =
    ltb now existing.expires_at && ltb now (existing.created_at + minimum_resend_interval)

-- The record to store: in the cooldown the outstanding code is kept, and its attempts with it.
unfoldable pub reissued_record :
    ℕ → EmailVerification → Option EmailVerification → EmailVerification
reissued_record now stored none = stored
reissued_record now stored (some existing) =
    if keeps_code now (some existing)
    then record stored {
      code_hash = existing.code_hash;
      created_at = existing.created_at;
      attempts = existing.attempts;
    }
    else stored

module _ (service : Service) where
  open service use {engine}

  -- Whether the outstanding code was kept.
  unfoldable pub reissue_transaction : User → EmailVerification → ℕ → Tx Bool
  reissue_transaction user stored now = do
    existing ← optional (email_verification_by_user_id_for_update engine user.id)
    replace_email_verification engine (reissued_record now stored existing)
    append_audit_event engine (account_audit_event verification_reissued user.id now)
    pure (keeps_code now existing)

  -- The right code for a user that is found.
  unfoldable pub verify_user : EmailVerification → ℕ → Bytes → User → Tx (Option Credentials)
  verify_user found now random user = if not (is_pending user.status) then pure none else do
    material ←
        lift
          (new_session_material service (activated now user.account) found.client_name now random)
    activate_user engine found.user_id now
    delete_email_verification engine found.user_id
    persist_session_material engine material
    append_audit_event engine (audit_event email_verified user.id material.session.id now)
    pure (some material.credentials)

  -- Closed is a challenge past its end or out of attempts. A wrong code is counted, and commits.
  unfoldable pub verify_found :
      Bytes → ℕ → Bytes → Option EmailVerification → Tx (Option Credentials)
  verify_found code_hash now random none = pure none
  verify_found code_hash now random (some found) =
      if not (ltb now found.expires_at) || leb max_verification_attempts found.attempts
      then pure none
      else if not (found.code_hash == code_hash)
      then increment_email_verification_attempts engine found.user_id >> pure none
      else user_by_id engine found.user_id >>= verify_user found now random

  unfoldable pub verify_transaction : Bytes → Bytes → ℕ → Bytes → Tx (Option Credentials)
  verify_transaction ticket_hash code_hash now random =
      optional (email_verification_for_update engine ticket_hash)
      >>= verify_found code_hash now random

  unfoldable pub resend_user : EmailVerification → ℕ → Bytes → User → Tx ResendOutcome
  resend_user found now random user = if not (is_pending user.status) then pure refused else do
    (material, _) ←
        lift (new_verification_material service user.account found.client_name now random)
    replace_email_verification engine material.stored
    append_audit_event engine (account_audit_event verification_resent user.id now)
    pure (reissued material user)

  unfoldable pub resend_found : ℕ → Bytes → Option EmailVerification → Tx ResendOutcome
  resend_found now random none = pure refused
  resend_found now random (some found) =
      if ltb now (found.created_at + minimum_resend_interval)
      then pure throttled
      else user_by_id engine found.user_id >>= resend_user found now random

  unfoldable pub resend_transaction : Bytes → ℕ → Bytes → Tx ResendOutcome
  resend_transaction ticket_hash now random =
      optional (email_verification_for_update engine ticket_hash) >>= resend_found now random
