-- ===== src/Connectors/Lifecycle/Reviews.antt =====
-- What polling, approving and cancelling a pairing keeps.
use openremotecode_api.Prelude.{
  ℕ, ◌≡◌, true, Option, some, none, arith, is_some, Bool-cases, inl, inr, ltb,
}
use openremotecode_api.Bytes.{Bytes}
use openremotecode_api.Connectors.Types.{
  Pairing, PairingState, pending, verification, confirmed, completed, expired, is_verification,
  is_expired, is_completed, PairingTranscript,
}
use openremotecode_api.Connectors.Service.{Service, Call}
use openremotecode_api.Connectors.Pairing.Poll.{
  shown_transcript, poll_completed, poll_state, poll_over, poll_transaction,
}
use openremotecode_api.Connectors.Pairing.Approve.{
  approve_device, approve_live, approve_over, approve_transaction, cancel_transaction,
}
use openremotecode_api.Connectors.Lifecycle.{
  Watch, Stage, IsStaged, DeviceOk, ConnectorOk, Yields, Anything, Yields-pure, Yields-fail,
  Yields-refuse, Yields-bind,
}
use openremotecode_api.Connectors.Lifecycle.Stores
use openremotecode_api.Connectors.Lifecycle.Creates

-- The approval of a pairing under verification leaves it at its stage.
reviewed :
    (s : PairingState) (r : Option ℕ) (u d c : Option Bytes) (now : ℕ)
    → is_verification s ≡ true
    → Stage s r u d c
    → Stage s (some now) u d c
reviewed pending r u d c now e h = absurd (ground arith)
reviewed verification r u d c now e h = h
reviewed confirmed r u d c now e h = h
reviewed completed r u d c now e h = absurd (ground arith)
reviewed expired r u d c now e h = tt

module _ (w : Watch) (service : Service) (call : Call) where
  open service use {engine, lib}

  Yields-shown_transcript :
      (p : Pairing) (o : Option Bytes) → Yields w Anything (shown_transcript service call p o)
  unfolding shown_transcript
  Yields-shown_transcript p none = Yields-pure Anything none tt
  Yields-shown_transcript p (some id) =
      Yields-bind (DeviceOk w) Anything _ _ (Stores.Yields-device_by_id_for_update w engine id)
        λ _ _. Yields-pure Anything _ tt

  Yields-poll_completed :
      (secret : Bytes) (p : Pairing) (t : Option PairingTranscript) (c : Bytes)
      → Yields w Anything (poll_completed service call secret p t c)
  unfolding poll_completed
  Yields-poll_completed secret p t c =
      Yields-bind (ConnectorOk w) Anything _ _ (Stores.Yields-connector_by_id_for_update w engine c)
        λ _ _.
          Yields-refuse Anything _ _ _
            λ _. Yields-refuse Anything _ _ _ λ _. Yields-pure Anything _ tt

  -- No pairing is in the state `confirmed`, so its branch is not reached.
  Yields-poll_state :
      (secret : Bytes) (p : Pairing) (t : Option PairingTranscript) (s : PairingState)
      (r : Option ℕ) (u d c : Option Bytes)
      → Stage s r u d c
      → Yields w Anything (poll_state service call secret p t s c)
  Yields-poll_state secret p t completed r u d (some c) h = Yields-poll_completed secret p t c
  Yields-poll_state secret p t confirmed r u d c h = absurd h
  Yields-poll_state secret p t _ r u d c h = Yields-pure Anything _ tt

  Yields-poll_over : (p : Pairing) → Yields w Anything (poll_over service call p)
  unfolding poll_over
  Yields-poll_over p = elim (Bool-cases (is_completed p.state)) [
    | inl e ↦ rw e (Yields-fail Anything _)
    | inr e ↦ rw e (
        Yields-bind Anything Anything _ _ (Stores.Yields-save_pairing w engine _ (tt {0}))
          λ _ _. Yields-pure Anything _ tt)
  ]

  pub Yields-poll_transaction :
      (secret : Bytes) → Yields w Anything (poll_transaction service call secret)
  unfolding poll_transaction
  Yields-poll_transaction secret =
      Yields-bind IsStaged Anything _ _ (Stores.Yields-pairing_by_secret_for_update w engine _)
        λ p h. elim (Bool-cases (ltb call.now p.expires_at)) [
          | inl e ↦ rw e (
              Yields-bind Anything Anything _ _ (Yields-shown_transcript p p.device_id)
                λ t _. Yields-poll_state secret p t p.state _ _ _ p.connector_id h)
          | inr e ↦ rw e (Yields-poll_over p)
        ]

  Yields-approve_device :
      (p : Pairing)
      → is_verification p.state ≡ true
      → IsStaged p
      → Yields w Anything (approve_device service call p)
  unfolding approve_device
  Yields-approve_device p s h = elim (Bool-cases (is_some p.connector_reviewed_at)) [
    | inl e ↦ rw e (Yields-pure Anything _ tt)
    | inr e ↦ rw e (
        Yields-bind Anything Anything _ _
          (Stores.Yields-save_pairing w engine _ (reviewed p.state _ _ _ _ call.now s h))
          λ _ _.
            Yields-bind Anything Anything _ _ (Creates.Yields-append_audit_event w engine _)
              λ _ _. Yields-pure Anything _ tt)
  ]

  Yields-approve_live :
      (key : Bytes) (p : Pairing) (o : Option Bytes)
      → IsStaged p
      → Yields w Anything (approve_live service call key p o)
  unfolding approve_live
  Yields-approve_live key p none h = Yields-fail Anything _
  Yields-approve_live key p (some id) h = Yields-refuse Anything _ _ _ λ checked.
      Yields-bind (DeviceOk w) Anything _ _ (Stores.Yields-device_by_id_for_update w engine id)
        λ _ _. Yields-refuse Anything _ _ _ λ _. Yields-approve_device p (ground arith) h

  Yields-approve_over : (p : Pairing) → Yields w Anything (approve_over service call p)
  unfolding approve_over
  Yields-approve_over p = elim (Bool-cases (is_completed p.state)) [
    | inl e ↦ rw e (Yields-fail Anything _)
    | inr e ↦ rw e (
        Yields-bind Anything Anything _ _ (Stores.Yields-save_pairing w engine _ (tt {0}))
          λ _ _. Yields-pure Anything _ tt)
  ]

  pub Yields-approve_transaction :
      (id secret key : Bytes) → Yields w Anything (approve_transaction service call id secret key)
  unfolding approve_transaction
  Yields-approve_transaction id secret key =
      Yields-bind IsStaged Anything _ _ (Stores.Yields-pairing_by_secret_for_update w engine _)
        λ p h. Yields-refuse Anything _ _ _ λ _. elim (Bool-cases (is_expired p.state)) [
          | inl e ↦ rw e (Yields-pure Anything _ tt)
          | inr e ↦ rw e (elim (Bool-cases (ltb call.now p.expires_at)) [
            | inl q ↦ rw q (Yields-approve_live key p p.device_id h)
            | inr q ↦ rw q (Yields-approve_over p)
          ])
        ]

  pub Yields-cancel_transaction :
      (id secret : Bytes) → Yields w Anything (cancel_transaction service call id secret)
  unfolding cancel_transaction
  Yields-cancel_transaction id secret =
      Yields-bind IsStaged Anything _ _ (Stores.Yields-pairing_by_secret_for_update w engine _)
        λ p h. Yields-refuse Anything _ _ _ λ _. elim (Bool-cases (is_expired p.state)) [
          | inl e ↦ rw e (Yields-pure Anything tt tt)
          | inr e ↦ rw e (
              Yields-refuse Anything _ _ _ λ _.
                Yields-bind Anything Anything _ _ (Stores.Yields-save_pairing w engine _ (tt {0}))
                  λ _ _. Creates.Yields-append_audit_event w engine _)
        ]
