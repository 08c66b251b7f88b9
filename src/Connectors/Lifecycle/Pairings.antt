-- ===== src/Connectors/Lifecycle/Pairings.antt =====
-- What the pairing operations of internal/connectors/service.go keep.
use openremotecode_api.Prelude.{refl, Option, some, none, Bool-cases, inl, inr, leb, ltb}
use openremotecode_api.Bytes.{Bytes}
use openremotecode_api.Connectors.Types.{Pairing, Device, ClaimFailureCounts}
use openremotecode_api.Connectors.Service.{Service, Call}
use openremotecode_api.Connectors.Pairing.Begin.{BeginPairingInput, begin_transaction}
use openremotecode_api.Connectors.Pairing.Claim.{
  ClaimPairingInput, check_claim_failures, device_for_claim, claim_live, claim_found,
  claim_transaction, over_budget,
}
use openremotecode_api.Connectors.Lifecycle.{
  Watch, IsStaged, DeviceOk, Maybe, Yields, Anything, Yields-pure, Yields-fail, Yields-refuse,
  Yields-weaken, Yields-optional, Yields-bind, Yields-lift,
}
use openremotecode_api.Connectors.Lifecycle.Stores
use openremotecode_api.Connectors.Lifecycle.Creates

-- A revoked watched row is turned away, so a row that passed is not watched; its new version keeps
-- the stamp anyway.
module _ (w : Watch) (service : Service) (call : Call) where
  open service use {engine, lib}

  pub Yields-begin_transaction :
      (input : BeginPairingInput) (p : Pairing)
      → IsStaged p
      → Yields w Anything (begin_transaction service call input p)
  unfolding begin_transaction
  Yields-begin_transaction input p h =
      Yields-bind Anything Anything _ _ (Stores.Yields-challenge_for_update w engine _) λ c _.
        Yields-refuse Anything _ _ _ λ _.
          Yields-bind Anything Anything _ _ (Creates.Yields-save_challenge w engine _) λ _ _.
            Yields-bind Anything Anything _ _ (Creates.Yields-expire_pairings_for_key w engine _ _)
              λ _ _. Creates.Yields-create_pairing w engine p h

  Yields-over_budget : (c : ClaimFailureCounts) → Yields w Anything (over_budget service call c)
  Yields-over_budget c = elim (Bool-cases (leb service.account_claim_failure_limit c.account)) [
    | inl e ↦ rw e (Yields-fail Anything _)
    | inr e ↦ rw e (elim (Bool-cases (leb service.global_claim_failure_limit c.global)) [
      | inl q ↦ rw q (Yields-fail Anything _)
      | inr q ↦ rw q (Yields-pure Anything tt tt)
    ])
  ]

  Yields-check_claim_failures :
      (u : Bytes) → Yields w Anything (check_claim_failures service call u)
  unfolding check_claim_failures
  Yields-check_claim_failures u =
      Yields-bind Anything Anything _ _ (Creates.Yields-claim_failures_for_update w engine u _ _)
        λ counts _. Yields-over_budget counts

  Yields-device_for_claim :
      (input : ClaimPairingInput) (name : Bytes) (o : Option Device)
      → Yields w Anything (device_for_claim service call input name o)
  unfolding device_for_claim
  Yields-device_for_claim input name (some d) =
      Yields-refuse Anything _ _ _ λ _. Yields-pure Anything d tt
  Yields-device_for_claim input name none = Yields-lift Anything _ _ λ issued _.
      Yields-bind Anything Anything _ _ (Creates.Yields-create_device w engine _)
        λ _ _. Yields-pure Anything _ tt

  Yields-claim_live :
      (input : ClaimPairingInput) (name : Bytes) (p : Pairing)
      → IsStaged p
      → Yields w Anything (claim_live service call input name p)
  unfolding claim_live
  Yields-claim_live input name p h = Yields-refuse Anything _ _ _ λ _.
      Yields-bind Anything Anything _ _
        (Yields-weaken (Maybe (DeviceOk w)) Anything _ (λ _ _. tt)
          (Yields-optional (DeviceOk w) _ (Stores.Yields-device_by_key_id_for_update w engine _)))
        λ known _.
          Yields-bind Anything Anything _ _ (Yields-device_for_claim input name known) λ d _.
            Yields-bind Anything Anything _ _ (Stores.Yields-save_pairing w engine _ (refl, refl))
              λ _ _.
                Yields-bind Anything Anything _ _ (Creates.Yields-append_audit_event w engine _)
                  λ _ _. Yields-pure Anything _ tt

  Yields-claim_found :
      (input : ClaimPairingInput) (name : Bytes) (o : Option Pairing)
      → Maybe IsStaged o
      → Yields w Anything (claim_found service call input name o)
  unfolding claim_found
  Yields-claim_found input name none h =
      Yields-bind Anything Anything _ _ (Creates.Yields-record_claim_failure w engine _ _ _)
        λ _ _. Yields-pure Anything _ tt
  Yields-claim_found input name (some p) h = elim (Bool-cases (ltb call.now p.expires_at)) [
    | inl e ↦ rw e (Yields-claim_live input name p h)
    | inr e ↦ rw e (
        Yields-bind Anything Anything _ _ (Stores.Yields-save_pairing w engine _ (tt {0}))
          λ _ _. Yields-pure Anything _ tt)
  ]

  pub Yields-claim_transaction :
      (input : ClaimPairingInput) (name code : Bytes)
      → Yields w Anything (claim_transaction service call input name code)
  unfolding claim_transaction
  Yields-claim_transaction input name code = Yields-refuse Anything _ _ _ λ _.
      Yields-bind Anything Anything _ _ (Stores.Yields-challenge_for_update w engine _) λ c _.
        Yields-refuse Anything _ _ _ λ _.
          Yields-bind Anything Anything _ _ (Yields-check_claim_failures _) λ _ _.
            Yields-bind Anything Anything _ _ (Creates.Yields-save_challenge w engine _) λ _ _.
              Yields-bind (Maybe IsStaged) Anything _ _
                (Yields-optional IsStaged _ (Stores.Yields-pairing_by_code_for_update w engine _))
                λ o h. Yields-claim_found input name o h
