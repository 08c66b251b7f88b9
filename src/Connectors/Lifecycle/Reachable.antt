-- ===== src/Connectors/Lifecycle/Reachable.antt =====
-- The steps of the operations of internal/connectors/service.go keep the invariant.
use openremotecode_api.Prelude.{sym, subst}
use openremotecode_api.Connectors.Tx.{Db}
use openremotecode_api.Connectors.Service.{Service}
use openremotecode_api.Connectors.Lifecycle.{Watch, Inv}
use openremotecode_api.Connectors.Lifecycle.Steps.{
  Step, issues, begins, claims, confirms, polls, approves, cancels, rotates_device,
  activates_device, rotates_connector, activates_connector, revokes_connector,
  revokes_account_connector, revokes_account_device, renames, issues_browser_ticket,
  issues_connector_ticket, consumes, Reach, here, next,
}
use openremotecode_api.Connectors.Lifecycle.Preserved.{
  Inv-issue_challenge, Inv-begin_pairing, Inv-claim_pairing, Inv-confirm_pairing, Inv-poll_pairing,
  Inv-approve_pairing, Inv-cancel_pairing, Inv-rotate_device_credential,
  Inv-rotate_connector_credential, Inv-activate_device_credential,
  Inv-activate_connector_credential, Inv-revoke_connector, Inv-revoke_account_connector,
  Inv-revoke_account_device, Inv-rename_account_connector, Inv-issue_browser_ticket,
  Inv-issue_connector_ticket, Inv-consume_relay_ticket,
}

-- One call of an operation, whatever its arguments and its outcome, keeps the invariant.
pub Step-Inv :
    (w : Watch) (service : Service) (db db' : Db) → Inv w db → Step service db db' → Inv w db'
Step-Inv w service db db' i (issues call p u e) =
    subst (Inv w) (sym e) (Inv-issue_challenge w service call db i p u)
Step-Inv w service db db' i (begins call input e) =
    subst (Inv w) (sym e) (Inv-begin_pairing w service call db i input)
Step-Inv w service db db' i (claims call input e) =
    subst (Inv w) (sym e) (Inv-claim_pairing w service call db i input)
Step-Inv w service db db' i (confirms call u p d e) =
    subst (Inv w) (sym e) (Inv-confirm_pairing w service call db i u p d)
Step-Inv w service db db' i (polls call secret e) =
    subst (Inv w) (sym e) (Inv-poll_pairing w service call db i secret)
Step-Inv w service db db' i (approves call p secret key e) =
    subst (Inv w) (sym e) (Inv-approve_pairing w service call db i p secret key)
Step-Inv w service db db' i (cancels call p secret e) =
    subst (Inv w) (sym e) (Inv-cancel_pairing w service call db i p secret)
Step-Inv w service db db' i (rotates_device call u s d k e) =
    subst (Inv w) (sym e) (Inv-rotate_device_credential w service call db i u s d k)
Step-Inv w service db db' i (activates_device call u s d k e) =
    subst (Inv w) (sym e) (Inv-activate_device_credential w service call db i u s d k)
Step-Inv w service db db' i (rotates_connector call k e) =
    subst (Inv w) (sym e) (Inv-rotate_connector_credential w service call db i k)
Step-Inv w service db db' i (activates_connector call k e) =
    subst (Inv w) (sym e) (Inv-activate_connector_credential w service call db i k)
Step-Inv w service db db' i (revokes_connector call k e) =
    subst (Inv w) (sym e) (Inv-revoke_connector w service call db i k)
Step-Inv w service db db' i (revokes_account_connector call u k e) =
    subst (Inv w) (sym e) (Inv-revoke_account_connector w service call db i u k)
Step-Inv w service db db' i (revokes_account_device call u k e) =
    subst (Inv w) (sym e) (Inv-revoke_account_device w service call db i u k)
Step-Inv w service db db' i (renames call u k n e) =
    subst (Inv w) (sym e) (Inv-rename_account_connector w service call db i u k n)
Step-Inv w service db db' i (issues_browser_ticket call u s d k t e) =
    subst (Inv w) (sym e) (Inv-issue_browser_ticket w service call db i u s d k t)
Step-Inv w service db db' i (issues_connector_ticket call k e) =
    subst (Inv w) (sym e) (Inv-issue_connector_ticket w service call db i k)
Step-Inv w service db db' i (consumes call t e) =
    subst (Inv w) (sym e) (Inv-consume_relay_ticket w service call db i t)

pub Reach-Inv :
    (w : Watch) (service : Service) {db db' : Db} → Inv w db → Reach service db db' → Inv w db'
Reach-Inv w service i here = i
Reach-Inv w service i (next {a} {b} r st) = Step-Inv w service a b (Reach-Inv w service i r) st
