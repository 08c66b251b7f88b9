-- ===== src/Identity/Lifecycle.antt =====
-- What every operation of internal/identity keeps: a revoked session stays revoked, a used refresh
-- credential stays used, an account that was activated stays so, and sessions and provider links
-- belong to such accounts alone.
pub mod Statements
pub mod Stores
pub mod Users
pub mod Rules
pub mod Transactions
pub mod Operations
pub mod Preserved
pub mod Entries
pub mod Steps
pub mod Lockout
pub mod Exchange
pub mod Spend
pub mod Reuse
pub mod Refusals
pub mod Finality
use openremotecode_api.Prelude.{
  ℕ, ◌≡◌, Bool, true, false, ◌&&◌, not, Option, List, [], ◌∷◌, map, All,
}
use openremotecode_api.Bytes.{Bytes, ◌==◌}
use openremotecode_api.Database.Rows.{any}
use openremotecode_api.Database.Watch.{Watched}
use openremotecode_api.Database.Keys.{Distinct}
use openremotecode_api.Database.Updates.{All-weaken}
use openremotecode_api.Database.Transaction.Triples.{Triple}
use openremotecode_api.Identity.Types.{
  User, is_pending, Session, RefreshCredential, FederatedIdentity, EmailVerification, AuditEvent,
}
use openremotecode_api.Identity.Db.{Db, Tx}

-- The account is there and is no longer pending.
abbrev pub Enrolled : Bytes → List User → Type 0
Enrolled id users = any (λ u. (u.id == id) && not (is_pending u.status)) users ≡ true

-- What is watched: a revoked session and a used refresh credential, or none; and enrolled accounts.
pub record Watch : Type 0 where
  pub session : Option Bytes
  pub refresh : Option Bytes
  pub accounts : List Bytes

pub record Inv (w : Watch) (db : Db) : Type 0 where
  pub sessions :
      Watched (λ (s : Session). s.id) (λ (s : Session). s.revoked_at) w.session db.sessions
  pub refreshes :
      Watched
        (λ (r : RefreshCredential). r.token_hash)
        (λ (r : RefreshCredential). r.used_at)
        w.refresh
        db.refresh_credentials
  pub accounts : All (λ id. Enrolled id db.users) w.accounts
  pub owners : All (λ (s : Session). Enrolled s.user_id db.users) db.sessions
  pub links : All (λ (f : FederatedIdentity). Enrolled f.user_id db.users) db.federated_identities
  pub user_ids : Distinct (map (λ (u : User). u.id) db.users)
  pub session_ids : Distinct (map (λ (s : Session). s.id) db.sessions)
  pub hashes : Distinct (map (λ (r : RefreshCredential). r.token_hash) db.refresh_credentials)

-- One more account is enrolled.
abbrev pub also : Bytes → Watch → Watch
also id w = record w { accounts = id ∷ w.accounts }

abbrev pub Keeps : Watch → {A : Type 0} → Tx A → Type 0
Keeps w m = Triple (Inv w) m (λ _ db. Inv w db)

module _ (w : Watch) (id : Bytes) (db : Db) where
  pub Inv-also : Inv w db → Enrolled id db.users → Inv (also id w) db
  Inv-also i e = record {
    sessions = i.sessions;
    refreshes = i.refreshes;
    accounts = (e, i.accounts);
    owners = i.owners;
    links = i.links;
    user_ids = i.user_ids;
    session_ids = i.session_ids;
    hashes = i.hashes;
  }

  pub Inv-forget : Inv (also id w) db → Inv w db
  Inv-forget i = record {
    sessions = i.sessions;
    refreshes = i.refreshes;
    accounts = i.accounts.1;
    owners = i.owners;
    links = i.links;
    user_ids = i.user_ids;
    session_ids = i.session_ids;
    hashes = i.hashes;
  }

-- The invariant where one table is given anew.
module _ (w : Watch) (db : Db) where
  pub Inv-sessions :
      (t : List Session)
      → Watched (λ (s : Session). s.id) (λ (s : Session). s.revoked_at) w.session t
      → All (λ (s : Session). Enrolled s.user_id db.users) t
      → Distinct (map (λ (s : Session). s.id) t)
      → Inv w db
      → Inv w (record db { sessions = t })
  Inv-sessions t watched owned distinct i = record {
    sessions = watched;
    refreshes = i.refreshes;
    accounts = i.accounts;
    owners = owned;
    links = i.links;
    user_ids = i.user_ids;
    session_ids = distinct;
    hashes = i.hashes;
  }

  pub Inv-refreshes :
      (t : List RefreshCredential)
      → Watched
          (λ (r : RefreshCredential). r.token_hash)
          (λ (r : RefreshCredential). r.used_at)
          w.refresh
          t
      → Distinct (map (λ (r : RefreshCredential). r.token_hash) t)
      → Inv w db
      → Inv w (record db { refresh_credentials = t })
  Inv-refreshes t watched distinct i = record {
    sessions = i.sessions;
    refreshes = watched;
    accounts = i.accounts;
    owners = i.owners;
    links = i.links;
    user_ids = i.user_ids;
    session_ids = i.session_ids;
    hashes = distinct;
  }

  pub Inv-links :
      (t : List FederatedIdentity)
      → All (λ (f : FederatedIdentity). Enrolled f.user_id db.users) t
      → Inv w db
      → Inv w (record db { federated_identities = t })
  Inv-links t owned i = record {
    sessions = i.sessions;
    refreshes = i.refreshes;
    accounts = i.accounts;
    owners = i.owners;
    links = owned;
    user_ids = i.user_ids;
    session_ids = i.session_ids;
    hashes = i.hashes;
  }

  pub Inv-verifications :
      (t : List EmailVerification) → Inv w db → Inv w (record db { email_verifications = t })
  Inv-verifications t i = record {
    sessions = i.sessions;
    refreshes = i.refreshes;
    accounts = i.accounts;
    owners = i.owners;
    links = i.links;
    user_ids = i.user_ids;
    session_ids = i.session_ids;
    hashes = i.hashes;
  }

  pub Inv-events : (t : List AuditEvent) → Inv w db → Inv w (record db { audit_events = t })
  Inv-events t i = record {
    sessions = i.sessions;
    refreshes = i.refreshes;
    accounts = i.accounts;
    owners = i.owners;
    links = i.links;
    user_ids = i.user_ids;
    session_ids = i.session_ids;
    hashes = i.hashes;
  }

  -- No account may leave the enrolled ones.
  pub Inv-users :
      (t : List User)
      → ((id : Bytes) → Enrolled id db.users → Enrolled id t)
      → Distinct (map (λ (u : User). u.id) t)
      → Inv w db
      → Inv w (record db { users = t })
  Inv-users t still distinct i = record {
    sessions = i.sessions;
    refreshes = i.refreshes;
    accounts = All-weaken _ _ w.accounts still i.accounts;
    owners = All-weaken _ _ db.sessions (λ s. still s.user_id) i.owners;
    links = All-weaken _ _ db.federated_identities (λ f. still f.user_id) i.links;
    user_ids = distinct;
    session_ids = i.session_ids;
    hashes = i.hashes;
  }
