-- ===== src/Identity/Service.antt =====
-- The `Service` of internal/identity/service.go, its constructor, what a call of it meets, and the
-- state around it: the tables, the mails that were sent and the revocations that were announced.
use openremotecode_api.Prelude.{ℕ, ℤ, pos, negsuc, ◌*◌, Bool, Option, List, nat_eq, if◌then◌else◌}
use openremotecode_api.Bytes.{Bytes, text}
use openremotecode_api.Database.{Engine}
use openremotecode_api.Database.Transaction.{ok, err}
use openremotecode_api.Identity.Errors.{Error}
use openremotecode_api.Identity.Types.{GoogleIdentity, Delivery}
use openremotecode_api.Identity.Db.{Db, Result}
use openremotecode_api.Identity.Validation.{Library}

abbrev pub second : ℕ
second = 1_000_000_000

abbrev pub minute : ℕ
minute = 60 * second

abbrev pub hour : ℕ
hour = 60 * minute

abbrev pub verification_code_lifetime : ℕ
verification_code_lifetime = 10 * minute

abbrev pub max_verification_attempts : ℕ
max_verification_attempts = 8

abbrev pub minimum_resend_interval : ℕ
minimum_resend_interval = 30 * second

-- The repository's engine, the library's functions, the two collaborators that may be nil, and the
-- settings. Google's verifier and the detector are not in this module.
pub record Service : Type 1 where
  pub engine : Engine
  pub lib : Library
  pub google_verifier : Option (Bytes → Result GoogleIdentity)
  pub disposable_emails : Option (Bytes → Bool)
  pub access_lifetime : ℕ
  pub refresh_lifetime : ℕ
  pub dummy_hash : Bytes

-- What one call meets: the readings of the clock in their order, the bytes that the random source
-- delivers to each attempt, the password hasher, and the mailer.
pub record Call : Type 0 where
  pub now : ℕ → ℕ
  pub random : ℕ → Bytes
  pub hash_password : Bytes → Result Bytes
  pub verify_password : Bytes → Bytes → Result Bool
  pub send_verification_code : Bytes → Bytes → Delivery
  pub send_registration_notice : Bytes → Delivery

pub data Mail : Type 0 where
  verification_code : Bytes → Bytes → Mail
  registration_notice : Bytes → Mail

-- What `OnSessionRevoked` was told.
pub record RevokedSession : Type 0 where
  pub user_id : Bytes
  pub session_id : Bytes
  pub account_inactive : Bool

pub record World : Type 0 where
  pub db : Db
  pub mails : List Mail
  pub announced : List RevokedSession

-- A lifetime that is not positive is unset.
pub record ServiceOptions : Type 0 where
  pub access_lifetime : ℤ
  pub refresh_lifetime : ℤ
  pub google_verifier : Option (Bytes → Result GoogleIdentity)
  pub disposable_emails : Option (Bytes → Bool)

abbrev or_default : ℤ → ℕ → ℕ
or_default (pos d) default = if nat_eq d 0 then default else d
or_default (negsuc _) default = default

pub data Started : Type 1 where
  started : Service → Started
  hash_failed : Error → Started

abbrev with_dummy_hash : Engine → Library → ServiceOptions → Result Bytes → Started
with_dummy_hash engine lib o (ok dummy_hash) = started (record {
  engine = engine;
  lib = lib;
  google_verifier = o.google_verifier;
  disposable_emails = o.disposable_emails;
  access_lifetime = or_default o.access_lifetime (15 * minute);
  refresh_lifetime = or_default o.refresh_lifetime (30 * 24 * hour);
  dummy_hash = dummy_hash;
})
with_dummy_hash engine lib o (err e) = hash_failed e

-- `NewService`, given the password hasher
unfoldable pub new_service : Engine → Library → (Bytes → Result Bytes) → ServiceOptions → Started
new_service engine lib hash_password o =
    with_dummy_hash engine lib o (hash_password (text "invalid-account-password"))
