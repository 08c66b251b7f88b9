-- ===== src/Connectors/Lifecycle.antt =====
-- What every operation of internal/connectors/service.go keeps: the stages of a pairing, and the
-- finality of a revocation and of the use of a ticket. The rules below carry an invariant through a
-- transaction.
pub mod Stores
pub mod Creates
pub mod Pairings
pub mod Confirmations
pub mod Reviews
pub mod Credentials
pub mod Revocations
pub mod Tickets
pub mod Steps
pub mod Preserved
pub mod Reachable
pub mod Retire
pub mod Lockout
pub mod Outcomes
pub mod Finality
use openremotecode_api.Prelude.{
  ℕ, ◌≡◌, refl, Bool, true, false, Option, none, some, List, arith, map, All, Bool-cases, is_some,
  inl, inr, subst, sym, if◌then◌else◌,
}
use openremotecode_api.Bytes.{Bytes}
use openremotecode_api.Database.Watch.{Settled, Watched}
use openremotecode_api.Database.Keys.{Distinct}
use openremotecode_api.Connectors.Errors.{Error, Result, ok, err}
use openremotecode_api.Connectors.Types.{
  PairingState, pending, verification, confirmed, completed, expired, Pairing, Device, Connector,
  RelayTicket,
}
use openremotecode_api.Connectors.Tx.{
  Tx, Db, pure, fail, lift, refuse, check, optional, within_transaction, ◌>>=◌, ◌>>◌, bind_ok,
  ok_injective, optional_ok,
}

-- A pending pairing has no time of a review; one under verification has an account and a device; no
-- pairing is in the state `confirmed`; a completed one has a time of a review, an account, a device and
-- a connector.
abbrev pub Stage : PairingState → Option ℕ → Option Bytes → Option Bytes → Option Bytes → Type 0
Stage pending reviewed user device connector = is_some reviewed ≡ false
Stage verification reviewed user device connector = (is_some user ≡ true) × (is_some device ≡ true)
Stage confirmed reviewed user device connector = ⊥
Stage completed reviewed user device connector =
    (is_some reviewed ≡ true)
    × (is_some user ≡ true)
    × (is_some device ≡ true)
    × (is_some connector ≡ true)
Stage expired reviewed user device connector = Unit

abbrev pub IsStaged : Pairing → Type 0
IsStaged p = Stage p.state p.connector_reviewed_at p.user_id p.device_id p.connector_id

-- What is watched: a revoked device, a revoked connector and a used ticket, or none of a kind.
pub record Watch : Type 0 where
  pub device : Option Bytes
  pub connector : Option Bytes
  pub ticket : Option Bytes

pub record Inv (w : Watch) (db : Db) : Type 0 where
  pub devices : Watched (λ (d : Device). d.id) (λ (d : Device). d.revoked_at) w.device db.devices
  pub connectors :
      Watched (λ (c : Connector). c.id) (λ (c : Connector). c.revoked_at) w.connector db.connectors
  pub tickets :
      Watched
        (λ (t : RelayTicket). t.token_hash)
        (λ (t : RelayTicket). t.consumed_at)
        w.ticket
        db.relay_tickets
  pub pairings : All IsStaged db.pairings
  pub device_ids : Distinct (map (λ (d : Device). d.id) db.devices)
  pub connector_ids : Distinct (map (λ (c : Connector). c.id) db.connectors)

abbrev pub DeviceOk : Watch → Device → Type 0
DeviceOk w d = Settled w.device d.id d.revoked_at

abbrev pub ConnectorOk : Watch → Connector → Type 0
ConnectorOk w c = Settled w.connector c.id c.revoked_at

abbrev pub TicketOk : Watch → RelayTicket → Type 0
TicketOk w t = Settled w.ticket t.token_hash t.consumed_at

abbrev pub Anything : {A : Type 0} → A → Type 0
Anything _ = Unit

-- If the action succeeds, its value has the property and the invariant is kept.
pub record Yields (w : Watch) {A : Type 0} (Q : A → Type 0) (m : Tx A) : Type 0 where
  pub at : (db : Db) (a : A) (db' : Db) → Inv w db → m db ≡ ok (a, db') → Q a × Inv w db'

module _ {w : Watch} {A : Type 0} where
  pub Yields-pure : (Q : A → Type 0) (a : A) → Q a → Yields w Q (pure a)
  Yields-pure Q a q = record {
    at = λ db b db' i e. let (p, q') = ok_injective e in (subst Q p q, subst (Inv w) q' i);
  }

  pub Yields-fail : (Q : A → Type 0) (e : Error) → Yields w Q (fail e)
  Yields-fail Q e = record { at = λ db b db' i h. absurd (ground arith) }

  pub Yields-if :
      (Q : A → Type 0) (b : Bool) (m n : Tx A)
      → (b ≡ true → Yields w Q m)
      → (b ≡ false → Yields w Q n)
      → Yields w Q (if b then m else n)
  Yields-if Q true m n yes_m yes_n = yes_m refl
  Yields-if Q false m n yes_m yes_n = yes_n refl

  -- The rest runs only if the condition is false.
  pub Yields-refuse :
      (Q : A → Type 0) (b : Bool) (e : Error) (m : Tx A)
      → (b ≡ false → Yields w Q m)
      → Yields w Q (refuse b e >> m)
  unfolding ◌>>=◌
  Yields-refuse Q true e m h = record { at = λ db b db' i h. absurd (ground arith) }
  Yields-refuse Q false e m h = record { at = (h refl).at }

  pub Yields-check :
      (Q : A → Type 0) (o : Option Error) (m : Tx A) → Yields w Q m → Yields w Q (check o >> m)
  unfolding ◌>>=◌
  Yields-check Q none m h = record { at = h.at }
  Yields-check Q (some e) m h = record { at = λ db b db' i h. absurd (ground arith) }

  pub Yields-weaken :
      (Q R : A → Type 0) (m : Tx A) → ((a : A) → Q a → R a) → Yields w Q m → Yields w R m
  Yields-weaken Q R m f h = record {
    at = λ db a db' i e. let (q, j) = h.at db a db' i e in (f a q, j);
  }

-- A lookup that may find nothing.
abbrev pub Maybe : {A : Type 0} → (A → Type 0) → Option A → Type 0
Maybe Q none = Unit
Maybe Q (some a) = Q a

module _ {w : Watch} {A : Type 0} where
  pub Yields-optional : (Q : A → Type 0) (m : Tx A) → Yields w Q m → Yields w (Maybe Q) (optional m)
  Yields-optional Q m h = record {
    at = λ db b db' i e. elim (optional_ok m db e) [
      | inl (nothing, same) ↦ (subst (Maybe Q) (sym nothing) tt, subst (Inv w) same i)
      | inr (a, found, e') ↦ let (q, j) = h.at db a db' i e' in (subst (Maybe Q) (sym found) q, j)
    ];
  }

module _ {w : Watch} {A B : Type 0} where
  pub Yields-bind :
      (Q : A → Type 0) (R : B → Type 0) (m : Tx A) (f : A → Tx B)
      → Yields w Q m
      → ((a : A) → Q a → Yields w R (f a))
      → Yields w R (m >>= f)
  Yields-bind Q R m f h k = record {
    at = λ db b db' i e.
        let (a, mid, first, second) = bind_ok m f db e in
        let (q, j) = h.at db a mid i first in (k a q).at mid b db' j second;
  }

  pub Yields-lift :
      (R : B → Type 0) (r : Result A) (f : A → Tx B)
      → ((a : A) → r ≡ ok a → Yields w R (f a))
      → Yields w R (lift r >>= f)
  unfolding ◌>>=◌
  Yields-lift R (ok a) f k = record { at = (k a refl).at }
  Yields-lift R (err e) f k = record { at = λ db b db' i h. absurd (ground arith) }
