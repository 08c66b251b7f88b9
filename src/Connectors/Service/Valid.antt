-- ===== src/Connectors/Service/Valid.antt =====
-- What `NewService` of internal/connectors/service.go lets through.
use openremotecode_api.Prelude.{
  ℕ, ℤ, pos, negsuc, zero, suc, ◌*◌, ◌≡◌, refl, ◌≤◌, ◌||◌, Bool, true, false, arith, length, ltb,
  nat_eq, if◌then◌else◌, not, subst,
}
use openremotecode_api.Connectors.Types.{is_empty}
use openremotecode_api.Connectors.Library.{Library}
use openremotecode_api.Connectors.Service.{
  ServiceOptions, OptionsError, Settings, Configured, configured, misconfigured, new_service,
  or_default, second, minute, hour,
}

-- A positive duration of the options is the setting, and any other leaves the default.
abbrev pub Chosen : ℤ → ℕ → ℕ → Type 0
Chosen (pos zero) default setting = setting ≡ default
Chosen (pos (suc n)) default setting = setting ≡ suc n
Chosen (negsuc n) default setting = setting ≡ default

-- Keys of at least 32 bytes, that of devices the pairing's key where none is given, an identifier that is
-- not blank and is at most 128 bytes long, a verification URI that is not blank, both as they were
-- given, and each duration by the options or its default.
abbrev pub IsValid : Library → ServiceOptions → Settings → Type 0
IsValid lib o s =
    (s.pairing_code_key ≡ o.pairing_code_key)
    × (32 ≤ length s.pairing_code_key)
    × (s.device_credential_key ≡ (
        if nat_eq (length o.device_credential_key) 0
        then o.pairing_code_key
        else o.device_credential_key))
    × (32 ≤ length s.device_credential_key)
    × (s.service_id ≡ o.service_id)
    × (is_empty (lib.trim_space s.service_id) ≡ false)
    × (length s.service_id ≤ 128)
    × (s.verification_uri ≡ o.verification_uri)
    × (is_empty (lib.trim_space s.verification_uri) ≡ false)
    × Chosen o.challenge_lifetime (2 * minute) s.challenge_lifetime
    × Chosen o.pairing_lifetime (10 * minute) s.pairing_lifetime
    × Chosen o.device_credential_lifetime (365 * 24 * hour) s.device_credential_lifetime
    × Chosen o.connector_credential_lifetime (90 * 24 * hour) s.connector_credential_lifetime
    × Chosen o.credential_activation_window (15 * minute) s.credential_activation_window
    × Chosen o.ticket_lifetime (30 * second) s.ticket_lifetime
    × Chosen o.poll_interval (2 * second) s.poll_interval

guard :
    (b : Bool) (x : OptionsError) (k : Configured) {s : Settings}
    → (if b then misconfigured x else k) ≡ configured s
    → (b ≡ false) × (k ≡ configured s)
guard true x k e = absurd (ground arith)
guard false x k e = (refl, e)

configured_injective : {s t : Settings} → configured s ≡ configured t → s ≡ t
configured_injective e = ground arith

or_default_lem : (d : ℤ) (default : ℕ) → Chosen d default (or_default d default)
or_default_lem (pos zero) default = refl
or_default_lem (pos (suc n)) default = ground arith
or_default_lem (negsuc n) default = refl

-- A service that `NewService` makes has valid settings, with the keys, the identifier and the URI of the
-- options, each duration of the options where it is positive and the default where it is not, and
-- it was given both authorizers.
pub new_service-IsValid :
    (lib : Library) (o : ServiceOptions) (s : Settings)
    → new_service lib o ≡ configured s
    → IsValid lib o s × (o.has_authorize_account ≡ true) × (o.has_authorize_session ≡ true)
unfolding new_service
new_service-IsValid lib o s e =
    let device_key =
      if nat_eq (length o.device_credential_key) 0
      then o.pairing_code_key
      else o.device_credential_key in
    let (code, e1) = guard (ltb (length o.pairing_code_key) 32) _ _ e in
    let (key, e2) = guard (ltb (length device_key) 32) _ _ e1 in
    let (id, e3) =
      guard (is_empty (lib.trim_space o.service_id) || ltb 128 (length o.service_id)) _ _ e2 in
    let (uri, e4) = guard (is_empty (lib.trim_space o.verification_uri)) _ _ e3 in
    let (account, e5) = guard (not o.has_authorize_account) _ _ e4 in
    let (session, e6) = guard (not o.has_authorize_session) _ _ e5 in
    (
      subst (IsValid lib o) (configured_injective e6) (
        refl,
        ground (arith, code),
        refl,
        ground (arith, key),
        refl,
        ground (arith, id),
        ground (arith, id),
        refl,
        uri,
        or_default_lem o.challenge_lifetime (2 * minute),
        or_default_lem o.pairing_lifetime (10 * minute),
        or_default_lem o.device_credential_lifetime (365 * 24 * hour),
        or_default_lem o.connector_credential_lifetime (90 * 24 * hour),
        or_default_lem o.credential_activation_window (15 * minute),
        or_default_lem o.ticket_lifetime (30 * second),
        or_default_lem o.poll_interval (2 * second),
      ),
      ground (arith, account),
      ground (arith, session),
    )
