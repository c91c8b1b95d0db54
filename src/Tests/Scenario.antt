-- ===== src/Tests/Scenario.antt =====
-- One vault with its recovery setup in order, whose owner was last seen at time 0.
use legacylock.Prelude.{str_eq, if◌then◌else◌, ℕ, ◌+◌, ◌*◌, ◌==◌, true, false, none, some, [], ◌∷◌}
use legacylock.Lifecycle.{VaultState, InvitationStatus}
use legacylock.Models.{
  Db, empty_db, Vault, VaultStatus, HeartbeatConfig, Beneficiary, RecoveryCeremony, CeremonyStatus,
  RecoveryStatus, DrillText, Role, day,
}
use legacylock.Env.{Env}
use legacylock.Sessions.{AccessClaims}
use legacylock.Guards.Claims.{decoded}

-- The claims of the access tokens 900, of the owner's, and 901, of the beneficiary's.
abbrev pub owner_claims : AccessClaims
owner_claims = record {
  sub = 2;
  vault_id = some 1;
  role = Role.owner;
  auth_epoch = "1";
  iat = 0;
  exp = 900;
  jti = 100;
}

abbrev pub beneficiary_claims : AccessClaims
beneficiary_claims = record {
  sub = 5;
  vault_id = some 1;
  role = Role.beneficiary;
  auth_epoch = "1";
  iat = 0;
  exp = 1800;
  jti = 101;
}

abbrev pub test_env : Env
test_env = record {
  production = true;
  release_hold = false;
  sms_enabled = true;
  delivery_enabled = true;
  testing = false;
  registration_invite_code = "welcome-code";
  email_verification_ttl_hours = 24;
  max_beneficiaries_per_vault = 10;
  max_messages_per_vault = 100;
  auth_epoch = "1";
  frontend_origin = "https://example.org";
  delivery_payload_key_id = "v1";
  payload_key = λ id. some 3;
  random = λ n. n + 100;
  sha256 = λ t. t + 5;
  digest = λ bindings. 7;
  encrypt = λ key nonce mail context. nonce;
  decrypt = λ key nonce cipher context. none;
  b64_length = λ text.
      if str_eq text "salt" then some 16 else (if str_eq text "iv" then some 12 else some 40);
  json_length = λ value. 2;
  strip = λ text. text;
  strip_lower = λ text. text;
  hash_password = λ salt password. password;
  verify_password = λ password hash. str_eq password hash;
  jwt_decode = λ t token. decoded (if token == 900 then owner_claims else beneficiary_claims) t;
}

abbrev pub test_vault : Vault
test_vault = record {
  id = 1;
  user_id = 2;
  is_primary = true;
  wrapped_vmk = some "wrapped";
  vmk_kdf_salt = some "salt";
  vmk_iterations = some 600_000;
  material_revision = 1;
  recovery_threshold = 1;
  recovery_total = 1;
  recovery_generation = some "g";
  recovery_status = RecoveryStatus.ready;
  updated_at = 0;
}

abbrev pub test_beneficiary : Beneficiary
test_beneficiary = record {
  id = 5;
  vault_id = 1;
  email = "ben@example.org";
  phone = some "+100";
  share_index = some 1;
  contact_revision = 1;
  ceremony_generation = some "g";
  invitation_hash = none;
  invitation_status = InvitationStatus.accepted;
  invitation_sent_at = some 0;
  invitation_accepted_at = some 0;
  refresh_hash = none;
  refresh_expires_at = none;
  session_jti = none;
}

abbrev pub test_ceremony : RecoveryCeremony
test_ceremony = record {
  id = 8;
  vault_id = 1;
  generation = "g";
  threshold = 1;
  total = 1;
  status = CeremonyStatus.finalized;
  expected_revision = 0;
  initial_material = none;
  acknowledgments = some (1 ∷ []);
  drill_data = some (
      DrillText.object (record {
        material_revision = some 1;
        assignment_signature = some 7;
        generation = some "g";
        verifier = some "owner_report";
      }));
}

abbrev pub status_in : VaultState → VaultStatus
status_in state = record {
  vault_id = 1;
  state = state;
  version = 4;
  armed = true;
  episode = 2;
  grace_started_at = none;
  triggered_at = none;
  trigger_reason = none;
  updated_at = 0;
}

abbrev pub test_config : HeartbeatConfig
test_config = record {
  vault_id = 1;
  interval_days = 30;
  grace_days = 7;
  last_check_in = some 0;
  updated_at = 0;
}

-- The database of the scenario, with the vault in this state.
abbrev pub db_in : VaultState → Db
db_in state = record empty_db {
  users =
      record {
        id = 2;
        email = "owner@example.org";
        password_hash = "correct horse";
        email_verified_at = some 0;
        updated_at = 0;
      }
      ∷ [];
  vaults = test_vault ∷ [];
  statuses = status_in state ∷ [];
  configs = test_config ∷ [];
  beneficiaries = test_beneficiary ∷ [];
  ceremonies = test_ceremony ∷ [];
}

-- Past the release deadline of 37 days.
abbrev pub late : ℕ
late = 40 * day
