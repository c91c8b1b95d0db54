-- ===== src/Models/Rows.antt =====
-- backend/models/vault.py, status.py, heartbeat.py, beneficiary.py, user.py, audit.py and the
-- ceremony of remediation.py. Times are microseconds since the epoch; a column that JSON text is
-- stored in holds the value that the text stands for. Columns that no modelled code reads (labels,
-- creation times of vaults) are left out, and so are surrogate ids beside a unique `vault_id`.
use legacylock.Prelude.{ℕ, ◌*◌, Bool, true, false, not, List, Option, none, some, String, str_eq}
use legacylock.Lifecycle.{VaultState, InvitationStatus}

-- `timedelta(seconds=1)`, `timedelta(days=1)`
abbrev pub second : ℕ
second = 1_000_000

abbrev pub day : ℕ
day = 86_400 * 1_000_000

-- Python's truth of an optional text: `None` and the empty text are false.
abbrev pub truthy : Option String → Bool
truthy none = false
truthy (some s) = not (str_eq s "")

pub record User : Type 0 where
  pub id : ℕ
  pub email : String
  pub password_hash : String
  pub email_verified_at : Option ℕ
  pub updated_at : ℕ

pub data RecoveryStatus : Type 0 where
  ready draft legacy uninitialized : RecoveryStatus

-- The wrapping bundle: `CryptoMaterialRequest` without the fields that have one allowed value.
pub record Material : Type 0 where
  pub wrapped_vmk : String
  pub vmk_kdf_salt : String
  pub iterations : Option ℕ
  pub expected_revision : ℕ

pub record Vault : Type 0 where
  pub id : ℕ
  pub user_id : ℕ
  pub is_primary : Bool
  pub wrapped_vmk : Option String
  pub vmk_kdf_salt : Option String
  pub vmk_iterations : Option ℕ
  pub material_revision : ℕ
  pub recovery_threshold : ℕ
  pub recovery_total : ℕ
  pub recovery_generation : Option String
  pub recovery_status : RecoveryStatus
  pub updated_at : ℕ

pub data Reason : Type 0 where
  manual inactivity : Reason

pub record VaultStatus : Type 0 where
  pub vault_id : ℕ
  pub state : VaultState
  pub version : ℕ
  pub armed : Bool
  pub episode : ℕ
  pub grace_started_at : Option ℕ
  pub triggered_at : Option ℕ
  pub trigger_reason : Option Reason
  pub updated_at : ℕ

pub record HeartbeatConfig : Type 0 where
  pub vault_id : ℕ
  pub interval_days : ℕ
  pub grace_days : ℕ
  pub last_check_in : Option ℕ
  pub updated_at : ℕ

pub record Beneficiary : Type 0 where
  pub id : ℕ
  pub vault_id : ℕ
  pub email : String
  pub phone : Option String
  pub share_index : Option ℕ
  pub contact_revision : ℕ
  pub ceremony_generation : Option String
  pub invitation_hash : Option ℕ
  pub invitation_status : InvitationStatus
  pub invitation_sent_at : Option ℕ
  pub invitation_accepted_at : Option ℕ
  pub refresh_hash : Option ℕ
  pub refresh_expires_at : Option ℕ
  pub session_jti : Option ℕ

pub data CeremonyStatus : Type 0 where
  draft finalized cancelled superseded : CeremonyStatus

-- `drill_data`: `json.loads` fails on it, gives something else than an object, or an object. An
-- object is read by four keys, each of which may be missing.
pub record Drill : Type 0 where
  pub material_revision : Option ℕ
  pub assignment_signature : Option ℕ
  pub generation : Option String
  pub verifier : Option String

pub data DrillText : Type 0 where
  unreadable not_object : DrillText
  object : Drill → DrillText

pub record RecoveryCeremony : Type 0 where
  pub id : ℕ
  pub vault_id : ℕ
  pub generation : String
  pub threshold : ℕ
  pub total : ℕ
  pub status : CeremonyStatus
  pub expected_revision : ℕ
  pub initial_material : Option Material
  pub acknowledgments : Option (List ℕ)
  pub drill_data : Option DrillText

abbrev pub same_ceremony_status : CeremonyStatus → CeremonyStatus → Bool
same_ceremony_status CeremonyStatus.draft CeremonyStatus.draft = true
same_ceremony_status finalized finalized = true
same_ceremony_status cancelled cancelled = true
same_ceremony_status superseded superseded = true
same_ceremony_status _ _ = false

abbrev pub same_recovery_status : RecoveryStatus → RecoveryStatus → Bool
same_recovery_status ready ready = true
same_recovery_status RecoveryStatus.draft RecoveryStatus.draft = true
same_recovery_status legacy legacy = true
same_recovery_status uninitialized uninitialized = true
same_recovery_status _ _ = false

pub data Actor : Type 0 where
  system : Actor
  owner beneficiary : ℕ → Actor

-- An audit row; its metadata and the request's id and address are not read by any code.
pub record AuditEvent : Type 0 where
  pub vault_id : Option ℕ
  pub actor : Actor
  pub event_type : String
