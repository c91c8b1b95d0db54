-- ===== src/Models/Delivery.antt =====
-- backend/models/remediation.py: business events, delivery jobs and delivery attempts. A UUID is
-- the number that it stands for.
use legacylock.Prelude.{ℕ, Bool, true, false, Option, String, ◌==◌}

-- `BusinessEvent.kind`
pub data EventKind : Type 0 where
  grace_first grace_second grace_final released invitation beneficiary_login verification :
      EventKind

-- `kind.like("grace%")`, `kind.startswith("grace")`
abbrev pub is_grace : EventKind → Bool
is_grace grace_first = true
is_grace grace_second = true
is_grace grace_final = true
is_grace _ = false

abbrev pub is_released : EventKind → Bool
is_released released = true
is_released _ = false

abbrev pub same_kind : EventKind → EventKind → Bool
same_kind grace_first grace_first = true
same_kind grace_second grace_second = true
same_kind grace_final grace_final = true
same_kind released released = true
same_kind invitation invitation = true
same_kind beneficiary_login beneficiary_login = true
same_kind verification verification = true
same_kind _ _ = false

pub record BusinessEvent : Type 0 where
  pub id : ℕ
  pub vault_id : Option ℕ
  pub kind : EventKind
  pub revision : ℕ

-- `recipient_key`: `owner:{id}` or `beneficiary:{id}`
pub data Recipient : Type 0 where
  owner beneficiary : ℕ → Recipient

abbrev pub same_recipient : Recipient → Recipient → Bool
same_recipient (owner a) (owner b) = a == b
same_recipient (beneficiary a) (beneficiary b) = a == b
same_recipient _ _ = false

pub data Channel : Type 0 where
  email sms : Channel

-- The texts that the program sends, by what is spliced into them.
pub data Body : Type 0 where
  release_email : String → Body
  release_sms : Body
  overdue : ℕ → Body
  verify_link : String → ℕ → ℕ → Body
  invite_link : String → ℕ → ℕ → Body
  login_link : String → ℕ → Body

pub record Mail : Type 0 where
  pub to : String
  pub body : Body

-- What the encryption of a payload is bound to, `context(job, key_id)`.
pub record Context : Type 0 where
  pub key_id : String
  pub job : ℕ
  pub event : ℕ
  pub recipient : Recipient
  pub contact_revision : Option ℕ

-- `payload`: `{key_id}:{base64(nonce + ciphertext)}`
pub record Payload : Type 0 where
  pub key_id : String
  pub nonce : ℕ
  pub cipher : ℕ

pub data JobState : Type 0 where
  ready claimed retry_wait accepted dead cancelled : JobState

-- `state.in_(["READY", "RETRY_WAIT", "CLAIMED"])`
abbrev pub is_pending : JobState → Bool
is_pending ready = true
is_pending retry_wait = true
is_pending claimed = true
is_pending _ = false

pub record DeliveryJob : Type 0 where
  pub id : ℕ
  pub event_id : ℕ
  pub recipient : Recipient
  pub beneficiary_id : Option ℕ
  pub contact_revision : Option ℕ
  pub channel : Channel
  pub payload : Option Payload
  pub credential_expires_at : Option ℕ
  pub state : JobState
  pub attempts : ℕ
  pub due_at : ℕ
  pub lease_until : Option ℕ
  pub claim_token : Option ℕ
  pub provider_id : Option ℕ
  pub last_error : Option String
  pub accepted_at : Option ℕ
  pub created_at : ℕ

pub record DeliveryAttempt : Type 0 where
  pub id : ℕ
  pub job_id : ℕ
  pub started_at : ℕ
  pub completed_at : Option ℕ
  pub outcome : Option String
