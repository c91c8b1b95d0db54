-- ===== src/Access.antt =====
-- backend/routers/access.py: invitations, the beneficiary's sessions, and what a released vault shows.
-- `issue` and `rotate` give the tokens that the source puts into cookies. The signed-in row is an
-- argument of the routes that take one.
pub mod Invitations
pub mod Accepted
pub mod Once
pub mod Recovery
use legacylock.Prelude.{
  ℕ, ◌+◌, ◌*◌, ◌==◌, Bool, false, not, ◌&&◌, Option, none, some, List, String, exists, filter,
  first, ltb, opt_eq, if◌then◌else◌, update_where,
}
use legacylock.Lifecycle.{
  VaultState, active, triggered, same_state, sent, accepted, expired, same_invitation,
  InvitationStatus,
}
use legacylock.Models.{
  Db, Vault, VaultStatus, Beneficiary, beneficiary, Actor, VaultMessage, Members, day,
}
use legacylock.Env.{Env}
use legacylock.Outcome.{
  Tx, Error, http, no_result, integrity, ◌>>=◌, ◌>>◌, guard, pure, gets, modify, or_raise,
}
use legacylock.Audit.{record_audit}
use legacylock.Outbox.{draw}
use legacylock.Trigger.{lock_status, status_of}
use legacylock.Heartbeat.{get_vault}
use legacylock.Sessions.{Tokens, Rotation, ben_of, issue, rotate, revoke_cookie, revoke_beneficiary}
use legacylock.Beneficiaries.{policy}
use legacylock.Messages.{page, check_page, get_message, read_metadata}

-- `_get_vault` of a beneficiary.
unfoldable pub vault_of : Beneficiary → Tx Db Vault
vault_of ben = do
  found ← gets (λ db. first (λ (v : Vault). v.id == ben.vault_id) db.vaults)
  or_raise found (http 404)

unfoldable pub find_by_invite : Env → ℕ → Db → Option Beneficiary
find_by_invite env raw db =
    first (λ b. opt_eq b.invitation_hash (some (env.sha256 raw))) db.beneficiaries

-- `now > expiry`
unfoldable pub is_too_old : Option ℕ → ℕ → Bool
is_too_old none now = false
is_too_old (some sent_at) now = ltb (sent_at + 7 * day) now

-- How an acceptance ends: signed in, or with the 410 that is raised after a commit.
pub data Acceptance : Type 0 where
  signed_in : ℕ → Tokens → Acceptance
  too_late : Acceptance

abbrev lapse : Beneficiary → Beneficiary
lapse ben = record ben { invitation_status = expired }

unfoldable pub expire : Beneficiary → Tx Db Acceptance
expire ben = do
  modify (λ db. record db {
    beneficiaries = update_where (λ b. b.id == ben.id) lapse db.beneficiaries;
  })
  record_audit (some ben.vault_id) (Actor.beneficiary ben.id) "invitation.expired"
  pure too_late

abbrev pub is_open : ℕ → Beneficiary → Beneficiary → Bool
is_open hash ben b =
    (b.id == ben.id)
    && (same_invitation b.invitation_status sent
        && (opt_eq b.invitation_hash (some hash) && (b.contact_revision == ben.contact_revision)))

abbrev pub accept_row : ℕ → ℕ → Beneficiary → Beneficiary
accept_row hash now b = record b {
  invitation_status = accepted;
  invitation_accepted_at = some now;
  invitation_hash = some hash;
}

abbrev pub is_open_row : ℕ → Beneficiary → Option Beneficiary → Bool
is_open_row hash ben none = false
is_open_row hash ben (some b) = is_open hash ben b

abbrev missed : Option Beneficiary → Error
missed none = no_result
missed (some b) = if same_invitation b.invitation_status accepted then http 409 else http 404

-- The conditional update, with the unique index on the hash that it writes. The id is the primary
-- key, so the update is for the row that the key finds, if for any.
unfoldable pub flip : Env → ℕ → Beneficiary → ℕ → Tx Db (Unit {0})
flip env raw ben now = do
  fresh ← draw env
  row ← gets (ben_of ben.id)
  taken ← gets (λ db.
      exists (λ b. not (b.id == ben.id) && opt_eq b.invitation_hash (some (env.sha256 fresh)))
        db.beneficiaries)
  guard (not (is_open_row (env.sha256 raw) ben row && taken)) integrity
  guard (is_open_row (env.sha256 raw) ben row) (missed row)
  modify (λ db. record db {
    beneficiaries =
        update_where (is_open (env.sha256 raw) ben) (accept_row (env.sha256 fresh) now)
          db.beneficiaries;
  })

unfoldable pub sign_in : Env → Beneficiary → ℕ → Tx Db Acceptance
sign_in env ben now = do
  vault ← vault_of ben
  tokens ← issue env beneficiary ben.id (some vault.id) (some ben.contact_revision) now
  record_audit (some vault.id) (Actor.beneficiary ben.id) "invite.accept"
  pure (signed_in ben.id tokens)

unfoldable pub accept_fresh : Env → ℕ → Beneficiary → ℕ → Tx Db Acceptance
accept_fresh env raw ben now = do flip env raw ben now; sign_in env ben now

unfoldable pub accept_locked : Env → ℕ → Beneficiary → ℕ → Tx Db Acceptance
accept_locked env raw ben now = do
  guard (opt_eq ben.invitation_hash (some (env.sha256 raw))) (http 404)
  guard (not (same_invitation ben.invitation_status accepted)) (http 409)
  guard (not (same_invitation ben.invitation_status expired)) (http 410)
  if is_too_old ben.invitation_sent_at now then expire ben else accept_fresh env raw ben now

-- Behind the vault's lock, on the row with the candidate's id.
unfoldable pub accept_row_of : Env → ℕ → ℕ → ℕ → Tx Db Acceptance
accept_row_of env raw id now = do
  held ← gets (ben_of id)
  ben ← or_raise held no_result
  accept_locked env raw ben now

unfoldable pub accept_as : Env → ℕ → Beneficiary → ℕ → Tx Db Acceptance
accept_as env raw candidate now = do
  lock_status candidate.vault_id now
  accept_row_of env raw candidate.id now

unfoldable pub accept_invitation : Env → ℕ → ℕ → Tx Db Acceptance
accept_invitation env raw now = do
  found ← gets (find_by_invite env raw)
  candidate ← or_raise found (http 404)
  accept_as env raw candidate now

-- The stored status and whether the time is over.
unfoldable pub check_invitation_status : Env → ℕ → ℕ → Tx Db (InvitationStatus × Bool)
check_invitation_status env raw now = do
  found ← gets (find_by_invite env raw)
  ben ← or_raise found (http 404)
  pure (ben.invitation_status, is_too_old ben.invitation_sent_at now)

unfoldable pub create_beneficiary_session : Env → Option ℕ → ℕ → Tx Db Rotation
create_beneficiary_session env cookie now = do
  raw ← or_raise cookie (http 401)
  rotate env raw beneficiary now

unfoldable pub revoke_beneficiary_session : Env → Beneficiary → Option ℕ → Tx Db (Unit {0})
revoke_beneficiary_session env ben cookie = do
  revoke_cookie env cookie beneficiary
  record_audit (some ben.vault_id) (Actor.beneficiary ben.id) "session.revoke"

unfoldable pub revoke_all_beneficiary_sessions : Beneficiary → ℕ → Tx Db (Unit {0})
revoke_all_beneficiary_sessions ben now = do
  lock_status ben.vault_id now
  revoke_beneficiary ben.id now
  record_audit (some ben.vault_id) (Actor.beneficiary ben.id) "session.revoke_all"

-- `AccessStatusOut` without the vault's name.
pub record AccessStatus : Type 0 where
  pub vault_status : VaultState
  pub share_index : Option ℕ
  pub recovery_threshold : ℕ
  pub recovery_total : ℕ
  pub recovery_generation : Option String
  pub beneficiary_id : ℕ
  pub material_revision : ℕ

abbrev state_or_active : Option VaultStatus → VaultState
state_or_active none = active
state_or_active (some vs) = vs.state

unfoldable pub get_access_status : Beneficiary → Tx Db AccessStatus
get_access_status ben = do
  vault ← vault_of ben
  state ← gets (λ db. state_or_active (status_of vault.id db))
  pure (record {
    vault_status = state;
    share_index = ben.share_index;
    recovery_threshold = (policy vault).0;
    recovery_total = (policy vault).1;
    recovery_generation = vault.recovery_generation;
    beneficiary_id = ben.id;
    material_revision = vault.material_revision;
  })

unfoldable pub require_triggered : ℕ → Tx Db (Unit {0})
require_triggered vault_id = do
  state ← gets (λ db. state_or_active (status_of vault_id db))
  guard (same_state state triggered) (http 403)

unfoldable pub list_recovery_messages : Beneficiary → Option ℕ → ℕ → Tx Db (List VaultMessage)
list_recovery_messages ben before_id limit = do
  check_page before_id limit
  vault ← vault_of ben
  require_triggered vault.id
  gets (page vault.id before_id limit)

-- `RecoveryMessageDetail` is a `MessageDetail` without the tags.
pub record RecoveryMessage : Type 0 where
  pub id : ℕ
  pub label : String
  pub ciphertext : String
  pub wrapped_mek : String
  pub crypto_metadata : Members
  pub crypto_version : ℕ
  pub category : Option String
  pub created_at : ℕ

unfoldable pub recovery_detail : VaultMessage → Tx Db RecoveryMessage
recovery_detail m = do
  metadata ← read_metadata m.crypto_metadata
  pure (record {
    id = m.id;
    label = m.label;
    ciphertext = m.ciphertext;
    wrapped_mek = m.wrapped_mek;
    crypto_metadata = metadata;
    crypto_version = m.crypto_version;
    category = m.category;
    created_at = m.created_at;
  })

unfoldable pub get_recovery_message : Beneficiary → ℕ → Tx Db RecoveryMessage
get_recovery_message ben id = do
  vault ← vault_of ben
  require_triggered vault.id
  m ← get_message vault.id id
  recovery_detail m

-- The owner's view: the rows that `ShareAssignmentOut` is made of.
unfoldable pub list_share_assignments : ℕ → Tx Db (List Beneficiary)
list_share_assignments user_id = do
  vault ← get_vault user_id
  gets (λ db. filter (λ b. b.vault_id == vault.id) db.beneficiaries)
