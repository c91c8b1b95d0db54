-- ===== src/Beneficiaries.antt =====
-- backend/routers/beneficiaries.py: the owner's beneficiaries, their share indexes and invitations.
pub mod Rows
pub mod Shares
pub mod Assign
pub mod Routes
pub mod History
use legacylock.Prelude.{
  ℕ, zero, suc, ◌+◌, ◌*◌, ◌==◌, Bool, true, false, not, ◌&&◌, ◌||◌, Option, none, some, List, [],
  ◌∷◌, ◌++◌, String, str_eq, exists, filter, length, first, leb, ltb, opt_eq, is_some,
  if◌then◌else◌,
}
use legacylock.Lifecycle.{InvitationStatus, same_invitation, accepted}
use legacylock.Models.{
  Db, Vault, Beneficiary, BusinessEvent, invitation, Recipient, Channel, Mail, invite_link, Actor,
  day,
}
use legacylock.Env.{Env}
use legacylock.Outcome.{Tx, ok, http, ◌>>=◌, ◌>>◌, guard, pure, gets, modify, or_raise}
use legacylock.Audit.{record_audit}
use legacylock.Outbox.{draw, event, enqueue}
use legacylock.Trigger.{lock_status}
use legacylock.Sessions.{revoke_beneficiary, clear_session}
use legacylock.Heartbeat.{get_vault}
use legacylock.Ceremony.{next_id}
use Rows.{insert_beneficiary, store_beneficiary, delete_row}

-- `BeneficiaryCreate` without the name, which no code reads.
pub record BeneficiaryCreate : Type 0 where
  pub email : String
  pub phone : Option String
  pub share_index : Option ℕ

-- A field of `BeneficiaryUpdate`: not in the request, or there, maybe as null.
pub data Field {ℓ} (A : Type ℓ) : Type ℓ where
  unset : Field A
  set_to : Option A → Field A

pub record BeneficiaryUpdate : Type 0 where
  pub email : Option String
  pub phone : Field String
  pub share_index : Field ℕ

-- `ge=1, le=MAX_SHARE_INDEX`
unfoldable pub is_valid_index : Option ℕ → Bool
is_valid_index none = true
is_valid_index (some i) = leb 1 i && leb i 255

abbrev or_default : ℕ → ℕ → ℕ
or_default zero d = d
or_default (suc n) d = suc n

-- Threshold and total, with the legacy 2-of-3.
abbrev pub policy : Vault → ℕ × ℕ
policy vault = (or_default vault.recovery_threshold 2, or_default vault.recovery_total 3)

abbrev pub in_range : Vault → ℕ → Bool
in_range vault i = leb 1 i && leb i (policy vault).1

unfoldable pub check_share_in_range : Vault → Option ℕ → Tx Db (Unit {0})
check_share_in_range vault none = pure tt
check_share_in_range vault (some i) = guard (in_range vault i) (http 422)

-- Another row of the vault, one whose id is not `id`, that has this share index.
abbrev pub has_share : ℕ → Option ℕ → ℕ → Beneficiary → Bool
has_share vault_id id i b =
    (b.vault_id == vault_id) && (opt_eq b.share_index (some i) && not (opt_eq (some b.id) id))

unfoldable pub check_clash : ℕ → Option ℕ → Option ℕ → Tx Db (Unit {0})
check_clash vault_id id none = pure tt
check_clash vault_id id (some i) = do
  clash ← gets (λ db. exists (has_share vault_id id i) db.beneficiaries)
  guard (not clash) (http 409)

-- `vault.recovery_generation if entry.share_index else None`
abbrev generation_for : Vault → Option ℕ → Option String
generation_for vault none = none
generation_for vault (some zero) = none
generation_for vault (some (suc i)) = vault.recovery_generation

unfoldable pub new_beneficiary : Env → ℕ → Vault → BeneficiaryCreate → Beneficiary
new_beneficiary env id vault input = record {
  id = id;
  vault_id = vault.id;
  email = env.strip_lower input.email;
  phone = input.phone;
  share_index = input.share_index;
  contact_revision = 1;
  ceremony_generation = generation_for vault input.share_index;
  invitation_hash = none;
  invitation_status = InvitationStatus.pending;
  invitation_sent_at = none;
  invitation_accepted_at = none;
  refresh_hash = none;
  refresh_expires_at = none;
  session_jti = none;
}

abbrev has_email : ℕ → String → Beneficiary → Bool
has_email vault_id email b = (b.vault_id == vault_id) && str_eq b.email email

-- The tests of `add_beneficiary`. The email is compared as it was typed.
unfoldable pub check_new : Env → Vault → BeneficiaryCreate → Tx Db (Unit {0})
check_new env vault input = do
  known ← gets (λ db. exists (has_email vault.id input.email) db.beneficiaries)
  guard (not known) (http 409)
  full ← gets (λ db.
      leb env.max_beneficiaries_per_vault
        (length (filter (λ b. b.vault_id == vault.id) db.beneficiaries)))
  guard (not full) (http 409)
  check_share_in_range vault input.share_index
  check_clash vault.id none input.share_index

-- The row is written by the flush of `record_audit`, outside of the `try` around the commit.
unfoldable pub add_to_vault : Env → Vault → BeneficiaryCreate → ℕ → ℕ → Tx Db ℕ
add_to_vault env vault input user_id now = do
  lock_status vault.id now
  check_new env vault input
  id ← next_id
  insert_beneficiary (new_beneficiary env id vault input)
  record_audit (some vault.id) (Actor.owner user_id) "beneficiary.add"
  pure id

unfoldable pub add_beneficiary : Env → BeneficiaryCreate → ℕ → ℕ → Tx Db ℕ
add_beneficiary env input user_id now = do
  guard (is_valid_index input.share_index) (http 422)
  vault ← get_vault user_id
  add_to_vault env vault input user_id now

-- The vault's row with this id.
unfoldable pub beneficiary_of : ℕ → ℕ → Db → Option Beneficiary
beneficiary_of vault_id id db =
    first (λ b. (b.id == id) && (b.vault_id == vault_id)) db.beneficiaries

unfoldable pub get_beneficiary : ℕ → ℕ → Tx Db Beneficiary
get_beneficiary vault_id id = do
  found ← gets (beneficiary_of vault_id id)
  or_raise found (http 404)

abbrev invited : Beneficiary → ℕ → ℕ → Beneficiary
invited ben hash now = record (clear_session ben) {
  invitation_hash = some hash;
  invitation_status = InvitationStatus.sent;
  invitation_sent_at = some now;
}

-- A fresh token; only its hash is stored. The revision names the event.
unfoldable pub send_invitation : Env → Vault → Beneficiary → ℕ → ℕ → ℕ → Tx Db ℕ
send_invitation env vault ben revision user_id now = do
  revoke_beneficiary ben.id now
  raw ← draw env
  store_beneficiary (invited ben (env.sha256 raw) now)
  business ← event env (some vault.id) invitation revision
  enqueue env business (Recipient.beneficiary ben.id)
      (record { to = ben.email; body = invite_link env.frontend_origin raw ben.id })
      (some (invited ben (env.sha256 raw) now)) Channel.email (some (now + 7 * day)) now
  record_audit (some vault.id) (Actor.owner user_id) "beneficiary.invite"
  pure raw

unfoldable pub invite_in_vault : Env → Vault → ℕ → ℕ → ℕ → Tx Db ℕ
invite_in_vault env vault id user_id now = do
  vs ← lock_status vault.id now
  ben ← get_beneficiary vault.id id
  guard (not (same_invitation ben.invitation_status accepted)) (http 409)
  send_invitation env vault ben vs.version user_id now

-- The raw token is in the mail's link; the response shows it outside of production only.
unfoldable pub invite_beneficiary : Env → ℕ → ℕ → ℕ → Tx Db ℕ
invite_beneficiary env id user_id now = do
  vault ← get_vault user_id
  invite_in_vault env vault id user_id now

-- The row under a new address: another contact, who was never invited.
abbrev pub readdressed : Beneficiary → String → Beneficiary
readdressed ben email = record (clear_session ben) {
  contact_revision = ben.contact_revision + 1;
  email = email;
  invitation_status = InvitationStatus.pending;
  invitation_hash = none;
  invitation_accepted_at = none;
  invitation_sent_at = none;
}

-- The address that a request changes to, if it does.
unfoldable pub new_address : Env → Beneficiary → Option String → Option String
new_address env ben none = none
new_address env ben (some email) =
    if str_eq (env.strip_lower email) ben.email then none else some (env.strip_lower email)

unfoldable pub change_email : Beneficiary → Option String → ℕ → Tx Db Beneficiary
change_email ben none now = pure ben
change_email ben (some email) now = do revoke_beneficiary ben.id now; pure (readdressed ben email)

abbrev pub with_phone : Field String → Beneficiary → Beneficiary
with_phone unset ben = ben
with_phone (set_to phone) ben = record ben { phone = phone }

unfoldable pub with_share : Vault → Field ℕ → Beneficiary → Beneficiary
with_share vault unset ben = ben
with_share vault (set_to none) ben = record ben { share_index = none; ceremony_generation = none }
with_share vault (set_to (some i)) ben = record ben {
  share_index = some i;
  ceremony_generation = vault.recovery_generation;
}

abbrev pub new_share : Field ℕ → Option ℕ
new_share unset = none
new_share (set_to i) = i

unfoldable pub update_row :
    Vault → Beneficiary → Option String → BeneficiaryUpdate → ℕ → ℕ → Tx Db (Unit {0})
update_row vault ben address input user_id now = do
  changed ← change_email ben address now
  check_share_in_range vault (new_share input.share_index)
  check_clash vault.id (some ben.id) (new_share input.share_index)
  store_beneficiary (with_share vault input.share_index (with_phone input.phone changed))
  record_audit (some vault.id) (Actor.owner user_id) "beneficiary.update"

unfoldable pub update_in_vault : Env → Vault → ℕ → BeneficiaryUpdate → ℕ → ℕ → Tx Db (Unit {0})
update_in_vault env vault id input user_id now = do
  lock_status vault.id now
  ben ← get_beneficiary vault.id id
  update_row vault ben (new_address env ben input.email) input user_id now

unfoldable pub update_beneficiary : Env → ℕ → BeneficiaryUpdate → ℕ → ℕ → Tx Db (Unit {0})
update_beneficiary env id input user_id now = do
  guard (is_valid_index (new_share input.share_index)) (http 422)
  vault ← get_vault user_id
  update_in_vault env vault id input user_id now

unfoldable pub assign_in_vault : Vault → ℕ → ℕ → ℕ → ℕ → Tx Db (Unit {0})
assign_in_vault vault id share_index user_id now = do
  lock_status vault.id now
  check_share_in_range vault (some share_index)
  ben ← get_beneficiary vault.id id
  check_clash vault.id (some ben.id) (some share_index)
  store_beneficiary (with_share vault (set_to (some share_index)) ben)
  record_audit (some vault.id) (Actor.owner user_id) "beneficiary.update"

unfoldable pub assign_share : ℕ → ℕ → ℕ → ℕ → Tx Db (Unit {0})
assign_share id share_index user_id now = do
  guard (is_valid_index (some share_index)) (http 422)
  vault ← get_vault user_id
  assign_in_vault vault id share_index user_id now

unfoldable pub delete_in_vault : Vault → ℕ → ℕ → ℕ → Tx Db (Unit {0})
delete_in_vault vault id user_id now = do
  lock_status vault.id now
  ben ← get_beneficiary vault.id id
  revoke_beneficiary ben.id now
  record_audit (some vault.id) (Actor.owner user_id) "beneficiary.delete"
  delete_row ben.id

unfoldable pub delete_beneficiary : ℕ → ℕ → ℕ → Tx Db (Unit {0})
delete_beneficiary id user_id now = do
  vault ← get_vault user_id
  delete_in_vault vault id user_id now
