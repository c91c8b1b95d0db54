-- ===== src/Tests/Invites.antt =====
-- The scenario's owner changes the beneficiary's address and invites it, and it accepts.
use legacylock.Trigger.{locked}
use legacylock.Prelude.{save}
use legacylock.Outcome.{gets, guard, modify, or_raise, pure}
use legacylock.Sessions.{issue, add_family, bind_session, mint, add_refresh, create_access_token}
use legacylock.Outbox.{draw}
use legacylock.Access.{
  find_by_invite, accept_as, accept_row_of, accept_locked, is_too_old, accept_fresh, flip, sign_in,
  vault_of, expire,
}
use legacylock.Beneficiaries.Rows.{store_beneficiary, check_unique}
use legacylock.Outbox.{cancel_recipient}
use legacylock.Sessions.{revoke_beneficiary}
use legacylock.Beneficiaries.{get_beneficiary, update_row, change_email, with_share}
use legacylock.Audit.{record_audit}
use legacylock.Trigger.{lock_status}
use legacylock.Beneficiaries.{check_share_in_range, check_clash}
use legacylock.Prelude.{ℕ, ◌+◌, ◌*◌, arith, ◌≡◌, ◌≢◌, refl, none, some, [], ◌∷◌, lookup}
use legacylock.Lifecycle.{grace, InvitationStatus}
use legacylock.Models.{Db, Beneficiary, second}
use legacylock.Outcome.{ok, settle, ◌>>=◌}
use legacylock.Sessions.{Tokens}
use legacylock.Beneficiaries.{
  BeneficiaryUpdate, unset, update_in_vault, new_address, beneficiary_of,
}
use legacylock.Guards.{beneficiary_for, get_current_beneficiary}
use legacylock.Guards.Claims.{IsDecoded, expiry}
use legacylock.Guards.Contact.{new_address-signed_out}
use legacylock.Access.{accept_invitation, signed_in}
use legacylock.Access.Once.{accept_once, accept-signed_in}
use legacylock.Tests.Scenario.{test_env, beneficiary_claims, test_vault, test_beneficiary, db_in}

-- A second row of the vault, which wants the share of the first.
abbrev second_row : Beneficiary
second_row = record test_beneficiary { id = 6; email = "other@example.org"; share_index = none }

abbrev pair_db : Db
pair_db = record (db_in grace) { beneficiaries = test_beneficiary ∷ second_row ∷ [] }

abbrev moved : BeneficiaryUpdate
moved = record { email = some "moved@example.org"; phone = unset; share_index = unset }

unfoldable moved_db : Db
unfolding update_in_vault
moved_db = settle (db_in grace) (update_in_vault test_env test_vault 5 moved 2 5 (db_in grace))

moved_run : update_in_vault test_env test_vault 5 moved 2 5 (db_in grace) ≡ ok tt moved_db
unfolding moved_db ◌>>=◌ lock_status get_beneficiary beneficiary_of update_row change_email
    new_address revoke_beneficiary cancel_recipient check_share_in_range check_clash
    store_beneficiary check_unique with_share record_audit
moved_run = refl

address_run :
    new_address test_env test_beneficiary (some "moved@example.org") ≡ some "moved@example.org"
unfolding new_address
address_run = refl

row_run : beneficiary_of 1 5 (db_in grace) ≡ some test_beneficiary
unfolding beneficiary_of
row_run = refl

new_address-signed_out_example : beneficiary_for test_env 5 (some 50) 9 moved_db ≡ none
new_address-signed_out_example =
    new_address-signed_out test_env test_vault test_beneficiary moved 2 5 "moved@example.org"
      (db_in grace) moved_db row_run address_run moved_run (some 50) 9

-- The invitation's token is 40, its hash 45.
abbrev invited : Beneficiary
invited = record test_beneficiary {
  invitation_status = InvitationStatus.sent;
  invitation_hash = some 45;
  invitation_accepted_at = none;
}

abbrev invited_db : Db
invited_db = record (db_in grace) { beneficiaries = invited ∷ [] }

abbrev tokens : Tokens
tokens = record { access = beneficiary_claims; raw = 102 }

unfoldable accepted_db : Db
unfolding accept_invitation
accepted_db = settle invited_db (accept_invitation test_env 40 6 invited_db)

accepted_run : accept_invitation test_env 40 6 invited_db ≡ ok (signed_in 5 tokens) accepted_db
unfolding accepted_db ◌>>=◌ find_by_invite accept_as lock_status accept_row_of lookup accept_locked
    is_too_old accept_fresh flip draw sign_in vault_of issue add_family bind_session mint
    add_refresh accept_invitation expire record_audit gets guard modify or_raise pure save
    create_access_token locked
accepted_run = refl

accept_once_example :
    accept_invitation test_env 40 7 accepted_db ≢ ok (signed_in 5 tokens) accepted_db
accept_once_example =
    accept_once test_env 40 6 5 tokens invited_db accepted_db accepted_run 40 7 tokens accepted_db

reads : IsDecoded test_env 901 tokens.access
unfolding IsDecoded
reads = λ t. refl

abbrev soon : ℕ
soon = 60 * second

accept-signed_in_example :
    ((ben : Beneficiary) × (get_current_beneficiary test_env (some 901) soon accepted_db ≡ some ben)
      × (ben.id ≡ 5)
      × (ben.invitation_status ≡ InvitationStatus.accepted))
    × ((after : ℕ)
        → get_current_beneficiary test_env (some 901) (expiry 30 6 + after) accepted_db ≡ none)
accept-signed_in_example =
    accept-signed_in test_env 40 6 5 901 tokens invited_db accepted_db accepted_run reads
      (omega arith) soon (omega arith) (omega arith)
