-- ===== src/Tests/Logins.antt =====
-- Sign-ins and refreshes of the scenario's owner.
use legacylock.Outbox.{draw}
use legacylock.Sessions.{
  lock_for, rotate_locked, family_of, rotate_family, valid_family, check_contact, use_refresh,
  add_refresh,
}
use legacylock.Prelude.{
  ℕ, ◌+◌, ◌*◌, ◌<◌, ◌≡◌, refl, true, false, none, some, [], ◌∷◌, exists, str_eq, lookup,
}
use legacylock.Lifecycle.{grace}
use legacylock.Models.{Db, owner, same_role, AuthSession, SessionRefresh, second, day}
use legacylock.Outcome.{ok, settle, ◌>>=◌}
use legacylock.Sessions.{
  rotate, rotated, reuse_detected, Tokens, mint, create_access_token, refresh_of,
  revoke_beneficiary,
}
use legacylock.Sessions.Refresh.{rotate_single_use}
use legacylock.Sessions.Reuse.{is_fresh_credential, reuse_ends_family, rotated_within_family}
use legacylock.Sessions.Revoke.{
  revoke_beneficiary_ends_all, is_live_family, is_open_challenge, is_pending_for,
}
use legacylock.Tests.Scenario.{test_env, db_in}

abbrev family : AuthSession
family = record {
  id = 50;
  role = owner;
  principal_id = 2;
  vault_id = some 1;
  contact_revision = none;
  auth_epoch = "1";
  revoked = false;
  expires_at = 30 * day;
}

-- Credential 7, whose hash is 12.
abbrev credential : SessionRefresh
credential = record { token_hash = 12; session_id = 50; consumed_at = none; expires_at = 30 * day }

abbrev login_db : Db
login_db = record (db_in grace) { families = family ∷ []; refreshes = credential ∷ [] }

unfoldable rotated_db : Db
unfolding rotate
rotated_db = settle login_db (rotate test_env 7 owner 5 login_db)

abbrev tokens : Tokens
tokens = record {
  access = record {
    sub = 2;
    vault_id = some 1;
    role = owner;
    auth_epoch = "1";
    iat = 0;
    exp = 900;
    jti = 50;
  };
  raw = 100;
}

rotated_run : rotate test_env 7 owner 5 login_db ≡ ok (rotated family tokens) rotated_db
unfolding rotated_db ◌>>=◌ lock_for rotate_locked refresh_of lookup family_of rotate_family
    valid_family check_contact use_refresh mint draw add_refresh create_access_token
rotated_run = refl

rotate_single_use_example :
    ¬ (rotate test_env 7 owner 6 rotated_db ≡ ok (rotated family tokens) rotated_db)
rotate_single_use_example =
    rotate_single_use test_env 7 owner owner 5 6 family family tokens tokens login_db rotated_db
      rotated_db rotated_run

rotated_within_family_example :
    ((row : SessionRefresh) × (refresh_of 12 login_db ≡ some row)
      × (row.consumed_at ≡ none)
      × (family_of row.session_id login_db ≡ some family))
    × (family.revoked ≡ false)
    × (same_role family.role owner ≡ true)
    × (str_eq family.auth_epoch "1" ≡ true)
    × (5 < family.expires_at)
    × (tokens.access.jti ≡ 50)
    × (tokens.access.sub ≡ 2)
    × (exists (is_fresh_credential test_env family tokens) rotated_db.refreshes ≡ true)
rotated_within_family_example =
    rotated_within_family test_env 7 owner 5 family tokens login_db rotated_db rotated_run

-- A minute later.
abbrev later : ℕ
later = 60 * second

unfoldable reused_db : Db
unfolding rotate
reused_db = settle rotated_db (rotate test_env 7 owner later rotated_db)

reused_run : rotate test_env 7 owner later rotated_db ≡ ok reuse_detected reused_db
unfolding reused_db rotated_db ◌>>=◌ lock_for rotate_locked refresh_of lookup family_of
    rotate_family valid_family check_contact use_refresh mint draw add_refresh
reused_run = refl

abbrev old_row : SessionRefresh
old_row = record { token_hash = 12; session_id = 50; consumed_at = some 5; expires_at = 30 * day }

abbrev new_row : SessionRefresh
new_row = record { token_hash = 105; session_id = 50; consumed_at = none; expires_at = 30 * day }

old_found : refresh_of 12 rotated_db ≡ some old_row
unfolding rotated_db ◌>>=◌ refresh_of lookup lock_for rotate_locked family_of rotate_family
    valid_family check_contact use_refresh mint draw add_refresh
old_found = refl

new_found : refresh_of 105 reused_db ≡ some new_row
unfolding reused_db rotated_db ◌>>=◌ refresh_of lookup lock_for rotate_locked family_of
    rotate_family valid_family check_contact use_refresh mint draw add_refresh
new_found = refl

reuse_ends_family_example :
    ((c : ℕ) × (old_row.consumed_at ≡ some c) × (c + 10 * second < later))
    × (¬ (rotate test_env 100 owner later reused_db ≡ ok reuse_detected reused_db))
reuse_ends_family_example =
    reuse_ends_family test_env 7 100 owner owner later later old_row new_row reuse_detected
      rotated_db reused_db reused_db reused_run old_found new_found refl

revoke_beneficiary_ends_all_example :
    (d' : Db) × (revoke_beneficiary 5 9 login_db ≡ ok tt d')
    × (exists (is_live_family 5) d'.families ≡ false)
    × (exists (is_open_challenge 5) d'.challenges ≡ false)
    × (exists (is_pending_for 5) d'.jobs ≡ false)
revoke_beneficiary_ends_all_example = revoke_beneficiary_ends_all 5 9 login_db
