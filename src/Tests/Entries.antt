-- ===== src/Tests/Entries.antt =====
-- The scenario's owner proves the address, signs in and out, and the beneficiary redeems a link.
use legacylock.Outbox.{new_job}
use legacylock.Outbox.Payloads.{context, protect}
use legacylock.Login.{
  has_recent, offer_all, login_candidates, sort_candidates, offer_each, offer, offer_to, latest_of,
  latest, send_link, add_challenge, new_challenge,
}
use legacylock.Prelude.{save}
use legacylock.Trigger.{lock_status, locked}
use legacylock.Login.Offers.{Offers, request_link-Offers}
use legacylock.Login.{
  request_link, redeem_challenge, redeem_locked, is_contact_of, redeem_for, burn,
}
use legacylock.Outcome.{gets, guard, modify, or_raise, pure}
use legacylock.Accounts.{block}
use legacylock.Sessions.{revoke_cookie, revoke_found, cookie_family, refresh_of, family_of}
use legacylock.Outbox.{event, enqueue, cancel}
use legacylock.Accounts.Verification.{cancel_links, drop_tokens, add_token, mail_link}
use legacylock.Accounts.Verification.{
  consume_verification, consume_candidate, consume_for, spend_token, mark_verified,
}
use legacylock.Heartbeat.{primary_vault}
use legacylock.Audit.{record_audit}
use legacylock.Outbox.{draw}
use legacylock.Sessions.{issue, add_family, bind_session, mint, add_refresh, create_access_token}
use legacylock.Ceremony.Bundle.{text_length}
use legacylock.Accounts.{is_password, user_with, login_as, open_session}
use legacylock.Prelude.{
  ℕ, ◌+◌, ◌*◌, update_where, arith, ◌≡◌, refl, true, none, some, [], ◌∷◌, lookup,
}
use legacylock.Lifecycle.{grace}
use legacylock.Models.{
  Db, User, Role, AuthChallenge, Purpose, EmailVerificationToken, Recipient, day, second,
}
use legacylock.Outcome.{ok, err, http, settle, ◌>>=◌}
use legacylock.Sessions.{Tokens}
use legacylock.Accounts.{login, logged_in, logout, verify_email}
use legacylock.Accounts.Verification.{user_of, issue_token, new_token, is_obsolete_link}
use legacylock.Accounts.Links.{verify_once, open_links, one_open_link, IsQueued, link_mail}
use legacylock.Accounts.Entry.{LoggedIn, login-LoggedIn, session_until_logout}
use legacylock.Guards.{get_current_user}
use legacylock.Guards.Claims.{IsDecoded, expiry}
use legacylock.Login.Offers.{Offers, request_link-Offers}
use legacylock.Login.{request_link, redeem_link, challenge_of, is_redeemable}
use legacylock.Login.Redeem.{Redeemed, redeem-Redeemed, redeem_once}
use legacylock.Tests.Scenario.{test_env, owner_claims, db_in}

abbrev owner_tokens : Tokens
owner_tokens = record { access = owner_claims; raw = 101 }

unfoldable entered_db : Db
unfolding login
entered_db =
    settle (db_in grace) (login test_env "owner@example.org" "correct horse" 5 (db_in grace))

entered_run :
    login test_env "owner@example.org" "correct horse" 5 (db_in grace)
    ≡ ok (logged_in 2 owner_tokens) entered_db
unfolding entered_db ◌>>=◌ is_password text_length user_with login_as open_session issue draw
    add_family bind_session mint add_refresh record_audit create_access_token primary_vault
entered_run = refl

login-LoggedIn_example :
    LoggedIn test_env "owner@example.org" "correct horse" 5 2 owner_tokens (db_in grace) entered_db
login-LoggedIn_example =
    login-LoggedIn test_env "owner@example.org" "correct horse" 5 2 owner_tokens (db_in grace)
      entered_db entered_run

unfoldable left_db : Db
unfolding logout
left_db = settle entered_db (logout test_env (some 101) entered_db)

left_run : logout test_env (some 101) entered_db ≡ ok tt left_db
unfolding left_db entered_db ◌>>=◌ revoke_cookie revoke_found cookie_family refresh_of lookup
    is_password text_length user_with login_as open_session issue draw add_family bind_session mint
    add_refresh record_audit block login logout primary_vault gets guard modify or_raise pure
    create_access_token family_of
left_run = refl

abbrev soon : ℕ
soon = 60 * second

owner_reads : IsDecoded test_env 900 owner_tokens.access
unfolding IsDecoded
owner_reads = λ t. refl

session_until_logout_example :
    (get_current_user test_env (some 900) soon entered_db ≡ user_of 2 (db_in grace))
    × (get_current_user test_env (some 900) soon left_db ≡ none)
    × ((after : ℕ) → get_current_user test_env (some 900) (expiry 15 5 + after) entered_db ≡ none)
session_until_logout_example =
    session_until_logout test_env "owner@example.org" "correct horse" 5 2 900 owner_tokens
      (db_in grace) entered_db left_db entered_run owner_reads (omega arith) left_run soon
      (omega arith) (omega arith)

abbrev newcomer : User
newcomer = record {
  id = 3;
  email = "new@example.org";
  password_hash = "another horse";
  email_verified_at = none;
  updated_at = 0;
}

-- The link's token is 40, its hash 45.
abbrev link : EmailVerificationToken
link = record { user_id = 3; token_hash = 45; expires_at = day; consumed_at = none; created_at = 0 }

abbrev link_db : Db
link_db = record (db_in grace) { users = newcomer ∷ []; tokens = link ∷ [] }

unfoldable proved_db : Db
unfolding verify_email
proved_db = settle link_db (verify_email test_env 40 6 link_db)

proved_run : verify_email test_env 40 6 link_db ≡ ok tt proved_db
unfolding proved_db ◌>>=◌ consume_verification consume_candidate consume_for lookup spend_token
    mark_verified record_audit
proved_run = refl

verify_once_example : verify_email test_env 40 7 proved_db ≡ err (http 400)
verify_once_example = verify_once test_env 40 6 link_db proved_db proved_run 7

unfoldable sent_db : Db
unfolding issue_token
sent_db = settle link_db (issue_token test_env newcomer 6 link_db)

sent_run : issue_token test_env newcomer 6 link_db ≡ ok 100 sent_db
unfolding sent_db ◌>>=◌ cancel_links drop_tokens draw add_token mail_link record_audit event enqueue
sent_run = refl

one_open_link_example :
    (open_links 3 sent_db ≡ new_token test_env 3 100 6 ∷ [])
    × IsQueued test_env
        (Recipient.owner 3)
        (link_mail test_env newcomer 100)
        (update_where (is_obsolete_link link_db.events 3) cancel link_db.jobs)
        sent_db.jobs
one_open_link_example = one_open_link test_env newcomer 6 100 link_db sent_db sent_run

abbrev challenge : AuthChallenge
challenge = record {
  token_hash = 45;
  beneficiary_id = 5;
  contact_revision = 1;
  purpose = Purpose.login;
  auth_epoch = "1";
  consumed_at = none;
  expires_at = day;
  created_at = 0;
}

abbrev challenge_db : Db
challenge_db = record (db_in grace) { challenges = challenge ∷ [] }

abbrev ben_tokens : Tokens
ben_tokens = record {
  access = record {
    sub = 5;
    vault_id = some 1;
    role = Role.beneficiary;
    auth_epoch = "1";
    iat = 0;
    exp = 1800;
    jti = 100;
  };
  raw = 101;
}

unfoldable redeemed_db : Db
unfolding redeem_link
redeemed_db = settle challenge_db (redeem_link test_env 40 6 challenge_db)

redeemed_run : redeem_link test_env 40 6 challenge_db ≡ ok (5, ben_tokens) redeemed_db
unfolding redeemed_db ◌>>=◌ challenge_of lookup redeem_challenge is_redeemable lock_status
    redeem_locked is_contact_of redeem_for burn issue draw add_family bind_session mint add_refresh
    record_audit create_access_token redeem_link gets guard modify or_raise pure save locked
redeemed_run = refl

redeem_once_example : redeem_link test_env 40 7 redeemed_db ≡ err (http 401)
redeem_once_example = redeem_once test_env 40 6 5 ben_tokens challenge_db redeemed_db redeemed_run 7

redeem-Redeemed_example :
    (c : AuthChallenge) × (challenge_of 45 challenge_db ≡ some c)
    × (is_redeemable test_env c 6 ≡ true)
    × Redeemed test_env c 6 5 ben_tokens challenge_db redeemed_db
redeem-Redeemed_example =
    redeem-Redeemed test_env 40 6 5 ben_tokens challenge_db redeemed_db redeemed_run

unfoldable asked_db : Db
unfolding request_link
asked_db = settle (db_in grace) (request_link test_env "ben@example.org" none 6 (db_in grace))

asked_run : request_link test_env "ben@example.org" none 6 (db_in grace) ≡ ok tt asked_db
unfolding asked_db ◌>>=◌ has_recent offer_all login_candidates sort_candidates offer_each offer
    lock_status offer_to lookup latest_of latest send_link draw add_challenge event enqueue
    record_audit new_challenge request_link context protect new_job gets guard modify pure save
    locked
asked_run = refl

request_link-Offers_example : Offers "ben@example.org" (db_in grace) asked_db
request_link-Offers_example =
    request_link-Offers test_env "ben@example.org" none 6 (db_in grace) asked_db asked_run
