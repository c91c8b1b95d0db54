-- ===== src/Accounts.antt =====
-- backend/routers/auth.py: owners register, prove their address, sign in and out.
pub mod Invite
pub mod Verification
pub mod Links
pub mod Entry
use legacylock.Prelude.{
  ℕ, ◌==◌, Bool, true, false, not, ◌&&◌, ◌||◌, Option, none, some, [], ◌∷◌, ◌++◌, String, str_eq,
  first, leb, is_some, if◌then◌else◌,
}
use legacylock.Models.{Db, User, Vault, Role, owner, AuthSession, Actor}
use legacylock.Env.{Env}
use legacylock.Outcome.{
  Tx, Outcome, ok, err, http, failure, ◌>>=◌, ◌>>◌, guard, pure, gets, modify, or_raise,
}
use legacylock.Audit.{record_audit}
use legacylock.Outbox.{draw}
use legacylock.Sessions.{Tokens, Rotation, rotated, reuse_detected, issue, rotate, revoke_cookie}
use legacylock.Heartbeat.{primary_vault}
use legacylock.Ceremony.{next_id, new_vault}
use legacylock.Ceremony.Bundle.{save_vault, text_length}
use Invite.{check_invite}
use Verification.{issue_verification, consume_verification}

abbrev has_length : ℕ → ℕ → String → Bool
has_length low high s = leb low (text_length s) && leb (text_length s) high

unfoldable pub is_password : String → Bool
is_password s = has_length 12 256 s

unfoldable pub user_with : String → Db → Option User
user_with email db = first (λ u. str_eq u.email email) db.users

unfoldable pub new_user : Env → ℕ → String → String → ℕ → ℕ → User
new_user env id email password salt now = record {
  id = id;
  email = email;
  password_hash = env.hash_password salt password;
  email_verified_at = none;
  updated_at = now;
}

unfoldable pub insert_user : User → Tx Db (Unit {0})
insert_user user = modify λ db. record db { users = db.users ++ user ∷ [] }

-- The savepoint of the insert is for a race on the address; here no other request runs.
unfoldable pub find_or_create : Env → String → String → ℕ → Option User → Tx Db User
find_or_create env email password now (some user) = pure user
find_or_create env email password now none = do
  salt ← draw env
  id ← next_id
  insert_user (new_user env id email password salt now)
  vault_id ← next_id
  modify (save_vault (new_vault vault_id id now))
  record_audit none (Actor.owner id) "auth.register"
  pure (new_user env id email password salt now)

abbrev is_verified : User → Bool
is_verified user = is_some user.email_verified_at

-- A link, unless the address is proved; a cooldown is suppressed.
unfoldable pub send_if_needed : Env → User → ℕ → Tx Db (Unit {0})
send_if_needed env user now =
    if is_verified user then pure tt else (do issue_verification env user true now; pure tt)

unfoldable pub register : Env → String → String → String → ℕ → Tx Db (Unit {0})
register env address password invite_code now = do
  guard (is_password password && has_length 8 256 invite_code) (http 422)
  check_invite env invite_code
  found ← gets (user_with (env.strip_lower address))
  user ← find_or_create env (env.strip_lower address) password now found
  send_if_needed env user now

unfoldable pub verify_email : Env → ℕ → ℕ → Tx Db (Unit {0})
verify_email env raw now = do
  user ← consume_verification env raw now
  guard (is_some user) (http 400)

abbrev pub unverified : Option User → Option User
unverified none = none
unverified (some user) = if is_verified user then none else some user

-- The raw token, which the route shows as a link in tests.
unfoldable pub test_issue_verification : Env → String → ℕ → Tx Db ℕ
test_issue_verification env address now = do
  guard env.testing (http 404)
  found ← gets (λ db. unverified (user_with (env.strip_lower address) db))
  user ← or_raise found (http 404)
  raw ← issue_verification env user false now
  or_raise raw failure

unfoldable pub resend_to : Env → Option User → ℕ → Tx Db (Unit {0})
resend_to env none now = pure tt
resend_to env (some user) now = do issue_verification env user true now; pure tt

-- Whatever is raised is rolled back and not shown.
unfoldable pub resend_verification : Env → String → ℕ → Tx Db (Unit {0})
resend_verification env address now db =
    elim (resend_to env (unverified (user_with (env.strip_lower address) db)) now db) [
      | ok a after ↦ ok tt after
      | err e ↦ ok tt db
    ]

-- How a login ends that found the user and the password: signed in, or the 403 after a commit.
pub data LoginResult : Type 0 where
  logged_in : ℕ → Tokens → LoginResult
  not_verified : LoginResult

abbrev id_of : Option Vault → Option ℕ
id_of none = none
id_of (some vault) = some vault.id

unfoldable pub open_session : Env → User → ℕ → Tx Db LoginResult
open_session env user now = do
  vault ← gets (primary_vault user.id)
  tokens ← issue env owner user.id (id_of vault) none now
  record_audit (id_of vault) (Actor.owner user.id) "auth.login"
  pure (logged_in user.id tokens)

unfoldable pub block : User → Tx Db LoginResult
block user = do
  record_audit none (Actor.owner user.id) "auth.login_blocked_unverified"
  pure not_verified

unfoldable pub login_as : Env → User → ℕ → Tx Db LoginResult
login_as env user now = if is_verified user then open_session env user now else block user

unfoldable pub login : Env → String → String → ℕ → Tx Db LoginResult
login env address password now = do
  guard (is_password password) (http 422)
  found ← gets (user_with (env.strip_lower address))
  user ← or_raise found (http 401)
  guard (env.verify_password password user.password_hash) (http 401)
  login_as env user now

abbrev audit_logout : Option AuthSession → Tx Db (Unit {0})
audit_logout none = pure tt
audit_logout (some family) =
    record_audit family.vault_id (Actor.owner family.principal_id) "auth.logout"

unfoldable pub logout : Env → Option ℕ → Tx Db (Unit {0})
logout env cookie = do family ← revoke_cookie env cookie owner; audit_logout family

-- A reuse is raised by `rotate`, before the audit.
unfoldable pub audit_refresh : Rotation → Tx Db Rotation
audit_refresh reuse_detected = pure reuse_detected
audit_refresh (rotated family tokens) = do
  record_audit family.vault_id (Actor.owner family.principal_id) "auth.refresh"
  pure (rotated family tokens)

unfoldable pub refresh : Env → Option ℕ → ℕ → Tx Db Rotation
refresh env cookie now = do
  raw ← or_raise cookie (http 401)
  result ← rotate env raw owner now
  audit_refresh result
