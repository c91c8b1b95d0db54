-- ===== src/Sessions.antt =====
-- backend/services/sessions.py: session families and their single-use refresh credentials, and the
-- claims of backend/services/auth.py's access tokens.
pub mod Refresh
pub mod Reuse
pub mod Revoke
pub mod Issue
use legacylock.Prelude.{
  ℕ, suc, ◌+◌, ◌*◌, ◌/◌, ◌==◌, Bool, true, false, not, ◌&&◌, ◌||◌, Option, none, some, List, [],
  ◌∷◌, ◌++◌, String, exists, leb, ltb, opt_eq, is_some, str_eq, if◌then◌else◌, lookup, update_where,
}
use legacylock.Lifecycle.{accepted, same_invitation}
use legacylock.Models.{
  Db, Role, owner, beneficiary, same_role, AuthSession, SessionRefresh, AuthChallenge, Beneficiary,
  second, day,
}
use legacylock.Env.{Env}
use legacylock.Outcome.{
  Tx, ok, err, http, no_result, integrity, failure, ◌>>=◌, ◌>>◌, guard, pure, gets, modify,
  or_raise,
}
use legacylock.Outbox.{draw, cancel_recipient}
use legacylock.Trigger.{lock_status}

-- The claims of an access token, `iat` and `exp` in whole seconds; the signature is PyJWT's.
pub record AccessClaims : Type 0 where
  pub sub : ℕ
  pub vault_id : Option ℕ
  pub role : Role
  pub auth_epoch : String
  pub iat : ℕ
  pub exp : ℕ
  pub jti : ℕ

-- An access token and a raw refresh credential.
pub record Tokens : Type 0 where
  pub access : AccessClaims
  pub raw : ℕ

unfoldable pub family_of : ℕ → Db → Option AuthSession
family_of sid db = lookup (λ (f : AuthSession). f.id) sid db.families

unfoldable pub refresh_of : ℕ → Db → Option SessionRefresh
refresh_of hash db = lookup (λ (r : SessionRefresh). r.token_hash) hash db.refreshes

-- The primary key of a refresh credential is its hash.
unfoldable pub add_refresh : SessionRefresh → Tx Db (Unit {0})
add_refresh row = do
  clash ← gets (λ db. exists (λ (r : SessionRefresh). r.token_hash == row.token_hash) db.refreshes)
  guard (not clash) integrity
  modify (λ db. record db { refreshes = db.refreshes ++ row ∷ [] })

abbrev pub minutes_of : Role → ℕ
minutes_of owner = 15
minutes_of beneficiary = 30

-- `create_access_token` with the family's id as its `jti`.
unfoldable pub create_access_token : Env → AuthSession → ℕ → AccessClaims
create_access_token env family now = record {
  sub = family.principal_id;
  vault_id = family.vault_id;
  role = family.role;
  auth_epoch = env.auth_epoch;
  iat = now / second;
  exp = (now + minutes_of family.role * (60 * second)) / second;
  jti = family.id;
}

unfoldable pub mint : Env → AuthSession → ℕ → Tx Db Tokens
mint env family now = do
  raw ← draw env
  add_refresh (record {
    token_hash = env.sha256 raw;
    session_id = family.id;
    consumed_at = none;
    expires_at = family.expires_at;
  })
  pure (record { access = create_access_token env family now; raw = raw })

abbrev pub lifetime : Role → ℕ
lifetime owner = 30 * day
lifetime beneficiary = 7 * day

abbrev pub new_family : Env → ℕ → Role → ℕ → Option ℕ → Option ℕ → ℕ → AuthSession
new_family env id role principal_id vault_id contact_revision now = record {
  id = id;
  role = role;
  principal_id = principal_id;
  vault_id = vault_id;
  contact_revision = contact_revision;
  auth_epoch = env.auth_epoch;
  revoked = false;
  expires_at = now + lifetime role;
}

unfoldable pub add_family : AuthSession → Tx Db (Unit {0})
add_family row = do
  clash ← gets (λ db. exists (λ (f : AuthSession). f.id == row.id) db.families)
  guard (not clash) integrity
  modify (λ db. record db { families = db.families ++ row ∷ [] })

abbrev pub ben_of : ℕ → Db → Option Beneficiary
ben_of id db = lookup (λ (b : Beneficiary). b.id) id db.beneficiaries

abbrev pub bind_jti : ℕ → Beneficiary → Beneficiary
bind_jti jti ben = record ben { session_jti = some jti }

-- A beneficiary's row names its family; a missing row raises.
unfoldable pub bind_session : Role → ℕ → ℕ → Tx Db (Unit {0})
bind_session owner principal_id jti = pure tt
bind_session beneficiary principal_id jti = do
  found ← gets (ben_of principal_id)
  or_raise found failure
  modify (λ db. record db {
    beneficiaries = update_where (λ b. b.id == principal_id) (bind_jti jti) db.beneficiaries;
  })

unfoldable pub issue : Env → Role → ℕ → Option ℕ → Option ℕ → ℕ → Tx Db Tokens
issue env role principal_id vault_id contact_revision now = do
  id ← draw env
  add_family (new_family env id role principal_id vault_id contact_revision now)
  bind_session role principal_id id
  mint env (new_family env id role principal_id vault_id contact_revision now) now

-- `valid_family` of a row that was found.
unfoldable pub is_valid_family : Env → Role → ℕ → ℕ → AuthSession → Bool
is_valid_family env role principal_id now family =
    not family.revoked
    && (same_role family.role role
        && ((family.principal_id == principal_id)
            && (str_eq family.auth_epoch env.auth_epoch && ltb now family.expires_at)))

-- `none` for no row, too.
unfoldable pub valid_family : Env → ℕ → Role → ℕ → ℕ → Db → Option AuthSession
unfolding is_valid_family
valid_family env sid role principal_id now db = elim (family_of sid db) [
  | none ↦ none
  | some family ↦ if is_valid_family env role principal_id now family then some family else none
]

-- What a refresh does: new tokens, or the 401 of a reuse, which is raised after the family's
-- revocation was committed.
pub data Rotation : Type 0 where
  rotated : AuthSession → Tokens → Rotation
  reuse_detected : Rotation

-- A beneficiary's refresh takes the vault's lock first.
unfoldable pub lock_for : Env → ℕ → Role → ℕ → Tx Db (Unit {0})
lock_for env raw owner now = pure tt
lock_for env raw beneficiary now = do
  candidate ← gets (refresh_of (env.sha256 raw))
  row ← or_raise candidate (http 401)
  found ← gets (family_of row.session_id)
  family ← or_raise found (http 401)
  guard (same_role family.role beneficiary) (http 401)
  vault_id ← or_raise family.vault_id no_result
  lock_status vault_id now
  pure tt

abbrev is_current_contact : Option Beneficiary → AuthSession → Bool
is_current_contact none family = false
is_current_contact (some ben) family =
    same_invitation ben.invitation_status accepted
    && opt_eq (some ben.contact_revision) family.contact_revision

unfoldable pub check_contact : Role → AuthSession → Tx Db (Unit {0})
check_contact owner family = pure tt
check_contact beneficiary family = do
  ben ← gets (ben_of family.principal_id)
  guard (is_current_contact ben family) (http 401)

abbrev pub revoke : AuthSession → AuthSession
revoke family = record family { revoked = true }

abbrev pub revoke_family : ℕ → Db → Db
revoke_family sid db = record db {
  families = update_where (λ (f : AuthSession). f.id == sid) revoke db.families;
}

abbrev pub consume : ℕ → SessionRefresh → SessionRefresh
consume now row = record row { consumed_at = some now }

-- The two ends of a rotation: the credential was consumed before, or is consumed now.
unfoldable pub use_refresh : Env → AuthSession → SessionRefresh → Option ℕ → ℕ → Tx Db Rotation
use_refresh env family row (some before) now = do
  guard (not (leb now (before + 10 * second))) (http 409)
  modify (revoke_family family.id)
  pure reuse_detected
use_refresh env family row none now = do
  modify (λ db. record db {
    refreshes =
        update_where
          (λ (r : SessionRefresh). r.token_hash == row.token_hash && not (is_some r.consumed_at))
          (consume now) db.refreshes;
  })
  tokens ← mint env family now
  pure (rotated family tokens)

unfoldable pub rotate_family : Env → Role → ℕ → SessionRefresh → AuthSession → Tx Db Rotation
rotate_family env role now row family = do
  valid ← gets (valid_family env family.id role family.principal_id now)
  guard (is_some valid) (http 401)
  check_contact role family
  use_refresh env family row row.consumed_at now

unfoldable pub rotate_locked : Env → ℕ → Role → ℕ → Tx Db Rotation
rotate_locked env raw role now = do
  found ← gets (refresh_of (env.sha256 raw))
  row ← or_raise found (http 401)
  held ← gets (family_of row.session_id)
  family ← or_raise held no_result
  rotate_family env role now row family

unfoldable pub rotate : Env → ℕ → Role → ℕ → Tx Db Rotation
rotate env raw role now = do lock_for env raw role now; rotate_locked env raw role now

-- The family of a cookie's refresh credential, if it has this role.
unfoldable pub cookie_family : Env → Option ℕ → Role → Db → Option AuthSession
cookie_family env none role db = none
cookie_family env (some raw) role db = elim (refresh_of (env.sha256 raw) db) [
  | none ↦ none
  | some row ↦ elim (family_of row.session_id db) [
    | none ↦ none
    | some family ↦ if same_role family.role role then some family else none
  ]
]

unfoldable pub revoke_found : Option AuthSession → Tx Db (Option AuthSession)
revoke_found none = pure none
revoke_found (some family) = do modify (revoke_family family.id); pure (some (revoke family))

unfoldable pub revoke_cookie : Env → Option ℕ → Role → Tx Db (Option AuthSession)
revoke_cookie env raw role = do family ← gets (cookie_family env raw role); revoke_found family

abbrev pub is_beneficiary_family : ℕ → AuthSession → Bool
is_beneficiary_family id f = same_role f.role beneficiary && (f.principal_id == id)

abbrev pub consume_challenge : ℕ → AuthChallenge → AuthChallenge
consume_challenge now c = record c { consumed_at = some now }

abbrev pub clear_session : Beneficiary → Beneficiary
clear_session ben = record ben {
  session_jti = none;
  refresh_hash = none;
  refresh_expires_at = none;
}

unfoldable pub revoke_beneficiary : ℕ → ℕ → Tx Db (Unit {0})
revoke_beneficiary id now = do
  modify (λ db. record db {
    families = update_where (is_beneficiary_family id) revoke db.families;
    challenges =
        update_where
          (λ (c : AuthChallenge). (c.beneficiary_id == id) && not (is_some c.consumed_at))
          (consume_challenge now) db.challenges;
    beneficiaries = update_where (λ b. b.id == id) clear_session db.beneficiaries;
  })
  cancel_recipient id
