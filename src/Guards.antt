-- ===== src/Guards.antt =====
-- backend/deps.py: who a request is signed in as, and `decode_access_token` of backend/services/auth.py.
-- A token is what the header or the cookie holds.
pub mod Contact
pub mod Claims
use legacylock.Prelude.{
  ℕ, zero, suc, ◌==◌, Bool, true, false, not, ◌&&◌, ◌||◌, Option, none, some, String, str_eq,
  opt_eq, opt_str_eq, is_some, if◌then◌else◌, lookup,
}
use legacylock.Lifecycle.{accepted, same_invitation}
use legacylock.Models.{Db, User, Beneficiary, Role, owner, beneficiary, AuthSession, JwtPayload}
use legacylock.Env.{Env}
use legacylock.Outcome.{Tx, http, or_raise}
use legacylock.Sessions.{family_of, valid_family, ben_of}

abbrev pub role_name : Role → String
role_name owner = "owner"
role_name beneficiary = "beneficiary"

-- The tests of `decode_access_token` behind the library's.
unfoldable pub is_access_payload : Env → JwtPayload → Bool
is_access_payload env p =
    opt_str_eq p.type (some "access")
    && (opt_str_eq p.auth_epoch (some env.auth_epoch)
        && ((opt_str_eq p.role (some "owner") || opt_str_eq p.role (some "beneficiary"))
            && (is_some p.sub && p.has_vault_id)))

unfoldable pub decode_access_token : Env → ℕ → ℕ → Option JwtPayload
decode_access_token env token now = elim (env.jwt_decode now token) [
  | none ↦ none
  | some p ↦ if is_access_payload env p then some p else none
]

-- A positive `int(sub)`.
abbrev pub positive : Option (Option ℕ) → Option ℕ
positive (some (some (suc n))) = some (suc n)
positive _ = none

-- The claims of a token of this role: the principal and the `jti`.
unfoldable pub principal : Env → Role → Option ℕ → ℕ → Option (ℕ × Option ℕ)
principal env role none now = none
principal env role (some token) now = elim (decode_access_token env token now) [
  | none ↦ none
  | some p ↦
      if opt_str_eq p.role (some (role_name role))
      then elim (positive p.sub) [ none ↦ none | some id ↦ some (id, p.jti) ]
      else none
]

-- A token without a `jti` is a legacy one, which production refuses.
unfoldable pub has_owner_session : Env → ℕ → Option ℕ → ℕ → Db → Bool
has_owner_session env id none now db = not env.production
has_owner_session env id (some sid) now db = is_some (valid_family env sid owner id now db)

unfoldable pub user_for : Env → ℕ → Option ℕ → ℕ → Db → Option User
user_for env id jti now db =
    if has_owner_session env id jti now db then lookup (λ (u : User). u.id) id db.users else none

unfoldable pub get_current_user : Env → Option ℕ → ℕ → Db → Option User
get_current_user env token now db = elim (principal env owner token now) [
  | none ↦ none
  | some claims ↦ user_for env claims.0 claims.1 now db
]

-- The family of the `jti` was issued for this contact and vault.
abbrev pub is_of_contact : Beneficiary → AuthSession → Bool
is_of_contact ben family =
    opt_eq family.contact_revision (some ben.contact_revision)
    && opt_eq family.vault_id (some ben.vault_id)

abbrev pub family_for : Env → Option ℕ → ℕ → ℕ → Db → Option AuthSession
family_for env none id now db = none
family_for env (some sid) id now db = valid_family env sid beneficiary id now db

abbrev names_family : Option ℕ → Db → Bool
names_family none db = false
names_family (some sid) db = is_some (family_of sid db)

-- Without a valid family, only outside of production, and never for a family that is not valid, the
-- `jti` that the row is bound to counts.
unfoldable pub has_legacy_session : Env → Beneficiary → Option ℕ → Db → Bool
has_legacy_session env ben jti db =
    not (names_family jti db) && (not env.production && opt_eq ben.session_jti jti)

unfoldable pub has_beneficiary_session : Env → Beneficiary → Option ℕ → ℕ → Db → Bool
has_beneficiary_session env ben jti now db = elim (family_for env jti ben.id now db) [
  | none ↦ has_legacy_session env ben jti db
  | some family ↦ is_of_contact ben family
]

-- Only accepted beneficiaries hold usable sessions.
unfoldable pub beneficiary_for : Env → ℕ → Option ℕ → ℕ → Db → Option Beneficiary
beneficiary_for env id jti now db = elim (ben_of id db) [
  | none ↦ none
  | some ben ↦
      if same_invitation ben.invitation_status accepted
        && has_beneficiary_session env ben jti now db
      then some ben
      else none
]

unfoldable pub get_current_beneficiary : Env → Option ℕ → ℕ → Db → Option Beneficiary
get_current_beneficiary env token now db = elim (principal env beneficiary token now) [
  | none ↦ none
  | some claims ↦ beneficiary_for env claims.0 claims.1 now db
]

unfoldable pub require_owner : Env → Option ℕ → ℕ → Tx Db User
require_owner env token now db = or_raise (get_current_user env token now db) (http 401) db

unfoldable pub require_beneficiary : Env → Option ℕ → ℕ → Tx Db Beneficiary
require_beneficiary env token now db =
    or_raise (get_current_beneficiary env token now db) (http 401) db
