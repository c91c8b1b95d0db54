-- ===== src/Accounts/Entry.antt =====
-- Signing in and out: what a login needs, the session that it opens, and the logout that ends it.
use mathlib.Core.Path.{subst}
use legacylock.Prelude.{
  ℕ, ◌+◌, ◌*◌, ◌<◌, ◌≤◌, ◌≡◌, refl, sym, ap, ◌∙◌, true, Option, none, some, String, is_some, lookup,
  inl, inr, Bool-cases, Option-cases, arith, if◌then◌else◌,
}
use legacylock.Models.{Db, User, owner, AuthSession, SessionRefresh, Actor, day, second, same_role}
use legacylock.Env.{Env}
use legacylock.Outcome.{ok, pure, ◌>>=◌, and_then-eq-ok}
use legacylock.Audit.{record_audit}
use legacylock.Heartbeat.{primary_vault}
use legacylock.Sessions.{
  Tokens, issue, family_of, refresh_of, valid_family, is_valid_family, new_family, cookie_family,
  revoke_found, revoke_cookie, revoke, revoke_family,
}
use legacylock.Sessions.Issue.{Issued, issue-Issued, family-IsValid}
use legacylock.Sessions.Refresh.{family_of-same}
use legacylock.Sessions.Reuse.{revoked-found}
use legacylock.Guards.{has_owner_session, user_for, principal, get_current_user}
use legacylock.Guards.Claims.{IsDecoded, expiry, expiry-le, principal-issued, principal-over}
use legacylock.Accounts.{
  user_with, is_verified, logged_in, open_session, block, login_as, login, id_of, audit_logout,
  logout,
}
use legacylock.Accounts.Verification.{user_of}

-- What a login that signed in found and left.
pub record LoggedIn (env : Env) (address password : String) (now id : ℕ) (tokens : Tokens)
    (d d' : Db) : Type 0 where
  pub user : User
  pub has_user : user_with (env.strip_lower address) d ≡ some user
  pub same_id : user.id ≡ id
  pub right_password : env.verify_password password user.password_hash ≡ true
  pub verified : is_verified user ≡ true
  pub vault_id : Option ℕ
  pub issued : Issued env owner id vault_id none now tokens d d'

Issued-audit :
    (env : Env) (id : ℕ) (v : Option ℕ) (now : ℕ) (tokens : Tokens) (d e d' : Db)
    → e.families ≡ d'.families
    → e.refreshes ≡ d'.refreshes
    → e.users ≡ d'.users
    → e.vaults ≡ d'.vaults
    → e.challenges ≡ d'.challenges
    → e.tokens ≡ d'.tokens
    → Issued env owner id v none now tokens d e
    → Issued env owner id v none now tokens d d'
unfolding family_of refresh_of
Issued-audit env id v now tokens d e d' families refreshes users vaults challenges links i =
    record {
      has_family =
          ap (lookup (λ (f : AuthSession). f.id) tokens.access.jti) (sym families) ∙ i.has_family;
      same_users = sym users ∙ i.same_users;
      same_vaults = sym vaults ∙ i.same_vaults;
      same_challenges = sym challenges ∙ i.same_challenges;
      same_tokens = sym links ∙ i.same_tokens;
      token_of = i.token_of;
      claims = i.claims;
      refresh = i.refresh;
      has_refresh =
          ap (lookup (λ (r : SessionRefresh). r.token_hash) (env.sha256 tokens.raw)) (sym refreshes)
          ∙ i.has_refresh;
      of_family = i.of_family;
    }

recorded :
    (env : Env) (id v' : ℕ) (v : Option ℕ) (now : ℕ) (kind : String) (given tokens : Tokens)
    (d e d' : Db)
    → (record_audit v (Actor.owner v') kind >>= λ _. pure (logged_in v' given)) e
      ≡ ok (logged_in id tokens) d'
    → Issued env owner v' v none now given d e
    → (v' ≡ id) × Issued env owner v' v none now tokens d d'
unfolding record_audit ◌>>=◌
recorded env id v' v now kind given tokens d e d' h i =
    let same : given ≡ tokens = ground arith in
    (
      ground arith,
      subst (λ t. Issued env owner v' v none now t d d') same
          (Issued-audit env v' v now given d e d' (ground arith) (ground arith) (ground arith)
            (ground arith) (ground arith) (ground arith) i),
    )

open-LoggedIn :
    (env : Env) (user : User) (now id : ℕ) (tokens : Tokens) (d d' : Db)
    → open_session env user now d ≡ ok (logged_in id tokens) d'
    → (user.id ≡ id)
      × Issued env owner user.id (id_of (primary_vault user.id d)) none now tokens d d'
unfolding open_session ◌>>=◌
open-LoggedIn env user now id tokens d d' h =
    let (given, e, h1, h2) =
      and_then-eq-ok (issue env owner user.id (id_of (primary_vault user.id d)) none now d) _
        (logged_in id tokens) d' h in
    let (issued, bounds) =
      issue-Issued env owner user.id (id_of (primary_vault user.id d)) none now given d e h1 in
    recorded env id user.id (id_of (primary_vault user.id d)) now "auth.login" given tokens d e d'
      h2 issued

as-LoggedIn :
    (env : Env) (user : User) (now id : ℕ) (tokens : Tokens) (d d' : Db)
    → login_as env user now d ≡ ok (logged_in id tokens) d'
    → (is_verified user ≡ true) × (open_session env user now d ≡ ok (logged_in id tokens) d')
unfolding login_as block record_audit ◌>>=◌
as-LoggedIn env user now id tokens d d' h = elim (Bool-cases (is_verified user)) [
  | inl e ↦ (e, ground arith)
  | inr e ↦ absurd (ground arith)
]

-- A login needs the password and a proved address: whenever `login` signs in, the stored user with the
-- address as normalised has that password and a verified address, and the tokens are of a new
-- session of this user.
pub login-LoggedIn :
    (env : Env) (address password : String) (now id : ℕ) (tokens : Tokens) (d d' : Db)
    → login env address password now d ≡ ok (logged_in id tokens) d'
    → LoggedIn env address password now id tokens d d'
unfolding login ◌>>=◌
login-LoggedIn env address password now id tokens d d' h =
    elim (Option-cases (user_with (env.strip_lower address) d)) [
      | inl gone ↦ absurd (ground arith)
      | inr (user, there) ↦ elim (Bool-cases (env.verify_password password user.password_hash)) [
        | inl right ↦
            (let goes : login_as env user now d ≡ ok (logged_in id tokens) d' = ground arith in
              let (verified, opens) = as-LoggedIn env user now id tokens d d' goes in
              let (same, issued) = open-LoggedIn env user now id tokens d d' opens in
              record {
                user = user;
                has_user = there;
                same_id = same;
                right_password = right;
                verified = verified;
                vault_id = id_of (primary_vault user.id d);
                issued =
                    subst
                      (λ i.
                        Issued env owner i (id_of (primary_vault user.id d)) none now tokens d d')
                      same issued;
              })
        | inr wrong ↦ absurd (ground arith)
      ]
    ]

session_opens :
    (env : Env) (id : ℕ) (v : Option ℕ) (now later : ℕ) (tokens : Tokens) (d d' : Db)
    → Issued env owner id v none now tokens d d'
    → later < now + 30 * day
    → user_for env id (some tokens.access.jti) later d' ≡ user_of id d
unfolding user_for has_owner_session
session_opens env id v now later tokens d d' issued in_time =
    let valid : valid_family env tokens.access.jti owner id later d'
        ≡ some (new_family env tokens.access.jti owner id v none now) =
      family-IsValid env owner id v none now later tokens d d' issued in_time in
    ap (λ o. if is_some o then lookup (λ (u : User). u.id) id d'.users else none) valid
    ∙ ap (lookup (λ (u : User). u.id) id) issued.same_users

cookie-found :
    (env : Env) (raw : ℕ) (row : SessionRefresh) (family : AuthSession) (d : Db)
    → refresh_of (env.sha256 raw) d ≡ some row
    → family_of row.session_id d ≡ some family
    → same_role family.role owner ≡ true
    → cookie_family env (some raw) owner d ≡ some family
unfolding cookie_family
cookie-found env raw row family d has_row has_family is_owner = ground arith

audit_logout-rows :
    (family : AuthSession) (d d' : Db)
    → audit_logout (some family) d ≡ ok tt d'
    → d'.families ≡ d.families
unfolding record_audit ◌>>=◌
audit_logout-rows family d d' h = ground arith

logout-rows :
    (env : Env) (raw : ℕ) (family : AuthSession) (d d' : Db)
    → cookie_family env (some raw) owner d ≡ some family
    → logout env (some raw) d ≡ ok tt d'
    → d'.families ≡ (revoke_family family.id d).families
unfolding logout revoke_cookie revoke_found record_audit ◌>>=◌
logout-rows env raw family d d' found h = ground arith

revoked-not_valid :
    (env : Env) (id later : ℕ) (sid : ℕ) (family : AuthSession) (d : Db)
    → family_of sid d ≡ some (revoke family)
    → user_for env id (some sid) later d ≡ none
unfolding user_for has_owner_session valid_family is_valid_family
revoked-not_valid env id later sid family d found = ground arith

logged_out :
    (env : Env) (id : ℕ) (v : Option ℕ) (now : ℕ) (tokens : Tokens) (d d' e : Db)
    → Issued env owner id v none now tokens d d'
    → logout env (some tokens.raw) d' ≡ ok tt e
    → (later : ℕ) → user_for env id (some tokens.access.jti) later e ≡ none
logged_out env id v now tokens d d' e i h later =
    let family : AuthSession = new_family env tokens.access.jti owner id v none now in
    let found : cookie_family env (some tokens.raw) owner d' ≡ some family =
      cookie-found env tokens.raw i.refresh family d' i.has_refresh
        (subst (λ k. family_of k d' ≡ some family) (sym i.of_family) i.has_family) refl in
    let rows : e.families ≡ (revoke_family family.id d').families =
      logout-rows env tokens.raw family d' e found h in
    revoked-not_valid env id later tokens.access.jti family e (
      family_of-same tokens.access.jti e (revoke_family family.id d') rows
      ∙ revoked-found tokens.access.jti family d' (revoke_family family.id d') i.has_family refl)

current_user :
    (env : Env) (token id jti t : ℕ) (d : Db)
    → principal env owner (some token) t ≡ some (id, some jti)
    → get_current_user env (some token) t d ≡ user_for env id (some jti) t d
unfolding get_current_user
current_user env token id jti t d is_id = ground (arith, is_id)

no_user :
    (env : Env) (token t : ℕ) (d : Db)
    → principal env owner (some token) t ≡ none
    → get_current_user env (some token) t d ≡ none
unfolding get_current_user
no_user env token t d expired = ground (arith, expired)

-- A session lasts from login to logout: when `login` signed in, `token` is the text that PyJWT decodes
-- to the access token's claims until they expire, the id that it answered is not zero, and `logout`
-- with the refresh token succeeded on the database that the login left, then at every time from the
-- login until fifteen minutes later, rounded down to the second, `get_current_user` of `token` is the
-- user stored under this id on the database that the login left, and no one on the database that the
-- logout left; and from these fifteen minutes on it is no one on the database that the login left.
pub session_until_logout :
    (env : Env) (address password : String) (now id token : ℕ) (tokens : Tokens) (d d' e : Db)
    → login env address password now d ≡ ok (logged_in id tokens) d'
    → IsDecoded env token tokens.access
    → 0 < id
    → logout env (some tokens.raw) d' ≡ ok tt e
    → (later : ℕ) → now ≤ later
    → later < expiry 15 now
    → (get_current_user env (some token) later d' ≡ user_of id d)
      × (get_current_user env (some token) later e ≡ none)
      × ((after : ℕ) → get_current_user env (some token) (expiry 15 now + after) d' ≡ none)
session_until_logout env address password now id token tokens d d' e h reads is_id out later from
      in_time =
    let l : LoggedIn env address password now id tokens d d' =
      login-LoggedIn env address password now id tokens d d' h in
    let jti = tokens.access.jti in
    let known =
      principal-issued env token later owner id l.vault_id none now jti tokens.access
        l.issued.claims reads is_id from in_time in
    let alive : later < now + 30 * day =
      (let le : expiry 15 now ≤ now + 15 * (60 * second) = expiry-le 15 now in omega arith) in
    (
      current_user env token id jti later d' known
          ∙ session_opens env id l.vault_id now later tokens d d' l.issued alive,
      current_user env token id jti later e known
          ∙ logged_out env id l.vault_id now tokens d d' e l.issued out later,
      λ after. no_user env token (expiry 15 now + after) d' (
          principal-over env token after owner id l.vault_id none now jti tokens.access
            l.issued.claims reads),
    )
