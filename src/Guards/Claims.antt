-- ===== src/Guards/Claims.antt =====
-- The way of an access token: the claims that create_access_token of backend/services/auth.py signs,
-- and what decode_access_token and backend/deps.py read from the token at a later time.
use mathlib.Core.Path.{subst}
use legacylock.Prelude.{
  ℕ, zero, suc, ◌+◌, ◌*◌, ◌/◌, ◌<◌, ◌≤◌, ◌≡◌, refl, sym, ap, ◌∙◌, true, ◌&&◌, ◌||◌, Option, none,
  some, String, leb, ltb, opt_str_eq, str_eq, eq_refl, arith, if◌then◌else◌,
}
use legacylock.Models.{Role, owner, beneficiary, JwtPayload, second}
use legacylock.Env.{Env}
use legacylock.Sessions.{AccessClaims, create_access_token, new_family, minutes_of}
use legacylock.Guards.{role_name, is_access_payload, decode_access_token, positive, principal}

abbrev pub payload_of : AccessClaims → JwtPayload
payload_of a = record {
  type = some "access";
  auth_epoch = some a.auth_epoch;
  role = some (role_name a.role);
  sub = some (some a.sub);
  has_vault_id = true;
  jti = some a.jti;
}

-- PyJWT refuses a token before its `iat` and from its `exp` on, both in seconds.
abbrev pub decoded : AccessClaims → ℕ → Option JwtPayload
decoded a t = if leb (a.iat * second) t && ltb t (a.exp * second) then some (payload_of a) else none

-- The text of a token that was encoded from these claims, as the library decodes it.
unfoldable pub IsDecoded : Env → ℕ → AccessClaims → Type 0
IsDecoded env token a = (t : ℕ) → env.jwt_decode t token ≡ decoded a t

positive-some : (n : ℕ) → 0 < n → positive (some (some n)) ≡ some n
positive-some zero h = absurd (omega arith)
positive-some (suc n) h = refl

is_role :
    (r : Role)
    → (opt_str_eq (some (role_name r)) (some "owner")
        || opt_str_eq (some (role_name r)) (some "beneficiary"))
      ≡ true
is_role owner = refl
is_role beneficiary = refl

same_text : (s t : String) → s ≡ t → str_eq s t ≡ true
same_text s t same = ap (str_eq s) (sym same) ∙ eq_refl s

own_role : (r : Role) → opt_str_eq (some (role_name r)) (some (role_name r)) ≡ true
own_role owner = refl
own_role beneficiary = refl

payload-good :
    (env : Env) (a : AccessClaims)
    → a.auth_epoch ≡ env.auth_epoch
    → is_access_payload env (payload_of a) ≡ true
unfolding is_access_payload
payload-good env a epoch =
    ground (arith, is_role a.role, same_text a.auth_epoch env.auth_epoch epoch)

pub decode-claims :
    (env : Env) (token t : ℕ) (a : AccessClaims)
    → IsDecoded env token a
    → a.auth_epoch ≡ env.auth_epoch
    → a.iat * second ≤ t
    → t < a.exp * second
    → decode_access_token env token t ≡ some (payload_of a)
unfolding IsDecoded decode_access_token
decode-claims env token t a reads epoch born alive =
    let open_ : decoded a t ≡ some (payload_of a) = ground arith in
    let seen : env.jwt_decode t token ≡ some (payload_of a) = reads t ∙ open_ in
    ground (arith, seen, payload-good env a epoch)

-- A live token is of the principal and the family of its claims.
pub principal-claims :
    (env : Env) (token t : ℕ) (a : AccessClaims)
    → IsDecoded env token a
    → a.auth_epoch ≡ env.auth_epoch
    → 0 < a.sub
    → a.iat * second ≤ t
    → t < a.exp * second
    → principal env a.role (some token) t ≡ some (a.sub, some a.jti)
unfolding principal
principal-claims env token t a reads epoch is_id born alive = ground (
  arith,
  decode-claims env token t a reads epoch born alive,
  own_role a.role,
  positive-some a.sub is_id,
)

-- An expired token is no one's, in any role.
pub principal-expired :
    (env : Env) (token t : ℕ) (role : Role) (a : AccessClaims)
    → IsDecoded env token a
    → a.exp * second ≤ t
    → principal env role (some token) t ≡ none
unfolding principal decode_access_token IsDecoded
principal-expired env token t role a reads late =
    let shut : decoded a t ≡ none = ground arith in
    let seen : env.jwt_decode t token ≡ none = reads t ∙ shut in ground (arith, seen)

-- The time from which a token of so many minutes is refused: `exp` is in whole seconds.
abbrev pub expiry : ℕ → ℕ → ℕ
expiry minutes now = ((now + minutes * (60 * second)) / second) * second

pub expiry-le : (minutes now : ℕ) → expiry minutes now ≤ now + minutes * (60 * second)
expiry-le minutes now = omega arith

-- A token that was issued at `now` is of its principal and its family until its expiry.
pub principal-issued :
    (env : Env) (token t : ℕ) (role : Role) (id : ℕ) (v c : Option ℕ) (now jti : ℕ)
    (a : AccessClaims)
    → a ≡ create_access_token env (new_family env jti role id v c now) now
    → IsDecoded env token a
    → 0 < id
    → now ≤ t
    → t < expiry (minutes_of role) now
    → principal env role (some token) t ≡ some (id, some jti)
unfolding create_access_token
principal-issued env token t role id v c now jti a same reads is_id born alive =
    principal-claims env token t (create_access_token env (new_family env jti role id v c now) now)
      (subst (IsDecoded env token) same reads) refl is_id (omega arith) alive

pub principal-over :
    (env : Env) (token after : ℕ) (role : Role) (id : ℕ) (v c : Option ℕ) (now jti : ℕ)
    (a : AccessClaims)
    → a ≡ create_access_token env (new_family env jti role id v c now) now
    → IsDecoded env token a
    → principal env role (some token) (expiry (minutes_of role) now + after) ≡ none
unfolding create_access_token
principal-over env token after role id v c now jti a same reads =
    principal-expired env token (expiry (minutes_of role) now + after) role
      (create_access_token env (new_family env jti role id v c now) now)
      (subst (IsDecoded env token) same reads) (omega arith)
