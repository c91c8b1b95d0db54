-- ===== src/Env.antt =====
-- What a request reads besides the database: backend/config.py's settings, the random source, and
-- the functions of libraries that the program calls.
use legacylock.Prelude.{ℕ, Bool, List, Option, String}
use legacylock.Models.{Mail, Context, Json, JwtPayload}
use legacylock.Lifecycle.{InvitationStatus}

-- A row of `binding` in `assignment_signature`.
pub record Binding : Type 0 where
  pub id : ℕ
  pub contact_revision : ℕ
  pub share_index : Option ℕ
  pub ceremony_generation : Option String
  pub invitation_status : InvitationStatus

pub record Env : Type 0 where
  -- settings
  pub production : Bool
  pub release_hold : Bool
  pub sms_enabled : Bool
  pub delivery_enabled : Bool
  pub testing : Bool
  pub registration_invite_code : String
  pub email_verification_ttl_hours : ℕ
  pub max_beneficiaries_per_vault : ℕ
  pub max_messages_per_vault : ℕ
  pub auth_epoch : String
  pub frontend_origin : String
  pub delivery_payload_key_id : String
  -- `payload_key`, `none` where it raises
  pub payload_key : String → Option ℕ
  -- the n-th random value: `uuid4()`, `secrets.token_urlsafe(32)`, `secrets.token_bytes(12)`
  pub random : ℕ → ℕ
  -- `hashlib.sha256` of a token and of the JSON of a binding
  pub sha256 : ℕ → ℕ
  pub digest : List Binding → ℕ
  -- `AESGCM(key).encrypt(nonce, data, context)`, and `decrypt` with `none` where it raises
  pub encrypt : ℕ → ℕ → Mail → Context → ℕ
  pub decrypt : ℕ → ℕ → ℕ → Context → Option Mail
  -- `len(base64.b64decode(text, validate=True))`, `none` where it raises
  pub b64_length : String → Option ℕ
  -- `len(json.dumps(value))`
  pub json_length : Json → ℕ
  -- `text.strip()` and `text.strip().lower()`
  pub strip : String → String
  pub strip_lower : String → String
  -- `ph.hash` under a random salt, and `ph.verify`, false where it raises
  pub hash_password : ℕ → String → String
  pub verify_password : String → String → Bool
  -- `jwt.decode` at a time, `none` where it or the public key raises
  pub jwt_decode : ℕ → ℕ → Option JwtPayload
