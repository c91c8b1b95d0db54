-- ===== src/Models/Auth.antt =====
-- backend/models/remediation.py: session families, refresh credentials and sign-in challenges, and
-- backend/models/email_verification.py. A SHA-256 digest is the number that it stands for.
use legacylock.Prelude.{ℕ, Bool, true, false, Option, String}

pub data Role : Type 0 where
  owner beneficiary : Role

abbrev pub same_role : Role → Role → Bool
same_role owner owner = true
same_role beneficiary beneficiary = true
same_role _ _ = false

pub record AuthSession : Type 0 where
  pub id : ℕ
  pub role : Role
  pub principal_id : ℕ
  pub vault_id : Option ℕ
  pub contact_revision : Option ℕ
  pub auth_epoch : String
  pub revoked : Bool
  pub expires_at : ℕ

pub record SessionRefresh : Type 0 where
  pub token_hash : ℕ
  pub session_id : ℕ
  pub consumed_at : Option ℕ
  pub expires_at : ℕ

pub data Purpose : Type 0 where
  login other : Purpose

pub record AuthChallenge : Type 0 where
  pub token_hash : ℕ
  pub beneficiary_id : ℕ
  pub contact_revision : ℕ
  pub purpose : Purpose
  pub auth_epoch : String
  pub consumed_at : Option ℕ
  pub expires_at : ℕ
  pub created_at : ℕ

pub record EmailVerificationToken : Type 0 where
  pub user_id : ℕ
  pub token_hash : ℕ
  pub expires_at : ℕ
  pub consumed_at : Option ℕ
  pub created_at : ℕ

-- What PyJWT reads from a token whose signature and times are good, as the checks behind it use it.
-- `sub` is `int(payload["sub"])`, or nothing where that raises or is negative; the outer option is the
-- key's presence.
pub record JwtPayload : Type 0 where
  pub type : Option String
  pub auth_epoch : Option String
  pub role : Option String
  pub sub : Option (Option ℕ)
  pub has_vault_id : Bool
  pub jti : Option ℕ
