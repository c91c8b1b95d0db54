-- ===== src/Accounts/Invite.antt =====
-- The invite code of `register` in backend/routers/auth.py.
use Prim.Native.Char.{code}
use Prim.Native.String.{[], ◌∷◌}
use legacylock.Prelude.{Bool, true, not, ◌&&◌, String, str_eq, leb}
use legacylock.Models.{Db}
use legacylock.Env.{Env}
use legacylock.Outcome.{Tx, http, failure, ◌>>◌, guard}

unfoldable pub is_ascii : String → Bool
is_ascii [] = true
is_ascii (c ∷ s) = leb (code c) 127 && is_ascii s

-- `secrets.compare_digest` of two texts raises on one that is not ASCII.
unfoldable pub check_invite : Env → String → Tx Db (Unit {0})
check_invite env invite_code = do
  guard (not (str_eq (env.strip env.registration_invite_code) "")) (http 403)
  guard (is_ascii invite_code && is_ascii env.registration_invite_code) failure
  guard (str_eq invite_code env.registration_invite_code) (http 403)
