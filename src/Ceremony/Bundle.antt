-- ===== src/Ceremony/Bundle.antt =====
-- The wrapping bundle of a vault: `validate_material`, `apply_material`, `writable` and
-- PUT /vault/crypto-material of backend/routers/vault.py.
use legacylock.Prelude.{
  ℕ, suc, ◌+◌, ◌==◌, Bool, true, false, not, ◌&&◌, ◌||◌, Option, none, some, String, leb, opt_eq,
  save,
}
use Prim.Native.Char.{code}
use Prim.Native.String.{[], ◌∷◌}
use legacylock.Lifecycle.{triggered, same_state}
use legacylock.Models.{Db, Vault, Material, Actor, truthy}
use legacylock.Env.{Env}
use legacylock.Outcome.{Tx, http, ◌>>=◌, ◌>>◌, guard, pure, modify}
use legacylock.Audit.{record_audit}
use legacylock.Trigger.{lock_status}
use legacylock.Heartbeat.{get_vault}

abbrev pub save_vault : Vault → Db → Db
save_vault vault db = record db { vaults = save (λ (v : Vault). v.id) vault db.vaults }

between : ℕ → ℕ → ℕ → Bool
between low high c = leb low c && leb c high

-- `[0-9a-f]`
is_hex_code : ℕ → Bool
unfolding between
is_hex_code c = between 48 57 c || between 97 102 c

unfoldable pub text_length : String → ℕ
text_length [] = 0
text_length (c ∷ s) = suc (text_length s)

unfoldable pub is_hex : String → Bool
unfolding is_hex_code
is_hex [] = true
is_hex (c ∷ s) = is_hex_code (code c) && is_hex s

abbrev in_bounds : ℕ → Option ℕ → Bool
in_bounds most none = false
in_bounds most (some n) = leb 1 n && leb n most

unfoldable pub require_b64 : Env → String → ℕ → Tx Db (Unit {0})
require_b64 env value max_raw = guard (in_bounds max_raw (env.b64_length value)) (http 422)

unfoldable pub validate_material : Env → Material → Tx Db (Unit {0})
validate_material env input = do
  require_b64 env input.wrapped_vmk 40
  guard (opt_eq (env.b64_length input.wrapped_vmk) (some 40)) (http 422)
  require_b64 env input.vmk_kdf_salt 16
  guard (opt_eq (env.b64_length input.vmk_kdf_salt) (some 16)) (http 422)
  guard (opt_eq input.iterations (some 600_000)) (http 422)

abbrev pub apply_material : Vault → Material → Vault
apply_material vault input = record vault {
  wrapped_vmk = some input.wrapped_vmk;
  vmk_kdf_salt = some input.vmk_kdf_salt;
  vmk_iterations = input.iterations;
  material_revision = vault.material_revision + 1;
}

abbrev is_expected : Option ℕ → ℕ → Bool
is_expected none revision = true
is_expected (some n) revision = revision == n

unfoldable pub writable : Vault → Option ℕ → ℕ → Tx Db (Unit {0})
writable vault expected now = do
  vs ← lock_status vault.id now
  guard (not (same_state vs.state triggered)) (http 409)
  guard (is_expected expected vault.material_revision) (http 409)

-- The write of the new bundle fires the column's `onupdate` time.
unfoldable pub rewrap : Vault → Material → ℕ → ℕ → Tx Db ℕ
rewrap vault input user_id now = do
  writable vault (some input.expected_revision) now
  guard (truthy vault.wrapped_vmk) (http 409)
  modify (save_vault (record (apply_material vault input) { updated_at = now }))
  record_audit (some vault.id) (Actor.owner user_id) "vault.rewrap"
  pure (vault.material_revision + 1)

unfoldable pub save_crypto_material : Env → Material → ℕ → ℕ → Tx Db ℕ
save_crypto_material env input user_id now = do
  validate_material env input
  vault ← get_vault user_id
  rewrap vault input user_id now
