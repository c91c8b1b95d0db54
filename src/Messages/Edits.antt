-- ===== src/Messages/Edits.antt =====
-- PUT /vault/messages/{id} of backend/routers/vault.py: some fields of a message change.
use legacylock.Prelude.{
  ℕ, Bool, true, false, ◌&&◌, ◌||◌, Option, none, some, List, String, leb, is_some, if◌then◌else◌,
  save,
}
use legacylock.Models.{Db, Vault, VaultMessage, holds, Members, list, dict, Actor}
use legacylock.Env.{Env}
use legacylock.Outcome.{Tx, http, ◌>>=◌, ◌>>◌, guard, pure, modify}
use legacylock.Audit.{record_audit}
use legacylock.Heartbeat.{get_vault}
use legacylock.Ceremony.Bundle.{writable, require_b64}
use legacylock.Beneficiaries.{Field, unset, set_to}
use legacylock.Messages.Metadata.{check_metadata, validate_message}
use legacylock.Messages.{is_label, at_most, is_category, are_tags, items_of, get_message}

pub record MessageUpdate : Type 0 where
  pub material_revision : Option ℕ
  pub label : Option String
  pub ciphertext : Field String
  pub wrapped_mek : Field String
  pub crypto_metadata : Field Members
  pub category : Field String
  pub coverage_tags : Option (List String)

abbrev pub is_set {ℓ} : {A : Type ℓ} → Field A → Bool
is_set unset = false
is_set (set_to a) = true

abbrev pub value_of {ℓ} : {A : Type ℓ} → Field A → Option A
value_of unset = none
value_of (set_to a) = a

-- The limits of `MessageUpdate`.
unfoldable pub is_valid_update : MessageUpdate → Bool
is_valid_update input =
    (elim input.material_revision [ none ↦ true | some n ↦ leb 1 n ])
    && ((elim input.label [ none ↦ true | some s ↦ is_label s ])
        && (at_most 2_000_000 (value_of input.ciphertext)
            && (at_most 100_000 (value_of input.wrapped_mek)
                && at_most 50 (value_of input.category))))

-- An update of one part of the envelope brings all of it.
unfoldable pub check_envelope :
    Env → Option ℕ → Field String → Field String → Field Members → Tx Db (Unit {0})
check_envelope env revision ciphertext wrapped_mek metadata =
    if is_set ciphertext || (is_set wrapped_mek || is_set metadata)
    then (do
      guard ((is_set ciphertext && (is_set wrapped_mek && is_set metadata)) && is_some revision)
          (http 422)
      validate_message env (value_of ciphertext) (value_of wrapped_mek) (value_of metadata))
    else pure tt

-- The fields, in the order that the source writes them.
unfoldable pub with_ciphertext : Env → Option String → VaultMessage → Tx Db VaultMessage
with_ciphertext env none m = pure m
with_ciphertext env (some text) m = do
  require_b64 env text 2_000_000
  pure (record m { ciphertext = text })

abbrev pub with_label : Option String → VaultMessage → VaultMessage
with_label none m = m
with_label (some label) m = record m { label = label }

unfoldable pub with_category : Field String → VaultMessage → Tx Db VaultMessage
with_category unset m = pure m
with_category (set_to category) m = do
  guard (is_category category) (http 422)
  pure (record m { category = category })

unfoldable pub with_tags : Option (List String) → VaultMessage → Tx Db VaultMessage
with_tags none m = pure m
with_tags (some tags) m = do
  guard (are_tags tags) (http 422)
  pure (record m { coverage_tags = some (holds (list (items_of tags))) })

unfoldable pub with_mek : Env → Option String → VaultMessage → Tx Db VaultMessage
with_mek env none m = pure m
with_mek env (some text) m = do require_b64 env text 100_000; pure (record m { wrapped_mek = text })

unfoldable pub with_metadata : Env → Option Members → VaultMessage → Tx Db VaultMessage
with_metadata env none m = pure m
with_metadata env (some ms) m = do
  check_metadata env (some ms)
  pure (record m { crypto_metadata = holds (dict ms) })

unfoldable pub edit_message : Env → MessageUpdate → VaultMessage → Tx Db VaultMessage
edit_message env input m = do
  m1 ← with_ciphertext env (value_of input.ciphertext) m
  m2 ← with_category input.category (with_label input.label m1)
  m3 ← with_tags input.coverage_tags m2
  m4 ← with_mek env (value_of input.wrapped_mek) m3
  with_metadata env (value_of input.crypto_metadata) m4

unfoldable pub store_message : VaultMessage → Tx Db (Unit {0})
store_message row =
    modify λ db. record db { messages = save (λ (m : VaultMessage). m.id) row db.messages }

unfoldable pub write_edit : ℕ → VaultMessage → ℕ → ℕ → Tx Db ℕ
write_edit vault_id edited user_id now = do
  store_message (record edited { updated_at = now })
  record_audit (some vault_id) (Actor.owner user_id) "message.update"
  pure edited.id

unfoldable pub edit_in_vault : Env → Vault → ℕ → MessageUpdate → ℕ → ℕ → Tx Db ℕ
edit_in_vault env vault id input user_id now = do
  writable vault input.material_revision now
  check_envelope env input.material_revision input.ciphertext input.wrapped_mek
      input.crypto_metadata
  m ← get_message vault.id id
  edited ← edit_message env input m
  write_edit vault.id edited user_id now

unfoldable pub update_message : Env → ℕ → MessageUpdate → ℕ → ℕ → Tx Db ℕ
update_message env id input user_id now = do
  guard (is_valid_update input) (http 422)
  vault ← get_vault user_id
  edit_in_vault env vault id input user_id now
