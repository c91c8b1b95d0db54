-- ===== src/Messages.antt =====
-- The message routes of backend/routers/vault.py: save, list, load, delete, update and wipe.
pub mod Metadata
pub mod Edits
pub mod Envelopes
pub mod Stored
pub mod History
pub mod Trips
use legacylock.Prelude.{
  ℕ, zero, suc, ◌+◌, ◌==◌, Bool, true, false, not, ◌&&◌, ◌||◌, Option, none, some, List, [], ◌∷◌,
  ◌++◌, String, str_eq, exists, filter, length, take, first, leb, ltb, is_some, if◌then◌else◌, save,
}
use legacylock.Models.{
  Db, User, Vault, VaultMessage, Json, JsonText, empty, broken, holds, Items, no_items, item,
  Members, no_members, str, list, dict, truthy, Actor,
}
use legacylock.Env.{Env}
use legacylock.Outcome.{
  Tx, ok, http, failure, ◌>>=◌, ◌>>◌, guard, pure, gets, modify, or_raise, raise,
}
use legacylock.Audit.{record_audit}
use legacylock.Heartbeat.{get_vault}
use legacylock.Ceremony.{next_id}
use legacylock.Ceremony.Bundle.{writable, require_b64, text_length}
use legacylock.Beneficiaries.{Field, unset, set_to}
use Metadata.{check_metadata, validate_message}

pub record MessageRequest : Type 0 where
  pub material_revision : ℕ
  pub label : String
  pub ciphertext : String
  pub wrapped_mek : String
  pub crypto_metadata : Option Members
  pub category : Option String
  pub coverage_tags : Option (List String)

-- `MESSAGE_CATEGORIES`
abbrev categories : List String
categories =
    "financial" ∷ "insurance" ∷ "digital_assets" ∷ "digital_identity" ∷ "digital_storage"
    ∷ "devices" ∷ "online_accounts" ∷ "property" ∷ "dependents" ∷ "business" ∷ "personal" ∷ []

unfoldable pub is_category : Option String → Bool
is_category none = true
is_category (some c) = exists (str_eq c) categories

abbrev pub at_most : ℕ → Option String → Bool
at_most n none = true
at_most n (some s) = leb (text_length s) n

abbrev pub is_label : String → Bool
is_label s = leb 1 (text_length s) && leb (text_length s) 200

abbrev pub tags_or_none : Option (List String) → List String
tags_or_none none = []
tags_or_none (some tags) = tags

-- The field limits of `MessageRequest`.
unfoldable pub is_valid_request : MessageRequest → Bool
is_valid_request input =
    leb 1 input.material_revision
    && (is_label input.label
        && (leb (text_length input.ciphertext) 2_000_000
            && (leb (text_length input.wrapped_mek) 100_000
                && (at_most 50 input.category
                    && leb (length (tags_or_none input.coverage_tags)) 20))))

unfoldable pub are_tags : List String → Bool
are_tags tags = leb (length tags) 20 && not (exists (λ t. not (leb (text_length t) 50)) tags)

-- The members that are stored: no metadata is an empty object.
abbrev pub members_or_none : Option Members → Members
members_or_none none = no_members
members_or_none (some ms) = ms

-- `json.dumps` of a list of texts
unfoldable pub items_of : List String → Items
items_of [] = no_items
items_of (t ∷ ts) = item (str t) (items_of ts)

abbrev pub is_in_vault : ℕ → VaultMessage → Bool
is_in_vault vault_id m = m.vault_id == vault_id

abbrev pub messages_of : ℕ → Db → List VaultMessage
messages_of vault_id db = filter (is_in_vault vault_id) db.messages

unfoldable pub new_message : ℕ → ℕ → MessageRequest → ℕ → VaultMessage
new_message id vault_id input now = record {
  id = id;
  vault_id = vault_id;
  label = input.label;
  ciphertext = input.ciphertext;
  wrapped_mek = input.wrapped_mek;
  crypto_version = 1;
  crypto_metadata = holds (dict (members_or_none input.crypto_metadata));
  category = input.category;
  coverage_tags = some (holds (list (items_of (tags_or_none input.coverage_tags))));
  created_at = now;
  updated_at = now;
}

unfoldable pub check_message : Env → MessageRequest → Tx Db (Unit {0})
check_message env input = do
  validate_message env (some input.ciphertext) (some input.wrapped_mek) input.crypto_metadata
  check_metadata env input.crypto_metadata
  guard (is_category input.category) (http 422)
  guard (are_tags (tags_or_none input.coverage_tags)) (http 422)

unfoldable pub insert_message : VaultMessage → Tx Db (Unit {0})
insert_message row = modify λ db. record db { messages = db.messages ++ row ∷ [] }

-- The row, under the next id.
unfoldable pub write_message : Vault → MessageRequest → ℕ → ℕ → Tx Db ℕ
write_message vault input user_id now = do
  id ← next_id
  insert_message (new_message id vault.id input now)
  record_audit (some vault.id) (Actor.owner user_id) "message.create"
  pure id

abbrev pub is_full : Env → ℕ → Db → Bool
is_full env vault_id db = leb env.max_messages_per_vault (length (messages_of vault_id db))

unfoldable pub save_in_vault : Env → Vault → MessageRequest → ℕ → ℕ → Tx Db ℕ
save_in_vault env vault input user_id now = do
  writable vault (some input.material_revision) now
  guard (truthy vault.wrapped_vmk) (http 409)
  full ← gets (is_full env vault.id)
  guard (not full) (http 409)
  check_message env input
  write_message vault input user_id now

unfoldable pub save_message : Env → MessageRequest → ℕ → ℕ → Tx Db ℕ
save_message env input user_id now = do
  guard (is_valid_request input) (http 422)
  vault ← get_vault user_id
  save_in_vault env vault input user_id now

-- `ORDER BY id DESC`
unfoldable pub insert_newest : VaultMessage → List VaultMessage → List VaultMessage
insert_newest m [] = m ∷ []
insert_newest m (x ∷ xs) = if leb x.id m.id then m ∷ x ∷ xs else x ∷ insert_newest m xs

unfoldable pub newest_first : List VaultMessage → List VaultMessage
newest_first [] = []
newest_first (m ∷ ms) = insert_newest m (newest_first ms)

abbrev pub is_before : Option ℕ → VaultMessage → Bool
is_before none m = true
is_before (some id) m = ltb m.id id

-- One page of a vault's messages; the routes leave out the ciphertext.
unfoldable pub page : ℕ → Option ℕ → ℕ → Db → List VaultMessage
page vault_id before_id limit db =
    take limit (newest_first (filter (is_before before_id) (messages_of vault_id db)))

abbrev is_page : Option ℕ → ℕ → Bool
is_page none limit = leb 1 limit && leb limit 100
is_page (some id) limit = leb 1 id && (leb 1 limit && leb limit 100)

abbrev pub check_page : Option ℕ → ℕ → Tx Db (Unit {0})
check_page before_id limit = guard (is_page before_id limit) (http 422)

unfoldable pub list_messages : Option ℕ → ℕ → ℕ → Tx Db (List VaultMessage)
list_messages before_id limit user_id = do
  check_page before_id limit
  vault ← get_vault user_id
  gets (page vault.id before_id limit)

abbrev pub is_message : ℕ → ℕ → VaultMessage → Bool
is_message vault_id id m = (m.id == id) && (m.vault_id == vault_id)

unfoldable pub message_of : ℕ → ℕ → Db → Option VaultMessage
message_of vault_id id db = first (is_message vault_id id) db.messages

unfoldable pub get_message : ℕ → ℕ → Tx Db VaultMessage
get_message vault_id id = do found ← gets (message_of vault_id id); or_raise found (http 404)

pub record MessageDetail : Type 0 where
  pub id : ℕ
  pub label : String
  pub ciphertext : String
  pub wrapped_mek : String
  pub crypto_version : ℕ
  pub crypto_metadata : Members
  pub created_at : ℕ
  pub category : Option String
  pub coverage_tags : Items

-- A column that is empty holds no members; one that holds no object is corrupt.
unfoldable pub read_metadata : JsonText → Tx Db Members
read_metadata empty = pure no_members
read_metadata (holds (dict ms)) = pure ms
read_metadata _ = raise (http 500)

unfoldable pub read_tags : Option JsonText → Items
read_tags (some (holds (list xs))) = xs
read_tags _ = no_items

-- `coverage_tags: list[str]` of `MessageDetail`
unfoldable pub are_texts : Items → Bool
are_texts no_items = true
are_texts (item (str s) xs) = are_texts xs
are_texts (item _ xs) = false

unfoldable pub detail : VaultMessage → Tx Db MessageDetail
detail m = do
  metadata ← read_metadata m.crypto_metadata
  guard (are_texts (read_tags m.coverage_tags)) failure
  pure (record {
    id = m.id;
    label = m.label;
    ciphertext = m.ciphertext;
    wrapped_mek = m.wrapped_mek;
    crypto_version = m.crypto_version;
    crypto_metadata = metadata;
    created_at = m.created_at;
    category = m.category;
    coverage_tags = read_tags m.coverage_tags;
  })

unfoldable pub load_in_vault : ℕ → ℕ → Tx Db MessageDetail
load_in_vault vault_id id = do m ← get_message vault_id id; detail m

unfoldable pub load_message : ℕ → ℕ → Tx Db MessageDetail
load_message id user_id = do vault ← get_vault user_id; load_in_vault vault.id id

unfoldable pub remove_messages : (VaultMessage → Bool) → Tx Db (Unit {0})
remove_messages gone = modify λ db. record db { messages = filter (λ m. not (gone m)) db.messages }

unfoldable pub remove_in_vault : ℕ → ℕ → ℕ → Tx Db (Unit {0})
remove_in_vault vault_id id user_id = do
  m ← get_message vault_id id
  remove_messages (λ x. x.id == m.id)
  record_audit (some vault_id) (Actor.owner user_id) "message.delete"

unfoldable pub delete_message : ℕ → ℕ → Tx Db (Unit {0})
delete_message id user_id = do vault ← get_vault user_id; remove_in_vault vault.id id user_id

-- The password is the signed-in owner's, at least 12 characters long.
unfoldable pub wipe_vault : Env → User → String → Tx Db (Unit {0})
wipe_vault env user password = do
  guard (leb 12 (text_length password) && leb (text_length password) 256) (http 422)
  guard (env.verify_password password user.password_hash) (http 401)
  vault ← get_vault user.id
  remove_messages (is_in_vault vault.id)
  record_audit (some vault.id) (Actor.owner user.id) "vault.wipe"
