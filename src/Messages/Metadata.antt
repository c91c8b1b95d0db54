-- ===== src/Messages/Metadata.antt =====
-- `validate_message` and `_check_metadata` of backend/routers/vault.py: what a message's envelope must be.
use legacylock.Prelude.{
  ℕ, suc, ◌+◌, ◌*◌, Bool, true, false, ◌&&◌, Option, none, some, String, leb, opt_eq, is_some,
  str_eq, if◌then◌else◌,
}
use legacylock.Models.{
  Db, Json, Items, Members, null, boolean, number, str, list, dict, no_items, item, no_members,
  member,
}
use legacylock.Env.{Env}
use legacylock.Outcome.{Tx, http, ◌>>=◌, ◌>>◌, guard, pure, raise}
use legacylock.Ceremony.Bundle.{require_b64, text_length}

abbrev pub count_items : Items → ℕ
count_items no_items = 0
count_items (item x xs) = suc (count_items xs)

abbrev pub count_members : Members → ℕ
count_members no_members = 0
count_members (member k x ms) = suc (count_members ms)

unfoldable pub are_keys : Members → Bool
are_keys no_members = true
are_keys (member k x ms) = leb (text_length k) 64 && are_keys ms

-- `_depth` does not raise on a value at this depth.
unfoldable mutual
  pub is_shallow : ℕ → Json → Bool
  is_shallow d null = leb d 3
  is_shallow d (boolean b) = leb d 3
  is_shallow d (number n) = leb d 3
  is_shallow d (str s) = leb d 3
  is_shallow d (list xs) = leb d 3 && (leb (count_items xs) 50 && are_shallow_items (d + 1) xs)
  is_shallow d (dict ms) = leb d 3 && are_shallow_members (d + 1) ms

  pub are_shallow_items : ℕ → Items → Bool
  are_shallow_items d no_items = true
  are_shallow_items d (item x xs) = is_shallow d x && are_shallow_items d xs

  pub are_shallow_members : ℕ → Members → Bool
  are_shallow_members d no_members = true
  are_shallow_members d (member k x ms) = is_shallow d x && are_shallow_members d ms

unfoldable pub check_metadata : Env → Option Members → Tx Db (Unit {0})
check_metadata env none = pure tt
check_metadata env (some ms) = do
  guard (leb (count_members ms) 20) (http 422)
  guard (are_keys ms) (http 422)
  guard (is_shallow 0 (dict ms)) (http 422)
  guard (leb (env.json_length (dict ms)) 4000) (http 422)

unfoldable pub get_member : String → Members → Option Json
get_member key no_members = none
get_member key (member k x ms) = if str_eq k key then some x else get_member key ms

abbrev text_of : Option Json → Option String
text_of (some (str s)) = some s
text_of _ = none

-- The metadata's `iv`, where it is a text.
unfoldable pub iv_of : Option Members → Option String
iv_of none = none
iv_of (some ms) = text_of (get_member "iv" ms)

abbrev pub at_least : ℕ → Option ℕ → Bool
at_least n none = false
at_least n (some m) = leb n m

-- `_require_b64` of a value that may be null, which is no base64.
unfoldable pub require_text : Env → Option String → ℕ → Tx Db String
require_text env none max_raw = raise (http 422)
require_text env (some value) max_raw = do require_b64 env value max_raw; pure value

unfoldable pub validate_message :
    Env → Option String → Option String → Option Members → Tx Db (Unit {0})
validate_message env ciphertext wrapped_mek metadata = do
  c ← require_text env ciphertext (1024 * 1024 + 16)
  guard (at_least 16 (env.b64_length c)) (http 422)
  w ← require_text env wrapped_mek 40
  guard (opt_eq (env.b64_length w) (some 40)) (http 422)
  check_metadata env metadata
  guard (is_some (iv_of metadata)) (http 422)
  iv ← require_text env (iv_of metadata) 12
  guard (opt_eq (env.b64_length iv) (some 12)) (http 422)
