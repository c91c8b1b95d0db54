-- ===== src/Models/Messages.antt =====
-- backend/models/message.py: the stored messages of a vault. A JSON column holds the value that its
-- text stands for, or the fact that its text is no JSON.
use legacylock.Prelude.{ℕ, Bool, Option, String}

-- JSON values; a number by its text, which no code reads.
mutual
  pub data Json : Type 0 where
    null : Json
    boolean : Bool → Json
    number : String → Json
    str : String → Json
    list : Items → Json
    dict : Members → Json

  pub data Items : Type 0 where
    no_items : Items
    item : Json → Items → Items

  pub data Members : Type 0 where
    no_members : Members
    member : String → Json → Members → Members

-- A JSON text as `json.loads` sees it, and the empty text, which the code does not give to it.
pub data JsonText : Type 0 where
  empty broken : JsonText
  holds : Json → JsonText

pub record VaultMessage : Type 0 where
  pub id : ℕ
  pub vault_id : ℕ
  pub label : String
  pub ciphertext : String
  pub wrapped_mek : String
  pub crypto_version : ℕ
  pub crypto_metadata : JsonText
  pub category : Option String
  pub coverage_tags : Option JsonText
  pub created_at : ℕ
  pub updated_at : ℕ
