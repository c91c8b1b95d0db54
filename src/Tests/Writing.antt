-- ===== src/Tests/Writing.antt =====
-- The scenario's owner saves a message, and its beneficiary reads one after the release.
use legacylock.Prelude.{save}
use legacylock.Outcome.{gets, guard, modify, or_raise, pure, raise}
use legacylock.Ceremony.{next_id}
use legacylock.Audit.{record_audit}
use legacylock.Messages.Metadata.{
  validate_message, require_text, check_metadata, are_keys, is_shallow, iv_of, get_member,
}
use legacylock.Trigger.{lock_status, locked}
use legacylock.Heartbeat.{get_vault, primary_vault}
use legacylock.Ceremony.Bundle.{text_length, writable, require_b64}
use legacylock.Messages.{
  is_valid_request, save_in_vault, check_message, are_tags, insert_message, is_category, items_of,
  new_message, write_message,
}
use legacylock.Access.{vault_of, require_triggered}
use legacylock.Messages.{get_message, detail, read_metadata, are_texts, read_tags}
use legacylock.Prelude.{arith, ◌≡◌, refl, none, some, [], ◌∷◌, lookup}
use legacylock.Lifecycle.{grace, triggered}
use legacylock.Models.{Db, VaultMessage, holds, dict, list, str, member, no_members, item, no_items}
use legacylock.Outcome.{ok, settle, ◌>>=◌}
use legacylock.Messages.{
  MessageRequest, MessageDetail, save_message, load_message, load_in_vault, message_of,
}
use legacylock.Messages.Stored.{AreStored}
use legacylock.Messages.History.{start, next, saves, messages_stay_sealed}
use legacylock.Messages.Trips.{AreNumbered, saved_detail, save-load}
use legacylock.Access.{RecoveryMessage, get_recovery_message, recovery_detail}
use legacylock.Access.Recovery.{
  IsReleased, without_tags, recovery_mirrors_load, recovery-IsReleased,
}
use legacylock.Tests.Scenario.{test_env, test_vault, test_beneficiary, db_in, status_in}

abbrev request : MessageRequest
request = record {
  material_revision = 1;
  label = "Will";
  ciphertext = "cipher";
  wrapped_mek = "key";
  crypto_metadata = some (member "iv" (str "iv") no_members);
  category = some "financial";
  coverage_tags = some ("bank" ∷ []);
}

unfoldable saved_db : Db
unfolding save_message
saved_db = settle (db_in grace) (save_message test_env request 2 5 (db_in grace))

saved_run : save_message test_env request 2 5 (db_in grace) ≡ ok 0 saved_db
unfolding saved_db ◌>>=◌ is_valid_request text_length get_vault save_in_vault writable lock_status
    locked lookup check_message validate_message require_text require_b64 check_metadata are_keys
    is_shallow iv_of get_member record_audit next_id primary_vault are_tags insert_message
    is_category items_of new_message save_message write_message gets guard modify or_raise pure
    raise save
saved_run = refl

messages_stay_sealed_example : AreStored test_env saved_db
messages_stay_sealed_example =
    messages_stay_sealed test_env (db_in grace) saved_db
      (next start (saves request 2 5 0 saved_run)) tt

abbrev stored : VaultMessage
stored = record {
  id = 7;
  vault_id = 1;
  label = "Will";
  ciphertext = "cipher";
  wrapped_mek = "key";
  crypto_version = 1;
  crypto_metadata = holds (dict (member "iv" (str "iv") no_members));
  category = none;
  coverage_tags = some (holds (list (item (str "bank") no_items)));
  created_at = 3;
  updated_at = 3;
}

-- Message 7 is stored, and the ids up to 7 were given out.
abbrev held_db : Db
held_db = record (db_in grace) { messages = stored ∷ []; serial = 8 }

unfoldable added_db : Db
unfolding save_message
added_db = settle held_db (save_message test_env request 2 5 held_db)

added_run : save_message test_env request 2 5 held_db ≡ ok 8 added_db
unfolding added_db ◌>>=◌ is_valid_request text_length get_vault save_in_vault writable lock_status
    locked lookup check_message validate_message require_text require_b64 check_metadata are_keys
    is_shallow iv_of get_member record_audit next_id primary_vault are_tags insert_message
    is_category items_of new_message save_message write_message gets guard modify or_raise pure
    raise save
added_run = refl

save-load_example : load_message 8 2 added_db ≡ ok (saved_detail 8 request 5) added_db
unfolding AreNumbered
save-load_example = save-load test_env request 2 5 8 held_db added_db (omega arith, tt) added_run

abbrev released_db : Db
released_db = record (db_in triggered) { messages = stored ∷ [] }

abbrev shown : MessageDetail
shown = record {
  id = 7;
  label = "Will";
  ciphertext = "cipher";
  wrapped_mek = "key";
  crypto_version = 1;
  crypto_metadata = member "iv" (str "iv") no_members;
  created_at = 3;
  category = none;
  coverage_tags = item (str "bank") no_items;
}

released : IsReleased 1 released_db
unfolding lookup
released = record { status = status_in triggered; has_status = refl; is_triggered = refl }

loaded_run : load_in_vault 1 7 released_db ≡ ok shown released_db
unfolding load_in_vault ◌>>=◌ get_message message_of detail read_metadata are_texts read_tags
loaded_run = refl

recovery_mirrors_load_example :
    get_recovery_message test_beneficiary 7 released_db ≡ ok (without_tags shown) released_db
recovery_mirrors_load_example =
    recovery_mirrors_load test_beneficiary test_vault 7 shown released_db refl released loaded_run

abbrev seen : RecoveryMessage
seen = record {
  id = 7;
  label = "Will";
  ciphertext = "cipher";
  wrapped_mek = "key";
  crypto_metadata = member "iv" (str "iv") no_members;
  crypto_version = 1;
  category = none;
  created_at = 3;
}

seen_run : get_recovery_message test_beneficiary 7 released_db ≡ ok seen released_db
unfolding get_recovery_message ◌>>=◌ vault_of require_triggered lookup get_message message_of
    recovery_detail read_metadata
seen_run = refl

recovery-IsReleased_example :
    IsReleased 1 released_db
    × ((m : VaultMessage) × (message_of 1 7 released_db ≡ some m)
        × (recovery_detail m released_db ≡ ok seen released_db))
recovery-IsReleased_example =
    recovery-IsReleased test_beneficiary 7 seen released_db released_db seen_run
