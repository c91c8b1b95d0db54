-- ===== src/Tests/Ceremonies.antt =====
-- Ceremonies of the scenario's owner.
use legacylock.Outcome.{gets, guard, modify, or_raise, pure}
use legacylock.Ceremony.{finalize_draft, finalized_vault, is_range, sorted, write_final}
use legacylock.Ceremony.Bundle.{require_b64, validate_material}
use legacylock.Readiness.{
  drill_of, release_ready, current_ceremony, assignment_signature, current_drill,
}
use legacylock.Audit.{record_audit}
use legacylock.Ceremony.{
  check_draft, is_generation, check_initial, write_draft, cancel_drafts, next_id, add_ceremony,
}
use legacylock.Trigger.{lock_status, locked}
use legacylock.Ceremony.Bundle.{writable, is_hex, text_length}
use legacylock.Prelude.{
  ℕ, ◌+◌, ◌==◌, ◌≡◌, refl, true, false, Option, none, some, [], ◌∷◌, ◌&&◌, exists, lookup, save,
}
use legacylock.Lifecycle.{active}
use legacylock.Models.{Db, Vault, RecoveryCeremony, CeremonyStatus, DrillText, Material}
use legacylock.Outcome.{ok, settle, ◌>>=◌}
use legacylock.Readiness.{is_releasable}
use legacylock.Trigger.{vault_of}
use legacylock.Heartbeat.{primary_vault}
use legacylock.Ceremony.{DraftIn, create_draft, finalize, owned, vault_or_new, is_in}
use legacylock.Ceremony.Bundle.{rewrap}
use legacylock.Ceremony.Drafts.{create_draft_single, is_other_draft}
use legacylock.Ceremony.Disarm.{finalize_disarms, rewrap_disarms}
use legacylock.Tests.Scenario.{test_env, db_in, test_vault}

abbrev draft : DraftIn
draft = record {
  recovery_threshold = 1;
  recovery_total = 1;
  recovery_generation = "0123456789abcdef0123456789abcdef";
  expected_revision = 1;
  initial_material = none;
}

unfoldable drafted_db : Db
unfolding create_draft
drafted_db = settle (db_in active) (create_draft test_env 2 draft 5 (db_in active))

drafted_run : create_draft test_env 2 draft 5 (db_in active) ≡ ok 0 drafted_db
unfolding drafted_db ◌>>=◌ vault_or_new primary_vault writable lock_status locked lookup check_draft
    is_generation is_hex text_length check_initial write_draft cancel_drafts next_id add_ceremony
    record_audit
drafted_run = refl

create_draft_single_example :
    (vault : Vault) × (e : Db) × (vault_or_new 2 5 (primary_vault 2 (db_in active)) (db_in active)
      ≡ ok vault e)
    × (exists (is_other_draft vault.id 0) drafted_db.ceremonies ≡ false)
    × (exists (λ c. is_in CeremonyStatus.draft vault.id c && (c.id == 0)) drafted_db.ceremonies
        ≡ true)
create_draft_single_example =
    create_draft_single test_env 2 5 0 draft (db_in active) drafted_db drafted_run

unfoldable final_db : Db
unfolding finalize
final_db = settle drafted_db (finalize 2 0 (1 ∷ []) 6 drafted_db)

final_run : finalize 2 0 (1 ∷ []) 6 drafted_db ≡ ok false final_db
unfolding final_db drafted_db ◌>>=◌ owned lookup vault_or_new primary_vault writable lock_status
    locked check_draft is_generation is_hex text_length check_initial write_draft cancel_drafts
    next_id add_ceremony record_audit require_b64 validate_material create_draft finalize
    finalize_draft finalized_vault is_range sorted write_final gets guard modify or_raise pure save
final_run = refl

finalize_disarms_example :
    (row : RecoveryCeremony) × (vault : Vault) × (vault' : Vault) × (owned 2 0 drafted_db
      ≡ some (row, vault))
    × (vault_of vault.id final_db ≡ some vault')
    × (vault'.recovery_generation ≡ some row.generation)
    × (vault'.material_revision ≡ vault.material_revision + 1)
    × (is_releasable test_env final_db vault.id ≡ false)
finalize_disarms_example = finalize_disarms test_env 2 0 6 (1 ∷ []) drafted_db final_db final_run

abbrev bundle : Material
bundle = record {
  wrapped_vmk = "new";
  vmk_kdf_salt = "salt";
  iterations = some 600_000;
  expected_revision = 1;
}

unfoldable rewrapped_db : Db
unfolding rewrap
rewrapped_db = settle (db_in active) (rewrap test_vault bundle 2 5 (db_in active))

rewrapped_run : rewrap test_vault bundle 2 5 (db_in active) ≡ ok 2 rewrapped_db
unfolding rewrapped_db ◌>>=◌ writable lock_status locked lookup record_audit
rewrapped_run = refl

ready_before : is_releasable test_env (db_in active) 1 ≡ true
unfolding is_releasable lookup release_ready current_ceremony assignment_signature current_drill
ready_before = refl

found_before : vault_of 1 (db_in active) ≡ some test_vault
unfolding lookup
found_before = refl

rewrap_disarms_example :
    (◌≡◌ {A = ℕ} 2 2)
    × (is_releasable test_env rewrapped_db 1 ≡ false)
    × (next : Vault) × (vault_of 1 rewrapped_db ≡ some next)
    × (next.material_revision ≡ 2)
    × (c : RecoveryCeremony) × (current_ceremony (db_in active) test_vault ≡ some c)
    × (current_ceremony rewrapped_db next ≡ some c)
    × ((signature : ℕ) (text : Option DrillText) → drill_of next c signature text ≡ none)
rewrap_disarms_example =
    rewrap_disarms test_env test_vault bundle 2 5 2 (db_in active) rewrapped_db found_before
      ready_before rewrapped_run
