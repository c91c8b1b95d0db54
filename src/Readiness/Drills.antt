-- ===== src/Readiness/Drills.antt =====
-- POST /vault/drill of backend/routers/readiness.py: the owner's report of a recovery drill.
use legacylock.Prelude.{ℕ, ◌==◌, Bool, ◌&&◌, some, String, str_eq, opt_str_eq, first, update_where}
use legacylock.Models.{
  Db, Vault, RecoveryCeremony, CeremonyStatus, same_ceremony_status, Drill, object, Actor,
}
use legacylock.Env.{Env}
use legacylock.Outcome.{Tx, http, ◌>>=◌, ◌>>◌, guard, gets, modify, or_raise}
use legacylock.Audit.{record_audit}
use legacylock.Readiness.{assignment_signature}
use legacylock.Trigger.{lock_status}
use legacylock.Heartbeat.{get_vault}

pub record DrillReport : Type 0 where
  pub material_revision : ℕ
  pub assignment_signature : ℕ
  pub generation : String

unfoldable pub is_current_report : Env → Vault → DrillReport → Db → Bool
is_current_report env vault report db =
    (vault.material_revision == report.material_revision)
    && (opt_str_eq vault.recovery_generation (some report.generation)
        && ((assignment_signature env db vault).0 == report.assignment_signature))

abbrev drill_of_report : DrillReport → Drill
drill_of_report report = record {
  material_revision = some report.material_revision;
  assignment_signature = some report.assignment_signature;
  generation = some report.generation;
  verifier = some "owner_report";
}

abbrev is_reported : Vault → DrillReport → RecoveryCeremony → Bool
is_reported vault report c =
    (c.vault_id == vault.id)
    && (str_eq c.generation report.generation
        && same_ceremony_status c.status CeremonyStatus.finalized)

-- The drill is written to the finalized ceremony of the reported generation.
unfoldable pub record_drill : Vault → DrillReport → ℕ → Tx Db (Unit {0})
record_drill vault report user_id = do
  found ← gets (λ db. first (is_reported vault report) db.ceremonies)
  row ← or_raise found (http 409)
  modify (λ db. record db {
    ceremonies =
        update_where (λ (c : RecoveryCeremony). c.id == row.id)
          (λ c. record c { drill_data = some (object (drill_of_report report)) }) db.ceremonies;
  })
  record_audit (some vault.id) (Actor.owner user_id) "recovery.drill_reported"

unfoldable pub report_vault_drill : Env → Vault → DrillReport → ℕ → ℕ → Tx Db (Unit {0})
report_vault_drill env vault report user_id now = do
  lock_status vault.id now
  current ← gets (is_current_report env vault report)
  guard current (http 409)
  record_drill vault report user_id

unfoldable pub report_drill : Env → DrillReport → ℕ → ℕ → Tx Db (Unit {0})
report_drill env report user_id now = do
  vault ← get_vault user_id
  report_vault_drill env vault report user_id now
