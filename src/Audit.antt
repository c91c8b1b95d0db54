-- ===== src/Audit.antt =====
-- backend/services/audit.py: the audit row is staged in the caller's transaction.
use legacylock.Prelude.{ℕ, ◌∷◌, Option, String}
use legacylock.Models.{Db, Actor}
use legacylock.Outcome.{Tx, modify}

unfoldable pub record_audit : Option ℕ → Actor → String → Tx Db (Unit {0})
record_audit vault_id actor event_type = modify λ db. record db {
  audits = record { vault_id = vault_id; actor = actor; event_type = event_type } ∷ db.audits;
}
