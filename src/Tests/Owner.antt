-- ===== src/Tests/Owner.antt =====
-- A check-in of the scenario's owner.
use legacylock.Audit.{record_audit}
use legacylock.Outbox.{cancel_warnings}
use legacylock.Heartbeat.{get_or_create_heartbeat_config}
use legacylock.Readiness.{
  require_release_ready, release_ready, current_ceremony, assignment_signature, current_drill,
}
use legacylock.Trigger.{lock_status}
use legacylock.Prelude.{◌+◌, ◌≤◌, ◌≡◌, refl, true, false, none, some, lookup}
use legacylock.Lifecycle.{active, grace, triggered, same_state}
use legacylock.Models.{Db, VaultStatus, HeartbeatConfig, inactivity, system}
use legacylock.Outcome.{ok, settle, ◌>>=◌}
use legacylock.Readiness.{is_releasable}
use legacylock.Trigger.{status_of, config_of, locked, trigger_vault}
use legacylock.Heartbeat.{check_in_vault}
use legacylock.Heartbeat.Laws.{check_in_arms, check_in_stops_trigger}
use legacylock.Tests.Scenario.{test_env, db_in, late, status_in}

unfoldable seen_db : Db
unfolding check_in_vault
seen_db = settle (db_in grace) (check_in_vault test_env 1 2 late (db_in grace))

seen_run : check_in_vault test_env 1 2 late (db_in grace) ≡ ok tt seen_db
unfolding seen_db ◌>>=◌ lock_status locked lookup require_release_ready is_releasable release_ready
    current_ceremony assignment_signature current_drill get_or_create_heartbeat_config
    cancel_warnings record_audit
seen_run = refl

check_in_arms_example :
    (same_state (locked 1 late (db_in grace)).state triggered ≡ false)
    × (is_releasable test_env (db_in grace) 1 ≡ true)
    × (row : VaultStatus) × (cfg : HeartbeatConfig) × (status_of 1 seen_db ≡ some row)
    × (config_of 1 seen_db ≡ some cfg)
    × (row.state ≡ active)
    × (row.armed ≡ true)
    × (row.grace_started_at ≡ none)
    × ((locked 1 late (db_in grace)).version ≤ row.version)
    × (row.episode ≡ (locked 1 late (db_in grace)).episode)
    × (cfg.last_check_in ≡ some late)
check_in_arms_example = check_in_arms test_env 1 2 late (db_in grace) seen_db seen_run

check_in_stops_trigger_example : ¬ (
    trigger_vault test_env 1 inactivity (late + late) system seen_db
    ≡ ok (status_in grace, false) seen_db)
check_in_stops_trigger_example =
    check_in_stops_trigger test_env 1 2 late (late + late) system (status_in grace) (db_in grace)
      seen_db seen_db seen_run
