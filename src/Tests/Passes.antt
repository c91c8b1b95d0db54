-- ===== src/Tests/Passes.antt =====
-- Turns of the checker on the scenario's vault, and the histories that they begin.
use legacylock.Trigger.{warn_people}
use legacylock.Outbox.{cancel_warnings, enqueue, event, new_job}
use legacylock.Outbox.Payloads.{context, protect}
use legacylock.Audit.{record_audit}
use legacylock.Readiness.{
  require_release_ready, add_index, drill_of, eligible_indexes, is_eligible, is_stale,
  recovery_evidence, rows_of,
}
use legacylock.Trigger.{
  lock_status, release_locked, stage_release, accepted_of, enter_grace, notify_all_release,
  notify_release, notify_sms, warn_found, stage_kind, stage_notices, stage_warning, warn,
  warn_vault, warn_before, warn_beneficiaries, warn_each, warning_kinds,
}
use legacylock.Outcome.{◌>>=◌, gets, guard, modify, or_raise, pure}
use legacylock.Checker.{
  turn_body, turn_armed, can_advance, advance, to_grace, finish_turn, release_turn, warning_turn,
}
use legacylock.Readiness.{
  is_releasable, release_ready, current_ceremony, assignment_signature, current_drill,
}
use legacylock.Prelude.{◌≤◌, ◌≡◌, refl, true, false, none, some, lookup, save, arith}
use legacylock.Trigger.{stage_warning}
use legacylock.Trigger.Warnings.{stage_warning_idempotent}
use legacylock.Models.{day}
use legacylock.Outcome.{ok, settle}
use legacylock.Prelude.{ℕ, ◌+◌, ◌*◌}
use legacylock.Lifecycle.{grace, triggered}
use legacylock.Models.{Db, VaultStatus, inactivity}
use legacylock.Trigger.{status_of, locked, released_status}
use legacylock.Checker.{turn, check_heartbeat}
use legacylock.Checker.Pass.{ReleasedInTurn, turn_releases_overdue, turn_before_deadline}
use legacylock.Checker.Liveness.{turn_releases}
use legacylock.Machine.History.{Reach, here, ◌▸◌, checks, release_is_terminal, status_versions_grow}
use legacylock.Tests.Scenario.{test_env, db_in, late, status_in, test_config}

unfoldable row_after : VaultStatus
unfolding locked lookup
row_after = released_status (locked 1 late (db_in grace)) inactivity late

unfoldable db_after : Db
unfolding turn
db_after = (turn test_env 1 late (db_in grace)).0

row_found : status_of 1 db_after ≡ some row_after
unfolding db_after row_after turn_body ◌>>=◌ lock_status turn_armed can_advance is_releasable
    release_ready current_ceremony assignment_signature current_drill advance to_grace finish_turn
    release_turn release_locked require_release_ready stage_release record_audit turn warning_turn
    context protect cancel_warnings enqueue event new_job gets guard modify or_raise pure lookup
    save add_index drill_of eligible_indexes is_eligible is_stale recovery_evidence rows_of
    accepted_of enter_grace locked notify_all_release notify_release notify_sms warn_found
    stage_kind stage_notices stage_warning warn warn_vault warn_before warn_beneficiaries warn_each
    warning_kinds
row_found = refl

turn_releases_overdue_example : (ReleasedInTurn test_env 1 late (db_in grace)) × (true ≡ true)
unfolding db_after lookup row_after
turn_releases_overdue_example =
    turn_releases_overdue test_env 1 late (db_in grace) (status_in grace) row_after refl refl
      row_found refl

turn_before_deadline_example : (turn test_env 1 5 (db_in grace)).0 ≡ db_in grace
unfolding lookup
turn_before_deadline_example =
    turn_before_deadline test_env 1 5 0 test_config (db_in grace) refl refl (omega arith)

turn_releases_example :
    ((turn test_env 1 late (db_in grace)).1 ≡ false)
    × (s : VaultStatus) × (status_of 1 (turn test_env 1 late (db_in grace)).0 ≡ some s)
    × (s.state ≡ triggered)
    × (s.triggered_at ≡ some late)
    × (s.trigger_reason ≡ some inactivity)
unfolding lookup is_releasable release_ready current_ceremony assignment_signature current_drill
turn_releases_example =
    turn_releases test_env 3 1 late 0 (status_in grace) test_config (db_in grace) refl refl refl
      refl refl refl refl refl (omega arith) refl

abbrev next_db : Db
next_db = (check_heartbeat test_env late 100 none db_after).0

one_more_pass : Reach test_env db_after next_db
one_more_pass = here ▸ checks late 100 none refl

release_is_terminal_example :
    (s : VaultStatus) × (status_of 1 next_db ≡ some s)
    × (s.state ≡ triggered)
    × (s.triggered_at ≡ some late)
    × (s.trigger_reason ≡ some inactivity)
unfolding row_after
release_is_terminal_example =
    release_is_terminal test_env db_after next_db 1 row_after one_more_pass row_found refl

status_versions_grow_example :
    (s : VaultStatus) × (status_of 1 next_db ≡ some s) × (5 ≤ s.version) × (2 ≤ s.episode)
unfolding row_after
status_versions_grow_example =
    status_versions_grow test_env db_after next_db 1 row_after one_more_pass row_found

-- The rows of a vault that is in its grace period since day 30.
abbrev warned_row : VaultStatus
warned_row = record (status_in grace) { grace_started_at = some (30 * day) }

abbrev soon : ℕ
soon = 36 * day + 1

unfoldable warned_db : Db
unfolding stage_warning
warned_db = settle (db_in grace) (stage_warning test_env warned_row test_config soon (db_in grace))

warned_run : stage_warning test_env warned_row test_config soon (db_in grace) ≡ ok tt warned_db
unfolding warned_db ◌>>=◌ warn_before warn_vault warn_found lookup warn_each warn stage_kind event
    warn_people enqueue warn_beneficiaries accepted_of
warned_run = refl

stage_warning_idempotent_example :
    stage_warning test_env warned_row test_config soon warned_db ≡ ok tt warned_db
stage_warning_idempotent_example =
    stage_warning_idempotent test_env warned_row test_config soon (db_in grace) warned_db warned_run
