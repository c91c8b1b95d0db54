-- ===== src/Tests/Release.antt =====
-- Releases of the scenario's vault.
use legacylock.Readiness.{
  add_index, drill_of, eligible_indexes, is_eligible, is_stale, recovery_evidence, rows_of,
}
use legacylock.Outcome.{gets, guard, modify, pure}
use legacylock.Outbox.{new_job}
use legacylock.Outbox.Payloads.{context, protect}
use legacylock.Audit.{record_audit}
use legacylock.Outbox.{cancel_warnings, event, enqueue}
use legacylock.Trigger.{
  stage_release, stage_notices, notify_all_release, accepted_of, notify_release, notify_sms,
}
use legacylock.Readiness.{
  require_release_ready, is_releasable, release_ready, current_ceremony, assignment_signature,
  current_drill,
}
use legacylock.Prelude.{◌≡◌, refl, false, none, some, [], ◌∷◌, exists, lookup, save}
use legacylock.Lifecycle.{grace}
use legacylock.Models.{
  Db, VaultStatus, BusinessEvent, inactivity, system, grace_first, DeliveryJob, JobState, Recipient,
  Channel,
}
use legacylock.Trigger.Notices.{
  Told, release_tells_everyone, release_cancels_warnings, is_pending_warning,
}
use legacylock.Outcome.{ok, settle, ◌>>=◌}
use legacylock.Trigger.{trigger_vault, locked, released_status, release_locked, lock_status}
use legacylock.Trigger.Release.{
  ReleasedBy, trigger_vault-ReleasedBy, IsOverdue, trigger_vault-IsOverdue,
}
use legacylock.Tests.Scenario.{test_env, db_in, late, status_in}

unfoldable released_row : VaultStatus
unfolding locked
released_row = released_status (locked 1 late (db_in grace)) inactivity late

unfoldable released_db : Db
unfolding trigger_vault
released_db = settle (db_in grace) (trigger_vault test_env 1 inactivity late system (db_in grace))

released_run :
    trigger_vault test_env 1 inactivity late system (db_in grace)
    ≡ ok (released_row, false) released_db
unfolding released_db released_row ◌>>=◌ trigger_vault release_locked lookup save lock_status
    require_release_ready is_releasable release_ready current_ceremony assignment_signature
    current_drill stage_release stage_notices cancel_warnings event notify_all_release accepted_of
    notify_release enqueue notify_sms record_audit
released_run = refl

trigger_vault-ReleasedBy_example : ReleasedBy test_env 1 inactivity late (db_in grace) released_db
trigger_vault-ReleasedBy_example =
    trigger_vault-ReleasedBy test_env 1 inactivity late system released_row (db_in grace)
      released_db released_run

trigger_vault-IsOverdue_example : IsOverdue 1 late (db_in grace)
trigger_vault-IsOverdue_example =
    trigger_vault-IsOverdue test_env 1 late system released_row (db_in grace) released_db
      released_run

-- A grace warning that is still to be sent.
abbrev warning_event : BusinessEvent
warning_event = record { id = 40; vault_id = some 1; kind = grace_first; revision = 2 }

abbrev warning_job : DeliveryJob
warning_job = record {
  id = 41;
  event_id = 40;
  recipient = Recipient.owner 2;
  beneficiary_id = none;
  contact_revision = none;
  channel = Channel.email;
  payload = none;
  credential_expires_at = none;
  state = JobState.ready;
  attempts = 0;
  due_at = 0;
  lease_until = none;
  claim_token = none;
  provider_id = none;
  last_error = none;
  accepted_at = none;
  created_at = 0;
}

abbrev warned_db : Db
warned_db = record (db_in grace) { events = warning_event ∷ []; jobs = warning_job ∷ [] }

abbrev row : VaultStatus
row = status_in grace

unfoldable told_db : Db
unfolding release_locked
told_db = settle warned_db (release_locked test_env row inactivity late system warned_db)

told_run :
    release_locked test_env row inactivity late system warned_db
    ≡ ok (released_status row inactivity late, false) told_db
unfolding told_db ◌>>=◌ require_release_ready is_releasable lookup release_ready current_ceremony
    assignment_signature current_drill stage_release stage_notices cancel_warnings event
    notify_all_release accepted_of notify_release enqueue notify_sms record_audit context protect
    new_job gets guard modify pure save add_index drill_of eligible_indexes is_eligible is_stale
    recovery_evidence rows_of release_locked
told_run = refl

release_tells_everyone_example : Told test_env row warned_db told_db
release_tells_everyone_example =
    release_tells_everyone test_env row (released_status row inactivity late) inactivity late system
      warned_db told_db told_run

release_cancels_warnings_example : exists (is_pending_warning told_db.events 1) told_db.jobs ≡ false
release_cancels_warnings_example =
    release_cancels_warnings test_env row (released_status row inactivity late) inactivity late
      system warned_db told_db refl told_run
