-- ===== src/Tests/Deliveries.antt =====
-- Deliveries of one job.
use legacylock.Prelude.{ℕ, ◌≡◌, refl, true, false, Option, none, some, [], ◌∷◌, arith, lookup}
use legacylock.Lifecycle.{active}
use legacylock.Models.{Db, DeliveryJob, JobState, Recipient, Channel}
use legacylock.Outcome.{ok, settle}
use legacylock.Outbox.Queue.{claim, lease, is_due_job}
use legacylock.Outbox.Worker.{DeliveryResult, Provider, deliver_one, finish_delivery}
use legacylock.Outbox.Leases.{job_of, finished_job_rests}
use legacylock.Outbox.Outcomes.{lease_excludes, delivery_ends_job, HasEnded}
use legacylock.Tests.Scenario.{test_env, db_in}

abbrev job_in : JobState → Option ℕ → DeliveryJob
job_in state token = record {
  id = 41;
  event_id = 40;
  recipient = Recipient.owner 2;
  beneficiary_id = none;
  contact_revision = none;
  channel = Channel.email;
  payload = none;
  credential_expires_at = none;
  state = state;
  attempts = 2;
  due_at = 0;
  lease_until = none;
  claim_token = token;
  provider_id = none;
  last_error = none;
  accepted_at = none;
  created_at = 0;
}

abbrev db_with : DeliveryJob → Db
db_with job = record (db_in active) { jobs = job ∷ [] }

abbrev refusal : DeliveryResult
refusal = record {
  accepted = false;
  retryable = true;
  code = none;
  provider_id = none;
  retry_after = some 5;
}

abbrev provider : Provider
provider = record { deliver = λ channel mail id. some refusal; now = 9; jitter = 3 }

abbrev ended : DeliveryJob
ended = job_in JobState.accepted none

finished_job_rests_example :
    (job_of 41 (settle (db_with ended) (claim test_env 7 20 (db_with ended))) ≡ some ended)
    × (job_of 41 (deliver_one test_env provider 41 6 7 (db_with ended)) ≡ some ended)
unfolding lookup
finished_job_rests_example =
    finished_job_rests test_env provider 7 20 41 6 41 ended (db_with ended) refl refl

abbrev ready_job : DeliveryJob
ready_job = job_in JobState.ready none

unfoldable leased_db : Db
unfolding lease
leased_db = settle (db_with ready_job) (lease 41 6 7 (db_with ready_job))

leased_run : lease 41 6 7 (db_with ready_job) ≡ ok true leased_db
unfolding leased_db lease is_due_job
leased_run = refl

lease_excludes_example :
    (j' : DeliveryJob) × (job_of 41 leased_db ≡ some j')
    × (j'.claim_token ≡ some 6)
    × (j'.attempts ≡ 3)
    × (is_due_job 60 j' ≡ false)
unfolding lookup is_due_job
lease_excludes_example =
    lease_excludes 41 6 7 60 true ready_job (db_with ready_job) leased_db refl refl leased_run
      (omega arith)

abbrev held_job : DeliveryJob
held_job = job_in JobState.claimed (some 6)

delivery_ends_job_example :
    (j' : DeliveryJob) × (d' : Db) × (finish_delivery 41 6 refusal 9 3 (db_with held_job)
      ≡ ok tt d')
    × (job_of 41 d' ≡ some j')
    × (j'.claim_token ≡ none)
    × (j'.lease_until ≡ none)
    × HasEnded refusal 9 held_job j'
unfolding lookup
delivery_ends_job_example = delivery_ends_job 41 6 9 3 refusal held_job (db_with held_job) refl refl
