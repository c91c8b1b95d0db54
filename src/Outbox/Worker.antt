-- ===== src/Outbox/Worker.antt =====
-- `deliver_one` and `work_once` of backend/services/outbox.py. The call of a provider stands between
-- two transactions; its result is a parameter, `none` where the call raises.
use legacylock.Prelude.{
  ℕ, ◌+◌, ◌*◌, ◌^◌, ◌==◌, min, max, Bool, true, false, not, ◌&&◌, ◌||◌, Option, none, some, [], ◌∷◌,
  ◌++◌, String, exists, first, leb, ltb, opt_eq, if◌then◌else◌, lookup, update_where,
}
use legacylock.Lifecycle.{grace, same_state}
use legacylock.Models.{
  Db, Beneficiary, BusinessEvent, is_grace, is_released, DeliveryJob, JobState, DeliveryAttempt,
  Channel, Mail, VaultStatus, second, truthy,
}
use legacylock.Env.{Env}
use legacylock.Outcome.{
  Tx, Outcome, ok, err, failure, integrity, ◌>>=◌, ◌>>◌, guard, pure, gets, modify, or_raise,
  settle,
}
use legacylock.Outbox.Payloads.{unprotect}

-- `DeliveryResult`
pub record DeliveryResult : Type 0 where
  pub accepted : Bool
  pub retryable : Bool
  pub code : Option String
  pub provider_id : Option ℕ
  pub retry_after : Option ℕ

abbrev is_claimed : JobState → Bool
is_claimed JobState.claimed = true
is_claimed _ = false

-- The job that this claim token still holds.
abbrev pub is_held : ℕ → ℕ → DeliveryJob → Bool
is_held id token job =
    (job.id == id) && (opt_eq job.claim_token (some token) && is_claimed job.state)

abbrev pub edit_held : ℕ → ℕ → (DeliveryJob → DeliveryJob) → Db → Db
edit_held id token f db = record db { jobs = update_where (is_held id token) f db.jobs }

abbrev pub hold : ℕ → DeliveryJob → DeliveryJob
hold now job = record job {
  state = JobState.retry_wait;
  claim_token = none;
  lease_until = none;
  due_at = now + 60 * second;
}

abbrev pub kill : String → DeliveryJob → DeliveryJob
kill reason job = record job { state = JobState.dead; last_error = some reason; claim_token = none }

abbrev pub drop : DeliveryJob → DeliveryJob
drop job = record job { state = JobState.cancelled; payload = none; claim_token = none }

-- The beneficiary's row is gone, or its contact revision has changed.
abbrev is_stale_contact : Db → DeliveryJob → Bool
is_stale_contact db job = elim job.beneficiary_id [
  | none ↦ false
  | some id ↦ elim (lookup (λ (b : Beneficiary). b.id) id db.beneficiaries) [
    | none ↦ true
    | some ben ↦ not (opt_eq (some ben.contact_revision) job.contact_revision)
  ]
]

-- A warning is over when its vault is not in this grace episode any more.
abbrev is_over : Db → BusinessEvent → Bool
is_over db business =
    if is_grace business.kind
    then elim (first (λ (s : VaultStatus). opt_eq (some s.vault_id) business.vault_id)
        db.statuses) [
          | none ↦ true
          | some status ↦
              not (same_state status.state grace && (status.episode == business.revision))
        ]
    else false

abbrev is_expired : Option ℕ → ℕ → Bool
is_expired none now = false
is_expired (some t) now = leb t now

unfoldable pub is_obsolete : Db → DeliveryJob → BusinessEvent → ℕ → Bool
is_obsolete db job business now =
    is_stale_contact db job || (is_over db business || is_expired job.credential_expires_at now)

-- What becomes of a held job before its provider is called.
pub data Verdict : Type 0 where
  held uncertain obsolete unreadable : Verdict
  send : Mail → Verdict

unfoldable pub verdict : Env → Db → DeliveryJob → BusinessEvent → ℕ → Verdict
verdict env db job business now =
    if env.release_hold && (is_released business.kind || is_grace business.kind)
    then held
    else if ltb 1 job.attempts && ltb (job.created_at + 23 * 3600 * second) now
    then uncertain
    else if is_obsolete db job business now
    then obsolete
    else elim (unprotect env job) [ none ↦ unreadable | some mail ↦ send mail ]

abbrev new_attempt : ℕ → ℕ → ℕ → DeliveryAttempt
new_attempt token id now = record {
  id = token;
  job_id = id;
  started_at = now;
  completed_at = none;
  outcome = none;
}

unfoldable pub add_attempt : DeliveryAttempt → Tx Db (Unit {0})
add_attempt row = do
  clash ← gets (λ db. exists (λ (a : DeliveryAttempt). a.id == row.id) db.attempts)
  guard (not clash) integrity
  modify (λ db. record db { attempts = db.attempts ++ row ∷ [] })

-- The mail that is to be sent, if the verdict is so.
unfoldable pub apply_verdict : ℕ → ℕ → Channel → ℕ → Verdict → Tx Db (Option (Channel × Mail))
apply_verdict id token channel now held = do modify (edit_held id token (hold now)); pure none
apply_verdict id token channel now uncertain = do
  modify (edit_held id token (kill "provider_window_reconcile"))
  pure none
apply_verdict id token channel now obsolete = do modify (edit_held id token drop); pure none
apply_verdict id token channel now unreadable = do
  modify (edit_held id token (kill "payload_unavailable"))
  pure none
apply_verdict id token channel now (send mail) = do
  add_attempt (new_attempt token id now)
  pure (some (channel, mail))

unfoldable pub start_held : Env → ℕ → ℕ → ℕ → Option DeliveryJob → Tx Db (Option (Channel × Mail))
start_held env id token now none = pure none
start_held env id token now (some job) = do
  found ← gets (λ db. lookup (λ (e : BusinessEvent). e.id) job.event_id db.events)
  business ← or_raise found failure
  what ← gets (λ db. verdict env db job business now)
  apply_verdict id token job.channel now what

-- The first transaction of `deliver_one`.
unfoldable pub start_delivery : Env → ℕ → ℕ → ℕ → Tx Db (Option (Channel × Mail))
start_delivery env id token now = do
  job ← gets (λ db. first (is_held id token) db.jobs)
  start_held env id token now job

abbrev plain : Bool → Option String
plain true = some "accepted"
plain false = some "provider_unknown"

-- `result.code or …`
abbrev outcome_of : DeliveryResult → Option String
outcome_of r = elim r.code [
  | some code ↦ if truthy (some code) then some code else plain r.accepted
  | none ↦ plain r.accepted
]

abbrev or_zero : Option ℕ → ℕ
or_zero none = 0
or_zero (some n) = n

-- `jitter` is `random.randint(0, 20)`.
unfoldable pub backoff : DeliveryResult → ℕ → ℕ → ℕ
backoff r attempts jitter = max (or_zero r.retry_after) (min 3600 (30 * 2 ^ attempts) + jitter)

unfoldable pub settled : DeliveryResult → ℕ → ℕ → DeliveryJob → DeliveryJob
unfolding backoff
settled r now jitter job =
    let closed = record job { last_error = r.code; claim_token = none; lease_until = none } in
    if r.accepted
    then record closed {
      state = JobState.accepted;
      accepted_at = some now;
      provider_id = r.provider_id;
      payload = none;
    }
    else if not r.retryable || leb 8 job.attempts
    then record closed { state = JobState.dead }
    else record closed {
      state = JobState.retry_wait;
      due_at = now + backoff r job.attempts jitter * second;
    }

abbrev complete : DeliveryResult → ℕ → DeliveryAttempt → DeliveryAttempt
complete r now a = record a { completed_at = some now; outcome = outcome_of r }

-- The second transaction of `deliver_one`.
unfoldable pub finish_delivery : ℕ → ℕ → DeliveryResult → ℕ → ℕ → Tx Db (Unit {0})
unfolding settled
finish_delivery id token r now jitter = do
  modify (λ db. record db {
    attempts = update_where (λ (a : DeliveryAttempt). a.id == token) (complete r now) db.attempts;
  })
  modify (edit_held id token (settled r now jitter))

-- What the provider answers to a mail, and the clock and the jitter afterwards.
pub record Provider : Type 0 where
  pub deliver : Channel → Mail → ℕ → Option DeliveryResult
  pub now : ℕ
  pub jitter : ℕ

unfoldable pub send_out : Provider → ℕ → ℕ → Option (Channel × Mail) → Db → Db
send_out p id token none db = db
send_out p id token (some (channel, mail)) db = elim (p.deliver channel mail id) [
  | none ↦ db
  | some r ↦ settle db (finish_delivery id token r p.now p.jitter db)
]

unfoldable pub deliver_from : Provider → ℕ → ℕ → Db → Outcome Db (Option (Channel × Mail)) → Db
deliver_from p id token before (ok what db) = send_out p id token what db
deliver_from p id token before (err e) = before

unfoldable pub deliver_one : Env → Provider → ℕ → ℕ → ℕ → Db → Db
deliver_one env p id token now db = deliver_from p id token db (start_delivery env id token now db)
