-- ===== src/Outbox.antt =====
-- backend/services/outbox.py: delivery intent, written in the transaction of the business change.
pub mod Payloads
pub mod Queue
pub mod Worker
pub mod Work
pub mod Leases
pub mod Outcomes
pub mod Intent
use legacylock.Prelude.{
  ℕ, suc, ◌+◌, Bool, true, false, not, ◌&&◌, Option, none, some, List, [], ◌∷◌, ◌==◌, exists,
  filter, map, opt_eq, is_some, if◌then◌else◌, update_where, ◌++◌, ◌||◌,
}
use legacylock.Models.{
  Db, Beneficiary, BusinessEvent, EventKind, is_grace, same_kind, DeliveryJob, JobState, is_pending,
  Recipient, Channel, Mail,
}
use legacylock.Env.{Env}
use legacylock.Outcome.{Tx, ok, err, integrity, failure, ◌>>=◌, ◌>>◌, guard, modify}
use Payloads.{protect}

-- The next value of the random source.
unfoldable pub draw : Env → Tx Db ℕ
draw env db = ok (env.random db.drawn) (record db { drawn = suc db.drawn })

-- The unique constraint on (vault_id, kind, revision); rows with no vault never clash.
abbrev pub is_same_event : Option ℕ → EventKind → ℕ → BusinessEvent → Bool
is_same_event vault_id kind revision e =
    is_some vault_id
    && (opt_eq e.vault_id vault_id && (same_kind e.kind kind && (e.revision == revision)))

unfoldable pub event : Env → Option ℕ → EventKind → ℕ → Tx Db BusinessEvent
unfolding draw
event env vault_id kind revision db =
    let row : BusinessEvent = record {
      id = env.random db.drawn;
      vault_id = vault_id;
      kind = kind;
      revision = revision;
    } in
    if exists (is_same_event vault_id kind revision) db.events
    then err integrity
    else ok row (record db { events = db.events ++ row ∷ []; drawn = suc db.drawn })

-- Whom a job is for: the beneficiary's id and contact revision, or nothing for an owner.
abbrev pub ref_id : Option Beneficiary → Option ℕ
ref_id none = none
ref_id (some b) = some b.id

abbrev pub ref_revision : Option Beneficiary → Option ℕ
ref_revision none = none
ref_revision (some b) = some b.contact_revision

-- The job as `enqueue` builds it, before its payload is sealed.
unfoldable pub new_job :
    ℕ → BusinessEvent → Recipient → Option Beneficiary → Channel → Option ℕ → ℕ → DeliveryJob
new_job id business recipient beneficiary channel expires now = record {
  id = id;
  event_id = business.id;
  recipient = recipient;
  beneficiary_id = ref_id beneficiary;
  contact_revision = ref_revision beneficiary;
  channel = channel;
  payload = none;
  credential_expires_at = expires;
  state = JobState.ready;
  attempts = 0;
  due_at = now;
  lease_until = none;
  claim_token = none;
  provider_id = none;
  last_error = none;
  accepted_at = none;
  created_at = now;
}

unfoldable pub enqueue :
    Env
    → BusinessEvent
    → Recipient
    → Mail
    → Option Beneficiary
    → Channel
    → Option ℕ
    → ℕ
    → Tx Db DeliveryJob
unfolding new_job protect
enqueue env business recipient mail beneficiary channel expires now db =
    let bare = new_job (env.random db.drawn) business recipient beneficiary channel expires now in
    elim (protect env (env.random (suc db.drawn)) bare mail) [
      | none ↦ err failure
      | some sealed ↦
          (let job : DeliveryJob = record bare { payload = some sealed } in
            ok job (record db { jobs = db.jobs ++ job ∷ []; drawn = suc (suc db.drawn) }))
    ]

abbrev pub cancel : DeliveryJob → DeliveryJob
cancel job = record job { state = JobState.cancelled; payload = none; claim_token = none }

unfoldable pub cancel_recipient : ℕ → Tx Db (Unit {0})
cancel_recipient beneficiary_id = modify λ db. record db {
  jobs =
      update_where (λ job. opt_eq job.beneficiary_id (some beneficiary_id) && is_pending job.state)
        cancel db.jobs;
}

-- `event_id.in_(events)` for the grace warnings of the vault
abbrev pub is_warning : List BusinessEvent → ℕ → DeliveryJob → Bool
is_warning events vault_id job =
    exists (λ e. e.id == job.event_id && (opt_eq e.vault_id (some vault_id) && is_grace e.kind))
      events

unfoldable pub cancel_warnings : ℕ → Tx Db (Unit {0})
cancel_warnings vault_id = modify λ db. record db {
  jobs =
      update_where (λ job. is_warning db.events vault_id job && is_pending job.state) cancel
        db.jobs;
}
