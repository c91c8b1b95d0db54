-- ===== src/Trigger.antt =====
-- backend/services/trigger_service.py: the one authority for release and its delivery intent.
pub mod Frame
pub mod Status
pub mod Totality
pub mod Release
pub mod Notices
pub mod Warnings
use legacylock.Prelude.{
  ℕ, suc, ◌+◌, ◌*◌, ◌-◌, ◌≤◌, Bool, true, false, not, ◌&&◌, ◌||◌, Option, none, some, List, [], ◌∷◌,
  ◌++◌, ◌==◌, leb, ltb, exists, filter, is_some, String, if◌then◌else◌, lookup, save,
}
use legacylock.Lifecycle.{
  VaultState, active, grace, triggered, same_state, accepted, same_invitation,
}
use legacylock.Models.{
  Db, Vault, VaultStatus, HeartbeatConfig, Beneficiary, User, Reason, manual, inactivity,
  BusinessEvent, EventKind, grace_first, grace_second, grace_final, released, same_kind, Recipient,
  Channel, Mail, Body, release_email, release_sms, overdue, Actor, system, day, DeliveryJob, truthy,
}
use legacylock.Env.{Env}
use legacylock.Outcome.{
  Tx, Outcome, ok, err, http, failure, ◌>>=◌, ◌>>◌, guard, pure, raise, gets, modify, or_raise,
}
use legacylock.Audit.{record_audit}
use legacylock.Outbox.{event, enqueue, cancel_warnings, is_same_event}
use legacylock.Readiness.{release_ready, is_releasable, require_release_ready}

abbrev pub status_of : ℕ → Db → Option VaultStatus
status_of vault_id db = lookup (λ (s : VaultStatus). s.vault_id) vault_id db.statuses

abbrev pub config_of : ℕ → Db → Option HeartbeatConfig
config_of vault_id db = lookup (λ (c : HeartbeatConfig). c.vault_id) vault_id db.configs

abbrev pub vault_of : ℕ → Db → Option Vault
vault_of vault_id db = lookup (λ (v : Vault). v.id) vault_id db.vaults

abbrev pub save_status : VaultStatus → Db → Db
save_status vs db = record db { statuses = save (λ (s : VaultStatus). s.vault_id) vs db.statuses }

abbrev pub new_status : ℕ → ℕ → VaultStatus
new_status vault_id now = record {
  vault_id = vault_id;
  state = active;
  version = 1;
  armed = false;
  episode = 0;
  grace_started_at = none;
  triggered_at = none;
  trigger_reason = none;
  updated_at = now;
}

abbrev or_new : ℕ → ℕ → Option VaultStatus → VaultStatus
or_new vault_id now none = new_status vault_id now
or_new vault_id now (some vs) = vs

-- The row that the lock returns: the vault's, or a new one, under the next version.
unfoldable pub locked : ℕ → ℕ → Db → VaultStatus
locked vault_id now db =
    let vs = or_new vault_id now (status_of vault_id db) in
    record vs { version = vs.version + 1; updated_at = now }

-- The row lock serialises its holders, so the row is still there when its version is raised, and
-- the 409 for a lost row is not reached. The update also fires the column's `onupdate` time.
unfoldable pub lock_status : ℕ → ℕ → Tx Db VaultStatus
lock_status vault_id now db = let vs = locked vault_id now db in ok vs (save_status vs db)

-- `filter_by(vault_id=…, invitation_status="accepted")`
unfoldable pub accepted_of : ℕ → List Beneficiary → List Beneficiary
accepted_of vault_id =
    filter λ b. b.vault_id == vault_id && same_invitation b.invitation_status accepted

-- The text message of one beneficiary, if it has a phone and text messages are on.
unfoldable pub notify_sms : Env → BusinessEvent → Beneficiary → ℕ → Option String → Tx Db (Unit {0})
notify_sms env business ben now none = pure tt
notify_sms env business ben now (some phone) =
    if env.sms_enabled && truthy (some phone)
    then (do
      enqueue env business (Recipient.beneficiary ben.id)
          (record { to = phone; body = release_sms }) (some ben) Channel.sms none now
      pure tt)
    else pure tt

-- The release notices of one beneficiary.
unfoldable pub notify_release : Env → BusinessEvent → Beneficiary → ℕ → Tx Db (Unit {0})
notify_release env business ben now = do
  enqueue env business (Recipient.beneficiary ben.id)
      (record { to = ben.email; body = release_email env.frontend_origin }) (some ben) Channel.email
      none now
  notify_sms env business ben now ben.phone

unfoldable pub notify_all_release : Env → BusinessEvent → List Beneficiary → ℕ → Tx Db (Unit {0})
notify_all_release env business [] now = pure tt
notify_all_release env business (ben ∷ bens) now = do
  notify_release env business ben now
  notify_all_release env business bens now

-- The status after a release.
abbrev pub released_status : VaultStatus → Reason → ℕ → VaultStatus
released_status vs reason now = record vs {
  state = triggered;
  triggered_at = some now;
  trigger_reason = some reason;
  updated_at = now;
}

-- What a release stages for delivery and audit.
unfoldable pub stage_notices : Env → VaultStatus → ℕ → Actor → Tx Db (Unit {0})
stage_notices env vs now actor = do
  cancel_warnings vs.vault_id
  business ← event env (some vs.vault_id) released vs.version
  bens ← gets (λ db. accepted_of vs.vault_id db.beneficiaries)
  notify_all_release env business bens now
  record_audit (some vs.vault_id) actor "vault.trigger"

-- The second half of `release_locked`: the transition and everything that it stages.
unfoldable pub stage_release : Env → VaultStatus → Reason → ℕ → Actor → Tx Db (Unit {0})
stage_release env vs reason now actor = do
  modify (save_status (released_status vs reason now))
  stage_notices env vs now actor

-- The flag says that nothing was released by this call.
unfoldable pub release_locked : Env → VaultStatus → Reason → ℕ → Actor → Tx Db (VaultStatus × Bool)
release_locked env vs reason now actor =
    if same_state vs.state triggered then pure (vs, true) else (do
      guard (not env.release_hold) (http 409)
      require_release_ready env vs.vault_id
      stage_release env vs reason now actor
      pure (released_status vs reason now, false))

-- `utc(cfg.last_check_in) + timedelta(days=…)`
abbrev pub check_in_deadline : ℕ → HeartbeatConfig → ℕ
check_in_deadline last cfg = last + cfg.interval_days * day

abbrev pub release_deadline : ℕ → HeartbeatConfig → ℕ
release_deadline last cfg = last + (cfg.interval_days + cfg.grace_days) * day

-- The two tests that an inactivity release passes.
unfoldable pub is_overdue : Option HeartbeatConfig → VaultStatus → ℕ → Bool
is_overdue none vs now = false
is_overdue (some cfg) vs now = elim cfg.last_check_in [
  | none ↦ false
  | some last ↦ vs.armed && (same_state vs.state grace && leb (release_deadline last cfg) now)
]

abbrev is_inactivity : Reason → Bool
is_inactivity manual = false
is_inactivity inactivity = true

unfoldable pub trigger_vault : Env → ℕ → Reason → ℕ → Actor → Tx Db (VaultStatus × Bool)
unfolding is_overdue
trigger_vault env vault_id reason now actor = do
  vs ← lock_status vault_id now
  cfg ← gets (config_of vault_id)
  if is_inactivity reason && not (is_overdue cfg vs now)
      then pure (vs, true)
      else release_locked env vs reason now actor

-- The status in the grace period that began at the missed deadline.
abbrev pub grace_status : VaultStatus → ℕ → ℕ → VaultStatus
grace_status vs deadline now = record vs {
  state = grace;
  grace_started_at = some deadline;
  updated_at = now;
  episode = vs.episode + 1;
}

-- The deadline that was missed, if the vault is to move to grace.
unfoldable pub missed_deadline : Env → Db → VaultStatus → ℕ → Option ℕ
missed_deadline env db vs now = elim (config_of vs.vault_id db) [
  | none ↦ none
  | some cfg ↦ elim cfg.last_check_in [
    | none ↦ none
    | some last ↦
        if (same_state vs.state active && vs.armed)
          && (is_releasable env db vs.vault_id && leb (check_in_deadline last cfg) now)
        then some (check_in_deadline last cfg)
        else none
  ]
]

unfoldable pub enter_grace : VaultStatus → ℕ → ℕ → Tx Db VaultStatus
enter_grace vs deadline now = do
  modify (save_status (grace_status vs deadline now))
  record_audit (some vs.vault_id) system "heartbeat.grace"
  pure (grace_status vs deadline now)

unfoldable pub grace_from : VaultStatus → ℕ → Option ℕ → Tx Db (VaultStatus × Bool)
grace_from vs now none = pure (vs, true)
grace_from vs now (some deadline) = do vs' ← enter_grace vs deadline now; pure (vs', false)

unfoldable pub move_to_grace : Env → ℕ → ℕ → Tx Db (VaultStatus × Bool)
move_to_grace env vault_id now = do
  vs ← lock_status vault_id now
  missed ← gets (λ db. missed_deadline env db vs now)
  grace_from vs now missed

-- The kinds of warning that are due, `end` being the release deadline.
unfoldable pub warning_kinds : ℕ → ℕ → ℕ → ℕ → List EventKind
warning_kinds end started grace_days now =
    grace_first
    ∷ ((if leb (started + 3 * day) now && ltb 3 grace_days then grace_second ∷ [] else [])
        ++ (if leb end (now + day) then grace_final ∷ [] else []))

unfoldable pub warn_beneficiaries :
    Env → BusinessEvent → List Beneficiary → ℕ → ℕ → Tx Db (Unit {0})
warn_beneficiaries env business [] end now = pure tt
warn_beneficiaries env business (ben ∷ bens) end now = do
  enqueue env business (Recipient.beneficiary ben.id)
      (record { to = ben.email; body = overdue end }) (some ben) Channel.email none now
  warn_beneficiaries env business bens end now

-- The jobs of one new warning.
unfoldable pub warn_people : Env → VaultStatus → User → ℕ → ℕ → BusinessEvent → Tx Db (Unit {0})
warn_people env vs owner end now business = do
  enqueue env business (Recipient.owner owner.id) (record { to = owner.email; body = overdue end })
      none Channel.email none now
  bens ← gets (λ (d : Db). accepted_of vs.vault_id d.beneficiaries)
  warn_beneficiaries env business bens end now

-- The attributes of a missing owner raise.
unfoldable pub warn_found :
    Env → VaultStatus → Option User → ℕ → ℕ → BusinessEvent → Tx Db (Unit {0})
warn_found env vs found end now business = do
  owner ← or_raise found failure
  warn_people env vs owner end now business

unfoldable pub stage_kind : Env → VaultStatus → Option User → ℕ → ℕ → EventKind → Tx Db (Unit {0})
stage_kind env vs found end now kind = do
  business ← event env (some vs.vault_id) kind vs.episode
  warn_found env vs found end now business

-- One kind of warning: skipped if this episode has it already.
unfoldable pub warn : Env → VaultStatus → Option User → ℕ → ℕ → EventKind → Tx Db (Unit {0})
warn env vs owner end now kind = do
  staged ← gets (λ (d : Db). exists (is_same_event (some vs.vault_id) kind vs.episode) d.events)
  if staged then pure tt else stage_kind env vs owner end now kind

unfoldable pub warn_each :
    Env → VaultStatus → Option User → ℕ → ℕ → List EventKind → Tx Db (Unit {0})
warn_each env vs owner end now [] = pure tt
warn_each env vs owner end now (kind ∷ kinds) = do
  warn env vs owner end now kind
  warn_each env vs owner end now kinds

-- `db.get(User, vault.user_id)`
abbrev pub owner_of : Vault → Db → Option User
owner_of vault db = lookup (λ (u : User). u.id) vault.user_id db.users

-- The owner of the vault is read once for all kinds.
unfoldable pub warn_vault :
    Env → VaultStatus → HeartbeatConfig → ℕ → ℕ → ℕ → Vault → Tx Db (Unit {0})
unfolding warning_kinds
warn_vault env vs cfg end now started vault = do
  owner ← gets (owner_of vault)
  warn_each env vs owner end now (warning_kinds end started cfg.grace_days now)

-- The warnings before the release deadline `end`; the attributes of a missing vault raise.
unfoldable pub warn_before : Env → VaultStatus → HeartbeatConfig → ℕ → ℕ → Tx Db (Unit {0})
warn_before env vs cfg end now = do
  started ← or_raise vs.grace_started_at failure
  known ← gets (vault_of vs.vault_id)
  vault ← or_raise known failure
  warn_vault env vs cfg end now started vault

-- Reading an unset time raises.
unfoldable pub stage_warning : Env → VaultStatus → HeartbeatConfig → ℕ → Tx Db (Unit {0})
stage_warning env vs cfg now = do
  last ← or_raise cfg.last_check_in failure
  if leb (release_deadline last cfg) now
      then pure tt
      else warn_before env vs cfg (release_deadline last cfg) now
