-- ===== src/Machine/Owner.antt =====
-- The owner's check-in and settings respect the order of status rows.
use legacylock.Prelude.{ℕ, ◌≡◌, refl, Bool, false, Option, arith}
use legacylock.Lifecycle.{triggered, same_state}
use legacylock.Models.{Db, VaultStatus}
use legacylock.Env.{Env}
use legacylock.Outcome.{ok, ◌>>=◌}
use legacylock.Audit.{record_audit}
use legacylock.Outbox.{cancel_warnings}
use legacylock.Readiness.{require_release_ready}
use legacylock.Trigger.{save_status, locked, lock_status}
use legacylock.Heartbeat.{
  checked_in_status, check_in_vault, saved_status, save_settings, SettingsIn, require_if,
  get_or_create_heartbeat_config,
}
use legacylock.Heartbeat.Laws.{check_in_vault-CheckedIn}
use legacylock.Machine.Rows.{RowOrder, StatusOrder, StatusOrder-lock_and_write}

RowOrder-checked_in_status :
    (vs : VaultStatus) (now : ℕ)
    → same_state vs.state triggered ≡ false
    → RowOrder vs (checked_in_status vs now)
unfolding checked_in_status
RowOrder-checked_in_status vs now unreleased = record {
  version = ground arith;
  episode = ground arith;
  released = λ h. absurd (ground arith);
}

checked_in_status-vault_id :
    (vs : VaultStatus) (now : ℕ) → (checked_in_status vs now).vault_id ≡ vs.vault_id
unfolding checked_in_status
checked_in_status-vault_id vs now = ground arith

pub check_in_vault-StatusOrder :
    (env : Env) (v user now : ℕ) (d d' : Db)
    → check_in_vault env v user now d ≡ ok tt d'
    → StatusOrder d d'
check_in_vault-StatusOrder env v user now d d' h =
    let c = check_in_vault-CheckedIn env v user now d d' h in
    let vs = locked v now d in
    StatusOrder-lock_and_write v now (checked_in_status vs now) d d'
      (checked_in_status-vault_id vs now) (RowOrder-checked_in_status vs now c.not_released)
      c.statuses

RowOrder-saved_status :
    (vs : VaultStatus) (armed : Option Bool) (now : ℕ)
    → same_state vs.state triggered ≡ false
    → RowOrder vs (saved_status vs armed now)
RowOrder-saved_status vs armed now unreleased = record {
  version = omega arith;
  episode = omega arith;
  released = λ h. absurd (ground arith);
}

save_settings-writes :
    (env : Env) (v : ℕ) (input : SettingsIn) (user now : ℕ) (d d' : Db)
    → save_settings env v input user now d ≡ ok tt d'
    → (same_state (locked v now d).state triggered ≡ false)
      × (d'.statuses
          ≡ (save_status
              (saved_status (locked v now d) input.armed now)
              (save_status (locked v now d) d)).statuses)
unfolding save_settings require_if require_release_ready get_or_create_heartbeat_config
    cancel_warnings record_audit lock_status ◌>>=◌
save_settings-writes env v input user now d d' h = ground arith

pub save_settings-StatusOrder :
    (env : Env) (v : ℕ) (input : SettingsIn) (user now : ℕ) (d d' : Db)
    → save_settings env v input user now d ≡ ok tt d'
    → StatusOrder d d'
save_settings-StatusOrder env v input user now d d' h =
    let (unreleased, writes) = save_settings-writes env v input user now d d' h in
    let vs = locked v now d in
    StatusOrder-lock_and_write v now (saved_status vs input.armed now) d d' refl
      (RowOrder-saved_status vs input.armed now unreleased) writes
