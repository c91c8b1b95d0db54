-- ===== src/Heartbeat/Laws.antt =====
-- What a check-in, new settings and a reset write.
use legacylock.Prelude.{
  ℕ, ◌≤◌, ◌≡◌, refl, ap, inl, inr, true, false, none, some, arith, lookup, lookup-save, key-lookup,
  Option-cases,
}
use legacylock.Lifecycle.{active, triggered, same_state}
use legacylock.Models.{Db, VaultStatus, HeartbeatConfig, inactivity, Actor}
use legacylock.Env.{Env}
use legacylock.Outcome.{ok, ◌>>=◌}
use legacylock.Audit.{record_audit}
use legacylock.Outbox.{cancel_warnings}
use legacylock.Readiness.{is_releasable, require_release_ready}
use legacylock.Trigger.{status_of, config_of, save_status, locked, lock_status, trigger_vault}
use legacylock.Trigger.Status.{locked-vault_id, status_of-save_status}
use legacylock.Trigger.Release.{is_releasable-save_status, trigger_vault-IsOverdue}
use legacylock.Heartbeat.{
  save_config, config_or_new, get_or_create_heartbeat_config, check_in_vault, checked_in_status,
}

-- The gates and the writes of a successful check-in.
pub record CheckedIn (env : Env) (v now : ℕ) (d d' : Db) : Type 0 where
  pub not_released : same_state (locked v now d).state triggered ≡ false
  pub is_ready : is_releasable env d v ≡ true
  pub statuses :
      d'.statuses
      ≡ (save_status
          (checked_in_status (locked v now d) now)
          (save_status (locked v now d) d)).statuses
  pub configs :
      d'.configs
      ≡ (save_config
          (record (config_or_new v now (config_of v d)) {
            last_check_in = some now;
            updated_at = now;
          })
          d).configs

pub check_in_vault-CheckedIn :
    (env : Env) (v user now : ℕ) (d d' : Db)
    → check_in_vault env v user now d ≡ ok tt d'
    → CheckedIn env v now d d'
unfolding check_in_vault require_release_ready get_or_create_heartbeat_config cancel_warnings
    record_audit lock_status ◌>>=◌
check_in_vault-CheckedIn env v user now d d' h = record {
  not_released = ground arith;
  is_ready = ground (arith, is_releasable-save_status env (locked v now d) d v);
  statuses = ground arith;
  configs = ground arith;
}

-- The status row after a check-in of a vault that has one, with both steps spelled out.
checked_in_status-fields :
    (vs : VaultStatus) (now : ℕ)
    → same_state vs.state triggered ≡ false
    → ((checked_in_status vs now).state ≡ active)
      × ((checked_in_status vs now).armed ≡ true)
      × ((checked_in_status vs now).grace_started_at ≡ none)
      × ((checked_in_status vs now).vault_id ≡ vs.vault_id)
      × (vs.version ≤ (checked_in_status vs now).version)
      × ((checked_in_status vs now).episode ≡ vs.episode)
unfolding checked_in_status
checked_in_status-fields vs now h = ground arith

CheckedIn-row :
    (env : Env) (v now : ℕ) (d d' : Db)
    → CheckedIn env v now d d'
    → status_of v d' ≡ some (checked_in_status (locked v now d) now)
CheckedIn-row env v now d d' c =
    let vs = locked v now d in
    let next = checked_in_status vs now in
    ground (
      arith,
      ap (lookup (λ (s : VaultStatus). s.vault_id) v) c.statuses,
      status_of-save_status next (save_status vs d) v,
      checked_in_status-fields vs now c.not_released,
      locked-vault_id v now d,
    )

config_or_new-vault_id : (v now : ℕ) (d : Db) → (config_or_new v now (config_of v d)).vault_id ≡ v
config_or_new-vault_id v now d = elim (Option-cases (config_of v d)) [
  | inl e ↦ ground arith
  | inr (r, e) ↦ ground (arith, key-lookup (λ (c : HeartbeatConfig). c.vault_id) v d.configs r e)
]

-- The configuration after a check-in: the old one, or the default, with the check-in in it.
pub checked_in_config : ℕ → ℕ → Db → HeartbeatConfig
checked_in_config v now d = record (config_or_new v now (config_of v d)) {
  last_check_in = some now;
  updated_at = now;
}

CheckedIn-config :
    (env : Env) (v now : ℕ) (d d' : Db)
    → CheckedIn env v now d d'
    → config_of v d' ≡ some (checked_in_config v now d)
unfolding checked_in_config
CheckedIn-config env v now d d' c =
    let cfg : HeartbeatConfig = record (config_or_new v now (config_of v d)) {
      last_check_in = some now;
      updated_at = now;
    } in
    ground (
      arith,
      ap (lookup (λ (x : HeartbeatConfig). x.vault_id) v) c.configs,
      lookup-save (λ (x : HeartbeatConfig). x.vault_id) cfg v d.configs,
      config_or_new-vault_id v now d,
    )

-- A successful check-in found the vault unreleased (by its status row, or by the row that the lock
-- makes for a vault that has none) and the recovery setup ready; the vault is active and armed
-- afterwards, with no grace period, a version that is no smaller and the same episode, and its
-- configuration holds the time of the check-in.
pub check_in_arms :
    (env : Env) (v user now : ℕ) (d d' : Db)
    → check_in_vault env v user now d ≡ ok tt d'
    → (same_state (locked v now d).state triggered ≡ false)
      × (is_releasable env d v ≡ true)
      × (row : VaultStatus) × (cfg : HeartbeatConfig) × (status_of v d' ≡ some row)
      × (config_of v d' ≡ some cfg)
      × (row.state ≡ active)
      × (row.armed ≡ true)
      × (row.grace_started_at ≡ none)
      × ((locked v now d).version ≤ row.version)
      × (row.episode ≡ (locked v now d).episode)
      × (cfg.last_check_in ≡ some now)
unfolding checked_in_config
check_in_arms env v user now d d' h =
    let c = check_in_vault-CheckedIn env v user now d d' h in
    let vs = locked v now d in
    let f = checked_in_status-fields vs now c.not_released in
    (
      c.not_released,
      c.is_ready,
      checked_in_status vs now,
      checked_in_config v now d,
      CheckedIn-row env v now d d' c,
      CheckedIn-config env v now d d' c,
      f.0,
      f.1,
      f.2,
      f.4,
      f.5,
      refl,
    )

-- After a check-in no inactivity trigger releases the vault, at any later time: the grace period has
-- to begin again first.
pub check_in_stops_trigger :
    (env : Env) (v user now later : ℕ) (actor : Actor) (vs : VaultStatus) (d d' d'' : Db)
    → check_in_vault env v user now d ≡ ok tt d'
    → ¬ (trigger_vault env v inactivity later actor d' ≡ ok (vs, false) d'')
check_in_stops_trigger env v user now later actor vs d d' d'' h t =
    let c = check_in_vault-CheckedIn env v user now d d' h in
    let o = trigger_vault-IsOverdue env v later actor vs d' d'' t in
    let f = checked_in_status-fields (locked v now d) now c.not_released in
    ground (arith, CheckedIn-row env v now d d' c, o.has_row, o.in_grace, f.0)
