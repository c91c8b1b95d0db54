-- ===== src/Heartbeat.antt =====
-- backend/routers/heartbeat.py: the owner's settings and check-in, and POST /vault/reset-status of
-- backend/routers/trigger.py.
pub mod Laws
use legacylock.Prelude.{
  ℕ, suc, ◌+◌, Bool, true, false, not, ◌&&◌, ◌||◌, Option, none, some, List, ◌==◌, leb, ltb, first,
  is_some, if◌then◌else◌, save,
}
use legacylock.Lifecycle.{active, triggered, same_state}
use legacylock.Models.{Db, Vault, VaultStatus, HeartbeatConfig, Actor, Reason, manual, inactivity}
use legacylock.Env.{Env}
use legacylock.Outcome.{Tx, ok, err, http, ◌>>=◌, ◌>>◌, guard, pure, gets, modify, or_raise}
use legacylock.Audit.{record_audit}
use legacylock.Outbox.{cancel_warnings}
use legacylock.Readiness.{require_release_ready}
use legacylock.Trigger.{status_of, config_of, save_status, lock_status, trigger_vault, new_status}

-- `_get_vault`: the owner's primary vault.
unfoldable pub primary_vault : ℕ → Db → Option Vault
primary_vault user_id db = first (λ v. v.user_id == user_id && v.is_primary) db.vaults

unfoldable pub get_vault : ℕ → Tx Db Vault
unfolding primary_vault
get_vault user_id = do found ← gets (primary_vault user_id); or_raise found (http 404)

abbrev pub save_config : HeartbeatConfig → Db → Db
save_config cfg db = record db {
  configs = save (λ (c : HeartbeatConfig). c.vault_id) cfg db.configs;
}

abbrev pub default_config : ℕ → ℕ → HeartbeatConfig
default_config vault_id now = record {
  vault_id = vault_id;
  interval_days = 30;
  grace_days = 7;
  last_check_in = none;
  updated_at = now;
}

abbrev pub config_or_new : ℕ → ℕ → Option HeartbeatConfig → HeartbeatConfig
config_or_new vault_id now none = default_config vault_id now
config_or_new vault_id now (some cfg) = cfg

-- The new row is added when the caller writes it back.
unfoldable pub get_or_create_heartbeat_config : ℕ → ℕ → Tx Db HeartbeatConfig
get_or_create_heartbeat_config vault_id now =
    gets λ db. config_or_new vault_id now (config_of vault_id db)

pub record SettingsIn : Type 0 where
  pub interval_days : ℕ
  pub grace_days : ℕ
  pub armed : Option Bool

abbrev arms : Option Bool → Bool
arms (some true) = true
arms _ = false

abbrev armed_after : Option Bool → Bool → Bool
armed_after none old = old
armed_after (some b) old = b

-- Arming starts the clock of a vault that was never checked in.
abbrev check_in_after : Option Bool → Option ℕ → ℕ → Option ℕ
check_in_after (some true) none now = some now
check_in_after _ last now = last

abbrev pub saved_status : VaultStatus → Option Bool → ℕ → VaultStatus
saved_status vs armed now = record vs {
  state = active;
  grace_started_at = none;
  armed = armed_after armed vs.armed;
  updated_at = now;
}

unfoldable pub require_if : Env → Bool → ℕ → Tx Db (Unit {0})
require_if env false vault_id = pure tt
require_if env true vault_id = require_release_ready env vault_id

-- The routes' bodies for a vault, so that what follows `_get_vault` has a name.
unfoldable pub save_settings : Env → ℕ → SettingsIn → ℕ → ℕ → Tx Db (Unit {0})
save_settings env vault_id input user_id now = do
  vs ← lock_status vault_id now
  guard (not (same_state vs.state triggered)) (http 409)
  cfg ← get_or_create_heartbeat_config vault_id now
  require_if env (arms input.armed) vault_id
  modify (
      save_config (record cfg {
        interval_days = input.interval_days;
        grace_days = input.grace_days;
        last_check_in = check_in_after input.armed cfg.last_check_in now;
        updated_at = now;
      }))
  modify (save_status (saved_status vs input.armed now))
  cancel_warnings vault_id
  record_audit (some vault_id) (Actor.owner user_id) "heartbeat.save"

-- The bounds are those of the request's schema and of the first test of the route.
unfoldable pub is_valid_settings : SettingsIn → Bool
is_valid_settings input =
    (leb 1 input.interval_days && leb input.interval_days 365)
    && ((leb 1 input.grace_days && leb input.grace_days 90)
        && leb input.grace_days input.interval_days)

unfoldable pub save_heartbeat : Env → ℕ → SettingsIn → ℕ → Tx Db (Unit {0})
unfolding is_valid_settings
save_heartbeat env user_id input now = do
  guard (is_valid_settings input) (http 422)
  vault ← get_vault user_id
  save_settings env vault.id input user_id now

-- The row that a check-in leaves: armed, and out of its grace period. The version grows once more
-- when there was a grace period to cancel; the comparison of versions holds under the row lock.
unfoldable pub checked_in_status : VaultStatus → ℕ → VaultStatus
checked_in_status vs now =
    if not (same_state vs.state active) || is_some vs.grace_started_at
    then record vs {
      armed = true;
      state = active;
      grace_started_at = none;
      version = vs.version + 1;
      updated_at = now;
    }
    else record vs { armed = true; updated_at = now }

unfoldable pub check_in_vault : Env → ℕ → ℕ → ℕ → Tx Db (Unit {0})
check_in_vault env vault_id user_id now = do
  vs ← lock_status vault_id now
  guard (not (same_state vs.state triggered)) (http 409)
  require_release_ready env vault_id
  cfg ← get_or_create_heartbeat_config vault_id now
  modify (save_config (record cfg { last_check_in = some now; updated_at = now }))
  modify (save_status (checked_in_status vs now))
  cancel_warnings vault_id
  record_audit (some vault_id) (Actor.owner user_id) "heartbeat.checkin"

unfoldable pub check_in : Env → ℕ → ℕ → Tx Db (Unit {0})
check_in env user_id now = do vault ← get_vault user_id; check_in_vault env vault.id user_id now

abbrev status_or_new : ℕ → ℕ → Option VaultStatus → VaultStatus
status_or_new vault_id now none = new_status vault_id now
status_or_new vault_id now (some vs) = vs

abbrev pub reset_row : VaultStatus → ℕ → VaultStatus
reset_row vs now = record vs {
  state = active;
  grace_started_at = none;
  triggered_at = none;
  trigger_reason = none;
  version = vs.version + 1;
  updated_at = now;
}

-- `password_ok` is what `verify_password` answers. Refused in production.
unfoldable pub reset_status : Env → Bool → ℕ → ℕ → Tx Db (Unit {0})
reset_status env password_ok user_id now = do
  guard (not env.production) (http 404)
  guard password_ok (http 401)
  vault ← get_vault user_id
  vs ← gets (λ db. status_or_new vault.id now (status_of vault.id db))
  modify (save_status (reset_row vs now))
  cancel_warnings vault.id
  record_audit (some vault.id) (Actor.owner user_id) "vault.reset"

-- POST /vault/trigger
unfoldable pub trigger_vault_route : Env → Bool → ℕ → ℕ → Tx Db (VaultStatus × Bool)
trigger_vault_route env password_ok user_id now = do
  guard password_ok (http 401)
  vault ← get_vault user_id
  trigger_vault env vault.id manual now (Actor.owner user_id)
