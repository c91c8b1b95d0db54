-- ===== src/Machine/History.antt =====
-- Histories: any sequence of committed triggers, checker passes, check-ins and settings, of any
-- owner and at any times. Operations that fail leave the database as it was.
use legacylock.Prelude.{ℕ, ◌≤◌, ◌≡◌, sym, Bool, Option, some}
use mathlib.Core.Path.{subst}
use legacylock.Lifecycle.{triggered}
use legacylock.Models.{Db, VaultStatus, Reason, Actor}
use legacylock.Env.{Env}
use legacylock.Outcome.{ok}
use legacylock.Trigger.{status_of, trigger_vault, move_to_grace}
use legacylock.Heartbeat.{check_in_vault, save_settings, SettingsIn}
use legacylock.Checker.{check_heartbeat}
use legacylock.Machine.Rows.{StatusOrder, StatusOrder-preorder}
use legacylock.Machine.Triggers.{trigger_vault-StatusOrder, move_to_grace-StatusOrder}
use legacylock.Machine.Turns.{check_heartbeat-StatusOrder}
use legacylock.Machine.Owner.{check_in_vault-StatusOrder, save_settings-StatusOrder}

-- One committed operation. `reset_status`, which production refuses, is not among them.
pub data Step (env : Env) (d d' : Db) : Type 0 where
  triggers :
      (v : ℕ) (reason : Reason) (now : ℕ) (actor : Actor) (vs : VaultStatus) (b : Bool)
      → trigger_vault env v reason now actor d ≡ ok (vs, b) d'
      → Step env d d'
  moves :
      (v now : ℕ) (vs : VaultStatus) (b : Bool)
      → move_to_grace env v now d ≡ ok (vs, b) d'
      → Step env d d'
  checks :
      (now limit : ℕ) (only : Option ℕ)
      → d' ≡ (check_heartbeat env now limit only d).0
      → Step env d d'
  checks_in : (v user now : ℕ) → check_in_vault env v user now d ≡ ok tt d' → Step env d d'
  saves :
      (v : ℕ) (input : SettingsIn) (user now : ℕ)
      → save_settings env v input user now d ≡ ok tt d'
      → Step env d d'

infixl 5 ◌▸◌
pub data Reach (env : Env) (d : Db) : Db → Type 0 where
  here : Reach env d d
  ◌▸◌ : {e f : Db} → Reach env d e → Step env e f → Reach env d f

Step-StatusOrder : (env : Env) (d d' : Db) → Step env d d' → StatusOrder d d'
Step-StatusOrder env d d' (triggers v reason now actor vs b h) =
    trigger_vault-StatusOrder env v reason now actor vs b d d' h
Step-StatusOrder env d d' (moves v now vs b h) = move_to_grace-StatusOrder env v now vs b d d' h
Step-StatusOrder env d d' (checks now limit only h) =
    subst (StatusOrder d) (sym h) (check_heartbeat-StatusOrder env now limit only d)
Step-StatusOrder env d d' (checks_in v user now h) =
    check_in_vault-StatusOrder env v user now d d' h
Step-StatusOrder env d d' (saves v input user now h) =
    save_settings-StatusOrder env v input user now d d' h

Reach-StatusOrder : (env : Env) (d : Db) {e : Db} → Reach env d e → StatusOrder d e
Reach-StatusOrder env d here = StatusOrder-preorder.reflexive d
Reach-StatusOrder env d (◌▸◌ {e = e} {f = f} r s) =
    StatusOrder-preorder.transitive d e f (Reach-StatusOrder env d r) (Step-StatusOrder env e f s)

-- A released vault stays released through every history of committed triggers, grace moves, checker
-- passes, check-ins and settings: its status row keeps the state `triggered`, the release time and the
-- reason.
pub release_is_terminal :
    (env : Env) (d e : Db) (v : ℕ) (r : VaultStatus)
    → Reach env d e
    → status_of v d ≡ some r
    → r.state ≡ triggered
    → (s : VaultStatus) × (status_of v e ≡ some s)
      × (s.state ≡ triggered)
      × (s.triggered_at ≡ r.triggered_at)
      × (s.trigger_reason ≡ r.trigger_reason)
release_is_terminal env d e v r history found released =
    let (s, found', order) = (Reach-StatusOrder env d history).row v r found in
    let (state, time, reason) = order.released released in (s, found', state, time, reason)

-- Through every such history a vault that has a status row keeps one, whose version and grace
-- episode are at least what they were.
pub status_versions_grow :
    (env : Env) (d e : Db) (v : ℕ) (r : VaultStatus)
    → Reach env d e
    → status_of v d ≡ some r
    → (s : VaultStatus) × (status_of v e ≡ some s)
      × (r.version ≤ s.version)
      × (r.episode ≤ s.episode)
status_versions_grow env d e v r history found =
    let (s, found', order) = (Reach-StatusOrder env d history).row v r found in
    (s, found', order.version, order.episode)
