-- ===== src/Checker/Liveness.antt =====
-- An overdue vault is released by the next turn of the checker.
use legacylock.Prelude.{
  ℕ, ◌+◌, ◌≤◌, ◌≡◌, refl, ap, inl, inr, Bool, true, false, some, ◌∷◌, exists, arith, Bool-cases,
}
use legacylock.Lifecycle.{active, triggered, same_state}
use legacylock.Models.{Db, VaultStatus, HeartbeatConfig, AuditEvent, inactivity, system, released}
use legacylock.Env.{Env}
use legacylock.Outcome.{ok, ◌>>=◌}
use legacylock.Outcome.Totals.{is_ok-ok}
use legacylock.Audit.{record_audit}
use legacylock.Outbox.{is_same_event}
use legacylock.Readiness.{
  is_releasable, require_release_ready, release_ready, assignment_signature, current_drill,
}
use legacylock.Trigger.{
  status_of, config_of, save_status, locked, lock_status, release_locked, released_status,
  stage_release, stage_notices, grace_status, enter_grace, check_in_deadline, release_deadline,
}
use legacylock.Trigger.Totality.{stage_notices-is_ok}
use legacylock.Trigger.Release.{is_releasable-save_status}
use legacylock.Trigger.Status.{status_of-save_status, locked-vault_id, locked-some}
use legacylock.Checker.{
  Action, triggered_now, touched, to_grace, release_turn, finish_turn, advance, can_advance,
  turn_armed, turn_body, turn,
}

module _ (env : Env) (key : ℕ) (has_key : env.payload_key env.delivery_payload_key_id ≡ some key)
    (not_held : env.release_hold ≡ false) where
  -- What a release needs of the row and the database.
  record CanRelease (vs : VaultStatus) (d : Db) : Type 0 where
    unreleased : same_state vs.state triggered ≡ false
    is_ready : is_releasable env d vs.vault_id ≡ true
    fresh : exists (is_same_event (some vs.vault_id) released vs.version) d.events ≡ false

  release_locked-is_ok :
      (vs : VaultStatus) (now : ℕ) (d : Db)
      → CanRelease vs d
      → (e : Db) × (release_locked env vs inactivity now system d
          ≡ ok (released_status vs inactivity now, false) e)
  unfolding release_locked require_release_ready stage_release ◌>>=◌
  release_locked-is_ok vs now d c =
      let saved = save_status (released_status vs inactivity now) d in
      let (u, e, h) =
        is_ok-ok (stage_notices env vs now system saved)
          (stage_notices-is_ok env key has_key vs now system saved c.fresh) in
      (e, ground arith)

  release_turn-runs :
      (vs : VaultStatus) (began : Bool) (now : ℕ) (d : Db)
      → CanRelease vs d
      → (d' : Db) × (release_turn env vs began now d ≡ ok (triggered_now began) d')
        × (status_of vs.vault_id d' ≡ some (released_status vs inactivity now))
  unfolding release_turn ◌>>=◌
  release_turn-runs vs began now d c =
      let (e, h) = release_locked-is_ok vs now d c in
      let row = touched (released_status vs inactivity now) now in
      (save_status row e, ground arith, ground (arith, status_of-save_status row e vs.vault_id))

  -- The move to grace keeps all that the release needs, and the version.
  to_grace-runs :
      (vs : VaultStatus) (deadline now : ℕ) (d : Db)
      → CanRelease vs d
      → (vs' : VaultStatus) × (e : Db) × (to_grace vs deadline now d ≡ ok vs' e)
        × (CanRelease vs' e)
        × (vs'.vault_id ≡ vs.vault_id)
  unfolding to_grace enter_grace record_audit is_releasable release_ready assignment_signature
      current_drill ◌>>=◌
  to_grace-runs vs deadline now d c = elim (Bool-cases (same_state vs.state active)) [
    | inl e ↦
        (let next = grace_status vs deadline now in
          let row : AuditEvent = record {
            vault_id = some vs.vault_id;
            actor = system;
            event_type = "heartbeat.grace";
          } in
          (
            next,
            record (save_status next d) { audits = row ∷ d.audits },
            ground arith,
            record { unreleased = refl; is_ready = c.is_ready; fresh = c.fresh },
            refl,
          ))
    | inr e ↦ (vs, d, ground arith, c, refl)
  ]

  advance-runs :
      (vs : VaultStatus) (cfg : HeartbeatConfig) (last now : ℕ) (d : Db)
      → CanRelease vs d
      → release_deadline last cfg ≤ now
      → (action : Action) × (d' : Db) × (s : VaultStatus) × (advance env vs cfg last now d
          ≡ ok action d')
        × (status_of vs.vault_id d' ≡ some s)
        × (s.state ≡ triggered)
        × (s.triggered_at ≡ some now)
        × (s.trigger_reason ≡ some inactivity)
  unfolding advance finish_turn ◌>>=◌
  advance-runs vs cfg last now d c late =
      let (vs', e, first, c', same) = to_grace-runs vs (check_in_deadline last cfg) now d c in
      let (d', second, found) = release_turn-runs vs' (same_state vs.state active) now e c' in
      (
        triggered_now (same_state vs.state active),
        d',
        released_status vs' inactivity now,
        ground arith,
        ground (arith, ap (λ i. status_of i d') same),
        refl,
        refl,
        refl,
      )

  turn_armed-runs :
      (vs : VaultStatus) (cfg : HeartbeatConfig) (last now : ℕ) (action : Action) (d d' : Db)
      → cfg.last_check_in ≡ some last
      → is_releasable env d vs.vault_id ≡ true
      → release_deadline last cfg ≤ now
      → advance env vs cfg last now d ≡ ok action d'
      → turn_armed env vs cfg now d ≡ ok (some action) d'
  unfolding turn_armed can_advance ◌>>=◌
  turn_armed-runs vs cfg last now action d d' checked ready late h = ground arith

  turn_body-runs :
      (v now : ℕ) (cfg : HeartbeatConfig) (action : Action) (d d' : Db)
      → config_of v d ≡ some cfg
      → (locked v now d).armed ≡ true
      → same_state (locked v now d).state triggered ≡ false
      → turn_armed env (locked v now d) cfg now (save_status (locked v now d) d)
        ≡ ok (some action) d'
      → turn env v now d ≡ (d', false)
  unfolding turn turn_body lock_status ◌>>=◌
  turn_body-runs v now cfg action d d' found armed unreleased h = ground arith

-- A turn of the checker releases an overdue vault, without failing: if no hold is on and the payload
-- key is configured, the vault's row is armed and not released, the recovery setup is ready, interval
-- and grace days have passed since the last check-in, and no release event carries the row's next
-- version, then the row afterwards is triggered now, for inactivity.
pub turn_releases :
    (env : Env) (key v now last : ℕ) (r : VaultStatus) (cfg : HeartbeatConfig) (d : Db)
    → env.payload_key env.delivery_payload_key_id ≡ some key
    → env.release_hold ≡ false
    → status_of v d ≡ some r
    → r.armed ≡ true
    → same_state r.state triggered ≡ false
    → config_of v d ≡ some cfg
    → cfg.last_check_in ≡ some last
    → is_releasable env d v ≡ true
    → release_deadline last cfg ≤ now
    → exists (is_same_event (some v) released (r.version + 1)) d.events ≡ false
    → ((turn env v now d).1 ≡ false)
      × (s : VaultStatus) × (status_of v (turn env v now d).0 ≡ some s)
      × (s.state ≡ triggered)
      × (s.triggered_at ≡ some now)
      × (s.trigger_reason ≡ some inactivity)
turn_releases env key v now last r cfg d has_key not_held found armed unreleased has_cfg checked
      ready late fresh =
    let vs = locked v now d in
    let saved = save_status vs d in
    let row = locked-some v now d r found in
    let id = locked-vault_id v now d in
    let c : CanRelease env key has_key not_held vs saved = record {
      unreleased = cc (unreleased, ap (λ (x : VaultStatus). same_state x.state triggered) row);
      is_ready = cc (ready, is_releasable-save_status env vs d v, ap (is_releasable env saved) id);
      fresh = rw (id, ap (λ (x : VaultStatus). x.version) row) fresh;
    } in
    let (action, d', s, ran, after, state, time, reason) =
      advance-runs env key has_key not_held vs cfg last now saved c late in
    let body =
      turn_armed-runs env key has_key not_held vs cfg last now action saved d' checked c.is_ready
        late ran in
    let whole =
      turn_body-runs env key has_key not_held v now cfg action d d' has_cfg
        (cc (armed, ap (λ (x : VaultStatus). x.armed) row)) c.unreleased body in
    (
      ap (λ p. p.1) whole,
      s,
      ground (arith, ap (λ (p : Db × Bool). status_of v p.0) whole, ap (λ i. status_of i d') id),
      state,
      time,
      reason,
    )
