-- ===== src/Checker/Pass.antt =====
-- When a turn of the heartbeat checker releases a vault, and when it leaves it alone.
use legacylock.Prelude.{
  ℕ, ◌≤◌, ◌<◌, ◌≡◌, ap, inl, inr, Bool, true, false, some, leb, arith, Bool-cases,
}
use legacylock.Lifecycle.{active, triggered, same_state}
use legacylock.Models.{Db, VaultStatus, HeartbeatConfig}
use legacylock.Env.{Env}
use legacylock.Outcome.{ok, ◌>>=◌, and_then-eq-ok}
use legacylock.Readiness.{is_releasable}
use legacylock.Trigger.{
  status_of, config_of, save_status, locked, release_locked, stage_warning, check_in_deadline,
  release_deadline,
}
use legacylock.Trigger.Release.{is_releasable-save_status}
use legacylock.Trigger.Status.{status_of-save_status, locked-vault_id, locked-some}
use legacylock.Machine.Triggers.{enter_grace-writes}
use legacylock.Machine.Turns.{turn_body-Advances, turn-cases, to_grace-cases}
use legacylock.Checker.{
  Action, touched, to_grace, release_turn, warning_turn, finish_turn, advance, turn,
}

-- The row that a turn works on is not released, and neither is it after the move to grace.
to_grace-unreleased :
    (vs vs' : VaultStatus) (deadline now : ℕ) (d d' : Db)
    → same_state vs.state triggered ≡ false
    → to_grace vs deadline now d ≡ ok vs' d'
    → (same_state vs'.state triggered ≡ false) × (vs'.vault_id ≡ vs.vault_id)
to_grace-unreleased vs vs' deadline now d d' unreleased h =
    elim (to_grace-cases vs vs' deadline now d d' h) [
      | inl (is_active, entered) ↦
          ground (arith, enter_grace-writes vs vs' deadline now d d' entered)
      | inr (e, f) ↦ ground arith
    ]

-- A turn that ends in a warning leaves the state of the row alone.
warning_turn-status :
    (env : Env) (vs : VaultStatus) (cfg : HeartbeatConfig) (began : Bool) (now : ℕ)
    (action : Action) (d d' : Db)
    → warning_turn env vs cfg began now d ≡ ok action d'
    → status_of vs.vault_id d' ≡ some (touched vs now)
unfolding warning_turn ◌>>=◌
warning_turn-status env vs cfg began now action d d' h =
    let (u, e, hs, hf) = and_then-eq-ok (stage_warning env vs cfg now d) _ action d' h in
    let end : d' ≡ save_status (touched vs now) e = ground arith in
    rw end (ground (arith, status_of-save_status (touched vs now) e vs.vault_id))

release_turn-held :
    (env : Env) (vs : VaultStatus) (began : Bool) (now : ℕ) (action : Action) (d d' : Db)
    → same_state vs.state triggered ≡ false
    → release_turn env vs began now d ≡ ok action d'
    → env.release_hold ≡ false
unfolding release_turn release_locked ◌>>=◌
release_turn-held env vs began now action d d' unreleased h = ground arith

-- When a vault that was not released is released by a turn: its recovery setup is ready, no hold is
-- on, and interval and grace days have passed since its last check-in.
pub record ReleasedInTurn (env : Env) (v now : ℕ) (d : Db) : Type 0 where
  pub cfg : HeartbeatConfig
  pub last : ℕ
  pub has_cfg : config_of v d ≡ some cfg
  pub checked_in : cfg.last_check_in ≡ some last
  pub is_ready : is_releasable env d v ≡ true
  pub not_held : env.release_hold ≡ false
  pub passed : release_deadline last cfg ≤ now

advance-released :
    (env : Env) (vs : VaultStatus) (cfg : HeartbeatConfig) (last now : ℕ) (action : Action)
    (d d' : Db) (s : VaultStatus)
    → same_state vs.state triggered ≡ false
    → advance env vs cfg last now d ≡ ok action d'
    → status_of vs.vault_id d' ≡ some s
    → s.state ≡ triggered
    → (release_deadline last cfg ≤ now) × (env.release_hold ≡ false)
unfolding advance finish_turn ◌>>=◌
advance-released env vs cfg last now action d d' s unreleased h found done =
    let (vs', e, hg, hf) =
      and_then-eq-ok (to_grace vs (check_in_deadline last cfg) now d) _ action d' h in
    let (unreleased', same_id) =
      to_grace-unreleased vs vs' (check_in_deadline last cfg) now d e unreleased hg in
    elim (Bool-cases (leb (release_deadline last cfg) now)) [
      | inl late ↦ (
        ground arith,
        release_turn-held env vs' (same_state vs.state active) now action e d' unreleased'
            (rw late at hf),
      )
      | inr early ↦ absurd (
          ground (
            arith,
            warning_turn-status env vs' cfg (same_state vs.state active) now action e d'
                (rw early at hf),
            ap (λ i. status_of i d') same_id,
          ))
    ]

-- A turn of the checker that releases a vault whose status row was not released finds the row armed,
-- the recovery setup ready, no release hold, and a configuration after whose last check-in interval
-- and grace days have passed.
pub turn_releases_overdue :
    (env : Env) (v now : ℕ) (d : Db) (r s : VaultStatus)
    → status_of v d ≡ some r
    → same_state r.state triggered ≡ false
    → status_of v (turn env v now d).0 ≡ some s
    → s.state ≡ triggered
    → (ReleasedInTurn env v now d) × (r.armed ≡ true)
turn_releases_overdue env v now d r s found unreleased after done = elim (turn-cases env v now d) [
  | inl same ↦ absurd (ground (arith, ap (status_of v) same))
  | inr (action, ran) ↦
      (let d' = (turn env v now d).0 in
        let vs = locked v now d in
        let saved = save_status vs d in
        let a = turn_body-Advances env v now action d d' ran in
        let id = locked-vault_id v now d in
        let end =
          advance-released env vs a.cfg a.last now action saved d' s a.unreleased a.ran
            (rw id after) done in
        (
          record {
            cfg = a.cfg;
            last = a.last;
            has_cfg = a.has_cfg;
            checked_in = a.checked_in;
            is_ready =
                cc (
                  a.is_ready,
                  is_releasable-save_status env vs d v,
                  ap (is_releasable env saved) id,
                );
            not_held = end.1;
            passed = end.0;
          },
          cc (a.armed, ap (λ (x : VaultStatus). x.armed) (locked-some v now d r found)),
        ))
]

-- Before the check-in deadline a turn changes nothing.
pub turn_before_deadline :
    (env : Env) (v now last : ℕ) (cfg : HeartbeatConfig) (d : Db)
    → config_of v d ≡ some cfg
    → cfg.last_check_in ≡ some last
    → now < check_in_deadline last cfg
    → (turn env v now d).0 ≡ d
turn_before_deadline env v now last cfg d found checked early = elim (turn-cases env v now d) [
  | inl same ↦ same
  | inr (action, ran) ↦
      (let a = turn_body-Advances env v now action d (turn env v now d).0 ran in
        let same_cfg : a.cfg ≡ cfg = cc (found, a.has_cfg) in
        let same_last : a.last ≡ last =
          cc (checked, a.checked_in, ap (λ (c : HeartbeatConfig). c.last_check_in) same_cfg) in
        absurd (ground (arith, a.passed)))
]
