-- ===== src/Trigger/Release.antt =====
-- What a release requires and what it leaves behind.
use legacylock.Prelude.{
  ℕ, ◌≤◌, ◌≡◌, refl, ap, inl, inr, true, false, some, ◌==◌, arith, Option-cases,
}
use legacylock.Lifecycle.{grace, triggered, same_state}
use legacylock.Models.{Db, VaultStatus, HeartbeatConfig, Reason, inactivity, Actor}
use legacylock.Env.{Env}
use legacylock.Outcome.{ok, ◌>>=◌}
use legacylock.Outcome.Frames.{Frames}
use legacylock.Outbox.Intent.{OnlyDelivers, delivery_frames}
use legacylock.Readiness.{
  is_releasable, require_release_ready, release_ready, assignment_signature, current_drill,
}
use legacylock.Trigger.{
  status_of, config_of, save_status, locked, lock_status, released_status, stage_release,
  stage_notices, release_locked, is_overdue, trigger_vault, release_deadline,
}
use legacylock.Trigger.Status.{locked-vault_id, status_of-writes, status_of-save_status}
use legacylock.Trigger.Frame.{notify_all_release-frame}

stage_notices-frame :
    (env : Env) (vs : VaultStatus) (now : ℕ) (actor : Actor)
    → Frames OnlyDelivers (stage_notices env vs now actor)
unfolding stage_notices
stage_notices-frame env vs now actor = search (delivery_frames, notify_all_release-frame)

-- The status write does not change what the release gate reads.
pub is_releasable-save_status :
    (env : Env) (vs : VaultStatus) (d : Db) (vault_id : ℕ)
    → is_releasable env (save_status vs d) vault_id ≡ is_releasable env d vault_id
unfolding is_releasable release_ready assignment_signature current_drill
is_releasable-save_status env vs d vault_id = refl

-- What the gates of `release_locked` let through, and what is written behind them.
pub record Released (env : Env) (vs : VaultStatus) (reason : Reason) (now : ℕ) (d d' : Db)
    : Type 0 where
  pub was_open : same_state vs.state triggered ≡ false
  pub not_held : env.release_hold ≡ false
  pub is_ready : is_releasable env d vs.vault_id ≡ true
  pub writes : OnlyDelivers (save_status (released_status vs reason now) d) d'

pub release_locked-Released :
    (env : Env) (vs vs' : VaultStatus) (reason : Reason) (now : ℕ) (actor : Actor) (d d' : Db)
    → release_locked env vs reason now actor d ≡ ok (vs', false) d'
    → Released env vs reason now d d'
unfolding release_locked require_release_ready stage_release ◌>>=◌
release_locked-Released env vs vs' reason now actor d d' h = record {
  was_open = ground arith;
  not_held = ground arith;
  is_ready = ground arith;
  writes =
      (stage_notices-frame env vs now actor).at (save_status (released_status vs reason now) d) d'
        tt (ground arith);
}

-- A call that finds the vault released changes nothing.
pub release_locked-already :
    (env : Env) (vs vs' : VaultStatus) (reason : Reason) (now : ℕ) (actor : Actor) (d d' : Db)
    → release_locked env vs reason now actor d ≡ ok (vs', true) d'
    → (vs' ≡ vs) × (d' ≡ d)
unfolding release_locked require_release_ready ◌>>=◌
release_locked-already env vs vs' reason now actor d d' h = ground arith

-- A call that releases the vault returns the row that it wrote.
pub release_locked-row :
    (env : Env) (vs vs' : VaultStatus) (reason : Reason) (now : ℕ) (actor : Actor) (d d' : Db)
    → release_locked env vs reason now actor d ≡ ok (vs', false) d'
    → vs' ≡ released_status vs reason now
unfolding release_locked require_release_ready ◌>>=◌
release_locked-row env vs vs' reason now actor d d' h = ground arith

-- A call that releases the vault: no release hold is on, the recovery setup is ready, and for
-- inactivity the vault is armed, in its grace period, and interval and grace days have passed since
-- the last check-in. The status then is the locked row, triggered at `now` for this reason, and every
-- other vault keeps its status.
pub record ReleasedBy (env : Env) (v : ℕ) (reason : Reason) (now : ℕ) (d d' : Db) : Type 0 where
  pub not_held : env.release_hold ≡ false
  pub is_ready : is_releasable env d v ≡ true
  pub status : status_of v d' ≡ some (released_status (locked v now d) reason now)
  pub others : (w : ℕ) → (v == w) ≡ false → status_of w d' ≡ status_of w d

behind_lock :
    (env : Env) (v : ℕ) (reason : Reason) (now : ℕ) (d d' : Db)
    → Released env (locked v now d) reason now (save_status (locked v now d) d) d'
    → ReleasedBy env v reason now d d'
behind_lock env v reason now d d' r =
    let vs = locked v now d in
    let saved = save_status vs d in
    let id = locked-vault_id v now d in
    let after = status_of-writes (released_status vs reason now) saved d' in
    record {
      not_held = r.not_held;
      is_ready =
          cc (r.is_ready, is_releasable-save_status env vs d v, ap (is_releasable env saved) id);
      status = ground (arith, id, after v r.writes);
      others = λ w ne. ground (arith, id, after w r.writes, status_of-save_status vs d w);
    }

-- A call of `trigger_vault` that releases the vault, for either reason, had no release hold and a
-- recovery setup that is ready. The vault's row afterwards is the locked row, triggered now for this
-- reason, and every other vault keeps its row.
pub trigger_vault-ReleasedBy :
    (env : Env) (v : ℕ) (reason : Reason) (now : ℕ) (actor : Actor) (vs : VaultStatus) (d d' : Db)
    → trigger_vault env v reason now actor d ≡ ok (vs, false) d'
    → ReleasedBy env v reason now d d'
unfolding trigger_vault lock_status ◌>>=◌
trigger_vault-ReleasedBy env v reason now actor vs d d' h = behind_lock env v reason now d d' (
    release_locked-Released env (locked v now d) vs reason now actor
      (save_status (locked v now d) d) d' (ground arith))

-- When an inactivity release may happen: the vault has a status row that is armed and in its grace
-- period, and a check-in after which interval and grace days have passed.
pub record IsOverdue (v now : ℕ) (d : Db) : Type 0 where
  pub row : VaultStatus
  pub cfg : HeartbeatConfig
  pub last : ℕ
  pub has_row : status_of v d ≡ some row
  pub has_cfg : config_of v d ≡ some cfg
  pub checked_in : cfg.last_check_in ≡ some last
  pub armed : row.armed ≡ true
  pub in_grace : row.state ≡ grace
  pub passed : release_deadline last cfg ≤ now

pub is_overdue-IsOverdue :
    (v now : ℕ) (d : Db)
    → is_overdue (config_of v d) (locked v now d) now ≡ true
    → IsOverdue v now d
unfolding is_overdue locked
is_overdue-IsOverdue v now d h = elim (Option-cases (config_of v d)) [
  | inl e ↦ absurd (ground arith)
  | inr (cfg, e) ↦ elim (Option-cases cfg.last_check_in) [
    | inl f ↦ absurd (ground arith)
    | inr (last, f) ↦ elim (Option-cases (status_of v d)) [
      | inl g ↦ absurd (ground arith)
      | inr (row, g) ↦ record {
        row = row;
        cfg = cfg;
        last = last;
        has_row = g;
        has_cfg = e;
        checked_in = f;
        armed = ground arith;
        in_grace = ground arith;
        passed = ground arith;
      }
    ]
  ]
]

-- A call with the reason `inactivity` that releases the vault found its row armed and in its grace
-- period, and interval plus grace days passed since the last check-in.
pub trigger_vault-IsOverdue :
    (env : Env) (v now : ℕ) (actor : Actor) (vs : VaultStatus) (d d' : Db)
    → trigger_vault env v inactivity now actor d ≡ ok (vs, false) d'
    → IsOverdue v now d
unfolding trigger_vault lock_status ◌>>=◌
trigger_vault-IsOverdue env v now actor vs d d' h = is_overdue-IsOverdue v now d (ground arith)
