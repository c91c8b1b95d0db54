-- ===== src/Machine/Triggers.antt =====
-- Triggering and the move to grace respect the order of status rows.
use legacylock.Prelude.{
  ℕ, ◌≡◌, refl, ap, inl, inr, Bool, true, false, some, ◌⊎◌, arith, Option-cases,
}
use legacylock.Lifecycle.{active, triggered, same_state}
use legacylock.Models.{Db, VaultStatus, Reason, Actor}
use legacylock.Env.{Env}
use legacylock.Outcome.{ok, ◌>>=◌}
use legacylock.Audit.{record_audit}
use legacylock.Outbox.Intent.{OnlyDelivers}
use legacylock.Trigger.{
  status_of, config_of, save_status, locked, lock_status, released_status, release_locked,
  trigger_vault, grace_status, enter_grace, grace_from, missed_deadline, move_to_grace,
}
use legacylock.Trigger.Release.{release_locked-Released, release_locked-already}
use legacylock.Machine.Rows.{
  RowOrder, StatusOrder, StatusOrder-preorder, StatusOrder-locked, StatusOrder-rewrite,
  StatusOrder-same, OnlyDelivers-StatusOrder, status_of-locked,
}

pub RowOrder-released_status :
    (vs : VaultStatus) (reason : Reason) (now : ℕ)
    → same_state vs.state triggered ≡ false
    → RowOrder vs (released_status vs reason now)
RowOrder-released_status vs reason now unreleased = record {
  version = omega arith;
  episode = omega arith;
  released = λ h. absurd (ground arith);
}

pub release_locked-StatusOrder :
    (env : Env) (vs vs' : VaultStatus) (reason : Reason) (now : ℕ) (actor : Actor) (b : Bool)
    (d d' : Db)
    → status_of vs.vault_id d ≡ some vs
    → release_locked env vs reason now actor d ≡ ok (vs', b) d'
    → StatusOrder d d'
release_locked-StatusOrder env vs vs' reason now actor true d d' held h =
    StatusOrder-same d d'
      (ap (λ (x : Db). x.statuses) (release_locked-already env vs vs' reason now actor d d' h).1)
release_locked-StatusOrder env vs vs' reason now actor false d d' held h =
    let r = release_locked-Released env vs vs' reason now actor d d' h in
    let next = released_status vs reason now in
    StatusOrder-preorder.transitive d (save_status next d) d'
      (StatusOrder-rewrite vs next d held refl (RowOrder-released_status vs reason now r.was_open))
      (OnlyDelivers-StatusOrder (save_status next d) d' r.writes)

-- What follows the lock in `trigger_vault`.
trigger_locked :
    (env : Env) (v : ℕ) (reason : Reason) (now : ℕ) (actor : Actor) (vs : VaultStatus) (b : Bool)
    (d d' : Db)
    → trigger_vault env v reason now actor d ≡ ok (vs, b) d'
    → (d' ≡ save_status (locked v now d) d)
      ⊎ (release_locked env (locked v now d) reason now actor (save_status (locked v now d) d)
          ≡ ok (vs, b) d')
unfolding trigger_vault lock_status ◌>>=◌
trigger_locked env v reason now actor vs b d d' h = ground arith

pub trigger_vault-StatusOrder :
    (env : Env) (v : ℕ) (reason : Reason) (now : ℕ) (actor : Actor) (vs : VaultStatus) (b : Bool)
    (d d' : Db)
    → trigger_vault env v reason now actor d ≡ ok (vs, b) d'
    → StatusOrder d d'
trigger_vault-StatusOrder env v reason now actor vs b d d' h =
    let saved = save_status (locked v now d) d in
    StatusOrder-preorder.transitive d saved d' (StatusOrder-locked v now d)
      (elim (trigger_locked env v reason now actor vs b d d' h) [
        | inl e ↦ StatusOrder-same saved d' (ap (λ (x : Db). x.statuses) e)
        | inr r ↦
            release_locked-StatusOrder env (locked v now d) vs reason now actor b saved d'
              (status_of-locked v now d) r
      ])

missed_deadline-active :
    (env : Env) (d : Db) (vs : VaultStatus) (now deadline : ℕ)
    → missed_deadline env d vs now ≡ some deadline
    → same_state vs.state active ≡ true
unfolding missed_deadline
missed_deadline-active env d vs now deadline h = elim (Option-cases (config_of vs.vault_id d)) [
  | inl e ↦ ground arith
  | inr (cfg, e) ↦ elim (Option-cases cfg.last_check_in) [
    | inl f ↦ ground arith
    | inr (last, f) ↦ ground arith
  ]
]

pub RowOrder-grace_status :
    (vs : VaultStatus) (deadline now : ℕ)
    → same_state vs.state active ≡ true
    → RowOrder vs (grace_status vs deadline now)
RowOrder-grace_status vs deadline now is_active = record {
  version = omega arith;
  episode = omega arith;
  released = λ h. absurd (ground arith);
}

-- The writes of `enter_grace`.
pub enter_grace-writes :
    (vs vs' : VaultStatus) (deadline now : ℕ) (d d' : Db)
    → enter_grace vs deadline now d ≡ ok vs' d'
    → (vs' ≡ grace_status vs deadline now)
      × OnlyDelivers (save_status (grace_status vs deadline now) d) d'
unfolding enter_grace record_audit ◌>>=◌
enter_grace-writes vs vs' deadline now d d' h =
    (ground arith, record { tables = ground arith; events = λ p k. ground arith })

grace_from-StatusOrder :
    (env : Env) (vs vs' : VaultStatus) (b : Bool) (now : ℕ) (d d' : Db)
    → status_of vs.vault_id d ≡ some vs
    → grace_from vs now (missed_deadline env d vs now) d ≡ ok (vs', b) d'
    → StatusOrder d d'
unfolding grace_from enter_grace record_audit ◌>>=◌
grace_from-StatusOrder env vs vs' b now d d' held h =
    elim (Option-cases (missed_deadline env d vs now)) [
      | inl e ↦ StatusOrder-same d d' (ground arith)
      | inr (deadline, e) ↦
          (let next = grace_status vs deadline now in
            StatusOrder-preorder.transitive d (save_status next d) d'
              (StatusOrder-rewrite vs next d held refl (
                RowOrder-grace_status vs deadline now
                  (missed_deadline-active env d vs now deadline e)))
              (StatusOrder-same (save_status next d) d' (ground arith)))
    ]

move_to_grace-behind_lock :
    (env : Env) (v now : ℕ) (vs : VaultStatus) (b : Bool) (d d' : Db)
    → move_to_grace env v now d ≡ ok (vs, b) d'
    → let locked_row = locked v now d in
      let saved = save_status locked_row d in
      grace_from locked_row now (missed_deadline env saved locked_row now) saved ≡ ok (vs, b) d'
unfolding move_to_grace lock_status ◌>>=◌
move_to_grace-behind_lock env v now vs b d d' h = h

pub move_to_grace-StatusOrder :
    (env : Env) (v now : ℕ) (vs : VaultStatus) (b : Bool) (d d' : Db)
    → move_to_grace env v now d ≡ ok (vs, b) d'
    → StatusOrder d d'
move_to_grace-StatusOrder env v now vs b d d' h =
    let saved = save_status (locked v now d) d in
    StatusOrder-preorder.transitive d saved d' (StatusOrder-locked v now d) (
      grace_from-StatusOrder env (locked v now d) vs b now saved d' (status_of-locked v now d)
        (move_to_grace-behind_lock env v now vs b d d' h))
