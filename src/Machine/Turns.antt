-- ===== src/Machine/Turns.antt =====
-- A turn of the heartbeat checker, and a whole pass, respect the order of status rows.
use legacylock.Prelude.{
  ℕ, ◌≤◌, ◌≡◌, refl, ap, ◌∙◌, inl, inr, ◌⊎◌, Bool, true, false, Option, none, some, List, [], ◌∷◌,
  arith, Bool-cases, Option-cases, leb,
}
use legacylock.Lifecycle.{active, triggered, same_state}
use legacylock.Models.{Db, VaultStatus, HeartbeatConfig, inactivity, system}
use legacylock.Env.{Env}
use legacylock.Outcome.{ok, err, failure, ◌>>=◌, and_then-eq-ok, Outcome-cases}
use legacylock.Outbox.Intent.{OnlyDelivers}
use legacylock.Trigger.{
  status_of, config_of, release_deadline, save_status, locked, lock_status, release_locked,
  released_status, grace_status, stage_warning, check_in_deadline, enter_grace,
}
use legacylock.Trigger.Release.{release_locked-Released, release_locked-already, release_locked-row}
use legacylock.Readiness.{is_releasable}
use legacylock.Trigger.Frame.{stage_warning-frame}
use legacylock.Trigger.Status.{status_of-writes}
use legacylock.Machine.Rows.{
  RowOrder, StatusOrder, StatusOrder-preorder, StatusOrder-locked, StatusOrder-rewrite,
  StatusOrder-same, OnlyDelivers-StatusOrder, status_of-locked,
}
use legacylock.Machine.Triggers.{
  RowOrder-grace_status, RowOrder-released_status, enter_grace-writes,
}
use legacylock.Checker.{
  Action, touched, to_grace, release_turn, warning_turn, finish_turn, advance, can_advance,
  turn_armed, turn_body, turn, turns, check_heartbeat, due_ids,
}

-- The row that a turn holds is the vault's own, before and after the move to grace.
pub record Held (d d' : Db) (vs' : VaultStatus) : Type 0 where
  pub order : StatusOrder d d'
  pub held : status_of vs'.vault_id d' ≡ some vs'

pub Held-refl : (d : Db) (vs : VaultStatus) → status_of vs.vault_id d ≡ some vs → Held d d vs
Held-refl d vs held = record { order = StatusOrder-same d d refl; held = held }

-- A holder's write that keeps the key.
Held-write :
    (vs next : VaultStatus) (d d' : Db)
    → status_of vs.vault_id d ≡ some vs
    → next.vault_id ≡ vs.vault_id
    → RowOrder vs next
    → OnlyDelivers (save_status next d) d'
    → Held d d' next
Held-write vs next d d' held same order w = record {
  order =
      StatusOrder-preorder.transitive d (save_status next d) d'
        (StatusOrder-rewrite vs next d held same order)
        (OnlyDelivers-StatusOrder (save_status next d) d' w);
  held = ground (arith, status_of-writes next d d' next.vault_id w);
}

pub to_grace-cases :
    (vs vs' : VaultStatus) (deadline now : ℕ) (d d' : Db)
    → to_grace vs deadline now d ≡ ok vs' d'
    → ((same_state vs.state active ≡ true) × (enter_grace vs deadline now d ≡ ok vs' d'))
      ⊎ ((vs' ≡ vs) × (d' ≡ d))
unfolding to_grace ◌>>=◌
to_grace-cases vs vs' deadline now d d' h = ground arith

pub to_grace-Held :
    (vs vs' : VaultStatus) (deadline now : ℕ) (d d' : Db)
    → status_of vs.vault_id d ≡ some vs
    → to_grace vs deadline now d ≡ ok vs' d'
    → Held d d' vs'
to_grace-Held vs vs' deadline now d d' held h = elim (to_grace-cases vs vs' deadline now d d' h) [
  | inl (is_active, entered) ↦
      (let (e, w) = enter_grace-writes vs vs' deadline now d d' entered in
        rw e (
          Held-write vs (grace_status vs deadline now) d d' held refl
            (RowOrder-grace_status vs deadline now is_active) w))
  | inr (e, f) ↦ rw (e, f) (Held-refl d vs held)
]

release_locked-Held :
    (env : Env) (vs vs' : VaultStatus) (b : Bool) (now : ℕ) (d d' : Db)
    → status_of vs.vault_id d ≡ some vs
    → release_locked env vs inactivity now system d ≡ ok (vs', b) d'
    → Held d d' vs'
release_locked-Held env vs vs' true now d d' held h =
    let (e, f) = release_locked-already env vs vs' inactivity now system d d' h in
    rw (e, f) (Held-refl d vs held)
release_locked-Held env vs vs' false now d d' held h =
    let r = release_locked-Released env vs vs' inactivity now system d d' h in
    rw (release_locked-row env vs vs' inactivity now system d d' h) (
      Held-write vs (released_status vs inactivity now) d d' held refl
        (RowOrder-released_status vs inactivity now r.was_open) r.writes)

RowOrder-touched : (vs : VaultStatus) (now : ℕ) → RowOrder vs (touched vs now)
RowOrder-touched vs now = record {
  version = omega arith;
  episode = omega arith;
  released = λ h. (h, refl, refl);
}

touched-order :
    (vs : VaultStatus) (now : ℕ) (d e : Db)
    → Held d e vs
    → StatusOrder d (save_status (touched vs now) e)
touched-order vs now d e h =
    StatusOrder-preorder.transitive d e (save_status (touched vs now) e) h.order
      (StatusOrder-rewrite vs (touched vs now) e h.held refl (RowOrder-touched vs now))

Held-delivers :
    (vs : VaultStatus) (d e : Db)
    → status_of vs.vault_id d ≡ some vs
    → OnlyDelivers d e
    → Held d e vs
Held-delivers vs d e held w = record {
  order = OnlyDelivers-StatusOrder d e w;
  held = ap (status_of vs.vault_id) w.tables ∙ held;
}

release_turn-StatusOrder :
    (env : Env) (vs : VaultStatus) (began : Bool) (now : ℕ) (action : Action) (d d' : Db)
    → status_of vs.vault_id d ≡ some vs
    → release_turn env vs began now d ≡ ok action d'
    → StatusOrder d d'
unfolding release_turn ◌>>=◌
release_turn-StatusOrder env vs began now action d d' held h =
    let (p, e, hr, hf) =
      and_then-eq-ok (release_locked env vs inactivity now system d) _ action d' h in
    let end : d' ≡ save_status (touched p.0 now) e = ground arith in
    rw end (touched-order p.0 now d e (release_locked-Held env vs p.0 p.1 now d e held hr))

warning_turn-StatusOrder :
    (env : Env) (vs : VaultStatus) (cfg : HeartbeatConfig) (began : Bool) (now : ℕ)
    (action : Action) (d d' : Db)
    → status_of vs.vault_id d ≡ some vs
    → warning_turn env vs cfg began now d ≡ ok action d'
    → StatusOrder d d'
unfolding warning_turn ◌>>=◌
warning_turn-StatusOrder env vs cfg began now action d d' held h =
    let (u, e, hs, hf) = and_then-eq-ok (stage_warning env vs cfg now d) _ action d' h in
    let end : d' ≡ save_status (touched vs now) e = ground arith in
    rw end (
      touched-order vs now d e
        (Held-delivers vs d e held ((stage_warning-frame env vs cfg now).at d e u hs)))

finish_turn-StatusOrder :
    (env : Env) (vs : VaultStatus) (cfg : HeartbeatConfig) (last : ℕ) (began : Bool) (now : ℕ)
    (action : Action) (d d' : Db)
    → status_of vs.vault_id d ≡ some vs
    → finish_turn env vs cfg last began now d ≡ ok action d'
    → StatusOrder d d'
unfolding finish_turn
finish_turn-StatusOrder env vs cfg last began now action d d' held h =
    elim (Bool-cases (leb (release_deadline last cfg) now)) [
      | inl e ↦ release_turn-StatusOrder env vs began now action d d' held (rw e at h)
      | inr e ↦ warning_turn-StatusOrder env vs cfg began now action d d' held (rw e at h)
    ]

advance-StatusOrder :
    (env : Env) (vs : VaultStatus) (cfg : HeartbeatConfig) (last now : ℕ) (action : Action)
    (d d' : Db)
    → status_of vs.vault_id d ≡ some vs
    → advance env vs cfg last now d ≡ ok action d'
    → StatusOrder d d'
unfolding advance ◌>>=◌
advance-StatusOrder env vs cfg last now action d d' held h =
    let (vs', e, hg, hf) =
      and_then-eq-ok (to_grace vs (check_in_deadline last cfg) now d) _ action d' h in
    let g = to_grace-Held vs vs' (check_in_deadline last cfg) now d e held hg in
    StatusOrder-preorder.transitive d e d' g.order (
      finish_turn-StatusOrder env vs' cfg last (same_state vs.state active) now action e d' g.held
        hf)

-- What a turn of vault `v` that commits has found behind the lock.
pub record Advances (env : Env) (v : ℕ) (vs : VaultStatus) (now : ℕ) (action : Action) (d d' : Db)
    : Type 0 where
  pub cfg : HeartbeatConfig
  pub last : ℕ
  pub has_cfg : config_of v d ≡ some cfg
  pub checked_in : cfg.last_check_in ≡ some last
  pub armed : vs.armed ≡ true
  pub unreleased : same_state vs.state triggered ≡ false
  pub passed : check_in_deadline last cfg ≤ now
  pub is_ready : is_releasable env d vs.vault_id ≡ true
  pub ran : advance env vs cfg last now d ≡ ok action d'

turn_armed-ran :
    (env : Env) (vs : VaultStatus) (cfg : HeartbeatConfig) (now last : ℕ) (action : Action)
    (d d' : Db)
    → cfg.last_check_in ≡ some last
    → turn_armed env vs cfg now d ≡ ok (some action) d'
    → (can_advance env d vs (check_in_deadline last cfg) now ≡ true)
      × (advance env vs cfg last now d ≡ ok action d')
unfolding turn_armed ◌>>=◌
turn_armed-ran env vs cfg now last action d d' found h =
    ground (arith, Outcome-cases (advance env vs cfg last now d))

turn_armed_unset :
    (env : Env) (vs : VaultStatus) (cfg : HeartbeatConfig) (now : ℕ) (d : Db)
    → cfg.last_check_in ≡ none
    → turn_armed env vs cfg now d ≡ err failure
unfolding turn_armed ◌>>=◌
turn_armed_unset env vs cfg now d e = ground arith

-- The configuration and the tests that a committed turn has read.
turn_body-parts :
    (env : Env) (v now : ℕ) (action : Action) (d d' : Db)
    → turn_body env v now d ≡ ok (some action) d'
    → (cfg : HeartbeatConfig) × (config_of v d ≡ some cfg)
      × ((locked v now d).armed ≡ true)
      × (same_state (locked v now d).state triggered ≡ false)
      × (turn_armed env (locked v now d) cfg now (save_status (locked v now d) d)
          ≡ ok (some action) d')
unfolding turn_body lock_status ◌>>=◌
turn_body-parts env v now action d d' h = elim (Option-cases (config_of v d)) [
  | inl e ↦ absurd (ground arith)
  | inr (cfg, e) ↦ (cfg, e, ground arith, ground arith, ground arith)
]

pub turn_body-Advances :
    (env : Env) (v now : ℕ) (action : Action) (d d' : Db)
    → turn_body env v now d ≡ ok (some action) d'
    → Advances env v (locked v now d) now action (save_status (locked v now d) d) d'
unfolding can_advance
turn_body-Advances env v now action d d' h =
    let (cfg, e, armed, unreleased, ran) = turn_body-parts env v now action d d' h in
    let vs = locked v now d in
    let saved = save_status vs d in
    elim (Option-cases cfg.last_check_in) [
      | inl f ↦ absurd (ground (arith, turn_armed_unset env vs cfg now saved f))
      | inr (last, f) ↦
          (let t = turn_armed-ran env vs cfg now last action saved d' f ran in
            record {
              cfg = cfg;
              last = last;
              has_cfg = e;
              checked_in = f;
              armed = armed;
              unreleased = unreleased;
              passed = ground (arith, t.0);
              is_ready = ground (arith, t.0);
              ran = t.1;
            })
    ]

turn_body-StatusOrder :
    (env : Env) (v now : ℕ) (action : Action) (d d' : Db)
    → turn_body env v now d ≡ ok (some action) d'
    → StatusOrder d d'
turn_body-StatusOrder env v now action d d' h =
    let a = turn_body-Advances env v now action d d' h in
    let vs = locked v now d in
    let saved = save_status vs d in
    StatusOrder-preorder.transitive d saved d' (StatusOrder-locked v now d)
      (advance-StatusOrder env vs a.cfg a.last now action saved d' (status_of-locked v now d) a.ran)

-- A turn changes nothing, or it commits what its body did.
pub turn-cases :
    (env : Env) (v now : ℕ) (d : Db)
    → ((turn env v now d).0 ≡ d)
      ⊎ ((action : Action) × (turn_body env v now d ≡ ok (some action) (turn env v now d).0))
unfolding turn
turn-cases env v now d = elim (Outcome-cases (turn_body env v now d)) [
  | inl (done, d', e) ↦ elim (Option-cases done) [
    | inl f ↦ inl (ground arith)
    | inr (action, f) ↦ inr (action, ground arith)
  ]
  | inr (x, e) ↦ inl (ground arith)
]

pub turn-StatusOrder : (env : Env) (v now : ℕ) (d : Db) → StatusOrder d (turn env v now d).0
turn-StatusOrder env v now d = elim (turn-cases env v now d) [
  | inl e ↦ StatusOrder-same d (turn env v now d).0 (ap (λ (x : Db). x.statuses) e)
  | inr (action, e) ↦ turn_body-StatusOrder env v now action d (turn env v now d).0 e
]

turns-StatusOrder :
    (env : Env) (vs : List ℕ) (now : ℕ) (d : Db) (failed : ℕ)
    → StatusOrder d (turns env vs now d failed).0
unfolding turns
turns-StatusOrder env [] now d failed = StatusOrder-same d d refl
turns-StatusOrder env (v ∷ vs) now d failed =
    StatusOrder-preorder.transitive d (turn env v now d).0 _ (turn-StatusOrder env v now d)
      (turns-StatusOrder env vs now (turn env v now d).0 _)

pub check_heartbeat-StatusOrder :
    (env : Env) (now limit : ℕ) (only : Option ℕ) (d : Db)
    → StatusOrder d (check_heartbeat env now limit only d).0
unfolding check_heartbeat
check_heartbeat-StatusOrder env now limit only d = elim (Bool-cases env.release_hold) [
  | inl e ↦ simp e (StatusOrder-same d d refl)
  | inr e ↦ simp e (turns-StatusOrder env (due_ids d now limit only) now d 0)
]
