-- ===== src/Checker.antt =====
-- backend/services/heartbeat_checker.py: one pass over the vaults that are due. Each vault is a
-- transaction of its own; one that fails is rolled back and counted.
pub mod Pass
pub mod Liveness
use legacylock.Prelude.{
  ℕ, suc, ◌+◌, ◌*◌, Bool, true, false, not, ◌&&◌, ◌||◌, Option, none, some, List, [], ◌∷◌, ◌++◌,
  map, ◌==◌, leb, ltb, min, take, filter, is_some, if◌then◌else◌, save,
}
use legacylock.Lifecycle.{VaultState, active, grace, triggered, same_state}
use legacylock.Models.{Db, VaultStatus, HeartbeatConfig, Reason, inactivity, system, day}
use legacylock.Env.{Env}
use legacylock.Outcome.{
  Tx, Outcome, ok, err, no_result, failure, ◌>>=◌, ◌>>◌, pure, gets, modify, or_raise,
}
use legacylock.Readiness.{is_releasable}
use legacylock.Trigger.{
  config_of, save_status, lock_status, release_locked, stage_warning, enter_grace, grace_status,
  check_in_deadline, release_deadline,
}

-- The query: armed, not triggered, checked in once, and past the check-in deadline.
abbrev has_deadline : Option HeartbeatConfig → ℕ → Bool
has_deadline none now = false
has_deadline (some cfg) now = elim cfg.last_check_in [
  | none ↦ false
  | some last ↦ leb (check_in_deadline last cfg) now
]

unfoldable pub is_due : Db → ℕ → VaultStatus → Bool
is_due db now vs =
    vs.armed && (not (same_state vs.state triggered) && has_deadline (config_of vs.vault_id db) now)

-- `order_by(updated_at, vault_id)`
abbrev before : VaultStatus → VaultStatus → Bool
before a b =
    ltb a.updated_at b.updated_at || (a.updated_at == b.updated_at && leb a.vault_id b.vault_id)

insert_row : VaultStatus → List VaultStatus → List VaultStatus
insert_row a [] = a ∷ []
insert_row a (b ∷ bs) = if before a b then a ∷ b ∷ bs else b ∷ insert_row a bs

sort_rows : List VaultStatus → List VaultStatus
unfolding insert_row
sort_rows [] = []
sort_rows (a ∷ rest) = insert_row a (sort_rows rest)

abbrev of_vault : Option ℕ → VaultStatus → Bool
of_vault none vs = true
of_vault (some v) vs = vs.vault_id == v

unfoldable pub due_ids : Db → ℕ → ℕ → Option ℕ → List ℕ
unfolding is_due sort_rows
due_ids db now limit only =
    map (λ (vs : VaultStatus). vs.vault_id)
      (take (min limit 1000)
        (sort_rows (filter (λ vs. is_due db now vs && of_vault only vs) db.statuses)))

-- `_can_advance` behind its test of `armed` and `state`.
unfoldable pub can_advance : Env → Db → VaultStatus → ℕ → ℕ → Bool
can_advance env db vs deadline now = leb deadline now && is_releasable env db vs.vault_id

-- What a vault's turn did.
pub data Action : Type 0 where
  skipped : Action
  grace_notify triggered_now : Bool → Action

-- `if vs.state == "active"`: the grace period that began at the missed deadline.
unfoldable pub to_grace : VaultStatus → ℕ → ℕ → Tx Db VaultStatus
to_grace vs deadline now =
    if same_state vs.state active then enter_grace vs deadline now else pure vs

abbrev pub touched : VaultStatus → ℕ → VaultStatus
touched vs now = record vs { updated_at = now }

-- The two ends of a turn, both of which set `updated_at`. The flag of the action says that the
-- grace period began in this turn.
unfoldable pub release_turn : Env → VaultStatus → Bool → ℕ → Tx Db Action
release_turn env vs began now = do
  (vs', already) ← release_locked env vs inactivity now system
  modify (save_status (touched vs' now))
  pure (triggered_now began)

unfoldable pub warning_turn : Env → VaultStatus → HeartbeatConfig → Bool → ℕ → Tx Db Action
warning_turn env vs cfg began now = do
  stage_warning env vs cfg now
  modify (save_status (touched vs now))
  pure (grace_notify began)

unfoldable pub finish_turn : Env → VaultStatus → HeartbeatConfig → ℕ → Bool → ℕ → Tx Db Action
finish_turn env vs cfg last began now =
    if leb (release_deadline last cfg) now
    then release_turn env vs began now
    else warning_turn env vs cfg began now

unfoldable pub advance : Env → VaultStatus → HeartbeatConfig → ℕ → ℕ → Tx Db Action
advance env vs cfg last now = do
  vs' ← to_grace vs (check_in_deadline last cfg) now
  finish_turn env vs' cfg last (same_state vs.state active) now

unfoldable pub turn_armed : Env → VaultStatus → HeartbeatConfig → ℕ → Tx Db (Option Action)
turn_armed env vs cfg now = do
  last ← or_raise cfg.last_check_in failure
  ready ← gets (λ db. can_advance env db vs (check_in_deadline last cfg) now)
  if ready then (do action ← advance env vs cfg last now; pure (some action)) else pure none

-- A vault that cannot advance is rolled back: `none`.
unfoldable pub turn_body : Env → ℕ → ℕ → Tx Db (Option Action)
turn_body env vault_id now = do
  vs ← lock_status vault_id now
  found ← gets (config_of vault_id)
  cfg ← or_raise found no_result
  if not vs.armed || same_state vs.state triggered then pure none else turn_armed env vs cfg now

-- `commit`, or `rollback` and go on.
abbrev pub close : Db → Outcome Db (Option Action) → Db × Bool
close before (ok (some action) after) = (after, false)
close before (ok none after) = (before, false)
close before (err e) = (before, true)

unfoldable pub turn : Env → ℕ → ℕ → Db → Db × Bool
turn env vault_id now db = close db (turn_body env vault_id now db)

abbrev pub count : Bool → ℕ → ℕ
count true n = suc n
count false n = n

-- The database and the number of vaults that failed; the pass raises when that is not 0.
unfoldable pub turns : Env → List ℕ → ℕ → Db → ℕ → Db × ℕ
turns env [] now db failed = (db, failed)
turns env (v ∷ vs) now db failed =
    let (db', failing) = turn env v now db in turns env vs now db' (count failing failed)

unfoldable pub check_heartbeat : Env → ℕ → ℕ → Option ℕ → Db → Db × ℕ
check_heartbeat env now limit only db =
    if env.release_hold then (db, 0) else turns env (due_ids db now limit only) now db 0
