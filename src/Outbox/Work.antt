-- ===== src/Outbox/Work.antt =====
-- `work_once` of backend/services/outbox.py: the erasure of old payloads, a claim, and the claimed
-- deliveries. The source runs at most four of them at a time; here they run one after the other, each
-- at its own time and with its own answer of the provider.
use legacylock.Prelude.{
  ℕ, ◌+◌, ◌*◌, ◌==◌, Bool, true, false, ◌&&◌, ◌||◌, Option, none, some, List, [], ◌∷◌, filter, take,
  leb, is_some, if◌then◌else◌, update_where, length,
}
use legacylock.Models.{Db, DeliveryJob, JobState, is_pending, day}
use legacylock.Env.{Env}
use legacylock.Outcome.{Outcome, ok, err}
use legacylock.Outbox.Queue.{claim}
use legacylock.Outbox.Worker.{Provider, deliver_one}

abbrev has_expired : Option ℕ → ℕ → Bool
has_expired none now = false
has_expired (some t) now = leb t now

abbrev is_terminal : JobState → Bool
is_terminal JobState.dead = true
is_terminal JobState.cancelled = true
is_terminal JobState.accepted = true
is_terminal _ = false

-- A payload that is to be erased: its credential has expired, or its job ended thirty days ago.
unfoldable pub is_erasable : ℕ → DeliveryJob → Bool
is_erasable now job =
    is_some job.payload
    && (has_expired job.credential_expires_at now
        || (is_terminal job.state && leb (job.created_at + 30 * day) now))

-- `order_by(created_at)`
insert_old : DeliveryJob → List DeliveryJob → List DeliveryJob
insert_old a [] = a ∷ []
insert_old a (b ∷ bs) = if leb a.created_at b.created_at then a ∷ b ∷ bs else b ∷ insert_old a bs

unfoldable pub sort_old : List DeliveryJob → List DeliveryJob
unfolding insert_old
sort_old [] = []
sort_old (a ∷ rest) = insert_old a (sort_old rest)

abbrev pub erased : DeliveryJob → DeliveryJob
erased job =
    if is_pending job.state
    then record job {
      payload = none;
      state = JobState.cancelled;
      claim_token = none;
      lease_until = none;
    }
    else record job { payload = none }

unfoldable pub erase_each : List DeliveryJob → Db → Db
erase_each [] db = db
erase_each (job ∷ jobs) db =
    erase_each jobs (record db { jobs = update_where (λ j. j.id == job.id) erased db.jobs })

unfoldable pub erase_payloads : ℕ → Db → Db
unfolding sort_old
erase_payloads now db = erase_each (take 100 (sort_old (filter (is_erasable now) db.jobs))) db

-- The deliveries, with the time and the provider of each.
unfoldable pub deliver_each : Env → ((ℕ × ℕ) → ℕ × Provider) → List (ℕ × ℕ) → Db → Db
deliver_each env world [] db = db
deliver_each env world (claimed ∷ rest) db =
    let (now, p) = world claimed in
    deliver_each env world rest (deliver_one env p claimed.0 claimed.1 now db)

unfoldable pub run_claimed :
    Env → ((ℕ × ℕ) → ℕ × Provider) → Db → Outcome Db (List (ℕ × ℕ)) → Db × ℕ
run_claimed env world before (ok jobs db) = (deliver_each env world jobs db, length jobs)
run_claimed env world before (err e) = (before, 0)

unfoldable pub work_once : Env → ((ℕ × ℕ) → ℕ × Provider) → ℕ → ℕ → Db → Db × ℕ
work_once env world now limit db =
    if env.delivery_enabled
    then (let swept = erase_payloads now db in
        run_claimed env world swept (claim env now limit swept))
    else (db, 0)
