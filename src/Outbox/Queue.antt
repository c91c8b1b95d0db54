-- ===== src/Outbox/Queue.antt =====
-- `claim` of backend/services/outbox.py: the leases of the worker.
use legacylock.Prelude.{
  ℕ, ◌+◌, ◌*◌, ◌==◌, Bool, true, false, not, ◌&&◌, ◌||◌, Option, none, some, List, [], ◌∷◌, exists,
  filter, take, leb, ltb, min, if◌then◌else◌, update_where,
}
use legacylock.Models.{
  Db, BusinessEvent, EventKind, is_grace, is_released, DeliveryJob, JobState, second,
}
use legacylock.Env.{Env}
use legacylock.Outcome.{Tx, ok, ◌>>=◌, pure, gets}
use legacylock.Outbox.{draw}

abbrev reached : Option ℕ → ℕ → Bool
reached none now = false
reached (some t) now = leb t now

-- The condition `due`.
unfoldable pub is_due_job : ℕ → DeliveryJob → Bool
is_due_job now job = elim job.state [
  | JobState.ready ↦ leb job.due_at now
  | JobState.retry_wait ↦ leb job.due_at now
  | JobState.claimed ↦ reached job.lease_until now
  | _ ↦ false
]

abbrev is_sensitive : EventKind → Bool
is_sensitive kind = is_grace kind || is_released kind

-- Under a release hold only jobs of other events are permitted.
unfoldable pub is_permitted : Env → List BusinessEvent → DeliveryJob → Bool
is_permitted env events job =
    not env.release_hold
    || exists (λ (e : BusinessEvent). (e.id == job.event_id) && not (is_sensitive e.kind)) events

-- `order_by(due_at, id)`
abbrev comes_before : DeliveryJob → DeliveryJob → Bool
comes_before a b = ltb a.due_at b.due_at || ((a.due_at == b.due_at) && leb a.id b.id)

insert_job : DeliveryJob → List DeliveryJob → List DeliveryJob
insert_job a [] = a ∷ []
insert_job a (b ∷ bs) = if comes_before a b then a ∷ b ∷ bs else b ∷ insert_job a bs

unfoldable pub sort_jobs : List DeliveryJob → List DeliveryJob
unfolding insert_job
sort_jobs [] = []
sort_jobs (a ∷ rest) = insert_job a (sort_jobs rest)

unfoldable pub candidates : Env → ℕ → ℕ → Db → List DeliveryJob
unfolding is_due_job is_permitted
candidates env now limit db =
    take (min limit 20)
      (sort_jobs (filter (λ job. is_due_job now job && is_permitted env db.events job) db.jobs))

abbrev pub leased : ℕ → ℕ → DeliveryJob → DeliveryJob
leased token now job = record job {
  state = JobState.claimed;
  claim_token = some token;
  lease_until = some (now + 90 * second);
  attempts = job.attempts + 1;
}

abbrev pub is_claimable : ℕ → ℕ → DeliveryJob → Bool
is_claimable id now job = (job.id == id) && is_due_job now job

-- The update of one candidate; the flag says that it met the row.
unfoldable pub lease : ℕ → ℕ → ℕ → Tx Db Bool
lease id token now db =
    ok (exists (is_claimable id now) db.jobs)
      (record db { jobs = update_where (is_claimable id now) (leased token now) db.jobs })

abbrev add_claim : Bool → ℕ → ℕ → List (ℕ × ℕ) → List (ℕ × ℕ)
add_claim true id token claims = (id, token) ∷ claims
add_claim false id token claims = claims

unfoldable pub claim_each : Env → List DeliveryJob → ℕ → Tx Db (List (ℕ × ℕ))
claim_each env [] now = pure []
claim_each env (job ∷ jobs) now = do
  token ← draw env
  met ← lease job.id token now
  rest ← claim_each env jobs now
  pure (add_claim met job.id token rest)

-- The ids of the claimed jobs with their tokens.
unfoldable pub claim : Env → ℕ → ℕ → Tx Db (List (ℕ × ℕ))
claim env now limit = do jobs ← gets (candidates env now limit); claim_each env jobs now
