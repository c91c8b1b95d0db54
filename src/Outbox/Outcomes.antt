-- ===== src/Outbox/Outcomes.antt =====
-- The end of one lease: what a lease promises its holder and how a delivery may end.
use legacylock.Prelude.{
  ℕ, ◌+◌, ◌*◌, ◌<◌, ◌≤◌, ◌≡◌, refl, ap, ◌∙◌, inl, inr, Bool, true, false, none, some, List, arith,
  lookup, update_where, updated, lookup-update_where, key-lookup, Bool-cases, if◌then◌else◌, leb,
  leb→le, ==_refl,
}
use legacylock.Models.{Db, DeliveryJob, JobState, second}
use legacylock.Outcome.{ok, ◌>>=◌, settle}
use legacylock.Outbox.Queue.{is_due_job, is_claimable, leased, lease}
use legacylock.Outbox.Worker.{DeliveryResult, is_held, settled, finish_delivery}
use legacylock.Outbox.Leases.{job_of}

update-meets :
    (p : DeliveryJob → Bool) (f : DeliveryJob → DeliveryJob) (id : ℕ) (js : List DeliveryJob)
    (j : DeliveryJob)
    → ((x : DeliveryJob) → (f x).id ≡ x.id)
    → p j ≡ true
    → lookup (λ (x : DeliveryJob). x.id) id js ≡ some j
    → lookup (λ (x : DeliveryJob). x.id) id (update_where p f js) ≡ some (f j)
update-meets p f id js j same meets found =
    lookup-update_where (λ (x : DeliveryJob). x.id) p f id js same
    ∙ (ap (updated p f) found ∙ ap (λ b. if b then some (f j) else some j) meets)

leb-no : (a b : ℕ) → b < a → leb a b ≡ false
leb-no a b h = ground arith

-- A due job that a worker leases carries the worker's token and one attempt more, and it is not due
-- for any worker before the ninety seconds of the lease have passed.
pub lease_excludes :
    (id token now later : ℕ) (met : Bool) (j : DeliveryJob) (d d' : Db)
    → job_of id d ≡ some j
    → is_due_job now j ≡ true
    → lease id token now d ≡ ok met d'
    → later < now + 90 * second
    → (j' : DeliveryJob) × (job_of id d' ≡ some j')
      × (j'.claim_token ≡ some token)
      × (j'.attempts ≡ j.attempts + 1)
      × (is_due_job later j' ≡ false)
unfolding lease is_due_job
lease_excludes id token now later met j d d' found due h early =
    let same_id = key-lookup (λ (x : DeliveryJob). x.id) id d.jobs j found in
    let meets : is_claimable id now j ≡ true = ground (arith, same_id, ==_refl id, due) in
    let next =
      update-meets (is_claimable id now) (leased token now) id d.jobs j (λ x. refl) meets found in
    (
      leased token now j,
      ground (arith, next),
      refl,
      ground arith,
      leb-no (now + 90 * second) later early,
    )

settled-id :
    (r : DeliveryResult) (now jitter : ℕ) (x : DeliveryJob) → (settled r now jitter x).id ≡ x.id
unfolding settled
settled-id r now jitter x = ground arith

-- How a job can stand after a delivery that the provider answered with `r`.
pub data HasEnded (r : DeliveryResult) (now : ℕ) (before after : DeliveryJob) : Type 0 where
  was_accepted :
      r.accepted ≡ true
      → after.state ≡ JobState.accepted
      → after.payload ≡ none
      → after.provider_id ≡ r.provider_id
      → after.accepted_at ≡ some now
      → HasEnded r now before after
  was_refused :
      r.accepted ≡ false
      → r.retryable ≡ false
      → after.state ≡ JobState.dead
      → HasEnded r now before after
  was_given_up :
      r.accepted ≡ false
      → 8 ≤ before.attempts
      → after.state ≡ JobState.dead
      → HasEnded r now before after
  will_retry :
      r.accepted ≡ false
      → r.retryable ≡ true
      → before.attempts < 8
      → after.state ≡ JobState.retry_wait
      → now ≤ after.due_at
      → HasEnded r now before after

settled-HasEnded :
    (r : DeliveryResult) (now jitter : ℕ) (j : DeliveryJob)
    → HasEnded r now j (settled r now jitter j)
unfolding settled
settled-HasEnded r now jitter j = elim (Bool-cases r.accepted) [
  | inl yes_ ↦ was_accepted yes_ (ground arith) (ground arith) (ground arith) (ground arith)
  | inr no_ ↦ elim (Bool-cases r.retryable) [
    | inr refused ↦ was_refused no_ refused (ground arith)
    | inl again ↦ elim (Bool-cases (leb 8 j.attempts)) [
      | inl over ↦ was_given_up no_ (leb→le 8 j.attempts over) (ground arith)
      | inr on ↦ will_retry no_ again (ground arith) (ground arith) (ground arith)
    ]
  ]
]

settled-token :
    (r : DeliveryResult) (now jitter : ℕ) (x : DeliveryJob)
    → ((settled r now jitter x).claim_token ≡ none) × ((settled r now jitter x).lease_until ≡ none)
unfolding settled
settled-token r now jitter x = ground arith

-- A delivery that still holds its job gives it back as the provider answered. A message that the
-- provider accepted leaves the job accepted, with its payload erased and the provider's id and the
-- time in it; a refusal that is not retryable, or comes after eight attempts or more, leaves it dead; a
-- retryable refusal before leaves it waiting for a retry that is due no earlier than now. No token or
-- lease is left.
pub delivery_ends_job :
    (id token now jitter : ℕ) (r : DeliveryResult) (j : DeliveryJob) (d : Db)
    → job_of id d ≡ some j
    → is_held id token j ≡ true
    → (j' : DeliveryJob) × (d' : Db) × (finish_delivery id token r now jitter d ≡ ok tt d')
      × (job_of id d' ≡ some j')
      × (j'.claim_token ≡ none)
      × (j'.lease_until ≡ none)
      × HasEnded r now j j'
unfolding finish_delivery ◌>>=◌
delivery_ends_job id token now jitter r j d found holds =
    let (no_token, no_lease) = settled-token r now jitter j in
    (
      settled r now jitter j,
      settle d (finish_delivery id token r now jitter d),
      refl,
      update-meets (is_held id token) (settled r now jitter) id d.jobs j (settled-id r now jitter)
          holds found,
      no_token,
      no_lease,
      settled-HasEnded r now jitter j,
    )
