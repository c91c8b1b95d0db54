-- ===== src/Outbox/Leases.antt =====
-- What the worker does to a job over its life: jobs that are accepted, dead or cancelled rest, a lease
-- keeps other workers away, and retries are bounded.
use legacylock.Prelude.{
  ℕ, suc, ◌≡◌, refl, ap, ◌∙◌, inl, inr, Bool, false, Option, none, some, List, [], ◌∷◌, arith,
  lookup, update_where, updated, lookup-update_where, Option-cases, first, if◌then◌else◌,
}
use legacylock.Models.{Db, DeliveryJob, is_pending, BusinessEvent, Channel, Mail}
use legacylock.Env.{Env}
use legacylock.Outcome.{ok, ◌>>=◌, and_then-eq-ok, Outcome-cases, settle}
use legacylock.Outbox.{draw}
use legacylock.Outbox.Queue.{is_due_job, is_claimable, leased, lease, claim_each, claim, candidates}
use legacylock.Outbox.Worker.{
  DeliveryResult, is_held, edit_held, hold, kill, drop, apply_verdict, start_held, start_delivery,
  Verdict, verdict, held, uncertain, obsolete, unreadable, send, add_attempt, settled,
  finish_delivery, Provider, send_out, deliver_from, deliver_one,
}

abbrev pub job_of : ℕ → Db → Option DeliveryJob
job_of id db = lookup (λ (j : DeliveryJob). j.id) id db.jobs

-- An update that misses a row leaves it.
update-misses :
    (p : DeliveryJob → Bool) (f : DeliveryJob → DeliveryJob) (id : ℕ) (js : List DeliveryJob)
    (j : DeliveryJob)
    → ((x : DeliveryJob) → (f x).id ≡ x.id)
    → p j ≡ false
    → lookup (λ (x : DeliveryJob). x.id) id js ≡ some j
    → lookup (λ (x : DeliveryJob). x.id) id (update_where p f js) ≡ some j
update-misses p f id js j same miss found =
    lookup-update_where (λ (x : DeliveryJob). x.id) p f id js same
    ∙ (ap (updated p f) found ∙ ap (λ b. if b then some (f j) else some j) miss)

rests-unclaimed :
    (id now : ℕ) (j : DeliveryJob) → is_pending j.state ≡ false → is_claimable id now j ≡ false
unfolding is_due_job
rests-unclaimed id now j rests = ground arith

rests-unheld :
    (id token : ℕ) (j : DeliveryJob) → is_pending j.state ≡ false → is_held id token j ≡ false
rests-unheld id token j rests = ground arith

claim_each-rests :
    (env : Env) (jobs : List DeliveryJob) (now id : ℕ) (cs : List (ℕ × ℕ)) (j : DeliveryJob)
    (d d' : Db)
    → claim_each env jobs now d ≡ ok cs d'
    → is_pending j.state ≡ false
    → job_of id d ≡ some j
    → job_of id d' ≡ some j
unfolding claim_each lease draw ◌>>=◌
claim_each-rests env [] now id cs j d d' h rests found = ground arith
claim_each-rests env (x ∷ xs) now id cs j d d' h rests found =
    let token = env.random d.drawn in
    let next = record d {
      jobs = update_where (is_claimable x.id now) (leased token now) d.jobs;
      drawn = suc d.drawn;
    } in
    let (rest, e, ran, end) = and_then-eq-ok (claim_each env xs now next) _ cs d' h in
    claim_each-rests env xs now id rest j next d' (ground arith) rests (
      update-misses (is_claimable x.id now) (leased token now) id d.jobs j (λ y. refl)
        (rests-unclaimed x.id now j rests) found)

edit_held-rests :
    (id key token : ℕ) (f : DeliveryJob → DeliveryJob) (j : DeliveryJob) (d : Db)
    → ((x : DeliveryJob) → (f x).id ≡ x.id)
    → is_pending j.state ≡ false
    → job_of id d ≡ some j
    → job_of id (edit_held key token f d) ≡ some j
edit_held-rests id key token f j d same rests found =
    update-misses (is_held key token) f id d.jobs j same (rests-unheld key token j rests) found

apply_verdict-rests :
    (key token : ℕ) (channel : Channel) (now id : ℕ) (v : Verdict) (what : Option (Channel × Mail))
    (j : DeliveryJob) (d d' : Db)
    → apply_verdict key token channel now v d ≡ ok what d'
    → is_pending j.state ≡ false
    → job_of id d ≡ some j
    → job_of id d' ≡ some j
unfolding apply_verdict add_attempt ◌>>=◌
apply_verdict-rests key token channel now id held what j d d' h rests found =
    ground (arith, edit_held-rests id key token (hold now) j d (λ x. refl) rests found)
apply_verdict-rests key token channel now id uncertain what j d d' h rests found = ground (
  arith,
  edit_held-rests id key token (kill "provider_window_reconcile") j d (λ x. refl) rests found,
)
apply_verdict-rests key token channel now id obsolete what j d d' h rests found =
    ground (arith, edit_held-rests id key token drop j d (λ x. refl) rests found)
apply_verdict-rests key token channel now id unreadable what j d d' h rests found =
    ground
      (arith, edit_held-rests id key token (kill "payload_unavailable") j d (λ x. refl) rests found)
apply_verdict-rests key token channel now id (send mail) what j d d' h rests found = ground arith

start_delivery-rests :
    (env : Env) (key token now id : ℕ) (what : Option (Channel × Mail)) (j : DeliveryJob)
    (d d' : Db)
    → start_delivery env key token now d ≡ ok what d'
    → is_pending j.state ≡ false
    → job_of id d ≡ some j
    → job_of id d' ≡ some j
unfolding start_delivery start_held ◌>>=◌
start_delivery-rests env key token now id what j d d' h rests found =
    elim (Option-cases (first (is_held key token) d.jobs)) [
      | inl e ↦ ground arith
      | inr (job, e) ↦
          elim (Option-cases (lookup (λ (b : BusinessEvent). b.id) job.event_id d.events)) [
            | inl f ↦ absurd (ground arith)
            | inr (b, f) ↦
                apply_verdict-rests key token job.channel now id (verdict env d job b now) what j d
                  d' (ground arith) rests found
          ]
    ]

settled-id :
    (r : DeliveryResult) (now jitter : ℕ) (x : DeliveryJob) → (settled r now jitter x).id ≡ x.id
unfolding settled
settled-id r now jitter x = ground arith

finish_delivery-rests :
    (key token : ℕ) (r : DeliveryResult) (now jitter id : ℕ) (j : DeliveryJob) (d : Db)
    → is_pending j.state ≡ false
    → job_of id d ≡ some j
    → job_of id (settle d (finish_delivery key token r now jitter d)) ≡ some j
unfolding finish_delivery ◌>>=◌
finish_delivery-rests key token r now jitter id j d rests found =
    update-misses (is_held key token) (settled r now jitter) id d.jobs j (settled-id r now jitter)
      (rests-unheld key token j rests) found

send_out-rests :
    (p : Provider) (key token id : ℕ) (what : Option (Channel × Mail)) (j : DeliveryJob) (d : Db)
    → is_pending j.state ≡ false
    → job_of id d ≡ some j
    → job_of id (send_out p key token what d) ≡ some j
unfolding send_out
send_out-rests p key token id none j d rests found = found
send_out-rests p key token id (some mail) j d rests found =
    elim (Option-cases (p.deliver mail.0 mail.1 key)) [
      | inl e ↦ ground arith
      | inr (r, e) ↦
          ground (arith, finish_delivery-rests key token r p.now p.jitter id j d rests found)
    ]

-- A job that is accepted, dead or cancelled rests: no claim of a worker and no delivery, of any job
-- under any token and with any answer of the provider, changes its row.
pub finished_job_rests :
    (env : Env) (p : Provider) (now limit key token id : ℕ) (j : DeliveryJob) (d : Db)
    → job_of id d ≡ some j
    → is_pending j.state ≡ false
    → (job_of id (settle d (claim env now limit d)) ≡ some j)
      × (job_of id (deliver_one env p key token now d) ≡ some j)
unfolding claim deliver_one deliver_from send_out ◌>>=◌
finished_job_rests env p now limit key token id j d found rests = (
  elim (Outcome-cases (claim_each env (candidates env now limit d) now d)) [
    | inl (cs, d', e) ↦
        ap (λ o. job_of id (settle d o)) e
        ∙ claim_each-rests env (candidates env now limit d) now id cs j d d' e rests found
    | inr (x, e) ↦ ap (λ o. job_of id (settle d o)) e ∙ found
  ],
  elim (Outcome-cases (start_delivery env key token now d)) [
    | inl (what, d', e) ↦
        ap (λ o. job_of id (deliver_from p key token d o)) e
        ∙ send_out-rests p key token id what j d' rests
            (start_delivery-rests env key token now id what j d d' e rests found)
    | inr (x, e) ↦ ap (λ o. job_of id (deliver_from p key token d o)) e ∙ found
  ],
)
