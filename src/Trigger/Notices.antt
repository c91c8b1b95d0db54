-- ===== src/Trigger/Notices.antt =====
-- Whom a release tells, and what it takes back.
use legacylock.Prelude.{
  exists-append, ℕ, ◌≡◌, refl, sym, ap, ◌∙◌, inl, inr, Bool, true, false, ◌&&◌, Option, none, some,
  List, [], ◌∷◌, ◌++◌, String, exists, opt_eq, ◌==◌, update_where, All, arith, Bool-cases,
}
use legacylock.Models.{
  Db, Beneficiary, BusinessEvent, EventKind, is_grace, released, VaultStatus, Recipient,
  same_recipient, Mail, Channel, DeliveryJob, JobState, is_pending, Actor, Reason,
}
use legacylock.Env.{Env}
use legacylock.Outcome.{ok, ◌>>=◌, and_then-eq-ok}
use legacylock.Outcome.Frames.{Frames, Frames-bind, Frames-modify, IsPreorder, frame_rules}
use legacylock.Audit.{record_audit}
use legacylock.Outbox.{enqueue, event, cancel, cancel_warnings, is_warning}
use legacylock.Readiness.{require_release_ready}
use legacylock.Trigger.{
  accepted_of, notify_sms, notify_release, notify_all_release, stage_notices, stage_release,
  release_locked, save_status, released_status,
}

abbrev is_email : Channel → Bool
is_email Channel.email = true
is_email Channel.sms = false

abbrev is_ready : JobState → Bool
is_ready JobState.ready = true
is_ready _ = false

-- A ready email job of this event for this beneficiary under its current contact revision.
abbrev pub is_notice : BusinessEvent → Beneficiary → DeliveryJob → Bool
is_notice business ben job =
    (job.event_id == business.id && same_recipient job.recipient (Recipient.beneficiary ben.id))
    && (opt_eq job.contact_revision (some ben.contact_revision)
        && (is_email job.channel && is_ready job.state))

-- Jobs are only added, and only for this event; the events stay.
record AddsJobs (business : BusinessEvent) (d d' : Db) : Type 0 where
  events : d'.events ≡ d.events
  keeps : (p : DeliveryJob → Bool) → exists p d.jobs ≡ true → exists p d'.jobs ≡ true
  adds :
      (p : DeliveryJob → Bool)
      → ((j : DeliveryJob) → j.event_id ≡ business.id → p j ≡ false)
      → exists p d.jobs ≡ false
      → exists p d'.jobs ≡ false

AddsJobs-preorder : (business : BusinessEvent) → IsPreorder (AddsJobs business)
AddsJobs-preorder business = record {
  reflexive = λ d. record { events = refl; keeps = λ p h. h; adds = λ p n h. h };
  transitive = λ d e f r s. record {
    events = s.events ∙ r.events;
    keeps = λ p h. s.keeps p (r.keeps p h);
    adds = λ p n h. s.adds p n (r.adds p n h);
  };
}

module _ (env : Env) (business : BusinessEvent) where
  enqueue-adds :
      (recipient : Recipient) (mail : Mail) (ben : Option Beneficiary) (channel : Channel)
      (expires : Option ℕ) (now : ℕ)
      → Frames (AddsJobs business) (enqueue env business recipient mail ben channel expires now)
  unfolding enqueue
  enqueue-adds recipient mail ben channel expires now = record {
    at = λ d d' j h. record {
      events = ground arith;
      keeps = λ p k. ground (arith, exists-append p d.jobs (j ∷ []));
      adds = λ p n k. ground (arith, exists-append p d.jobs (j ∷ []), n j);
    };
  }

  record_audit-adds :
      (v : Option ℕ) (actor : Actor) (kind : String)
      → Frames (AddsJobs business) (record_audit v actor kind)
  unfolding record_audit
  record_audit-adds v actor kind =
      Frames-modify (AddsJobs-preorder business) _
        (λ d. record { events = refl; keeps = λ p h. h; adds = λ p n h. h })

  notify_sms-adds :
      (ben : Beneficiary) (now : ℕ) (phone : Option String)
      → Frames (AddsJobs business) (notify_sms env business ben now phone)
  unfolding notify_sms
  notify_sms-adds ben now none = search (frame_rules, AddsJobs-preorder)
  notify_sms-adds ben now (some phone) = search (frame_rules, AddsJobs-preorder, enqueue-adds)

  notify_release-adds :
      (ben : Beneficiary) (now : ℕ)
      → Frames (AddsJobs business) (notify_release env business ben now)
  unfolding notify_release
  notify_release-adds ben now =
      search (frame_rules, AddsJobs-preorder, enqueue-adds, notify_sms-adds)

  notify_all_release-adds :
      (bens : List Beneficiary) (now : ℕ)
      → Frames (AddsJobs business) (notify_all_release env business bens now)
  unfolding notify_all_release
  notify_all_release-adds [] now = search (frame_rules, AddsJobs-preorder)
  notify_all_release-adds (ben ∷ bens) now =
      Frames-bind (AddsJobs-preorder business) _ _ (notify_release-adds ben now)
        (λ _. notify_all_release-adds bens now)

  -- The email job is there once a beneficiary was told.
  enqueue-notice :
      (mail : Mail) (ben : Beneficiary) (now : ℕ) (d d' : Db) (j : DeliveryJob)
      → enqueue env business (Recipient.beneficiary ben.id) mail (some ben) Channel.email none now d
        ≡ ok j d'
      → exists (is_notice business ben) d'.jobs ≡ true
  unfolding enqueue
  enqueue-notice mail ben now d d' j h =
      ground (arith, exists-append (is_notice business ben) d.jobs (j ∷ []))

  notify_release-notice :
      (ben : Beneficiary) (now : ℕ) (d d' : Db)
      → notify_release env business ben now d ≡ ok tt d'
      → exists (is_notice business ben) d'.jobs ≡ true
  unfolding notify_release ◌>>=◌
  notify_release-notice ben now d d' h =
      let (j, e, first, rest) = and_then-eq-ok _ _ tt d' h in
      ((notify_sms-adds ben now ben.phone).at e d' tt rest).keeps (is_notice business ben)
        (enqueue-notice _ ben now d e j first)

  notify_all_release-notices :
      (bens : List Beneficiary) (now : ℕ) (d d' : Db)
      → notify_all_release env business bens now d ≡ ok tt d'
      → All (λ ben. exists (is_notice business ben) d'.jobs ≡ true) bens
  unfolding notify_all_release ◌>>=◌
  notify_all_release-notices [] now d d' h = tt
  notify_all_release-notices (ben ∷ bens) now d d' h =
      let (u, e, first, rest) = and_then-eq-ok (notify_release env business ben now d) _ tt d' h in
      (
        ((notify_all_release-adds bens now).at e d' tt rest).keeps (is_notice business ben)
            (notify_release-notice ben now d e first),
        notify_all_release-notices bens now e d' rest,
      )

-- The pending grace warnings of a vault.
abbrev pub is_pending_warning : List BusinessEvent → ℕ → DeliveryJob → Bool
is_pending_warning events v job = is_warning events v job && is_pending job.state

cancelled :
    (events : List BusinessEvent) (v : ℕ) (jobs : List DeliveryJob)
    → exists (is_pending_warning events v) (update_where (is_pending_warning events v) cancel jobs)
      ≡ false
cancelled events v [] = refl
cancelled events v (j ∷ js) = elim (Bool-cases (is_pending_warning events v j)) [
  | inl e ↦ ground (arith, cancelled events v js)
  | inr e ↦ ground (arith, cancelled events v js)
]

-- No grace event has an id that no event has.
unwarned :
    (events : List BusinessEvent) (v id : ℕ) (j : DeliveryJob)
    → exists (λ (e : BusinessEvent). e.id == id) events ≡ false
    → j.event_id ≡ id
    → is_warning events v j ≡ false
unwarned [] v id j fresh same = refl
unwarned (e ∷ es) v id j fresh same = ground (arith, unwarned es v id j)

-- An event of another kind makes no warning.
is_warning-append :
    (events : List BusinessEvent) (b : BusinessEvent) (v : ℕ) (j : DeliveryJob)
    → is_grace b.kind ≡ false
    → is_warning (events ++ b ∷ []) v j ≡ is_warning events v j
is_warning-append events b v j other = ground (
  arith,
  exists-append
      (λ (e : BusinessEvent). e.id == j.event_id && (opt_eq e.vault_id (some v) && is_grace e.kind))
      events (b ∷ []),
)

exists-ext {ℓ} :
    {A : Type ℓ} (p q : A → Bool) (xs : List A) → ((x : A) → p x ≡ q x) → exists p xs ≡ exists q xs
exists-ext p q [] same = refl
exists-ext p q (x ∷ xs) same = ground (arith, same x, exists-ext p q xs same)

-- What the notices of a release are made of: the event, and the two databases between which they are
-- staged.
record Staged (env : Env) (vs : VaultStatus) (now : ℕ) (d d' : Db) : Type 0 where
  business : BusinessEvent
  before : Db
  after : Db
  kind : business.kind ≡ released
  vault : business.vault_id ≡ some vs.vault_id
  revision : business.revision ≡ vs.version
  id : business.id ≡ env.random d.drawn
  events : before.events ≡ d.events ++ business ∷ []
  jobs : before.jobs ≡ update_where (is_pending_warning d.events vs.vault_id) cancel d.jobs
  told :
      notify_all_release env business (accepted_of vs.vault_id d.beneficiaries) now before
      ≡ ok tt after
  end_events : d'.events ≡ after.events
  end_jobs : d'.jobs ≡ after.jobs

-- The row that `event` writes.
record Emitted (env : Env) (v : Option ℕ) (k : EventKind) (n : ℕ) (b : BusinessEvent) (d d' : Db)
    : Type 0 where
  kind : b.kind ≡ k
  vault : b.vault_id ≡ v
  revision : b.revision ≡ n
  id : b.id ≡ env.random d.drawn
  events : d'.events ≡ d.events ++ b ∷ []
  jobs : d'.jobs ≡ d.jobs
  people : d'.beneficiaries ≡ d.beneficiaries

event-Emitted :
    (env : Env) (v : Option ℕ) (kind : EventKind) (revision : ℕ) (b : BusinessEvent) (d d' : Db)
    → event env v kind revision d ≡ ok b d'
    → Emitted env v kind revision b d d'
unfolding event
event-Emitted env v kind revision b d d' h = record {
  kind = ground arith;
  vault = ground arith;
  revision = ground arith;
  id = ground arith;
  events = ground arith;
  jobs = ground arith;
  people = ground arith;
}

stage_notices-Staged :
    (env : Env) (vs : VaultStatus) (now : ℕ) (actor : Actor) (d d' : Db)
    → stage_notices env vs now actor d ≡ ok tt d'
    → Staged env vs now d d'
unfolding stage_notices cancel_warnings record_audit ◌>>=◌
stage_notices-Staged env vs now actor d d' h =
    let (b, e, emit, rest) =
      and_then-eq-ok (event env (some vs.vault_id) released vs.version _) _ tt d' h in
    let (u, f, told, last) = and_then-eq-ok (notify_all_release env b _ now e) _ tt d' rest in
    let row = event-Emitted env (some vs.vault_id) released vs.version b _ e emit in
    record {
      business = b;
      before = e;
      after = f;
      kind = row.kind;
      vault = row.vault;
      revision = row.revision;
      id = row.id;
      events = row.events;
      jobs = row.jobs;
      told = simp (sym row.people) told;
      end_events = ground arith;
      end_jobs = ground arith;
    }

-- The new event of a release and the notices that are ready for it.
pub record Told (env : Env) (vs : VaultStatus) (d d' : Db) : Type 0 where
  pub business : BusinessEvent
  pub kind : business.kind ≡ released
  pub vault : business.vault_id ≡ some vs.vault_id
  pub revision : business.revision ≡ vs.version
  pub events : d'.events ≡ d.events ++ business ∷ []
  pub notices :
      All
        (λ ben. exists (is_notice business ben) d'.jobs ≡ true)
        (accepted_of vs.vault_id d.beneficiaries)

-- The step of `release_locked` that stages the notices.
release_locked-notices :
    (env : Env) (vs vs' : VaultStatus) (reason : Reason) (now : ℕ) (actor : Actor) (d d' : Db)
    → release_locked env vs reason now actor d ≡ ok (vs', false) d'
    → stage_notices env vs now actor (save_status (released_status vs reason now) d) ≡ ok tt d'
unfolding release_locked require_release_ready stage_release ◌>>=◌
release_locked-notices env vs vs' reason now actor d d' h = ground arith

-- A release adds one event, of kind `released` with the vault and the row's version, and at its end
-- there is a ready email job of that event for every accepted beneficiary of the vault, under the
-- beneficiary's contact revision.
pub release_tells_everyone :
    (env : Env) (vs vs' : VaultStatus) (reason : Reason) (now : ℕ) (actor : Actor) (d d' : Db)
    → release_locked env vs reason now actor d ≡ ok (vs', false) d'
    → Told env vs d d'
release_tells_everyone env vs vs' reason now actor d d' h =
    let saved = save_status (released_status vs reason now) d in
    let s =
      stage_notices-Staged env vs now actor saved d'
        (release_locked-notices env vs vs' reason now actor d d' h) in
    let sent =
      notify_all_release-notices env s.business (accepted_of vs.vault_id d.beneficiaries) now
        s.before s.after s.told in
    let adds =
      (notify_all_release-adds env s.business (accepted_of vs.vault_id d.beneficiaries) now).at
        s.before s.after tt s.told in
    record {
      business = s.business;
      kind = s.kind;
      vault = s.vault;
      revision = s.revision;
      events = s.end_events ∙ (adds.events ∙ s.events);
      notices = simp (s.end_jobs) sent;
    }

-- If no event has the id that the release draws for its own, no grace warning of the vault is pending
-- after the release.
pub release_cancels_warnings :
    (env : Env) (vs vs' : VaultStatus) (reason : Reason) (now : ℕ) (actor : Actor) (d d' : Db)
    → exists (λ (e : BusinessEvent). e.id == env.random d.drawn) d.events ≡ false
    → release_locked env vs reason now actor d ≡ ok (vs', false) d'
    → exists (is_pending_warning d'.events vs.vault_id) d'.jobs ≡ false
release_cancels_warnings env vs vs' reason now actor d d' fresh h =
    let saved = save_status (released_status vs reason now) d in
    let s =
      stage_notices-Staged env vs now actor saved d'
        (release_locked-notices env vs vs' reason now actor d d' h) in
    let adds =
      (notify_all_release-adds env s.business (accepted_of vs.vault_id d.beneficiaries) now).at
        s.before s.after tt s.told in
    let old = is_pending_warning d.events vs.vault_id in
    let gone : exists old s.after.jobs ≡ false =
      adds.adds old
        (λ j e.
          ap (λ w. w && is_pending j.state)
            (unwarned d.events vs.vault_id (env.random d.drawn) j fresh (e ∙ s.id)))
        (ap (exists old) s.jobs ∙ cancelled d.events vs.vault_id d.jobs) in
    let all : d'.events ≡ d.events ++ s.business ∷ [] = s.end_events ∙ (adds.events ∙ s.events) in
    ap (λ es. exists (is_pending_warning es vs.vault_id) d'.jobs) all
    ∙ (ap (exists (is_pending_warning (d.events ++ s.business ∷ []) vs.vault_id)) s.end_jobs
        ∙ (exists-ext _ old s.after.jobs (λ j.
              ap (λ w. w && is_pending j.state)
                (is_warning-append d.events s.business vs.vault_id j (ap is_grace s.kind)))
            ∙ gone))
