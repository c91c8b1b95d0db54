-- ===== src/Outbox/Intent.antt =====
-- What staging delivery intent leaves alone: every table but the events, jobs and audit rows.
use legacylock.Prelude.{
  exists-append, ℕ, ◌≡◌, refl, ap, ◌∙◌, Bool, true, Option, [], ◌∷◌, exists, String, arith,
}
use legacylock.Models.{Db, BusinessEvent, EventKind, Recipient, Mail, Beneficiary, Channel, Actor}
use legacylock.Env.{Env}
use legacylock.Outcome.Frames.{Frames, IsPreorder, Frames-modify, frame_rules}
use legacylock.Audit.{record_audit}
use legacylock.Outbox.{event, enqueue, cancel_recipient, cancel_warnings}

-- The database with the delivery tables, the audit rows and the random source of another.
abbrev pub with_delivery : Db → Db → Db
with_delivery d e = record d {
  events = e.events;
  jobs = e.jobs;
  attempts = e.attempts;
  audits = e.audits;
  drawn = e.drawn;
}

-- The tables outside of delivery are the same, and no business event is lost.
pub record OnlyDelivers (d d' : Db) : Type 0 where
  pub tables : d' ≡ with_delivery d d'
  pub events : (p : BusinessEvent → Bool) → exists p d.events ≡ true → exists p d'.events ≡ true

OnlyDelivers-trans : (d e f : Db) → OnlyDelivers d e → OnlyDelivers e f → OnlyDelivers d f
OnlyDelivers-trans d e f r s = record {
  tables = s.tables ∙ ap (λ x. with_delivery x f) r.tables;
  events = λ p h. s.events p (r.events p h);
}

pub OnlyDelivers-preorder : IsPreorder OnlyDelivers
OnlyDelivers-preorder = record {
  reflexive = λ d. record { tables = refl; events = λ p h. h };
  transitive = OnlyDelivers-trans;
}

pub record_audit-frame :
    (vault_id : Option ℕ) (actor : Actor) (event_type : String)
    → Frames OnlyDelivers (record_audit vault_id actor event_type)
unfolding record_audit
record_audit-frame vault_id actor event_type =
    Frames-modify OnlyDelivers-preorder _ (λ d. record { tables = refl; events = λ p h. h })

pub cancel_recipient-frame : (id : ℕ) → Frames OnlyDelivers (cancel_recipient id)
unfolding cancel_recipient
cancel_recipient-frame id =
    Frames-modify OnlyDelivers-preorder _ (λ d. record { tables = refl; events = λ p h. h })

pub cancel_warnings-frame : (id : ℕ) → Frames OnlyDelivers (cancel_warnings id)
unfolding cancel_warnings
cancel_warnings-frame id =
    Frames-modify OnlyDelivers-preorder _ (λ d. record { tables = refl; events = λ p h. h })

pub event-frame :
    (env : Env) (vault_id : Option ℕ) (kind : EventKind) (revision : ℕ)
    → Frames OnlyDelivers (event env vault_id kind revision)
unfolding event
event-frame env vault_id kind revision = record {
  at = λ d d' a h. record {
    tables = ground arith;
    events = λ p k. ground (arith, exists-append p d.events (a ∷ []));
  };
}

pub enqueue-frame :
    (env : Env) (business : BusinessEvent) (recipient : Recipient) (mail : Mail)
    (ben : Option Beneficiary) (channel : Channel) (expires : Option ℕ) (now : ℕ)
    → Frames OnlyDelivers (enqueue env business recipient mail ben channel expires now)
unfolding enqueue
enqueue-frame env business recipient mail ben channel expires now = record {
  at = λ d d' a h. record { tables = ground arith; events = λ p k. ground arith };
}

pub ruleset delivery_frames = (
  frame_rules, OnlyDelivers-preorder, record_audit-frame, cancel_recipient-frame,
  cancel_warnings-frame, event-frame, enqueue-frame,
)
