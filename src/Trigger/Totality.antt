-- ===== src/Trigger/Totality.antt =====
-- Staging a release never fails, given a payload key and an event that is not there yet.
use legacylock.Prelude.{
  ℕ, ◌≡◌, refl, true, false, Option, none, some, List, [], ◌∷◌, String, exists, arith,
}
use legacylock.Models.{
  Db, Beneficiary, BusinessEvent, EventKind, VaultStatus, Recipient, Mail, Channel, Actor, released,
}
use legacylock.Env.{Env}
use legacylock.Outcome.{◌>>=◌, ◌>>◌, gets, modify}
use legacylock.Outcome.Totals.{
  is_ok, IsTotal, IsTotal-bind, IsTotal-modify, total_rules, is_ok-bind,
}
use legacylock.Audit.{record_audit}
use legacylock.Outbox.{enqueue, event, is_same_event, cancel_warnings}
use legacylock.Trigger.{notify_sms, notify_release, notify_all_release, stage_notices, accepted_of}

record_audit-IsTotal :
    (v : Option ℕ) (actor : Actor) (kind : String) → IsTotal (record_audit v actor kind)
unfolding record_audit
record_audit-IsTotal v actor kind = IsTotal-modify _

event-is_ok :
    (env : Env) (v : Option ℕ) (kind : EventKind) (revision : ℕ) (d : Db)
    → exists (is_same_event v kind revision) d.events ≡ false
    → is_ok (event env v kind revision d) ≡ true
unfolding event
event-is_ok env v kind revision d fresh = ground arith

module _ (env : Env) (key : ℕ)
    (has_key : env.payload_key env.delivery_payload_key_id ≡ some key) where
  enqueue-IsTotal :
      (business : BusinessEvent) (recipient : Recipient) (mail : Mail) (ben : Option Beneficiary)
      (channel : Channel) (expires : Option ℕ) (now : ℕ)
      → IsTotal (enqueue env business recipient mail ben channel expires now)
  unfolding enqueue
  enqueue-IsTotal business recipient mail ben channel expires now = record {
    at = λ d. ground arith;
  }

  notify_sms-IsTotal :
      (business : BusinessEvent) (ben : Beneficiary) (now : ℕ) (phone : Option String)
      → IsTotal (notify_sms env business ben now phone)
  unfolding notify_sms
  notify_sms-IsTotal business ben now none = search total_rules
  notify_sms-IsTotal business ben now (some phone) = search (total_rules, enqueue-IsTotal)

  notify_release-IsTotal :
      (business : BusinessEvent) (ben : Beneficiary) (now : ℕ)
      → IsTotal (notify_release env business ben now)
  unfolding notify_release
  notify_release-IsTotal business ben now =
      search (total_rules, enqueue-IsTotal, notify_sms-IsTotal)

  notify_all_release-IsTotal :
      (business : BusinessEvent) (bens : List Beneficiary) (now : ℕ)
      → IsTotal (notify_all_release env business bens now)
  unfolding notify_all_release
  notify_all_release-IsTotal business [] now = search total_rules
  notify_all_release-IsTotal business (ben ∷ bens) now =
      IsTotal-bind _ _ (notify_release-IsTotal business ben now)
        (λ _. notify_all_release-IsTotal business bens now)

  pub stage_notices-is_ok :
      (vs : VaultStatus) (now : ℕ) (actor : Actor) (d : Db)
      → exists (is_same_event (some vs.vault_id) released vs.version) d.events ≡ false
      → is_ok (stage_notices env vs now actor d) ≡ true
  unfolding stage_notices cancel_warnings modify
  stage_notices-is_ok vs now actor d fresh =
      is_ok-bind (cancel_warnings vs.vault_id) _ d refl λ u e h.
        let same : e.events ≡ d.events = ground arith in
        is_ok-bind (event env (some vs.vault_id) released vs.version) _ e
          (event-is_ok env (some vs.vault_id) released vs.version e (rw same fresh))
          λ business e' _. (notices business).at e'
    where
      notices :
          (business : BusinessEvent)
          → IsTotal (do
            bens ← gets (λ (db : Db). accepted_of vs.vault_id db.beneficiaries)
            notify_all_release env business bens now
            record_audit (some vs.vault_id) actor "vault.trigger")
      notices business = search (total_rules, notify_all_release-IsTotal, record_audit-IsTotal)
