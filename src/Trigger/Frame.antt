-- ===== src/Trigger/Frame.antt =====
-- Staging notices and warnings changes no table outside of delivery.
use legacylock.Prelude.{ℕ, Option, none, some, List, [], ◌∷◌, String}
use legacylock.Models.{
  Beneficiary, BusinessEvent, EventKind, Vault, VaultStatus, HeartbeatConfig, User,
}
use legacylock.Env.{Env}
use legacylock.Outcome.Frames.{Frames, Frames-bind}
use legacylock.Outbox.Intent.{OnlyDelivers, OnlyDelivers-preorder, delivery_frames}
use legacylock.Trigger.{
  notify_sms, notify_release, notify_all_release, warn_beneficiaries, stage_kind, warn_people,
  warn_found, warn, warn_each, warn_vault, warn_before, stage_warning,
}

module _ (env : Env) (business : BusinessEvent) where
  notify_sms-frame :
      (ben : Beneficiary) (now : ℕ) (phone : Option String)
      → Frames OnlyDelivers (notify_sms env business ben now phone)
  unfolding notify_sms
  notify_sms-frame ben now none = search delivery_frames
  notify_sms-frame ben now (some phone) = search delivery_frames

  notify_release-frame :
      (ben : Beneficiary) (now : ℕ) → Frames OnlyDelivers (notify_release env business ben now)
  unfolding notify_release
  notify_release-frame ben now = search (delivery_frames, notify_sms-frame)

  pub notify_all_release-frame :
      (bens : List Beneficiary) (now : ℕ)
      → Frames OnlyDelivers (notify_all_release env business bens now)
  unfolding notify_all_release
  notify_all_release-frame [] now = search delivery_frames
  notify_all_release-frame (ben ∷ bens) now =
      Frames-bind OnlyDelivers-preorder _ _ (notify_release-frame ben now)
        (λ _. notify_all_release-frame bens now)

  warn_beneficiaries-frame :
      (bens : List Beneficiary) (end now : ℕ)
      → Frames OnlyDelivers (warn_beneficiaries env business bens end now)
  unfolding warn_beneficiaries
  warn_beneficiaries-frame [] end now = search delivery_frames
  warn_beneficiaries-frame (ben ∷ bens) end now =
      Frames-bind OnlyDelivers-preorder _ _ (search delivery_frames)
        (λ _. warn_beneficiaries-frame bens end now)

module _ (env : Env) (vs : VaultStatus) where
  pub warn_people-frame :
      (owner : User) (end now : ℕ) (business : BusinessEvent)
      → Frames OnlyDelivers (warn_people env vs owner end now business)
  unfolding warn_people
  warn_people-frame owner end now business = search (delivery_frames, warn_beneficiaries-frame)

  pub warn_found-frame :
      (found : Option User) (end now : ℕ) (business : BusinessEvent)
      → Frames OnlyDelivers (warn_found env vs found end now business)
  unfolding warn_found
  warn_found-frame found end now business = search (delivery_frames, warn_people-frame)

  stage_kind-frame :
      (owner : Option User) (end now : ℕ) (kind : EventKind)
      → Frames OnlyDelivers (stage_kind env vs owner end now kind)
  unfolding stage_kind
  stage_kind-frame owner end now kind = search (delivery_frames, warn_found-frame)

  pub warn-frame :
      (owner : Option User) (end now : ℕ) (kind : EventKind)
      → Frames OnlyDelivers (warn env vs owner end now kind)
  unfolding warn
  warn-frame owner end now kind = search (delivery_frames, stage_kind-frame)

  pub warn_each-frame :
      (owner : Option User) (end now : ℕ) (kinds : List EventKind)
      → Frames OnlyDelivers (warn_each env vs owner end now kinds)
  unfolding warn_each
  warn_each-frame owner end now [] = search delivery_frames
  warn_each-frame owner end now (kind ∷ kinds) =
      Frames-bind OnlyDelivers-preorder _ _ (warn-frame owner end now kind)
        (λ _. warn_each-frame owner end now kinds)

  warn_vault-frame :
      (cfg : HeartbeatConfig) (end now started : ℕ) (vault : Vault)
      → Frames OnlyDelivers (warn_vault env vs cfg end now started vault)
  unfolding warn_vault
  warn_vault-frame cfg end now started vault = search (delivery_frames, warn_each-frame)

  warn_before-frame :
      (cfg : HeartbeatConfig) (end now : ℕ) → Frames OnlyDelivers (warn_before env vs cfg end now)
  unfolding warn_before
  warn_before-frame cfg end now = search (delivery_frames, warn_vault-frame)

  pub stage_warning-frame :
      (cfg : HeartbeatConfig) (now : ℕ) → Frames OnlyDelivers (stage_warning env vs cfg now)
  unfolding stage_warning
  stage_warning-frame cfg now = search (delivery_frames, warn_before-frame)
