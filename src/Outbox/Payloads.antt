-- ===== src/Outbox/Payloads.antt =====
-- `context`, `protect` and `unprotect` of backend/services/outbox.py. The cipher is AES-GCM of the
-- `cryptography` package, a parameter; base64 and the split at the colon are kept as a record.
use legacylock.Prelude.{ℕ, ◌≡◌, ◌≢◌, inl, inr, Option, none, some, String, arith, Option-cases}
use legacylock.Models.{DeliveryJob, Mail, Context, Payload}
use legacylock.Env.{Env}

unfoldable pub context : DeliveryJob → String → Context
context job key_id = record {
  key_id = key_id;
  job = job.id;
  event = job.event_id;
  recipient = job.recipient;
  contact_revision = job.contact_revision;
}

-- `none` where `payload_key` raises.
unfoldable pub protect : Env → ℕ → DeliveryJob → Mail → Option Payload
unfolding context
protect env nonce job mail = elim (env.payload_key env.delivery_payload_key_id) [
  | none ↦ none
  | some key ↦ some (record {
    key_id = env.delivery_payload_key_id;
    nonce = nonce;
    cipher = env.encrypt key nonce mail (context job env.delivery_payload_key_id);
  })
]

unprotect_with : Env → DeliveryJob → Payload → Option Mail
unfolding context
unprotect_with env job sealed = elim (env.payload_key sealed.key_id) [
  | none ↦ none
  | some key ↦ env.decrypt key sealed.nonce sealed.cipher (context job sealed.key_id)
]

-- `none` where it raises: no payload, an unknown key, or a failed authentication.
unfoldable pub unprotect : Env → DeliveryJob → Option Mail
unfolding unprotect_with
unprotect env job = elim job.payload [ none ↦ none | some sealed ↦ unprotect_with env job sealed ]

-- What AES-GCM promises: a cipher text decrypts under the key, nonce and context that it was made
-- with, and under no other context.
pub record IsAead (env : Env) : Type 0 where
  pub opens :
      (key nonce : ℕ) (mail : Mail) (c : Context)
      → env.decrypt key nonce (env.encrypt key nonce mail c) c ≡ some mail
  pub rejects :
      (key nonce : ℕ) (mail : Mail) (c d : Context)
      → c ≢ d
      → env.decrypt key nonce (env.encrypt key nonce mail c) d ≡ none

-- A payload that was sealed for a job is read back from every later state of that job which keeps
-- its id, event, recipient and contact revision.
pub unprotect-protect :
    (env : Env) (nonce : ℕ) (job later : DeliveryJob) (mail : Mail) (sealed : Payload)
    → IsAead env
    → protect env nonce job mail ≡ some sealed
    → context later env.delivery_payload_key_id ≡ context job env.delivery_payload_key_id
    → later.payload ≡ some sealed
    → unprotect env later ≡ some mail
unfolding protect unprotect
unprotect-protect env nonce job later mail sealed aead p same held =
    elim (Option-cases (env.payload_key env.delivery_payload_key_id)) [
      | inl missing ↦ ground arith
      | inr (key, found) ↦
          ground (arith, aead.opens key nonce mail (context job env.delivery_payload_key_id))
    ]

-- A payload that was moved to a job with another id, event, recipient or contact revision is not
-- readable there.
pub unprotect_moved :
    (env : Env) (nonce : ℕ) (job later : DeliveryJob) (mail : Mail) (sealed : Payload)
    → IsAead env
    → protect env nonce job mail ≡ some sealed
    → context job env.delivery_payload_key_id ≢ context later env.delivery_payload_key_id
    → later.payload ≡ some sealed
    → unprotect env later ≡ none
unfolding protect unprotect
unprotect_moved env nonce job later mail sealed aead p moved held =
    elim (Option-cases (env.payload_key env.delivery_payload_key_id)) [
      | inl missing ↦ ground arith
      | inr (key, found) ↦ ground (
        arith,
        aead.rejects key nonce mail (context job env.delivery_payload_key_id)
            (context later env.delivery_payload_key_id) moved,
      )
    ]
