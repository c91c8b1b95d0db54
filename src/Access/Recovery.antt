-- ===== src/Access/Recovery.antt =====
-- What a beneficiary reads of a vault: nothing before the release, and the owner's messages after it.
use mathlib.Core.Path.{subst}
use legacylock.Prelude.{
  ℕ, ◌==◌, ◌≡◌, refl, sym, ap, ◌∙◌, true, some, first, first-passes, inl, inr, Bool-cases,
  Option-cases, ==→≡, arith,
}
use legacylock.Lifecycle.{VaultState, active, grace, triggered, same_state}
use legacylock.Models.{Db, Vault, VaultStatus, Beneficiary, VaultMessage}
use legacylock.Outcome.{ok, ◌>>=◌, and_then-eq-ok}
use legacylock.Trigger.{status_of}
use legacylock.Messages.{
  MessageDetail, message_of, get_message, read_metadata, read_tags, are_texts, detail,
  load_in_vault,
}
use legacylock.Access.{
  RecoveryMessage, vault_of, require_triggered, recovery_detail, get_recovery_message,
}

-- The vault's row says that it is released.
pub record IsReleased (vault_id : ℕ) (d : Db) : Type 0 where
  pub status : VaultStatus
  pub has_status : status_of vault_id d ≡ some status
  pub is_triggered : status.state ≡ triggered

-- What a beneficiary sees of a detail that the owner sees.
unfoldable pub without_tags : MessageDetail → RecoveryMessage
without_tags x = record {
  id = x.id;
  label = x.label;
  ciphertext = x.ciphertext;
  wrapped_mek = x.wrapped_mek;
  crypto_metadata = x.crypto_metadata;
  crypto_version = x.crypto_version;
  category = x.category;
  created_at = x.created_at;
}

vault_row-id :
    (ben : Beneficiary) (vault : Vault) (d : Db)
    → first (λ (v : Vault). v.id == ben.vault_id) d.vaults ≡ some vault
    → vault.id ≡ ben.vault_id
vault_row-id ben vault d there =
    ==→≡ vault.id ben.vault_id
      (first-passes (λ (v : Vault). v.id == ben.vault_id) d.vaults vault there)

state-triggered : (s : VaultState) → same_state s triggered ≡ true → s ≡ triggered
state-triggered active h = absurd (ground arith)
state-triggered grace h = absurd (ground arith)
state-triggered triggered h = refl

require-IsReleased :
    (vault_id : ℕ) (d d' : Db)
    → require_triggered vault_id d ≡ ok tt d'
    → IsReleased vault_id d × (d' ≡ d)
unfolding require_triggered ◌>>=◌
require-IsReleased vault_id d d' h = elim (Option-cases (status_of vault_id d)) [
  | inl gone ↦ absurd (ground arith)
  | inr (vs, there) ↦ elim (Bool-cases (same_state vs.state triggered)) [
    | inl e ↦ (
      record { status = vs; has_status = there; is_triggered = state-triggered vs.state e },
      ground arith,
    )
    | inr e ↦ absurd (ground arith)
  ]
]

released-required :
    (vault_id : ℕ) (d : Db) → IsReleased vault_id d → require_triggered vault_id d ≡ ok tt d
unfolding require_triggered ◌>>=◌
released-required vault_id d r =
    let there : status_of vault_id d ≡ some r.status = r.has_status in
    let state : r.status.state ≡ triggered = r.is_triggered in ground arith

detail-recovery :
    (m : VaultMessage) (x : MessageDetail) (d d' : Db)
    → detail m d ≡ ok x d'
    → recovery_detail m d ≡ ok (without_tags x) d'
unfolding detail recovery_detail without_tags ◌>>=◌
detail-recovery m x d d' h =
    let (ms, e, h1, r1) = and_then-eq-ok (read_metadata m.crypto_metadata d) _ x d' h in
    elim (Bool-cases (are_texts (read_tags m.coverage_tags))) [
      | inl good ↦ simp h1 (ground arith)
      | inr bad ↦ absurd (ground arith)
    ]

at_vault :
    (ben : Beneficiary) (vault : Vault) (id : ℕ) (r : RecoveryMessage) (d : Db)
    → first (λ (v : Vault). v.id == ben.vault_id) d.vaults ≡ some vault
    → require_triggered vault.id d ≡ ok tt d
    → (get_message vault.id id >>= recovery_detail) d ≡ ok r d
    → get_recovery_message ben id d ≡ ok r d
unfolding get_recovery_message vault_of ◌>>=◌
at_vault ben vault id r d there released shown = simp there (simp released shown)

load-recovery :
    (v id : ℕ) (x : MessageDetail) (d : Db)
    → load_in_vault v id d ≡ ok x d
    → (get_message v id >>= recovery_detail) d ≡ ok (without_tags x) d
unfolding load_in_vault ◌>>=◌
load-recovery v id x d h =
    let (m, e, h1, r1) = and_then-eq-ok (get_message v id d) _ x d h in
    simp h1 (detail-recovery m x e d r1)

-- After the release a beneficiary reads what the owner reads: when the vault of the beneficiary's row
-- is stored and triggered, and the owner's read of a message of that vault shows a detail, then
-- `get_recovery_message` shows the same, but for the tags.
pub recovery_mirrors_load :
    (ben : Beneficiary) (vault : Vault) (id : ℕ) (x : MessageDetail) (d : Db)
    → first (λ (v : Vault). v.id == ben.vault_id) d.vaults ≡ some vault
    → IsReleased ben.vault_id d
    → load_in_vault ben.vault_id id d ≡ ok x d
    → get_recovery_message ben id d ≡ ok (without_tags x) d
recovery_mirrors_load ben vault id x d there released loaded =
    let same : vault.id ≡ ben.vault_id = vault_row-id ben vault d there in
    at_vault ben vault id (without_tags x) d there
      (subst (λ v. require_triggered v d ≡ ok tt d) (sym same)
        (released-required ben.vault_id d released))
      (load-recovery vault.id id x d (subst (λ v. load_in_vault v id d ≡ ok x d) (sym same) loaded))

got_message :
    (v id : ℕ) (m : VaultMessage) (d d' : Db)
    → get_message v id d ≡ ok m d'
    → (message_of v id d ≡ some m) × (d' ≡ d)
unfolding get_message ◌>>=◌
got_message v id m d d' h = ground arith

in_vault :
    (ben : Beneficiary) (vault : Vault) (id : ℕ) (r : RecoveryMessage) (d d' : Db)
    → vault.id ≡ ben.vault_id
    → (require_triggered vault.id >>= λ _. get_message vault.id id >>= recovery_detail) d ≡ ok r d'
    → IsReleased ben.vault_id d
      × ((m : VaultMessage) × (message_of ben.vault_id id d ≡ some m)
          × (recovery_detail m d ≡ ok r d'))
unfolding ◌>>=◌
in_vault ben vault id r d d' same h =
    let (u, e, h1, h2) = and_then-eq-ok (require_triggered vault.id d) _ r d' h in
    let (m, f, h3, h4) = and_then-eq-ok (get_message vault.id id e) _ r d' h2 in
    let (released, stays) = require-IsReleased vault.id d e h1 in
    let (found, stays2) = got_message vault.id id m e f h3 in
    (
      subst (λ v. IsReleased v d) same released,
      (
        m,
        subst (λ v. message_of v id d ≡ some m) same
            (ap (message_of vault.id id) (sym stays) ∙ found),
        subst (λ x. recovery_detail m x ≡ ok r d') (stays2 ∙ stays) h4,
      ),
    )

-- Before the release a beneficiary reads nothing: whenever `get_recovery_message` succeeds, the vault of
-- the beneficiary's row is triggered, and what is shown is made of the message with that id in that vault.
pub recovery-IsReleased :
    (ben : Beneficiary) (id : ℕ) (r : RecoveryMessage) (d d' : Db)
    → get_recovery_message ben id d ≡ ok r d'
    → IsReleased ben.vault_id d
      × ((m : VaultMessage) × (message_of ben.vault_id id d ≡ some m)
          × (recovery_detail m d ≡ ok r d'))
unfolding get_recovery_message vault_of ◌>>=◌
recovery-IsReleased ben id r d d' h =
    elim (Option-cases (first (λ (v : Vault). v.id == ben.vault_id) d.vaults)) [
      | inl gone ↦ absurd (ground arith)
      | inr (vault, there) ↦
          in_vault ben vault id r d d' (vault_row-id ben vault d there) (ground arith)
    ]
