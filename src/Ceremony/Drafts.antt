-- ===== src/Ceremony/Drafts.antt =====
-- At most one draft of a vault.
use legacylock.Prelude.{
  ℕ, ◌==◌, ◌≡◌, ap, ◌∙◌, Bool, true, false, not, ◌&&◌, [], ◌∷◌, ◌++◌, exists, exists-append,
  update_where, exists-update_where, arith, ==_refl, some,
}
use legacylock.Models.{Db, Vault, RecoveryCeremony, CeremonyStatus}
use legacylock.Env.{Env}
use legacylock.Outcome.{ok, ◌>>=◌, and_then-eq-ok}
use legacylock.Audit.{record_audit}
use legacylock.Heartbeat.{primary_vault}
use legacylock.Ceremony.Bundle.{writable}
use legacylock.Ceremony.{
  DraftIn, create_draft, vault_or_new, check_draft, write_draft, cancel_drafts, next_id,
  add_ceremony, draft_row, is_in, cancelled_row,
}

-- A draft of the vault other than this one.
abbrev pub is_other_draft : ℕ → ℕ → RecoveryCeremony → Bool
is_other_draft vault_id id c = is_in CeremonyStatus.draft vault_id c && not (c.id == id)

-- The writes of a draft.
write_draft_single :
    (vault : Vault) (user id : ℕ) (input : DraftIn) (d d' : Db)
    → write_draft vault user input d ≡ ok id d'
    → (exists (is_other_draft vault.id id) d'.ceremonies ≡ false)
      × (exists (λ c. is_in CeremonyStatus.draft vault.id c && (c.id == id)) d'.ceremonies ≡ true)
unfolding write_draft cancel_drafts next_id add_ceremony record_audit ◌>>=◌
write_draft_single vault user id input d d' h =
    let old = update_where (is_in CeremonyStatus.draft vault.id) cancelled_row d.ceremonies in
    let q = is_other_draft vault.id id in
    let hit : RecoveryCeremony → Bool =
      λ c. is_in CeremonyStatus.draft vault.id c && (c.id == id) in
    let gone =
      exists-update_where (is_in CeremonyStatus.draft vault.id) cancelled_row q d.ceremonies
        (λ c e. ground arith) (λ c e. ground arith) in
    let all : d'.ceremonies ≡ old ++ draft_row d.serial vault.id input ∷ [] = ground arith in
    let same : id ≡ d.serial = ground arith in
    (
      ap (exists q) all
          ∙ (exists-append q old (draft_row d.serial vault.id input ∷ [])
              ∙ ground (arith, gone, same, ==_refl d.serial)),
      ap (exists hit) all
          ∙ (exists-append hit old (draft_row d.serial vault.id input ∷ [])
              ∙ ground (arith, same, ==_refl d.serial, ==_refl vault.id)),
    )

-- After a draft was created, the new ceremony is the only draft of the owner's vault: it is there, and
-- every other draft of the vault was cancelled.
pub create_draft_single :
    (env : Env) (user now id : ℕ) (input : DraftIn) (d d' : Db)
    → create_draft env user input now d ≡ ok id d'
    → (vault : Vault) × (e : Db) × (vault_or_new user now (primary_vault user d) d ≡ ok vault e)
      × (exists (is_other_draft vault.id id) d'.ceremonies ≡ false)
      × (exists (λ c. is_in CeremonyStatus.draft vault.id c && (c.id == id)) d'.ceremonies ≡ true)
unfolding create_draft ◌>>=◌
create_draft_single env user now id input d d' h =
    let (vault, e, has, rest) =
      and_then-eq-ok (vault_or_new user now (primary_vault user d) d) _ id d' h in
    let (u, f, locked, rest') =
      and_then-eq-ok (writable vault (some input.expected_revision) now e) _ id d' rest in
    let (w, g, checked, written) = and_then-eq-ok (check_draft env vault input f) _ id d' rest' in
    let (single, there) = write_draft_single vault user id input g d' written in
    (vault, e, has, single, there)
