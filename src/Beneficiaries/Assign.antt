-- ===== src/Beneficiaries/Assign.antt =====
-- Every answer of POST /beneficiaries/{id}/assign-share, `assign_share` of
-- backend/routers/beneficiaries.py.
use legacylock.Prelude.{ℕ, ◌≡◌, true, false, none, some, exists, save}
use legacylock.Models.{Db, Vault, Beneficiary}
use legacylock.Outcome.{Outcome, ok, err, http}
use legacylock.Heartbeat.{primary_vault}
use legacylock.Beneficiaries.{
  is_valid_index, in_range, has_share, beneficiary_of, with_share, set_to,
}
use legacylock.Beneficiaries.Shares.{AreApart}

-- The row with its new share.
abbrev pub shared : Vault → ℕ → Beneficiary → Beneficiary
shared vault i ben = with_share vault (set_to (some i)) ben

-- How `assign_share` of the index `i` to the row `id` can end.
pub data ShareAnswer (id i user : ℕ) (d : Db) (r : Outcome Db (Unit {0})) : Type 0 where
  bad_index : is_valid_index (some i) ≡ false → r ≡ err (http 422) → ShareAnswer id i user d r
  no_vault : primary_vault user d ≡ none → r ≡ err (http 404) → ShareAnswer id i user d r
  out_of_policy :
      (vault : Vault)
      → primary_vault user d ≡ some vault
      → in_range vault i ≡ false
      → r ≡ err (http 422)
      → ShareAnswer id i user d r
  no_row :
      (vault : Vault)
      → primary_vault user d ≡ some vault
      → beneficiary_of vault.id id d ≡ none
      → r ≡ err (http 404)
      → ShareAnswer id i user d r
  taken :
      (vault : Vault) (ben : Beneficiary)
      → primary_vault user d ≡ some vault
      → beneficiary_of vault.id id d ≡ some ben
      → exists (has_share vault.id (some ben.id) i) d.beneficiaries ≡ true
      → r ≡ err (http 409)
      → ShareAnswer id i user d r
  assigned :
      (vault : Vault) (ben : Beneficiary) (d' : Db)
      → primary_vault user d ≡ some vault
      → in_range vault i ≡ true
      → beneficiary_of vault.id id d ≡ some ben
      → exists (has_share vault.id (some ben.id) i) d.beneficiaries ≡ false
      → r ≡ ok tt d'
      → d'.beneficiaries ≡ save (λ (b : Beneficiary). b.id) (shared vault i ben) d.beneficiaries
      → AreApart d'.beneficiaries
      → ShareAnswer id i user d r
