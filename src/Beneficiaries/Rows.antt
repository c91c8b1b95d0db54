-- ===== src/Beneficiaries/Rows.antt =====
-- The writes of beneficiary rows, with the unique constraints of backend/models/beneficiary.py.
use legacylock.Prelude.{
  ℕ, ◌==◌, Bool, false, not, ◌&&◌, Option, some, List, [], ◌∷◌, ◌++◌, str_eq, exists, filter, save,
}
use legacylock.Models.{Db, Beneficiary}
use legacylock.Outcome.{Tx, integrity, ◌>>=◌, ◌>>◌, guard, gets, modify}

-- Unset values are not compared by a unique index.
abbrev pub both_equal : Option ℕ → Option ℕ → Bool
both_equal (some a) (some b) = a == b
both_equal _ _ = false

abbrev pub same_address : Beneficiary → Beneficiary → Bool
same_address a b = (a.vault_id == b.vault_id) && str_eq a.email b.email

abbrev pub same_share : Beneficiary → Beneficiary → Bool
same_share a b = (a.vault_id == b.vault_id) && both_equal a.share_index b.share_index

abbrev pub same_hash : Beneficiary → Beneficiary → Bool
same_hash a b = both_equal a.invitation_hash b.invitation_hash

-- `uq_beneficiary_vault_email`, `uq_beneficiary_vault_share` and the unique invitation hash, for a row
-- that is written beside these.
unfoldable pub check_unique : Beneficiary → List Beneficiary → Tx Db (Unit {0})
check_unique row others = do
  guard (not (exists (same_address row) others)) integrity
  guard (not (exists (same_share row) others)) integrity
  guard (not (exists (same_hash row) others)) integrity

unfoldable pub insert_beneficiary : Beneficiary → Tx Db (Unit {0})
insert_beneficiary row = do
  rows ← gets (λ db. db.beneficiaries)
  guard (not (exists (λ (b : Beneficiary). b.id == row.id) rows)) integrity
  check_unique row rows
  modify (λ db. record db { beneficiaries = db.beneficiaries ++ row ∷ [] })

-- The update of a row that is there.
unfoldable pub store_beneficiary : Beneficiary → Tx Db (Unit {0})
store_beneficiary row = do
  rows ← gets (λ db. db.beneficiaries)
  check_unique row (filter (λ (b : Beneficiary). not (b.id == row.id)) rows)
  modify (λ db. record db { beneficiaries = save (λ (b : Beneficiary). b.id) row db.beneficiaries })

unfoldable pub delete_row : ℕ → Tx Db (Unit {0})
delete_row id =
    modify λ db. record db { beneficiaries = filter (λ b. not (b.id == id)) db.beneficiaries }
