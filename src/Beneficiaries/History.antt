-- ===== src/Beneficiaries/History.antt =====
-- Histories of the owner's routes on beneficiaries, of any owners and at any times.
use legacylock.Prelude.{ℕ, ◌≡◌}
use legacylock.Models.{Db}
use legacylock.Env.{Env}
use legacylock.Outcome.{ok}
use legacylock.Beneficiaries.{
  BeneficiaryCreate, BeneficiaryUpdate, add_beneficiary, invite_beneficiary, update_beneficiary,
  assign_share, delete_beneficiary,
}
use legacylock.Beneficiaries.Shares.{AreApart}
use legacylock.Beneficiaries.Routes.{
  add_beneficiary-apart, invite_beneficiary-apart, update_beneficiary-apart, assign_share-apart,
  delete_beneficiary-apart,
}

-- One committed route.
data OwnerStep (env : Env) (d d' : Db) : Type 0 where
  adds :
      (input : BeneficiaryCreate) (user now id : ℕ)
      → add_beneficiary env input user now d ≡ ok id d'
      → OwnerStep env d d'
  invites :
      (id user now raw : ℕ) → invite_beneficiary env id user now d ≡ ok raw d' → OwnerStep env d d'
  updates :
      (id : ℕ) (input : BeneficiaryUpdate) (user now : ℕ)
      → update_beneficiary env id input user now d ≡ ok tt d'
      → OwnerStep env d d'
  assigns : (id i user now : ℕ) → assign_share id i user now d ≡ ok tt d' → OwnerStep env d d'
  deletes : (id user now : ℕ) → delete_beneficiary id user now d ≡ ok tt d' → OwnerStep env d d'

data OwnerHistory (env : Env) (d : Db) : Db → Type 0 where
  start : OwnerHistory env d d
  next : {e f : Db} → OwnerHistory env d e → OwnerStep env e f → OwnerHistory env d f

OwnerStep-apart :
    (env : Env) (d d' : Db)
    → OwnerStep env d d'
    → AreApart d.beneficiaries
    → AreApart d'.beneficiaries
OwnerStep-apart env d d' (adds input user now id h) =
    ((add_beneficiary-apart env input user now).at d d' id h).apart
OwnerStep-apart env d d' (invites id user now raw h) =
    ((invite_beneficiary-apart env id user now).at d d' raw h).apart
OwnerStep-apart env d d' (updates id input user now h) =
    ((update_beneficiary-apart env id input user now).at d d' tt h).apart
OwnerStep-apart env d d' (assigns id i user now h) =
    ((assign_share-apart id i user now).at d d' tt h).apart
OwnerStep-apart env d d' (deletes id user now h) =
    ((delete_beneficiary-apart id user now).at d d' tt h).apart

-- Through every history of the owner's routes the beneficiary rows stay apart: if they were at its
-- start, then at its end no two rows have the same id, no two rows of one vault the same address or
-- share index, and no two rows the same invitation hash.
rows_stay_apart :
    (env : Env) (d e : Db)
    → OwnerHistory env d e
    → AreApart d.beneficiaries
    → AreApart e.beneficiaries
rows_stay_apart env d e start apart = apart
rows_stay_apart env d e (next {e = c} history step) apart =
    OwnerStep-apart env c e step (rows_stay_apart env d c history apart)
