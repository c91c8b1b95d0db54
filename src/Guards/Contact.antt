-- ===== src/Guards/Contact.antt =====
-- What the owner's changes of a beneficiary mean for the tokens that the beneficiary holds.
use mathlib.Core.Path.{subst}
use legacylock.Prelude.{
  ℕ, ◌==◌, ◌≡◌, refl, Bool, true, false, not, Option, none, some, List, [], ◌∷◌, String, arith,
  lookup, save, lookup-save, filter, first, Option-cases, inl, inr, Bool-cases,
}
use legacylock.Lifecycle.{accepted, same_invitation}
use legacylock.Models.{Db, Vault, Beneficiary, Actor, VaultStatus}
use legacylock.Env.{Env}
use legacylock.Outcome.{ok, ◌>>=◌, and_then-eq-ok}
use legacylock.Audit.{record_audit}
use legacylock.Trigger.{lock_status}
use legacylock.Sessions.{revoke_beneficiary, ben_of}
use legacylock.Beneficiaries.{
  BeneficiaryUpdate, Field, unset, set_to, get_beneficiary, beneficiary_of, new_address,
  change_email, readdressed, with_phone, with_share, new_share, check_share_in_range, check_clash,
  update_row, update_in_vault, delete_in_vault,
}
use legacylock.Beneficiaries.Rows.{check_unique, store_beneficiary, delete_row}
use legacylock.Guards.{beneficiary_for}

-- No row with this id is in a state to be signed in.
unfoldable pub is_out : ℕ → List Beneficiary → Bool
is_out id rows = elim (lookup (λ (b : Beneficiary). b.id) id rows) [
  | none ↦ true
  | some b ↦ not (same_invitation b.invitation_status accepted)
]

lookup-filter :
    (id : ℕ) (rows : List Beneficiary)
    → lookup (λ (b : Beneficiary). b.id) id (filter (λ b. not (b.id == id)) rows) ≡ none
unfolding lookup
lookup-filter id [] = refl
lookup-filter id (x ∷ xs) = elim (Bool-cases (x.id == id)) [
  | inl e ↦ ground (arith, lookup-filter id xs)
  | inr e ↦ ground (arith, lookup-filter id xs)
]

-- A row that is out of its invitation is no one's session.
pub out-no_session :
    (env : Env) (id : ℕ) (jti : Option ℕ) (later : ℕ) (d : Db)
    → is_out id d.beneficiaries ≡ true
    → beneficiary_for env id jti later d ≡ none
unfolding beneficiary_for is_out
out-no_session env id jti later d out = elim (Option-cases (ben_of id d)) [
  | inl none_there ↦ ground arith
  | inr (b, there) ↦ elim (Bool-cases (same_invitation b.invitation_status accepted)) [
    | inl e ↦ absurd (ground arith)
    | inr e ↦ ground arith
  ]
]

saved_out :
    (row : Beneficiary) (rows : List Beneficiary)
    → same_invitation row.invitation_status accepted ≡ false
    → is_out row.id (save (λ (b : Beneficiary). b.id) row rows) ≡ true
unfolding is_out
saved_out row rows out = ground (arith, lookup-save (λ (b : Beneficiary). b.id) row row.id rows)

stored_out :
    (row : Beneficiary) (v : Option ℕ) (actor : Actor) (kind : String) (d d' : Db)
    → same_invitation row.invitation_status accepted ≡ false
    → (store_beneficiary row >>= λ _. record_audit v actor kind) d ≡ ok tt d'
    → is_out row.id d'.beneficiaries ≡ true
unfolding store_beneficiary check_unique record_audit ◌>>=◌
stored_out row v actor kind d d' out h =
    let rows : d'.beneficiaries ≡ save (λ (b : Beneficiary). b.id) row d.beneficiaries =
      ground arith in
    simp rows (saved_out row d.beneficiaries out)

change_email-readdressed :
    (ben changed : Beneficiary) (e : String) (now : ℕ) (d d' : Db)
    → change_email ben (some e) now d ≡ ok changed d'
    → changed ≡ readdressed ben e
unfolding change_email revoke_beneficiary ◌>>=◌
change_email-readdressed ben changed e now d d' h = ground arith

with_share-out :
    (vault : Vault) (i : Field ℕ) (phone : Field String) (ben : Beneficiary) (e : String)
    → (same_invitation
          (with_share vault i (with_phone phone (readdressed ben e))).invitation_status
          accepted
        ≡ false)
      × ((with_share vault i (with_phone phone (readdressed ben e))).id ≡ ben.id)
unfolding with_share
with_share-out vault unset unset ben e = (refl, refl)
with_share-out vault unset (set_to p) ben e = (refl, refl)
with_share-out vault (set_to none) unset ben e = (refl, refl)
with_share-out vault (set_to none) (set_to p) ben e = (refl, refl)
with_share-out vault (set_to (some i)) unset ben e = (refl, refl)
with_share-out vault (set_to (some i)) (set_to p) ben e = (refl, refl)

at_row :
    (vault : Vault) (i : Field ℕ) (phone : Field String) (a b : Beneficiary) (actor : Actor)
    (d d' : Db)
    → a ≡ b
    → (store_beneficiary (with_share vault i (with_phone phone a)) >>= λ _.
          record_audit (some vault.id) actor "beneficiary.update")
        d
      ≡ ok tt d'
    → (store_beneficiary (with_share vault i (with_phone phone b)) >>= λ _.
          record_audit (some vault.id) actor "beneficiary.update")
        d
      ≡ ok tt d'
at_row vault i phone a b actor d d' same h =
    subst
      (λ x.
        (store_beneficiary (with_share vault i (with_phone phone x)) >>= λ _.
        record_audit (some vault.id) actor "beneficiary.update")
          d
        ≡ ok tt d')
      same h

stored_readdressed :
    (vault : Vault) (i : Field ℕ) (phone : Field String) (ben changed : Beneficiary) (e : String)
    (actor : Actor) (d d' : Db)
    → changed ≡ readdressed ben e
    → (store_beneficiary (with_share vault i (with_phone phone changed)) >>= λ _.
          record_audit (some vault.id) actor "beneficiary.update")
        d
      ≡ ok tt d'
    → is_out ben.id d'.beneficiaries ≡ true
stored_readdressed vault i phone ben changed e actor d d' row h =
    let (out, id) = with_share-out vault i phone ben e in
    subst (λ k. is_out k d'.beneficiaries ≡ true) id
      (stored_out (with_share vault i (with_phone phone (readdressed ben e))) (some vault.id) actor
        "beneficiary.update" d d' out
        (at_row vault i phone changed (readdressed ben e) actor d d' row h))

-- The row that the update works on, behind the lock.
got_beneficiary :
    (v id now : ℕ) (vs : VaultStatus) (ben found : Beneficiary) (d d1 d2 : Db)
    → beneficiary_of v id d ≡ some ben
    → lock_status v now d ≡ ok vs d1
    → get_beneficiary v id d1 ≡ ok found d2
    → found ≡ ben
unfolding lock_status get_beneficiary beneficiary_of ◌>>=◌
got_beneficiary v id now vs ben found d d1 d2 there locks gets =
    let rows : d1.beneficiaries ≡ d.beneficiaries = ground arith in ground arith

update_row-out :
    (vault : Vault) (ben : Beneficiary) (e : String) (input : BeneficiaryUpdate) (user now : ℕ)
    (d d' : Db)
    → update_row vault ben (some e) input user now d ≡ ok tt d'
    → is_out ben.id d'.beneficiaries ≡ true
unfolding update_row ◌>>=◌
update_row-out vault ben e input user now d d' h =
    let (changed, d1, first, rest) = and_then-eq-ok (change_email ben (some e) now d) _ tt d' h in
    let row : changed ≡ readdressed ben e = change_email-readdressed ben changed e now d d1 first in
    let (u, d2, ranged, rest2) =
      and_then-eq-ok (check_share_in_range vault (new_share input.share_index) d1) _ tt d' rest in
    let (w, d3, clear, rest3) =
      and_then-eq-ok (check_clash vault.id (some ben.id) (new_share input.share_index) d2) _ tt d'
        rest2 in
    stored_readdressed vault input.share_index input.phone ben changed e (Actor.owner user) d3 d'
      row rest3

at_address :
    (vault : Vault) (ben : Beneficiary) (address : Option String) (e : String)
    (input : BeneficiaryUpdate) (user now : ℕ) (d d' : Db)
    → address ≡ some e
    → update_row vault ben address input user now d ≡ ok tt d'
    → update_row vault ben (some e) input user now d ≡ ok tt d'
at_address vault ben address e input user now d d' same h =
    subst (λ x. update_row vault ben x input user now d ≡ ok tt d') same h

-- A change of a beneficiary's address signs the beneficiary out: when `update_in_vault` succeeds on a
-- row of the vault, and the request's address is a new one, then afterwards, and at whatever time, no
-- access token's claims make a request one of this beneficiary.
pub new_address-signed_out :
    (env : Env) (vault : Vault) (ben : Beneficiary) (input : BeneficiaryUpdate) (user now : ℕ)
    (e : String) (d d' : Db)
    → beneficiary_of vault.id ben.id d ≡ some ben
    → new_address env ben input.email ≡ some e
    → update_in_vault env vault ben.id input user now d ≡ ok tt d'
    → (jti : Option ℕ) (later : ℕ) → beneficiary_for env ben.id jti later d' ≡ none
unfolding update_in_vault ◌>>=◌
new_address-signed_out env vault ben input user now e d d' there change h jti later =
    let (vs, d1, locks, rest) = and_then-eq-ok (lock_status vault.id now d) _ tt d' h in
    let (found, d2, gets, rest2) =
      and_then-eq-ok (get_beneficiary vault.id ben.id d1) _ tt d' rest in
    let same : found ≡ ben =
      got_beneficiary vault.id ben.id now vs ben found d d1 d2 there locks gets in
    let out : is_out ben.id d'.beneficiaries ≡ true =
      update_row-out vault ben e input user now d2 d' (
        at_address vault ben (new_address env ben input.email) e input user now d2 d' change (
          subst
            (λ b. update_row vault b (new_address env b input.email) input user now d2 ≡ ok tt d')
            same rest2)) in
    out-no_session env ben.id jti later d' out

filtered_out :
    (id : ℕ) (rows : List Beneficiary) → is_out id (filter (λ b. not (b.id == id)) rows) ≡ true
unfolding is_out
filtered_out id rows = ground (arith, lookup-filter id rows)

deleted_out : (id : ℕ) (d d' : Db) → delete_row id d ≡ ok tt d' → is_out id d'.beneficiaries ≡ true
unfolding delete_row ◌>>=◌
deleted_out id d d' h =
    let rows : record d { beneficiaries = filter (λ b. not (b.id == id)) d.beneficiaries } ≡ d' =
      cc in
    subst (λ (e : Db). is_out id e.beneficiaries ≡ true) rows (filtered_out id d.beneficiaries)

-- Deleting a beneficiary signs it out: after `delete_in_vault` succeeds on a row of the vault, and at
-- whatever time, no access token's claims make a request one of this beneficiary.
delete-signed_out :
    (env : Env) (vault : Vault) (ben : Beneficiary) (user now : ℕ) (d d' : Db)
    → beneficiary_of vault.id ben.id d ≡ some ben
    → delete_in_vault vault ben.id user now d ≡ ok tt d'
    → (jti : Option ℕ) (later : ℕ) → beneficiary_for env ben.id jti later d' ≡ none
unfolding delete_in_vault ◌>>=◌
delete-signed_out env vault ben user now d d' there h jti later =
    let (vs, d1, locks, rest) = and_then-eq-ok (lock_status vault.id now d) _ tt d' h in
    let (found, d2, gets, rest2) =
      and_then-eq-ok (get_beneficiary vault.id ben.id d1) _ tt d' rest in
    let same : found ≡ ben =
      got_beneficiary vault.id ben.id now vs ben found d d1 d2 there locks gets in
    let (u, d3, revoked, rest3) =
      and_then-eq-ok (revoke_beneficiary found.id now d2) _ tt d' rest2 in
    let (w, d4, recorded, rest4) =
      and_then-eq-ok (record_audit (some vault.id) (Actor.owner user) "beneficiary.delete" d3) _ tt
        d' rest3 in
    out-no_session env ben.id jti later d' (
      subst (λ (b : Beneficiary). is_out b.id d'.beneficiaries ≡ true) same
        (deleted_out found.id d4 d' rest4))
