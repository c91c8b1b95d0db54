-- ===== src/Readiness/Gate.antt =====
-- `release_ready`: what a vault without assignments, or with a stale drill, lacks.
use legacylock.Prelude.{
  ℕ, ◌+◌, ◌≡◌, refl, ap, inl, inr, true, false, Option, none, some, List, [], ◌∷◌, String, filter,
  All, arith, Bool-cases, Option-cases, leb, length, ◌==◌, ==→≡,
}
use legacylock.Models.{
  Db, Vault, Beneficiary, RecoveryCeremony, Drill, DrillText, unreadable, not_object, object,
}
use legacylock.Env.{Env}
use legacylock.Readiness.{
  insert_by_id, order_by_id, eligible_indexes, rows_of, assignment_signature, current_ceremony,
  drill_of, current_drill, release_ready,
}

insert_by_id-All {κ} :
    (P : Beneficiary → Type κ) (b : Beneficiary) (bs : List Beneficiary)
    → P b
    → All P bs
    → All P (insert_by_id b bs)
unfolding insert_by_id
insert_by_id-All P b [] h hs = (h, tt)
insert_by_id-All P b (c ∷ cs) h hs = elim (Bool-cases (leb b.id c.id)) [
  | inl e ↦ rw e (h, hs)
  | inr e ↦ rw e (hs.0, insert_by_id-All P b cs h hs.1)
]

order_by_id-All {κ} :
    (P : Beneficiary → Type κ) (bs : List Beneficiary) → All P bs → All P (order_by_id bs)
unfolding order_by_id
order_by_id-All P [] hs = tt
order_by_id-All P (b ∷ bs) hs =
    insert_by_id-All P b (order_by_id bs) hs.0 (order_by_id-All P bs hs.1)

eligible_indexes-none :
    (vault : Vault) (g : String) (bs : List Beneficiary)
    → vault.recovery_generation ≡ some g
    → All (λ b. b.ceremony_generation ≡ none) bs
    → eligible_indexes vault bs ≡ []
unfolding eligible_indexes
eligible_indexes-none vault g [] same all = refl
eligible_indexes-none vault g (b ∷ bs) same all =
    ground (arith, eligible_indexes-none vault g bs same all.1, all.0)

-- A vault none of whose beneficiaries has a generation is not ready.
pub release_ready-unassigned :
    (env : Env) (d : Db) (vault : Vault) (g : String)
    → vault.recovery_generation ≡ some g
    → All (λ b. b.ceremony_generation ≡ none) (filter (λ b. b.vault_id == vault.id) d.beneficiaries)
    → release_ready env d vault ≡ false
unfolding release_ready assignment_signature rows_of
release_ready-unassigned env d vault g same all =
    let rows = filter (λ (b : Beneficiary). b.vault_id == vault.id) d.beneficiaries in
    let none_left = ap length (
      eligible_indexes-none vault g (order_by_id rows) same
        (order_by_id-All (λ b. b.ceremony_generation ≡ none) rows all)) in
    ground (arith, none_left)

pub drill_of-revision :
    (vault : Vault) (c : RecoveryCeremony) (signature : ℕ) (text : Option DrillText) (drill : Drill)
    → drill_of vault c signature text ≡ some drill
    → c.expected_revision + 1 ≡ vault.material_revision
unfolding drill_of
drill_of-revision vault c signature none drill h = absurd (ground arith)
drill_of-revision vault c signature (some unreadable) drill h = absurd (ground arith)
drill_of-revision vault c signature (some not_object) drill h = absurd (ground arith)
drill_of-revision vault c signature (some (object o)) drill h =
    ==→≡ (c.expected_revision + 1) vault.material_revision (ground arith)

-- A ready vault has a current ceremony whose material revision came just before the vault's.
pub release_ready-revision :
    (env : Env) (d : Db) (vault : Vault)
    → release_ready env d vault ≡ true
    → (c : RecoveryCeremony) × (current_ceremony d vault ≡ some c)
      × (c.expected_revision + 1 ≡ vault.material_revision)
unfolding release_ready current_drill
release_ready-revision env d vault h = elim (Option-cases (current_ceremony d vault)) [
  | inl e ↦ absurd (ground arith)
  | inr (c, e) ↦
      (let signature = (assignment_signature env d vault).0 in
        elim (Option-cases (drill_of vault c signature c.drill_data)) [
          | inl f ↦ absurd (ground arith)
          | inr (drill, f) ↦ (c, e, drill_of-revision vault c signature c.drill_data drill f)
        ])
]
