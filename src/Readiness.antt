-- ===== src/Readiness.antt =====
-- backend/services/recovery_readiness.py and the drill report of backend/routers/readiness.py: when
-- a vault may be released.
pub mod Gate
pub mod Drills
use legacylock.Prelude.{
  ℕ, ◌+◌, Bool, true, false, not, ◌&&◌, ◌||◌, Option, none, some, List, [], ◌∷◌, map, String,
  str_eq, ◌==◌, leb, length, filter, exists, first, opt_eq, opt_str_eq, is_some, if◌then◌else◌,
  lookup, save, update_where,
}
use legacylock.Lifecycle.{accepted, same_invitation}
use legacylock.Models.{
  Db, Vault, Beneficiary, RecoveryCeremony, Drill, DrillText, CeremonyStatus, unreadable,
  not_object, object, finalized, same_ceremony_status, RecoveryStatus, same_recovery_status, truthy,
  VaultStatus, AuditEvent, Actor,
}
use legacylock.Env.{Env, Binding}
use legacylock.Outcome.{Tx, Outcome, ok, err, http, ◌>>=◌, guard, or_raise, gets, modify}

-- `order_by(Beneficiary.id)`
insert_by_id : Beneficiary → List Beneficiary → List Beneficiary
insert_by_id b [] = b ∷ []
insert_by_id b (c ∷ cs) = if leb b.id c.id then b ∷ c ∷ cs else c ∷ insert_by_id b cs

order_by_id : List Beneficiary → List Beneficiary
unfolding insert_by_id
order_by_id [] = []
order_by_id (b ∷ bs) = insert_by_id b (order_by_id bs)

binding_of : Beneficiary → Binding
binding_of b = record {
  id = b.id;
  contact_revision = b.contact_revision;
  share_index = b.share_index;
  ceremony_generation = b.ceremony_generation;
  invitation_status = b.invitation_status;
}

unfoldable pub is_eligible : Vault → Beneficiary → Bool
is_eligible vault b =
    same_invitation b.invitation_status accepted
    && (is_some b.share_index && opt_str_eq b.ceremony_generation vault.recovery_generation)

-- The set of the share indexes, as a list with no repetition.
unfoldable pub add_index : Option ℕ → List ℕ → List ℕ
add_index none is = is
add_index (some i) is = if exists (λ j. i == j) is then is else i ∷ is

unfoldable pub eligible_indexes : Vault → List Beneficiary → List ℕ
unfolding add_index is_eligible
eligible_indexes vault [] = []
eligible_indexes vault (b ∷ bs) =
    let rest = eligible_indexes vault bs in
    if is_eligible vault b then add_index b.share_index rest else rest

unfoldable pub rows_of : Db → ℕ → List Beneficiary
unfolding order_by_id
rows_of db vault_id = order_by_id (filter (λ b. b.vault_id == vault_id) db.beneficiaries)

unfoldable pub assignment_signature : Env → Db → Vault → ℕ × ℕ
unfolding binding_of eligible_indexes rows_of
assignment_signature env db vault =
    let rows = rows_of db vault.id in
    (env.digest (map binding_of rows), length (eligible_indexes vault rows))

abbrev is_current : Vault → String → RecoveryCeremony → Bool
is_current vault generation c =
    c.vault_id == vault.id
    && (str_eq c.generation generation && same_ceremony_status c.status finalized)

unfoldable pub current_ceremony : Db → Vault → Option RecoveryCeremony
current_ceremony db vault =
    if not (truthy vault.recovery_generation) then none else elim vault.recovery_generation [
      | none ↦ none
      | some generation ↦ first (is_current vault generation) db.ceremonies
    ]

-- What has changed since the drill was reported.
unfoldable pub is_stale : Vault → RecoveryCeremony → ℕ → Drill → Bool
is_stale vault ceremony signature drill =
    not (ceremony.expected_revision + 1 == vault.material_revision)
    || (not (ceremony.threshold == vault.recovery_threshold)
        || (not (ceremony.total == vault.recovery_total)
            || (not (opt_eq drill.material_revision (some vault.material_revision))
                || (not (opt_eq drill.assignment_signature (some signature))
                    || (not (opt_str_eq drill.generation vault.recovery_generation)
                        || not (opt_str_eq drill.verifier (some "owner_report")))))))

unfoldable pub drill_of : Vault → RecoveryCeremony → ℕ → Option DrillText → Option Drill
unfolding is_stale
drill_of vault ceremony signature none = none
drill_of vault ceremony signature (some unreadable) = none
drill_of vault ceremony signature (some not_object) = none
drill_of vault ceremony signature (some (object drill)) =
    if is_stale vault ceremony signature drill then none else some drill

unfoldable pub current_drill : Db → Vault → ℕ → Option Drill
unfolding current_ceremony drill_of
current_drill db vault signature = elim (current_ceremony db vault) [
  | none ↦ none
  | some ceremony ↦ drill_of vault ceremony signature ceremony.drill_data
]

-- The entries of the evidence that the gate reads.
pub record Evidence : Type 0 where
  pub initialized : Bool
  pub ceremony_status : RecoveryStatus
  pub generation : Option String
  pub eligible_assignments : ℕ
  pub quorum_assigned : Bool
  pub assignment_signature : ℕ
  pub owner_reported_drill : Option Drill

unfoldable pub recovery_evidence : Env → Db → Vault → Evidence
recovery_evidence env db vault =
    let (signature, eligible) = assignment_signature env db vault in
    record {
      initialized = truthy vault.wrapped_vmk;
      ceremony_status = vault.recovery_status;
      generation = vault.recovery_generation;
      eligible_assignments = eligible;
      quorum_assigned = leb vault.recovery_threshold eligible;
      assignment_signature = signature;
      owner_reported_drill = current_drill db vault signature;
    }

unfoldable pub release_ready : Env → Db → Vault → Bool
unfolding recovery_evidence
release_ready env db vault =
    let evidence = recovery_evidence env db vault in
    evidence.initialized
    && (same_recovery_status evidence.ceremony_status RecoveryStatus.ready
        && (truthy evidence.generation
            && (leb 1 vault.recovery_threshold
                && (leb vault.recovery_threshold vault.recovery_total
                    && (is_some (current_ceremony db vault)
                        && (evidence.quorum_assigned && is_some evidence.owner_reported_drill))))))

-- `release_ready` of the vault with this id; false where there is none.
unfoldable pub is_releasable : Env → Db → ℕ → Bool
is_releasable env db vault_id = elim (lookup (λ (v : Vault). v.id) vault_id db.vaults) [
  | none ↦ false
  | some vault ↦ release_ready env db vault
]

unfoldable pub require_release_ready : Env → ℕ → Tx Db (Unit {0})
require_release_ready env vault_id db = guard (is_releasable env db vault_id) (http 409) db
