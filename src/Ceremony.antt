-- ===== src/Ceremony.antt =====
-- backend/services/ceremony.py, and the key material of backend/routers/vault.py that it applies.
pub mod Bundle
pub mod Drafts
pub mod Disarm
use legacylock.Prelude.{
  ℕ, zero, suc, ◌+◌, ◌==◌, Bool, true, false, not, ◌&&◌, ◌||◌, Option, none, some, List, [], ◌∷◌,
  ◌++◌, String, exists, leb, ltb, opt_eq, opt_str_eq, is_some, str_eq, if◌then◌else◌, lookup, save,
  update_where,
}
use legacylock.Models.{
  Db, Vault, RecoveryCeremony, CeremonyStatus, same_ceremony_status, RecoveryStatus, Material,
  Beneficiary, Actor, truthy,
}
use legacylock.Env.{Env}
use legacylock.Outcome.{
  Tx, Outcome, ok, err, http, integrity, ◌>>=◌, ◌>>◌, guard, pure, gets, modify, or_raise,
}
use legacylock.Audit.{record_audit}
use legacylock.Trigger.{vault_of}
use legacylock.Heartbeat.{primary_vault}
use Bundle.{writable, apply_material, validate_material, save_vault, is_hex, text_length}

pub record DraftIn : Type 0 where
  pub recovery_threshold : ℕ
  pub recovery_total : ℕ
  pub recovery_generation : String
  pub expected_revision : ℕ
  pub initial_material : Option Material

-- The next value of the id sequences.
unfoldable pub next_id : Tx Db ℕ
next_id db = ok db.serial (record db { serial = suc db.serial })

abbrev pub new_vault : ℕ → ℕ → ℕ → Vault
new_vault id user_id now = record {
  id = id;
  user_id = user_id;
  is_primary = true;
  wrapped_vmk = none;
  vmk_kdf_salt = none;
  vmk_iterations = none;
  material_revision = 0;
  recovery_threshold = 2;
  recovery_total = 3;
  recovery_generation = none;
  recovery_status = RecoveryStatus.uninitialized;
  updated_at = now;
}

unfoldable pub vault_or_new : ℕ → ℕ → Option Vault → Tx Db Vault
vault_or_new user_id now (some vault) = pure vault
vault_or_new user_id now none = do
  id ← next_id
  modify (save_vault (new_vault id user_id now))
  pure (new_vault id user_id now)

-- `re.fullmatch(r"[0-9a-f]{32}", …)`
unfoldable pub is_generation : String → Bool
is_generation s = is_hex s && (text_length s == 32)

-- A first setup brings its wrapping bundle, a later one must not.
unfoldable pub check_initial : Env → Option String → Option Material → Tx Db (Unit {0})
check_initial env wrapped none = guard (truthy wrapped) (http 422)
check_initial env wrapped (some material) = do
  guard (not (truthy wrapped)) (http 409)
  guard (material.expected_revision == 0) (http 422)
  validate_material env material

abbrev pub is_in : CeremonyStatus → ℕ → RecoveryCeremony → Bool
is_in status vault_id c = (c.vault_id == vault_id) && same_ceremony_status c.status status

abbrev pub cancelled_row : RecoveryCeremony → RecoveryCeremony
cancelled_row c = record c { status = CeremonyStatus.cancelled; initial_material = none }

abbrev pub draft_row : ℕ → ℕ → DraftIn → RecoveryCeremony
draft_row id vault_id input = record {
  id = id;
  vault_id = vault_id;
  generation = input.recovery_generation;
  threshold = input.recovery_threshold;
  total = input.recovery_total;
  status = CeremonyStatus.draft;
  expected_revision = input.expected_revision;
  initial_material = input.initial_material;
  acknowledgments = none;
  drill_data = none;
}

-- The unique constraint on (vault_id, generation). The row is written by the flush of
-- `record_audit`, outside of the `try` around the commit.
unfoldable pub add_ceremony : RecoveryCeremony → Tx Db (Unit {0})
add_ceremony row = do
  clash ← gets (λ db.
      exists
        (λ (c : RecoveryCeremony).
          (c.vault_id == row.vault_id) && str_eq c.generation row.generation)
        db.ceremonies)
  guard (not clash) integrity
  modify (λ db. record db { ceremonies = db.ceremonies ++ row ∷ [] })

abbrev marked_draft : Vault → Vault
marked_draft vault =
    if truthy vault.wrapped_vmk
    then vault
    else record vault { recovery_status = RecoveryStatus.draft }

unfoldable pub cancel_drafts : ℕ → Tx Db (Unit {0})
cancel_drafts vault_id = modify λ db. record db {
  ceremonies = update_where (is_in CeremonyStatus.draft vault_id) cancelled_row db.ceremonies;
}

-- The writes of a draft; the id of the new row is returned.
unfoldable pub write_draft : Vault → ℕ → DraftIn → Tx Db ℕ
write_draft vault user_id input = do
  cancel_drafts vault.id
  id ← next_id
  add_ceremony (draft_row id vault.id input)
  modify (save_vault (marked_draft vault))
  record_audit (some vault.id) (Actor.owner user_id) "ceremony.draft"
  pure id

unfoldable pub check_draft : Env → Vault → DraftIn → Tx Db (Unit {0})
check_draft env vault input = do
  guard (is_generation input.recovery_generation) (http 422)
  guard
      (leb 1 input.recovery_threshold
        && (leb input.recovery_threshold input.recovery_total && leb input.recovery_total 10))
      (http 422)
  guard (not (opt_str_eq vault.recovery_generation (some input.recovery_generation))) (http 409)
  check_initial env vault.wrapped_vmk input.initial_material

unfoldable pub create_draft : Env → ℕ → DraftIn → ℕ → Tx Db ℕ
create_draft env user_id input now = do
  found ← gets (primary_vault user_id)
  vault ← vault_or_new user_id now found
  writable vault (some input.expected_revision) now
  check_draft env vault input
  write_draft vault user_id input

-- `sorted(indexes) == list(range(1, total + 1))`
insert_index : ℕ → List ℕ → List ℕ
insert_index i [] = i ∷ []
insert_index i (j ∷ js) = if leb i j then i ∷ j ∷ js else j ∷ insert_index i js

unfoldable pub sorted : List ℕ → List ℕ
unfolding insert_index
sorted [] = []
sorted (i ∷ is) = insert_index i (sorted is)

-- The list is `first, first + 1, …` of this length.
unfoldable pub is_range : ℕ → ℕ → List ℕ → Bool
is_range first zero [] = true
is_range first (suc n) (i ∷ is) = (i == first) && is_range (suc first) n is
is_range first _ _ = false

abbrev above : ℕ → Option ℕ → Bool
above total none = false
above total (some i) = ltb total i

abbrev pub beyond : ℕ → ℕ → Beneficiary → Bool
beyond vault_id total b = (b.vault_id == vault_id) && above total b.share_index

-- The row of a ceremony of one of the owner's vaults, with the vault.
unfoldable pub owned : ℕ → ℕ → Db → Option (RecoveryCeremony × Vault)
owned user_id ident db = elim (lookup (λ (c : RecoveryCeremony). c.id) ident db.ceremonies) [
  | none ↦ none
  | some row ↦ elim (vault_of row.vault_id db) [
    | none ↦ none
    | some vault ↦ if vault.user_id == user_id then some (row, vault) else none
  ]
]

abbrev pub superseded_row : RecoveryCeremony → RecoveryCeremony
superseded_row c = record c { status = CeremonyStatus.superseded }

abbrev pub finalized_row : RecoveryCeremony → List ℕ → RecoveryCeremony
finalized_row row indexes = record row {
  status = CeremonyStatus.finalized;
  initial_material = none;
  acknowledgments = some indexes;
}

abbrev material_after : Vault → Option Material → Vault
material_after vault (some material) = apply_material vault material
material_after vault none = record vault { material_revision = vault.material_revision + 1 }

-- The vault after the ceremony.
unfoldable pub finalized_vault : Vault → RecoveryCeremony → ℕ → Vault
finalized_vault vault row now = record (material_after vault row.initial_material) {
  recovery_threshold = row.threshold;
  recovery_total = row.total;
  recovery_generation = some row.generation;
  recovery_status = RecoveryStatus.ready;
  updated_at = now;
}

abbrev pub save_ceremony : RecoveryCeremony → Db → Db
save_ceremony row db = record db {
  ceremonies = save (λ (c : RecoveryCeremony). c.id) row db.ceremonies;
}

abbrev pub unassigned : Beneficiary → Beneficiary
unassigned b = record b { ceremony_generation = none }

unfoldable pub write_final : RecoveryCeremony → Vault → ℕ → List ℕ → ℕ → Tx Db Bool
write_final row vault user_id indexes now = do
  modify (λ db. record db {
    ceremonies =
        update_where (is_in CeremonyStatus.finalized vault.id) superseded_row db.ceremonies;
  })
  modify (save_vault (finalized_vault vault row now))
  modify (save_ceremony (finalized_row row indexes))
  modify (λ db. record db {
    beneficiaries = update_where (λ b. b.vault_id == vault.id) unassigned db.beneficiaries;
  })
  record_audit (some vault.id) (Actor.owner user_id) "ceremony.finalize"
  pure false

unfoldable pub finalize_draft : RecoveryCeremony → Vault → ℕ → List ℕ → ℕ → Tx Db Bool
finalize_draft row vault user_id indexes now = do
  guard
      (same_ceremony_status row.status CeremonyStatus.draft
        && (vault.material_revision == row.expected_revision))
      (http 409)
  guard (is_range 1 row.total (sorted indexes)) (http 422)
  late ← gets (λ db. exists (beyond vault.id row.total) db.beneficiaries)
  guard (not late) (http 409)
  write_final row vault user_id indexes now

-- The flag says that the ceremony was finalized before; then nothing is committed.
unfoldable pub finalize : ℕ → ℕ → List ℕ → ℕ → Tx Db Bool
finalize user_id ident indexes now = do
  found ← gets (owned user_id ident)
  (row, vault) ← or_raise found (http 404)
  writable vault none now
  if same_ceremony_status row.status CeremonyStatus.finalized
      then pure true
      else finalize_draft row vault user_id indexes now

abbrev unready : Vault → Vault
unready vault =
    if truthy vault.wrapped_vmk
    then vault
    else record vault { recovery_status = RecoveryStatus.uninitialized }

unfoldable pub cancel_ceremony : ℕ → ℕ → ℕ → Tx Db (Unit {0})
cancel_ceremony user_id ident now = do
  found ← gets (owned user_id ident)
  (row, vault) ← or_raise found (http 404)
  writable vault none now
  guard (not (same_ceremony_status row.status CeremonyStatus.finalized)) (http 409)
  modify (save_ceremony (cancelled_row row))
  modify (save_vault (unready vault))
  record_audit (some vault.id) (Actor.owner user_id) "ceremony.cancel"
