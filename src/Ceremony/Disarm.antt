-- ===== src/Ceremony/Disarm.antt =====
-- What a finalization and a new wrapping bundle do to the recovery setup of a vault: the writes of
-- backend/services/ceremony.py and of PUT /vault/crypto-material, and the readiness after them.
use legacylock.Prelude.{
  ℕ, ◌+◌, ◌==◌, ◌≡◌, refl, ap, ◌∙◌, Bool, true, false, Option, none, some, List, [], ◌∷◌, inl, inr,
  filter, All, arith, update_where, lookup, save, lookup-save, Bool-cases, Option-cases, ==_refl,
}
use legacylock.Models.{Db, Vault, Beneficiary, RecoveryCeremony, Material, DrillText}
use legacylock.Env.{Env}
use legacylock.Outcome.{ok, ◌>>=◌}
use legacylock.Audit.{record_audit}
use legacylock.Readiness.{is_releasable, release_ready, current_ceremony, drill_of}
use legacylock.Readiness.Gate.{release_ready-unassigned, release_ready-revision, drill_of-revision}
use legacylock.Trigger.{vault_of, lock_status, save_status, locked}
use legacylock.Ceremony.{owned, finalize, finalize_draft, write_final, finalized_vault, unassigned}
use legacylock.Ceremony.Bundle.{rewrap, writable, apply_material}

unassigned-rows :
    (v : ℕ) (bs : List Beneficiary)
    → All
        (λ b. b.ceremony_generation ≡ none)
        (filter (λ b. b.vault_id == v) (update_where (λ b. b.vault_id == v) unassigned bs))
unassigned-rows v [] = tt
unassigned-rows v (b ∷ bs) = elim (Bool-cases (b.vault_id == v)) [
  | inl e ↦ rw (e, e) (refl, unassigned-rows v bs)
  | inr e ↦ rw (e, e) (unassigned-rows v bs)
]

-- The tables that the writes of a finalization leave.
record Finalized (row : RecoveryCeremony) (vault : Vault) (now : ℕ) (e d' : Db) : Type 0 where
  vaults : d'.vaults ≡ save (λ (v : Vault). v.id) (finalized_vault vault row now) e.vaults
  people :
      d'.beneficiaries
      ≡ update_where (λ (b : Beneficiary). b.vault_id == vault.id) unassigned e.beneficiaries

write_final-Finalized :
    (row : RecoveryCeremony) (vault : Vault) (user now : ℕ) (indexes : List ℕ) (b : Bool)
    (e d' : Db)
    → write_final row vault user indexes now e ≡ ok b d'
    → Finalized row vault now e d'
unfolding write_final record_audit ◌>>=◌
write_final-Finalized row vault user now indexes b e d' h = record {
  vaults = ground arith;
  people = ground arith;
}

finalize-Finalized :
    (user ident now : ℕ) (indexes : List ℕ) (d d' : Db)
    → finalize user ident indexes now d ≡ ok false d'
    → (row : RecoveryCeremony) × (vault : Vault) × (e : Db) × (owned user ident d
        ≡ some (row, vault))
      × Finalized row vault now e d'
unfolding finalize finalize_draft writable lock_status ◌>>=◌
finalize-Finalized user ident now indexes d d' h = elim (Option-cases (owned user ident d)) [
  | inl missing ↦ absurd (ground arith)
  | inr (found, e) ↦ (
    found.0,
    found.1,
    save_status (locked found.1.id now d) d,
    e,
    write_final-Finalized found.0 found.1 user now indexes false
        (save_status (locked found.1.id now d) d) d' (ground arith),
  )
]

finalized_vault-fields :
    (vault : Vault) (row : RecoveryCeremony) (now : ℕ)
    → ((finalized_vault vault row now).id ≡ vault.id)
      × ((finalized_vault vault row now).recovery_generation ≡ some row.generation)
      × ((finalized_vault vault row now).material_revision ≡ vault.material_revision + 1)
unfolding finalized_vault
finalized_vault-fields vault row now = elim (Option-cases row.initial_material) [
  | inl e ↦ (ground arith, refl, ground arith)
  | inr (m, e) ↦ (ground arith, refl, ground arith)
]

saved-found :
    (vault : Vault) (v : ℕ) (vs : List Vault)
    → vault.id ≡ v
    → lookup (λ (x : Vault). x.id) v (save (λ (x : Vault). x.id) vault vs) ≡ some vault
saved-found vault v vs same =
    ground (arith, lookup-save (λ (x : Vault). x.id) vault v vs, ==_refl v)

-- A finalization that was committed found the ceremony under the owner's id. On the database that it
-- left the vault has the ceremony's generation and the next material revision, and it is not
-- releasable.
pub finalize_disarms :
    (env : Env) (user ident now : ℕ) (indexes : List ℕ) (d d' : Db)
    → finalize user ident indexes now d ≡ ok false d'
    → (row : RecoveryCeremony) × (vault : Vault) × (vault' : Vault) × (owned user ident d
        ≡ some (row, vault))
      × (vault_of vault.id d' ≡ some vault')
      × (vault'.recovery_generation ≡ some row.generation)
      × (vault'.material_revision ≡ vault.material_revision + 1)
      × (is_releasable env d' vault.id ≡ false)
unfolding is_releasable
finalize_disarms env user ident now indexes d d' h =
    let (row, vault, e, has, f) = finalize-Finalized user ident now indexes d d' h in
    let next = finalized_vault vault row now in
    let (id, generation, revision) = finalized_vault-fields vault row now in
    let found : vault_of vault.id d' ≡ some next =
      ap (lookup (λ (x : Vault). x.id) vault.id) f.vaults ∙ saved-found next vault.id e.vaults id in
    let rows : All (λ b. b.ceremony_generation ≡ none)
        (filter (λ b. b.vault_id == next.id) d'.beneficiaries) =
      simp (f.people, id) (unassigned-rows vault.id e.beneficiaries) in
    let not_ready = release_ready-unassigned env d' next row.generation generation rows in
    (row, vault, next, has, found, generation, revision, ground (arith, found, not_ready))

-- What the writes of a rewrap leave.
record Rewrapped (vault : Vault) (input : Material) (now n : ℕ) (d d' : Db) : Type 0 where
  revision : n ≡ vault.material_revision + 1
  vaults :
      d'.vaults
      ≡ save
          (λ (v : Vault). v.id)
          (record (apply_material vault input) { updated_at = now })
          d.vaults
  ceremonies : d'.ceremonies ≡ d.ceremonies

rewrap-Rewrapped :
    (vault : Vault) (input : Material) (user now n : ℕ) (d d' : Db)
    → rewrap vault input user now d ≡ ok n d'
    → Rewrapped vault input now n d d'
unfolding rewrap writable lock_status record_audit ◌>>=◌
rewrap-Rewrapped vault input user now n d d' h = record {
  revision = ground arith;
  vaults = ground arith;
  ceremonies = ground arith;
}

-- The current ceremony hangs on the ceremonies and the vault's id and generation.
current_ceremony-kept :
    (d d' : Db) (vault : Vault) (input : Material) (now : ℕ)
    → d'.ceremonies ≡ d.ceremonies
    → current_ceremony d' (record (apply_material vault input) { updated_at = now })
      ≡ current_ceremony d vault
unfolding current_ceremony
current_ceremony-kept d d' vault input now same =
    ap (λ cs. current_ceremony (record d { ceremonies = cs }) vault) same

-- A new wrapping bundle that was saved makes a vault that was ready for release unready, and it stays
-- bound to the ceremony that it had: this is still the current ceremony of the vault as it was saved,
-- and no text of a drill, recorded before or later, and no signature of the assignments make a drill
-- of it that counts for the next material revision.
pub rewrap_disarms :
    (env : Env) (vault : Vault) (input : Material) (user now n : ℕ) (d d' : Db)
    → vault_of vault.id d ≡ some vault
    → is_releasable env d vault.id ≡ true
    → rewrap vault input user now d ≡ ok n d'
    → (n ≡ vault.material_revision + 1)
      × (is_releasable env d' vault.id ≡ false)
      × (next : Vault) × (vault_of vault.id d' ≡ some next)
      × (next.material_revision ≡ n)
      × (c : RecoveryCeremony) × (current_ceremony d vault ≡ some c)
      × (current_ceremony d' next ≡ some c)
      × ((signature : ℕ) (text : Option DrillText) → drill_of next c signature text ≡ none)
unfolding is_releasable
rewrap_disarms env vault input user now n d d' has ready h =
    let next = record (apply_material vault input) { updated_at = now } in
    let r = rewrap-Rewrapped vault input user now n d d' h in
    let found : vault_of vault.id d' ≡ some next =
      ap (lookup (λ (x : Vault). x.id) vault.id) r.vaults
      ∙ saved-found next vault.id d.vaults refl in
    let (c, current, before) = release_ready-revision env d vault (ground (arith, has)) in
    let kept = current_ceremony-kept d d' vault input now r.ceremonies in
    (
      r.revision,
      elim (Bool-cases (release_ready env d' next)) [
        | inl bad ↦
            (let (c', current', before') = release_ready-revision env d' next bad in
              absurd (ground (arith, current, current', kept, before, before')))
        | inr good ↦ ground (arith, found, good)
      ],
      next,
      found,
      ground (arith, r.revision),
      c,
      current,
      kept ∙ current,
      λ signature text. elim (Option-cases (drill_of next c signature text)) [
        | inl none_left ↦ none_left
        | inr (drill, counts) ↦
            absurd (ground (arith, before, drill_of-revision next c signature text drill counts))
      ],
    )
