-- ===== src/Trigger/Status.antt =====
-- Reading a vault's status after it was locked or written.
use legacylock.Prelude.{
  ℕ, ◌+◌, ◌≡◌, ap, ◌∙◌, inl, inr, some, ◌==◌, arith, lookup-save, key-lookup, Option-cases,
  if◌then◌else◌,
}
use legacylock.Models.{Db, VaultStatus}
use legacylock.Outbox.Intent.{OnlyDelivers}
use legacylock.Trigger.{status_of, save_status, locked}

pub status_of-save_status :
    (vs : VaultStatus) (d : Db) (v : ℕ)
    → status_of v (save_status vs d) ≡ (if vs.vault_id == v then some vs else status_of v d)
status_of-save_status vs d v = lookup-save (λ s. s.vault_id) vs v d.statuses

-- The status after a write and any delivery work behind it.
pub status_of-writes :
    (vs : VaultStatus) (d d' : Db) (v : ℕ)
    → OnlyDelivers (save_status vs d) d'
    → status_of v d' ≡ (if vs.vault_id == v then some vs else status_of v d)
status_of-writes vs d d' v w = ap (status_of v) w.tables ∙ status_of-save_status vs d v

pub locked-vault_id : (v now : ℕ) (d : Db) → (locked v now d).vault_id ≡ v
unfolding locked
locked-vault_id v now d = elim (Option-cases (status_of v d)) [
  | inl e ↦ ground arith
  | inr (r, e) ↦ ground (arith, key-lookup (λ s. s.vault_id) v d.statuses r e)
]

-- What is kept of an existing row under the lock, and the version that grows.
pub locked-some :
    (v now : ℕ) (d : Db) (r : VaultStatus)
    → status_of v d ≡ some r
    → locked v now d ≡ record r { version = r.version + 1; updated_at = now }
unfolding locked
locked-some v now d r e = rw e
