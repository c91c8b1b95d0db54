-- ===== src/Machine/Rows.antt =====
-- The order on status rows: versions and episodes grow, and a release is never taken back.
use legacylock.Prelude.{
  ℕ, ◌+◌, ◌≤◌, ◌≡◌, refl, ap, ◌∙◌, inl, inr, some, ◌==◌, arith, Bool-cases, ==→≡, lookup,
}
use legacylock.Lifecycle.{triggered}
use legacylock.Models.{Db, VaultStatus}
use legacylock.Outcome.Frames.{IsPreorder}
use legacylock.Outbox.Intent.{OnlyDelivers}
use legacylock.Trigger.{status_of, save_status, locked}
use legacylock.Trigger.Status.{status_of-save_status, locked-vault_id, locked-some}

pub record RowOrder (r s : VaultStatus) : Type 0 where
  pub version : r.version ≤ s.version
  pub episode : r.episode ≤ s.episode
  pub released :
      r.state ≡ triggered
      → (s.state ≡ triggered)
        × (s.triggered_at ≡ r.triggered_at)
        × (s.trigger_reason ≡ r.trigger_reason)

pub RowOrder-refl : (r : VaultStatus) → RowOrder r r
RowOrder-refl r = record {
  version = omega arith;
  episode = omega arith;
  released = λ h. (h, refl, refl);
}

pub RowOrder-trans : (r s t : VaultStatus) → RowOrder r s → RowOrder s t → RowOrder r t
RowOrder-trans r s t a b = record {
  version = omega (arith, a.version, b.version);
  episode = omega (arith, a.episode, b.episode);
  released = λ h.
      let (at_s, time, reason) = a.released h in
      let (at_t, time', reason') = b.released at_s in (at_t, time' ∙ time, reason' ∙ reason);
}

-- Every vault that has a status keeps one, which is later in the order.
pub record StatusOrder (d d' : Db) : Type 0 where
  pub row :
      (v : ℕ) (r : VaultStatus)
      → status_of v d ≡ some r
      → (s : VaultStatus) × (status_of v d' ≡ some s) × RowOrder r s

StatusOrder-trans : (d e f : Db) → StatusOrder d e → StatusOrder e f → StatusOrder d f
StatusOrder-trans d e f a b = record {
  row = λ v r h.
      let (s, hs, rs) = a.row v r h in
      let (t, ht, st) = b.row v s hs in (t, ht, RowOrder-trans r s t rs st);
}

pub StatusOrder-preorder : IsPreorder StatusOrder
StatusOrder-preorder = record {
  reflexive = λ d. record { row = λ v r h. (r, h, RowOrder-refl r) };
  transitive = StatusOrder-trans;
}

-- Only the status table matters.
pub StatusOrder-same : (d d' : Db) → d'.statuses ≡ d.statuses → StatusOrder d d'
StatusOrder-same d d' e = record {
  row = λ v r h. (r, ap (lookup (λ (s : VaultStatus). s.vault_id) v) e ∙ h, RowOrder-refl r);
}

pub OnlyDelivers-StatusOrder : (d d' : Db) → OnlyDelivers d d' → StatusOrder d d'
OnlyDelivers-StatusOrder d d' w = StatusOrder-same d d' (ap (λ (x : Db). x.statuses) w.tables)

-- A row written over an earlier one.
pub StatusOrder-save_status :
    (vs : VaultStatus) (d : Db)
    → ((r : VaultStatus) → status_of vs.vault_id d ≡ some r → RowOrder r vs)
    → StatusOrder d (save_status vs d)
StatusOrder-save_status vs d later = record {
  row = λ v r h. elim (Bool-cases (vs.vault_id == v)) [
    | inl same ↦ (
      vs,
      ground (arith, status_of-save_status vs d v),
      later r (let e : vs.vault_id ≡ v = ==→≡ vs.vault_id v same in rw e h),
    )
    | inr other ↦ (r, ground (arith, status_of-save_status vs d v), RowOrder-refl r)
  ];
}

-- The lock alone raises the version.
RowOrder-locked :
    (r : VaultStatus) (now : ℕ)
    → RowOrder r (record r { version = r.version + 1; updated_at = now })
RowOrder-locked r now = record {
  version = omega arith;
  episode = omega arith;
  released = λ h. (h, refl, refl);
}

pub StatusOrder-locked : (v now : ℕ) (d : Db) → StatusOrder d (save_status (locked v now d) d)
StatusOrder-locked v now d = StatusOrder-save_status (locked v now d) d λ r h.
    let e = locked-some v now d r (rw (locked-vault_id v now d) at h) in
    rw e (RowOrder-locked r now)

-- A holder of the row writes it back later in the order.
pub StatusOrder-rewrite :
    (vs next : VaultStatus) (d : Db)
    → status_of vs.vault_id d ≡ some vs
    → next.vault_id ≡ vs.vault_id
    → RowOrder vs next
    → StatusOrder d (save_status next d)
StatusOrder-rewrite vs next d held same order =
    StatusOrder-save_status next d
      λ r h. let e : r ≡ vs = cc (h, held, ap (λ i. status_of i d) same) in rw e order

-- After the lock the holder's row is the vault's.
pub status_of-locked :
    (v now : ℕ) (d : Db)
    → status_of (locked v now d).vault_id (save_status (locked v now d) d) ≡ some (locked v now d)
status_of-locked v now d =
    let vs = locked v now d in ground (arith, status_of-save_status vs d vs.vault_id)

-- The lock and one write by its holder.
pub StatusOrder-lock_and_write :
    (v now : ℕ) (next : VaultStatus) (d d' : Db)
    → next.vault_id ≡ (locked v now d).vault_id
    → RowOrder (locked v now d) next
    → d'.statuses ≡ (save_status next (save_status (locked v now d) d)).statuses
    → StatusOrder d d'
StatusOrder-lock_and_write v now next d d' same order writes =
    let vs = locked v now d in
    let saved = save_status vs d in
    StatusOrder-preorder.transitive d (save_status next saved) d'
      (StatusOrder-preorder.transitive d saved (save_status next saved) (StatusOrder-locked v now d)
        (StatusOrder-rewrite vs next saved (status_of-locked v now d) same order))
      (StatusOrder-same (save_status next saved) d' writes)
