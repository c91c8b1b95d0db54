-- ===== src/Sessions/Refresh.antt =====
-- `rotate`: a refresh credential is good for one rotation, and its reuse ends the family.
use legacylock.Prelude.{
  ℕ, ◌==◌, ◌≡◌, refl, sym, ap, ◌∙◌, Bool, true, not, ◌&&◌, Option, none, some, [], ◌∷◌, ◌++◌, inl,
  inr, is_some, arith, lookup, update_where, updated, lookup-update_where, lookup-append,
  key-lookup, Option-cases, Bool-cases, ==_refl, if◌then◌else◌,
}
use legacylock.Models.{Db, Role, owner, beneficiary, AuthSession, SessionRefresh}
use legacylock.Env.{Env}
use legacylock.Outcome.{ok, ◌>>=◌, and_then-eq-ok}
use legacylock.Outbox.{draw}
use legacylock.Trigger.{lock_status}
use legacylock.Sessions.{
  Tokens, family_of, refresh_of, add_refresh, mint, create_access_token, is_valid_family,
  valid_family, Rotation, rotated, lock_for, check_contact, consume, use_refresh, rotate_family,
  rotate_locked, rotate,
}

-- The vault's lock leaves the session tables alone.
lock_for-same :
    (env : Env) (raw : ℕ) (role : Role) (now : ℕ) (d e : Db)
    → lock_for env raw role now d ≡ ok tt e
    → (e.refreshes ≡ d.refreshes) × (e.families ≡ d.families)
unfolding lock_for lock_status ◌>>=◌
lock_for-same env raw owner now d e h = ground arith
lock_for-same env raw beneficiary now d e h = ground arith

-- A rotation behind the lock.
pub rotate-locked :
    (env : Env) (raw : ℕ) (role : Role) (now : ℕ) (a : Rotation) (d d' : Db)
    → rotate env raw role now d ≡ ok a d'
    → (e : Db) × (e.refreshes ≡ d.refreshes)
      × (e.families ≡ d.families)
      × (rotate_locked env raw role now e ≡ ok a d')
unfolding rotate ◌>>=◌
rotate-locked env raw role now a d d' h =
    let (u, e, first, rest) = and_then-eq-ok (lock_for env raw role now d) _ a d' h in
    let (same, same') = lock_for-same env raw role now d e first in (e, same, same', rest)

pub refresh_of-same :
    (hash : ℕ) (d e : Db) → d.refreshes ≡ e.refreshes → refresh_of hash d ≡ refresh_of hash e
unfolding refresh_of
refresh_of-same hash d e same = ap (lookup (λ (x : SessionRefresh). x.token_hash) hash) same

pub family_of-same :
    (sid : ℕ) (d e : Db) → d.families ≡ e.families → family_of sid d ≡ family_of sid e
unfolding family_of
family_of-same sid d e same = ap (lookup (λ (x : AuthSession). x.id) sid) same

-- What a rotation found: the credential's row and its family, which was valid.
pub record Found (env : Env) (raw : ℕ) (role : Role) (now : ℕ) (a : Rotation) (e d' : Db)
    : Type 0 where
  pub row : SessionRefresh
  pub family : AuthSession
  pub has_row : refresh_of (env.sha256 raw) e ≡ some row
  pub has_family : family_of row.session_id e ≡ some family
  pub is_valid : is_valid_family env role family.principal_id now family ≡ true
  pub used : use_refresh env family row row.consumed_at now e ≡ ok a d'

family_of-id : (sid : ℕ) (d : Db) (f : AuthSession) → family_of sid d ≡ some f → f.id ≡ sid
unfolding family_of
family_of-id sid d f h = key-lookup (λ (x : AuthSession). x.id) sid d.families f h

check_contact-same :
    (role : Role) (family : AuthSession) (d e : Db) → check_contact role family d ≡ ok tt e → e ≡ d
unfolding check_contact ◌>>=◌
check_contact-same owner family d e h = ground arith
check_contact-same beneficiary family d e h = ground arith

rotate_family-used :
    (env : Env) (role : Role) (now : ℕ) (row : SessionRefresh) (family : AuthSession) (a : Rotation)
    (e d' : Db)
    → family_of family.id e ≡ some family
    → rotate_family env role now row family e ≡ ok a d'
    → (is_valid_family env role family.principal_id now family ≡ true)
      × (use_refresh env family row row.consumed_at now e ≡ ok a d')
unfolding rotate_family valid_family ◌>>=◌
rotate_family-used env role now row family a e d' held h =
    elim (Bool-cases (is_valid_family env role family.principal_id now family)) [
      | inl valid ↦
          (let (u, c, checked, rest) =
              and_then-eq-ok (check_contact role family e)
                (λ _. use_refresh env family row row.consumed_at now) a d' (ground arith) in
            (
              valid,
              ap (λ x. use_refresh env family row row.consumed_at now x)
                    (sym (check_contact-same role family e c checked))
                  ∙ rest,
            ))
      | inr invalid ↦ absurd (ground arith)
    ]

pub rotate_locked-Found :
    (env : Env) (raw : ℕ) (role : Role) (now : ℕ) (a : Rotation) (e d' : Db)
    → rotate_locked env raw role now e ≡ ok a d'
    → Found env raw role now a e d'
unfolding rotate_locked ◌>>=◌
rotate_locked-Found env raw role now a e d' h =
    elim (Option-cases (refresh_of (env.sha256 raw) e)) [
      | inl missing ↦ absurd (ground arith)
      | inr (row, found) ↦ elim (Option-cases (family_of row.session_id e)) [
        | inl missing ↦ absurd (ground arith)
        | inr (family, held) ↦
            (let id = family_of-id row.session_id e family held in
              let (valid, used) =
                rotate_family-used env role now row family a e d'
                  (ap (λ i. family_of i e) id ∙ held) (ground arith) in
              record {
                row = row;
                family = family;
                has_row = found;
                has_family = held;
                is_valid = valid;
                used = used;
              })
      ]
    ]

-- A consumed credential is not rotated.
use_refresh-consumed :
    (env : Env) (family : AuthSession) (row : SessionRefresh) (c now : ℕ) (f : AuthSession)
    (t : Tokens) (e d' : Db)
    → ¬ (use_refresh env family row (some c) now e ≡ ok (rotated f t) d')
unfolding use_refresh ◌>>=◌
use_refresh-consumed env family row c now f t e d' h = ground arith

-- What a rotation leaves: the old credential consumed, and the new one for the same family.
pub record Rotated (env : Env) (family : AuthSession) (row : SessionRefresh) (now : ℕ)
    (f : AuthSession) (t : Tokens) (e d' : Db) : Type 0 where
  pub same : f ≡ family
  pub raw : t.raw ≡ env.random e.drawn
  pub access : t.access ≡ create_access_token env family now
  pub families : d'.families ≡ e.families
  pub refreshes :
      d'.refreshes
      ≡ update_where
          (λ (r : SessionRefresh). r.token_hash == row.token_hash && not (is_some r.consumed_at))
          (consume now)
          e.refreshes
        ++ record {
          token_hash = env.sha256 t.raw;
          session_id = family.id;
          consumed_at = none;
          expires_at = family.expires_at;
        }
          ∷ []

pub use_refresh-Rotated :
    (env : Env) (family : AuthSession) (row : SessionRefresh) (last : Option ℕ) (now : ℕ)
    (f : AuthSession) (t : Tokens) (e d' : Db)
    → use_refresh env family row last now e ≡ ok (rotated f t) d'
    → (last ≡ none) × Rotated env family row now f t e d'
unfolding use_refresh mint add_refresh draw ◌>>=◌
use_refresh-Rotated env family row (some c) now f t e d' h = absurd (ground arith)
use_refresh-Rotated env family row none now f t e d' h = (
  refl,
  record {
    same = ground arith;
    raw = ground arith;
    access = ground arith;
    families = ground arith;
    refreshes = ground arith;
  },
)

-- The consumed credential is what its hash finds after a rotation.
Rotated-consumed :
    (env : Env) (family : AuthSession) (row : SessionRefresh) (hash now : ℕ) (f : AuthSession)
    (t : Tokens) (e d' : Db)
    → refresh_of hash e ≡ some row
    → row.consumed_at ≡ none
    → Rotated env family row now f t e d'
    → refresh_of hash d' ≡ some (consume now row)
unfolding refresh_of
Rotated-consumed env family row hash now f t e d' found open_row r =
    let p : SessionRefresh → Bool =
      λ x. x.token_hash == row.token_hash && not (is_some x.consumed_at) in
    let hit : p row ≡ true = ground (arith, ==_refl row.token_hash) in
    ap (lookup (λ (x : SessionRefresh). x.token_hash) hash) r.refreshes
    ∙ lookup-append (λ (x : SessionRefresh). x.token_hash) hash
        (update_where p (consume now) e.refreshes) _ (consume now row)
        (lookup-update_where (λ (x : SessionRefresh). x.token_hash) p (consume now) hash e.refreshes
            (λ x. refl)
          ∙ (ap (updated p (consume now)) found
              ∙ ap (λ b. if b then some (consume now row) else some row) hit))

-- A refresh credential that was rotated is not rotated again, at any later time and in any role.
pub rotate_single_use :
    (env : Env) (raw : ℕ) (role again : Role) (now later : ℕ) (f g : AuthSession) (t u : Tokens)
    (d d' d'' : Db)
    → rotate env raw role now d ≡ ok (rotated f t) d'
    → ¬ (rotate env raw again later d' ≡ ok (rotated g u) d'')
rotate_single_use env raw role again now later f g t u d d' d'' h k =
    let (e, same, same', ran) = rotate-locked env raw role now (rotated f t) d d' h in
    let x = rotate_locked-Found env raw role now (rotated f t) e d' ran in
    let (open_row, r) =
      use_refresh-Rotated env x.family x.row x.row.consumed_at now f t e d' x.used in
    let gone =
      Rotated-consumed env x.family x.row (env.sha256 raw) now f t e d' x.has_row open_row r in
    let (e', kept, kept', ran') = rotate-locked env raw again later (rotated g u) d' d'' k in
    let y = rotate_locked-Found env raw again later (rotated g u) e' d'' ran' in
    let (still_open, _) =
      use_refresh-Rotated env y.family y.row y.row.consumed_at later g u e' d'' y.used in
    let here = refresh_of-same (env.sha256 raw) e' d' kept in
    ground (arith, gone, here, y.has_row, still_open)
