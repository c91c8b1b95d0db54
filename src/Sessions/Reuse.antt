-- ===== src/Sessions/Reuse.antt =====
-- `rotate` within a family: what a new credential is bound to, and how a reuse ends the family.
use legacylock.Prelude.{
  exists-append, ◌||◌, ℕ, ◌+◌, ◌*◌, ◌<◌, ◌==◌, ◌≡◌, refl, sym, ap, ◌∙◌, Bool, true, false, not,
  ◌&&◌, Option, none, some, is_some, arith, exists, str_eq, leb, ltb→lt, lookup, update_where,
  updated, lookup-update_where, ==_refl, if◌then◌else◌,
}
use legacylock.Models.{Db, Role, same_role, AuthSession, SessionRefresh, second}
use legacylock.Env.{Env}
use legacylock.Outcome.{ok, ◌>>=◌}
use legacylock.Outbox.{draw}
use legacylock.Sessions.{
  Tokens, family_of, refresh_of, add_refresh, mint, create_access_token, is_valid_family, Rotation,
  rotated, reuse_detected, revoke, revoke_family, consume, use_refresh, rotate,
}
use legacylock.Sessions.Refresh.{
  rotate-locked, rotate_locked-Found, refresh_of-same, family_of-same, Rotated, use_refresh-Rotated,
}

leb-false : (a b : ℕ) → leb b a ≡ false → a < b
leb-false a b h = ground arith

invalid_if_revoked :
    (env : Env) (role : Role) (f g : AuthSession) (now : ℕ)
    → some f ≡ some (revoke g)
    → ¬ (is_valid_family env role f.principal_id now f ≡ true)
unfolding is_valid_family
invalid_if_revoked env role f g now same valid = ground arith

or-true : (b : Bool) → (b || true) ≡ true
or-true b = ground arith

-- An unconsumed credential of these tokens and this family, with the family's expiry.
abbrev pub is_fresh_credential : Env → AuthSession → Tokens → SessionRefresh → Bool
is_fresh_credential env f t r =
    (r.token_hash == env.sha256 t.raw)
    && ((r.session_id == f.id) && ((r.expires_at == f.expires_at) && not (is_some r.consumed_at)))

-- What a reuse that was detected found and left.
use_refresh-reuse :
    (env : Env) (family : AuthSession) (row : SessionRefresh) (last : Option ℕ) (now : ℕ)
    (e d' : Db)
    → use_refresh env family row last now e ≡ ok reuse_detected d'
    → (d' ≡ revoke_family family.id e) × (c : ℕ) × (last ≡ some c) × (c + 10 * second < now)
unfolding use_refresh mint add_refresh draw ◌>>=◌
use_refresh-reuse env family row none now e d' h = absurd (ground arith)
use_refresh-reuse env family row (some c) now e d' h =
    (ground arith, c, refl, ground (arith, leb-false (c + 10 * second) now))

pub revoked-found :
    (sid : ℕ) (f : AuthSession) (e d' : Db)
    → family_of sid e ≡ some f
    → d' ≡ revoke_family f.id e
    → family_of sid d' ≡ some (revoke f)
unfolding family_of
revoked-found sid f e d' found same =
    let p : AuthSession → Bool = λ x. x.id == f.id in
    ap (λ x. lookup (λ (y : AuthSession). y.id) sid x.families) same
    ∙ (lookup-update_where (λ (x : AuthSession). x.id) p revoke sid e.families (λ x. refl)
        ∙ (ap (updated p revoke) found
            ∙ ap (λ b. if b then some (revoke f) else some f) (==_refl f.id)))

-- The 401 of a reuse comes with the end of the family: the credential had been consumed more than
-- ten seconds before, and afterwards no credential of that family is rotated, in any role, at any
-- time.
pub reuse_ends_family :
    (env : Env) (raw other : ℕ) (role again : Role) (now later : ℕ) (row row' : SessionRefresh)
    (a : Rotation) (d d' d'' : Db)
    → rotate env raw role now d ≡ ok reuse_detected d'
    → refresh_of (env.sha256 raw) d ≡ some row
    → refresh_of (env.sha256 other) d' ≡ some row'
    → row'.session_id ≡ row.session_id
    → ((c : ℕ) × (row.consumed_at ≡ some c) × (c + 10 * second < now))
      × (¬ (rotate env other again later d' ≡ ok a d''))
reuse_ends_family env raw other role again now later row row' a d d' d'' h found found'
      same_family =
    let (e, same, same', ran) = rotate-locked env raw role now reuse_detected d d' h in
    let x = rotate_locked-Found env raw role now reuse_detected e d' ran in
    let (revoked, c, last, old) =
      use_refresh-reuse env x.family x.row x.row.consumed_at now e d' x.used in
    let row_is : x.row ≡ row = cc (x.has_row, found, refresh_of-same (env.sha256 raw) e d same) in
    let gone = revoked-found x.row.session_id x.family e d' x.has_family revoked in
    (
      (c, ap (λ (r : SessionRefresh). r.consumed_at) (sym row_is) ∙ last, old),
      λ k.
          let (e', kept, kept', ran') = rotate-locked env other again later a d' d'' k in
          let y = rotate_locked-Found env other again later a e' d'' ran' in
          let row_is' : y.row ≡ row' =
            cc (y.has_row, found', refresh_of-same (env.sha256 other) e' d' kept) in
          let sid : y.row.session_id ≡ x.row.session_id =
            ap (λ (r : SessionRefresh). r.session_id) row_is'
            ∙ (same_family ∙ ap (λ (r : SessionRefresh). r.session_id) (sym row_is)) in
          let family_is : some y.family ≡ some (revoke x.family) =
            sym y.has_family
            ∙ (family_of-same y.row.session_id e' d' kept'
                ∙ (ap (λ i. family_of i d') sid ∙ gone)) in
          invalid_if_revoked env again y.family x.family later family_is y.is_valid,
    )

fresh_credential-there :
    (env : Env) (family : AuthSession) (row : SessionRefresh) (now : ℕ) (f : AuthSession)
    (t : Tokens) (e d' : Db)
    → Rotated env family row now f t e d'
    → exists (is_fresh_credential env f t) d'.refreshes ≡ true
fresh_credential-there env family row now f t e d' r =
    let old =
      update_where
        (λ (x : SessionRefresh). x.token_hash == row.token_hash && not (is_some x.consumed_at))
        (consume now) e.refreshes in
    ap (exists (is_fresh_credential env f t)) r.refreshes
    ∙ (exists-append (is_fresh_credential env f t) old _
        ∙ ground (
          arith,
          r.same,
          ==_refl (env.sha256 t.raw),
          ==_refl f.id,
          ==_refl f.expires_at,
          or-true (exists (is_fresh_credential env f t) old),
        ))

-- A rotation that succeeds was of the stored family that the presented credential's stored row
-- names; the row was not consumed, and the family not revoked, of the caller's role, of the current
-- epoch and not expired. The new credential is of the same family and expires with it, and the access
-- token names the family and its principal.
pub rotated_within_family :
    (env : Env) (raw : ℕ) (role : Role) (now : ℕ) (f : AuthSession) (t : Tokens) (d d' : Db)
    → rotate env raw role now d ≡ ok (rotated f t) d'
    → ((row : SessionRefresh) × (refresh_of (env.sha256 raw) d ≡ some row)
        × (row.consumed_at ≡ none)
        × (family_of row.session_id d ≡ some f))
      × (f.revoked ≡ false)
      × (same_role f.role role ≡ true)
      × (str_eq f.auth_epoch env.auth_epoch ≡ true)
      × (now < f.expires_at)
      × (t.access.jti ≡ f.id)
      × (t.access.sub ≡ f.principal_id)
      × (exists (is_fresh_credential env f t) d'.refreshes ≡ true)
unfolding is_valid_family create_access_token
rotated_within_family env raw role now f t d d' h =
    let (e, same, same', ran) = rotate-locked env raw role now (rotated f t) d d' h in
    let x = rotate_locked-Found env raw role now (rotated f t) e d' ran in
    let (open_row, r) =
      use_refresh-Rotated env x.family x.row x.row.consumed_at now f t e d' x.used in
    (
      (
        x.row,
        sym (refresh_of-same (env.sha256 raw) e d same) ∙ x.has_row,
        open_row,
        sym (family_of-same x.row.session_id e d same') ∙ (x.has_family ∙ ap some (sym r.same)),
      ),
      ground (arith, x.is_valid, r.same),
      ground (arith, x.is_valid, r.same),
      ground (arith, x.is_valid, r.same),
      ground (arith, x.is_valid, r.same, ltb→lt now x.family.expires_at),
      ground (arith, r.access, r.same),
      ground (arith, r.access, r.same),
      fresh_credential-there env x.family x.row now f t e d' r,
    )
