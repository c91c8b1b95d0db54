-- ===== src/Access/Invitations.antt =====
-- `accept_invitation`: an invitation is good for one acceptance, which signs its beneficiary in.
use mathlib.Core.Path.{subst}
use legacylock.Prelude.{
  ℕ, ◌≡◌, refl, sym, ap, ◌∙◌, Bool, true, false, not, some, lookup, update_where, key-lookup, inl,
  inr, Bool-cases, Option-cases, arith, if◌then◌else◌, opt_eq,
}
use legacylock.Lifecycle.{accepted, expired, same_invitation}
use legacylock.Models.{Db, Beneficiary, VaultStatus}
use legacylock.Env.{Env}
use legacylock.Outcome.{ok, http, Tx, Error, guard, ◌>>=◌, and_then-eq-ok}
use legacylock.Audit.{record_audit}
use legacylock.Outbox.{draw}
use legacylock.Trigger.{lock_status}
use legacylock.Sessions.{Tokens, ben_of}
use legacylock.Access.{
  find_by_invite, is_too_old, Acceptance, signed_in, expire, is_open, accept_row, flip, sign_in,
  accept_fresh, accept_locked, accept_row_of, accept_as, accept_invitation,
}

-- What a successful sign-in found: the row, behind the lock.
pub record Accepting (env : Env) (raw now id : ℕ) (tokens : Tokens) (d d' : Db) : Type 0 where
  pub locked : Db
  pub ben : Beneficiary
  pub same_rows : locked.beneficiaries ≡ d.beneficiaries
  pub has_row : ben_of ben.id d ≡ some ben
  pub not_accepted : same_invitation ben.invitation_status accepted ≡ false
  pub goes_on : accept_fresh env raw ben now locked ≡ ok (signed_in id tokens) d'

guard-inv : (t : Bool) (e : Error) (d d' : Db) → guard t e d ≡ ok tt d' → (d' ≡ d) × (t ≡ true)
unfolding guard
guard-inv true e d d' h = (ground arith, refl)
guard-inv false e d d' h = absurd (ground arith)

not_expired :
    (t : Bool) (ben : Beneficiary) (m : Tx Db Acceptance) (id : ℕ) (tokens : Tokens) (d d' : Db)
    → (if t then expire ben else m) d ≡ ok (signed_in id tokens) d'
    → m d ≡ ok (signed_in id tokens) d'
unfolding expire record_audit ◌>>=◌
not_expired true ben m id tokens d d' h = absurd (ground arith)
not_expired false ben m id tokens d d' h = h

locked-Accepting :
    (env : Env) (raw now id : ℕ) (ben : Beneficiary) (tokens : Tokens) (d e d' : Db)
    → accept_locked env raw ben now e ≡ ok (signed_in id tokens) d'
    → (same_invitation ben.invitation_status accepted ≡ false)
      × (accept_fresh env raw ben now e ≡ ok (signed_in id tokens) d')
unfolding accept_locked expire record_audit ◌>>=◌
locked-Accepting env raw now id ben tokens d e d' h =
    let (u1, d1, h1, r1) =
      and_then-eq-ok (guard (opt_eq ben.invitation_hash (some (env.sha256 raw))) (http 404) e) _
        (signed_in id tokens) d' h in
    let (u2, d2, h2, r2) =
      and_then-eq-ok (guard (not (same_invitation ben.invitation_status accepted)) (http 409) d1) _
        (signed_in id tokens) d' r1 in
    let (u3, d3, h3, r3) =
      and_then-eq-ok (guard (not (same_invitation ben.invitation_status expired)) (http 410) d2) _
        (signed_in id tokens) d' r2 in
    let (s1, t1) =
      guard-inv (opt_eq ben.invitation_hash (some (env.sha256 raw))) (http 404) e d1 h1 in
    let (s2, t2) =
      guard-inv (not (same_invitation ben.invitation_status accepted)) (http 409) d1 d2 h2 in
    let (s3, t3) =
      guard-inv (not (same_invitation ben.invitation_status expired)) (http 410) d2 d3 h3 in
    (
      ground arith,
      subst (λ x. accept_fresh env raw ben now x ≡ ok (signed_in id tokens) d') (s3 ∙ (s2 ∙ s1))
          (not_expired (is_too_old ben.invitation_sent_at now) ben (accept_fresh env raw ben now) id
            tokens d3 d' r3),
    )

row-Accepting :
    (env : Env) (raw now id key : ℕ) (tokens : Tokens) (d e d' : Db)
    → e.beneficiaries ≡ d.beneficiaries
    → accept_row_of env raw key now e ≡ ok (signed_in id tokens) d'
    → Accepting env raw now id tokens d d'
unfolding accept_row_of ◌>>=◌
row-Accepting env raw now id key tokens d e d' rows h = elim (Option-cases (ben_of key e)) [
  | inl gone ↦ absurd (ground arith)
  | inr (ben, there) ↦
      (let goes : accept_locked env raw ben now e ≡ ok (signed_in id tokens) d' = ground arith in
        let (fresh, next) = locked-Accepting env raw now id ben tokens d e d' goes in
        let same : ben.id ≡ key =
          key-lookup (λ (b : Beneficiary). b.id) key e.beneficiaries ben there in
        record {
          locked = e;
          ben = ben;
          same_rows = rows;
          has_row =
              subst (λ i. ben_of i d ≡ some ben) (sym same)
                (ap (lookup (λ (b : Beneficiary). b.id) key) (sym rows) ∙ there);
          not_accepted = fresh;
          goes_on = next;
        })
]

lock-rows :
    (v now : ℕ) (vs : VaultStatus) (d d' : Db)
    → lock_status v now d ≡ ok vs d'
    → d'.beneficiaries ≡ d.beneficiaries
unfolding lock_status
lock-rows v now vs d d' h = ground arith

as-Accepting :
    (env : Env) (raw now id : ℕ) (candidate : Beneficiary) (tokens : Tokens) (d d' : Db)
    → accept_as env raw candidate now d ≡ ok (signed_in id tokens) d'
    → Accepting env raw now id tokens d d'
unfolding accept_as ◌>>=◌
as-Accepting env raw now id candidate tokens d d' h =
    let (vs, e, h1, h2) =
      and_then-eq-ok (lock_status candidate.vault_id now d) _ (signed_in id tokens) d' h in
    row-Accepting env raw now id candidate.id tokens d e d'
      (lock-rows candidate.vault_id now vs d e h1) h2

pub accept-Accepting :
    (env : Env) (raw now id : ℕ) (tokens : Tokens) (d d' : Db)
    → accept_invitation env raw now d ≡ ok (signed_in id tokens) d'
    → Accepting env raw now id tokens d d'
unfolding accept_invitation ◌>>=◌
accept-Accepting env raw now id tokens d d' h = elim (Option-cases (find_by_invite env raw d)) [
  | inl gone ↦ absurd (ground arith)
  | inr (candidate, there) ↦ as-Accepting env raw now id candidate tokens d d' (ground arith)
]

pub fresh-signed :
    (env : Env) (raw now id : ℕ) (ben : Beneficiary) (tokens : Tokens) (e d' : Db)
    → accept_fresh env raw ben now e ≡ ok (signed_in id tokens) d'
    → (f : Db) × (flip env raw ben now e ≡ ok tt f)
      × (sign_in env ben now f ≡ ok (signed_in id tokens) d')
unfolding accept_fresh ◌>>=◌
fresh-signed env raw now id ben tokens e d' h =
    let (u, f, h1, h2) = and_then-eq-ok (flip env raw ben now e) _ (signed_in id tokens) d' h in
    (f, h1, h2)

pub flip-row :
    (env : Env) (raw now : ℕ) (ben : Beneficiary) (e f : Db)
    → flip env raw ben now e ≡ ok tt f
    → (row : Beneficiary) × (ben_of ben.id e ≡ some row)
      × (is_open (env.sha256 raw) ben row ≡ true)
      × (hash : ℕ) × (f.beneficiaries
          ≡ update_where (is_open (env.sha256 raw) ben) (accept_row hash now) e.beneficiaries)
unfolding flip draw ◌>>=◌
flip-row env raw now ben e f h = elim (Option-cases (ben_of ben.id e)) [
  | inl gone ↦ absurd (ground arith)
  | inr (row, there) ↦ elim (Bool-cases (is_open (env.sha256 raw) ben row)) [
    | inl open_row ↦ (row, there, open_row, env.sha256 (env.random e.drawn), ground arith)
    | inr shut ↦ absurd (ground arith)
  ]
]
