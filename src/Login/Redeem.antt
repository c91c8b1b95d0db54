-- ===== src/Login/Redeem.antt =====
-- `redeem_link`: a sign-in link is good once, and only for the contact that it was sent to.
use mathlib.Core.Path.{subst}
use legacylock.Prelude.{
  ℕ, ◌==◌, ◌≡◌, refl, sym, ap, ◌∙◌, true, false, not, ◌&&◌, Option, some, List, String, is_some,
  lookup, update_where, updated, lookup-update_where, key-lookup, inl, inr, Bool-cases,
  Option-cases, arith,
}
use legacylock.Models.{Db, Role, Beneficiary, AuthChallenge, Actor, VaultStatus}
use legacylock.Env.{Env}
use legacylock.Outcome.{ok, err, http, pure, ◌>>=◌, and_then-eq-ok}
use legacylock.Audit.{record_audit}
use legacylock.Trigger.{lock_status}
use legacylock.Sessions.{Tokens, ben_of, family_of, new_family, issue, consume_challenge}
use legacylock.Sessions.Issue.{issue-Issued}
use legacylock.Sessions.Refresh.{family_of-same}
use legacylock.Login.{
  challenge_of, is_redeemable, is_contact_of, burn, redeem_for, redeem_locked, redeem_challenge,
  redeem_link, is_unused,
}

-- What a redemption found and left.
pub record Redeemed (env : Env) (c : AuthChallenge) (now id : ℕ) (tokens : Tokens) (d d' : Db)
    : Type 0 where
  pub ben : Beneficiary
  pub has_row : ben_of c.beneficiary_id d ≡ some ben
  pub is_contact : is_contact_of c ben ≡ true
  pub same_id : ben.id ≡ id
  pub token_of : tokens.access.sub ≡ ben.id
  pub has_family :
      family_of tokens.access.jti d'
      ≡ some (
          new_family env tokens.access.jti Role.beneficiary ben.id
            (some ben.vault_id)
            (some ben.contact_revision)
            now)
  pub burned :
      d'.challenges
      ≡ update_where
          (λ x. (x.token_hash == c.token_hash) && not (is_some x.consumed_at))
          (consume_challenge now)
          d.challenges

audit-same :
    (v : Option ℕ) (actor : Actor) (kind : String) (a b : ℕ × Tokens) (d d' : Db)
    → (record_audit v actor kind >>= λ _. pure a) d ≡ ok b d'
    → (d'.challenges ≡ d.challenges) × (d'.families ≡ d.families) × (a ≡ b)
unfolding record_audit ◌>>=◌
audit-same v actor kind a b d d' h = ground arith

burn-rows :
    (hash now : ℕ) (d d' : Db)
    → burn hash now d ≡ ok tt d'
    → (d'.challenges
        ≡ update_where
            (λ x. (x.token_hash == hash) && not (is_some x.consumed_at))
            (consume_challenge now)
            d.challenges)
unfolding burn ◌>>=◌
burn-rows hash now d d' h = ground arith

for-rows :
    (env : Env) (c : AuthChallenge) (ben : Beneficiary) (now id : ℕ) (tokens : Tokens) (d d' : Db)
    → redeem_for env c ben now d ≡ ok (id, tokens) d'
    → (ben.id ≡ id)
      × (tokens.access.sub ≡ ben.id)
      × (family_of tokens.access.jti d'
          ≡ some (
              new_family env tokens.access.jti Role.beneficiary ben.id
                (some ben.vault_id)
                (some ben.contact_revision)
                now))
      × (d'.challenges
          ≡ update_where
              (λ x. (x.token_hash == c.token_hash) && not (is_some x.consumed_at))
              (consume_challenge now)
              d.challenges)
unfolding redeem_for ◌>>=◌
for-rows env c ben now id tokens d d' h =
    let (u, d1, h1, r1) = and_then-eq-ok (burn c.token_hash now d) _ (id, tokens) d' h in
    let (given, d2, h2, r2) =
      and_then-eq-ok
        (issue env Role.beneficiary ben.id (some ben.vault_id) (some ben.contact_revision) now d1) _
        (id, tokens) d' r1 in
    let (same, families, pair) =
      audit-same (some ben.vault_id) (Actor.beneficiary ben.id) "auth.login" (ben.id, given)
        (id, tokens) d2 d' r2 in
    let (issued, bounds) =
      issue-Issued env Role.beneficiary ben.id (some ben.vault_id) (some ben.contact_revision) now
        given d1 d2 h2 in
    (
      ap (λ (p : ℕ × Tokens). p.0) pair,
      sym (ap (λ (p : ℕ × Tokens). p.1.access.sub) pair) ∙ issued.token_of,
      subst
          (λ (t : Tokens).
            family_of t.access.jti d'
            ≡ some (
                new_family env t.access.jti Role.beneficiary ben.id (some ben.vault_id)
                  (some ben.contact_revision) now))
          (ap (λ (p : ℕ × Tokens). p.1) pair)
          (family_of-same given.access.jti d' d2 families ∙ issued.has_family),
      same ∙ (issued.same_challenges ∙ burn-rows c.token_hash now d d1 h1),
    )

locked-Redeemed :
    (env : Env) (c : AuthChallenge) (now id : ℕ) (tokens : Tokens) (d d' : Db)
    → redeem_locked env c now d ≡ ok (id, tokens) d'
    → Redeemed env c now id tokens d d'
unfolding redeem_locked ◌>>=◌
locked-Redeemed env c now id tokens d d' h = elim (Option-cases (ben_of c.beneficiary_id d)) [
  | inl gone ↦ absurd (ground arith)
  | inr (ben, there) ↦ elim (Bool-cases (is_contact_of c ben)) [
    | inl contact ↦ elim (Bool-cases (is_unused (challenge_of c.token_hash d))) [
      | inl unused ↦
          (let (same, token, family, burned) =
              for-rows env c ben now id tokens d d' (ground arith) in
            record {
              ben = ben;
              has_row = there;
              is_contact = contact;
              same_id = same;
              token_of = token;
              has_family = family;
              burned = burned;
            })
      | inr used ↦ absurd (ground arith)
    ]
    | inr other ↦ absurd (ground arith)
  ]
]

lock-rows :
    (v now : ℕ) (vs : VaultStatus) (d d' : Db)
    → lock_status v now d ≡ ok vs d'
    → (d'.beneficiaries ≡ d.beneficiaries) × (d'.challenges ≡ d.challenges)
unfolding lock_status
lock-rows v now vs d d' h = ground arith

behind_lock :
    (env : Env) (c : AuthChallenge) (v now id : ℕ) (tokens : Tokens) (d d' : Db)
    → (lock_status v now >>= λ _. redeem_locked env c now) d ≡ ok (id, tokens) d'
    → Redeemed env c now id tokens d d'
unfolding ◌>>=◌
behind_lock env c v now id tokens d d' h =
    let (vs, e, h1, h2) = and_then-eq-ok (lock_status v now d) _ (id, tokens) d' h in
    let (rows, challenges) = lock-rows v now vs d e h1 in
    let r : Redeemed env c now id tokens e d' = locked-Redeemed env c now id tokens e d' h2 in
    record {
      ben = r.ben;
      has_row = ap (lookup (λ (b : Beneficiary). b.id) c.beneficiary_id) (sym rows) ∙ r.has_row;
      is_contact = r.is_contact;
      same_id = r.same_id;
      token_of = r.token_of;
      has_family = r.has_family;
      burned =
          r.burned
          ∙ ap
              (update_where (λ x. (x.token_hash == c.token_hash) && not (is_some x.consumed_at))
                (consume_challenge now))
              challenges;
    }

challenge-Redeemed :
    (env : Env) (c : AuthChallenge) (now id : ℕ) (tokens : Tokens) (d d' : Db)
    → redeem_challenge env c now d ≡ ok (id, tokens) d'
    → (is_redeemable env c now ≡ true) × Redeemed env c now id tokens d d'
unfolding redeem_challenge ◌>>=◌
challenge-Redeemed env c now id tokens d d' h = elim (Bool-cases (is_redeemable env c now)) [
  | inl good ↦ elim (Option-cases (ben_of c.beneficiary_id d)) [
    | inl gone ↦ absurd (ground arith)
    | inr (ben, there) ↦ (good, behind_lock env c ben.vault_id now id tokens d d' (ground arith))
  ]
  | inr bad ↦ absurd (ground arith)
]

-- A sign-in is only for the contact that the link was sent to: whenever `redeem_link` succeeds, the
-- token's challenge is stored, is an unused and unexpired one for signing in, and its beneficiary is
-- the one signed in, accepted, and under the contact revision that the link was sent to. The access
-- token is for this beneficiary, and it names a new family of the beneficiary's, for the vault and the
-- contact revision of the row, that is stored afterwards.
pub redeem-Redeemed :
    (env : Env) (raw now id : ℕ) (tokens : Tokens) (d d' : Db)
    → redeem_link env raw now d ≡ ok (id, tokens) d'
    → (c : AuthChallenge) × (challenge_of (env.sha256 raw) d ≡ some c)
      × (is_redeemable env c now ≡ true)
      × Redeemed env c now id tokens d d'
unfolding redeem_link ◌>>=◌
redeem-Redeemed env raw now id tokens d d' h =
    elim (Option-cases (challenge_of (env.sha256 raw) d)) [
      | inl gone ↦ absurd (ground arith)
      | inr (c, there) ↦
          (let (good, redeemed) = challenge-Redeemed env c now id tokens d d' (ground arith) in
            (c, there, good, redeemed))
    ]

used-challenge :
    (hash now : ℕ) (c : AuthChallenge) (rows : List AuthChallenge)
    → lookup (λ (x : AuthChallenge). x.token_hash) hash rows ≡ some c
    → is_some c.consumed_at ≡ false
    → lookup
        (λ (x : AuthChallenge). x.token_hash)
        hash
        (update_where
          (λ x. (x.token_hash == hash) && not (is_some x.consumed_at))
          (consume_challenge now)
          rows)
      ≡ some (consume_challenge now c)
used-challenge hash now c rows there unused =
    let same : c.token_hash ≡ hash =
      key-lookup (λ (x : AuthChallenge). x.token_hash) hash rows c there in
    lookup-update_where (λ (x : AuthChallenge). x.token_hash)
      (λ x. (x.token_hash == hash) && not (is_some x.consumed_at)) (consume_challenge now) hash rows
      (λ x. refl)
    ∙ (ap
          (updated (λ (x : AuthChallenge). (x.token_hash == hash) && not (is_some x.consumed_at))
            (consume_challenge now))
          there
        ∙ ground arith)

redeemable-unused :
    (env : Env) (c : AuthChallenge) (now : ℕ)
    → is_redeemable env c now ≡ true
    → is_some c.consumed_at ≡ false
unfolding is_redeemable
redeemable-unused env c now h = ground arith

used-not_redeemable :
    (env : Env) (c : AuthChallenge) (now later : ℕ)
    → is_redeemable env (consume_challenge now c) later ≡ false
unfolding is_redeemable
used-not_redeemable env c now later = ground arith

refused :
    (env : Env) (raw later : ℕ) (c : AuthChallenge) (d : Db)
    → challenge_of (env.sha256 raw) d ≡ some c
    → is_redeemable env c later ≡ false
    → redeem_link env raw later d ≡ err (http 401)
unfolding redeem_link redeem_challenge ◌>>=◌
refused env raw later c d there bad = simp there (simp bad refl)

-- A sign-in link is good once: after `redeem_link` succeeded with a token, it answers 401 to this
-- token, at whatever time, on the database that it left.
pub redeem_once :
    (env : Env) (raw now id : ℕ) (tokens : Tokens) (d d' : Db)
    → redeem_link env raw now d ≡ ok (id, tokens) d'
    → (later : ℕ) → redeem_link env raw later d' ≡ err (http 401)
unfolding challenge_of
redeem_once env raw now id tokens d d' h later =
    let (c, there, good, redeemed) = redeem-Redeemed env raw now id tokens d d' h in
    let same : c.token_hash ≡ env.sha256 raw =
      key-lookup (λ (x : AuthChallenge). x.token_hash) (env.sha256 raw) d.challenges c there in
    let burned : d'.challenges
        ≡ update_where (λ x. (x.token_hash == env.sha256 raw) && not (is_some x.consumed_at))
            (consume_challenge now) d.challenges =
      redeemed.burned
      ∙ ap
          (λ k.
            update_where (λ x. (x.token_hash == k) && not (is_some x.consumed_at))
              (consume_challenge now) d.challenges)
          same in
    refused env raw later (consume_challenge now c) d'
      (ap (lookup (λ (x : AuthChallenge). x.token_hash) (env.sha256 raw)) burned
        ∙ used-challenge (env.sha256 raw) now c d.challenges there
            (redeemable-unused env c now good))
      (used-not_redeemable env c now later)
