-- ===== src/Access/Accepted.antt =====
-- An accepted invitation: the row and the session that it leaves.
use mathlib.Core.Path.{subst}
use legacylock.Prelude.{
  ℕ, ◌+◌, ◌*◌, ◌<◌, ◌==◌, ◌≡◌, refl, sym, ap, ◌∙◌, true, false, Option, none, some, List, String,
  lookup, update_where, updated, lookup-update_where, first, first-passes, inl, inr, Option-cases,
  ==_refl, ==→≡, arith, if◌then◌else◌,
}
use legacylock.Lifecycle.{accepted, same_invitation}
use legacylock.Models.{Db, Role, beneficiary, Beneficiary, Vault, Actor, day}
use legacylock.Env.{Env}
use legacylock.Outcome.{ok, pure, ◌>>=◌, and_then-eq-ok}
use legacylock.Audit.{record_audit}
use legacylock.Sessions.{
  Tokens, ben_of, issue, bind_jti, valid_family, is_valid_family, new_family, create_access_token,
}
use legacylock.Sessions.Issue.{Issued, issue-Issued, bound, family-IsValid}
use legacylock.Access.{vault_of, signed_in, is_open, accept_row, sign_in, accept_invitation}
use legacylock.Access.Invitations.{Accepting, accept-Accepting, fresh-signed, flip-row}
use legacylock.Sessions.Refresh.{family_of-same}

-- The family is opened for the contact and the vault of the row.
pub record SignedIn (env : Env) (now id : ℕ) (ben : Beneficiary) (tokens : Tokens) (f d' : Db)
    : Type 0 where
  pub same_id : id ≡ ben.id
  pub before_audit : Db
  pub issued :
      Issued env beneficiary ben.id
        (some ben.vault_id)
        (some ben.contact_revision)
        now
        tokens
        f
        before_audit
  pub rows : d'.beneficiaries ≡ bound beneficiary ben.id tokens.access.jti f.beneficiaries
  pub same_families : d'.families ≡ before_audit.families

audit-same :
    (env : Env) (v : Option ℕ) (actor : Actor) (kind : String) (id id' : ℕ)
    (tokens tokens' : Tokens) (d d' : Db)
    → (record_audit v actor kind >>= λ _. pure (signed_in id tokens)) d
      ≡ ok (signed_in id' tokens') d'
    → (d'.beneficiaries ≡ d.beneficiaries)
      × (d'.families ≡ d.families)
      × (id ≡ id')
      × (tokens ≡ tokens')
unfolding record_audit ◌>>=◌
audit-same env v actor kind id id' tokens tokens' d d' h = ground arith

vault_of-id :
    (ben : Beneficiary) (vault : Vault) (d d' : Db)
    → vault_of ben d ≡ ok vault d'
    → (vault.id ≡ ben.vault_id) × (d' ≡ d)
unfolding vault_of ◌>>=◌
vault_of-id ben vault d d' h =
    elim (Option-cases (first (λ (v : Vault). v.id == ben.vault_id) d.vaults)) [
      | inl gone ↦ absurd (ground arith)
      | inr (v, there) ↦
          (let same : v ≡ vault = ground arith in
            (
              ap (λ (v : Vault). v.id) (sym same)
                  ∙ ==→≡ v.id ben.vault_id
                      (first-passes (λ (v : Vault). v.id == ben.vault_id) d.vaults v there),
              ground arith,
            ))
    ]

Issued-SignedIn :
    (env : Env) (now id : ℕ) (ben : Beneficiary) (v : ℕ) (tokens given : Tokens) (f f1 f2 d' : Db)
    → id ≡ ben.id
    → v ≡ ben.vault_id
    → f1 ≡ f
    → given ≡ tokens
    → d'.beneficiaries ≡ f2.beneficiaries
    → d'.families ≡ f2.families
    → Issued env beneficiary ben.id (some v) (some ben.contact_revision) now given f1 f2
      × (f2.beneficiaries ≡ bound beneficiary ben.id given.access.jti f1.beneficiaries)
    → SignedIn env now id ben tokens f d'
Issued-SignedIn env now id ben v tokens given f f1 f2 d' same_id same_vault stays names rows
      families (issued, bounds) =
    record {
      same_id = same_id;
      before_audit = f2;
      issued =
          subst
            (λ t.
              Issued env beneficiary ben.id (some ben.vault_id) (some ben.contact_revision) now t f
                f2)
            names
            (subst
              (λ x.
                Issued env beneficiary ben.id (some ben.vault_id) (some ben.contact_revision) now
                  given x f2)
              stays
              (subst
                (λ x.
                  Issued env beneficiary ben.id (some x) (some ben.contact_revision) now given f1
                    f2)
                same_vault issued));
      rows = cc;
      same_families = families;
    }

sign_in-SignedIn :
    (env : Env) (now id : ℕ) (ben : Beneficiary) (tokens : Tokens) (f d' : Db)
    → sign_in env ben now f ≡ ok (signed_in id tokens) d'
    → SignedIn env now id ben tokens f d'
unfolding sign_in ◌>>=◌
sign_in-SignedIn env now id ben tokens f d' h =
    let (vault, f1, h1, r1) = and_then-eq-ok (vault_of ben f) _ (signed_in id tokens) d' h in
    let (given, f2, h2, r2) =
      and_then-eq-ok
        (issue env beneficiary ben.id (some vault.id) (some ben.contact_revision) now f1) _
        (signed_in id tokens) d' r1 in
    let (rows, families, same, names) =
      audit-same env (some vault.id) (Actor.beneficiary ben.id) "invite.accept" ben.id id given
        tokens f2 d' r2 in
    let (same_vault, stays) = vault_of-id ben vault f f1 h1 in
    Issued-SignedIn env now id ben vault.id tokens given f f1 f2 d' (sym same) same_vault stays
      names rows families
      (issue-Issued env beneficiary ben.id (some vault.id) (some ben.contact_revision) now given f1
        f2 h2)

-- The row once its invitation is accepted and its session bound.
abbrev pub accepted_row : Beneficiary → ℕ → ℕ → ℕ → Beneficiary
accepted_row ben hash now jti = bind_jti jti (accept_row hash now ben)

-- What an acceptance leaves.
pub record Accepted (env : Env) (now id : ℕ) (tokens : Tokens) (d d' : Db) : Type 0 where
  pub ben : Beneficiary
  pub hash : ℕ
  pub same_id : id ≡ ben.id
  pub was : ben_of ben.id d ≡ some ben
  pub not_accepted : same_invitation ben.invitation_status accepted ≡ false
  pub is_now : ben_of ben.id d' ≡ some (accepted_row ben hash now tokens.access.jti)
  pub claims :
      tokens.access
      ≡ create_access_token env
          (new_family env tokens.access.jti beneficiary ben.id
            (some ben.vault_id)
            (some ben.contact_revision)
            now)
          now
  pub session :
      (later : ℕ)
      → later < now + 7 * day
      → valid_family env tokens.access.jti beneficiary ben.id later d'
        ≡ some (
            new_family env tokens.access.jti beneficiary ben.id
              (some ben.vault_id)
              (some ben.contact_revision)
              now)

looked_up :
    (hash fresh now jti : ℕ) (ben : Beneficiary) (rows : List Beneficiary)
    → lookup (λ (b : Beneficiary). b.id) ben.id rows ≡ some ben
    → is_open hash ben ben ≡ true
    → lookup
        (λ (b : Beneficiary). b.id)
        ben.id
        (bound beneficiary ben.id jti (update_where (is_open hash ben) (accept_row fresh now) rows))
      ≡ some (accepted_row ben fresh now jti)
looked_up hash fresh now jti ben rows found opens =
    let once =
      lookup-update_where (λ (b : Beneficiary). b.id) (is_open hash ben) (accept_row fresh now)
        ben.id rows (λ x. refl) in
    let twice =
      lookup-update_where (λ (b : Beneficiary). b.id) (λ b. b.id == ben.id) (bind_jti jti) ben.id
        (update_where (is_open hash ben) (accept_row fresh now) rows) (λ x. refl) in
    let first_row : lookup (λ (b : Beneficiary). b.id) ben.id
          (update_where (is_open hash ben) (accept_row fresh now) rows)
        ≡ some (accept_row fresh now ben) =
      once
      ∙ (ap (updated (is_open hash ben) (accept_row fresh now)) found
          ∙ ap (λ t. if t then some (accept_row fresh now ben) else some ben) opens) in
    twice
    ∙ (ap (updated (λ b. b.id == ben.id) (bind_jti jti)) first_row
        ∙ ap
            (λ t.
              if t then some (accepted_row ben fresh now jti) else some (accept_row fresh now ben))
            (==_refl ben.id))

valid_family-same :
    (env : Env) (sid : ℕ) (role : Role) (id later : ℕ) (d e : Db)
    → d.families ≡ e.families
    → valid_family env sid role id later d ≡ valid_family env sid role id later e
unfolding valid_family
valid_family-same env sid role id later d e same =
    ap
      (λ o. elim o [
        | none ↦ none
        | some family ↦ if is_valid_family env role id later family then some family else none
      ])
      (family_of-same sid d e same)

open_row :
    (hash : ℕ) (ben row : Beneficiary) (d e : Db)
    → e.beneficiaries ≡ d.beneficiaries
    → ben_of ben.id d ≡ some ben
    → ben_of ben.id e ≡ some row
    → is_open hash ben row ≡ true
    → is_open hash ben ben ≡ true
open_row hash ben row d e rows was there opens =
    let same : row ≡ ben = cc in subst (λ b. is_open hash ben b ≡ true) same opens

pub accept-Accepted :
    (env : Env) (raw now id : ℕ) (tokens : Tokens) (d d' : Db)
    → accept_invitation env raw now d ≡ ok (signed_in id tokens) d'
    → Accepted env now id tokens d d'
accept-Accepted env raw now id tokens d d' h =
    let a : Accepting env raw now id tokens d d' = accept-Accepting env raw now id tokens d d' h in
    let (f, flips, signs) = fresh-signed env raw now id a.ben tokens a.locked d' a.goes_on in
    let (row, there, opens, hash, rows) = flip-row env raw now a.ben a.locked f flips in
    let s : SignedIn env now id a.ben tokens f d' =
      sign_in-SignedIn env now id a.ben tokens f d' signs in
    let all : d'.beneficiaries
        ≡ bound beneficiary a.ben.id tokens.access.jti
            (update_where (is_open (env.sha256 raw) a.ben) (accept_row hash now) d.beneficiaries) =
      s.rows
      ∙ ap (bound beneficiary a.ben.id tokens.access.jti) (
          rows
          ∙ ap (update_where (is_open (env.sha256 raw) a.ben) (accept_row hash now)) a.same_rows) in
    record {
      ben = a.ben;
      hash = hash;
      same_id = s.same_id;
      was = a.has_row;
      not_accepted = a.not_accepted;
      is_now =
          ap (lookup (λ (b : Beneficiary). b.id) a.ben.id) all
          ∙ looked_up (env.sha256 raw) hash now tokens.access.jti a.ben d.beneficiaries a.has_row
              (open_row (env.sha256 raw) a.ben row d a.locked a.same_rows a.has_row there opens);
      claims = s.issued.claims;
      session = λ later in_time.
          valid_family-same env tokens.access.jti beneficiary a.ben.id later d' s.before_audit
            s.same_families
          ∙ family-IsValid env beneficiary a.ben.id (some a.ben.vault_id)
              (some a.ben.contact_revision) now later tokens f s.before_audit s.issued in_time;
    }
