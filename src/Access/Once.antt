-- ===== src/Access/Once.antt =====
-- An invitation is good once, and signs its beneficiary in.
use mathlib.Core.Path.{subst}
use legacylock.Prelude.{
  ℕ, ◌+◌, ◌*◌, ◌<◌, ◌≤◌, ◌≡◌, ◌≢◌, sym, ap, ◌∙◌, refl, false, Option, none, some, ==_refl, arith,
}
use legacylock.Lifecycle.{accepted, same_invitation}
use legacylock.Models.{Db, beneficiary, Beneficiary, day, second}
use legacylock.Env.{Env}
use legacylock.Outcome.{ok}
use legacylock.Sessions.{Tokens, ben_of, valid_family, new_family}
use legacylock.Guards.{beneficiary_for, has_beneficiary_session, principal, get_current_beneficiary}
use legacylock.Guards.Claims.{IsDecoded, expiry, expiry-le, principal-issued, principal-over}
use legacylock.Access.{signed_in, accept_invitation}
use legacylock.Access.Accepted.{Accepted, accept-Accepted, accepted_row}

twice_absurd :
    (id : ℕ) (ben ben2 : Beneficiary) (hash now jti : ℕ) (d : Db)
    → id ≡ ben.id
    → id ≡ ben2.id
    → ben_of ben.id d ≡ some (accepted_row ben hash now jti)
    → ben_of ben2.id d ≡ some ben2
    → same_invitation ben2.invitation_status accepted ≢ false
twice_absurd id ben ben2 hash now jti d same same2 is_now was2 fresh =
    let rows : accepted_row ben hash now jti ≡ ben2 = cc in
    let status : accepted ≡ ben2.invitation_status =
      ap (λ (b : Beneficiary). b.invitation_status) rows in
    let stale : same_invitation accepted accepted ≡ false =
      ap (λ s. same_invitation s accepted) status ∙ fresh in
    absurd (ground arith)

session_counts :
    (env : Env) (ben : Beneficiary) (hash now jti later : ℕ) (d : Db)
    → ben_of ben.id d ≡ some (accepted_row ben hash now jti)
    → valid_family env jti beneficiary ben.id later d
      ≡ some (
          new_family env jti beneficiary ben.id (some ben.vault_id) (some ben.contact_revision) now)
    → beneficiary_for env ben.id (some jti) later d ≡ some (accepted_row ben hash now jti)
unfolding beneficiary_for has_beneficiary_session
session_counts env ben hash now jti later d there valid =
    ground (arith, ==_refl ben.contact_revision, ==_refl ben.vault_id)

-- An invitation is good once: after `accept_invitation` signed a beneficiary in, no invitation token,
-- the same or another, at whatever time, signs this beneficiary in from the database that it left.
pub accept_once :
    (env : Env) (raw now id : ℕ) (tokens : Tokens) (d d' : Db)
    → accept_invitation env raw now d ≡ ok (signed_in id tokens) d'
    → (raw2 later : ℕ) (tokens2 : Tokens) (e : Db)
    → accept_invitation env raw2 later d' ≢ ok (signed_in id tokens2) e
accept_once env raw now id tokens d d' h raw2 later tokens2 e again =
    let first_time : Accepted env now id tokens d d' =
      accept-Accepted env raw now id tokens d d' h in
    let ended : Accepted env later id tokens2 d' e =
      accept-Accepted env raw2 later id tokens2 d' e again in
    twice_absurd id first_time.ben ended.ben first_time.hash now tokens.access.jti d'
      first_time.same_id ended.same_id first_time.is_now ended.was ended.not_accepted

current_beneficiary :
    (env : Env) (token id jti t : ℕ) (d : Db)
    → principal env beneficiary (some token) t ≡ some (id, some jti)
    → get_current_beneficiary env (some token) t d ≡ beneficiary_for env id (some jti) t d
unfolding get_current_beneficiary
current_beneficiary env token id jti t d is_id = ground (arith, is_id)

no_beneficiary :
    (env : Env) (token t : ℕ) (d : Db)
    → principal env beneficiary (some token) t ≡ none
    → get_current_beneficiary env (some token) t d ≡ none
unfolding get_current_beneficiary
no_beneficiary env token t d expired = ground (arith, expired)

-- An acceptance signs in: when `accept_invitation` signed a beneficiary in, `token` is the text that
-- PyJWT decodes to the access token's claims until they expire, and the id that it answered is not
-- zero, then on the database that it left, `get_current_beneficiary` of `token` is a row of that id,
-- accepted, from the acceptance until thirty minutes later, rounded down to the second, and it is no
-- one from then on.
pub accept-signed_in :
    (env : Env) (raw now id token : ℕ) (tokens : Tokens) (d d' : Db)
    → accept_invitation env raw now d ≡ ok (signed_in id tokens) d'
    → IsDecoded env token tokens.access
    → 0 < id
    → (later : ℕ) → now ≤ later
    → later < expiry 30 now
    → ((ben : Beneficiary) × (get_current_beneficiary env (some token) later d' ≡ some ben)
        × (ben.id ≡ id)
        × (ben.invitation_status ≡ accepted))
      × ((after : ℕ) → get_current_beneficiary env (some token) (expiry 30 now + after) d' ≡ none)
accept-signed_in env raw now id token tokens d d' h reads is_id later from in_time =
    let a : Accepted env now id tokens d d' = accept-Accepted env raw now id tokens d d' h in
    let jti = tokens.access.jti in
    let v : Option ℕ = some a.ben.vault_id in
    let c : Option ℕ = some a.ben.contact_revision in
    let known =
      principal-issued env token later beneficiary a.ben.id v c now jti tokens.access a.claims reads
        (subst (λ i. 0 < i) a.same_id is_id) from in_time in
    let alive : later < now + 7 * day =
      (let le : expiry 30 now ≤ now + 30 * (60 * second) = expiry-le 30 now in omega arith) in
    (
      (
        accepted_row a.ben a.hash now jti,
        current_beneficiary env token a.ben.id jti later d' known
            ∙ session_counts env a.ben a.hash now jti later d' a.is_now (a.session later alive),
        sym a.same_id,
        refl,
      ),
      λ after. no_beneficiary env token (expiry 30 now + after) d' (
          principal-over env token after beneficiary a.ben.id v c now jti tokens.access a.claims
            reads),
    )
