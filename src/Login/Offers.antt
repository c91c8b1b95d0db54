-- ===== src/Login/Offers.antt =====
-- `request_link`: whom the sign-in links are sent to.
use mathlib.Core.Path.{subst}
use legacylock.Prelude.{
  ℕ, ◌≡◌, refl, sym, ap, ◌∙◌, true, not, ◌&&◌, Option, none, some, List, [], ◌∷◌, ◌++◌, String,
  str_eq, length, leb, lookup, inl, inr, Bool-cases, arith, All, All-append, key-lookup,
}
use legacylock.Lifecycle.{accepted, same_invitation}
use legacylock.Models.{Db, Beneficiary, AuthChallenge, VaultStatus}
use legacylock.Env.{Env}
use legacylock.Outcome.{ok, ◌>>=◌, and_then-eq-ok}
use legacylock.Audit.{record_audit}
use legacylock.Outbox.{draw, event, enqueue}
use legacylock.Trigger.{lock_status}
use legacylock.Sessions.{ben_of}
use legacylock.Login.{
  new_challenge, add_challenge, send_link, is_still, is_cooling, latest_of, offer_to, offer,
  offer_each, offer_all, request_link, has_recent, login_candidates, is_id,
}

-- The challenge is for an accepted beneficiary with this address, under its contact revision.
pub record IsOffered (email : String) (rows : List Beneficiary) (c : AuthChallenge) : Type 0 where
  pub ben : Beneficiary
  pub has_row : lookup (λ (b : Beneficiary). b.id) c.beneficiary_id rows ≡ some ben
  pub is_accepted : same_invitation ben.invitation_status accepted ≡ true
  pub has_email : str_eq ben.email email ≡ true
  pub same_revision : c.contact_revision ≡ ben.contact_revision

-- Links were added, each of them offered, and the rows stayed.
pub record Offers (email : String) (d d' : Db) : Type 0 where
  pub new : List AuthChallenge
  pub added : d'.challenges ≡ d.challenges ++ new
  pub all_offered : All (IsOffered email d.beneficiaries) new
  pub same_rows : d'.beneficiaries ≡ d.beneficiaries

append_nil : {A : Type 0} (xs : List A) → xs ++ [] ≡ xs
append_nil [] = refl
append_nil (x ∷ xs) = ap (λ ys. x ∷ ys) (append_nil xs)

append_assoc : {A : Type 0} (xs ys zs : List A) → (xs ++ ys) ++ zs ≡ xs ++ (ys ++ zs)
append_assoc [] ys zs = refl
append_assoc (x ∷ xs) ys zs = ap (λ ws. x ∷ ws) (append_assoc xs ys zs)

no-Offers :
    (email : String) (d d' : Db)
    → d'.challenges ≡ d.challenges
    → d'.beneficiaries ≡ d.beneficiaries
    → Offers email d d'
no-Offers email d d' same rows = record {
  new = [];
  added = same ∙ sym (append_nil d.challenges);
  all_offered = tt;
  same_rows = rows;
}

Offers-trans :
    (email : String) (d e f : Db) → Offers email d e → Offers email e f → Offers email d f
Offers-trans email d e f a b = record {
  new = a.new ++ b.new;
  added = b.added ∙ (ap (λ cs. cs ++ b.new) a.added ∙ append_assoc d.challenges a.new b.new);
  all_offered =
      All-append (IsOffered email d.beneficiaries) a.new b.new a.all_offered
        (subst (λ rows. All (IsOffered email rows) b.new) a.same_rows b.all_offered);
  same_rows = b.same_rows ∙ a.same_rows;
}

link-rows :
    (env : Env) (ben : Beneficiary) (revision now : ℕ) (d d' : Db)
    → send_link env ben revision now d ≡ ok tt d'
    → (raw : ℕ) × (d'.challenges ≡ d.challenges ++ new_challenge env raw ben now ∷ [])
      × (d'.beneficiaries ≡ d.beneficiaries)
unfolding send_link draw add_challenge event enqueue record_audit ◌>>=◌
link-rows env ben revision now d d' h = (env.random d.drawn, ground arith, ground arith)

new-IsOffered :
    (env : Env) (raw now : ℕ) (email : String) (ben : Beneficiary) (rows : List Beneficiary)
    → lookup (λ (b : Beneficiary). b.id) ben.id rows ≡ some ben
    → is_still email ben ≡ true
    → IsOffered email rows (new_challenge env raw ben now)
unfolding new_challenge
new-IsOffered env raw now email ben rows there still = record {
  ben = ben;
  has_row = there;
  is_accepted = ground arith;
  has_email = ground arith;
  same_revision = refl;
}

to-Offers :
    (env : Env) (email : String) (id : ℕ) (ben : Option Beneficiary) (revision now : ℕ) (d d' : Db)
    → ben_of id d ≡ ben
    → offer_to env email ben revision now d ≡ ok tt d'
    → Offers email d d'
unfolding offer_to ◌>>=◌
to-Offers env email id none revision now d d' there h =
    no-Offers email d d' (ground arith) (ground arith)
to-Offers env email id (some ben) revision now d d' there h =
    elim (Bool-cases (is_still email ben && not (is_cooling (latest_of ben.id d) now))) [
      | inl goes ↦
          (let sends : send_link env ben revision now d ≡ ok tt d' = ground arith in
            let (raw, added, rows) = link-rows env ben revision now d d' sends in
            let key : ben.id ≡ id =
              key-lookup (λ (b : Beneficiary). b.id) id d.beneficiaries ben there in
            record {
              new = new_challenge env raw ben now ∷ [];
              added = added;
              all_offered = (
                new-IsOffered env raw now email ben d.beneficiaries
                    (subst (λ i. ben_of i d ≡ some ben) (sym key) there) (ground arith),
                tt,
              );
              same_rows = rows;
            })
      | inr stays ↦ no-Offers email d d' (ground arith) (ground arith)
    ]

lock-Offers :
    (email : String) (v now : ℕ) (vs : VaultStatus) (d d' : Db)
    → lock_status v now d ≡ ok vs d'
    → Offers email d d'
unfolding lock_status
lock-Offers email v now vs d d' h = no-Offers email d d' (ground arith) (ground arith)

offer-Offers :
    (env : Env) (email : String) (candidate : Beneficiary) (now : ℕ) (d d' : Db)
    → offer env email candidate now d ≡ ok tt d'
    → Offers email d d'
unfolding offer ◌>>=◌
offer-Offers env email candidate now d d' h =
    let (vs, e, h1, h2) = and_then-eq-ok (lock_status candidate.vault_id now d) _ tt d' h in
    Offers-trans email d e d' (lock-Offers email candidate.vault_id now vs d e h1)
      (to-Offers env email candidate.id (ben_of candidate.id e) vs.version now e d' refl h2)

each-Offers :
    (env : Env) (email : String) (bs : List Beneficiary) (now : ℕ) (d d' : Db)
    → offer_each env email bs now d ≡ ok tt d'
    → Offers email d d'
unfolding offer_each ◌>>=◌
each-Offers env email [] now d d' h = no-Offers email d d' (ground arith) (ground arith)
each-Offers env email (b ∷ bs) now d d' h =
    let (u, e, h1, h2) = and_then-eq-ok (offer env email b now d) _ tt d' h in
    Offers-trans email d e d' (offer-Offers env email b now d e h1)
      (each-Offers env email bs now e d' h2)

all-Offers :
    (env : Env) (email : String) (bs : List Beneficiary) (now : ℕ) (d d' : Db)
    → offer_all env email bs now d ≡ ok tt d'
    → Offers email d d'
unfolding offer_all ◌>>=◌
all-Offers env email bs now d d' h = elim (Bool-cases (leb (length bs) 10)) [
  | inl few ↦ each-Offers env email bs now d d' (ground arith)
  | inr many ↦ no-Offers email d d' (ground arith) (ground arith)
]

-- Links go to accepted beneficiaries of the address alone: whenever `request_link` succeeds, it keeps
-- the stored challenges and the beneficiary rows, and each challenge that it adds is for a
-- beneficiary with that address, as normalised, who is accepted, under the row's contact revision.
pub request_link-Offers :
    (env : Env) (address : String) (id : Option ℕ) (now : ℕ) (d d' : Db)
    → request_link env address id now d ≡ ok tt d'
    → Offers (env.strip_lower address) d d'
unfolding request_link ◌>>=◌
request_link-Offers env address id now d d' h = elim (Bool-cases (is_id id)) [
  | inl good ↦ elim (Bool-cases (has_recent (env.strip_lower address) now d)) [
    | inl recent ↦ no-Offers (env.strip_lower address) d d' (ground arith) (ground arith)
    | inr free ↦
        all-Offers env (env.strip_lower address) (login_candidates (env.strip_lower address) id d)
          now d d' (ground arith)
  ]
  | inr bad ↦ absurd (ground arith)
]
