-- ===== src/Login.antt =====
-- backend/routers/beneficiary_login.py: sign-in links for accepted beneficiaries.
pub mod Redeem
pub mod Offers
use legacylock.Prelude.{
  ℕ, ◌+◌, ◌*◌, ◌==◌, Bool, true, false, not, ◌&&◌, ◌||◌, Option, none, some, List, [], ◌∷◌, ◌++◌,
  String, str_eq, exists, filter, take, length, leb, ltb, is_some, lookup, update_where,
  if◌then◌else◌,
}
use legacylock.Lifecycle.{accepted, same_invitation}
use legacylock.Models.{
  Db, Beneficiary, AuthChallenge, login, other, Role, beneficiary_login, Recipient, Channel,
  login_link, Actor, second,
}
use legacylock.Env.{Env}
use legacylock.Outcome.{Tx, http, integrity, ◌>>=◌, ◌>>◌, guard, pure, gets, modify, or_raise}
use legacylock.Audit.{record_audit}
use legacylock.Outbox.{draw, event, enqueue}
use legacylock.Trigger.{lock_status}
use legacylock.Sessions.{Tokens, ben_of, issue, consume_challenge}

abbrev pub minute : ℕ
minute = 60 * second

abbrev pub is_login : AuthChallenge → Bool
is_login c = elim c.purpose [ login ↦ true | other ↦ false ]

abbrev asked_for : String → Option ℕ → Beneficiary → Bool
asked_for email none b = str_eq b.email email && same_invitation b.invitation_status accepted
asked_for email (some id) b =
    (str_eq b.email email && same_invitation b.invitation_status accepted) && (b.id == id)

-- `ORDER BY vault_id, id`
abbrev comes_first : Beneficiary → Beneficiary → Bool
comes_first a b = ltb a.vault_id b.vault_id || ((a.vault_id == b.vault_id) && leb a.id b.id)

insert_candidate : Beneficiary → List Beneficiary → List Beneficiary
insert_candidate b [] = b ∷ []
insert_candidate b (x ∷ xs) = if comes_first b x then b ∷ x ∷ xs else x ∷ insert_candidate b xs

unfoldable pub sort_candidates : List Beneficiary → List Beneficiary
unfolding insert_candidate
sort_candidates [] = []
sort_candidates (b ∷ bs) = insert_candidate b (sort_candidates bs)

abbrev owner_has_email : String → Option Beneficiary → Bool
owner_has_email email none = false
owner_has_email email (some b) = str_eq b.email email

-- A challenge of less than a minute ago for a beneficiary with this address.
unfoldable pub has_recent : String → ℕ → Db → Bool
has_recent email now db =
    exists
      (λ c.
        owner_has_email email (ben_of c.beneficiary_id db)
        && (is_login c && ltb now (c.created_at + minute)))
      db.challenges

abbrev newer : AuthChallenge → Option AuthChallenge → Option AuthChallenge
newer c none = some c
newer c (some d) = if leb d.created_at c.created_at then some c else some d

-- `ORDER BY created_at DESC`, the first row
unfoldable pub latest : List AuthChallenge → Option AuthChallenge
latest [] = none
latest (c ∷ cs) = newer c (latest cs)

abbrev pub is_cooling : Option AuthChallenge → ℕ → Bool
is_cooling none now = false
is_cooling (some c) now = ltb now (c.created_at + minute)

unfoldable pub latest_of : ℕ → Db → Option AuthChallenge
latest_of id db = latest (filter (λ c. (c.beneficiary_id == id) && is_login c) db.challenges)

-- The primary key of a challenge is its hash.
unfoldable pub add_challenge : AuthChallenge → Tx Db (Unit {0})
add_challenge row = do
  clash ← gets (λ db. exists (λ (c : AuthChallenge). c.token_hash == row.token_hash) db.challenges)
  guard (not clash) integrity
  modify (λ db. record db { challenges = db.challenges ++ row ∷ [] })

unfoldable pub new_challenge : Env → ℕ → Beneficiary → ℕ → AuthChallenge
new_challenge env raw ben now = record {
  token_hash = env.sha256 raw;
  beneficiary_id = ben.id;
  contact_revision = ben.contact_revision;
  purpose = login;
  auth_epoch = env.auth_epoch;
  consumed_at = none;
  expires_at = now + 15 * minute;
  created_at = now;
}

unfoldable pub send_link : Env → Beneficiary → ℕ → ℕ → Tx Db (Unit {0})
send_link env ben revision now = do
  raw ← draw env
  add_challenge (new_challenge env raw ben now)
  business ← event env (some ben.vault_id) beneficiary_login revision
  enqueue env business (Recipient.beneficiary ben.id)
      (record { to = ben.email; body = login_link env.frontend_origin raw }) (some ben)
      Channel.email (some (now + 15 * minute)) now
  record_audit (some ben.vault_id) (Actor.beneficiary ben.id) "auth.challenge_issued"

-- The row is still the one that was asked for.
abbrev pub is_still : String → Beneficiary → Bool
is_still email ben = same_invitation ben.invitation_status accepted && str_eq ben.email email

unfoldable pub offer_to : Env → String → Option Beneficiary → ℕ → ℕ → Tx Db (Unit {0})
offer_to env email none revision now = pure tt
offer_to env email (some ben) revision now = do
  last ← gets (latest_of ben.id)
  if is_still email ben && not (is_cooling last now)
      then send_link env ben revision now
      else pure tt

unfoldable pub offer : Env → String → Beneficiary → ℕ → Tx Db (Unit {0})
offer env email candidate now = do
  vs ← lock_status candidate.vault_id now
  ben ← gets (ben_of candidate.id)
  offer_to env email ben vs.version now

unfoldable pub offer_each : Env → String → List Beneficiary → ℕ → Tx Db (Unit {0})
offer_each env email [] now = pure tt
offer_each env email (b ∷ bs) now = do offer env email b now; offer_each env email bs now

unfoldable pub login_candidates : String → Option ℕ → Db → List Beneficiary
login_candidates email id db =
    take 11 (sort_candidates (filter (asked_for email id) db.beneficiaries))

unfoldable pub offer_all : Env → String → List Beneficiary → ℕ → Tx Db (Unit {0})
offer_all env email bs now = if leb (length bs) 10 then offer_each env email bs now else pure tt

abbrev pub is_id : Option ℕ → Bool
is_id none = true
is_id (some n) = leb 1 n

-- The response is the same text always.
unfoldable pub request_link : Env → String → Option ℕ → ℕ → Tx Db (Unit {0})
request_link env address id now = do
  guard (is_id id) (http 422)
  recent ← gets (has_recent (env.strip_lower address) now)
  bs ← gets (login_candidates (env.strip_lower address) id)
  if recent then pure tt else offer_all env (env.strip_lower address) bs now

unfoldable pub challenge_of : ℕ → Db → Option AuthChallenge
challenge_of hash db = lookup (λ (c : AuthChallenge). c.token_hash) hash db.challenges

unfoldable pub is_redeemable : Env → AuthChallenge → ℕ → Bool
is_redeemable env c now =
    is_login c
    && (not (is_some c.consumed_at) && (ltb now c.expires_at && str_eq c.auth_epoch env.auth_epoch))

-- The link was sent to the contact that the row holds now.
unfoldable pub is_contact_of : AuthChallenge → Beneficiary → Bool
is_contact_of c ben =
    same_invitation ben.invitation_status accepted && (ben.contact_revision == c.contact_revision)

unfoldable pub burn : ℕ → ℕ → Tx Db (Unit {0})
burn hash now = modify λ db. record db {
  challenges =
      update_where (λ c. (c.token_hash == hash) && not (is_some c.consumed_at))
        (consume_challenge now) db.challenges;
}

abbrev is_unused : Option AuthChallenge → Bool
is_unused none = false
is_unused (some c) = not (is_some c.consumed_at)

-- Behind the vault's lock the challenge is read again; an unused one is not missed by the update.
unfoldable pub redeem_for : Env → AuthChallenge → Beneficiary → ℕ → Tx Db (ℕ × Tokens)
redeem_for env c ben now = do
  burn c.token_hash now
  tokens ← issue env Role.beneficiary ben.id (some ben.vault_id) (some ben.contact_revision) now
  record_audit (some ben.vault_id) (Actor.beneficiary ben.id) "auth.login"
  pure (ben.id, tokens)

unfoldable pub redeem_locked : Env → AuthChallenge → ℕ → Tx Db (ℕ × Tokens)
redeem_locked env c now = do
  held ← gets (ben_of c.beneficiary_id)
  ben ← or_raise held (http 401)
  guard (is_contact_of c ben) (http 401)
  again ← gets (challenge_of c.token_hash)
  guard (is_unused again) (http 401)
  redeem_for env c ben now

unfoldable pub redeem_challenge : Env → AuthChallenge → ℕ → Tx Db (ℕ × Tokens)
redeem_challenge env c now = do
  guard (is_redeemable env c now) (http 401)
  known ← gets (ben_of c.beneficiary_id)
  candidate ← or_raise known (http 401)
  lock_status candidate.vault_id now
  redeem_locked env c now

unfoldable pub redeem_link : Env → ℕ → ℕ → Tx Db (ℕ × Tokens)
redeem_link env raw now = do
  found ← gets (challenge_of (env.sha256 raw))
  c ← or_raise found (http 401)
  redeem_challenge env c now
