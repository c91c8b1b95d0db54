-- ===== src/Accounts/Verification.antt =====
-- backend/services/email_verification.py: single-use links that prove an owner's address.
use legacylock.Prelude.{
  ℕ, ◌+◌, ◌*◌, ◌==◌, Bool, false, not, ◌&&◌, Option, none, some, List, [], ◌∷◌, ◌++◌, max, exists,
  filter, first, leb, ltb, is_some, lookup, update_where, if◌then◌else◌,
}
use legacylock.Models.{
  Db, User, EmailVerificationToken, BusinessEvent, same_kind, verification, DeliveryJob, Recipient,
  same_recipient, is_pending, Channel, verify_link, Actor, second,
}
use legacylock.Env.{Env}
use legacylock.Outcome.{Tx, integrity, no_result, ◌>>=◌, ◌>>◌, guard, pure, gets, modify, or_raise}
use legacylock.Audit.{record_audit}
use legacylock.Outbox.{draw, event, enqueue, cancel}

abbrev pub ttl_hours : Env → ℕ
ttl_hours env = max 1 env.email_verification_ttl_hours

-- `_ttl`
unfoldable pub ttl : Env → ℕ
ttl env = ttl_hours env * (3600 * second)

-- `_RESEND_COOLDOWN`
abbrev pub resend_cooldown : ℕ
resend_cooldown = 300 * second

abbrev pub user_of : ℕ → Db → Option User
user_of id db = lookup (λ (u : User). u.id) id db.users

abbrev newer_token :
    EmailVerificationToken → Option EmailVerificationToken → Option EmailVerificationToken
newer_token t none = some t
newer_token t (some u) = if leb u.created_at t.created_at then some t else some u

-- `ORDER BY created_at DESC`, the first row
unfoldable pub latest_token : List EmailVerificationToken → Option EmailVerificationToken
latest_token [] = none
latest_token (t ∷ ts) = newer_token t (latest_token ts)

abbrev belongs_to : ℕ → EmailVerificationToken → Bool
belongs_to user_id t = t.user_id == user_id

-- The last link is unused, and less than five minutes old.
unfoldable pub is_token_cooling : Option EmailVerificationToken → ℕ → Bool
is_token_cooling none now = false
is_token_cooling (some t) now =
    not (is_some t.consumed_at) && ltb now (t.created_at + resend_cooldown)

abbrev pub is_obsolete_link : List BusinessEvent → ℕ → DeliveryJob → Bool
is_obsolete_link events user_id job =
    exists (λ e. (e.id == job.event_id) && same_kind e.kind verification) events
    && (same_recipient job.recipient (Recipient.owner user_id) && is_pending job.state)

unfoldable pub cancel_links : ℕ → Tx Db (Unit {0})
cancel_links user_id =
    modify
      λ db. record db { jobs = update_where (is_obsolete_link db.events user_id) cancel db.jobs }

abbrev pub is_open_token : ℕ → EmailVerificationToken → Bool
is_open_token user_id t = (t.user_id == user_id) && not (is_some t.consumed_at)

unfoldable pub drop_tokens : ℕ → Tx Db (Unit {0})
drop_tokens user_id =
    modify λ db. record db { tokens = filter (λ t. not (is_open_token user_id t)) db.tokens }

unfoldable pub new_token : Env → ℕ → ℕ → ℕ → EmailVerificationToken
new_token env user_id raw now = record {
  user_id = user_id;
  token_hash = env.sha256 raw;
  expires_at = now + ttl env;
  consumed_at = none;
  created_at = now;
}

-- The unique constraint on the hash.
unfoldable pub add_token : EmailVerificationToken → Tx Db (Unit {0})
add_token row = do
  clash ←
      gets (λ db. exists (λ (t : EmailVerificationToken). t.token_hash == row.token_hash) db.tokens)
  guard (not clash) integrity
  modify (λ db. record db { tokens = db.tokens ++ row ∷ [] })

unfoldable pub mail_link : Env → User → ℕ → ℕ → Tx Db (Unit {0})
mail_link env user raw now = do
  record_audit none (Actor.owner user.id) "auth.verification_sent"
  revision ← draw env
  business ← event env none verification revision
  enqueue env business (Recipient.owner user.id)
      (record { to = user.email; body = verify_link env.frontend_origin raw (ttl_hours env) }) none
      Channel.email (some (now + ttl env)) now
  pure tt

unfoldable pub issue_token : Env → User → ℕ → Tx Db ℕ
issue_token env user now = do
  cancel_links user.id
  drop_tokens user.id
  raw ← draw env
  add_token (new_token env user.id raw now)
  mail_link env user raw now
  pure raw

-- No token stands for `VerificationCooldown`, which is raised before anything is written.
unfoldable pub issue_verification : Env → User → Bool → ℕ → Tx Db (Option ℕ)
issue_verification env user enforce_cooldown now = do
  known ← gets (user_of user.id)
  or_raise known no_result
  last ← gets (λ db. latest_token (filter (belongs_to user.id) db.tokens))
  if enforce_cooldown && is_token_cooling last now
      then pure none
      else (do raw ← issue_token env user now; pure (some raw))

abbrev pub is_unspent : ℕ → EmailVerificationToken → Bool
is_unspent hash t = (t.token_hash == hash) && not (is_some t.consumed_at)

abbrev pub spend : ℕ → EmailVerificationToken → EmailVerificationToken
spend now t = record t { consumed_at = some now }

abbrev pub token_of : ℕ → Db → Option EmailVerificationToken
token_of hash db = first (λ t. t.token_hash == hash) db.tokens

abbrev pub verified : ℕ → User → User
verified now user = record user { email_verified_at = some now; updated_at = now }

unfoldable pub mark_verified : User → ℕ → Tx Db (Option User)
mark_verified user now = do
  modify (λ db. record db { users = update_where (λ u. u.id == user.id) (verified now) db.users })
  record_audit none (Actor.owner user.id) "auth.verified"
  pure (some (verified now user))

abbrev is_in_time : Option EmailVerificationToken → ℕ → Bool
is_in_time none now = false
is_in_time (some t) now = ltb now t.expires_at

unfoldable pub spend_token : User → ℕ → ℕ → Tx Db (Option User)
spend_token user hash now = do
  flipped ← gets (λ db. exists (is_unspent hash) db.tokens)
  modify (λ db. record db { tokens = update_where (is_unspent hash) (spend now) db.tokens })
  row ← gets (token_of hash)
  if flipped && is_in_time row now then mark_verified user now else pure none

unfoldable pub consume_for : Option User → ℕ → ℕ → Tx Db (Option User)
consume_for none hash now = pure none
consume_for (some user) hash now = spend_token user hash now

unfoldable pub consume_candidate : Option EmailVerificationToken → ℕ → ℕ → Tx Db (Option User)
consume_candidate none hash now = pure none
consume_candidate (some t) hash now = do user ← gets (user_of t.user_id); consume_for user hash now

unfoldable pub consume_verification : Env → ℕ → ℕ → Tx Db (Option User)
consume_verification env raw now = do
  candidate ← gets (token_of (env.sha256 raw))
  consume_candidate candidate (env.sha256 raw) now
