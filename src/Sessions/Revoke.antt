-- ===== src/Sessions/Revoke.antt =====
-- `revoke_beneficiary`: nothing of a beneficiary stays usable.
use legacylock.Prelude.{
  ℕ, ◌==◌, ◌≡◌, refl, Bool, false, not, ◌&&◌, some, is_some, opt_eq, exists, exists-update_where,
  arith,
}
use legacylock.Models.{Db, AuthSession, AuthChallenge, DeliveryJob, is_pending}
use legacylock.Outcome.{ok, settle, ◌>>=◌}
use legacylock.Outbox.{cancel_recipient}
use legacylock.Sessions.{revoke_beneficiary, is_beneficiary_family}

-- What a sign-in, a refresh or the worker could still use.
abbrev pub is_live_family : ℕ → AuthSession → Bool
is_live_family id f = is_beneficiary_family id f && not f.revoked

abbrev pub is_open_challenge : ℕ → AuthChallenge → Bool
is_open_challenge id c = (c.beneficiary_id == id) && not (is_some c.consumed_at)

abbrev pub is_pending_for : ℕ → DeliveryJob → Bool
is_pending_for id j = opt_eq j.beneficiary_id (some id) && is_pending j.state

-- The revocation of a beneficiary succeeds from every database, and afterwards no session family of
-- the beneficiary is unrevoked, no sign-in challenge is unconsumed and no delivery job is pending.
pub revoke_beneficiary_ends_all :
    (id now : ℕ) (d : Db)
    → (d' : Db) × (revoke_beneficiary id now d ≡ ok tt d')
      × (exists (is_live_family id) d'.families ≡ false)
      × (exists (is_open_challenge id) d'.challenges ≡ false)
      × (exists (is_pending_for id) d'.jobs ≡ false)
unfolding revoke_beneficiary cancel_recipient ◌>>=◌
revoke_beneficiary_ends_all id now d = (
  settle d (revoke_beneficiary id now d),
  refl,
  exists-update_where (is_beneficiary_family id) _ (is_live_family id) d.families
      (λ f h. ground arith) (λ f h. ground arith),
  exists-update_where (is_open_challenge id) _ (is_open_challenge id) d.challenges
      (λ c h. ground arith) (λ c h. h),
  exists-update_where (is_pending_for id) _ (is_pending_for id) d.jobs (λ j h. ground arith)
      (λ j h. h),
)
