-- ===== src/Lib.antt =====
-- LegacyLock: the backend that releases a vault to its beneficiaries when the owner asks for it or
-- stops checking in.
--
-- A vault has a status row (active, grace, triggered), a heartbeat configuration, beneficiaries, and
-- recovery ceremonies. The checker (backend/services/heartbeat_checker.py) moves an armed vault that
-- missed its check-in to the grace period and, after it, releases it through the release authority
-- (backend/services/trigger_service.py), which the owner's manual trigger calls too. A release passes
-- the readiness gate (backend/services/recovery_readiness.py) and stages its notices in the outbox
-- (backend/services/outbox.py) in the same transaction.
--
-- Files and what they model:
--   Prelude: lists, keyed tables, tests on numbers and texts.
--   Outcome: a request on a database session, `Tx D A = D → Outcome D A`. An error carries no
--     database, since the session is closed without a commit. Outcome/Frames and Outcome/Totals carry
--     relations and success along a do block.
--   Models, Env: backend/models/*.py as records and tables as lists; the settings, the random source
--     and the library functions that a request reads, as the fields of a record that every operation
--     takes.
--   Lifecycle: backend/services/lifecycle.py. Audit: backend/services/audit.py.
--   Outbox: backend/services/outbox.py (event, enqueue, cancel_recipient, cancel_warnings;
--     Outbox/Payloads: context, protect, unprotect; Outbox/Queue: claim; Outbox/Worker: deliver_one,
--     as two transactions around the provider's answer; Outbox/Work: work_once).
--   Readiness: backend/services/recovery_readiness.py; Readiness/Drills: the drill report of
--     backend/routers/readiness.py.
--   Trigger: backend/services/trigger_service.py (lock_status, release_locked, trigger_vault,
--     move_to_grace, stage_warning).
--   Heartbeat: backend/routers/heartbeat.py (save_heartbeat, check_in) and the two routes of
--     backend/routers/trigger.py that change state.
--   Checker: backend/services/heartbeat_checker.py.
--   Sessions: backend/services/sessions.py (issue, mint, valid_family, rotate, revoke_cookie,
--     revoke_beneficiary). A 401 that is raised after a commit is a value of the result.
--   Ceremony: backend/services/ceremony.py (create_draft, finalize, cancel). Ceremony/Bundle: the
--     wrapping bundle of backend/routers/vault.py (validate_material, apply_material, writable, PUT
--     /vault/crypto-material).
--   Beneficiaries: backend/routers/beneficiaries.py (add, invite, update, assign_share, delete);
--     Beneficiaries/Rows: the unique constraints of backend/models/beneficiary.py.
--   Guards: backend/deps.py and decode_access_token of backend/services/auth.py: who a request is
--     signed in as, by its access token. Guards/Claims: the claims of create_access_token on their way
--     through PyJWT, which is a parameter: what it documents, that a token is refused before its `iat`
--     and from its `exp` on and else decodes to its claims, is the hypothesis IsDecoded.
--   Middleware: backend/middleware/body_limit.py.
--   Messages: the message routes of backend/routers/vault.py; Messages/Metadata: validate_message and
--     _check_metadata; Messages/Edits: the update of a message. A JSON value is a tree; how it is
--     printed and parsed is the library's.
--   Access: backend/routers/access.py (invitations, sessions of beneficiaries, reads after the release).
--   Login: backend/routers/beneficiary_login.py (request_link, redeem_link).
--   Accounts: backend/routers/auth.py (register, verify, login, logout, refresh);
--     Accounts/Verification: backend/services/email_verification.py.
--   RateLimiter: the buckets of backend/middleware/rate_limiter.py.
--   Machine: histories of the operations on a vault's status. Tests: runs at concrete inputs.
--
-- Conventions. Times are microseconds since the epoch, and a request reads the clock once. UUIDs,
-- tokens and digests are numbers; the random source is a sequence and the database counts the values
-- that were drawn. Row locks serialise their holders, so a request is one step. A loop over rows is a
-- recursion on their list, so that no fuel is needed. Texts of mails are data with what is spliced
-- into them.
--
-- Not modelled: the SQL dialect of the due test on SQLite, foreign keys, the unique constraint on
-- (event, recipient, channel), audit metadata, the list of action names that the checker returns,
-- HTTP framing, providers of mail and text messages, migrations and the frontend.
pub mod Prelude
pub mod Lifecycle
pub mod Outcome
pub mod Models
pub mod Env
pub mod Audit
pub mod Outbox
pub mod Readiness
pub mod Trigger
pub mod Heartbeat
pub mod Checker
pub mod Machine
pub mod Sessions
pub mod Ceremony
pub mod RateLimiter
pub mod Beneficiaries
pub mod Guards
pub mod Middleware
pub mod Messages
pub mod Access
pub mod Login
pub mod Accounts
pub mod Tests
