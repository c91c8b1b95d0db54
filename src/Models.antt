-- ===== src/Models.antt =====
-- backend/models: the rows of the database and the database itself.
pub mod Rows
pub mod Delivery
pub mod Auth
pub mod Messages
pub use Rows.*
pub use Delivery.*
pub use Auth.*
pub use Messages.*
use legacylock.Prelude.{ℕ, suc, ◌+◌, List, [], Option}

-- One list of rows for each table that the modelled code reads or writes. `drawn` counts the random
-- values that were taken (`uuid4`, `secrets`), and `serial` the values of the id sequences.
pub record Db : Type 0 where
  pub users : List User
  pub vaults : List Vault
  pub statuses : List VaultStatus
  pub configs : List HeartbeatConfig
  pub beneficiaries : List Beneficiary
  pub ceremonies : List RecoveryCeremony
  pub events : List BusinessEvent
  pub jobs : List DeliveryJob
  pub attempts : List DeliveryAttempt
  pub families : List AuthSession
  pub refreshes : List SessionRefresh
  pub challenges : List AuthChallenge
  pub tokens : List EmailVerificationToken
  pub messages : List VaultMessage
  pub audits : List AuditEvent
  pub drawn : ℕ
  pub serial : ℕ

abbrev pub empty_db : Db
empty_db = record {
  users = [];
  vaults = [];
  statuses = [];
  configs = [];
  beneficiaries = [];
  ceremonies = [];
  events = [];
  jobs = [];
  attempts = [];
  families = [];
  refreshes = [];
  challenges = [];
  tokens = [];
  messages = [];
  audits = [];
  drawn = 0;
  serial = 0;
}
