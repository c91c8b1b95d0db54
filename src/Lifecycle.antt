-- ===== src/Lifecycle.antt =====
-- backend/services/lifecycle.py: the states and the allowed transitions.
pub mod Graph
use legacylock.Prelude.{
  ℕ, Bool, true, false, Option, none, some, List, [], ◌∷◌, ◌||◌, if◌then◌else◌,
}

pub data VaultState : Type 0 where
  active grace triggered : VaultState

pub data InvitationStatus : Type 0 where
  pending sent accepted expired : InvitationStatus

pub data NotificationStatus : Type 0 where
  pending sent failed retrying : NotificationStatus

abbrev pub same_state : VaultState → VaultState → Bool
same_state active active = true
same_state grace grace = true
same_state triggered triggered = true
same_state _ _ = false

abbrev pub same_invitation : InvitationStatus → InvitationStatus → Bool
same_invitation InvitationStatus.pending InvitationStatus.pending = true
same_invitation InvitationStatus.sent InvitationStatus.sent = true
same_invitation accepted accepted = true
same_invitation expired expired = true
same_invitation _ _ = false

abbrev same_notification : NotificationStatus → NotificationStatus → Bool
same_notification NotificationStatus.pending NotificationStatus.pending = true
same_notification NotificationStatus.sent NotificationStatus.sent = true
same_notification failed failed = true
same_notification retrying retrying = true
same_notification _ _ = false

-- The keys of the graphs are all the states, and a string that is none of them has no entry: a
-- state is looked up as `Option S`, with `none` for any other string.
unfoldable pub vault_transitions : VaultState → List VaultState
vault_transitions active = grace ∷ []
vault_transitions grace = active ∷ triggered ∷ []
vault_transitions triggered = []

unfoldable pub invitation_transitions : InvitationStatus → List InvitationStatus
invitation_transitions InvitationStatus.pending = InvitationStatus.sent ∷ []
invitation_transitions InvitationStatus.sent = accepted ∷ expired ∷ []
invitation_transitions accepted = []
invitation_transitions expired = InvitationStatus.sent ∷ []

unfoldable pub notification_transitions : NotificationStatus → List NotificationStatus
notification_transitions NotificationStatus.pending = NotificationStatus.sent ∷ failed ∷ []
notification_transitions failed = retrying ∷ []
notification_transitions retrying = NotificationStatus.sent ∷ failed ∷ []
notification_transitions NotificationStatus.sent = []

-- `target in graph[current]`, false when `current` is no key.
module _ {S : Type 0} (same : S → S → Bool) where
  unfoldable pub member : S → List S → Bool
  member t [] = false
  member t (s ∷ ss) = same s t || member t ss

  unfoldable pub can_transition : Option S → Option S → (S → List S) → Bool
  unfolding member
  can_transition none target graph = false
  can_transition (some s) none graph = false
  can_transition (some s) (some t) graph = member t (graph s)

-- Raised as `InvalidTransitionError`; no value is returned otherwise.
pub data Checked : Type 0 where
  allowed invalid_transition : Checked

unfoldable pub require_vault_transition : Option VaultState → Option VaultState → Checked
unfolding can_transition vault_transitions
require_vault_transition current target =
    if can_transition same_state current target vault_transitions
    then allowed
    else invalid_transition

unfoldable pub require_invitation_transition :
    Option InvitationStatus → Option InvitationStatus → Checked
unfolding can_transition invitation_transitions
require_invitation_transition current target =
    if can_transition same_invitation current target invitation_transitions
    then allowed
    else invalid_transition

unfoldable pub require_notification_transition :
    Option NotificationStatus → Option NotificationStatus → Checked
unfolding can_transition notification_transitions
require_notification_transition current target =
    if can_transition same_notification current target notification_transitions
    then allowed
    else invalid_transition
