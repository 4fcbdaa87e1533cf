-- ===== src/Installation/Status.antt =====
-- src/onboarding/domain/installation.ts: `Installation`, `installationTransitions` and
-- `transitionInstallation`.
use Prim.Native.String
use skillwire.Base.{
  ℕ, Bool, true, false, List, [], ◌∷◌, ◌==◌, String, any, Option, Result, if◌then◌else◌, not, throw,
  ok, some,
}

pub data Client : Type 0 where
  codex claude : Client

-- `left === right` on clients
abbrev pub same_client : Client → Client → Bool
same_client codex codex = true
same_client claude claude = true
same_client _ _ = false

pub data Status : Type 0 where
  prepared service_ready complete incomplete data_retained recovery_required purged : Status

abbrev pub status_index : Status → ℕ
status_index prepared = 0
status_index service_ready = 1
status_index complete = 2
status_index incomplete = 3
status_index data_retained = 4
status_index recovery_required = 5
status_index purged = 6

abbrev pub same_status : Status → Status → Bool
same_status s t = status_index s == status_index t

abbrev pub status_text : Status → String
status_text prepared = "prepared"
status_text service_ready = "service-ready"
status_text complete = "complete"
status_text incomplete = "incomplete"
status_text data_retained = "data-retained"
status_text recovery_required = "recovery-required"
status_text purged = "purged"

-- `clientIntegrationIds`
pub record ClientIntegrationIds : Type 0 where
  pub codex_id : Option String
  pub claude_id : Option String

pub record Installation : Type 0 where
  pub installation_id : String
  pub owner_uid : ℕ
  pub account_id : String
  pub active_release_id : String
  pub highest_accepted_release_sequence : ℕ
  pub active_trust_policy_sequence : ℕ
  pub endpoint : String
  pub compose_project : String
  pub postgres_volume : String
  pub selected_clients : List Client
  pub client_integration_ids : ClientIntegrationIds
  pub status : Status
  pub created_at : String
  pub updated_at : String
  pub last_validated_at : Option String

unfoldable pub installation_transitions : Status → List Status
installation_transitions prepared = service_ready ∷ incomplete ∷ recovery_required ∷ []
installation_transitions service_ready =
    complete ∷ incomplete ∷ data_retained ∷ recovery_required ∷ []
installation_transitions complete = incomplete ∷ data_retained ∷ recovery_required ∷ []
installation_transitions incomplete = complete ∷ data_retained ∷ recovery_required ∷ []
installation_transitions data_retained = service_ready ∷ purged ∷ recovery_required ∷ []
installation_transitions recovery_required = service_ready ∷ data_retained ∷ purged ∷ []
installation_transitions purged = []

abbrev pub includes_status : List Status → Status → Bool
includes_status statuses s = any (λ t. same_status t s) statuses

abbrev pub is_validating : Status → Bool
is_validating s = includes_status (service_ready ∷ complete ∷ []) s

infixr 65 ◌<>◌
abbrev ◌<>◌ : String → String → String
s <> t = String.◌++◌ s t

-- `now` is the text of the clock.
unfoldable pub transition_installation : String → Installation → Status → Result Installation
unfolding installation_transitions
transition_installation now i status =
    if not (includes_status (installation_transitions i.status) status)
    then throw (
        "Invalid installation transition: " <> status_text i.status <> " -> " <> status_text status)
    else ok (record i {
      status = status;
      updated_at = now;
      last_validated_at = if is_validating status then some now else i.last_validated_at;
    })
