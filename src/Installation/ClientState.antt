-- ===== src/Installation/ClientState.antt =====
-- src/onboarding/domain/installation.ts: `ClientIntegration`, `clientTransitions` and
-- `transitionClientIntegration`.
use Prim.Native.String
use skillwire.Base.{
  ℕ, Bool, List, [], ◌∷◌, ◌==◌, Result, String, any, if◌then◌else◌, Option, not, throw, ok,
}
use skillwire.Installation.Status.{Client}

pub data ClientState : Type 0 where
  planned credential_stored mcp_registered adapter_installed verified external_verified :
      ClientState
  compensating failed removed retained_external : ClientState

abbrev pub state_index : ClientState → ℕ
state_index planned = 0
state_index credential_stored = 1
state_index mcp_registered = 2
state_index adapter_installed = 3
state_index verified = 4
state_index external_verified = 5
state_index compensating = 6
state_index failed = 7
state_index removed = 8
state_index retained_external = 9

abbrev pub same_state : ClientState → ClientState → Bool
same_state s t = state_index s == state_index t

abbrev pub state_text : ClientState → String
state_text planned = "planned"
state_text credential_stored = "credential-stored"
state_text mcp_registered = "mcp-registered"
state_text adapter_installed = "adapter-installed"
state_text verified = "verified"
state_text external_verified = "external-verified"
state_text compensating = "compensating"
state_text failed = "failed"
state_text removed = "removed"
state_text retained_external = "retained-external"

pub record ClientIntegration : Type 0 where
  pub client_integration_id : String
  pub installation_id : String
  pub client : Client
  pub client_version : String
  pub state : ClientState
  pub credential_reference_id : Option String
  pub key_public_id_hash : Option String
  pub mcp_identity_sha256 : String
  pub adapter_identity_sha256 : String

unfoldable pub client_transitions : ClientState → List ClientState
client_transitions planned = credential_stored ∷ external_verified ∷ failed ∷ []
client_transitions credential_stored = mcp_registered ∷ compensating ∷ []
client_transitions mcp_registered = adapter_installed ∷ compensating ∷ []
client_transitions adapter_installed = verified ∷ compensating ∷ []
client_transitions verified = removed ∷ compensating ∷ []
client_transitions external_verified = retained_external ∷ []
client_transitions compensating = failed ∷ []
client_transitions failed = planned ∷ []
client_transitions removed = planned ∷ []
client_transitions retained_external = external_verified ∷ []

abbrev pub includes_state : List ClientState → ClientState → Bool
includes_state states s = any (λ t. same_state t s) states

infixr 65 ◌<>◌
abbrev ◌<>◌ : String → String → String
s <> t = String.◌++◌ s t

unfoldable pub transition_client_integration :
    ClientIntegration → ClientState → Result ClientIntegration
unfolding client_transitions
transition_client_integration i state =
    if not (includes_state (client_transitions i.state) state)
    then throw ("Invalid client transition: " <> state_text i.state <> " -> " <> state_text state)
    else ok (record i { state = state })
