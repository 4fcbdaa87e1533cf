-- ===== src/Installation/Tests.antt =====
-- Installations on concrete inputs, and the theorems at such inputs.
use skillwire.Base.{◌≡◌, refl, [], ◌∷◌, ◌++◌, List, some, none, ok, String, ◌===◌}
use skillwire.Installation.Status.{
  Status, prepared, service_ready, data_retained, purged, codex, Installation,
}
use skillwire.Installation.Schema.{Url, Formats}
use skillwire.Installation.Lifecycle
use skillwire.Installation.Lifecycle.{way_out, IsValidated, run-way_out, run-IsValidated, purged_at}
use skillwire.Installation.ClientState.{
  ClientState, ClientIntegration, planned, credential_stored, mcp_registered, adapter_installed,
  transition_client_integration,
}
use skillwire.Installation.ClientHistory
use skillwire.Installation.ClientHistory.{done_before, run-done_before}

abbrev stamp : String
stamp = "2026-01-01T00:00:00.000Z"

abbrev id : String
id = "11111111-1111-4111-8111-111111111111"

abbrev socket_url : Url
socket_url = record {
  protocol = "unix:";
  hostname = "";
  pathname = "/mcp.sock";
  search = "";
  hash = "";
  username = "";
  password = "";
  port = "";
}

abbrev formats : Formats
formats = record {
  is_uuid = λ s. s === id;
  is_datetime = λ s. s === stamp;
  parse_url = λ s. some socket_url;
}

abbrev fresh : Installation
fresh = record {
  installation_id = id;
  owner_uid = 1000;
  account_id = id;
  active_release_id = "r1";
  highest_accepted_release_sequence = 1;
  active_trust_policy_sequence = 1;
  endpoint = "unix:/mcp.sock";
  compose_project = "skillwire";
  postgres_volume = "data";
  selected_clients = codex ∷ [];
  client_integration_ids = record { codex_id = some id; claude_id = none };
  status = prepared;
  created_at = stamp;
  updated_at = stamp;
  last_validated_at = none;
}

run-way_out_example :
    (k : Installation) × (Lifecycle.run stamp fresh (way_out prepared) ≡ ok k)
    × (k ≡ purged_at k.updated_at fresh)
run-way_out_example = run-way_out stamp fresh

abbrev retained : Installation
retained = record fresh { status = data_retained; last_validated_at = some stamp }

abbrev to_purged : List Status
to_purged = service_ready ∷ data_retained ∷ purged ∷ []

abbrev integration : ClientIntegration
integration = record {
  client_integration_id = id;
  installation_id = id;
  client = codex;
  client_version = "1";
  state = planned;
  credential_reference_id = none;
  key_public_id_hash = none;
  mcp_identity_sha256 = "";
  adapter_identity_sha256 = "";
}

abbrev retried : List ClientState
retried = ClientState.failed ∷ planned ∷ credential_stored ∷ mcp_registered ∷ adapter_installed ∷ []

run-done_before_example :
    (earlier : List ClientState) × (retried ≡ earlier ++ done_before adapter_installed)
unfolding ClientHistory.run transition_client_integration
run-done_before_example =
    run-done_before integration (record integration { state = adapter_installed }) retried refl refl

abbrev digest : String
digest = "0123456789abcdef0123456789abcdef0123456789abcdef0123456789abcdef"
