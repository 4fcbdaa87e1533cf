-- ===== src/Onboarding/ClientRemoval/Tests.antt =====
-- The removal of a plugin beside an external server entry.
use skillwire.Onboarding.ClientRemoval.Laws.{IsRemoval, uninstall_client_lifecycle-IsRemoval}
use skillwire.Onboarding.ClientRemoval.{
  external_equivalent, Observation, Component, Removing, RemovalCallbacks, RemovalResult,
  Classification, mcp_entry, uninstall_client_lifecycle, plugin, owned_equivalent,
}
use skillwire.Base.{true, false, ◌≡◌, refl, [], ◌∷◌, List, none, some, ok}
use skillwire.Journal.Append.{durable}
use skillwire.Onboarding.Op.{Run, Setting}

abbrev observed : Component → Classification → Observation
observed c classification = record {
  component = c;
  classification = classification;
  expected_identity_sha256 = some "a";
  current_identity_sha256 = some "a";
}

abbrev integration : List Observation
integration = observed mcp_entry external_equivalent ∷ observed plugin owned_equivalent ∷ []

abbrev callbacks : RemovalCallbacks
callbacks = record { inspect = ok integration; remove = λ c. ok tt; verify_absent = λ c. ok true }

abbrev setting : Setting
setting = record {
  is_datetime = λ _. true;
  world = record { now = λ _. "2026-01-01T00:00:00Z"; write = λ _. durable };
  is_aborted = λ _. false;
}

abbrev fresh : Run Removing
fresh = record { journal = none; asks = 0; local = record { called = []; removed = [] } }

uninstall_client_lifecycle-IsRemoval_example :
    (result : RemovalResult) × ((uninstall_client_lifecycle setting callbacks fresh).0 ≡ ok result)
    × IsRemoval setting callbacks integration result
        (uninstall_client_lifecycle setting callbacks fresh).1.local
uninstall_client_lifecycle-IsRemoval_example =
    uninstall_client_lifecycle-IsRemoval setting callbacks integration fresh refl refl
