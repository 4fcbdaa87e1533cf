-- ===== src/Onboarding/Repair/Tests.antt =====
-- A repair of a missing client entry.
use skillwire.Onboarding.Repair.Laws.{Ends, run_repair-IsSafe}
use skillwire.Base.{true, false, ◌≡◌, refl, [], ◌∷◌, String, none, some, ok, is_sha256}
use skillwire.Journal.Append.{durable}
use skillwire.Onboarding.Op.{
  ◌>>=◌, Run, Setting, lift, confirm_preview, unless_aborted, call, assign, pure,
}
use skillwire.Onboarding.Repair.{
  RepairAsset, RepairCallbacks, missing, Repairs, run_repair, plan_repair, repaired_all, block_for,
  is_skipped,
}

abbrev digest : String
digest = "0123456789abcdef0123456789abcdef0123456789abcdef0123456789abcdef"

abbrev entry : RepairAsset
entry = record {
  asset_id = "entry";
  kind = "mcp-entry";
  client = none;
  locator = "skillwire";
  expected_identity_sha256 = digest;
  observation = missing;
  ownership_proven = false;
}

abbrev setting : Setting
setting = record {
  is_datetime = λ _. true;
  world = record { now = λ _. "2026-01-01T00:00:00Z"; write = λ _. durable };
  is_aborted = λ _. false;
}

abbrev callbacks : RepairCallbacks
callbacks = record {
  observe = λ a.
      ok (record { observation = missing; identity_sha256 = digest; ownership_proven = false });
  repair = λ a. ok tt;
}

abbrev fresh : Run Repairs
fresh = record { journal = none; asks = 0; local = record { repaired = []; changed_assets = [] } }

repaired_entry :
    (run_repair setting callbacks (plan_repair "i" (entry ∷ []) digest) (some digest) fresh).0
    ≡ ok ("entry" ∷ [])
unfolding run_repair plan_repair repaired_all ◌>>=◌ lift confirm_preview is_sha256 block_for
    unless_aborted is_skipped call assign pure
repaired_entry = refl

run_repair-IsSafe_example :
    Ends setting callbacks
      (run_repair setting callbacks (plan_repair "i" (entry ∷ []) digest) (some digest) fresh)
run_repair-IsSafe_example =
    run_repair-IsSafe setting callbacks "i" digest (entry ∷ []) (some digest) fresh refl
