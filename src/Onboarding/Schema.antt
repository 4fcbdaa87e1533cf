-- ===== src/Onboarding/Schema.antt =====
-- src/onboarding/adapters/postgres/schema-compatibility.ts: whether a live database may be brought to a
-- release's schema.
--
-- A schema is the number of its last migration, a natural number, so that `Number.isInteger` holds.
pub mod Laws
use skillwire.Base.{
  ℕ, zero, suc, ◌+◌, ◌-◌, List, [], ◌∷◌, Bool, true, false, not, ◌||◌, Result, ok, throw, throw_if,
  error, Boundary, if◌then◌else◌, any, ltb, ◌==◌, ◌>>◌,
}

pub data UpgradeKind : Type 0 where
  same_schema forward_only : UpgradeKind

-- `SchemaUpgradeDecision`
pub record Decision : Type 0 where
  pub kind : UpgradeKind
  pub live_schema : ℕ
  pub target_schema : ℕ
  pub rollback_boundary : Boundary
  pub requires_backup : Bool
  pub requires_writer_drain : Bool

-- The migrations after the live schema, in order, as many as are given.
migrations_after : ℕ → ℕ → List ℕ
migrations_after live zero = []
migrations_after live (suc n) = (live + 1) ∷ migrations_after (live + 1) n

abbrev pub keeps_schema : ℕ → ℕ → Decision
keeps_schema live latest = record {
  kind = same_schema;
  live_schema = live;
  target_schema = latest;
  rollback_boundary = Boundary.application_config;
  requires_backup = true;
  requires_writer_drain = false;
}

abbrev pub goes_forward : ℕ → ℕ → Decision
goes_forward live latest = record {
  kind = forward_only;
  live_schema = live;
  target_schema = latest;
  rollback_boundary = Boundary.database_restore_required;
  requires_backup = true;
  requires_writer_drain = true;
}

-- `classifySchemaUpgrade`, of the live schema, the release's range and its latest migration
unfoldable pub classify_schema_upgrade : ℕ → ℕ → ℕ → ℕ → List ℕ → Result Decision
unfolding migrations_after
classify_schema_upgrade live minimum maximum latest forward_only_migrations =
    if ltb live minimum || ltb maximum live
    then throw "Live schema is incompatible with the target release"
    else if ltb latest live
    then throw "Schema downgrade is forbidden"
    else if latest == live
    then ok (keeps_schema live latest)
    else throw_if
        (not (
          any (λ migration. any (◌==◌ migration) forward_only_migrations)
            (migrations_after live (latest - live))))
        (error "Unclassified forward migration is forbidden")
      >> ok (goes_forward live latest)
