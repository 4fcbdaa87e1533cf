-- ===== src/Onboarding/Upgrade/Admission.antt =====
-- What the checks of `runUpgrade` admit, and what a whole upgrade is.
use skillwire.Onboarding.Upgrade.Switch.{
  switch_calls, prepared, before_switch, migration_on, installed, writers_drained_on,
}
use skillwire.Onboarding.Schema.Laws.{classify_schema_upgrade_iff, Decides, GoesForward}
use skillwire.Onboarding.Schema.{Decision, same_schema, forward_only}
use skillwire.Onboarding.Upgrade.{
  same_target, Preview, admitted, Target, is_image_digest, Callbacks, Upgraded, Progress,
}
use skillwire.Base.{
  ℕ, ◌<◌, ◌≤◌, true, ◌≡◌, List, [], ◌∷◌, ◌++◌, ◌⊎◌, Option, some, none, String, ok, arith, ===_iff,
}
use skillwire.Onboarding.Op.{confirm_preview}

pub same_target-eq : (a b : Target) → same_target a b ≡ true → a ≡ b
unfolding same_target
same_target-eq a b h = ground (
  arith,
  ===_iff a.release_id b.release_id,
  ===_iff a.manifest_sha256 b.manifest_sha256,
  ===_iff a.image_digest b.image_digest,
)

pub confirm_preview-eq-ok :
    (hash : String) (given : Option String) {u : Unit {0}}
    → confirm_preview hash given ≡ ok u
    → given ≡ some hash
unfolding confirm_preview
confirm_preview-eq-ok hash none h = cc
confirm_preview-eq-ok hash (some given) h = ground (arith, ===_iff given hash)

abbrev pub known_forward_only : List ℕ
known_forward_only = 10 ∷ 11 ∷ []

-- What the checks on the verified target establish.
pub record IsAdmitted (preview : Preview) (target : Target) (d : Decision) : Type 0 where
  pub unchanged : target ≡ preview.target
  pub newer : preview.current_release_sequence < target.release_sequence
  pub trusted : preview.current_trust_policy_sequence ≤ target.trust_policy_sequence
  pub pinned : is_image_digest target.image_digest ≡ true
  pub decided :
      Decides preview.live_schema target.schema_minimum target.schema_maximum
        target.latest_migration known_forward_only d

pub admitted-IsAdmitted :
    (preview : Preview) (target : Target) (d : Decision)
    → admitted preview target ≡ ok d
    → IsAdmitted preview target d
unfolding admitted
admitted-IsAdmitted preview target d h = record {
  unchanged = same_target-eq target preview.target (ground arith);
  newer = ground arith;
  trusted = ground arith;
  pinned = ground arith;
  decided =
      (classify_schema_upgrade_iff preview.live_schema target.schema_minimum target.schema_maximum
          target.latest_migration known_forward_only d).0
        (ground arith);
}

abbrev pub migrated_state : Progress
migrated_state = migration_on (installed (writers_drained_on before_switch))

-- The calls of a whole upgrade: with a migration the writers are drained before the installation, and
-- the migration comes after it.
abbrev pub Ordered : Preview → Progress → Type 0
Ordered preview s =
    ((preview.target.latest_migration ≡ preview.live_schema)
      × (s.calls ≡ switch_calls same_schema ++ prepared))
    ⊎ (GoesForward preview.live_schema preview.target.latest_migration known_forward_only
        × (s.calls ≡ switch_calls forward_only ++ prepared))

-- What a returned upgrade establishes.
pub record IsUpgraded (does : Callbacks) (preview : Preview) (given : Option String) (u : Upgraded)
    (s : Progress) : Type 0 where
  pub confirmed : given ≡ some preview.preview_hash
  pub verified : does.verify_target ≡ ok preview.target
  pub newer : preview.current_release_sequence < preview.target.release_sequence
  pub trusted : preview.current_trust_policy_sequence ≤ preview.target.trust_policy_sequence
  pub pinned : is_image_digest preview.target.image_digest ≡ true
  pub saved : does.create_backup ≡ ok (record { backup_id = u.backup_id; validated = true })
  pub released : u.release_id ≡ preview.target.release_id
  pub read_back : does.verify_live_schema ≡ ok preview.target.latest_migration
  pub in_range :
      (preview.target.schema_minimum ≤ preview.live_schema)
      × (preview.live_schema ≤ preview.target.schema_maximum)
  pub ordered :
      ((preview.target.latest_migration ≡ preview.live_schema)
        × (s.calls ≡ switch_calls same_schema ++ prepared))
      ⊎ (GoesForward preview.live_schema preview.target.latest_migration known_forward_only
          × (s.calls ≡ switch_calls forward_only ++ prepared))
