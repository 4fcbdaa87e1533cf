-- ===== src/Installation/SourceChoice.antt =====
-- src/onboarding/domain/source-choice.ts: the choice of a bootstrap source, its schema and what the
-- schema promises.
use skillwire.Base.{
  Bool, true, false, not, ◌&&◌, ◌||◌, ◌≡◌, String, Option, none, some, if◌then◌else◌, leb,
  utf16_length, arith,
}

pub data BootstrapSource : Type 0 where
  mattpocock_skills obra_superpowers : BootstrapSource

pub data SyncState : Type 0 where
  not_selected registered verifying eligible quarantined degraded failed : SyncState

pub record SourceChoice : Type 0 where
  pub source_choice_id : String
  pub source : BootstrapSource
  pub selected : Bool
  pub credential_reference_id : Option String
  pub registration_identity : Option String
  pub sync_state : SyncState

abbrev is_not_selected : SyncState → Bool
is_not_selected not_selected = true
is_not_selected _ = false

abbrev is_failed : SyncState → Bool
is_failed failed = true
is_failed _ = false

-- The five states that follow a registration.
abbrev pub is_registered : SyncState → Bool
is_registered not_selected = false
is_registered failed = false
is_registered _ = true

abbrev pub is_null : Option String → Bool
is_null none = true
is_null (some s) = false

abbrev optional : (String → Bool) → Option String → Bool
optional p none = true
optional p (some s) = p s

-- The refinement of `SourceChoiceSchema`: that it adds no issue.
unfoldable pub is_coherent : SourceChoice → Bool
is_coherent c =
    if not c.selected
    then not (
        not (is_not_selected c.sync_state)
        || not (is_null c.credential_reference_id)
        || not (is_null c.registration_identity))
    else not (is_null c.credential_reference_id && not (is_failed c.sync_state))
      && not (is_registered c.sync_state && is_null c.registration_identity)

unfoldable pub source_choice_schema : (String → Bool) → SourceChoice → Bool
unfolding is_coherent
source_choice_schema is_uuid c =
    is_uuid c.source_choice_id
    && optional is_uuid c.credential_reference_id
    && optional (λ s. leb 1 (utf16_length s) && leb (utf16_length s) 128) c.registration_identity
    && is_coherent c

-- `sourceCoordinate`: the two parts of the source's text, which has one slash.
unfoldable pub source_coordinate : BootstrapSource → String × String
source_coordinate mattpocock_skills = ("mattpocock", "skills")
source_coordinate obra_superpowers = ("obra", "superpowers")

-- A source that meets the schema and is in a state that follows a registration is selected, and has
-- both a credential reference and a registration identity.
pub source_choice_schema-registered :
    (is_uuid : String → Bool) (c : SourceChoice)
    → source_choice_schema is_uuid c ≡ true
    → is_registered c.sync_state ≡ true
    → (c.selected ≡ true)
      × (is_null c.credential_reference_id ≡ false)
      × (is_null c.registration_identity ≡ false)
unfolding source_choice_schema
source_choice_schema-registered is_uuid c h r = ground arith
