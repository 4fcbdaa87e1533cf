-- ===== src/Advisory/Event.antt =====
-- src/domain/catalog/advisory-chain.ts: an advisory event, its schema and its hash.
use skillwire.Base.{
  ◌>>=◌, Bool, String, Result, List, ℕ, true, ◌∷◌, leb, false, not, ok, codes, ◌||◌, includes, ◌&&◌,
  [], all, ◌==◌, is_sha256, utf16_length,
}
use skillwire.Canonical.{Platform, Json, number, text, object, end, field, canonicalize, ◌<>◌}

pub data AdvisoryKind : Type 0 where
  security availability : AdvisoryKind

pub data Status : Type 0 where
  available unavailable revoked : Status

abbrev pub kind_text : AdvisoryKind → String
kind_text security = "security"
kind_text availability = "availability"

abbrev pub status_text : Status → String
status_text available = "available"
status_text unavailable = "unavailable"
status_text revoked = "revoked"

abbrev pub is_revoked : Status → Bool
is_revoked revoked = true
is_revoked _ = false

-- `Omit<RevisionAdvisory, "eventHash">`, and the event with its hash.
pub record Preimage : Type 0 where
  pub sequence : ℕ
  pub previous_event_hash : String
  pub advisory_id : String
  pub skill_id : String
  pub revision : String
  pub revision_sha256 : String
  pub kind : AdvisoryKind
  pub state : Status
  pub reason_code : String
  pub effective_at : String

pub record RevisionAdvisory : Type 0 where
  pub preimage : Preimage
  pub open preimage use *
  pub event_hash : String

is_slug_char : ℕ → Bool
is_slug_char c = (leb b'a' c && leb c b'z') || (leb b'0' c && leb c b'9')

-- After a character of a word (`word` true) or at the start of one.
is_slug_from : Bool → List ℕ → Bool
unfolding is_slug_char
is_slug_from word [] = word
is_slug_from word (c ∷ cs) =
    let next = is_slug_from (is_slug_char c) cs in (is_slug_char c || (word && c == b'-')) && next

-- `/^[a-z0-9]+(?:-[a-z0-9]+)*$/`
unfoldable pub is_slug : String → Bool
unfolding is_slug_from
is_slug s = is_slug_from false (codes s)

is_alphanumeric : ℕ → Bool
is_alphanumeric c =
    (leb b'a' c && leb c b'z') || (leb b'A' c && leb c b'Z') || (leb b'0' c && leb c b'9')

abbrev revision_chars : List ℕ → Bool
revision_chars [] = false
revision_chars (c ∷ cs) =
    is_alphanumeric c && all (λ d. is_alphanumeric d || d == b'.' || d == b'_' || d == b'-') cs

-- `/^(?!latest$|main$|master$|HEAD$)[A-Za-z0-9][A-Za-z0-9._-]*$/`
unfoldable pub is_revision : String → Bool
unfolding is_alphanumeric
is_revision s =
    not (includes ("latest" ∷ "main" ∷ "master" ∷ "HEAD" ∷ []) s) && revision_chars (codes s)

abbrev is_inhabited_list : List ℕ → Bool
is_inhabited_list [] = false
is_inhabited_list (c ∷ cs) = true

is_reason_char : ℕ → Bool
is_reason_char c = (leb b'A' c && leb c b'Z') || (leb b'0' c && leb c b'9') || c == b'_'

-- `/^[A-Z0-9_]+$/`
unfoldable pub is_reason : String → Bool
unfolding is_reason_char
is_reason s = is_inhabited_list (codes s) && all is_reason_char (codes s)

-- The two refinements on the kind and the state.
abbrev pub kind_allows : AdvisoryKind → Status → Bool
kind_allows security s = is_revoked s
kind_allows availability s = not (is_revoked s)

-- `advisorySchema`; `is_datetime` is `z.iso.datetime()`.
unfoldable pub advisory_schema : (String → Bool) → RevisionAdvisory → Bool
advisory_schema is_datetime e =
    leb 1 e.sequence
    && is_sha256 e.previous_event_hash
    && (leb 1 (utf16_length e.advisory_id) && leb (utf16_length e.advisory_id) 120)
    && (is_slug e.skill_id && leb (utf16_length e.skill_id) 80)
    && (is_revision e.revision && leb (utf16_length e.revision) 128)
    && is_sha256 e.revision_sha256
    && (is_reason e.reason_code && leb (utf16_length e.reason_code) 120)
    && is_datetime e.effective_at
    && is_sha256 e.event_hash
    && kind_allows e.kind e.state

-- `revisionKey`
unfoldable pub revision_key : String → String → String
revision_key skill_id revision = skill_id <> "\0" <> revision

unfoldable pub preimage_json : Preimage → Json
preimage_json e = object (
    field "sequence" (number e.sequence) (
      field "previousEventHash" (text e.previous_event_hash) (
        field "advisoryId" (text e.advisory_id) (
          field "skillId" (text e.skill_id) (
            field "revision" (text e.revision) (
              field "revisionSha256" (text e.revision_sha256) (
                field "kind" (text (kind_text e.kind)) (
                  field "state" (text (status_text e.state)) (
                    field "reasonCode" (text e.reason_code)
                      (field "effectiveAt" (text e.effective_at) end))))))))))

-- `advisoryEventHash`
unfoldable pub advisory_event_hash : Platform → Preimage → Result String
unfolding preimage_json
advisory_event_hash p e = do canonical ← canonicalize p (preimage_json e); ok (p.sha256 canonical)

-- `createAdvisoryEvent`
unfoldable pub create_advisory_event : Platform → Preimage → Result RevisionAdvisory
unfolding advisory_event_hash
create_advisory_event p e = do
  hash ← advisory_event_hash p e
  ok (record { preimage = e; event_hash = hash })
