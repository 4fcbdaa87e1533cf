-- ===== src/Advisory/Tests.antt =====
-- The advisory chain on a concrete input, and its theorems at such an input.
use skillwire.Base.Dict.{get, put}
use skillwire.Canonical.{canonicalize}
use skillwire.Advisory.Event.{is_slug, is_revision, is_reason}
use skillwire.Base.{
  ===_iff, is_sha256, utf16_length, true, ◌≡◌, ◌≢◌, refl, [], ◌∷◌, String, some, none, Option,
  false, Bool, ok-injective,
}
use skillwire.Canonical.{Platform}
use skillwire.Advisory.Event.{
  AdvisoryKind, revoked, RevisionAdvisory, advisory_event_hash, advisory_schema, revision_key,
}
use skillwire.Advisory.Chain.{
  VerifiedChain, empty_head, verify_advisory_chain, verify_from, advisory_status_for,
}
use skillwire.Advisory.Links.{verified_head_determines_chain}
use skillwire.Advisory.Revocation.{revocation_is_terminal}

abbrev digest : String
digest = "0123456789abcdef0123456789abcdef0123456789abcdef0123456789abcdef"

-- A platform whose hash is constant.
abbrev platform : Platform
platform = record {
  quote = λ s. s;
  number_text = λ n. "0";
  locale_less = λ s t. false;
  code_unit_less = λ s t. false;
  sha256 = λ s. digest;
}

abbrev event : RevisionAdvisory
event = record {
  preimage = record {
    sequence = 1;
    previous_event_hash = empty_head;
    advisory_id = "a1";
    skill_id = "skill";
    revision = "v1";
    revision_sha256 = digest;
    kind = AdvisoryKind.security;
    state = revoked;
    reason_code = "LEAK";
    effective_at = "2026-01-01T00:00:00.000Z";
  };
  event_hash = digest;
}

abbrev hashes : String → Option String
hashes key = some digest

abbrev always : String → Bool
always s = true

abbrev chain : VerifiedChain
chain = record {
  events = event ∷ [];
  head = digest;
  status_by_revision = (revision_key "skill" "v1", revoked) ∷ [];
}

digest-ne-empty : digest ≢ empty_head
digest-ne-empty h = let p : false ≡ true = (===_iff digest empty_head).1 h in cc p

verified_head_determines_chain_example : (event ∷ []) ≡ (event ∷ [])
unfolding verify_advisory_chain verify_from advisory_schema is_sha256 utf16_length is_slug
    is_revision is_reason advisory_event_hash canonicalize get put
verified_head_determines_chain_example =
    verified_head_determines_chain platform always hashes (event ∷ []) (event ∷ []) none
      (some digest) chain chain
      (record {
        injective = ((λ hash p q. refl, tt), tt);
        left = (λ p. digest-ne-empty (ok-injective p), tt);
        right = (λ p. digest-ne-empty (ok-injective p), tt);
      })
      refl refl refl

revocation_is_terminal_example : advisory_status_for chain "skill" "v1" ≡ revoked
unfolding verify_advisory_chain verify_from advisory_schema is_sha256 utf16_length is_slug
    is_revision is_reason advisory_event_hash canonicalize get put
revocation_is_terminal_example =
    revocation_is_terminal platform always hashes [] [] event none chain refl refl
