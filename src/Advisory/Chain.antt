-- ===== src/Advisory/Chain.antt =====
-- src/domain/catalog/advisory-chain.ts: `verifyAdvisoryChain` and `advisoryStatusFor`.
use skillwire.Base.{
  ◌>>=◌, ◌>>◌, Option, List, String, some, Bool, none, ℕ, false, Result, ok, [], not, ◌===◌, ◌∷◌,
  throw_if, error, ◌==◌, ◌+◌, is_text, ◌&&◌,
}
use skillwire.Base.Dict.{get, put}
use skillwire.Canonical.{Platform}
use skillwire.Advisory.Event.{
  Status, available, is_revoked, RevisionAdvisory, advisory_schema, revision_key,
  advisory_event_hash,
}

-- `EMPTY_ADVISORY_CHAIN_HEAD`
abbrev pub empty_head : String
empty_head = "0000000000000000000000000000000000000000000000000000000000000000"

pub record VerifiedChain : Type 0 where
  pub events : List RevisionAdvisory
  pub head : String
  pub status_by_revision : List (String × Status)

abbrev pub or_available : Option Status → Status
or_available none = available
or_available (some s) = s

abbrev pub differs : Option String → String → Bool
differs none head = false
differs (some expected) head = not (expected === head)

module _ (p : Platform) (is_datetime : String → Bool)
    (revision_hashes : String → Option String) where
  -- The loop over the events: `index` and the two variables that it updates.
  unfoldable pub verify_from :
      ℕ
      → String
      → List (String × Status)
      → List RevisionAdvisory
      → Result (String × List (String × Status))
  verify_from index previous status [] = ok (previous, status)
  verify_from index previous status (e ∷ es) = do
    throw_if (not (advisory_schema is_datetime e)) (error "Advisory event is invalid")
    throw_if (not (e.sequence == index + 1))
        (error "Advisory sequences must be contiguous and monotonic")
    throw_if (not (e.previous_event_hash === previous))
        (error "Advisory previous-event hash is invalid")
    hash ← advisory_event_hash p e.preimage
    throw_if (not (e.event_hash === hash)) (error "Advisory event hash is invalid")
    throw_if
        (not (is_text (revision_hashes (revision_key e.skill_id e.revision)) e.revision_sha256))
        (error "Advisory revision binding is invalid")
    throw_if
        (is_revoked (or_available (get status (revision_key e.skill_id e.revision)))
          && not (is_revoked e.state))
        (error "Security revocation is terminal")
    verify_from (index + 1) e.event_hash (put status (revision_key e.skill_id e.revision) e.state)
        es

  unfoldable pub verify_advisory_chain :
      List RevisionAdvisory → Option String → Result VerifiedChain
  verify_advisory_chain events expected_head = do
    found ← verify_from 0 empty_head [] events
    throw_if (differs expected_head found.0)
        (error "Advisory chain head does not match the release")
    ok (record { events = events; head = found.0; status_by_revision = found.1 })

unfoldable pub advisory_status_for : VerifiedChain → String → String → Status
advisory_status_for chain skill_id revision =
    or_available (get chain.status_by_revision (revision_key skill_id revision))
