-- ===== src/Advisory/Revocation.antt =====
-- A revocation is terminal.
use skillwire.Base.{
  String, ◌≡◌, List, true, Bool, Option, arith, ℕ, ◌++◌, ok, ◌∷◌, ◌+◌, >>=-eq-ok, [], ===_iff,
  throw_if, ap,
}
use skillwire.Base.Dict.{get, put, get-put}
use skillwire.Canonical.{Platform}
use skillwire.Advisory.Event.{Status, revoked, is_revoked, RevisionAdvisory, revision_key}
use skillwire.Advisory.Chain.{
  empty_head, VerifiedChain, or_available, differs, verify_from, verify_advisory_chain,
  advisory_status_for,
}
use skillwire.Advisory.Links.{verify_from-cons}

-- The status of a key.
abbrev status_at : List (String × Status) → String → Status
status_at status key = or_available (get status key)

is_revoked-eq : (s : Status) → is_revoked s ≡ true → s ≡ revoked
is_revoked-eq s h = ground arith

module _ (p : Platform) (is_datetime : String → Bool)
    (revision_hashes : String → Option String) where
  -- Events that follow leave a revoked key revoked.
  still_revoked :
      (index : ℕ) (previous key : String) (status : List (String × Status))
      (es : List RevisionAdvisory) (r : String × List (String × Status))
      → is_revoked (status_at status key) ≡ true
      → verify_from p is_datetime revision_hashes index previous status es ≡ ok r
      → is_revoked (status_at r.1 key) ≡ true
  unfolding verify_from
  still_revoked index previous key status [] r v h = let same : status ≡ r.1 = cc h in rw (← same) v
  still_revoked index previous key status (e ∷ es) r v h =
      let (a, rest) = verify_from-cons p is_datetime revision_hashes index previous status e es h in
      let k = revision_key e.skill_id e.revision in
      still_revoked (index + 1) e.event_hash key (put status k e.state) es r
        (ground (arith, get-put status k e.state key, ===_iff k key, a.lasting)) rest

  revoked_after :
      (index : ℕ) (previous : String) (status : List (String × Status))
      (before after : List RevisionAdvisory) (e : RevisionAdvisory)
      (r : String × List (String × Status))
      → e.state ≡ revoked
      → verify_from p is_datetime revision_hashes index previous status (before ++ e ∷ after) ≡ ok r
      → is_revoked (status_at r.1 (revision_key e.skill_id e.revision)) ≡ true
  revoked_after index previous status [] after e r v h =
      let (a, rest) =
        verify_from-cons p is_datetime revision_hashes index previous status e after h in
      let k = revision_key e.skill_id e.revision in
      still_revoked (index + 1) e.event_hash k (put status k e.state) after r
        (ground (arith, get-put status k e.state k, ===_iff k k)) rest
  revoked_after index previous status (b ∷ before) after e r v h =
      let (a, rest) =
        verify_from-cons p is_datetime revision_hashes index previous status b (before ++ e ∷ after)
          h in
      revoked_after (index + 1) b.event_hash
        (put status (revision_key b.skill_id b.revision) b.state) before after e r v rest

  -- In a verified chain a revision that some event revoked is revoked, whatever events follow.
  pub revocation_is_terminal :
      (before after : List RevisionAdvisory) (e : RevisionAdvisory) (expected : Option String)
      (chain : VerifiedChain)
      → e.state ≡ revoked
      → verify_advisory_chain p is_datetime revision_hashes (before ++ e ∷ after) expected
        ≡ ok chain
      → advisory_status_for chain e.skill_id e.revision ≡ revoked
  unfolding verify_advisory_chain advisory_status_for
  revocation_is_terminal before after e expected chain v h =
      let (r, h1, h2) =
        >>=-eq-ok (verify_from p is_datetime revision_hashes 0 empty_head [] (before ++ e ∷ after))
          _ h in
      let (_, _, h3) = >>=-eq-ok (throw_if (differs expected r.0) _) _ h2 in
      let same : record { events = before ++ e ∷ after; head = r.0; status_by_revision = r.1 }
          ≡ chain =
        cc h3 in
      is_revoked-eq _ (
        rw (← ap (λ c. c.status_by_revision) same)
          (revoked_after 0 empty_head [] before after e r v h1))
