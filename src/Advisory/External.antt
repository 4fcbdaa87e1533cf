-- ===== src/Advisory/External.antt =====
-- src/domain/external-catalog/external-advisory-chain.ts: the chain of advisories of imported skills.
use skillwire.Base.{
  ◌>>=◌, ◌>>◌, ℕ, ◌+◌, not, ◌||◌, ◌≡◌, refl, List, [], ◌∷◌, ◌++◌, String, ◌===◌, Result, ok, error,
  throw_if, >>=-eq-ok, ===_refl,
}
use skillwire.Canonical.{Platform, Json, text, object, end, field, canonicalize}
use skillwire.Advisory.Event.{AdvisoryKind, Status, kind_text, status_text}
use skillwire.Advisory.Chain.{empty_head}

-- `ExternalAdvisoryEventInput`, and the event with its hash. The sequence is a text of digits.
pub record ExternalInput : Type 0 where
  pub sequence : String
  pub previous_event_sha256 : String
  pub revision_id : String
  pub kind : AdvisoryKind
  pub status : Status
  pub reason_code : String
  pub effective_at : String

pub record ExternalEvent : Type 0 where
  pub input : ExternalInput
  pub open input use *
  pub event_sha256 : String

unfoldable pub input_json : ExternalInput → Json
input_json e = object (
    field "sequence" (text e.sequence) (
      field "previousEventSha256" (text e.previous_event_sha256) (
        field "revisionId" (text e.revision_id) (
          field "kind" (text (kind_text e.kind)) (
            field "status" (text (status_text e.status)) (
              field "reasonCode" (text e.reason_code)
                (field "effectiveAt" (text e.effective_at) end)))))))

-- `hashExternalAdvisoryEvent`
unfoldable pub hash_external_event : Platform → ExternalInput → Result String
unfolding input_json
hash_external_event p e = do canonical ← canonicalize p (input_json e); ok (p.sha256 canonical)

module _ (p : Platform) where
  -- The loop over the events: `sequence` and `previous`. `number_text` is `toString` of the sequence.
  unfoldable pub verify_external_from : ℕ → String → List ExternalEvent → Result String
  unfolding hash_external_event
  verify_external_from n previous [] = ok previous
  verify_external_from n previous (e ∷ es) = do
    throw_if
        (not (e.sequence === p.number_text (n + 1)) || not (e.previous_event_sha256 === previous))
        (error "ADVISORY_CHAIN_INVALID")
    hash ← hash_external_event p e.input
    throw_if (not (hash === e.event_sha256)) (error "ADVISORY_CHAIN_INVALID")
    verify_external_from (n + 1) e.event_sha256 es

  unfoldable pub verify_external_advisory_chain : List ExternalEvent → String → Result (Unit {0})
  unfolding verify_external_from
  verify_external_advisory_chain events expected_head = do
    previous ← verify_external_from 0 empty_head events
    throw_if (not (previous === expected_head)) (error "ADVISORY_CHAIN_INVALID")

  -- The hash of the last event.
  abbrev pub newest_from : String → List ExternalEvent → String
  newest_from previous [] = previous
  newest_from previous (e ∷ es) = newest_from e.event_sha256 es

  prefix_from :
      (n : ℕ) (previous : String) (earlier later : List ExternalEvent) {head : String}
      → verify_external_from n previous (earlier ++ later) ≡ ok head
      → verify_external_from n previous earlier ≡ ok (newest_from previous earlier)
  unfolding verify_external_from
  prefix_from n previous [] later h = refl
  prefix_from n previous (e ∷ es) later h =
      let bad =
        not (e.sequence === p.number_text (n + 1)) || not (e.previous_event_sha256 === previous) in
      let invalid = error "ADVISORY_CHAIN_INVALID" in
      let (_, e1, h1) = >>=-eq-ok (throw_if bad invalid) _ h in
      let (hash, e2, h2) = >>=-eq-ok (hash_external_event p e.input) _ h1 in
      let (_, e3, h3) = >>=-eq-ok (throw_if (not (hash === e.event_sha256)) invalid) _ h2 in
      rw (e1, e2, e3) (prefix_from (n + 1) e.event_sha256 es later h3)

  -- Every beginning of a chain that verifies is itself a chain that verifies, with the hash of its
  -- last event for head, or the empty head: what was appended later changed nothing before it.
  pub verify_external-prefix :
      (earlier later : List ExternalEvent) (head : String)
      → verify_external_advisory_chain (earlier ++ later) head ≡ ok tt
      → verify_external_advisory_chain earlier (newest_from empty_head earlier) ≡ ok tt
  unfolding verify_external_advisory_chain
  verify_external-prefix earlier later head h =
      let (previous, e1, _) =
        >>=-eq-ok (verify_external_from 0 empty_head (earlier ++ later)) _ h in
      rw (prefix_from 0 empty_head earlier later e1, ===_refl (newest_from empty_head earlier)) refl
