-- ===== src/Advisory/Links.antt =====
-- What a verified chain is: its events are linked by their hashes, so that its head determines it.
use skillwire.Base.{
  String, Bool, Option, ℕ, List, ◌≡◌, ◌∷◌, true, ok, ◌+◌, is_text, >>=-eq-ok, throw_if,
  throw_if-false, arith, ===_iff, ◌≢◌, not, reverse, [], append-nil, ◌∙◌, ◌++◌, ◌==◌, ◌===◌, ap,
  Result, sym, refl, ◌&&◌, err, append_assoc, false, All, All-map, All-reverse,
}
use mathlib.Core.List.{reverse-reverse, reverse-cons}
use skillwire.Base.Dict.{get, put}
use skillwire.Canonical.{Platform}
use skillwire.Advisory.Event.{
  Status, is_revoked, RevisionAdvisory, advisory_schema, revision_key, advisory_event_hash,
}
use skillwire.Advisory.Chain.{
  empty_head, VerifiedChain, or_available, differs, verify_from, verify_advisory_chain,
}

module _ (p : Platform) (is_datetime : String → Bool)
    (revision_hashes : String → Option String) where
  -- The checks that one event passed.
  pub record IsAccepted (index : ℕ) (previous : String) (status : List (String × Status))
      (e : RevisionAdvisory) : Type 0 where
    pub conforms : advisory_schema is_datetime e ≡ true
    pub numbered : e.sequence ≡ index + 1
    pub linked : e.previous_event_hash ≡ previous
    pub hashed : advisory_event_hash p e.preimage ≡ ok e.event_hash
    pub bound :
        is_text (revision_hashes (revision_key e.skill_id e.revision)) e.revision_sha256 ≡ true
    pub lasting :
        is_revoked (or_available (get status (revision_key e.skill_id e.revision))) ≡ true
        → is_revoked e.state ≡ true

  pub verify_from-cons :
      (index : ℕ) (previous : String) (status : List (String × Status)) (e : RevisionAdvisory)
      (es : List RevisionAdvisory) {r : String × List (String × Status)}
      → verify_from p is_datetime revision_hashes index previous status (e ∷ es) ≡ ok r
      → IsAccepted index previous status e
        × (verify_from p is_datetime revision_hashes
              (index + 1)
              e.event_hash
              (put status (revision_key e.skill_id e.revision) e.state)
              es
            ≡ ok r)
  unfolding verify_from
  verify_from-cons index previous status e es h =
      let (_, c1, h1) = >>=-eq-ok (throw_if (not (advisory_schema is_datetime e)) _) _ h in
      let (_, c2, h2) = >>=-eq-ok (throw_if (not (e.sequence == index + 1)) _) _ h1 in
      let (_, c3, h3) = >>=-eq-ok (throw_if (not (e.previous_event_hash === previous)) _) _ h2 in
      let (hash, c4, h4) = >>=-eq-ok (advisory_event_hash p e.preimage) _ h3 in
      let (_, c5, h5) = >>=-eq-ok (throw_if (not (e.event_hash === hash)) _) _ h4 in
      let (_, c6, h6) =
        >>=-eq-ok
          (throw_if
            (not (is_text (revision_hashes (revision_key e.skill_id e.revision)) e.revision_sha256))
            _)
          _ h5 in
      let (_, c7, h7) =
        >>=-eq-ok
          (throw_if
            ((is_revoked (or_available (get status (revision_key e.skill_id e.revision)))
              && not (is_revoked e.state)))
            _)
          _ h6 in
      let d1 : (not (advisory_schema is_datetime e)) ≡ false = throw_if-false _ _ c1 in
      let d2 : (not (e.sequence == index + 1)) ≡ false = throw_if-false _ _ c2 in
      let d3 : (not (e.previous_event_hash === previous)) ≡ false = throw_if-false _ _ c3 in
      let d5 : (not (e.event_hash === hash)) ≡ false = throw_if-false _ _ c5 in
      let d6 : (not
            (is_text (revision_hashes (revision_key e.skill_id e.revision)) e.revision_sha256))
          ≡ false =
        throw_if-false _ _ c6 in
      let d7 : ((is_revoked (or_available (get status (revision_key e.skill_id e.revision)))
            && not (is_revoked e.state)))
          ≡ false =
        throw_if-false _ _ c7 in
      (
        record {
          conforms = ground (arith, d1);
          numbered = ground (arith, d2);
          linked = ground (arith, d3, ===_iff e.previous_event_hash previous);
          hashed = ground (arith, c4, d5, ===_iff e.event_hash hash);
          bound = ground (arith, d6);
          lasting = ground (arith, d7);
        },
        h7,
      )

  -- A chain from the newest event back: each names its predecessor's hash and its own place.
  abbrev pub newest_hash : List RevisionAdvisory → String
  newest_hash [] = empty_head
  newest_hash (e ∷ older) = e.event_hash

  abbrev pub IsLinked : List RevisionAdvisory → Type 0
  IsLinked [] = Unit
  IsLinked (e ∷ older) =
      (advisory_event_hash p e.preimage ≡ ok e.event_hash)
      × (e.previous_event_hash ≡ newest_hash older)
      × IsLinked older

  verify_from-IsLinked :
      (index : ℕ) (status : List (String × Status)) (older es : List RevisionAdvisory)
      (r : String × List (String × Status))
      → IsLinked older
      → verify_from p is_datetime revision_hashes index (newest_hash older) status es ≡ ok r
      → IsLinked (reverse es ++ older) × (newest_hash (reverse es ++ older) ≡ r.0)
  unfolding verify_from
  verify_from-IsLinked index status older [] r l h = (l, cc (ap head_of h))
    where
      head_of : Result (String × List (String × Status)) → String
      head_of (ok x) = x.0
      head_of (err _) = ""
  verify_from-IsLinked index status older (e ∷ es) r l h =
      let (a, rest) = verify_from-cons index (newest_hash older) status e es h in
      rw (reverse-cons, append_assoc)
        (verify_from-IsLinked (index + 1) (put status (revision_key e.skill_id e.revision) e.state)
          (e ∷ older) es r (a.hashed, a.linked, l) rest)

  pub verified-IsLinked :
      (events : List RevisionAdvisory) (expected : Option String) (chain : VerifiedChain)
      → verify_advisory_chain p is_datetime revision_hashes events expected ≡ ok chain
      → IsLinked (reverse events)
        × (newest_hash (reverse events) ≡ chain.head)
        × (chain.events ≡ events)
  unfolding verify_advisory_chain
  verified-IsLinked events expected chain h =
      let (r, h1, h2) =
        >>=-eq-ok (verify_from p is_datetime revision_hashes 0 empty_head [] events) _ h in
      let (_, _, h3) = >>=-eq-ok (throw_if (differs expected r.0) _) _ h2 in
      let same : record { events = events; head = r.0; status_by_revision = r.1 } ≡ chain = cc h3 in
      let (l, n) = verify_from-IsLinked 0 [] [] events r tt h1 in
      (
        rw append-nil at l,
        (rw append-nil at n) ∙ ap (λ c. c.head) same,
        sym (ap (λ c. c.events) same),
      )

  -- The hash has no collision among the preimages of two lists of events: those of one hash are equal,
  -- and none has the hash that is the head of the empty chain.
  abbrev IsApart : RevisionAdvisory → RevisionAdvisory → Type 0
  IsApart x y =
      (hash : String)
      → advisory_event_hash p x.preimage ≡ ok hash
      → advisory_event_hash p y.preimage ≡ ok hash
      → x.preimage ≡ y.preimage

  pub record IsCollisionFree (xs ys : List RevisionAdvisory) : Type 0 where
    pub injective : All (λ x. All (IsApart x) ys) xs
    pub left : All (λ x. advisory_event_hash p x.preimage ≢ ok empty_head) xs
    pub right : All (λ y. advisory_event_hash p y.preimage ≢ ok empty_head) ys

  IsCollisionFree-reverse :
      (xs ys : List RevisionAdvisory)
      → IsCollisionFree xs ys
      → IsCollisionFree (reverse xs) (reverse ys)
  IsCollisionFree-reverse xs ys c = record {
    injective = All-reverse _ xs (All-map _ _ (λ x h. All-reverse (IsApart x) ys h) xs c.injective);
    left = All-reverse _ xs c.left;
    right = All-reverse _ ys c.right;
  }

  IsCollisionFree-tail :
      (x y : RevisionAdvisory) (xs ys : List RevisionAdvisory)
      → IsCollisionFree (x ∷ xs) (y ∷ ys)
      → IsCollisionFree xs ys
  IsCollisionFree-tail x y xs ys c = record {
    injective = All-map _ _ (λ z h. h.1) xs c.injective.1;
    left = c.left.1;
    right = c.right.1;
  }

  linked_unique :
      (xs ys : List RevisionAdvisory)
      → IsCollisionFree xs ys
      → IsLinked xs
      → IsLinked ys
      → newest_hash xs ≡ newest_hash ys
      → xs ≡ ys
  linked_unique [] [] c l m h = refl
  linked_unique [] (y ∷ ys) c l m h = absurd (c.right.0 (m.0 ∙ ap (λ s. ok s) (sym h)))
  linked_unique (x ∷ xs) [] c l m h = absurd (c.left.0 (l.0 ∙ ap (λ s. ok s) h))
  linked_unique (x ∷ xs) (y ∷ ys) c l m h =
      let same = c.injective.0.0 y.event_hash (l.0 ∙ ap (λ s. ok s) h) m.0 in
      let older =
        linked_unique xs ys (IsCollisionFree-tail x y xs ys c) l.2 m.2
          (sym l.1 ∙ ap (λ d. d.previous_event_hash) same ∙ m.1) in
      λ i. record { preimage = same i; event_hash = h i } ∷ older i

  -- If the hash has no collision among the preimages of their events, two verified chains of one head are the same
  -- chain, of the same events in the same order: no event was changed, dropped, added or moved.
  pub verified_head_determines_chain :
      (events events' : List RevisionAdvisory) (expected expected' : Option String)
      (chain chain' : VerifiedChain)
      → IsCollisionFree events events'
      → verify_advisory_chain p is_datetime revision_hashes events expected ≡ ok chain
      → verify_advisory_chain p is_datetime revision_hashes events' expected' ≡ ok chain'
      → chain.head ≡ chain'.head
      → events ≡ events'
  verified_head_determines_chain events events' expected expected' chain chain' c h h' same =
      let (l, n, _) = verified-IsLinked events expected chain h in
      let (l', n', _) = verified-IsLinked events' expected' chain' h' in
      let r =
        linked_unique (reverse events) (reverse events') (IsCollisionFree-reverse events events' c)
          l l' (n ∙ same ∙ sym n') in
      sym (reverse-reverse events) ∙ ap reverse r ∙ reverse-reverse events'
