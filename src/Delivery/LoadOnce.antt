-- ===== src/Delivery/LoadOnce.antt =====
-- `createLoadSkill`: a load that returns is exact and recorded once, and one that throws leaves the
-- memory as it was, or as the failed record left it.
use skillwire.Delivery.Exact.{assert_verified_exact_revision, exact_checks}
use skillwire.Base.{
  true, Option, none, some, String, Result, ok, err, ◌≡◌, refl, ◌⊎◌, inl, inr, is_sha256, ap,
  Failure, ok-injective, subst, >>=-eq-ok, throw_if, sym, utf16_length, ◌==◌, caught_as-ok,
  revision_unavailable, not, throw_if-false, arith,
}
use skillwire.Catalog.Revision.{Services, SkillRevision}
use skillwire.Delivery.Errors.{MemoryScope, repository_memory_scope, assert_current_request_active}
use skillwire.Delivery.Load.{
  Answers, Request, LoadSkillInput, LoadSkillResult, Usage, checked, load_skill, result_of,
  usage_of, recorded, remembered, delivered, answered, is_given, current_revision,
}
use skillwire.Delivery.LoadLaws.{
  IsExact, IsCurrent, exact_checks-IsExact, current_revision-IsCurrent,
}

-- The failure, of a call that threw.
abbrev without_value {ℓ κ} : {A : Type ℓ} {B : Type κ} → B → Result A → Result B
without_value x (ok a) = ok x
without_value x (err e) = err e

module _ (s : Services) {S : Type 0}
    (record_usage : MemoryScope → Usage → S → Result (Unit {0}) × S) where
  -- The revision that a result is of.
  pub record IsLoaded (a : Answers) (input : LoadSkillInput) (result : LoadSkillResult)
      : Type 0 where
    pub loaded : SkillRevision
    pub exact : IsExact s loaded input.skill_id input.revision
    pub current : IsCurrent a loaded result.current_advisory_status
    pub result_is :
        result ≡ result_of loaded result.current_advisory_status (is_given input.repository_hash)

  checked-IsLoaded :
      (a : Answers) (q : Request) (input : LoadSkillInput) (result : LoadSkillResult)
      → checked s record_usage a q input ≡ ok result
      → IsLoaded a input result
  unfolding checked assert_verified_exact_revision
  checked-IsLoaded a q input result h =
      let (v, e1, h1) = >>=-eq-ok (current_revision a) _ h in
      let (_, e2, h2) =
        >>=-eq-ok (assert_verified_exact_revision s v.0 input.skill_id input.revision) _ h1 in
      let (_, e3, h3) = >>=-eq-ok (assert_current_request_active q.execution q.now) _ h2 in
      subst (λ w. IsLoaded a input w) (ok-injective h3)
        (record {
          loaded = v.0;
          exact = exact_checks-IsExact s v.0 input.skill_id input.revision (
              caught_as-ok revision_unavailable (exact_checks s v.0 input.skill_id input.revision)
                e2);
          current = current_revision-IsCurrent a v.0 v.1 e1;
          result_is = refl;
        })

  -- The memory after a load that returns: unchanged where no repository was named, and otherwise as
  -- one record of the usage, which succeeded, left it.
  abbrev pub IsRemembered : Request → Option String → LoadSkillResult → S → S → Type 0
  IsRemembered q none result before after = after ≡ before
  IsRemembered q (some hash) result before after =
      (is_sha256 hash ≡ true)
      × (record_usage (record { account_id = q.account_id; repository_hash = hash })
            (usage_of s record_usage result) before
          ≡ (ok tt, after))

  scope-eq-ok :
      (account_id hash : String) (scope : MemoryScope)
      → repository_memory_scope account_id hash ≡ ok scope
      → (is_sha256 hash ≡ true)
        × (scope ≡ record { account_id = account_id; repository_hash = hash })
  unfolding repository_memory_scope
  scope-eq-ok account_id hash scope h =
      let (_, e1, h1) = >>=-eq-ok (throw_if (utf16_length account_id == 0) _) _ h in
      let (_, e2, h2) = >>=-eq-ok (throw_if (not (is_sha256 hash)) _) _ h1 in
      let hex = throw_if-false (not (is_sha256 hash)) _ e2 in
      (ground (arith, hex), sym (ok-injective h2))

  answered-ok :
      (v result : LoadSkillResult) (o : Result (Unit {0}) × S) (after : S)
      → answered s record_usage v o ≡ (ok result, after)
      → (v ≡ result) × (o ≡ (ok tt, after))
  answered-ok v result (ok u, m) after h =
      (ok-injective (ap (λ p. p.0) h), ap (λ p. (ok tt, p.1)) h)
  answered-ok v result (err e, m) after h = absurd (cc (ap (λ p. p.0) h))

  recorded-ok :
      (v result : LoadSkillResult) (scope : Result MemoryScope) (before after : S)
      → recorded s record_usage v scope before ≡ (ok result, after)
      → (w : MemoryScope) × (scope ≡ ok w)
        × (v ≡ result)
        × (record_usage w (usage_of s record_usage v) before ≡ (ok tt, after))
  recorded-ok v result (err e) before after h = absurd (cc (ap (λ p. p.0) h))
  recorded-ok v result (ok w) before after h =
      let (same, done) =
        answered-ok v result (record_usage w (usage_of s record_usage v) before) after h in
      (w, refl, same, done)

  remembered-ok :
      (q : Request) (hash : Option String) (v result : LoadSkillResult) (before after : S)
      → remembered s record_usage q hash v before ≡ (ok result, after)
      → (v ≡ result) × IsRemembered q hash v before after
  remembered-ok q none v result before after h =
      (ok-injective (ap (λ p. p.0) h), sym (ap (λ p. p.1) h))
  remembered-ok q (some hash) v result before after h =
      let (w, e, same, done) =
        recorded-ok v result (repository_memory_scope q.account_id hash) before after h in
      let (hex, is) = scope-eq-ok q.account_id hash w e in
      (
        same,
        (
          hex,
          subst (λ x. record_usage x (usage_of s record_usage v) before ≡ (ok tt, after)) is done,
        ),
      )

  delivered-ok :
      (q : Request) (input : LoadSkillInput) (c : Result LoadSkillResult) (result : LoadSkillResult)
      (before after : S)
      → delivered s record_usage q input c before ≡ (ok result, after)
      → (c ≡ ok result) × IsRemembered q input.repository_hash result before after
  delivered-ok q input (err e) result before after h = absurd (cc (ap (λ p. p.0) h))
  delivered-ok q input (ok v) result before after h =
      let (same, kept) = remembered-ok q input.repository_hash v result before after h in
      (
        ap (λ x. ok x) same,
        subst (λ x. IsRemembered q input.repository_hash x before after) same kept,
      )

  -- A load that returns gives the exact revision that was asked for, its instructions of their hash
  -- and each resource of its manifest intact, while neither the status before nor the one after it
  -- was found is a revocation; and the memory is as it was where no repository is named, and
  -- otherwise as one successful record of this usage left it.
  pub load_skill-IsLoaded :
      (a : Answers) (q : Request) (input : LoadSkillInput) (result : LoadSkillResult)
      (before after : S)
      → load_skill s record_usage a q input before ≡ (ok result, after)
      → IsLoaded a input result × IsRemembered q input.repository_hash result before after
  unfolding load_skill
  load_skill-IsLoaded a q input result before after h =
      let (c, kept) =
        delivered-ok q input (checked s record_usage a q input) result before after h in
      (checked-IsLoaded a q input result c, kept)

  -- The memory after a load that throws.
  abbrev pub IsUndone : Failure → S → S → Type 0
  IsUndone e before after =
      (after ≡ before)
      ⊎ ((scope : MemoryScope) × (usage : Usage) × (record_usage scope usage before
            ≡ (err e, after)))

  answered-err :
      (v : LoadSkillResult) (o : Result (Unit {0}) × S) (e : Failure) (after : S)
      → answered s record_usage v o ≡ (err e, after)
      → o ≡ (err e, after)
  answered-err v (ok u, m) e after h = absurd (cc (ap (λ p. p.0) h))
  answered-err v (err f, m) e after h = ap (λ p. (without_value tt p.0, p.1)) h

  recorded-err :
      (v : LoadSkillResult) (scope : Result MemoryScope) (e : Failure) (before after : S)
      → recorded s record_usage v scope before ≡ (err e, after)
      → IsUndone e before after
  recorded-err v (err f) e before after h = inl (sym (ap (λ p. p.1) h))
  recorded-err v (ok w) e before after h =
      let usage = usage_of s record_usage v in
      inr (w, usage, answered-err v (record_usage w usage before) e after h)

  remembered-err :
      (q : Request) (hash : Option String) (v : LoadSkillResult) (e : Failure) (before after : S)
      → remembered s record_usage q hash v before ≡ (err e, after)
      → IsUndone e before after
  remembered-err q none v e before after h = absurd (cc (ap (λ p. p.0) h))
  remembered-err q (some hash) v e before after h =
      recorded-err v (repository_memory_scope q.account_id hash) e before after h

  delivered-err :
      (q : Request) (input : LoadSkillInput) (c : Result LoadSkillResult) (e : Failure)
      (before after : S)
      → delivered s record_usage q input c before ≡ (err e, after)
      → IsUndone e before after
  delivered-err q input (err f) e before after h = inl (sym (ap (λ p. p.1) h))
  delivered-err q input (ok v) e before after h =
      remembered-err q input.repository_hash v e before after h

  -- A load that throws leaves the memory as it was, or else it is the record of the usage that threw
  -- this error, and the memory is as that record left it.
  pub load_skill-IsUndone :
      (a : Answers) (q : Request) (input : LoadSkillInput) (e : Failure) (before after : S)
      → load_skill s record_usage a q input before ≡ (err e, after)
      → IsUndone e before after
  unfolding load_skill
  load_skill-IsUndone a q input e before after h =
      delivered-err q input (checked s record_usage a q input) e before after h
