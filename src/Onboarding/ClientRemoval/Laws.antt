-- ===== src/Onboarding/ClientRemoval/Laws.antt =====
-- What the removal of a client's integration removes, and what its status says.
use skillwire.Onboarding.ClientRemoval.Admitted.{AreKept, test-AreKept}
use skillwire.Onboarding.Triple.{
  Holds, bind-Holds, call-Holds, lift-Holds, if-Holds, assign-Holds, pure-Holds, try-Holds,
  weaken-Holds, given-Holds, Post,
}
use skillwire.Onboarding.ClientRemoval.{
  RemovalCallbacks, Observation, Removing, Component, owns, removed_one, cancelled, removed_each,
  order, is_clear, uninstall_client_lifecycle, RemovalResult, status_of, recovery_required,
  unchanged, is_kept, is_owned, finished,
}
use skillwire.Base.{
  if◌then◌else◌, ok-injective, ◌≢◌, Bool, true, false, ◌||◌, ◌≡◌, refl, ap, sym, ◌∙◌, List, [], ◌∷◌,
  ◌++◌, any, All, All-append, filter_by, ok, err, Result, append_assoc, append-nil, ◌⊎◌, inl, inr,
  subst, not, Failure,
}
use skillwire.Onboarding.Op.{◌>>=◌, Run, Setting}

module _ (g : Setting) (does : RemovalCallbacks) (observations : List Observation) where
  -- The removal of a component returned, and the component was found absent.
  abbrev pub IsGone : Component → Type 0
  IsGone c = (does.remove c ≡ ok tt) × (does.verify_absent c ≡ ok true)

  -- The removals that were called are those of the components that are said to be removed, or one more.
  abbrev pub IsCalled : List Component → List Component → Type 0
  IsCalled called removed = (called ≡ removed) ⊎ ((c : Component) × (called ≡ removed ++ c ∷ []))

  -- Only components were removed that the integration owns, and those that are said to be removed are
  -- gone.
  abbrev pub IsSafe : Removing → Type 0
  IsSafe s =
      All (λ c. owns observations c ≡ true) s.called
      × All IsGone s.removed
      × IsCalled s.called s.removed

  -- So far all removals succeeded, of these.
  abbrev Done : List Component → Removing → Type 0
  Done done s = (s.removed ≡ done) × (s.called ≡ s.removed) × IsSafe s

  abbrev Went : List Component → Bool → Removing → Type 0
  Went all went s = IsSafe s × (went ≡ true → (s.removed ≡ all) × (s.called ≡ s.removed))

  abbrev Never : Failure → Removing → Type 0
  Never e s = ⊥

  cancelled-Holds : {P : Removing → Type 0} → Holds P (cancelled g does) (λ _. P) Never
  cancelled-Holds = record { run = λ r p. p }

  with_one :
      (c : Component) (rest done : List Component)
      → owns observations c ≡ true
      → (done ++ c ∷ []) ++ filter_by (owns observations) rest
        ≡ done ++ filter_by (owns observations) (c ∷ rest)
  with_one c rest done q =
      append_assoc done (c ∷ []) (filter_by (owns observations) rest)
      ∙ ap
          (λ b.
            done
            ++ (if b
                then c ∷ filter_by (owns observations) rest
                else filter_by (owns observations) rest))
          (sym q)

  called_one :
      (c : Component) (s : Removing)
      → owns observations c ≡ true
      → s.called ≡ s.removed
      → IsSafe s
      → IsSafe (record s { called = s.called ++ c ∷ [] })
  called_one c s q e p = (
    All-append (λ c. owns observations c ≡ true) s.called (c ∷ []) p.0 (q, tt),
    p.1,
    inr (c, ap (λ l. l ++ c ∷ []) e),
  )

  removed_one-Holds :
      (c : Component) (done : List Component)
      → owns observations c ≡ true
      → Holds (Done done) (removed_one g does c) (Went (done ++ c ∷ [])) (λ _. IsSafe)
  removed_one-Holds c done q =
      bind-Holds
        (λ _ s.
          (does.remove c ≡ ok tt)
          × (s.removed ≡ done)
          × (s.called ≡ s.removed ++ c ∷ [])
          × IsSafe s)
        (call-Holds _ (does.remove c)
          (λ s p v d. (d, p.0, ap (λ l. l ++ c ∷ []) p.1, called_one c s q p.1 p.2))
          (λ s p e d. called_one c s q p.1 p.2))
        λ _.
          bind-Holds
            (λ gone s.
              (does.verify_absent c ≡ ok gone)
              × (does.remove c ≡ ok tt)
              × (s.removed ≡ done)
              × (s.called ≡ s.removed ++ c ∷ [])
              × IsSafe s)
            (lift-Holds _ (λ s p v d. (d, p.0, p.1, p.2, p.3)) (λ s p e d. p.3))
            λ gone.
              if-Holds
                (λ (t : gone ≡ true).
                  bind-Holds (λ _. Went (done ++ c ∷ []) true)
                    (assign-Holds _ (λ s p. (
                      (
                        p.4.0,
                        All-append IsGone s.removed (c ∷ []) p.4.1
                            ((p.1, p.0 ∙ ap (λ b. ok b) t), tt),
                        inl p.3,
                      ),
                      (λ _. (ap (λ l. l ++ c ∷ []) p.2, p.3)),
                    )))
                    (λ _. pure-Holds true (λ s p. p)))
                (λ _. pure-Holds false (λ s p. (p.4, λ h. absurd (cc h))))

  removed_each-Holds :
      (rest done : List Component)
      → Holds
          (Done done)
          (removed_each g does observations rest)
          (Went (done ++ filter_by (owns observations) rest))
          Never
  unfolding removed_each
  removed_each-Holds [] done =
      pure-Holds true (λ s p. (p.2, λ _. (p.0 ∙ sym (append-nil done), p.1)))
  removed_each-Holds (c ∷ rest) done =
      if-Holds
        (λ (q : owns observations c ≡ true).
          bind-Holds (λ _. Done done) cancelled-Holds
            λ stop.
              if-Holds (λ _. pure-Holds false (λ s p. (p.2, λ h. absurd (cc h))))
                (λ _.
                  bind-Holds (Went (done ++ c ∷ []))
                    (try-Holds (λ _. IsSafe) (removed_one-Holds c done q)
                      (λ e. pure-Holds false (λ s p. (p, λ h. absurd (cc h)))))
                    λ went.
                      if-Holds
                        (λ (t : went ≡ true).
                          weaken-Holds (Done (done ++ c ∷ [])) (λ s p. ((p.1 t).0, (p.1 t).1, p.0))
                            (subst
                              (λ l.
                                Holds (Done (done ++ c ∷ []))
                                  (removed_each g does observations rest) (Went l) Never)
                              (with_one c rest done q) (removed_each-Holds rest (done ++ c ∷ []))))
                        (λ _. pure-Holds false (λ s p. (p.0, λ h. absurd (cc h))))))
        (λ (q : owns observations c ≡ false).
          subst
            (λ l.
              Holds (Done done) (removed_each g does observations rest) (Went (done ++ l)) Never)
            (rw q refl) (removed_each-Holds rest done))

  abbrev empty : Removing
  empty = record { called = []; removed = [] }

  -- What a removal whose inspection returned ends with.
  pub record IsRemoval (result : RemovalResult) (s : Removing) : Type 0 where
    pub owned : All (λ c. owns observations c ≡ true) s.called
    pub gone : All IsGone result.removed
    pub called : IsCalled s.called result.removed
    pub proven : (s.called ≡ []) ⊎ AreKept observations
    pub complete :
        result.status ≢ recovery_required
        → (result.removed ≡ filter_by (owns observations) order) × (s.called ≡ result.removed)
    pub idle : result.status ≡ unchanged → result.removed ≡ []

  went-eq :
      (went : Bool) (removed : List Component)
      → status_of went removed ≢ recovery_required
      → went ≡ true
  went-eq true removed h = refl
  went-eq false removed h = absurd (h refl)

  idle-eq :
      (went : Bool) (removed : List Component) → status_of went removed ≡ unchanged → removed ≡ []
  idle-eq true [] h = refl
  idle-eq true (c ∷ removed) h = absurd (cc h)
  idle-eq false removed h = absurd (cc h)

  finished-IsRemoval :
      (went : Bool) (P : Removing → Type 0)
      → ((s : Removing)
          → P s
          → Went (filter_by (owns observations) order) went s
            × ((s.called ≡ []) ⊎ AreKept observations))
      → Holds P (finished g does observations went) IsRemoval Never
  finished-IsRemoval went P h = record {
    run = λ r p.
        let (w, b) = h r.local p in
        record {
          owned = w.0.0;
          gone = w.0.1;
          called = w.0.2;
          proven = b;
          complete = λ k. w.1 (went-eq went r.local.removed k);
          idle = idle-eq went r.local.removed;
        };
  }

  body-Holds :
      Holds
        (λ s. s ≡ empty)
        (if any (λ o. not (is_clear o)) observations
            || any (λ o. not (is_kept o)) (filter_by is_owned observations)
          then finished g does observations false
          else (removed_each g does observations order >>= finished g does observations))
        IsRemoval
        Never
  body-Holds =
      if-Holds
        (λ _.
          finished-IsRemoval false (λ s. s ≡ empty)
            (λ s p. (
              (subst IsSafe (sym p) (tt, tt, inl refl), λ h. absurd (cc h)),
              inl (ap (λ x. x.called) p),
            )))
        (λ q.
          bind-Holds (Went (filter_by (owns observations) order))
            (weaken-Holds (Done [])
              (λ s p. (
                ap (λ x. x.removed) p,
                ap (λ x. x.called) p ∙ sym (ap (λ x. x.removed) p),
                subst IsSafe (sym p) (tt, tt, inl refl),
              ))
              (removed_each-Holds order []))
            (λ went.
              finished-IsRemoval went (Went (filter_by (owns observations) order) went)
                (λ s p. (p, inr (test-AreKept observations q)))))

  uninstall-Holds :
      does.inspect ≡ ok observations
      → Holds (λ s. s ≡ empty) (uninstall_client_lifecycle g does) IsRemoval Never
  unfolding uninstall_client_lifecycle
  uninstall-Holds e =
      bind-Holds (λ o s. (does.inspect ≡ ok o) × (s ≡ empty))
        (lift-Holds _ (λ s p v d. (d, p)) (λ s p x d. absurd (cc (sym e ∙ d))))
        λ o. given-Holds λ d.
          subst
            (λ l.
              Holds (λ s. s ≡ empty)
                (if any (λ o. not (is_clear o)) l
                    || any (λ o. not (is_kept o)) (filter_by is_owned l)
                  then finished g does l false
                  else (removed_each g does l order >>= finished g does l))
                IsRemoval Never)
            (ok-injective (sym e ∙ d)) body-Holds

  total :
      (out : Result RemovalResult × Run Removing)
      → Post IsRemoval Never out
      → (result : RemovalResult) × (out.0 ≡ ok result) × IsRemoval result out.1.local
  total (ok v, r) h = (v, refl, h)
  total (err e, r) h = absurd h

  -- The removal of a client's integration whose inspection returns always returns, whatever its steps
  -- answer. It has called the removal only of components that the integration owns, and of none if an
  -- observation blocks or an owned component is not known to have its expected identity. The removal of
  -- each component that it says to have removed was called and returned, and the component was verified
  -- to be absent; it called at most one removal more, as its last. If its status does not ask for a
  -- recovery, it has called exactly the removals of all that the integration owns, each once and in the
  -- fixed order, and says so; if it is unchanged, nothing was removed.
  pub uninstall_client_lifecycle-IsRemoval :
      (r : Run Removing)
      → r.local ≡ empty
      → does.inspect ≡ ok observations
      → (result : RemovalResult) × ((uninstall_client_lifecycle g does r).0 ≡ ok result)
        × IsRemoval result (uninstall_client_lifecycle g does r).1.local
  uninstall_client_lifecycle-IsRemoval r p e =
      total (uninstall_client_lifecycle g does r) ((uninstall-Holds e).run r p)
