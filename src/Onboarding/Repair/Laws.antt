-- ===== src/Onboarding/Repair/Laws.antt =====
-- Which assets a repair changes.
use mathlib.Core.List.{map-append}
use skillwire.Onboarding.Triple.{
  Holds, Post, bind-Holds, pure-Holds, lift-Holds, call-Holds, unless-Holds, given-Holds, if-Holds,
  assign-Holds,
}
use skillwire.Onboarding.Op.{Setting, Run}
use skillwire.Onboarding.Repair.{
  block_for, RepairCallbacks, is_skipped, RepairAsset, Observed, is_action, is_missing, is_outdated,
  is_drifted, is_repairable_drift, run_repair, repaired_all, Repairs, repaired_one, plan_repair,
}
use skillwire.Base.{
  true, false, ◌||◌, ◌&&◌, ◌≡◌, ok, arith, ◌===◌, List, Result, String, Option, All, map, [], ◌++◌,
  ◌∷◌, sym, ok-injective, subst, ◌∙◌, filter_by, ap, err, filter-All, refl, All-append,
}

-- An asset that a repair may change: not a secret, neither external nor ambiguous, with a proven owner
-- where it drifted, and observed again as missing or outdated with its expected identity, or as drifted
-- with a proven owner.
pub record IsRepairable (does : RepairCallbacks) (a : RepairAsset) : Type 0 where
  pub not_secret : (a.kind === "credential" || a.kind === "service-secret") ≡ false
  pub planned :
      (is_missing a.observation
        || is_outdated a.observation
        || (is_drifted a.observation && a.ownership_proven))
      ≡ true
  pub current : Observed
  pub observed : does.observe a ≡ ok current
  pub confirmed :
      ((current.identity_sha256 === a.expected_identity_sha256)
          && (is_missing current.observation || is_outdated current.observation)
        || is_repairable_drift a current)
      ≡ true

action-IsRepairable :
    (does : RepairCallbacks) (a : RepairAsset) (current : Observed)
    → is_action a ≡ true
    → does.observe a ≡ ok current
    → is_skipped a current ≡ false
    → IsRepairable does a
unfolding block_for is_skipped
action-IsRepairable does a current p o h = record {
  not_secret = ground arith;
  planned = ground arith;
  current = current;
  observed = o;
  confirmed = ground arith;
}

abbrev ids : List RepairAsset → List String
ids assets = map (λ (a : RepairAsset). a.asset_id) assets

module _ (g : Setting) (does : RepairCallbacks) where
  abbrev IsSafe : Repairs → Type 0
  IsSafe s = All (IsRepairable does) s.repaired

  abbrev IsListed : Repairs → Type 0
  IsListed s = (s.changed_assets ≡ ids s.repaired) × IsSafe s

  -- What a repair ends with.
  abbrev pub Ends : Result (List String) × Run Repairs → Type 0
  Ends out =
      All (IsRepairable does) out.1.local.repaired
      × ((changed : List String) → out.0 ≡ ok changed → changed ≡ ids out.1.local.repaired)

  ends :
      (out : Result (List String) × Run Repairs)
      → Post (λ l s. (l ≡ ids s.repaired) × IsSafe s) (λ _. IsSafe) out
      → Ends out
  ends (ok l, r) h = (h.1, λ c e. sym (ok-injective e) ∙ h.0)
  ends (err x, r) h = (h, λ c e. absurd (cc e))

  repaired_one-Holds :
      (a : RepairAsset)
      → IsRepairable does a
      → Holds IsListed (repaired_one g does a) (λ _. IsListed) (λ _. IsSafe)
  repaired_one-Holds a ok_a =
      bind-Holds (λ _ s. (s.changed_assets ++ a.asset_id ∷ [] ≡ ids s.repaired) × IsSafe s)
        (call-Holds _ (does.repair a)
          (λ s p v d. (
            ap (λ l. l ++ a.asset_id ∷ []) p.0 ∙ sym (map-append _ s.repaired (a ∷ [])),
            All-append (IsRepairable does) s.repaired (a ∷ []) p.1 (ok_a, tt),
          ))
          (λ s p e d. All-append (IsRepairable does) s.repaired (a ∷ []) p.1 (ok_a, tt)))
        (λ _. assign-Holds _ (λ s p. p))

  repaired_all-Holds :
      (assets : List RepairAsset)
      → All (λ a. is_action a ≡ true) assets
      → Holds IsListed (repaired_all g does assets) (λ _. IsListed) (λ _. IsSafe)
  unfolding repaired_all
  repaired_all-Holds [] h = pure-Holds tt (λ s p. p)
  repaired_all-Holds (a ∷ rest) h =
      bind-Holds (λ _. IsListed) (unless-Holds g _ (λ s p. p) (λ s p. p.1))
        λ _.
          bind-Holds (λ current s. (does.observe a ≡ ok current) × IsListed s)
            (lift-Holds _ (λ s p v d. (d, p)) (λ s p e d. p.1))
            λ current. given-Holds λ o.
              bind-Holds (λ _. IsListed)
                (if-Holds (λ _. pure-Holds tt (λ s p. p))
                  (λ q. repaired_one-Holds a (action-IsRepairable does a current h.0 o q)))
                λ _. repaired_all-Holds rest h.1

  run_repair-Holds :
      (installation_id hash : String) (assets : List RepairAsset) (given : Option String)
      → Holds
          (λ s. s ≡ record { repaired = []; changed_assets = [] })
          (run_repair g does (plan_repair installation_id assets hash) given)
          (λ out s. (out ≡ ids s.repaired) × IsSafe s)
          (λ _. IsSafe)
  unfolding run_repair plan_repair
  run_repair-Holds installation_id hash assets given =
      bind-Holds (λ _. IsListed)
        (lift-Holds _ (λ s p v d. subst IsListed (sym p) (refl, tt))
          (λ s p e d. subst IsSafe (sym p) tt))
        λ _.
          bind-Holds (λ _. IsListed)
            (repaired_all-Holds (filter_by is_action assets) (filter-All is_action assets))
            λ _. record { run = λ r p. p }

  -- Whether it returns or throws, a repair of what is planned for any assets has called the repair only
  -- of assets that are no secret, were planned as missing, as outdated or as drifted with a proven
  -- owner, and were observed again as missing or outdated with the expected identity, or as drifted
  -- with a proven owner. If it returns, it lists what it repaired, in order.
  pub run_repair-IsSafe :
      (installation_id hash : String) (assets : List RepairAsset) (given : Option String)
      (r : Run Repairs)
      → r.local ≡ record { repaired = []; changed_assets = [] }
      → Ends (run_repair g does (plan_repair installation_id assets hash) given r)
  run_repair-IsSafe installation_id hash assets given r p =
      ends _ ((run_repair-Holds installation_id hash assets given).run r p)
