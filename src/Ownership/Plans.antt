-- ===== src/Ownership/Plans.antt =====
-- What a plan of `planOwnedAssetDispositions` removes and what it retains.
use skillwire.Ownership.Removable.{IsRemovable, is_planned_removal_iff}
use skillwire.Installation.Status.{Client}
use mathlib.Core.List.{Perm, perm_middle}
use mathlib.Core.List.Perm
use skillwire.Base.{
  Bool, List, String, ◌++◌, All, includes, not, ◌≡◌, ◌∷◌, false, true, arith, Bool-cases,
  if◌then◌else◌, ===_iff, [], inl, inr, refl, ok, Option, ap, >>=-eq-ok, throw_if, sym, ◌∙◌, subst,
  filter_by, filter-All, All-map,
}
use skillwire.Ownership.Record.{OwnedAsset, asset_ids, ownership_record_schema, OwnershipRecord}
use skillwire.Ownership.Ledger.{
  plan_owned_asset_dispositions, verify_ownership_record, Formats, RemovalOperation,
  DispositionPlan, is_planned_removal, lacks_client,
}
use skillwire.Ownership.Distinct.{IsDistinct, has_duplicates-IsDistinct}

module _ (p : OwnedAsset → Bool) where
  includes-filter :
      (xs : List OwnedAsset) (id : String)
      → includes (asset_ids xs) id ≡ false
      → includes (asset_ids (filter_by p xs)) id ≡ false
  includes-filter [] id h = refl
  includes-filter (x ∷ xs) id h = ground (arith, includes-filter xs id)

  -- Among assets of distinct ids, the ids of those chosen name the chosen.
  pub chosen_ids :
      (xs : List OwnedAsset)
      → IsDistinct (asset_ids xs)
      → All (λ a. includes (asset_ids (filter_by p xs)) a.asset_id ≡ p a) xs
  chosen_ids [] h = tt
  chosen_ids (x ∷ xs) h = (
    ground (arith, includes-filter xs x.asset_id h.0, ===_iff x.asset_id x.asset_id),
    later xs (filter_by p xs) h.0 (chosen_ids xs h.1),
  )
    where
      later :
          (ys chosen : List OwnedAsset)
          → includes (asset_ids ys) x.asset_id ≡ false
          → All (λ a. includes (asset_ids chosen) a.asset_id ≡ p a) ys
          → All (λ a. includes (asset_ids (if p x then x ∷ chosen else chosen)) a.asset_id ≡ p a) ys
      later [] chosen g k = tt
      later (y ∷ ys) chosen g k = (
        ground (arith, ===_iff x.asset_id y.asset_id, ===_iff y.asset_id x.asset_id),
        later ys chosen (ground arith) k.1,
      )

filter-cong :
    (p q : OwnedAsset → Bool) (xs : List OwnedAsset)
    → All (λ a. p a ≡ q a) xs
    → filter_by p xs ≡ filter_by q xs
filter-cong p q [] h = refl
filter-cong p q (x ∷ xs) h = ground (arith, filter-cong p q xs h.1)

module _ (p : OwnedAsset → Bool) where
  filter-perm : (xs : List OwnedAsset) → Perm (filter_by p xs ++ filter_by (λ a. not (p a)) xs) xs
  filter-perm [] = Perm.refl []
  filter-perm (x ∷ xs) = elim (Bool-cases (p x)) [
    | inl q ↦ rw q (Perm.cons x (filter-perm xs))
    | inr q ↦ rw q (
        Perm.trans (perm_middle (filter_by p xs) (filter_by (λ a. not (p a)) xs))
          (Perm.cons x (filter-perm xs)))
  ]

pub verify-eq-ok :
    (f : Formats) (candidate r : OwnershipRecord)
    → verify_ownership_record f candidate ≡ ok r
    → (r ≡ candidate) × (ownership_record_schema f.is_uuid candidate ≡ true)
unfolding verify_ownership_record
verify-eq-ok f candidate r h = ground arith

pub schema-IsDistinct :
    (is_uuid : String → Bool) (r : OwnershipRecord)
    → ownership_record_schema is_uuid r ≡ true
    → IsDistinct (asset_ids r.assets)
unfolding ownership_record_schema
schema-IsDistinct is_uuid r h = has_duplicates-IsDistinct (asset_ids r.assets) (ground arith)

-- The assets split by what the operation may remove.
abbrev pub IsPartition :
    RemovalOperation → Option Client → List OwnedAsset → DispositionPlan → Type 0
IsPartition operation client assets plan =
    Perm (plan.remove ++ plan.retain) assets
    × All (IsRemovable operation client) plan.remove
    × All (λ a. IsRemovable operation client a → ⊥) plan.retain

abbrev planned : RemovalOperation → Option Client → OwnershipRecord → DispositionPlan
planned operation client r = record {
  remove = filter_by (is_planned_removal operation client) r.assets;
  retain =
      filter_by
        (λ a. not (
          includes (asset_ids (filter_by (is_planned_removal operation client) r.assets))
            a.asset_id))
        r.assets;
}

not-All :
    (p q : OwnedAsset → Bool) (xs : List OwnedAsset)
    → All (λ a. p a ≡ q a) xs
    → All (λ a. not (p a) ≡ not (q a)) xs
not-All p q [] h = tt
not-All p q (x ∷ xs) h = (ap not h.0, not-All p q xs h.1)

not_both : (b : Bool) → not b ≡ true → b ≡ true → ⊥
not_both true h k = cc h
not_both false h k = cc k

planned-IsPartition :
    (operation : RemovalOperation) (client : Option Client) (assets : List OwnedAsset)
    → IsDistinct (asset_ids assets)
    → (r : OwnershipRecord) → r.assets ≡ assets
    → IsPartition operation client assets (planned operation client r)
planned-IsPartition operation client assets d r e =
    let p = is_planned_removal operation client in
    let kept =
      filter-cong (λ a. not (includes (asset_ids (filter_by p assets)) a.asset_id)) (λ a. not (p a))
        assets
        (not-All (λ a. includes (asset_ids (filter_by p assets)) a.asset_id) p assets
          (chosen_ids p assets d)) in
    rw (e, kept)
      (
        filter-perm p assets,
        All-map (λ a. p a ≡ true) (IsRemovable operation client)
            (λ a h. (is_planned_removal_iff operation client a).0 h) (filter_by p assets)
            (filter-All p assets),
        All-map (λ a. not (p a) ≡ true) (λ a. IsRemovable operation client a → ⊥)
            (λ a h k. not_both (p a) h ((is_planned_removal_iff operation client a).1 k))
            (filter_by (λ a. not (p a)) assets) (filter-All (λ a. not (p a)) assets),
      )

-- A plan that is returned partitions the record's assets: what it removes and what it retains are
-- together the assets, each as often. All that it removes the operation may remove: for a purge, what
-- is present or retained; for a client's uninstall, what is present of that client and its retained
-- credentials; for an uninstall, what is present and is an MCP entry, a plugin, a marketplace, a
-- container or a compose project. Nothing that it retains the operation may remove.
pub plan-IsPartition :
    (f : Formats) (candidate : OwnershipRecord) (operation : RemovalOperation)
    (client : Option Client) (plan : DispositionPlan)
    → plan_owned_asset_dispositions f candidate operation client ≡ ok plan
    → IsPartition operation client candidate.assets plan
unfolding plan_owned_asset_dispositions
plan-IsPartition f candidate operation client plan h =
    let (r, e1, e2) = >>=-eq-ok (verify_ownership_record f candidate) _ h in
    let (same, conforms) = verify-eq-ok f candidate r e1 in
    let (_, _, e3) = >>=-eq-ok (throw_if (lacks_client operation client) _) _ e2 in
    let chosen : planned operation client candidate ≡ plan =
      ap (planned operation client) (sym same) ∙ cc e3 in
    subst (IsPartition operation client candidate.assets) chosen (
      planned-IsPartition operation client candidate.assets
        (schema-IsDistinct f.is_uuid candidate conforms) candidate refl)

-- What a plan removes, of assets with distinct ids.
pub plan-chosen :
    (f : Formats) (candidate : OwnershipRecord) (operation : RemovalOperation)
    (client : Option Client) (plan : DispositionPlan)
    → plan_owned_asset_dispositions f candidate operation client ≡ ok plan
    → (plan.remove ≡ filter_by (is_planned_removal operation client) candidate.assets)
      × IsDistinct (asset_ids candidate.assets)
unfolding plan_owned_asset_dispositions
plan-chosen f candidate operation client plan h =
    let (r, e1, e2) = >>=-eq-ok (verify_ownership_record f candidate) _ h in
    let (same, conforms) = verify-eq-ok f candidate r e1 in
    let (_, _, e3) = >>=-eq-ok (throw_if (lacks_client operation client) _) _ e2 in
    let chosen : planned operation client candidate ≡ plan =
      ap (planned operation client) (sym same) ∙ cc e3 in
    (sym (ap (λ x. x.remove) chosen), schema-IsDistinct f.is_uuid candidate conforms)
