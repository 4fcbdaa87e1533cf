-- ===== src/Onboarding/Removal/Groups.antt =====
-- The groups of an uninstall have the assets to remove, each once.
use skillwire.Installation.Status.{Client}
use skillwire.Ownership.Record.{OwnedAsset, asset_ids}
use skillwire.Onboarding.Removal.Uninstall.{
  Group, group_uninstall_effects, joined, group_from, grouped_as, has_integration, is_ambiguous,
  integration_of,
}
use mathlib.Core.List.Perm
use mathlib.Core.List.{Perm, perm_middle, map-append}
use skillwire.Base.{
  ◌≡◌, refl, ap, sym, ◌∙◌, List, [], ◌∷◌, ◌++◌, Option, none, some, ok, err, String, Result,
  append_assoc, append-nil, Bool-cases, inl, inr, subst, ok-injective,
}

-- The ids of the groups' assets, in order.
abbrev pub group_ids : List Group → List String
group_ids [] = []
group_ids (group ∷ rest) = asset_ids group.assets ++ group_ids rest

group_ids-append : (gs hs : List Group) → group_ids (gs ++ hs) ≡ group_ids gs ++ group_ids hs
group_ids-append [] hs = refl
group_ids-append (g ∷ gs) hs =
    ap (λ l. asset_ids g.assets ++ l) (group_ids-append gs hs)
    ∙ sym (append_assoc (asset_ids g.assets) (group_ids gs) (group_ids hs))

-- An id in the middle goes to the front.
pushed :
    (xs : List String) (id : String) (ys : List String)
    → Perm ((xs ++ id ∷ []) ++ ys) (id ∷ (xs ++ ys))
pushed xs id ys =
    subst (λ l. Perm l (id ∷ (xs ++ ys))) (sym (append_assoc xs (id ∷ []) ys)) (perm_middle xs ys)

later-Perm :
    (group : Group) (id : String) (groups : List Group) (rest : Result (List Group))
    (out : List Group)
    → (elim rest [ ok gs ↦ ok (group ∷ gs) | err e ↦ err e ]) ≡ ok out
    → ((gs : List Group) → rest ≡ ok gs → Perm (group_ids gs) (id ∷ group_ids groups))
    → Perm (group_ids out) (id ∷ (asset_ids group.assets ++ group_ids groups))
later-Perm group id groups (ok gs) out h ih =
    subst (λ o. Perm (group_ids o) (id ∷ (asset_ids group.assets ++ group_ids groups)))
      (ok-injective h)
      (Perm.trans (Perm.append_left (asset_ids group.assets) (ih gs refl))
        (perm_middle (asset_ids group.assets) (group_ids groups)))
later-Perm group id groups (err e) out h ih = absurd (cc h)

joined-Perm :
    (a : OwnedAsset) (c : Client) (groups out : List Group)
    → joined a c groups ≡ ok out
    → Perm (group_ids out) (a.asset_id ∷ group_ids groups)
unfolding joined
joined-Perm a c [] out h =
    subst (λ o. Perm (group_ids o) (a.asset_id ∷ [])) (ok-injective h) (Perm.refl (a.asset_id ∷ []))
joined-Perm a c (group ∷ groups) out h = elim (Bool-cases (has_integration c group)) [
  | inl q ↦ elim (Bool-cases (is_ambiguous a group.assets)) [
    | inl s ↦ absurd (cc (rw (q, s) at h))
    | inr s ↦
        let e : ok (record group { assets = group.assets ++ a ∷ [] } ∷ groups) ≡ ok out =
          rw (q, s) at h in
        subst (λ o. Perm (group_ids o) (a.asset_id ∷ (asset_ids group.assets ++ group_ids groups)))
          (ok-injective e)
          (subst
            (λ l.
              Perm (l ++ group_ids groups)
                (a.asset_id ∷ (asset_ids group.assets ++ group_ids groups)))
            (sym (map-append _ group.assets (a ∷ [])))
            (pushed (asset_ids group.assets) a.asset_id (group_ids groups)))
  ]
  | inr q ↦
      later-Perm group a.asset_id groups (joined a c groups) out (rw q at h)
        (λ gs e. joined-Perm a c groups gs e)
]

grouped_as-Perm :
    (a : OwnedAsset) (c : Option Client) (groups out : List Group)
    → grouped_as a c groups ≡ ok out
    → Perm (group_ids out) (a.asset_id ∷ group_ids groups)
grouped_as-Perm a (some c) groups out h = joined-Perm a c groups out h
grouped_as-Perm a none groups out h =
    subst (λ o. Perm (group_ids o) (a.asset_id ∷ group_ids groups)) (ok-injective h)
      (subst (λ l. Perm l (a.asset_id ∷ group_ids groups)) (sym (group_ids-append groups _))
        (subst (λ l. Perm (group_ids groups ++ a.asset_id ∷ []) (a.asset_id ∷ l))
          (append-nil (group_ids groups)) (perm_middle (group_ids groups) [])))

group_from-step :
    (r : Result (List Group)) (rest : List OwnedAsset) (out : List Group)
    → (elim r [ ok next ↦ group_from next rest | err e ↦ err e ]) ≡ ok out
    → (next : List Group) × (r ≡ ok next) × (group_from next rest ≡ ok out)
group_from-step (ok next) rest out h = (next, refl, h)
group_from-step (err e) rest out h = absurd (cc h)

group_from-Perm :
    (groups : List Group) (assets : List OwnedAsset) (out : List Group)
    → group_from groups assets ≡ ok out
    → Perm (group_ids out) (group_ids groups ++ asset_ids assets)
unfolding group_from
group_from-Perm groups [] out h =
    subst (λ o. Perm (group_ids o) (group_ids groups ++ [])) (ok-injective h)
      (subst (Perm (group_ids groups)) (sym (append-nil (group_ids groups)))
        (Perm.refl (group_ids groups)))
group_from-Perm groups (a ∷ rest) out h =
    let (next, q, k) =
      group_from-step (grouped_as a (integration_of a a.client) groups) rest out h in
    Perm.trans (group_from-Perm next rest out k) (
      Perm.trans
        (Perm.append_right (asset_ids rest)
          (grouped_as-Perm a (integration_of a a.client) groups next q))
        (Perm.symm (perm_middle (group_ids groups) (asset_ids rest))))

-- The groups have the assets to remove, each as often.
pub group_uninstall_effects-Perm :
    (assets : List OwnedAsset) (groups : List Group)
    → group_uninstall_effects assets ≡ ok groups
    → Perm (group_ids groups) (asset_ids assets)
unfolding group_uninstall_effects
group_uninstall_effects-Perm assets groups h = group_from-Perm [] assets groups h
