-- ===== src/Ownership/Removable.antt =====
-- What an operation of a removal may remove, and that the filter of a plan is the same.
use skillwire.Installation.Status.{Client, codex, claude}
use skillwire.Base.{◌≡◌, true, arith, refl, Option, ap, ◌∙◌, ◌↔◌, ◌⊎◌, some, ◌≢◌, none}
use skillwire.Ownership.Record.{
  OwnedAsset, AssetDisposition, AssetKind, container, is_present, is_retained, same_kind,
  compose_project,
}
use skillwire.Ownership.Ledger.{
  RemovalOperation, is_planned_removal, has_client, is_uninstalled_kind,
}

-- The kinds of assets that an uninstall leaves.
abbrev pub IsLasting : AssetKind → Type 0
IsLasting AssetKind.mcp_entry = ⊥
IsLasting AssetKind.plugin = ⊥
IsLasting AssetKind.marketplace = ⊥
IsLasting container = ⊥
IsLasting compose_project = ⊥
IsLasting _ = Unit {0}

-- What an operation may remove. A purge: what is present or retained. A client's uninstall: what is
-- present of the client, and its retained credentials. An uninstall: what is present and not lasting.
abbrev pub IsRemovable : RemovalOperation → Option Client → OwnedAsset → Type 0
IsRemovable RemovalOperation.purge client a =
    (a.disposition ≡ AssetDisposition.present) ⊎ (a.disposition ≡ AssetDisposition.retained)
IsRemovable RemovalOperation.client_uninstall client a =
    (client ≢ none)
    × (a.client ≡ client)
    × ((a.disposition ≡ AssetDisposition.present)
        ⊎ ((a.kind ≡ AssetKind.credential) × (a.disposition ≡ AssetDisposition.retained)))
IsRemovable RemovalOperation.uninstall client a =
    (a.disposition ≡ AssetDisposition.present) × (IsLasting a.kind → ⊥)

is_present_iff : (d : AssetDisposition) → (is_present d ≡ true) ↔ (d ≡ AssetDisposition.present)
is_present_iff d = (to d, λ h. ap is_present h)
  where
    to : (d : AssetDisposition) → is_present d ≡ true → d ≡ AssetDisposition.present
    to AssetDisposition.present h = refl
    to AssetDisposition.removed h = absurd (cc h)
    to AssetDisposition.retained h = absurd (cc h)
    to AssetDisposition.drifted h = absurd (cc h)
    to AssetDisposition.ambiguous h = absurd (cc h)

is_retained_iff : (d : AssetDisposition) → (is_retained d ≡ true) ↔ (d ≡ AssetDisposition.retained)
is_retained_iff d = (to d, λ h. ap is_retained h)
  where
    to : (d : AssetDisposition) → is_retained d ≡ true → d ≡ AssetDisposition.retained
    to AssetDisposition.present h = absurd (cc h)
    to AssetDisposition.removed h = absurd (cc h)
    to AssetDisposition.retained h = refl
    to AssetDisposition.drifted h = absurd (cc h)
    to AssetDisposition.ambiguous h = absurd (cc h)

is_credential_iff :
    (k : AssetKind) → (same_kind k AssetKind.credential ≡ true) ↔ (k ≡ AssetKind.credential)
is_credential_iff k = (to k, λ h. ap (λ l. same_kind l AssetKind.credential) h)
  where
    to : (k : AssetKind) → same_kind k AssetKind.credential ≡ true → k ≡ AssetKind.credential
    to AssetKind.credential h = refl
    to AssetKind.path h = absurd (cc h)
    to AssetKind.release h = absurd (cc h)
    to AssetKind.trust_policy h = absurd (cc h)
    to AssetKind.service_secret h = absurd (cc h)
    to AssetKind.compose_project h = absurd (cc h)
    to AssetKind.container h = absurd (cc h)
    to AssetKind.volume h = absurd (cc h)
    to AssetKind.mcp_entry h = absurd (cc h)
    to AssetKind.plugin h = absurd (cc h)
    to AssetKind.marketplace h = absurd (cc h)
    to AssetKind.backup h = absurd (cc h)
    to AssetKind.source_registration h = absurd (cc h)

is_uninstalled_iff : (k : AssetKind) → (is_uninstalled_kind k ≡ true) ↔ (IsLasting k → ⊥)
is_uninstalled_iff AssetKind.mcp_entry = (λ h l. l, λ h. refl)
is_uninstalled_iff AssetKind.plugin = (λ h l. l, λ h. refl)
is_uninstalled_iff AssetKind.marketplace = (λ h l. l, λ h. refl)
is_uninstalled_iff container = (λ h l. l, λ h. refl)
is_uninstalled_iff compose_project = (λ h l. l, λ h. refl)
is_uninstalled_iff AssetKind.credential = (λ h. absurd (cc h), λ h. absurd (h tt))
is_uninstalled_iff AssetKind.path = (λ h. absurd (cc h), λ h. absurd (h tt))
is_uninstalled_iff AssetKind.release = (λ h. absurd (cc h), λ h. absurd (h tt))
is_uninstalled_iff AssetKind.trust_policy = (λ h. absurd (cc h), λ h. absurd (h tt))
is_uninstalled_iff AssetKind.service_secret = (λ h. absurd (cc h), λ h. absurd (h tt))
is_uninstalled_iff AssetKind.volume = (λ h. absurd (cc h), λ h. absurd (h tt))
is_uninstalled_iff AssetKind.backup = (λ h. absurd (cc h), λ h. absurd (h tt))
is_uninstalled_iff AssetKind.source_registration = (λ h. absurd (cc h), λ h. absurd (h tt))

has_client-some :
    (client : Option Client) (c : Client) → has_client client c ≡ true → client ≡ some c
has_client-some none c h = absurd (cc h)
has_client-some (some codex) codex h = refl
has_client-some (some claude) claude h = refl
has_client-some (some codex) claude h = absurd (cc h)
has_client-some (some claude) codex h = absurd (cc h)

has_client-same : (c : Client) → has_client (some c) c ≡ true
has_client-same codex = refl
has_client-same claude = refl

has_client_iff :
    (client : Option Client) (c : Client) → (has_client client c ≡ true) ↔ (client ≡ some c)
has_client_iff client c =
    (has_client-some client c, λ h. ap (λ x. has_client x c) h ∙ has_client-same c)

pub is_planned_removal_iff :
    (operation : RemovalOperation) (client : Option Client) (a : OwnedAsset)
    → (is_planned_removal operation client a ≡ true) ↔ IsRemovable operation client a
unfolding is_planned_removal
is_planned_removal_iff RemovalOperation.purge client a =
    let (p, p') = is_present_iff a.disposition in
    let (q, q') = is_retained_iff a.disposition in grind (arith, p, p', q, q')
is_planned_removal_iff RemovalOperation.client_uninstall none a =
    (λ h. absurd (cc h), λ h. absurd (h.0 refl))
is_planned_removal_iff RemovalOperation.client_uninstall (some c) a =
    let (p, p') = is_present_iff a.disposition in
    let (q, q') = is_retained_iff a.disposition in
    let (r, r') = is_credential_iff a.kind in
    let (s, s') = has_client_iff a.client c in grind (arith, p, p', q, q', r, r', s, s')
is_planned_removal_iff RemovalOperation.uninstall client a =
    let (p, p') = is_present_iff a.disposition in
    let (q, q') = is_uninstalled_iff a.kind in grind (arith, p, p', q, q')
