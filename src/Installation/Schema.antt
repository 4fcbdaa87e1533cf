-- ===== src/Installation/Schema.antt =====
-- src/onboarding/domain/installation.ts: the refinements of `InstallationSchema`.
use mathlib.Core.List.{reverse}
use skillwire.Base.{
  ℕ, Bool, true, false, List, [], ◌∷◌, ◌==◌, ◌&&◌, leb, not, String, Option, any, ltb, some, ◌||◌,
  length, utf16_length, none, all, codes, ◌===◌,
}
use skillwire.Installation.Status.{
  Client, codex, claude, same_client, Installation, ClientIntegrationIds,
}

-- What `new URL(value)` reads.
pub record Url : Type 0 where
  pub protocol : String
  pub hostname : String
  pub pathname : String
  pub search : String
  pub hash : String
  pub username : String
  pub password : String
  pub port : String

-- The schema library's formats and the platform's URL parser, which throws by `none`.
pub record Formats : Type 0 where
  pub is_uuid : String → Bool
  pub is_datetime : String → Bool
  pub parse_url : String → Option Url

-- `texts.startsWith(prefix)` on code points
abbrev pub starts_with : List ℕ → List ℕ → Bool
starts_with text [] = true
starts_with [] (p ∷ ps) = false
starts_with (c ∷ cs) (p ∷ ps) = c == p && starts_with cs ps

-- `text.endsWith(suffix)` on code points
abbrev pub ends_with : List ℕ → List ℕ → Bool
ends_with text suffix = starts_with (reverse text) (reverse suffix)

abbrev is_local : Option Url → Bool
is_local none = false
is_local (some u) =
    u.protocol === "unix:"
    && u.hostname === ""
    && starts_with (codes u.pathname) (codes "/")
    && ends_with (codes u.pathname) (codes "/mcp.sock")
    && u.search === ""
    && u.hash === ""
    && u.username === ""
    && u.password === ""
    && u.port === ""

unfoldable pub local_endpoint : Formats → String → Bool
local_endpoint f value = is_local (f.parse_url value)

is_lower_or_digit : ℕ → Bool
is_lower_or_digit c = (leb b'a' c && leb c b'z') || (leb b'0' c && leb c b'9')

abbrev tail_at_most : ℕ → (ℕ → Bool) → List ℕ → Bool
tail_at_most n p [] = false
tail_at_most n p (c ∷ cs) = is_lower_or_digit c && leb (length cs) n && all p cs

-- `/^[a-z0-9][a-z0-9_-]{0,62}$/`
unfoldable pub is_compose_project : String → Bool
unfolding is_lower_or_digit
is_compose_project s =
    tail_at_most 62 (λ c. is_lower_or_digit c || c == b'_' || c == b'-') (codes s)

-- `/^[a-z0-9][a-z0-9_.-]{0,127}$/`
unfoldable pub is_postgres_volume : String → Bool
unfolding is_lower_or_digit
is_postgres_volume s =
    tail_at_most 127 (λ c. is_lower_or_digit c || c == b'_' || c == b'.' || c == b'-') (codes s)

abbrev pub includes_client : List Client → Client → Bool
includes_client clients c = any (λ d. same_client d c) clients

abbrev pub has_no_duplicate : List Client → Bool
has_no_duplicate [] = true
has_no_duplicate (c ∷ cs) = not (includes_client cs c) && has_no_duplicate cs

abbrev pub integration_id : ClientIntegrationIds → Client → Option String
integration_id ids codex = ids.codex_id
integration_id ids claude = ids.claude_id

abbrev pub is_none {ℓ} : {A : Type ℓ} → Option A → Bool
is_none none = true
is_none (some a) = false

abbrev pub optionally : (String → Bool) → Option String → Bool
optionally p none = true
optionally p (some s) = p s

abbrev text_within : ℕ → ℕ → String → Bool
text_within lo hi s = leb lo (utf16_length s) && leb (utf16_length s) hi

-- `InstallationSchema`, its refinements included.
unfoldable pub installation_schema : Formats → Installation → Bool
installation_schema f i =
    f.is_uuid i.installation_id
    && f.is_uuid i.account_id
    && text_within 1 128 i.active_release_id
    && ltb 0 i.highest_accepted_release_sequence
    && ltb 0 i.active_trust_policy_sequence
    && (leb (utf16_length i.endpoint) 1024 && local_endpoint f i.endpoint)
    && is_compose_project i.compose_project
    && is_postgres_volume i.postgres_volume
    && leb (length i.selected_clients) 2
    && (optionally f.is_uuid i.client_integration_ids.codex_id
        && optionally f.is_uuid i.client_integration_ids.claude_id)
    && f.is_datetime i.created_at
    && f.is_datetime i.updated_at
    && optionally f.is_datetime i.last_validated_at
    && has_no_duplicate i.selected_clients
    && all
        (λ c.
          includes_client i.selected_clients c
          || is_none (integration_id i.client_integration_ids c))
        (codex ∷ claude ∷ [])
