-- ===== src/Canonical.antt =====
-- The canonical JSON text that hashes are taken of: `canonicalJson` of
-- src/onboarding/domain/ownership.ts, which sorts keys by `localeCompare`, and `canonicalize` of
-- src/domain/catalog/canonical-revision.ts, which sorts them by code units and refuses unsafe numbers.
--
-- The platform's part is a parameter: the quoting of texts, the text of a number, the two
-- orders of keys, and SHA-256 in hexadecimal digits.
use Prim.Native.String
use skillwire.Base.{
  ◌>>◌, ℕ, Bool, true, false, List, [], ◌∷◌, String, if◌then◌else◌, map, Result, leb, throw_if,
  ◌&&◌, not, error, ok,
}

pub record Platform : Type 0 where
  pub quote : String → String
  pub number_text : ℕ → String
  pub locale_less : String → String → Bool
  pub code_unit_less : String → String → Bool
  pub sha256 : String → String

mutual
  pub data Json : Type 0 where
    null : Json
    boolean : Bool → Json
    number : ℕ → Json
    text : String → Json
    array : Items → Json
    object : Fields → Json

  pub data Items : Type 0 where
    nil : Items
    cons : Json → Items → Items

  pub data Fields : Type 0 where
    end : Fields
    field : String → Json → Fields → Fields

infixr 65 ◌<>◌
abbrev pub ◌<>◌ : String → String → String
s <> t = String.◌++◌ s t

-- `texts.join(separator)`
abbrev pub join : String → List String → String
join separator [] = ""
join separator (s ∷ []) = s
join separator (s ∷ t ∷ rest) = s <> separator <> join separator (t ∷ rest)

module _ (p : Platform) (less : String → String → Bool) where
  -- The stable `sort` by key. An entry of `left` that is first goes before those not less than it.
  unfoldable pub insert_by_key : String × String → List (String × String) → List (String × String)
  insert_by_key (k, v) [] = (k, v) ∷ []
  insert_by_key (k, v) ((j, w) ∷ rest) =
      let more = insert_by_key (k, v) rest in
      if less j k then (j, w) ∷ more else (k, v) ∷ (j, w) ∷ rest

  unfoldable pub sort_by_key : List (String × String) → List (String × String)
  unfolding insert_by_key
  sort_by_key [] = []
  sort_by_key (e ∷ es) = insert_by_key e (sort_by_key es)

  abbrev pub entry_text : String × String → String
  entry_text (key, value) = p.quote key <> ":" <> value

  abbrev boolean_text : Bool → String
  boolean_text true = "true"
  boolean_text false = "false"

  unfoldable mutual
    unfolding sort_by_key

    pub canonical_json : Json → String
    canonical_json null = "null"
    canonical_json (boolean b) = boolean_text b
    canonical_json (number n) = p.number_text n
    canonical_json (text s) = p.quote s
    canonical_json (array xs) = "[" <> join "," (canonical_items xs) <> "]"
    canonical_json (object fs) =
        "{" <> join "," (map entry_text (sort_by_key (canonical_fields fs))) <> "}"

    pub canonical_items : Items → List String
    canonical_items nil = []
    canonical_items (cons x xs) = canonical_json x ∷ canonical_items xs

    -- The entries, each with the text of its value. The sort looks at the keys only.
    pub canonical_fields : Fields → List (String × String)
    canonical_fields end = []
    canonical_fields (field k v fs) = (k, canonical_json v) ∷ canonical_fields fs

unfoldable mutual
  pub has_safe_numbers : Json → Bool
  has_safe_numbers null = true
  has_safe_numbers (boolean b) = true
  has_safe_numbers (number n) = leb n 9007199254740991
  has_safe_numbers (text s) = true
  has_safe_numbers (array xs) = has_safe_items xs
  has_safe_numbers (object fs) = has_safe_fields fs

  pub has_safe_items : Items → Bool
  has_safe_items nil = true
  has_safe_items (cons x xs) = has_safe_numbers x && has_safe_items xs

  pub has_safe_fields : Fields → Bool
  has_safe_fields end = true
  has_safe_fields (field k v fs) = has_safe_numbers v && has_safe_fields fs

-- `canonicalize` of src/domain/catalog/canonical-revision.ts
unfoldable pub canonicalize : Platform → Json → Result String
unfolding has_safe_numbers canonical_json
canonicalize p v = do
  throw_if (not (has_safe_numbers v)) (error "Canonical numbers must be safe integers")
  ok (canonical_json p p.code_unit_less v)
