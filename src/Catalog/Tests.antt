-- ===== src/Catalog/Tests.antt =====
-- A small platform, a revision of two resources on it, and the theorems at that input.
use skillwire.Base.Dict.{insert, get, put, discard}
use skillwire.Catalog.Path.{assert_safe_resource_path, is_unsafe_path}
use Prim.Native.Nat.{Ordering, compare}
use Prim.Native.Char.{char, IsLt, IsScalar}
use Prim.Native.String.{String}
use skillwire.Base.{
  ℕ, Bool, false, List, [], ◌∷◌, Option, none, some, ◌≡◌, refl, ap, codes, length, ltb, Result, ok,
  All, arith, ◌∙◌, err, utf16_length, sort_by,
}
use skillwire.Canonical.{canonicalize}
use skillwire.Catalog.Text.{Encoding, drop_mark, starts_with_mark, normalize_utf8}
use skillwire.Catalog.TextLaws.{IsUnicode}
use skillwire.Catalog.Revision.{
  Services, RevisionInput, SkillRevision, Trust, MediaType, create_skill_revision,
  assert_revision_integrity, verified_resource,
}
use skillwire.Catalog.Created.{IsComparison, IsUnmarked}
use skillwire.Catalog.Again.{create_skill_revision-assert_revision_integrity}
use skillwire.Catalog.Bounds.{IsBounded, create_skill_revision-IsBounded}
use skillwire.Catalog.Cache.{RevisionCache, new_cache, admit, admit_all, lookup, cache_key}
use skillwire.Catalog.CacheLaws.{lookup-latest, latest}

abbrev Both : Ordering → Ordering → Type 0
Both Ordering.lt o = IsLt o
Both Ordering.eq _ = ⊥
Both Ordering.gt _ = ⊥

abbrev BelowOrBoth : Ordering → Ordering → Ordering → Type 0
BelowOrBoth Ordering.lt _ _ = Unit
BelowOrBoth Ordering.eq o p = Both o p
BelowOrBoth Ordering.gt o p = Both o p

abbrev lower : (o : Ordering) → Option (IsLt o)
lower Ordering.lt = some tt
lower Ordering.eq = none
lower Ordering.gt = none

abbrev lower_both : (o p : Ordering) → Option (Both o p)
lower_both Ordering.lt p = lower p
lower_both Ordering.eq p = none
lower_both Ordering.gt p = none

abbrev scalar : (o p q : Ordering) → Option (BelowOrBoth o p q)
scalar Ordering.lt p q = some tt
scalar Ordering.eq p q = lower_both p q
scalar Ordering.gt p q = lower_both p q

lower-some : (o : Ordering) (p : IsLt o) → lower o ≡ some p
lower-some Ordering.lt p = refl
lower-some Ordering.eq p = elim p [ ]
lower-some Ordering.gt p = elim p [ ]

lower_both-some : (o p : Ordering) (w : Both o p) → lower_both o p ≡ some w
lower_both-some Ordering.lt p w = lower-some p w
lower_both-some Ordering.eq p w = elim w [ ]
lower_both-some Ordering.gt p w = elim w [ ]

scalar-some : (o p q : Ordering) (w : BelowOrBoth o p q) → scalar o p q ≡ some w
scalar-some Ordering.lt p q w = refl
scalar-some Ordering.eq p q w = lower_both-some p q w
scalar-some Ordering.gt p q w = lower_both-some p q w

abbrev scalar_of : (n : ℕ) → Option (IsScalar n)
scalar_of n = scalar (compare n 55296) (compare 57343 n) (compare n 1114112)

abbrev with_char : (n : ℕ) → Option (IsScalar n) → String → String
with_char n none rest = rest
with_char n (some p) rest = String.◌∷◌ (char n p) rest

abbrev text_of : List ℕ → String
text_of [] = String.[]
text_of (n ∷ ns) = with_char n (scalar_of n) (text_of ns)

text_of-codes : (s : String) → text_of (codes s) ≡ s
text_of-codes String.[] = refl
text_of-codes (String.◌∷◌ (char n p) s) =
    ap (λ o. with_char n o (text_of (codes s)))
      (scalar-some (compare n 55296) (compare 57343 n) (compare n 1114112) p)
    ∙ ap (λ t. String.◌∷◌ (char n p) t) (text_of-codes s)

-- One number for each character.
abbrev pub wide : Encoding
wide = record { encode = codes; decode = λ bytes. some (drop_mark (text_of bytes)); nfc = λ s. s }

wide-IsUnicode : IsUnicode wide
wide-IsUnicode = record {
  decode-encode = λ s. ap (λ t. some (drop_mark t)) (text_of-codes s);
  nfc-nfc = λ s. refl;
  no_return = λ s h. h;
  no_null = λ s h. h;
}

abbrev pub a_hash : String
a_hash = "aaaaaaaaaaaaaaaaaaaaaaaaaaaaaaaaaaaaaaaaaaaaaaaaaaaaaaaaaaaaaaaa"

abbrev shorter : String → String → Bool
shorter a b = ltb (length (codes a)) (length (codes b))

shorter-IsComparison : IsComparison shorter
shorter-IsComparison = record {
  asymmetric = λ a b h. ground (arith, h);
  transitive = λ a b c h k. ground (arith, h, k);
}

abbrev pub services : Services
services = record {
  platform = record {
    quote = λ s. s;
    number_text = λ n. "0";
    locale_less = shorter;
    code_unit_less = shorter;
    sha256 = λ s. a_hash;
  };
  encoding = wide;
  locale_less = shorter;
}

abbrev input : RevisionInput
input = record {
  skill_id = "lint";
  revision = "v1";
  published_provenance = record {
    provider = "skillwire";
    reference = "lint";
    source_revision = "v1";
    owner = "skillwire";
    license = "MIT";
    trust_at_publication = Trust.trusted;
  };
  instructions = "Run lint.\r\n";
  resources =
      record { path = "docs/guide.md"; media_type = MediaType.markdown; content = "Guide\r" }
      ∷ record { path = "NOTE"; media_type = MediaType.plain; content = "Note" }
      ∷ [];
}

abbrev bare : SkillRevision
bare = record {
  skill_id = "lint";
  revision = "v1";
  published_provenance = input.published_provenance;
  instructions = "";
  instructions_sha256 = a_hash;
  resource_manifest = [];
  resources = [];
  bundle_sha256 = a_hash;
  catalog_origin = none;
  current_classification = none;
  invocation_mode = none;
  dependencies = none;
}

abbrev revision_or : Result SkillRevision → SkillRevision
revision_or (ok r) = r
revision_or (err e) = bare

pub made : SkillRevision
unfolding create_skill_revision
made = revision_or (create_skill_revision services input)

made-eq : create_skill_revision services input ≡ ok made
unfolding create_skill_revision made normalize_utf8 verified_resource assert_safe_resource_path
    is_unsafe_path utf16_length sort_by insert canonicalize
made-eq = refl

made-unmarked : starts_with_mark made.instructions ≡ false
unfolding made normalize_utf8 verified_resource assert_safe_resource_path is_unsafe_path
    utf16_length sort_by insert canonicalize
made-unmarked = refl

made-IsUnmarked : All IsUnmarked made.resources
unfolding made normalize_utf8 verified_resource assert_safe_resource_path is_unsafe_path
    utf16_length sort_by insert canonicalize
made-IsUnmarked = (refl, (refl, tt))

create_skill_revision-assert_revision_integrity_example :
    assert_revision_integrity services made ≡ ok made
create_skill_revision-assert_revision_integrity_example =
    create_skill_revision-assert_revision_integrity services wide-IsUnicode shorter-IsComparison
      input made made-eq made-unmarked made-IsUnmarked

create_skill_revision-IsBounded_example : IsBounded services made
create_skill_revision-IsBounded_example =
    create_skill_revision-IsBounded services input made made-eq

-- Two admissions to a cache of one entry.
abbrev empty : RevisionCache
empty = record { maximum_entries = 1; entries = [] }

abbrev cache_or : Result RevisionCache → RevisionCache
cache_or (ok c) = c
cache_or (err e) = empty

abbrev admissions : List (String × SkillRevision)
admissions = ("one", made) ∷ ("two", made) ∷ []

full : RevisionCache
unfolding admit_all
full = cache_or (admit_all services empty admissions)

empty-eq : new_cache 1 ≡ ok empty
unfolding new_cache
empty-eq = refl

full-eq : admit_all services empty admissions ≡ ok full
unfolding full admit_all made admit assert_revision_integrity normalize_utf8 verified_resource
    assert_safe_resource_path is_unsafe_path utf16_length sort_by insert canonicalize
full-eq = refl

found-eq : lookup services full "two" "lint" "v1" a_hash ≡ ok (some made)
unfolding full admit_all made lookup get admit assert_revision_integrity normalize_utf8
    verified_resource assert_safe_resource_path is_unsafe_path utf16_length sort_by insert
    canonicalize put discard
found-eq = refl

dropped-eq : lookup services full "one" "lint" "v1" a_hash ≡ ok none
unfolding full admit_all made lookup get admit assert_revision_integrity normalize_utf8
    verified_resource assert_safe_resource_path is_unsafe_path utf16_length sort_by insert
    canonicalize put discard
dropped-eq = refl

lookup-latest_example :
    latest services none admissions (cache_key "two" "lint" "v1" a_hash) ≡ some made
lookup-latest_example =
    lookup-latest services 1 empty full admissions "two" "lint" "v1" a_hash made empty-eq full-eq
      found-eq
