-- ===== src/Catalog/Path.antt =====
-- src/domain/catalog/resource-path.ts: `assertSafeResourcePath`.
use skillwire.Base.{
  ℕ, Bool, true, false, not, ◌&&◌, ◌||◌, List, [], ◌∷◌, all, any, leb, ltb, ◌==◌, codes, same_codes,
  split_from, utf16_length, String, Result, error, throw_if,
}

is_path_char : ℕ → Bool
is_path_char c =
    (leb b'A' c && leb c b'Z')
    || (leb b'a' c && leb c b'z')
    || (leb b'0' c && leb c b'9')
    || c == b'.'
    || c == b'_'
    || c == b'-'

abbrev is_named : List ℕ → Bool
is_named [] = false
is_named (c ∷ cs) = true

-- `resourcePath.split("/")`
abbrev pub segments : String → List (List ℕ)
segments path = split_from [] b'/' (codes path)

-- `/^[A-Za-z0-9._-]+(?:\/[A-Za-z0-9._-]+)*$/`: between slashes, characters of a name, at least one.
unfoldable pub matches_safe_path : String → Bool
unfolding is_path_char
matches_safe_path path = all (λ s. is_named s && all is_path_char s) (segments path)

abbrev pub is_dots : List ℕ → Bool
is_dots s = same_codes s (codes ".") || same_codes s (codes "..")

unfoldable pub is_unsafe_path : String → Bool
unfolding matches_safe_path
is_unsafe_path path =
    utf16_length path == 0
    || ltb 240 (utf16_length path)
    || not (matches_safe_path path)
    || any is_dots (segments path)

unfoldable pub assert_safe_resource_path : String → Result (Unit {0})
assert_safe_resource_path path =
    throw_if (is_unsafe_path path) (error "Resource path is not a safe relative path")
