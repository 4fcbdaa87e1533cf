-- ===== src/Catalog/Text.antt =====
-- src/domain/catalog/text-normalization.ts: `normalizeUtf8`.
--
-- The platform's part is a parameter: the encoding of a text, its decoding (`TextDecoder` with `fatal`,
-- which also drops one byte order mark), and the normal form NFC.
use Prim.Native.Char.{code}
use Prim.Native.String.{String}
use skillwire.Base.{
  ◌>>=◌, ◌>>◌, ℕ, Bool, false, List, Option, none, some, any, length, ltb, codes, if◌then◌else◌,
  ◌==◌, Result, ok, error, throw_if, throw,
}

pub record Encoding : Type 0 where
  pub encode : String → List ℕ
  pub decode : List ℕ → Option String
  pub nfc : String → String

pub record NormalizedText : Type 0 where
  pub text : String
  pub byte_length : ℕ

abbrev pub max_text_bytes : ℕ
max_text_bytes = 262144

abbrev pub byte_order_mark : ℕ
byte_order_mark = 0xfeff

-- `text.includes("\u0000")`, and `\r`
abbrev pub has_code : ℕ → String → Bool
has_code c s = any (λ d. d == c) (codes s)

-- `text.startsWith("\uFEFF")`
abbrev pub starts_with_mark : String → Bool
starts_with_mark String.[] = false
starts_with_mark (String.◌∷◌ c s) = code c == byte_order_mark

-- `text.startsWith("\uFEFF") ? text.slice(1) : text`
abbrev pub drop_mark : String → String
drop_mark String.[] = String.[]
drop_mark (String.◌∷◌ c s) = if code c == byte_order_mark then s else String.◌∷◌ c s

abbrev newline : Prim.Native.Char.Char
newline = "\n"

-- A line feed at the head of the text, that a carriage return stands before.
abbrev starts_with_feed : String → Bool
starts_with_feed String.[] = false
starts_with_feed (String.◌∷◌ c s) = code c == 10

-- `text.replaceAll("\r\n", "\n")`: a carriage return is dropped where a line feed follows.
unfoldable pub join_returns : String → String
join_returns String.[] = String.[]
join_returns (String.◌∷◌ c s) =
    let rest = join_returns s in
    if code c == 13
    then (if starts_with_feed s then rest else String.◌∷◌ c rest)
    else String.◌∷◌ c rest

-- `text.replaceAll("\r", "\n")`
unfoldable pub replace_returns : String → String
replace_returns String.[] = String.[]
replace_returns (String.◌∷◌ c s) =
    let rest = replace_returns s in
    if code c == 13 then String.◌∷◌ newline rest else String.◌∷◌ c rest

abbrev decoded_text : Option String → Result String
decoded_text none = throw "Content is not valid UTF-8"
decoded_text (some s) = ok s

module _ (e : Encoding) where
  abbrev pub byte_length : String → ℕ
  byte_length s = length (e.encode s)

  abbrev pub decoded : List ℕ → Result String
  decoded bytes = decoded_text (e.decode bytes)

  -- The text after its checks.
  unfoldable pub normal_form : String → String
  unfolding join_returns replace_returns
  normal_form s = e.nfc (replace_returns (join_returns (drop_mark s)))

  unfoldable pub normalize_utf8 : List ℕ → ℕ → Result NormalizedText
  unfolding normal_form
  normalize_utf8 bytes maximum = do
    throw_if (ltb maximum (length bytes)) (error "Text exceeds the configured size limit")
    text ← decoded bytes
    throw_if (has_code 0 text) (error "Text must not contain NUL")
    throw_if (ltb maximum (byte_length (normal_form text)))
        (error "Normalized text exceeds the configured size limit")
    ok (record { text = normal_form text; byte_length = byte_length (normal_form text) })
