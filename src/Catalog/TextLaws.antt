-- ===== src/Catalog/TextLaws.antt =====
-- That normalised text normalises to itself.
use Prim.Native.String.{String}
use skillwire.Base.{
  ℕ, false, ◌≡◌, refl, ap, sym, ◌∙◌, List, some, length, ltb, arith, ok, throw_if, throw_if-false,
  >>=-eq-ok, error, subst,
}
use skillwire.Catalog.Text.{
  Encoding, NormalizedText, has_code, starts_with_mark, drop_mark, join_returns, replace_returns,
  normal_form, normalize_utf8, byte_length, decoded,
}

-- What the platform documents of UTF-8 and of the normal form: decoding an encoded text drops one byte
-- order mark, the normal form is its own, and it makes no control characters.
pub record IsUnicode (e : Encoding) : Type 0 where
  pub decode-encode : (s : String) → e.decode (e.encode s) ≡ some (drop_mark s)
  pub nfc-nfc : (s : String) → e.nfc (e.nfc s) ≡ e.nfc s
  pub no_return : (s : String) → has_code 13 s ≡ false → has_code 13 (e.nfc s) ≡ false
  pub no_null : (s : String) → has_code 0 s ≡ false → has_code 0 (e.nfc s) ≡ false

drop_mark-unmarked : (s : String) → starts_with_mark s ≡ false → drop_mark s ≡ s
drop_mark-unmarked String.[] h = refl
drop_mark-unmarked (String.◌∷◌ c s) h = ground arith

has_code-drop_mark : (n : ℕ) (s : String) → has_code n s ≡ false → has_code n (drop_mark s) ≡ false
has_code-drop_mark n String.[] h = refl
has_code-drop_mark n (String.◌∷◌ c s) h = ground arith

has_return-replace : (s : String) → has_code 13 (replace_returns s) ≡ false
unfolding replace_returns
has_return-replace String.[] = refl
has_return-replace (String.◌∷◌ c s) = ground (arith, has_return-replace s)

has_null-replace : (s : String) → has_code 0 s ≡ false → has_code 0 (replace_returns s) ≡ false
unfolding replace_returns
has_null-replace String.[] h = refl
has_null-replace (String.◌∷◌ c s) h = ground (arith, has_null-replace s)

has_null-join : (s : String) → has_code 0 s ≡ false → has_code 0 (join_returns s) ≡ false
unfolding join_returns
has_null-join String.[] h = refl
has_null-join (String.◌∷◌ c s) h = ground (arith, has_null-join s)

replace-no_return : (s : String) → has_code 13 s ≡ false → replace_returns s ≡ s
unfolding replace_returns
replace-no_return String.[] h = refl
replace-no_return (String.◌∷◌ c s) h = ground (arith, replace-no_return s)

join-no_return : (s : String) → has_code 13 s ≡ false → join_returns s ≡ s
unfolding join_returns
join-no_return String.[] h = refl
join-no_return (String.◌∷◌ c s) h = ground (arith, join-no_return s)

module _ (e : Encoding) where
  -- A normalised text is a normal form without NUL, its length is that of its bytes, and within the
  -- limit.
  pub normalize_utf8-eq-ok :
      (bytes : List ℕ) (maximum : ℕ) (n : NormalizedText)
      → normalize_utf8 e bytes maximum ≡ ok n
      → (s : String) × (n
          ≡ record { text = normal_form e s; byte_length = byte_length e (normal_form e s) })
        × (has_code 0 s ≡ false)
        × (ltb maximum (byte_length e (normal_form e s)) ≡ false)
  unfolding normalize_utf8
  normalize_utf8-eq-ok bytes maximum n h =
      let (_, e1, h1) = >>=-eq-ok (throw_if (ltb maximum (length bytes)) _) _ h in
      let (text, e2, h2) = >>=-eq-ok (decoded e bytes) _ h1 in
      let (_, e3, h3) =
        >>=-eq-ok (throw_if (has_code 0 text) (error "Text must not contain NUL")) _ h2 in
      let (_, e4, h4) =
        >>=-eq-ok (throw_if (ltb maximum (byte_length e (normal_form e text))) _) _ h3 in
      (
        text,
        cc h4,
        throw_if-false (has_code 0 text) _ e3,
        throw_if-false (ltb maximum (byte_length e (normal_form e text))) _ e4,
      )

module _ (e : Encoding) (u : IsUnicode e) where
  normal_form-clean :
      (n : String) → starts_with_mark n ≡ false → has_code 13 n ≡ false → normal_form e n ≡ e.nfc n
  unfolding normal_form
  normal_form-clean n h clean =
      ap e.nfc (rw (drop_mark-unmarked n h, join-no_return n clean) (replace-no_return n clean))

  has_return-normal_form : (s : String) → has_code 13 (normal_form e s) ≡ false
  unfolding normal_form
  has_return-normal_form s =
      u.no_return (replace_returns (join_returns (drop_mark s)))
        (has_return-replace (join_returns (drop_mark s)))

  nfc-normal_form : (s : String) → e.nfc (normal_form e s) ≡ normal_form e s
  unfolding normal_form
  nfc-normal_form s = u.nfc-nfc (replace_returns (join_returns (drop_mark s)))

  normal_form-normal_form :
      (s : String)
      → starts_with_mark (normal_form e s) ≡ false
      → normal_form e (normal_form e s) ≡ normal_form e s
  normal_form-normal_form s h =
      normal_form-clean (normal_form e s) h (has_return-normal_form s) ∙ nfc-normal_form s

  has_null-normal_form : (s : String) → has_code 0 s ≡ false → has_code 0 (normal_form e s) ≡ false
  unfolding normal_form
  has_null-normal_form s h = u.no_null (replace_returns (join_returns (drop_mark s))) (
      has_null-replace (join_returns (drop_mark s))
        (has_null-join (drop_mark s) (has_code-drop_mark 0 s h)))

  decoded-encode : (s : String) → starts_with_mark s ≡ false → decoded e (e.encode s) ≡ ok s
  decoded-encode s m = rw (u.decode-encode s, drop_mark-unmarked s m) refl

  normalize_utf8-fixed :
      (s : String) (maximum : ℕ)
      → starts_with_mark s ≡ false
      → has_code 0 s ≡ false
      → ltb maximum (byte_length e s) ≡ false
      → normal_form e s ≡ s
      → normalize_utf8 e (e.encode s) maximum
        ≡ ok (record { text = s; byte_length = byte_length e s })
  unfolding normalize_utf8
  normalize_utf8-fixed s maximum m clean short fixed =
      rw (short, decoded-encode s m, clean, fixed, short) refl

  normalize-again :
      (s : String) (maximum : ℕ)
      → has_code 0 s ≡ false
      → ltb maximum (byte_length e (normal_form e s)) ≡ false
      → starts_with_mark (normal_form e s) ≡ false
      → normalize_utf8 e (e.encode (normal_form e s)) maximum
        ≡ ok (record { text = normal_form e s; byte_length = byte_length e (normal_form e s) })
  normalize-again s maximum clean short m =
      normalize_utf8-fixed (normal_form e s) maximum m (has_null-normal_form s clean) short
        (normal_form-normal_form s m)

  -- A text that was normalised and has no mark at its head is normalised to itself.
  pub normalize_utf8-again :
      (bytes : List ℕ) (maximum : ℕ) (n : NormalizedText)
      → normalize_utf8 e bytes maximum ≡ ok n
      → starts_with_mark n.text ≡ false
      → normalize_utf8 e (e.encode n.text) maximum ≡ ok n
  normalize_utf8-again bytes maximum n h m =
      let (s, same, clean, short) = normalize_utf8-eq-ok e bytes maximum n h in
      let P : NormalizedText → Type 0 =
        λ k. starts_with_mark k.text ≡ false → normalize_utf8 e (e.encode k.text) maximum ≡ ok k in
      subst P (sym same) (normalize-again s maximum clean short) m
