-- ===== src/Journal/Exec.antt =====
-- Methods of the journal that may throw: what was written before a throw stays written.
use skillwire.Base.{Failure, Result, ok, err, ◌≡◌, refl}
use skillwire.Journal.Append.{Journal, Exec}

module _ {ℓ} {A : Type ℓ} where
  abbrev pub pure : A → Exec A
  pure a j = (ok a, j)

  abbrev pub raise : Failure → Exec A
  raise e j = (err e, j)

  abbrev pub lift : Result A → Exec A
  lift r j = (r, j)

  abbrev pub handle : (Failure → Exec A) → Result A × Journal → Result A × Journal
  handle h (ok a, j) = (ok a, j)
  handle h (err e, j) = h e j

  -- `try { m } catch (e) { h(e) }`
  abbrev pub catch : Exec A → (Failure → Exec A) → Exec A
  catch m h j = handle h (m j)

module _ {ℓ κ} {A : Type ℓ} {B : Type κ} where
  abbrev pub continue : (A → Exec B) → Result A × Journal → Result B × Journal
  continue f (ok a, j) = f a j
  continue f (err e, j) = (err e, j)

  infixl 5 ◌>>=◌
  abbrev pub ◌>>=◌ : Exec A → (A → Exec B) → Exec B
  ◌>>=◌ m f j = continue f (m j)

infixl 5 ◌>>◌
abbrev pub ◌>>◌ {ℓ} : {B : Type ℓ} → Exec (Unit {0}) → Exec B → Exec B
m >> k = m >>= λ _. k

-- What a successful sequence went through.
pub continue-eq-ok {ℓ κ} :
    {A : Type ℓ} {B : Type κ} (f : A → Exec B) (r : Result A × Journal) {b : B}
    → (continue f r).0 ≡ ok b
    → (a : A) × (r ≡ (ok a, r.1)) × (continue f r ≡ f a r.1)
continue-eq-ok f (ok a, j) h = (a, refl, refl)
continue-eq-ok f (err e, j) h = absurd (cc h)
