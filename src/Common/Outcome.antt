-- ===== src/Common/Outcome.antt =====
-- A call that returns or throws. An error is a value of `E`.
use mathlib.Core.Path.{◌≡◌, refl, sym}
use mathlib.Core.Logic.{◌⊎◌, inl, inr}
use mathlib.Core.Bool.{Bool, true, false}
use mathlib.Core.List.{List, [], ◌∷◌}
use token_streaming.Common.Tests.{if◌then◌else◌}

pub data Outcome {ℓ κ} (E : Type ℓ) (A : Type κ) : Type (ℓ ⊔ κ) where
  ok : A → Outcome E A
  err : E → Outcome E A

infixl 5 ◌>>=◌ ◌>>◌
abbrev pub ◌>>=◌ {ℓ κ μ} :
    {E : Type ℓ} {A : Type κ} {B : Type μ} → Outcome E A → (A → Outcome E B) → Outcome E B
ok value >>= next = next value
err fault >>= next = err fault

abbrev pub ◌>>◌ {ℓ κ μ} :
    {E : Type ℓ} {A : Type κ} {B : Type μ} → Outcome E A → Outcome E B → Outcome E B
first >> second = first >>= λ _. second

-- `if (test) throw e;`
abbrev pub throw_if {ℓ} : {E : Type ℓ} → Bool → E → Outcome E (Unit {0})
throw_if true e = err e
throw_if false e = ok tt

-- `try { m } catch { throw e }`
abbrev pub or_throw {ℓ κ} : {E : Type ℓ} {A : Type κ} → Outcome E A → E → Outcome E A
or_throw (ok a) e = ok a
or_throw (err _) e = err e

module _ {ℓ κ} {E : Type ℓ} {A : Type κ} where
  -- `xs.some(p)` and `xs.filter(p)` for a test that may throw; `some` stops at the first success.
  abbrev pub some_ok : (A → Outcome E Bool) → List A → Outcome E Bool
  some_ok p [] = ok false
  some_ok p (x ∷ xs) = do found ← p x; if found then ok true else some_ok p xs

  abbrev pub filter_ok : (A → Outcome E Bool) → List A → Outcome E (List A)
  filter_ok p [] = ok []
  filter_ok p (x ∷ xs) = do kept ← p x; rest ← filter_ok p xs; ok (if kept then x ∷ rest else rest)

module _ {ℓ κ μ} {E : Type ℓ} {A : Type κ} {B : Type μ} where
  -- Inversion of a chain that returned.
  pub >>=-eq-ok :
      (first : Outcome E A) (next : A → Outcome E B) {result : B}
      → (first >>= next) ≡ ok result
      → (value : A) × (first ≡ ok value) × (next value ≡ ok result)
  >>=-eq-ok (err fault) next returned = cc
  >>=-eq-ok (ok value) next returned = (value, refl, returned)

pub throw_if-eq-ok {ℓ} :
    {E : Type ℓ} (b : Bool) (e : E) {u : Unit {0}} → throw_if b e ≡ ok u → b ≡ false
throw_if-eq-ok true e h = cc
throw_if-eq-ok false e h = refl

pub ok-injective {ℓ κ} :
    {E : Type ℓ} {A : Type κ} {a b : A} → ◌≡◌ {A = Outcome E A} (ok a) (ok b) → a ≡ b
ok-injective h = cc

pub err-injective {ℓ κ} :
    {E : Type ℓ} {A : Type κ} {a b : E} → ◌≡◌ {A = Outcome E A} (err a) (err b) → a ≡ b
err-injective h = cc

module _ {ℓ κ} {E : Type ℓ} {A : Type κ} where
  pub or_throw-eq-ok : (m : Outcome E A) (e : E) (a : A) → or_throw m e ≡ ok a → m ≡ ok a
  or_throw-eq-ok (ok b) e a h = h
  or_throw-eq-ok (err c) e a h = cc

  pub Outcome-cases : (m : Outcome E A) → ((a : A) × (m ≡ ok a)) ⊎ ((e : E) × (m ≡ err e))
  Outcome-cases (ok a) = inl (a, refl)
  Outcome-cases (err e) = inr (e, refl)

  -- A test that throws one error, before a value that is returned.
  pub throw_if-eq-err :
      (b : Bool) (e : E) (a : A) (code : E) → (throw_if b e >> ok a) ≡ err code → code ≡ e
  throw_if-eq-err true e a code h = sym (err-injective h)
  throw_if-eq-err false e a code h = cc
