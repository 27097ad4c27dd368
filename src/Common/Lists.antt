-- ===== src/Common/Lists.antt =====
-- List functions of the language (`includes`, `some`, `every`, `find`, `filter`) that run, with the
-- predicates that the statements use.
use Prim.Native.Nat.{ℕ, suc, ◌+◌}
use mathlib.Core.Path.{◌≡◌, refl, sym, subst}
use mathlib.Core.Bool.{Bool, true, false, ◌&&◌, ◌||◌}
use mathlib.Core.Logic.{inl, inr}
use mathlib.Core.Option.{Option, none, some}
use mathlib.Core.List.{List, [], ◌∷◌, ◌++◌, Memᴰ}
use native.Mathlib.Omega.{arith}
use token_streaming.Common.Tests.{Eq, ◌==◌, if◌then◌else◌, Bool-cases, nat_beq}

module _ {ℓ} {A : Type ℓ} where
  abbrev pub length : List A → ℕ
  length [] = 0
  length (x ∷ xs) = suc (length xs)

  abbrev pub any : (A → Bool) → List A → Bool
  any p [] = false
  any p (x ∷ xs) = p x || any p xs

  abbrev pub all : (A → Bool) → List A → Bool
  all p [] = true
  all p (x ∷ xs) = p x && all p xs

  abbrev pub find : (A → Bool) → List A → Option A
  find p [] = none
  find p (x ∷ xs) = if p x then some x else find p xs

  abbrev pub keep : (A → Bool) → List A → List A
  keep p [] = []
  keep p (x ∷ xs) = if p x then x ∷ keep p xs else keep p xs

  abbrev pub is_some : Option A → Bool
  is_some none = false
  is_some (some a) = true

  -- `xs.includes(a)`, and `has` of a set of texts.
  abbrev pub contains : ⦃e : Eq A⦄ → List A → A → Bool
  contains [] a = false
  contains (x ∷ xs) a = x == a || contains xs a

module _ {ℓ} {A : Type ℓ} where
  pub length-append : (xs ys : List A) → length (xs ++ ys) ≡ length xs + length ys
  length-append [] ys = omega arith
  length-append (x ∷ xs) ys = omega (arith, length-append xs ys)

  pub contains-Memᴰ : ⦃e : Eq A⦄ → (xs : List A) (a : A) → contains xs a ≡ true → Memᴰ a xs
  contains-Memᴰ [] a h = cc
  contains-Memᴰ ⦃e⦄ (x ∷ xs) a h = elim (Bool-cases (x == a)) [
    | inl same ↦ rw ((e.beq_iff x a).0 same) (Memᴰ.head refl)
    | inr other ↦ Memᴰ.tail (contains-Memᴰ xs a (ground arith))
  ]

  pub find-Memᴰ :
      (p : A → Bool) (xs : List A) (a : A) → find p xs ≡ some a → Memᴰ a xs × (p a ≡ true)
  find-Memᴰ p [] a h = cc
  find-Memᴰ p (x ∷ xs) a h = elim (Bool-cases (p x)) [
    | inl found ↦ let same : x ≡ a = ground arith in (rw same (Memᴰ.head refl), rw (← same) found)
    | inr missed ↦ let (m, t) = find-Memᴰ p xs a (ground arith) in (Memᴰ.tail m, t)
  ]

  pub Memᴰ-contains : ⦃e : Eq A⦄ → (xs : List A) (a : A) → Memᴰ a xs → contains xs a ≡ true
  Memᴰ-contains [] a m = elim m [ ]
  Memᴰ-contains ⦃e⦄ (x ∷ xs) a (Memᴰ.head same) =
      let found = (e.beq_iff x a).1 (sym same) in ground arith
  Memᴰ-contains (x ∷ xs) a (Memᴰ.tail m) = let found = Memᴰ-contains xs a m in ground arith

  -- `xs.filter(p)` is empty exactly if no element passes.
  pub keep-found :
      (p : A → Bool) (xs : List A)
      → nat_beq (length (keep p xs)) 0 ≡ false
      → (x : A) × Memᴰ x xs × (p x ≡ true)
  keep-found p [] h = cc
  keep-found p (x ∷ xs) h = elim (Bool-cases (p x)) [
    | inl found ↦ (x, Memᴰ.head refl, found)
    | inr missed ↦ let (y, m, t) = keep-found p xs (ground arith) in (y, Memᴰ.tail m, t)
  ]

  pub keep-Memᴰ :
      (p : A → Bool) (xs : List A) (x : A)
      → Memᴰ x xs
      → p x ≡ true
      → nat_beq (length (keep p xs)) 0 ≡ false
  keep-Memᴰ p [] x m t = elim m [ ]
  keep-Memᴰ p (y ∷ xs) x (Memᴰ.head same) t =
      let passes : p y ≡ true = subst (λ z. p z ≡ true) same t in ground arith
  keep-Memᴰ p (y ∷ xs) x (Memᴰ.tail m) t = let rest = keep-Memᴰ p xs x m t in ground arith

  pub any-Memᴰ : (p : A → Bool) (xs : List A) → any p xs ≡ true → (x : A) × Memᴰ x xs × (p x ≡ true)
  any-Memᴰ p [] h = cc
  any-Memᴰ p (x ∷ xs) h = elim (Bool-cases (p x)) [
    | inl found ↦ (x, Memᴰ.head refl, found)
    | inr missed ↦ let (y, m, t) = any-Memᴰ p xs (ground arith) in (y, Memᴰ.tail m, t)
  ]

module _ {ℓ κ} {A : Type ℓ} where
  abbrev pub All : (A → Type κ) → List A → Type κ
  All P [] = Unit
  All P (x ∷ xs) = P x × All P xs

  pub All-append : (P : A → Type κ) (xs ys : List A) → All P xs → All P ys → All P (xs ++ ys)
  All-append P [] ys h k = k
  All-append P (x ∷ xs) ys h k = (h.0, All-append P xs ys h.1 k)

  pub All-Memᴰ : (P : A → Type κ) (xs : List A) {a : A} → All P xs → Memᴰ a xs → P a
  All-Memᴰ P [] h m = elim m [ ]
  All-Memᴰ P (x ∷ xs) h (Memᴰ.head e) = rw e h.0
  All-Memᴰ P (x ∷ xs) h (Memᴰ.tail m) = All-Memᴰ P xs h.1 m

  pub all-All :
      (P : A → Type κ) (p : A → Bool) (xs : List A)
      → ((x : A) → p x ≡ true → P x)
      → all p xs ≡ true
      → All P xs
  all-All P p [] sound h = tt
  all-All P p (x ∷ xs) sound h = (sound x (ground arith), all-All P p xs sound (ground arith))

  pub All-all :
      (P : A → Type κ) (p : A → Bool) (xs : List A)
      → ((x : A) → P x → p x ≡ true)
      → All P xs
      → all p xs ≡ true
  All-all P p [] complete h = refl
  All-all P p (x ∷ xs) complete h =
      let first = complete x (h.0) in let rest = All-all P p xs complete (h.1) in ground arith
