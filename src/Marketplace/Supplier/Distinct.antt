-- ===== src/Marketplace/Supplier/Distinct.antt =====
-- Lists in which no identifier and no kind stands twice (packages/marketplace-domain/src/supplier.ts).
use token_streaming.Common.{
  ◌≡◌, refl, Bool, true, false, not, ◌&&◌, ◌||◌, Option, some, List, [], ◌∷◌, ◌++◌, map, any, find,
  is_some, ◌==◌, arith, Bool-cases, inl, inr, if◌then◌else◌,
}
use token_streaming.Js.Texts.{Text, text_eq, text_beq_iff}
use token_streaming.Marketplace.Protocol.{
  Verification, Authorization, SupplierState, kind_eq, kind_iff,
}
use token_streaming.Marketplace.Supplier.Rules.{is_reused}
use token_streaming.Marketplace.Supplier.Applied.{holds}
use token_streaming.Marketplace.Supplier.History.{with_verification, revoke}

-- No two authorizations have one identifier.
abbrev pub HasDistinctIds : List Authorization → Type 0
HasDistinctIds [] = Unit
HasDistinctIds (a ∷ rest) = (holds a.authorization_id rest ≡ false) × HasDistinctIds rest

-- A verification with the kind or the identifier of `v`.
abbrev pub clashes : Verification → List Verification → Bool
clashes v vs =
    any (λ (w : Verification). w.kind == v.kind || w.verification_id == v.verification_id) vs

-- No two verifications have one kind or one identifier.
abbrev pub HasDistinctKinds : List Verification → Type 0
HasDistinctKinds [] = Unit
HasDistinctKinds (v ∷ vs) = (clashes v vs ≡ false) × HasDistinctKinds vs

holds-append :
    (id : Text) (rest : List Authorization) (a : Authorization)
    → holds id rest ≡ false
    → (a.authorization_id == id) ≡ false
    → holds id (rest ++ a ∷ []) ≡ false
holds-append id [] a h k = rw k refl
holds-append id (b ∷ rest) a h k = ground (arith, holds-append id rest a)

pub HasDistinctIds-append :
    (rest : List Authorization) (a : Authorization)
    → HasDistinctIds rest
    → holds a.authorization_id rest ≡ false
    → HasDistinctIds (rest ++ a ∷ [])
HasDistinctIds-append [] a d h = (refl, tt)
HasDistinctIds-append (b ∷ rest) a (fresh, d) h =
    let parts : ((b.authorization_id == a.authorization_id) ≡ false)
        × (holds a.authorization_id rest ≡ false) =
      ground arith in
    let swapped : (a.authorization_id == b.authorization_id) ≡ false = ground (
      arith,
      text_beq_iff a.authorization_id b.authorization_id,
      text_beq_iff b.authorization_id a.authorization_id,
    ) in
    (holds-append b.authorization_id rest a fresh swapped, HasDistinctIds-append rest a d (parts.1))

revoke-id : (id : Text) (a : Authorization) → (revoke id a).authorization_id ≡ a.authorization_id
unfolding revoke
revoke-id id a = ground arith

holds-revoke :
    (id other : Text) (rest : List Authorization)
    → holds other (map (revoke id) rest) ≡ holds other rest
holds-revoke id other [] = refl
holds-revoke id other (a ∷ rest) = rw (revoke-id id a, holds-revoke id other rest) refl

pub HasDistinctIds-revoke :
    (id : Text) (rest : List Authorization)
    → HasDistinctIds rest
    → HasDistinctIds (map (revoke id) rest)
HasDistinctIds-revoke id [] d = tt
HasDistinctIds-revoke id (a ∷ rest) (fresh, d) = (
  rw (revoke-id id a, holds-revoke id a.authorization_id rest) fresh,
  HasDistinctIds-revoke id rest d,
)

-- What `is_reused` has excluded, for the verifications of other kinds.
abbrev reuses : Verification → List Verification → Bool
reuses input vs = is_some (
    find
      (λ (v : Verification).
        v.verification_id == input.verification_id && not (v.kind == input.kind))
      vs)

keep_lem :
    (v input : Verification) (vs : List Verification)
    → clashes v vs ≡ false
    → (v.kind == input.kind) ≡ false
    → (v.verification_id == input.verification_id) ≡ false
    → clashes v (with_verification input vs) ≡ false
unfolding with_verification
keep_lem v input [] h k i = ground (
  arith,
  text_beq_iff v.verification_id input.verification_id,
  text_beq_iff input.verification_id v.verification_id,
  kind_iff v.kind input.kind,
  kind_iff input.kind v.kind,
)
keep_lem v input (w ∷ vs) h k i = ground (arith, keep_lem v input vs)

reuses_split :
    (b : Bool) (v : Verification) (o : Option Verification)
    → is_some (if b then some v else o) ≡ false
    → (is_some o ≡ false) × (b ≡ false)
reuses_split true v o h = cc
reuses_split false v o h = (h, refl)

reuses-cons :
    (input v : Verification) (vs : List Verification)
    → reuses input (v ∷ vs) ≡ false
    → (reuses input vs ≡ false)
      × ((v.verification_id == input.verification_id && not (v.kind == input.kind)) ≡ false)
reuses-cons input v vs h =
    reuses_split (v.verification_id == input.verification_id && not (v.kind == input.kind)) v _ h

id_free : (a b : Bool) → (a && not b) ≡ false → b ≡ false → a ≡ false
id_free a b h k = ground arith

pub reuses_of :
    (state : SupplierState) (input : Verification)
    → is_reused state input ≡ false
    → reuses input state.verifications ≡ false
unfolding is_reused
reuses_of state input h = h

pub HasDistinctKinds-with :
    (input : Verification) (vs : List Verification)
    → HasDistinctKinds vs
    → reuses input vs ≡ false
    → HasDistinctKinds (with_verification input vs)
unfolding with_verification
HasDistinctKinds-with input [] d h = (refl, tt)
HasDistinctKinds-with input (v ∷ vs) (fresh, d) h =
    let (later, here) = reuses-cons input v vs h in
    let ih = HasDistinctKinds-with input vs d later in
    elim (Bool-cases (v.kind == input.kind)) [
      | inl same ↦ rw same ih
      | inr other ↦ rw other (keep_lem v input vs fresh other (id_free _ _ here other), ih)
    ]
