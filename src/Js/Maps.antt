-- ===== src/Js/Maps.antt =====
-- `Map` with texts as keys: its entries, in the order of insertion.
pub mod Distinct
use token_streaming.Common.{
  ℕ, suc, ◌+◌, ◌≤◌, ◌≡◌, ◌≢◌, refl, Bool, true, false, not, Option, none, some, List, [], ◌∷◌, ◌++◌,
  Memᴰ, length, ltb, leb, ◌==◌, if◌then◌else◌, Bool-cases, inl, inr, arith, is_some,
}
use token_streaming.Js.Texts.{Text, text_eq, text_beq, text_beq_iff}

module _ {ℓ} {V : Type ℓ} where
  -- `map.get(key)`
  unfoldable pub lookup : Text → List (Text × V) → Option V
  lookup key [] = none
  lookup key ((k, v) ∷ m) = if k == key then some v else lookup key m

  -- `map.set(key, value)`: a key that is there keeps its place.
  unfoldable pub set : Text → V → List (Text × V) → List (Text × V)
  set key v [] = (key, v) ∷ []
  set key v ((k, w) ∷ m) = if k == key then (k, v) ∷ m else (k, w) ∷ set key v m

  -- The loop that deletes each entry with `expiresAt < nowMs`.
  unfoldable pub prune_map : (V → ℕ) → ℕ → List (Text × V) → List (Text × V)
  prune_map expiry now [] = []
  prune_map expiry now ((k, v) ∷ m) =
      let rest = prune_map expiry now m in if ltb (expiry v) now then rest else (k, v) ∷ rest

  pub lookup-set :
      (key k : Text) (v : V) (m : List (Text × V))
      → lookup k (set key v m) ≡ (if key == k then some v else lookup k m)
  unfolding lookup set
  lookup-set key k v [] = refl
  lookup-set key k v ((j, w) ∷ m) =
      ground (arith, text_beq_iff key k, text_beq_iff j k, text_beq_iff j key, lookup-set key k v m)

  pub lookup-set_self :
      (key : Text) (v : V) (m : List (Text × V)) → lookup key (set key v m) ≡ some v
  lookup-set_self key v m = ground (arith, lookup-set key key v m, text_beq_iff key key)

  pub lookup-set_other :
      (key k : Text) (v : V) (m : List (Text × V)) → key ≢ k → lookup k (set key v m) ≡ lookup k m
  lookup-set_other key k v m differs = elim (Bool-cases (text_beq key k)) [
    | inl same ↦ absurd (differs ((text_beq_iff key k).0 same))
    | inr other ↦ ground (arith, lookup-set key k v m)
  ]

  -- A live entry stays where it can be read.
  pub lookup-prune_map :
      (expiry : V → ℕ) (now : ℕ) (key : Text) (v : V) (m : List (Text × V))
      → now ≤ expiry v
      → lookup key m ≡ some v
      → lookup key (prune_map expiry now m) ≡ some v
  unfolding lookup prune_map
  lookup-prune_map expiry now key v [] live h = h
  lookup-prune_map expiry now key v ((k, w) ∷ m) live h = elim (Bool-cases (k == key)) [
    | inl same ↦
        let here : w ≡ v = ground arith in
        let kept : ltb (expiry w) now ≡ false = rw here (ground arith) in
        rw kept (rw same (rw here refl))
    | inr other ↦
        let rest = lookup-prune_map expiry now key v m live (rw other at h) in ground arith
  ]

  pub lookup-Memᴰ :
      (key : Text) (v : V) (m : List (Text × V)) → lookup key m ≡ some v → Memᴰ (key, v) m
  unfolding lookup
  lookup-Memᴰ key v [] h = cc
  lookup-Memᴰ key v ((k, w) ∷ m) h = elim (Bool-cases (k == key)) [
    | inl same ↦
        let at : k ≡ key = (text_beq_iff k key).0 same in
        let here : w ≡ v = ground arith in rw at (rw here (Memᴰ.head refl))
    | inr other ↦ Memᴰ.tail (lookup-Memᴰ key v m (rw other at h))
  ]
