-- ===== src/Js/Maps/Distinct.antt =====
-- Maps whose keys differ, and what pruning leaves of a map.
use token_streaming.Common.{
  ℕ, ◌≤◌, ◌≡◌, ◌∙◌, refl, sym, ap, Option, none, some, List, [], ◌∷◌, ◌++◌, All, ltb, ◌==◌, is_some,
  if◌then◌else◌, Bool-cases, inl, inr, arith,
}
use mathlib.Core.List.{append_assoc, append-nil}
use token_streaming.Js.Texts.{Text, text_eq, text_beq_iff}
use token_streaming.Js.Maps.{lookup, set, prune_map, lookup-set}

module _ {ℓ} {V : Type ℓ} where
  abbrev pub IsDistinct : List (Text × V) → Type ℓ
  IsDistinct [] = Unit
  IsDistinct ((k, v) ∷ m) = (lookup k m ≡ none) × IsDistinct m

  -- No key of `m` is one of `acc`.
  abbrev pub IsFreshIn : List (Text × V) → List (Text × V) → Type ℓ
  IsFreshIn acc m = All (λ e. lookup (e.0) acc ≡ none) m

  pub set_fresh :
      (key : Text) (v : V) (m : List (Text × V))
      → lookup key m ≡ none
      → set key v m ≡ m ++ (key, v) ∷ []
  unfolding lookup set
  set_fresh key v [] h = refl
  set_fresh key v ((k, w) ∷ m) h = ground (arith, set_fresh key v m)

  pub set-IsDistinct :
      (key : Text) (v : V) (m : List (Text × V)) → IsDistinct m → IsDistinct (set key v m)
  unfolding lookup set
  set-IsDistinct key v [] d = (refl, tt)
  set-IsDistinct key v ((k, w) ∷ m) d = elim (Bool-cases (k == key)) [
    | inl same ↦ rw same d
    | inr other ↦ rw other (
      ground (arith, lookup-set key k v m, text_beq_iff k key, text_beq_iff key k),
      set-IsDistinct key v m (d.1),
    )
  ]

  module _ (expiry : V → ℕ) where
    pub lookup-prune_none :
        (now : ℕ) (key : Text) (m : List (Text × V))
        → lookup key m ≡ none
        → lookup key (prune_map expiry now m) ≡ none
    unfolding lookup prune_map
    lookup-prune_none now key [] h = refl
    lookup-prune_none now key ((k, v) ∷ m) h = ground (arith, lookup-prune_none now key m)

    pub prune_map-IsDistinct :
        (now : ℕ) (m : List (Text × V)) → IsDistinct m → IsDistinct (prune_map expiry now m)
    unfolding prune_map
    prune_map-IsDistinct now [] d = tt
    prune_map-IsDistinct now ((k, v) ∷ m) d =
        let rest = prune_map-IsDistinct now m (d.1) in
        elim (Bool-cases (ltb (expiry v) now)) [
          | inl past ↦ rw past rest
          | inr live ↦ rw live (lookup-prune_none now k m (d.0), rest)
        ]

    pub prune_map-prune_map :
        (now later : ℕ) (m : List (Text × V))
        → now ≤ later
        → prune_map expiry later (prune_map expiry now m) ≡ prune_map expiry later m
    unfolding prune_map
    prune_map-prune_map now later [] le = refl
    prune_map-prune_map now later ((k, v) ∷ m) le = ground (arith, prune_map-prune_map now later m)

    pub lookup_live :
        (now : ℕ) (key : Text) (v : V) (m : List (Text × V))
        → lookup key (prune_map expiry now m) ≡ some v
        → now ≤ expiry v
    unfolding lookup prune_map
    lookup_live now key v [] h = cc
    lookup_live now key v ((k, w) ∷ m) h = ground (arith, lookup_live now key v m)

    pub prune_map-append :
        (now : ℕ) (xs ys : List (Text × V))
        → prune_map expiry now (xs ++ ys) ≡ prune_map expiry now xs ++ prune_map expiry now ys
    unfolding prune_map
    prune_map-append now [] ys = refl
    prune_map-append now ((k, v) ∷ xs) ys = ground (arith, prune_map-append now xs ys)

    -- The live entries of a list are set one by one; a key that is there already is refused.
    unfoldable pub put_all : ℕ → List (Text × V) → List (Text × V) → Option (List (Text × V))
    put_all now [] acc = some acc
    put_all now ((k, v) ∷ m) acc =
        let skipped = put_all now m acc in
        let put = put_all now m (set k v acc) in
        if ltb (expiry v) now then skipped else if is_some (lookup k acc) then none else put

    IsFreshIn-set :
        (key : Text) (v : V) (acc m : List (Text × V))
        → lookup key m ≡ none
        → IsFreshIn acc m
        → IsFreshIn (set key v acc) m
    unfolding lookup
    IsFreshIn-set key v acc [] absent fresh = tt
    IsFreshIn-set key v acc ((k, w) ∷ m) absent fresh = (
      ground (arith, lookup-set key k v acc, text_beq_iff key k, text_beq_iff k key),
      IsFreshIn-set key v acc m (ground arith) (fresh.1),
    )

    pub put_all_distinct :
        (now : ℕ) (m acc : List (Text × V))
        → IsDistinct m
        → IsFreshIn acc m
        → put_all now m acc ≡ some (acc ++ prune_map expiry now m)
    unfolding put_all prune_map
    put_all_distinct now [] acc d fresh = ap some (sym (append-nil acc))
    put_all_distinct now ((k, v) ∷ m) acc d fresh = elim (Bool-cases (ltb (expiry v) now)) [
      | inl past ↦ rw past (put_all_distinct now m acc (d.1) (fresh.1))
      | inr live ↦
          rw (live, fresh.0)
            (put_all_distinct now m (set k v acc) (d.1) (IsFreshIn-set k v acc m (d.0) (fresh.1))
              ∙ ap (λ l. some (l ++ prune_map expiry now m)) (set_fresh k v acc (fresh.0))
              ∙ ap some (append_assoc acc ((k, v) ∷ []) (prune_map expiry now m)))
    ]

    pub prune_map-set_fresh :
        (now : ℕ) (key : Text) (v : V) (m : List (Text × V))
        → lookup key m ≡ none
        → prune_map expiry now (set key v m) ≡ (
            if ltb (expiry v) now
            then prune_map expiry now m
            else set key v (prune_map expiry now m))
    unfolding prune_map
    prune_map-set_fresh now key v m absent =
        ap (prune_map expiry now) (set_fresh key v m absent)
        ∙ prune_map-append now m ((key, v) ∷ [])
        ∙ last
      where
        pruned : List (Text × V)
        pruned = prune_map expiry now m

        last :
            pruned ++ (if ltb (expiry v) now then [] else (key, v) ∷ [])
            ≡ (if ltb (expiry v) now then pruned else set key v pruned)
        last = elim (Bool-cases (ltb (expiry v) now)) [
          | inl past ↦ rw past (append-nil pruned)
          | inr live ↦ rw live (sym (set_fresh key v pruned (lookup-prune_none now key m absent)))
        ]

    pub All-prune_map {κ} :
        (P : Text × V → Type κ) (now : ℕ) (m : List (Text × V))
        → All P m
        → All P (prune_map expiry now m)
    unfolding prune_map
    All-prune_map P now [] h = tt
    All-prune_map P now ((k, v) ∷ m) h =
        let rest = All-prune_map P now m (h.1) in
        elim (Bool-cases (ltb (expiry v) now)) [
          | inl past ↦ rw past rest
          | inr live ↦ rw live (h.0, rest)
        ]
