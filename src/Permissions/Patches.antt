-- ===== src/Permissions/Patches.antt =====
-- Which patches may be applied (packages/core/src/permissions/policy.ts).
use token_streaming.Common.{
  ◌≡◌, ◌↔◌, refl, sym, ap, ◌∙◌, Bool, true, false, not, ◌&&◌, ◌||◌, ◌⊎◌, inl, inr, List, [], ◌∷◌,
  ◌++◌, map, any, keep, Memᴰ, any-Memᴰ, Bool-cases, arith,
}
use token_streaming.Js.Texts.{Text}
use token_streaming.Marketplace.Supplier.Rules.{is_empty}
use token_streaming.Permissions.Policy.{
  Matching, Manifest, ProposedFile, SafetyPolicy, read_safety_policy, normalize_path, matches_path,
  matches_content,
}
use token_streaming.Permissions.Patching.{
  touched_sensitive_paths, protected_pattern_matches, evaluate_patch_policy,
}

-- The path of a file matches a sensitive path, or its content matches a protected pattern.
pub data IsGuarded (m : Matching) (safety : SafetyPolicy) (files : List ProposedFile) : Type 0 where
  sensitive :
      (file : ProposedFile) (entry : Text)
      → Memᴰ file files
      → Memᴰ entry safety.sensitive_paths
      → matches_path (normalize_path file.path) entry ≡ true
      → IsGuarded m safety files
  protected :
      (file : ProposedFile) (entry : Text)
      → Memᴰ file files
      → Memᴰ entry safety.protected_patterns
      → matches_content m file.content entry ≡ true
      → IsGuarded m safety files

-- The Boolean test that the two lists amount to.
abbrev is_guarded : Matching → SafetyPolicy → List ProposedFile → Bool
is_guarded m safety files =
    not (is_empty (touched_sensitive_paths safety files))
    || not (is_empty (protected_pattern_matches m safety files))

module _ {A B : Type 0} where
  -- The images that pass are not none exactly if some image passes.
  kept-found :
      (p : B → Bool) (f : A → B) (xs : List A)
      → not (is_empty (keep p (map f xs))) ≡ true
      → (x : A) × Memᴰ x xs × (p (f x) ≡ true)
  kept-found p f [] h = cc
  kept-found p f (x ∷ xs) h = elim (Bool-cases (p (f x))) [
    | inl found ↦ (x, Memᴰ.head refl, found)
    | inr missed ↦ let (y, m, t) = kept-found p f xs (rw missed at h) in (y, Memᴰ.tail m, t)
  ]

  found-kept :
      (p : B → Bool) (f : A → B) (xs : List A) (x : A)
      → Memᴰ x xs
      → p (f x) ≡ true
      → not (is_empty (keep p (map f xs))) ≡ true
  found-kept p f [] x m t = elim m [ ]
  found-kept p f (y ∷ xs) x (Memᴰ.head same) t =
      let here = sym (ap (λ z. p (f z)) same) ∙ t in rw here refl
  found-kept p f (y ∷ xs) x (Memᴰ.tail m) t = elim (Bool-cases (p (f y))) [
    | inl first ↦ rw first refl
    | inr missed ↦ rw missed (found-kept p f xs x m t)
  ]

  map-is_empty : (f : A → B) (xs : List A) → is_empty (map f xs) ≡ is_empty xs
  map-is_empty f [] = refl
  map-is_empty f (x ∷ xs) = refl

append-is_empty : {A : Type 0} (xs ys : List A) → is_empty (xs ++ ys) ≡ (is_empty xs && is_empty ys)
append-is_empty [] ys = refl
append-is_empty (x ∷ xs) ys = refl

map_id : {A : Type 0} (xs : List A) → map (λ x. x) xs ≡ xs
map_id [] = refl
map_id (x ∷ xs) = ap (λ l. x ∷ l) (map_id xs)

module _ {A : Type 0} where
  any-head : (p : A → Bool) (xs : List A) (x : A) → Memᴰ x xs → p x ≡ true → any p xs ≡ true
  any-head p [] x m t = elim m [ ]
  any-head p (y ∷ xs) x (Memᴰ.head same) t = let here = sym (ap p same) ∙ t in ground arith
  any-head p (y ∷ xs) x (Memᴰ.tail m) t = let rest = any-head p xs x m t in ground arith

protected_first :
    (m : Matching) (safety : SafetyPolicy) (f : ProposedFile) (files : List ProposedFile)
    → is_empty (protected_pattern_matches m safety (f ∷ files)) ≡ (
        is_empty (keep (matches_content m f.content) safety.protected_patterns)
        && is_empty (protected_pattern_matches m safety files))
unfolding protected_pattern_matches
protected_first m safety f files =
    let here = keep (matches_content m f.content) safety.protected_patterns in
    let pairs = map {B = Text × Text} (λ (p : Text). (normalize_path f.path, p)) here in
    append-is_empty {A = Text × Text} pairs (protected_pattern_matches m safety files)
    ∙ ap (λ b. b && is_empty (protected_pattern_matches m safety files))
        (map-is_empty {B = Text × Text} (λ (p : Text). (normalize_path f.path, p)) here)

kept-same :
    (p : Text → Bool) (xs : List Text) → is_empty (keep p (map (λ x. x) xs)) ≡ is_empty (keep p xs)
kept-same p xs = ap (λ l. is_empty (keep p l)) (map_id xs)

protected-found :
    (m : Matching) (safety : SafetyPolicy) (files : List ProposedFile)
    → not (is_empty (protected_pattern_matches m safety files)) ≡ true
    → (file : ProposedFile) × (entry : Text) × Memᴰ file files
      × Memᴰ entry safety.protected_patterns
      × (matches_content m file.content entry ≡ true)
unfolding protected_pattern_matches
protected-found m safety [] h = cc
protected-found m safety (f ∷ files) h =
    let h1 = sym (ap not (protected_first m safety f files)) ∙ h in
    elim (Bool-cases (is_empty (keep (matches_content m f.content) safety.protected_patterns))) [
      | inr some_pattern ↦
          let (entry, here, t) =
            kept-found (matches_content m f.content) (λ (x : Text). x) safety.protected_patterns
              (ap not (
                kept-same (matches_content m f.content) safety.protected_patterns
                ∙ some_pattern)) in
          (f, entry, Memᴰ.head refl, here, t)
      | inl none_here ↦
          let (g, entry, below, here, t) = protected-found m safety files (rw none_here at h1) in
          (g, entry, Memᴰ.tail below, here, t)
    ]

found-protected :
    (m : Matching) (safety : SafetyPolicy) (files : List ProposedFile) (file : ProposedFile)
    (entry : Text)
    → Memᴰ file files
    → Memᴰ entry safety.protected_patterns
    → matches_content m file.content entry ≡ true
    → not (is_empty (protected_pattern_matches m safety files)) ≡ true
found-protected m safety [] file entry below here t = elim below [ ]
found-protected m safety (f ∷ files) file entry (Memᴰ.head same) here t =
    let passes = sym (ap (λ (g : ProposedFile). matches_content m g.content entry) same) ∙ t in
    let kept =
      found-kept (matches_content m f.content) (λ (x : Text). x) safety.protected_patterns entry
        here passes in
    let kept' =
      sym (ap not (kept-same (matches_content m f.content) safety.protected_patterns)) ∙ kept in
    ap not (protected_first m safety f files) ∙ first_of _ _ kept'
  where
    first_of : (a b : Bool) → not a ≡ true → not (a && b) ≡ true
    first_of a b h = ground arith
found-protected m safety (f ∷ files) file entry (Memᴰ.tail below) here t =
    ap not (protected_first m safety f files)
    ∙ second_of _ _ (found-protected m safety files file entry below here t)
  where
    second_of : (a b : Bool) → not b ≡ true → not (a && b) ≡ true
    second_of a b h = ground arith

IsGuarded-iff :
    (m : Matching) (safety : SafetyPolicy) (files : List ProposedFile)
    → (is_guarded m safety files ≡ true) ↔ IsGuarded m safety files
unfolding touched_sensitive_paths
IsGuarded-iff m safety files = (forth, back)
  where
    or_true : (a b : Bool) → (a || b) ≡ true → (a ≡ true) ⊎ (b ≡ true)
    or_true a b h = ground arith

    left_true : (a b : Bool) → a ≡ true → (a || b) ≡ true
    left_true a b h = ground arith

    right_true : (a b : Bool) → b ≡ true → (a || b) ≡ true
    right_true a b h = ground arith

    touches : Text → Bool
    touches path = any (matches_path path) safety.sensitive_paths

    forth : is_guarded m safety files ≡ true → IsGuarded m safety files
    forth h = elim (or_true _ _ h) [
      | inl touched ↦
          let (file, below, t) =
            kept-found touches (λ (f : ProposedFile). normalize_path f.path) files touched in
          let (entry, listed, e) =
            any-Memᴰ (matches_path (normalize_path file.path)) safety.sensitive_paths t in
          sensitive file entry below listed e
      | inr matched ↦
          let (file, entry, below, listed, e) = protected-found m safety files matched in
          protected file entry below listed e
    ]

    back : IsGuarded m safety files → is_guarded m safety files ≡ true
    back (sensitive file entry below listed e) = left_true _ _ (
        found-kept touches (λ (f : ProposedFile). normalize_path f.path) files file below
          (any-head (matches_path (normalize_path file.path)) safety.sensitive_paths entry listed
            e))
    back (protected file entry below listed e) =
        right_true _ _ (found-protected m safety files file entry below listed e)

patch_decision :
    (m : Matching) (manifest : Manifest) (files : List ProposedFile) (allow_sensitive : Bool)
    → ((evaluate_patch_policy m manifest files allow_sensitive).requires_approval
        ≡ is_guarded m (read_safety_policy m.engine manifest) files)
      × ((evaluate_patch_policy m manifest files allow_sensitive).allowed
          ≡ (not (is_guarded m (read_safety_policy m.engine manifest) files) || allow_sensitive))
unfolding evaluate_patch_policy
patch_decision m manifest files true =
    elim (Bool-cases (is_guarded m (read_safety_policy m.engine manifest) files)) [
      | inl guarded ↦ rw guarded (refl, refl)
      | inr free ↦ rw free (refl, refl)
    ]
patch_decision m manifest files false =
    elim (Bool-cases (is_guarded m (read_safety_policy m.engine manifest) files)) [
      | inl guarded ↦ rw guarded (refl, refl)
      | inr free ↦ rw free (refl, refl)
    ]

-- A patch requires approval exactly if it is guarded: the normalized path of a file matches a sensitive
-- path, or its content matches a protected pattern. It is refused exactly if it is guarded and sensitive
-- changes are not allowed.
pub evaluate_patch_policy_iff :
    (m : Matching) (manifest : Manifest) (files : List ProposedFile) (allow_sensitive : Bool)
    → (((evaluate_patch_policy m manifest files allow_sensitive).requires_approval ≡ true)
        ↔ IsGuarded m (read_safety_policy m.engine manifest) files)
      × (((evaluate_patch_policy m manifest files allow_sensitive).allowed ≡ false)
          ↔ (IsGuarded m (read_safety_policy m.engine manifest) files × (allow_sensitive ≡ false)))
evaluate_patch_policy_iff m manifest files allow_sensitive =
    let (approval, allowance) = patch_decision m manifest files allow_sensitive in
    let (g, g') = IsGuarded-iff m (read_safety_policy m.engine manifest) files in
    (
      ((λ h. g (sym approval ∙ h)), (λ w. approval ∙ g' w)),
      (
        (λ h. let (a, b) = refused _ _ (sym allowance ∙ h) in (g a, b)),
        (λ w. allowance ∙ refuse _ _ (g' (w.0)) (w.1)),
      ),
    )
  where
    refused : (a b : Bool) → (not a || b) ≡ false → (a ≡ true) × (b ≡ false)
    refused a b h = ground arith

    refuse : (a b : Bool) → a ≡ true → b ≡ false → (not a || b) ≡ false
    refuse a b h k = ground arith
