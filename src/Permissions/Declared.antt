-- ===== src/Permissions/Declared.antt =====
-- Which test commands a manifest declares (packages/core/src/permissions/policy.ts).
use token_streaming.Common.{
  ◌≡◌, ◌↔◌, refl, sym, ap, ◌∙◌, Bool, true, false, not, ◌&&◌, inl, inr, List, [], ◌∷◌, ◌++◌,
  contains, ◌==◌, Bool-cases, arith,
}
use token_streaming.Js.{Engine, get}
use token_streaming.Js.Texts.{Text, text, text_eq, text_beq_iff, trim}
use token_streaming.Marketplace.Supplier.Rules.{is_empty}
use token_streaming.Permissions.Policy.{Manifest, string_array}
use token_streaming.Permissions.Running.{first_commands, join, list_declared_test_commands}

-- No element stands in the list twice.
abbrev pub IsDistinct : List Text → Type 0
IsDistinct [] = Unit
IsDistinct (c ∷ commands) = (contains commands c ≡ false) × IsDistinct commands

-- Everything that a manifest lists, in the order of the source.
abbrev pub listed_commands : Engine → Manifest → List Text
listed_commands js manifest =
    string_array js (get js manifest.tests (text "default"))
    ++ (join manifest.modules ++ join manifest.workflows)

abbrev is_new : List Text → Text → Bool
is_new earlier c = not (is_empty (trim c)) && not (contains earlier c)

same_test : (c : Text) → (c == c) ≡ true
same_test c = (text_beq_iff c c).1 refl

contains-first_commands :
    (earlier commands : List Text) (c : Text)
    → contains (first_commands earlier commands) c ≡ (contains commands c && is_new earlier c)
unfolding first_commands
contains-first_commands earlier [] c = refl
contains-first_commands earlier (x ∷ commands) c =
    let rest = contains-first_commands (x ∷ earlier) commands c in
    elim (Bool-cases (x == c)) [
      | inl same ↦
          let moved = ap (is_new earlier) ((text_beq_iff x c).0 same) in
          elim (Bool-cases (is_new earlier x)) [
            | inl kept ↦ rw kept (ground arith)
            | inr dropped ↦ rw dropped (ground arith)
          ]
      | inr other ↦ elim (Bool-cases (is_new earlier x)) [
        | inl kept ↦ rw kept (ground arith)
        | inr dropped ↦ rw dropped (ground arith)
      ]
    ]

first_commands-IsDistinct :
    (earlier commands : List Text) → IsDistinct (first_commands earlier commands)
unfolding first_commands
first_commands-IsDistinct earlier [] = tt
first_commands-IsDistinct earlier (x ∷ commands) =
    let rest = first_commands-IsDistinct (x ∷ earlier) commands in
    let once = contains-first_commands (x ∷ earlier) commands x in
    let self = same_test x in
    elim (Bool-cases (is_new earlier x)) [
      | inl kept ↦ rw kept (ground arith, rest)
      | inr dropped ↦ rw dropped rest
    ]

-- The declared test commands are the commands that the manifest lists anywhere and that are not blank,
-- each once.
pub list_declared_test_commands-IsDistinct :
    (js : Engine) (manifest : Manifest) (c : Text)
    → IsDistinct (list_declared_test_commands js manifest)
      × ((contains (list_declared_test_commands js manifest) c ≡ true)
          ↔ ((contains (listed_commands js manifest) c ≡ true) × (is_empty (trim c) ≡ false)))
unfolding list_declared_test_commands
list_declared_test_commands-IsDistinct js manifest c =
    let listed = contains-first_commands [] (listed_commands js manifest) c in
    (
      first_commands-IsDistinct [] (listed_commands js manifest),
      ((λ h. split _ _ (sym listed ∙ h)), (λ w. listed ∙ joined _ _ (w.0) (w.1))),
    )
  where
    split : (a b : Bool) → (a && (not b && true)) ≡ true → (a ≡ true) × (b ≡ false)
    split a b h = ground arith

    joined : (a b : Bool) → a ≡ true → b ≡ false → (a && (not b && true)) ≡ true
    joined a b h k = ground arith
