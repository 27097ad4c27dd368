-- ===== src/Permissions/Commands.antt =====
-- Which commands may run (packages/core/src/permissions/policy.ts).
use token_streaming.Common.{
  ◌≡◌, ◌↔◌, refl, sym, ap, ◌∙◌, Bool, true, false, not, ◌||◌, inl, inr, some, List, [], ◌∷◌, All,
  find, contains, Bool-cases, Option-cases, arith,
}
use token_streaming.Js.{Value, str, get}
use token_streaming.Js.Texts.{Text, text, text_eq, text_beq_iff, trim, includes, starts_with}
use token_streaming.Marketplace.Supplier.Rules.{is_empty}
use token_streaming.Permissions.Policy.{Matching, Manifest, read_safety_policy}
use token_streaming.Permissions.Running.{
  find_match, is_match, evaluate_command_policy, list_declared_test_commands, requested_command,
  evaluate_test_run_policy,
}

-- No entry is found in the command.
abbrev pub IsAbsent : Matching → Text → List Text → Type 0
IsAbsent m action entries =
    All (λ (e : Text). includes (m.lower (trim action)) (m.lower e) ≡ false) entries

module _ (p : Text → Bool) where
  absent_of_find :
      (entries : List Text)
      → contains entries [] ≡ false
      → is_match (find p entries) ≡ false
      → All (λ (e : Text). p e ≡ false) entries
  absent_of_find [] proper h = tt
  absent_of_find ([] ∷ entries) proper h =
      let same = (text_beq_iff [] []).1 refl in absurd (ground arith)
  absent_of_find ((c ∷ s) ∷ entries) proper h = elim (Bool-cases (p (c ∷ s))) [
    | inl found ↦ let bad = rw found at h in cc
    | inr missed ↦ (missed, absent_of_find entries (ground arith) (ground arith))
  ]

  find_of_absent :
      (entries : List Text)
      → All (λ (e : Text). p e ≡ false) entries
      → is_match (find p entries) ≡ false
  find_of_absent [] h = refl
  find_of_absent (e ∷ entries) h = rw (h.0) (find_of_absent entries (h.1))

allowed-cases :
    (m : Matching) (manifest : Manifest) (action : Text)
    → (evaluate_command_policy m manifest action).allowed
      ≡ not (
          is_match (
            find_match m
              (m.lower (trim action))
              (read_safety_policy m.engine manifest).forbidden_commands)
          || is_match (
              find_match m
                (m.lower (trim action))
                (read_safety_policy m.engine manifest).approval_required_commands))
unfolding evaluate_command_policy
allowed-cases m manifest action =
    let safety = read_safety_policy m.engine manifest in
    let normalized = m.lower (trim action) in
    elim (Bool-cases (is_match (find_match m normalized safety.forbidden_commands))) [
      | inl forbidden ↦ rw forbidden refl
      | inr clear ↦
          elim (Bool-cases (is_match (find_match m normalized safety.approval_required_commands))) [
            | inl approval ↦ rw (clear, approval) refl
            | inr free ↦ rw (clear, free) refl
          ]
    ]

both_clear : (a b : Bool) → not (a || b) ≡ true → (a ≡ false) × (b ≡ false)
both_clear a b h = ground arith

clear_both : (a b : Bool) → a ≡ false → b ≡ false → not (a || b) ≡ true
clear_both a b h k = ground arith

-- If no entry of the two lists is empty, a command is allowed exactly if its lower case, without the
-- spaces around it, contains the lower case of no forbidden entry and of no entry that needs approval.
pub evaluate_command_policy_iff :
    (m : Matching) (manifest : Manifest) (action : Text)
    → contains (read_safety_policy m.engine manifest).forbidden_commands [] ≡ false
    → contains (read_safety_policy m.engine manifest).approval_required_commands [] ≡ false
    → ((evaluate_command_policy m manifest action).allowed ≡ true) ↔ (
        IsAbsent m action (read_safety_policy m.engine manifest).forbidden_commands
        × IsAbsent m action (read_safety_policy m.engine manifest).approval_required_commands)
unfolding find_match
evaluate_command_policy_iff m manifest action proper proper' = (forth, back)
  where
    found : Text → Bool
    found e = includes (m.lower (trim action)) (m.lower e)

    forth :
        (evaluate_command_policy m manifest action).allowed ≡ true
        → IsAbsent m action (read_safety_policy m.engine manifest).forbidden_commands
          × IsAbsent m action (read_safety_policy m.engine manifest).approval_required_commands
    forth h =
        let (f, a) = both_clear _ _ (sym (allowed-cases m manifest action) ∙ h) in
        (absent_of_find found _ proper f, absent_of_find found _ proper' a)

    back :
        IsAbsent m action (read_safety_policy m.engine manifest).forbidden_commands
          × IsAbsent m action (read_safety_policy m.engine manifest).approval_required_commands
        → (evaluate_command_policy m manifest action).allowed ≡ true
    back (f, a) =
        allowed-cases m manifest action
        ∙ clear_both _ _ (find_of_absent found _ f) (find_of_absent found _ a)

find-blank :
    (m : Matching) (normalized : Text) (entries : List Text)
    → m.lower [] ≡ []
    → find_match m normalized ([] ∷ entries) ≡ some []
unfolding find_match includes starts_with
find-blank m [] entries h = rw h refl
find-blank m (c ∷ s) entries h = rw h refl

-- An empty entry at the head of both lists switches them off: every command is allowed, whatever the
-- other entries are (where the lower case of the empty text is the empty text).
pub blank_entries_allow :
    (m : Matching) (manifest : Manifest) (action : Text) (forbidden approval : List Text)
    → m.lower [] ≡ []
    → (read_safety_policy m.engine manifest).forbidden_commands ≡ [] ∷ forbidden
    → (read_safety_policy m.engine manifest).approval_required_commands ≡ [] ∷ approval
    → (evaluate_command_policy m manifest action).allowed ≡ true
blank_entries_allow m manifest action forbidden approval lower f a =
    allowed-cases m manifest action
    ∙ rw
        (
          f,
          a,
          find-blank m (m.lower (trim action)) forbidden lower,
          find-blank m (m.lower (trim action)) approval lower,
        )
        refl

-- What a test run needs.
pub record IsDeclaredTest (m : Matching) (manifest : Manifest) (input : Value) : Type 0 where
  pub test : Text
  pub given : get m.engine input (text "command") ≡ str test
  pub not_blank : is_empty (trim test) ≡ false
  pub declared : contains (list_declared_test_commands m.engine manifest) test ≡ true
  pub permitted : (evaluate_command_policy m manifest test).allowed ≡ true

requested :
    (v : Value) (s : Text)
    → requested_command v ≡ some s
    → (v ≡ str s) × (is_empty (trim s) ≡ false)
unfolding requested_command
requested (str t) s h = elim (Bool-cases (is_empty (trim t))) [
  | inl blank ↦ let bad = rw blank at h in cc
  | inr proper ↦
      let same : t ≡ s = ground arith in
      (ap str same, ap (λ u. is_empty (trim u)) (sym same) ∙ proper)
]
requested _ s h = cc

-- A test run is allowed only for a command that is given as a text that is not blank, that the manifest
-- declares, and that the command policy allows.
pub evaluate_test_run_policy-IsDeclaredTest :
    (m : Matching) (manifest : Manifest) (input : Value)
    → (evaluate_test_run_policy m manifest input).allowed ≡ true
    → IsDeclaredTest m manifest input
unfolding evaluate_test_run_policy
evaluate_test_run_policy-IsDeclaredTest m manifest input h =
    elim (Option-cases (requested_command (get m.engine input (text "command")))) [
      | inl missing ↦ let bad = rw (missing, evaluate_test_run_policy) at h in cc
      | inr (c, found) ↦
          let h1 = rw (found, evaluate_test_run_policy) at h in
          let (given, proper) = requested _ c found in
          elim (Bool-cases (contains (list_declared_test_commands m.engine manifest) c)) [
            | inr undeclared ↦ let bad = rw undeclared at h1 in cc
            | inl declared ↦ elim (Bool-cases ((evaluate_command_policy m manifest c).allowed)) [
              | inl permitted ↦ record {
                test = c;
                given = given;
                not_blank = proper;
                declared = declared;
                permitted = permitted;
              }
              | inr refused ↦ let bad = rw (declared, refused) at h1 in cc
            ]
          ]
    ]
