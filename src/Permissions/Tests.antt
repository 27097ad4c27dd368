-- ===== src/Permissions/Tests.antt =====
-- Runs of the policy, and the theorems at inputs (packages/core/src/permissions/policy.ts).
use token_streaming.Common.{contains, ℕ, zero, suc, ◌≡◌, ◌↔◌, refl, true, false, none, [], ◌∷◌}
use token_streaming.Js.{undefined, str, ref, Object, array, plain}
use token_streaming.Js.Texts.{trim, text_eq, text, to_lower}
use token_streaming.Permissions.Policy.{
  Matching, Manifest, ProposedFile, Risk, read_safety_policy, string_array, normalize_path,
  matches_normal, matches_path, matches_content,
}
use token_streaming.Permissions.Patching.{
  evaluate_patch_policy, touched_sensitive_paths, protected_pattern_matches,
}
use token_streaming.Permissions.Running.{
  evaluate_command_policy, evaluate_test_run_policy, evaluate_tool_policy, find_match,
  first_commands, list_declared_test_commands, requested_command,
}
use token_streaming.Permissions.Commands.{
  IsAbsent, evaluate_command_policy_iff, blank_entries_allow, IsDeclaredTest,
  evaluate_test_run_policy-IsDeclaredTest,
}
use token_streaming.Permissions.Patches.{IsGuarded, evaluate_patch_policy_iff}
use token_streaming.Permissions.Declared.{
  IsDistinct, listed_commands, list_declared_test_commands-IsDistinct,
}
use token_streaming.Marketplace.Supplier.Rules.{is_empty}
use token_streaming.Marketplace.Code.{code}

-- The lists of a safety section, one with an empty entry at the head of both command lists.
unfoldable heap : ℕ → Object
unfolding text
heap zero = plain (
    (text "sensitive_paths", ref 1)
    ∷ (text "forbidden_commands", ref 2)
    ∷ (text "approval_required_commands", ref 3)
    ∷ (text "protected_patterns", ref 4)
    ∷ [])
heap (suc zero) = array (str (text ".github/*") ∷ [])
heap (suc (suc zero)) = array (str (text "rm -rf") ∷ [])
heap (suc (suc (suc zero))) = array (str (text "git push") ∷ [])
heap (suc (suc (suc (suc zero)))) = array (str (text "SECRET") ∷ [])
heap (suc (suc (suc (suc (suc zero))))) =
    plain ((text "forbidden_commands", ref 6) ∷ (text "approval_required_commands", ref 7) ∷ [])
heap (suc (suc (suc (suc (suc (suc zero)))))) = array (str [] ∷ str (text "rm -rf") ∷ [])
heap (suc (suc (suc (suc (suc (suc (suc zero))))))) = array (str [] ∷ str (text "git push") ∷ [])
heap (suc (suc (suc (suc (suc (suc (suc (suc n)))))))) =
    plain ((text "command", str (text "npm test")) ∷ [])

-- No pattern is a regular expression here, so contents are searched for the pattern itself.
abbrev searching : Matching
searching = record {
  engine = record { heap = heap; date_parse = λ s. none };
  lower = to_lower;
  regexp = λ s. none;
}

unfoldable careful : Manifest
unfolding text
careful = record {
  safety = ref 0;
  tests = undefined;
  modules = (text "npm test" ∷ []) ∷ [];
  workflows = [];
}

unfoldable careless : Manifest
careless = record { safety = ref 5; tests = undefined; modules = []; workflows = [] }

unfoldable workflow : ProposedFile
unfolding text
workflow = record { path = text ".\\.github\\build.yml"; content = text "on: push" }

removal_refused : (evaluate_command_policy searching careful (text " RM -RF build")).allowed ≡ false
unfolding code heap careful string_array normalize_path read_safety_policy find_match
    evaluate_command_policy
removal_refused = refl

evaluate_command_policy_iff_example :
    ((evaluate_command_policy searching careful (text "npm test")).allowed ≡ true) ↔ (
      IsAbsent searching
        (text "npm test")
        (read_safety_policy searching.engine careful).forbidden_commands
      × IsAbsent searching
          (text "npm test")
          (read_safety_policy searching.engine careful).approval_required_commands)
unfolding code heap careful string_array normalize_path read_safety_policy
evaluate_command_policy_iff_example =
    evaluate_command_policy_iff searching careful (text "npm test") refl refl

blank_entries_allow_example :
    (evaluate_command_policy searching careless (text "rm -rf /")).allowed ≡ true
unfolding code heap careless string_array normalize_path read_safety_policy
blank_entries_allow_example =
    blank_entries_allow searching careless (text "rm -rf /") (text "rm -rf" ∷ [])
      (text "git push" ∷ []) refl refl refl

evaluate_test_run_policy-IsDeclaredTest_example : IsDeclaredTest searching careful (ref 8)
unfolding code heap careful string_array normalize_path read_safety_policy find_match
    evaluate_command_policy requested_command first_commands list_declared_test_commands
    evaluate_test_run_policy
evaluate_test_run_policy-IsDeclaredTest_example =
    evaluate_test_run_policy-IsDeclaredTest searching careful (ref 8) refl

workflow_refused : (evaluate_patch_policy searching careful (workflow ∷ []) false).allowed ≡ false
unfolding code heap careful workflow string_array normalize_path read_safety_policy matches_normal
    matches_path matches_content touched_sensitive_paths protected_pattern_matches
    evaluate_patch_policy
workflow_refused = refl

evaluate_patch_policy_iff_example :
    (((evaluate_patch_policy searching careful (workflow ∷ []) false).requires_approval ≡ true)
      ↔ IsGuarded searching (read_safety_policy searching.engine careful) (workflow ∷ []))
    × (((evaluate_patch_policy searching careful (workflow ∷ []) false).allowed ≡ false) ↔ (
        IsGuarded searching (read_safety_policy searching.engine careful) (workflow ∷ [])
        × (false ≡ false)))
evaluate_patch_policy_iff_example =
    evaluate_patch_policy_iff searching careful (workflow ∷ []) false

writing_refused : (evaluate_tool_policy (text "patch.apply") Risk.write).allowed ≡ false
unfolding evaluate_tool_policy
writing_refused = refl

list_declared_test_commands-IsDistinct_example :
    IsDistinct (list_declared_test_commands searching.engine careful)
    × ((contains (list_declared_test_commands searching.engine careful) (text "npm test") ≡ true)
        ↔ ((contains (listed_commands searching.engine careful) (text "npm test") ≡ true)
            × (is_empty (trim (text "npm test")) ≡ false)))
list_declared_test_commands-IsDistinct_example =
    list_declared_test_commands-IsDistinct searching.engine careful (text "npm test")
