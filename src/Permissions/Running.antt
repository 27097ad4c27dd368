-- ===== src/Permissions/Running.antt =====
-- packages/core/src/permissions/policy.ts: the decisions on commands, test runs and tools.
use token_streaming.Common.{
  Bool, true, false, not, ◌&&◌, Option, none, some, List, [], ◌∷◌, ◌++◌, find, contains,
  if◌then◌else◌,
}
use token_streaming.Js.{Value, str, Engine, get}
use token_streaming.Js.Texts.{Text, text, text_eq, trim, includes}
use token_streaming.Marketplace.Supplier.Rules.{is_empty}
use token_streaming.Permissions.Policy.{
  read, write, execute, Decision, Manifest, Matching, Risk, command, high, low, medium,
  read_safety_policy, string_array, tool,
}

-- The first entry that the command contains.
unfoldable pub find_match : Matching → Text → List Text → Option Text
find_match m normalized entries = find (λ entry. includes normalized (m.lower entry)) entries

-- `if (match)`: an entry that is found and not empty.
abbrev pub is_match : Option Text → Bool
is_match none = false
is_match (some entry) = not (is_empty entry)

abbrev pub found_text : Option Text → Text
found_text none = []
found_text (some entry) = entry

unfoldable pub evaluate_command_policy : Matching → Manifest → Text → Decision
evaluate_command_policy m manifest action =
    let safety = read_safety_policy m.engine manifest in
    let normalized = m.lower (trim action) in
    let forbidden = find_match m normalized safety.forbidden_commands in
    let approval = find_match m normalized safety.approval_required_commands in
    if is_match forbidden
    then record {
      target = command;
      action = action;
      allowed = false;
      severity = high;
      reasons = (text "Command matches forbidden pattern: " ++ found_text forbidden) ∷ [];
      requires_approval = false;
    }
    else if is_match approval
    then record {
      target = command;
      action = action;
      allowed = false;
      severity = medium;
      reasons = (text "Command requires approval pattern: " ++ found_text approval) ∷ [];
      requires_approval = true;
    }
    else record {
      target = command;
      action = action;
      allowed = true;
      severity = low;
      reasons = [];
      requires_approval = false;
    }

-- `filter` by `indexOf(command) === index`: no earlier element is the same.
unfoldable pub first_commands : List Text → List Text → List Text
first_commands earlier [] = []
first_commands earlier (c ∷ commands) =
    let rest = first_commands (c ∷ earlier) commands in
    if not (is_empty (trim c)) && not (contains earlier c) then c ∷ rest else rest

abbrev pub join : List (List Text) → List Text
join [] = []
join (xs ∷ xss) = xs ++ join xss

unfoldable pub list_declared_test_commands : Engine → Manifest → List Text
list_declared_test_commands js manifest = first_commands [] (
    string_array js (get js manifest.tests (text "default"))
    ++ (join manifest.modules ++ join manifest.workflows))

abbrev pub refuse_test : Text → Decision
refuse_test reason = record {
  target = tool;
  action = text "test.run";
  allowed = false;
  severity = medium;
  reasons = reason ∷ [];
  requires_approval = false;
}

-- `input.command` where it is a text that is not blank.
unfoldable pub requested_command : Value → Option Text
requested_command (str s) = if is_empty (trim s) then none else some s
requested_command _ = none

unfoldable pub evaluate_test_run_policy : Matching → Manifest → Value → Decision
evaluate_test_run_policy m manifest input =
    elim (requested_command (get m.engine input (text "command"))) [
      | none ↦ refuse_test (text "Tool input requires non-empty string field \"command\".")
      | some c ↦
          let decision = evaluate_command_policy m manifest c in
          if not (contains (list_declared_test_commands m.engine manifest) c)
          then refuse_test (
              text "Test command is not declared in .ai/tests.yaml, module.yaml, or flow.yaml: "
              ++ c)
          else if not decision.allowed
          then record decision { target = tool; action = text "test.run" }
          else record {
            target = tool;
            action = text "test.run";
            allowed = true;
            severity = medium;
            reasons = (text "Manifest-declared test command approved: " ++ c) ∷ [];
            requires_approval = false;
          }
    ]

abbrev pub risk_text : Risk → Text
risk_text read = text "read"
risk_text write = text "write"
risk_text execute = text "execute"

abbrev pub is_read : Risk → Bool
is_read read = true
is_read _ = false

abbrev pub is_write : Risk → Bool
is_write write = true
is_write _ = false

unfoldable pub evaluate_tool_policy : Text → Risk → Decision
evaluate_tool_policy name risk =
    if is_read risk
    then record {
      target = tool;
      action = name;
      allowed = true;
      severity = low;
      reasons = [];
      requires_approval = false;
    }
    else record {
      target = tool;
      action = name;
      allowed = false;
      severity = if is_write risk then high else medium;
      reasons =
          ((text "Tool risk \"" ++ risk_text risk)
            ++ text "\" must pass through runtime permission boundaries.")
          ∷ [];
      requires_approval = true;
    }
