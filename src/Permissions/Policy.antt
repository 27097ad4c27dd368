-- ===== src/Permissions/Policy.antt =====
-- packages/core/src/permissions/policy.ts: the safety section of a manifest and what its entries match,
-- with the types of packages/protocol/src/types.ts. Lower case and regular expressions are those of the
-- language, on texts that a repository chooses: the record `Matching` holds them.
use token_streaming.Common.{
  Bool, false, ◌&&◌, ◌||◌, Option, none, some, List, [], ◌∷◌, ◌++◌, map, nat_beq, ◌==◌,
  if◌then◌else◌,
}
use token_streaming.Js.{Value, str, ref, array, plain, classed, Engine, get}
use token_streaming.Js.Texts.{
  Text, text, text_eq, trim, includes, starts_with, ends_with, without_last,
}
use token_streaming.Marketplace.Supplier.Rules.{is_empty}

-- `toLowerCase`, and `new RegExp(pattern, "i").test`, `none` where the constructor throws.
pub record Matching : Type 0 where
  pub engine : Engine
  pub lower : Text → Text
  pub regexp : Text → Option (Text → Bool)

pub data Target : Type 0 where
  patch command tool : Target

pub data Severity : Type 0 where
  low medium high : Severity

pub record Decision : Type 0 where
  pub target : Target
  pub action : Text
  pub allowed : Bool
  pub severity : Severity
  pub reasons : List Text
  pub requires_approval : Bool

-- The sections of a `RepoManifest` that the policy reads; `modules` and `workflows` hold the
-- `testCommands` of each.
pub record Manifest : Type 0 where
  pub safety : Value
  pub tests : Value
  pub modules : List (List Text)
  pub workflows : List (List Text)

pub record ProposedFile : Type 0 where
  pub path : Text
  pub content : Text

pub record SafetyPolicy : Type 0 where
  pub sensitive_paths : List Text
  pub forbidden_commands : List Text
  pub approval_required_commands : List Text
  pub protected_patterns : List Text

pub data Risk : Type 0 where
  read write execute : Risk

abbrev pub strings : List Value → List Text
strings [] = []
strings (str s ∷ values) = s ∷ strings values
strings (_ ∷ values) = strings values

-- `stringArray`
unfoldable pub string_array : Engine → Value → List Text
string_array js (ref r) = elim (js.heap r) [
  | array values ↦ strings values
  | plain fields ↦ []
  | classed fields ↦ []
]
string_array js _ = []

-- `value.replace(/\\/g, "/")`
abbrev pub forward_slashes : Text → Text
forward_slashes s = map (λ c. if nat_beq c 92 then b'/' else c) s

-- `value.replace(/^\.\//, "")`
abbrev pub without_dot : Text → Text
without_dot [] = []
without_dot (c ∷ []) = c ∷ []
without_dot (c ∷ d ∷ s) = if nat_beq c b'.' && nat_beq d b'/' then s else c ∷ d ∷ s

unfoldable pub normalize_path : Text → Text
normalize_path s = without_dot (forward_slashes s)

unfoldable pub read_safety_policy : Engine → Manifest → SafetyPolicy
read_safety_policy js manifest = record {
  sensitive_paths =
      map normalize_path (string_array js (get js manifest.safety (text "sensitive_paths")));
  forbidden_commands = string_array js (get js manifest.safety (text "forbidden_commands"));
  approval_required_commands =
      string_array js (get js manifest.safety (text "approval_required_commands"));
  protected_patterns = string_array js (get js manifest.safety (text "protected_patterns"));
}

-- `matchesPath` on a pattern that is normalized.
unfoldable pub matches_normal : Text → Text → Bool
matches_normal path pattern_text =
    if ends_with pattern_text b'*'
    then starts_with path (without_last pattern_text)
    else path == pattern_text || starts_with path (pattern_text ++ b'/' ∷ [])

unfoldable pub matches_path : Text → Text → Bool
matches_path path pattern_text = matches_normal path (normalize_path pattern_text)

unfoldable pub matches_content : Matching → Text → Text → Bool
matches_content m content pattern_text =
    if is_empty (trim pattern_text) then false else elim (m.regexp pattern_text) [
      | some test ↦ test content
      | none ↦ includes (m.lower content) (m.lower pattern_text)
    ]
