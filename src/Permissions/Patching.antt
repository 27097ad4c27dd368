-- ===== src/Permissions/Patching.antt =====
-- packages/core/src/permissions/policy.ts: `evaluatePatchPolicy`.
use token_streaming.Common.{
  Bool, true, false, not, ◌&&◌, ◌||◌, List, [], ◌∷◌, ◌++◌, map, any, keep, if◌then◌else◌,
}
use token_streaming.Js.Texts.{Text, text, text_eq}
use token_streaming.Marketplace.Supplier.Rules.{is_empty}
use token_streaming.Permissions.Policy.{
  Decision, Manifest, Matching, ProposedFile, SafetyPolicy, high, low, matches_content,
  matches_path, normalize_path, patch, read_safety_policy,
}

unfoldable pub touched_sensitive_paths : SafetyPolicy → List ProposedFile → List Text
touched_sensitive_paths safety files =
    keep (λ path. any (matches_path path) safety.sensitive_paths)
      (map (λ (f : ProposedFile). normalize_path f.path) files)

-- The pairs of a path and a pattern.
unfoldable pub protected_pattern_matches :
    Matching → SafetyPolicy → List ProposedFile → List (Text × Text)
protected_pattern_matches m safety [] = []
protected_pattern_matches m safety (f ∷ files) =
    map (λ p. (normalize_path f.path, p))
      (keep (matches_content m f.content) safety.protected_patterns)
    ++ protected_pattern_matches m safety files

abbrev pub touching : Text → Text
touching path = text "Patch touches sensitive path: " ++ path

abbrev pub matching : Text × Text → Text
matching (path, p) =
    (text "Patch content in " ++ path) ++ (text " matches protected pattern: " ++ p)

abbrev pub approved_path : Text → Text
approved_path path = text "Sensitive path approved: " ++ path

abbrev pub approved_match : Text × Text → Text
approved_match (path, p) = (text "Protected pattern approved in " ++ path) ++ (text ": " ++ p)

-- `allow_sensitive` is `options.allowSensitive` as a condition.
unfoldable pub evaluate_patch_policy : Matching → Manifest → List ProposedFile → Bool → Decision
evaluate_patch_policy m manifest files allow_sensitive =
    let safety = read_safety_policy m.engine manifest in
    let paths = touched_sensitive_paths safety files in
    let matches = protected_pattern_matches m safety files in
    let requires_approval = not (is_empty paths) || not (is_empty matches) in
    if requires_approval && not allow_sensitive
    then record {
      target = patch;
      action = text "apply patch proposal";
      allowed = false;
      severity = high;
      reasons = map touching paths ++ map matching matches;
      requires_approval = true;
    }
    else record {
      target = patch;
      action = text "apply patch proposal";
      allowed = true;
      severity = if requires_approval then high else low;
      reasons =
          if requires_approval then map approved_path paths ++ map approved_match matches else [];
      requires_approval = requires_approval;
    }
