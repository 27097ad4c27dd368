-- ===== src/Marketplace/SafeInput.antt =====
-- packages/marketplace-domain/src/validation.ts, `assertSafeInput`: a walk over the object graph of
-- an input that refuses credential-like keys, non-serialisable values, repeated objects and inputs
-- that are too large or too deep. The paths, which only the messages show, are left out.
pub mod Reached
use token_streaming.Common.{
  ℕ, zero, suc, ◌+◌, ◌≡◌, refl, Bool, true, false, ◌||◌, List, [], ◌∷◌, map, ltb, nat_beq, nat_eq,
  any, contains, keep, not, if◌then◌else◌,
}
use token_streaming.Common.Outcome.{Outcome, ok, err, throw_if, ◌>>=◌, ◌>>◌}
use token_streaming.Js.{
  Number, natural, negative, fraction, non_finite, Value, undefined, null, exotic, bool, num, str,
  ref, Object, array, plain, classed, Engine, entries,
}
use token_streaming.Js.Texts.{Text, text, includes, to_lower}
use token_streaming.Marketplace.Errors.{Result, invalid_argument, credential_material_rejected}

-- `FORBIDDEN_FIELD_FRAGMENTS`
unfoldable pub forbidden_fragments : List Text
forbidden_fragments =
    text "apikey"
    ∷ text "password"
    ∷ text "cookie"
    ∷ text "cookies"
    ∷ text "sessioncookie"
    ∷ text "accesstoken"
    ∷ text "refreshtoken"
    ∷ text "bearertoken"
    ∷ text "clientsecret"
    ∷ text "authorizationheader"
    ∷ text "rawcredential"
    ∷ text "credential"
    ∷ text "privatekey"
    ∷ text "sessiontoken"
    ∷ text "idtoken"
    ∷ text "secret"
    ∷ []

-- `key.replace(/[-_]/g, "").toLowerCase()`
unfoldable pub normalized_key : Text → Text
normalized_key key = to_lower (keep (λ c. not (nat_beq c b'-' || nat_beq c b'_')) key)

unfoldable pub is_forbidden_key : Text → Bool
is_forbidden_key key = any (includes (normalized_key key)) forbidden_fragments

-- An entry of `pending`: a value and its depth.
abbrev pub Pending : Type 0
Pending = Value × ℕ

-- `for (const [key, child] of Object.entries(current.value))`; the head of the list is the top of
-- the stack. Symbols and properties that are not enumerable are no entries.
unfoldable pub push_entries : ℕ → List (Text × Value) → List Pending → Result (List Pending)
push_entries depth [] stack = ok stack
push_entries depth ((key, child) ∷ fields) stack = do
  throw_if (is_forbidden_key key) credential_material_rejected
  push_entries depth fields ((child, depth) ∷ stack)

abbrev pub is_classed : Object → Bool
is_classed (classed fields) = true
is_classed _ = false

-- The loop. `room` is the number of objects that may still be visited, 1000 - `visited`, so that a
-- call visits an object or pops a stack entry: it ends on every graph, also on a cyclic one.
unfoldable pub walk : Engine → List ℕ → ℕ → List Pending → Result (Unit {0})
walk js seen room [] = ok tt
walk js seen room ((undefined, depth) ∷ stack) = walk js seen room stack
walk js seen room ((null, depth) ∷ stack) = walk js seen room stack
walk js seen room ((exotic, depth) ∷ stack) = err invalid_argument
walk js seen room ((bool b, depth) ∷ stack) = walk js seen room stack
walk js seen room ((num non_finite, depth) ∷ stack) = err invalid_argument
walk js seen room ((num n, depth) ∷ stack) = walk js seen room stack
walk js seen room ((str s, depth) ∷ stack) = walk js seen room stack
walk js seen zero ((ref r, depth) ∷ stack) = err invalid_argument
walk js seen (suc room) ((ref r, depth) ∷ stack) = do
  throw_if (contains seen r) invalid_argument
  throw_if (ltb 12 depth) invalid_argument
  throw_if (is_classed (js.heap r)) invalid_argument
  next ← push_entries (depth + 1) (entries (js.heap r)) stack
  walk js (r ∷ seen) room next

unfoldable pub assert_safe_input : Engine → Value → Result (Unit {0})
assert_safe_input js value = walk js [] 1000 ((value, 0) ∷ [])
