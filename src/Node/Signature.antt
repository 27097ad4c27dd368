-- ===== src/Node/Signature.antt =====
-- apps/supplier-node/src/signature.ts, with the payloads of packages/protocol/src/supplier-gateway.ts:
-- which calls of the gateway a node takes as signed. SHA-256 and HMAC are those of the journal's
-- `Setup`. The guard is the one that runtime.ts makes, with a journal.

pub mod Payload
pub mod Checked
pub mod Kept
pub mod Verified
mod Tests
use token_streaming.Common.{
  ℕ, zero, suc, ◌+◌, ◌-◌, ◌*◌, Bool, true, false, not, ◌&&◌, ◌||◌, Option, none, some, List, [],
  ◌∷◌, ◌++◌, all, length, ltb, leb, nat_eq, ◌==◌, if◌then◌else◌, is_some,
}
use token_streaming.Common.Outcome.{Outcome, ok, err, throw_if, ◌>>=◌, ◌>>◌}
use token_streaming.Js.{max_safe}
use token_streaming.Js.Texts.{Text, text, text_eq, starts_with, is_digit, is_alnum}
use token_streaming.Js.Decimal.{read}
use token_streaming.Js.Maps.{lookup, set, prune_map}
use token_streaming.Node.Errors.{
  Thrown, coded, refusal, authentication_failed, invalid_request, request_expired,
  signature_invalid, replay_detected, capacity_exceeded,
}
use token_streaming.Node.Journal.File.{Setup, Journal, Disk}
use token_streaming.Node.Journal.{claim_nonce}
use token_streaming.Node.Journal.Records.{is_sha256}

pub record SignedGatewayCall : Type 0 where
  pub authorization : Option Text
  pub timestamp : Option Text
  pub nonce : Option Text
  pub job_id : Option Text
  pub signature : Option Text
  pub raw_body : Text

-- `SupplierGatewaySignatureInput`
pub record SignatureInput : Type 0 where
  pub timestamp : Text
  pub nonce : Text
  pub job_id : Text
  pub body_sha256 : Text

-- `createSupplierGatewaySignaturePayload`
unfoldable pub signature_payload : SignatureInput → Text
signature_payload input =
    input.timestamp ++ (10 ∷ input.nonce ++ (10 ∷ input.job_id ++ (10 ∷ input.body_sha256)))

unfoldable pub create_gateway_signature : Setup → SignatureInput → Text
create_gateway_signature s input = s.hmac s.gateway_token (signature_payload input)

-- `value.slice(7)` of a text that starts with seven more units.
abbrev pub drop : ℕ → Text → Text
drop zero s = s
drop (suc n) [] = []
drop (suc n) (c ∷ s) = drop n s

-- `parseBearer`
unfoldable pub parse_bearer : Option Text → Outcome Thrown Text
unfolding text
parse_bearer none = err (refusal authentication_failed 401)
parse_bearer (some value) = do
  throw_if (not (starts_with value (text "Bearer "))) (refusal authentication_failed 401)
  let token = drop 7 value
  throw_if (length token == 0 || ltb 4_096 (length token)) (refusal authentication_failed 401)
  ok token

-- `/^\d{13}$/`
unfoldable pub is_timestamp : Text → Bool
is_timestamp value = all is_digit value && length value == 13

-- `[A-Za-z0-9_-]`
abbrev pub is_url_unit : ℕ → Bool
is_url_unit c = is_alnum c || c == b'_' || c == b'-'

-- `/^[A-Za-z0-9_-]{16,128}$/`
unfoldable pub is_nonce : Text → Bool
is_nonce value = all is_url_unit value && leb 16 (length value) && leb (length value) 128

-- `[A-Za-z0-9._:-]`
abbrev pub is_job_unit : ℕ → Bool
is_job_unit c = is_url_unit c || c == b'.' || c == b':'

-- `/^[A-Za-z0-9][A-Za-z0-9._:-]{7,255}$/`
unfoldable pub is_job_id : Text → Bool
is_job_id [] = false
is_job_id (c ∷ rest) =
    is_alnum c && all is_job_unit rest && leb 7 (length rest) && leb (length rest) 255

-- `requiredPattern`
unfoldable pub required_pattern : Option Text → (Text → Bool) → Outcome Thrown Text
required_pattern none pattern = err (refusal invalid_request 400)
required_pattern (some value) pattern = do
  throw_if (not (pattern value)) (refusal invalid_request 400)
  ok value

-- `safeTextEqual`: the digests are compared.
unfoldable pub safe_text_equal : Setup → Text → Text → Bool
safe_text_equal s left right = s.sha256 left == s.sha256 right

-- The part of `verifySignedGatewayCall` before the guard.
unfoldable pub check_call : Setup → SignedGatewayCall → Outcome Thrown SignatureInput
check_call s call = do
  bearer ← parse_bearer call.authorization
  throw_if (not (safe_text_equal s bearer s.gateway_token)) (refusal authentication_failed 401)
  timestamp ← required_pattern call.timestamp is_timestamp
  nonce ← required_pattern call.nonce is_nonce
  job_id ← required_pattern call.job_id is_job_id
  signature ← required_pattern call.signature is_sha256
  throw_if (not (leb (read timestamp) max_safe)) (refusal request_expired 401)
  let input : SignatureInput = record {
    timestamp = timestamp;
    nonce = nonce;
    job_id = job_id;
    body_sha256 = s.sha256 call.raw_body;
  }
  throw_if (not (safe_text_equal s signature (create_gateway_signature s input)))
      (refusal signature_invalid 401)
  ok input

-- The guard's map, and its journal.
pub record Guard : Type 0 where
  pub seen : List (Text × ℕ)
  pub journal : Journal

-- `replayWindowMs`, `maximumEntries`
abbrev pub replay_window : ℕ
replay_window = 5 * 60_000

abbrev pub maximum_entries : ℕ
maximum_entries = 10_000

-- `Math.abs(a - b)`
abbrev pub distance : ℕ → ℕ → ℕ
distance a b = (a - b) + (b - a)

-- What the guard does with the outcome of the journal.
abbrev pub guard_claimed :
    Text → ℕ → Guard → Journal × Outcome Thrown (Unit {0}) → Guard × Outcome Thrown (Unit {0})
guard_claimed nonce expires_at g (j, ok _) =
    (record { seen = set nonce expires_at g.seen; journal = j }, ok tt)
guard_claimed nonce expires_at g (j, err e) = (record { seen = g.seen; journal = j }, err e)

-- `verifyAndRecord`
unfoldable pub verify_and_record :
    Setup → Disk → Text → ℕ → ℕ → Guard → Guard × Outcome Thrown (Unit {0})
verify_and_record s disk nonce timestamp now g =
    let pruned = record g { seen = prune_map (λ e. e) now g.seen } in
    if ltb replay_window (distance now timestamp)
    then (pruned, err (refusal request_expired 401))
    else if is_some (lookup nonce pruned.seen)
    then (pruned, err (refusal replay_detected 409))
    else if leb maximum_entries (length pruned.seen)
    then (pruned, err (coded (record { code = capacity_exceeded; status = 503; retryable = true })))
    else guard_claimed nonce (timestamp + replay_window) pruned
        (claim_nonce s disk nonce (timestamp + replay_window) now g.journal)

abbrev pub and_return {ℓ} :
    {A : Type ℓ} → A → Guard × Outcome Thrown (Unit {0}) → Guard × Outcome Thrown A
and_return value (g, ok _) = (g, ok value)
and_return value (g, err e) = (g, err e)

abbrev pub verify_checked :
    Setup → Disk → Outcome Thrown SignatureInput → ℕ → Guard → Guard × Outcome Thrown SignatureInput
verify_checked s disk (err e) now g = (g, err e)
verify_checked s disk (ok input) now g =
    and_return input (verify_and_record s disk input.nonce (read input.timestamp) now g)

-- `verifySignedGatewayCall`; the caller reads the job and the body's digest of the input.
unfoldable pub verify_signed_gateway_call :
    Setup → Disk → SignedGatewayCall → ℕ → Guard → Guard × Outcome Thrown SignatureInput
verify_signed_gateway_call s disk call now g = verify_checked s disk (check_call s call) now g
