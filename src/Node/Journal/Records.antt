-- ===== src/Node/Journal/Records.antt =====
-- `parseRecord` of apps/supplier-node/src/replay-journal.ts.
use token_streaming.Common.{
  ℕ, Bool, true, false, ◌&&◌, ◌||◌, Option, none, some, all, length, nat_eq, ◌==◌, if◌then◌else◌,
}
use token_streaming.Js.Texts.{Text, text, text_eq}
use token_streaming.Js.Json.{Json, object, Fields, keys, property, as_text, as_natural}
use token_streaming.Marketplace.Evidence.{is_hex_unit}

-- What a request record says of the body: version 1 holds its digest, version 2 a commitment.
pub data Commitment : Type 0 where
  body_sha256 body_commitment : Text → Commitment

pub data Record : Type 0 where
  nonce : (key : Text) → (expires_at : ℕ) → Record
  request : (key : Text) → Commitment → (expires_at : ℕ) → Record

-- `/^[a-f0-9]{64}$/`
unfoldable pub is_sha256 : Text → Bool
unfolding is_hex_unit
is_sha256 s = all is_hex_unit s && length s == 64

-- `typeof value === "string"` and the pattern.
unfoldable pub as_sha256 : Option Json → Option Text
as_sha256 value = elim (as_text value) [
  | none ↦ none
  | some s ↦ if is_sha256 s then some s else none
]

-- The version, 1 or 2.
unfoldable pub as_version : Option Json → Option ℕ
as_version value = elim (as_natural value) [
  | none ↦ none
  | some n ↦ if n == 1 || n == 2 then some n else none
]

infixl 5 ◌>>=◌ ◌>>◌
abbrev pub ◌>>=◌ {ℓ κ} : {A : Type ℓ} {B : Type κ} → Option A → (A → Option B) → Option B
none >>= next = none
some a >>= next = next a

-- Go on only if a test succeeds.
abbrev pub ◌>>◌ {ℓ} : {A : Type ℓ} → Bool → Option A → Option A
test >> next = if test then next else none

-- The part of `parseRecord` for `kind === "request"`.
unfoldable pub parse_request : Fields → ℕ → Text → ℕ → Option Record
parse_request fields version key expires_at = do
  length (keys fields) == 5
  digest ←
      as_sha256
        (property (if version == 1 then text "bodySha256" else text "bodyCommitment") fields)
  some
      (request key (if version == 1 then body_sha256 digest else body_commitment digest) expires_at)

-- The part of it for each kind.
abbrev pub parse_kind : Fields → ℕ → Text → ℕ → Bool → Option Record
parse_kind fields version key expires_at true = do
  length (keys fields) == 4
  some (nonce key expires_at)
parse_kind fields version key expires_at false = parse_request fields version key expires_at

-- `parseRecord`, `none` where it throws.
unfoldable pub parse_fields : Fields → Option Record
unfolding parse_request
parse_fields fields = do
  version ← as_version (property (text "version") fields)
  kind ← as_text (property (text "kind") fields)
  kind == text "nonce" || kind == text "request"
  key ← as_sha256 (property (text "key") fields)
  expires_at ← as_natural (property (text "expiresAt") fields)
  parse_kind fields version key expires_at (kind == text "nonce")

unfoldable pub parse_record : Json → Option Record
parse_record (object fields) = parse_fields fields
parse_record _ = none
