-- ===== src/Marketplace/World.antt =====
-- A concrete store, calendar and supplier for the tests; it models no code.
use token_streaming.Common.{ℕ, zero, suc, Option, none, some, List, [], ◌∷◌, if◌then◌else◌, ◌==◌}
use token_streaming.Js.{natural, str, num, ref, Object, array, plain, Engine}
use token_streaming.Js.Texts.{Text, text, text_eq}

abbrev object_at : List Object → ℕ → Object
object_at [] n = plain []
object_at (o ∷ os) zero = o
object_at (o ∷ os) (suc n) = object_at os n

abbrev parse_in : List (Text × ℕ) → Text → Option ℕ
parse_in [] s = none
parse_in ((date, at) ∷ dates) s = if date == s then some at else parse_in dates s

-- Milliseconds from the earliest time value.
unfoldable pub calendar : List (Text × ℕ)
unfolding text
calendar =
    (text "2026-01-01T00:00:00Z", 8641767225600000)
    ∷ (text "2026-01-02T00:00:00Z", 8641767312000000)
    ∷ (text "2026-06-01T00:00:00Z", 8641780272000000)
    ∷ (text "2026-12-31T00:00:00Z", 8641798675200000)
    ∷ []

unfoldable pub objects : List Object
unfolding text
objects =
    plain (
      (text "tenantId", str (text "tenant-1"))
      ∷ (text "actorId", str (text "actor-1"))
      ∷ (text "commandId", str (text "cmd-1"))
      ∷ (text "eventId", str (text "evt-1"))
      ∷ (text "occurredAt", str (text "2026-01-01T00:00:00Z"))
      ∷ [])
    ∷ plain (
        (text "supplierId", str (text "supplier-1"))
        ∷ (text "kind", str (text "individual"))
        ∷ (text "legalName", str (text "Ada L"))
        ∷ (text "displayName", str (text "Ada"))
        ∷ (text "countryCode", str (text "DE"))
        ∷ (text "taxResidenceCountryCode", str (text "DE"))
        ∷ [])
    ∷ plain (
        (text "tenantId", str (text "tenant-1"))
        ∷ (text "actorId", str (text "actor-1"))
        ∷ (text "commandId", str (text "cmd-6"))
        ∷ (text "eventId", str (text "evt-6"))
        ∷ (text "occurredAt", str (text "2026-01-02T00:00:00Z"))
        ∷ [])
    ∷ plain (
        (text "tenantId", str (text "tenant-1"))
        ∷ (text "actorId", str (text "actor-1"))
        ∷ (text "commandId", str (text "cmd-9"))
        ∷ (text "eventId", str (text "evt-9"))
        ∷ (text "occurredAt", str (text "2026-01-02T00:00:00Z"))
        ∷ [])
    ∷ plain (
        (text "offerId", str (text "offer-1"))
        ∷ (text "authorizationId", str (text "auth-1"))
        ∷ (text "providerId", str (text "provider-1"))
        ∷ (text "model", str (text "model-a"))
        ∷ (text "regionCode", str (text "DE"))
        ∷ (text "dataClasses", ref 5)
        ∷ (text "limits", ref 6)
        ∷ (text "currency", str (text "EUR"))
        ∷ (text "rates", ref 7)
        ∷ (text "validFrom", str (text "2026-01-02T00:00:00Z"))
        ∷ (text "validUntil", str (text "2026-06-01T00:00:00Z"))
        ∷ [])
    ∷ array (str (text "P0") ∷ [])
    ∷ plain (
        (text "requestsPerMinute", num (natural 60))
        ∷ (text "tokensPerMinute", num (natural 10000))
        ∷ (text "concurrency", num (natural 2))
        ∷ (text "maxOutputTokens", num (natural 1000))
        ∷ [])
    ∷ array (ref 8 ∷ [])
    ∷ plain ((text "unit", str (text "token")) ∷ (text "amountMicros", str (text "3")) ∷ [])
    ∷ plain (
        (text "requestId", str (text "request-1"))
        ∷ (text "providerId", str (text "provider-1"))
        ∷ (text "requestedModel", str (text "model-a"))
        ∷ (
          text "inputSha256",
          str (text "0123456789abcdef0123456789abcdef0123456789abcdef0123456789abcdef"),
        )
        ∷ (
          text "outputSha256",
          str (text "0123456789abcdef0123456789abcdef0123456789abcdef0123456789abcdef"),
        )
        ∷ (text "usage", ref 11)
        ∷ (text "requestStartedAt", str (text "2026-01-02T00:00:00Z"))
        ∷ (text "verifiedAt", str (text "2026-01-02T00:00:00Z"))
        ∷ [])
    ∷ plain (
        (text "evidence_version", str (text "gongsuanyun.execution-evidence.v1"))
        ∷ (text "request_id", str (text "request-1"))
        ∷ (text "provider_id", str (text "provider-1"))
        ∷ (text "requested_model", str (text "model-a"))
        ∷ (text "served_model", str (text "model-a"))
        ∷ (text "provider_request_id", str (text "up-1"))
        ∷ (
          text "input_sha256",
          str (text "0123456789abcdef0123456789abcdef0123456789abcdef0123456789abcdef"),
        )
        ∷ (
          text "output_sha256",
          str (text "0123456789abcdef0123456789abcdef0123456789abcdef0123456789abcdef"),
        )
        ∷ (text "usage", ref 11)
        ∷ (text "completed_at", str (text "2026-01-02T00:00:00Z"))
        ∷ [])
    ∷ plain (
        (text "input_tokens", num (natural 10))
        ∷ (text "output_tokens", num (natural 5))
        ∷ (text "total_tokens", num (natural 15))
        ∷ [])
    ∷ plain (
        (text "taskId", str (text "task-1"))
        ∷ (text "providerId", str (text "provider-1"))
        ∷ (text "requestedModel", str (text "model-a"))
        ∷ (text "artifactId", str (text "artifact-1"))
        ∷ (
          text "artifactManifestSha256",
          str (text "0123456789abcdef0123456789abcdef0123456789abcdef0123456789abcdef"),
        )
        ∷ (
          text "outputSha256",
          str (text "0123456789abcdef0123456789abcdef0123456789abcdef0123456789abcdef"),
        )
        ∷ (text "usage", ref 11)
        ∷ (text "requestStartedAt", str (text "2026-01-02T00:00:00Z"))
        ∷ (text "verifiedAt", str (text "2026-01-02T00:00:00Z"))
        ∷ [])
    ∷ plain (
        (text "evidence_version", str (text "gongsuanyun.artifact-evidence.v1"))
        ∷ (text "task_id", str (text "task-1"))
        ∷ (text "provider_id", str (text "provider-1"))
        ∷ (text "requested_model", str (text "model-a"))
        ∷ (text "served_model", str (text "model-a"))
        ∷ (text "artifact_id", str (text "artifact-1"))
        ∷ (
          text "artifact_manifest_sha256",
          str (text "0123456789abcdef0123456789abcdef0123456789abcdef0123456789abcdef"),
        )
        ∷ (
          text "artifact_content_sha256",
          str (text "0123456789abcdef0123456789abcdef0123456789abcdef0123456789abcdef"),
        )
        ∷ (
          text "output_sha256",
          str (text "0123456789abcdef0123456789abcdef0123456789abcdef0123456789abcdef"),
        )
        ∷ (
          text "provider_request_ids_sha256",
          str (text "0123456789abcdef0123456789abcdef0123456789abcdef0123456789abcdef"),
        )
        ∷ (text "segments_completed", num (natural 3))
        ∷ (text "usage", ref 11)
        ∷ (text "completed_at", str (text "2026-01-02T00:00:00Z"))
        ∷ [])
    ∷ plain (
        (text "requestId", str (text "request-1"))
        ∷ (text "challenge", str (text "nonce"))
        ∷ (text "providerId", str (text "provider-1"))
        ∷ (text "modelPattern", str (text "model-*"))
        ∷ (text "dataClasses", ref 5)
        ∷ (text "limits", ref 6)
        ∷ [])
    ∷ plain (
        (text "status", str (text "ready"))
        ∷ (text "protocol_version", str (text "gongsuanyun.gateway.v3"))
        ∷ (text "provider_id", str (text "provider-1"))
        ∷ (text "allowed_models", ref 16)
        ∷ (text "allowed_data_classes", ref 5)
        ∷ (text "limits", ref 17)
        ∷ (text "request_id", str (text "request-1"))
        ∷ (text "challenge", str (text "nonce"))
        ∷ [])
    ∷ array (str (text "other") ∷ str (text "model-a") ∷ [])
    ∷ plain (
        (text "requests_per_minute", num (natural 60))
        ∷ (text "tokens_per_minute", num (natural 20000))
        ∷ (text "concurrency", num (natural 2))
        ∷ (text "max_output_tokens", num (natural 1000))
        ∷ [])
    ∷ plain (
        (text "input_tokens", num (natural 10))
        ∷ (text "output_tokens", num (natural 6))
        ∷ (text "total_tokens", num (natural 16))
        ∷ [])
    ∷ plain (
        (text "evidence_version", str (text "gongsuanyun.execution-evidence.v1"))
        ∷ (text "request_id", str (text "request-1"))
        ∷ (text "provider_id", str (text "provider-1"))
        ∷ (text "requested_model", str (text "model-a"))
        ∷ (text "served_model", str (text "model-a"))
        ∷ (text "provider_request_id", str (text "up-1"))
        ∷ (
          text "input_sha256",
          str (text "0123456789abcdef0123456789abcdef0123456789abcdef0123456789abcdef"),
        )
        ∷ (
          text "output_sha256",
          str (text "0123456789abcdef0123456789abcdef0123456789abcdef0123456789abcdef"),
        )
        ∷ (text "usage", ref 18)
        ∷ (text "completed_at", str (text "2026-01-02T00:00:00Z"))
        ∷ [])
    ∷ plain (
        (text "evidence_version", str (text "gongsuanyun.artifact-evidence.v1"))
        ∷ (text "task_id", str (text "task-1"))
        ∷ (text "provider_id", str (text "provider-1"))
        ∷ (text "requested_model", str (text "model-a"))
        ∷ (text "served_model", str (text "model-a"))
        ∷ (text "artifact_id", str (text "artifact-1"))
        ∷ (
          text "artifact_manifest_sha256",
          str (text "0123456789abcdef0123456789abcdef0123456789abcdef0123456789abcdef"),
        )
        ∷ (
          text "artifact_content_sha256",
          str (text "0123456789abcdef0123456789abcdef0123456789abcdef0123456789abcdef"),
        )
        ∷ (
          text "output_sha256",
          str (text "0123456789abcdef0123456789abcdef0123456789abcdef0123456789abcdef"),
        )
        ∷ (
          text "provider_request_ids_sha256",
          str (text "0123456789abcdef0123456789abcdef0123456789abcdef0123456789abcdef"),
        )
        ∷ (text "segments_completed", num (natural 3))
        ∷ (text "usage", ref 18)
        ∷ (text "completed_at", str (text "2026-01-02T00:00:00Z"))
        ∷ [])
    ∷ plain (
        (text "status", str (text "draining"))
        ∷ (text "protocol_version", str (text "gongsuanyun.gateway.v3"))
        ∷ (text "provider_id", str (text "provider-1"))
        ∷ (text "allowed_models", ref 16)
        ∷ (text "allowed_data_classes", ref 5)
        ∷ (text "limits", ref 17)
        ∷ (text "request_id", str (text "request-1"))
        ∷ (text "challenge", str (text "nonce"))
        ∷ [])
    ∷ []

unfoldable pub engine : Engine
unfolding calendar objects
engine = record { heap = object_at objects; date_parse = parse_in calendar }
