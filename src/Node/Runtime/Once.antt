-- ===== src/Node/Runtime/Once.antt =====
-- A job is executed once (apps/supplier-node/src/runtime.ts).
use token_streaming.Common.{
  ℕ, suc, ◌+◌, ◌≤◌, ◌≡◌, ◌∙◌, inl, inr, sym, ap, subst, true, List, ◌++◌, All, length, arith,
}
use token_streaming.Common.Outcome.{Outcome, ok, ok-injective}
use token_streaming.Js.{max_safe}
use token_streaming.Js.Texts.{Text}
use token_streaming.Node.Errors.{Thrown}
use token_streaming.Node.Journal.File.{Journal, Disk, keyed_commitment, body_commitment_domain}
use token_streaming.Node.Journal.{claim_request}
use token_streaming.Node.Journal.Records.{is_sha256}
use token_streaming.Node.Journal.Keeping.{request_claim, Keeps}
use token_streaming.Node.Journal.Loading.{IsStorable}
use token_streaming.Node.Journal.Accepted.{HexDigests, claim_request-Returned_at, refused_request}
use token_streaming.Node.Signature.{SignedGatewayCall, SignatureInput, check_call}
use token_streaming.Node.Signature.Checked.{IsSigned-of_ok}
use token_streaming.Node.Executions.{Services, Runtime, Reply, Execution, idempotency_ttl}
use token_streaming.Node.Runtime.{handle_inference}
use token_streaming.Node.Runtime.Starts.{IsClaimed, StartsOnce, handle_inference-StartsOnce}
use token_streaming.Node.Runtime.Events.{NodeEvent, serving, node_run, node_time}
use token_streaming.Node.Runtime.Remembered.{NodeRemembers, verified-Keeps, node_run-Remembers}

module _ (s : Services) (hex : HexDigests s.setup) (request_disk : Disk) (now : ℕ) where
  -- A result that has one execution more has claimed the job.
  IsClaimed-if_started :
      (checked : Outcome Thrown SignatureInput) (executions : List Execution) (verified : Journal)
      (result : Runtime × Reply)
      → StartsOnce s request_disk now checked executions verified result
      → length result.0.executions ≡ suc (length executions)
      → IsClaimed s request_disk now checked verified result.0.guard.journal
  IsClaimed-if_started checked executions verified (r, reply) (inl (same, left)) more =
      let equal = ap length same in absurd (omega arith)
  IsClaimed-if_started checked executions verified (r, reply) (inr (inl (same, rest))) more =
      let equal = ap length same in absurd (omega arith)
  IsClaimed-if_started checked executions verified (r, reply) (inr (inr claimed)) more = claimed

  -- A result has the same executions if the job is refused by the journal.
  idle_if_kept :
      (checked : Outcome Thrown SignatureInput) (executions : List Execution) (verified : Journal)
      (result : Runtime × Reply) (job_id body : Text) (expires_at : ℕ) (other : SignatureInput)
      → StartsOnce s request_disk now checked executions verified result
      → checked ≡ ok other
      → other.job_id ≡ job_id
      → is_sha256 other.body_sha256 ≡ true
      → now ≤ expires_at
      → Keeps
          (request_claim
            (s.setup.sha256 job_id)
            (record { body_commitment = keyed_commitment s.setup body; expires_at = expires_at }))
          verified
      → result.0.executions ≡ executions
  idle_if_kept checked executions verified (r, reply) job_id body expires_at other
        (inl (same, left)) c j h l keeps =
      same
  idle_if_kept checked executions verified (r, reply) job_id body expires_at other
        (inr (inl (same, rest))) c j h l keeps =
      same
  idle_if_kept checked executions verified (r, reply) job_id body expires_at other
        (inr (inr claimed)) c j h l keeps =
      let same : claimed.input ≡ other = ok-injective (sym (claimed.passed) ∙ c) in
      let returned =
        subst
          (λ (i : SignatureInput).
            (claim_request s.setup request_disk i.job_id i.body_sha256 (now + idempotency_ttl) now
              verified).1
            ≡ ok tt)
          same (claimed.returned) in
      let returned' =
        subst
          (λ id.
            (claim_request s.setup request_disk id other.body_sha256 (now + idempotency_ttl) now
              verified).1
            ≡ ok tt)
          j returned in
      let refused =
        refused_request s.setup request_disk job_id body other.body_sha256 expires_at
          (now + idempotency_ttl) now verified l h keeps in
      cc

module _ (s : Services) (hex : HexDigests s.setup) where
  -- A job is executed once: after a call has started an execution, whatever calls, also for artifact
  -- tasks, answers of the provider, compactions, draining and restarts follow, however the disk takes
  -- them, as long as no clock reading is more than 15 minutes after the call, a call for the same job
  -- starts no execution, whatever its body and its nonce are. (Digests are 64 hexadecimal digits; the
  -- expiry is a safe integer.)
  pub handle_inference_once :
      (nonce_disk request_disk nonce_disk' request_disk' : Disk) (call again : SignedGatewayCall)
      (input other : SignatureInput) (now acquired_at later acquired_later : ℕ) (r r' : Runtime)
      (events : List NodeEvent)
      → check_call s.setup call ≡ ok input
      → now + idempotency_ttl ≤ max_safe
      → length (handle_inference s nonce_disk request_disk call now acquired_at r).0.executions
        ≡ suc (length r.executions)
      → All (λ event. node_time event ≤ now + idempotency_ttl) events
      → node_run s events
          (serving (handle_inference s nonce_disk request_disk call now acquired_at r).0)
        ≡ serving r'
      → check_call s.setup again ≡ ok other
      → other.job_id ≡ input.job_id
      → later ≤ now + idempotency_ttl
      → (handle_inference s nonce_disk' request_disk' again later acquired_later r').0.executions
        ≡ r'.executions
  handle_inference_once nonce_disk request_disk nonce_disk' request_disk' call again input other now
        acquired_at later acquired_later r r' events checked safe started times reached rechecked
        same_job until =
      let expires_at = now + idempotency_ttl in
      let served = handle_inference s nonce_disk request_disk call now acquired_at r in
      let claimed =
        IsClaimed-if_started s hex request_disk now (check_call s.setup call) r.executions _ served
          (handle_inference-StartsOnce s nonce_disk request_disk call now acquired_at r) started in
      let body = claimed.input.body_sha256 in
      let claim =
        request_claim (s.setup.sha256 claimed.input.job_id)
          (record { body_commitment = keyed_commitment s.setup body; expires_at = expires_at }) in
      let storable : IsStorable claim = (
        hex.sha256 claimed.input.job_id,
        hex.hmac s.setup.gateway_token (body_commitment_domain ++ body),
        safe,
      ) in
      let kept = subst (Keeps claim) (sym (claimed.left)) (
        claim_request-Returned_at s.setup request_disk claimed.input.job_id body expires_at now _
          (omega arith) (claimed.returned)) in
      let after = node_run-Remembers s claim storable events (serving served.0) times kept in
      let held : Keeps claim r'.guard.journal = subst (NodeRemembers claim) reached after in
      let job : other.job_id ≡ claimed.input.job_id =
        same_job
        ∙ ap (λ (i : SignatureInput). i.job_id) (ok-injective (sym checked ∙ claimed.passed)) in
      let signed = IsSigned-of_ok s.setup again other rechecked in
      idle_if_kept s hex request_disk' later (check_call s.setup again) r'.executions _
        (handle_inference s nonce_disk' request_disk' again later acquired_later r')
        claimed.input.job_id body expires_at other
        (handle_inference-StartsOnce s nonce_disk' request_disk' again later acquired_later r')
        rechecked job
        (subst (λ t. is_sha256 t ≡ true) (sym (signed.body)) (hex.sha256 again.raw_body)) until
        (verified-Keeps s claim later until nonce_disk' again r' held)
