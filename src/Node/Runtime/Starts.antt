-- ===== src/Node/Runtime/Starts.antt =====
-- When a call starts an execution (apps/supplier-node/src/runtime.ts).
use token_streaming.Common.{
  ℕ, ◌+◌, ◌≡◌, ◌⊎◌, inl, inr, refl, sym, ap, subst, Bool, true, false, not, Option, none, some,
  List, length, leb, ◌==◌, if-holds, if◌then◌else◌, arith,
}
use token_streaming.Common.Outcome.{
  Outcome, ok, err, throw_if, >>=-eq-ok, throw_if-eq-ok, ok-injective,
}
use token_streaming.Js.Texts.{text_eq, text_beq_iff}
use token_streaming.Js.Maps.{lookup, prune_map}
use token_streaming.Node.Errors.{Thrown, coded, capacity_exceeded}
use token_streaming.Node.Journal.File.{Journal, Disk}
use token_streaming.Node.Journal.{claim_request}
use token_streaming.Node.Signature.{
  SignedGatewayCall, SignatureInput, Guard, check_call, verify_checked, verify_signed_gateway_call,
}
use token_streaming.Node.Signature.Verified.{verified-ok}
use token_streaming.Node.Requests.{
  InferenceRequest, parse_inference_request, validate_request_against_config,
}
use token_streaming.Node.Executions.{
  Services, Runtime, Reply, replied, NodeResult, error_result, IdempotencyEntry, Execution,
  idempotency_ttl, maximum_idempotency_entries, execute,
}
use token_streaming.Node.Runtime.{
  claimed_execution, entry_expiry, submitted, submit, read_request, submit_read, serve_verified,
  handle_inference,
}

-- The call claimed its job in the journal, and the claim returned.
pub record IsClaimed (s : Services) (request_disk : Disk) (now : ℕ)
    (checked : Outcome Thrown SignatureInput) (before after : Journal) : Type 0 where
  pub input : SignatureInput
  pub passed : checked ≡ ok input
  pub returned :
      (claim_request s.setup request_disk input.job_id input.body_sha256
        (now + idempotency_ttl)
        now
        before).1
      ≡ ok tt
  pub left :
      after
      ≡ (claim_request s.setup request_disk input.job_id input.body_sha256
          (now + idempotency_ttl)
          now
          before).0

-- What a call does: it starts no execution and leaves the journal of the verification, or claims.
abbrev pub StartsOnce :
    Services
    → Disk
    → ℕ
    → Outcome Thrown SignatureInput
    → List Execution
    → Journal
    → Runtime × Reply
    → Type 0
StartsOnce s request_disk now checked executions verified (r, reply) =
    ((r.executions ≡ executions) × (r.guard.journal ≡ verified))
    ⊎ ((r.executions ≡ executions)
        × ((input : SignatureInput) × (r.guard.journal
              ≡ (claim_request s.setup request_disk input.job_id input.body_sha256
                  (now + idempotency_ttl) now verified).0)))
    ⊎ IsClaimed s request_disk now checked verified r.guard.journal

module _ (s : Services) (request_disk : Disk) (now acquired_at : ℕ) (input : SignatureInput) where
  claimed_execution-StartsOnce :
      (request : InferenceRequest) (r : Runtime)
      → request.request_id ≡ input.job_id
      → StartsOnce s request_disk now (ok input) r.executions r.guard.journal (
          claimed_execution s request input.body_sha256 now acquired_at r (
            claim_request s.setup request_disk request.request_id input.body_sha256
              (now + idempotency_ttl)
              now
              r.guard.journal))
  unfolding execute
  claimed_execution-StartsOnce request r same =
      subst
        (λ id. StartsOnce s request_disk now (ok input) r.executions r.guard.journal (
          claimed_execution s request input.body_sha256 now acquired_at r (
            claim_request s.setup request_disk id input.body_sha256 (now + idempotency_ttl) now
              r.guard.journal)))
        (sym same)
        (go
          (claim_request s.setup request_disk input.job_id input.body_sha256 (now + idempotency_ttl)
            now r.guard.journal)
          refl)
    where
      go :
          (c : Journal × Outcome Thrown (Unit {0}))
          → claim_request s.setup request_disk input.job_id input.body_sha256
              (now + idempotency_ttl)
              now
              r.guard.journal
            ≡ c
          → StartsOnce s request_disk now
              (ok input)
              r.executions
              r.guard.journal
              (claimed_execution s request input.body_sha256 now acquired_at r c)
      go (j, ok u) e = inr (
          inr (record {
            input = input;
            passed = refl;
            returned = ap (λ p. p.1) e;
            left = sym (ap (λ p. p.0) e);
          }))
      go (j, err f) e = inr (inl (refl, (input, sym (ap (λ p. p.0) e))))

  submitted-StartsOnce :
      (request : InferenceRequest) (found : Option IdempotencyEntry) (r : Runtime)
      → request.request_id ≡ input.job_id
      → StartsOnce s request_disk now
          (ok input)
          r.executions
          r.guard.journal
          (submitted s request_disk request input.body_sha256 now acquired_at found r)
  submitted-StartsOnce request (some entry) r same =
      if-holds (StartsOnce s request_disk now (ok input) r.executions r.guard.journal)
        (not (entry.body_sha256 == input.body_sha256)) _ _ (λ _. inl (refl, refl))
        (λ _. inl (refl, refl))
  submitted-StartsOnce request none r same =
      if-holds (StartsOnce s request_disk now (ok input) r.executions r.guard.journal)
        (leb maximum_idempotency_entries (length r.idempotency)) _ _ (λ _. inl (refl, refl))
        (λ _. claimed_execution-StartsOnce request r same)

  submit-StartsOnce :
      (request : InferenceRequest) (r : Runtime)
      → request.request_id ≡ input.job_id
      → StartsOnce s request_disk now
          (ok input)
          r.executions
          r.guard.journal
          (submit s request_disk request input.body_sha256 now acquired_at r)
  unfolding submit
  submit-StartsOnce request r same =
      let pruned : Runtime = record r { idempotency = prune_map entry_expiry now r.idempotency } in
      submitted-StartsOnce request (lookup request.request_id pruned.idempotency) pruned same

  submit_read-StartsOnce :
      (read : Outcome Thrown InferenceRequest) (r : Runtime)
      → ((request : InferenceRequest) → read ≡ ok request → request.request_id ≡ input.job_id)
      → StartsOnce s request_disk now
          (ok input)
          r.executions
          r.guard.journal
          (submit_read s request_disk input now acquired_at read r)
  submit_read-StartsOnce (err e) r named = inl (refl, refl)
  submit_read-StartsOnce (ok request) r named = submit-StartsOnce request r (named request refl)

read_request-named :
    (s : Services) (call : SignedGatewayCall) (input : SignatureInput) (request : InferenceRequest)
    → read_request s call input ≡ ok request
    → request.request_id ≡ input.job_id
unfolding read_request
read_request-named s call input request h =
    let (found, parsed, h1) = >>=-eq-ok (parse_inference_request s.parse call.raw_body) _ h in
    let (u, named, h2) = >>=-eq-ok (throw_if (not (found.request_id == input.job_id)) _) _ h1 in
    let (v, valid, h3) = >>=-eq-ok (validate_request_against_config found s.config) _ h2 in
    let same : found ≡ request = ok-injective h3 in
    let equal = throw_if-eq-ok _ _ named in
    let id : found.request_id ≡ input.job_id =
      ground (arith, text_beq_iff found.request_id input.job_id) in
    subst (λ (q : InferenceRequest). q.request_id ≡ input.job_id) same id

module _ (s : Services) (nonce_disk request_disk : Disk) (call : SignedGatewayCall)
    (now acquired_at : ℕ) (r : Runtime) where
  serve_verified-StartsOnce :
      (v : Guard × Outcome Thrown SignatureInput)
      → ((input : SignatureInput) → v.1 ≡ ok input → check_call s.setup call ≡ ok input)
      → StartsOnce s request_disk now
          (check_call s.setup call)
          r.executions
          v.0.journal
          (serve_verified s request_disk call now acquired_at r v)
  serve_verified-StartsOnce (g, err e) checked = inl (refl, refl)
  serve_verified-StartsOnce (g, ok input) checked =
      subst
        (λ c.
          StartsOnce s request_disk now c r.executions g.journal
            (serve_verified s request_disk call now acquired_at r (g, ok input)))
        (sym (checked input refl))
        (submit_read-StartsOnce s request_disk now acquired_at input (read_request s call input)
          (record r { guard = g }) (read_request-named s call input))

  -- A call starts no execution, or it has claimed its job in the journal.
  pub handle_inference-StartsOnce :
      StartsOnce s request_disk now
        (check_call s.setup call)
        r.executions
        (if r.draining
          then r.guard.journal
          else (verify_signed_gateway_call s.setup nonce_disk call now r.guard).0.journal)
        (handle_inference s nonce_disk request_disk call now acquired_at r)
  unfolding handle_inference verify_signed_gateway_call
  handle_inference-StartsOnce = go r.draining
    where
      verified : Guard × Outcome Thrown SignatureInput
      verified = verify_checked s.setup nonce_disk (check_call s.setup call) now r.guard

      stopping : NodeResult
      stopping =
          error_result (coded (record { code = capacity_exceeded; status = 503; retryable = true }))
            none

      go :
          (b : Bool)
          → StartsOnce s request_disk now
              (check_call s.setup call)
              r.executions
              (if b then r.guard.journal else verified.0.journal)
              (if b
                then (r, replied stopping)
                else serve_verified s request_disk call now acquired_at r verified)
      go true = inl (refl, refl)
      go false = serve_verified-StartsOnce verified (λ input h.
          (verified-ok s.setup nonce_disk (check_call s.setup call) now r.guard input h).0)
