-- ===== src/Node/Runtime/Answers.antt =====
-- Which answers of a provider become a response (apps/supplier-node/src/runtime.ts).
use token_streaming.Common.{
  ℕ, ◌+◌, ◌≤◌, ◌≡◌, ◌↔◌, refl, sym, ap, subst, true, false, Option, none, some, [], ◌∷◌, ◌++◌, not,
  ◌&&◌, length, ltb, nat_beq_iff, nat_eq, ◌==◌, arith,
}
use token_streaming.Common.Outcome.{Outcome, ok, throw_if, >>=-eq-ok, throw_if-eq-ok, ok-injective}
use token_streaming.Js.{Number, natural, negative, fraction, non_finite, max_safe}
use token_streaming.Js.Texts.{Text, text_eq, text_beq_iff}
use token_streaming.Marketplace.Evidence.{Usage}
use token_streaming.Node.Errors.{Thrown}
use token_streaming.Node.Requests.{
  InferenceRequest, ProviderResult, usage_from, is_sized, validate_provider_result,
}
use token_streaming.Js.Decimal.{print}
use token_streaming.Marketplace.Evidence.Execution.{execution_version}
use token_streaming.Node.Executions.{
  present, or_empty, evidence_payload, Services, NodeResult, inference, inference_response,
  provider_outcome,
}

-- The answer has its form, is of the model that was asked for, and its usage adds up, within the
-- output that was allowed.
pub record IsAcceptable (request : InferenceRequest) (result : ProviderResult) (usage : Usage)
    : Type 0 where
  pub output_size : (1 ≤ length result.output) × (length result.output ≤ 200_000)
  pub id_size : (1 ≤ length result.provider_request_id) × (length result.provider_request_id ≤ 256)
  pub model_size : (1 ≤ length result.served_model) × (length result.served_model ≤ 200)
  pub model : result.served_model ≡ request.model
  pub input_tokens : result.usage.input_tokens ≡ natural usage.input_tokens
  pub output_tokens : result.usage.output_tokens ≡ natural usage.output_tokens
  pub total_tokens : result.usage.total_tokens ≡ natural usage.total_tokens
  pub some_input : 1 ≤ usage.input_tokens
  pub allowed_output : usage.output_tokens ≤ request.max_output_tokens
  pub total : usage.total_tokens ≡ usage.input_tokens + usage.output_tokens
  pub safe : usage.total_tokens ≤ max_safe

usage_from-ok :
    (least : ℕ) (value : Number) (n : ℕ)
    → usage_from least value ≡ ok n
    → (value ≡ natural n) × (least ≤ n) × (n ≤ max_safe)
unfolding usage_from
usage_from-ok least (natural k) n h =
    let same : k ≡ n = ground arith in (ap natural same, ground arith, ground arith)
usage_from-ok least negative n h = cc
usage_from-ok least fraction n h = cc
usage_from-ok least non_finite n h = cc

of_usage_from : (least n : ℕ) → least ≤ n → n ≤ max_safe → usage_from least (natural n) ≡ ok n
unfolding usage_from
of_usage_from least n low high = ground arith

module _ (request : InferenceRequest) (result : ProviderResult) (usage : Usage) where
  IsAcceptable-of_ok :
      validate_provider_result result request.model request.max_output_tokens ≡ ok usage
      → IsAcceptable request result usage
  unfolding validate_provider_result
  IsAcceptable-of_ok h =
      let (u1, sized, h1) =
        >>=-eq-ok
          (throw_if
            (not (
              is_sized 200_000 result.output
              && is_sized 256 result.provider_request_id
              && is_sized 200 result.served_model))
            _)
          _ h in
      let (u2, served, h2) =
        >>=-eq-ok (throw_if (not (result.served_model == request.model)) _) _ h1 in
      let (input, i, h3) = >>=-eq-ok (usage_from 1 result.usage.input_tokens) _ h2 in
      let (output, o, h4) = >>=-eq-ok (usage_from 0 result.usage.output_tokens) _ h3 in
      let (u3, allowed, h5) = >>=-eq-ok (throw_if (ltb request.max_output_tokens output) _) _ h4 in
      let (total, t, h6) = >>=-eq-ok (usage_from 0 result.usage.total_tokens) _ h5 in
      let (u4, adds, h7) = >>=-eq-ok (throw_if (not (total == input + output)) _) _ h6 in
      let read : Usage = record {
        input_tokens = input;
        output_tokens = output;
        total_tokens = total;
      } in
      let same : read ≡ usage = ok-injective h7 in
      let (iv, il, ih) = usage_from-ok 1 result.usage.input_tokens input i in
      let (ov, ol, oh) = usage_from-ok 0 result.usage.output_tokens output o in
      let (tv, tl, th) = usage_from-ok 0 result.usage.total_tokens total t in
      let sizes = throw_if-eq-ok _ _ sized in
      let model = throw_if-eq-ok _ _ served in
      let within = throw_if-eq-ok _ _ allowed in
      let sum = throw_if-eq-ok _ _ adds in
      subst (IsAcceptable request result) same (record {
        output_size = (ground arith, ground arith);
        id_size = (ground arith, ground arith);
        model_size = (ground arith, ground arith);
        model = ground (arith, text_beq_iff result.served_model request.model);
        input_tokens = iv;
        output_tokens = ov;
        total_tokens = tv;
        some_input = il;
        allowed_output = ground arith;
        total = ground (arith, nat_beq_iff total (input + output));
        safe = th;
      })

  ok-of_IsAcceptable :
      IsAcceptable request result usage
      → validate_provider_result result request.model request.max_output_tokens ≡ ok usage
  unfolding validate_provider_result
  ok-of_IsAcceptable a =
      let (o1, o2) = a.output_size in
      let (i1, i2) = a.id_size in
      let (m1, m2) = a.model_size in
      let sizes : (is_sized 200_000 result.output
            && is_sized 256 result.provider_request_id
            && is_sized 200 result.served_model)
          ≡ true =
        ground arith in
      let served = (text_beq_iff result.served_model request.model).1 (a.model) in
      let total = a.total in
      let safe = a.safe in
      let i = of_usage_from 1 usage.input_tokens (a.some_input) (omega arith) in
      let o = of_usage_from 0 usage.output_tokens (omega arith) (omega arith) in
      let t = of_usage_from 0 usage.total_tokens (omega arith) safe in
      let output = a.allowed_output in
      let within : ltb request.max_output_tokens usage.output_tokens ≡ false = ground arith in
      let sum : (usage.total_tokens == usage.input_tokens + usage.output_tokens) ≡ true =
        ground arith in
      rw (sizes, served, a.input_tokens, i, a.output_tokens, o, within, a.total_tokens, t, sum) refl

-- The receipt that the evidence keeps and the line that is signed for it: an empty one counts as none.
abbrev pub IsReceipt : Option Text → Option Text → Text → Type 0
IsReceipt none kept line = (kept ≡ none) × (line ≡ [])
IsReceipt (some []) kept line = (kept ≡ none) × (line ≡ [])
IsReceipt (some (c ∷ t)) kept line = (kept ≡ some (c ∷ t)) × (line ≡ c ∷ t)

present-IsReceipt :
    (given : Option Text) → IsReceipt given (present given) (or_empty (present given))
present-IsReceipt none = (refl, refl)
present-IsReceipt (some []) = (refl, refl)
present-IsReceipt (some (c ∷ t)) = (refl, refl)

of_IsReceipt :
    (given kept : Option Text) (line : Text)
    → IsReceipt given kept line
    → (kept ≡ present given) × (line ≡ or_empty (present given))
of_IsReceipt none kept line h = h
of_IsReceipt (some []) kept line h = h
of_IsReceipt (some (c ∷ t)) kept line h = h

-- The response to a request: the provider's output, its usage, the evidence, and as signature the code
-- under the token of the thirteen values of the evidence, one to a line.
pub record IsResponse (s : Services) (request : InferenceRequest) (result : ProviderResult)
    (usage : Usage) (completed_at : Text) (r : NodeResult) : Type 0 where
  pub receipt : Option Text
  pub receipt_line : Text
  pub receipt_kept : IsReceipt result.receipt_ref receipt receipt_line
  pub returned : r ≡ record {
    status = 200;
    body = inference (record {
      output = result.output;
      usage = usage;
      execution_evidence = record {
        evidence_version = execution_version;
        request_id = request.request_id;
        provider_id = s.config.provider_id;
        requested_model = request.model;
        served_model = result.served_model;
        provider_request_id = result.provider_request_id;
        input_sha256 = s.setup.sha256 request.input;
        output_sha256 = s.setup.sha256 result.output;
        usage = usage;
        completed_at = completed_at;
        receipt_ref = receipt;
      };
      execution_evidence_signature = s.setup.hmac s.setup.gateway_token (
          execution_version
          ++ (10 ∷ request.request_id
              ++ (10 ∷ s.config.provider_id
                  ++ (10 ∷ request.model
                      ++ (10 ∷ result.served_model
                          ++ (10 ∷ result.provider_request_id
                              ++ (10 ∷ s.setup.sha256 request.input
                                  ++ (10 ∷ s.setup.sha256 result.output
                                      ++ (10 ∷ print usage.input_tokens
                                          ++ (10 ∷ print usage.output_tokens
                                              ++ (10 ∷ print usage.total_tokens
                                                  ++ (10 ∷ completed_at
                                                      ++ (10 ∷ receipt_line)))))))))))));
    });
  }

module _ (s : Services) (request : InferenceRequest) (result : ProviderResult) (usage : Usage)
    (completed_at : Text) (r : NodeResult) where
  abbrev Returned : Type 0
  Returned = r ≡ record {
    status = 200;
    body = inference (inference_response s request result usage completed_at);
  }

  IsResponse-of_returned : Returned → IsResponse s request result usage completed_at r
  unfolding inference_response evidence_payload
  IsResponse-of_returned h = record {
    receipt = present result.receipt_ref;
    receipt_line = or_empty (present result.receipt_ref);
    receipt_kept = present-IsReceipt result.receipt_ref;
    returned = h;
  }

  returned-of_IsResponse : IsResponse s request result usage completed_at r → Returned
  unfolding inference_response evidence_payload
  returned-of_IsResponse p =
      let (kept, signed) =
        of_IsReceipt result.receipt_ref p.receipt p.receipt_line (p.receipt_kept) in
      let same = p.returned in rw (kept, signed) at same

-- An execution gives a response exactly if the provider answers and its answer is acceptable: of the
-- model that was asked for, with a usage that adds up and stays within the output that was allowed.
-- The response has status 200, the output and the usage of the answer, evidence of the version, with
-- the request's identifier and model, the digests of its input and of the output, the provider, the
-- model served, the time and a receipt that is not empty, and the HMAC of these values, one to a line.
pub provider_outcome_iff :
    (s : Services) (request : InferenceRequest) (answer : Outcome Thrown ProviderResult)
    (completed_at : Text) (r : NodeResult)
    → (provider_outcome s request answer completed_at ≡ ok r) ↔ (
        (result : ProviderResult) × (usage : Usage) × (answer ≡ ok result)
        × IsAcceptable request result usage
        × IsResponse s request result usage completed_at r)
unfolding provider_outcome
provider_outcome_iff s request answer completed_at r = (
  λ h.
      (let (result, answered, h1) = >>=-eq-ok answer _ h in
        let (usage, valid, h2) =
          >>=-eq-ok (validate_provider_result result request.model request.max_output_tokens) _
            h1 in
        (
          result,
          usage,
          answered,
          IsAcceptable-of_ok request result usage valid,
          IsResponse-of_returned s request result usage completed_at r (sym (ok-injective h2)),
        )),
  λ (result, usage, answered, acceptable, response).
      let same = returned-of_IsResponse s request result usage completed_at r response in
      rw (answered, ok-of_IsAcceptable request result usage acceptable) (ap ok (sym same)),
)
