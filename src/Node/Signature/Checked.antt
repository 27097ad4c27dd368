-- ===== src/Node/Signature/Checked.antt =====
-- When a call passes the checks before the guard (apps/supplier-node/src/signature.ts).
use token_streaming.Common.{
  ◌≤◌, ◌≡◌, ◌↔◌, ◌∙◌, refl, ap, subst, Bool, true, false, not, ◌||◌, Option, none, some, [], ◌∷◌,
  ◌++◌, all, length, nat_eq, ◌==◌, leb, ltb, arith, nat_beq_iff,
}
use token_streaming.Common.Outcome.{ok, throw_if, >>=-eq-ok, throw_if-eq-ok, ok-injective}
use token_streaming.Js.{max_safe}
use token_streaming.Js.Texts.{
  Text, text, text_eq, text_beq, text_beq_iff, starts_with, is_digit, is_alnum,
}
use token_streaming.Js.Decimal.{read}
use token_streaming.Marketplace.Evidence.{is_hex_unit}
use token_streaming.Node.Journal.File.{Setup}
use token_streaming.Node.Journal.Records.{is_sha256}
use token_streaming.Node.Signature.{
  SignedGatewayCall, SignatureInput, signature_payload, create_gateway_signature, drop,
  parse_bearer, is_timestamp, is_nonce, is_job_id, is_url_unit, is_job_unit, required_pattern,
  safe_text_equal, check_call,
}
use token_streaming.Node.Signature.Payload.{
  is_timestamp-IsOneLine, is_nonce-IsOneLine, is_job_id-IsOneLine, signature_payload-injective,
  is_timestamp-safe,
}

-- A letter or a digit, and 7 to 255 units of `[A-Za-z0-9._:-]`.
abbrev pub HasJobForm : Text → Type 0
HasJobForm [] = ⊥
HasJobForm (c ∷ rest) =
    (is_alnum c ≡ true) × (all is_job_unit rest ≡ true) × (7 ≤ length rest) × (length rest ≤ 255)

pub is_timestamp_iff :
    (t : Text) → (is_timestamp t ≡ true) ↔ ((all is_digit t ≡ true) × (length t ≡ 13))
unfolding is_timestamp
is_timestamp_iff t = (λ h. (ground arith, ground arith), λ (digits, sized). ground arith)

is_nonce_iff :
    (t : Text)
    → (is_nonce t ≡ true) ↔ ((all is_url_unit t ≡ true) × (16 ≤ length t) × (length t ≤ 128))
unfolding is_nonce
is_nonce_iff t =
    (λ h. (ground arith, ground arith, ground arith), λ (units, long, short). ground arith)

is_sha256_iff : (t : Text) → (is_sha256 t ≡ true) ↔ ((all is_hex_unit t ≡ true) × (length t ≡ 64))
unfolding is_sha256
is_sha256_iff t = (λ h. (ground arith, ground arith), λ (units, sized). ground arith)

is_job_id_iff : (t : Text) → (is_job_id t ≡ true) ↔ HasJobForm t
unfolding is_job_id
is_job_id_iff [] = (λ h. absurd (ground arith), λ h. absurd h)
is_job_id_iff (c ∷ rest) = (
  λ h. (ground arith, ground arith, ground arith, ground arith),
  λ (first, units, long, short). ground arith,
)

-- The call carries the token, the four values in their form, and a signature with the digest of the
-- code under the token of the timestamp, the nonce, the job and the digest of the body, one to a line;
-- the input is read from the call.
pub record IsSigned (s : Setup) (call : SignedGatewayCall) (input : SignatureInput) : Type 0 where
  pub token : Text
  pub bearer : call.authorization ≡ some (text "Bearer " ++ token)
  pub token_length : (1 ≤ length token) × (length token ≤ 4_096)
  pub token_digest : s.sha256 token ≡ s.sha256 s.gateway_token
  pub timestamp : call.timestamp ≡ some input.timestamp
  pub timestamp_form : (all is_digit input.timestamp ≡ true) × (length input.timestamp ≡ 13)
  pub nonce : call.nonce ≡ some input.nonce
  pub nonce_form :
      (all is_url_unit input.nonce ≡ true) × (16 ≤ length input.nonce) × (length input.nonce ≤ 128)
  pub job_id : call.job_id ≡ some input.job_id
  pub job_id_form : HasJobForm input.job_id
  pub signature : Text
  pub signed : call.signature ≡ some signature
  pub signature_form : (all is_hex_unit signature ≡ true) × (length signature ≡ 64)
  pub signature_digest :
      s.sha256 signature
      ≡ s.sha256 (
          s.hmac s.gateway_token (
            input.timestamp
            ++ (10 ∷ input.nonce ++ (10 ∷ input.job_id ++ (10 ∷ input.body_sha256)))))
  pub body : input.body_sha256 ≡ s.sha256 call.raw_body

starts_with-drop : (t p : Text) → starts_with t p ≡ true → t ≡ p ++ drop (length p) t
unfolding starts_with
starts_with-drop t [] h = refl
starts_with-drop [] (d ∷ p) h = cc
starts_with-drop (c ∷ t) (d ∷ p) h =
    let rest = starts_with-drop t p (ground arith) in
    let same : c ≡ d = ground (arith, nat_beq_iff c d) in cc

starts_with-append : (p t : Text) → starts_with (p ++ t) p ≡ true
unfolding starts_with
starts_with-append [] t = refl
starts_with-append (c ∷ p) t = ground (arith, starts_with-append p t, nat_beq_iff c c)

drop-append : (p t : Text) → drop (length p) (p ++ t) ≡ t
drop-append [] t = refl
drop-append (c ∷ p) t = drop-append p t

parse_bearer-ok :
    (authorization : Option Text) (token : Text)
    → parse_bearer authorization ≡ ok token
    → (authorization ≡ some (text "Bearer " ++ token)) × (1 ≤ length token) × (length token ≤ 4_096)
unfolding parse_bearer
parse_bearer-ok none token h = cc
parse_bearer-ok (some value) token h =
    let (u, prefix, h1) = >>=-eq-ok (throw_if (not (starts_with value (text "Bearer "))) _) _ h in
    let (w, sized, h2) =
      >>=-eq-ok (throw_if (length (drop 7 value) == 0 || ltb 4_096 (length (drop 7 value))) _) _
        h1 in
    let same = ok-injective h2 in
    let starts = throw_if-eq-ok _ _ prefix in
    let fits = throw_if-eq-ok _ _ sized in
    let whole = starts_with-drop value (text "Bearer ") (ground arith) in
    (
      ap some (whole ∙ ap (λ t. text "Bearer " ++ t) (same)),
      rw (← same) (ground arith),
      rw (← same) (ground arith),
    )

of_parse_bearer :
    (token : Text)
    → 1 ≤ length token
    → length token ≤ 4_096
    → parse_bearer (some (text "Bearer " ++ token)) ≡ ok token
unfolding parse_bearer
of_parse_bearer token long short =
    let starts = starts_with-append (text "Bearer ") token in
    let fits : (length token == 0 || ltb 4_096 (length token)) ≡ false = ground arith in
    rw (starts, fits) refl

required_pattern-ok :
    (value : Option Text) (pattern : Text → Bool) (t : Text)
    → required_pattern value pattern ≡ ok t
    → (value ≡ some t) × (pattern t ≡ true)
unfolding required_pattern
required_pattern-ok none pattern t h = cc
required_pattern-ok (some v) pattern t h =
    let (u, checked, same) = >>=-eq-ok (throw_if (not (pattern v)) _) _ h in
    let e = ok-injective same in
    let passed = throw_if-eq-ok _ _ checked in (ap some e, rw (← e) (ground arith))

of_required_pattern :
    (pattern : Text → Bool) (t : Text) → pattern t ≡ true → required_pattern (some t) pattern ≡ ok t
unfolding required_pattern
of_required_pattern pattern t h = rw h refl

module _ (s : Setup) (call : SignedGatewayCall) (input : SignatureInput) where
  pub IsSigned-of_ok : check_call s call ≡ ok input → IsSigned s call input
  unfolding check_call safe_text_equal create_gateway_signature signature_payload
  IsSigned-of_ok h =
      let (token, b, h1) = >>=-eq-ok (parse_bearer call.authorization) _ h in
      let (u1, t, h2) =
        >>=-eq-ok (throw_if (not (s.sha256 token == s.sha256 s.gateway_token)) _) _ h1 in
      let (timestamp, c, h3) = >>=-eq-ok (required_pattern call.timestamp is_timestamp) _ h2 in
      let (nonce, n, h4) = >>=-eq-ok (required_pattern call.nonce is_nonce) _ h3 in
      let (job_id, j, h5) = >>=-eq-ok (required_pattern call.job_id is_job_id) _ h4 in
      let (signature, g, h6) = >>=-eq-ok (required_pattern call.signature is_sha256) _ h5 in
      let (u2, safe, h7) = >>=-eq-ok (throw_if (not (leb (read timestamp) max_safe)) _) _ h6 in
      let read_input : SignatureInput = record {
        timestamp = timestamp;
        nonce = nonce;
        job_id = job_id;
        body_sha256 = s.sha256 call.raw_body;
      } in
      let (u3, d, h8) =
        >>=-eq-ok
          (throw_if (not (s.sha256 signature == s.sha256 (create_gateway_signature s read_input)))
            _)
          _ h7 in
      let same : read_input ≡ input = ok-injective h8 in
      let (found, long, short) = parse_bearer-ok call.authorization token b in
      let (ct, cf) = required_pattern-ok call.timestamp is_timestamp timestamp c in
      let (nt, nf) = required_pattern-ok call.nonce is_nonce nonce n in
      let (jt, jf) = required_pattern-ok call.job_id is_job_id job_id j in
      let (gt, gf) = required_pattern-ok call.signature is_sha256 signature g in
      let equal = throw_if-eq-ok _ _ t in
      let close = throw_if-eq-ok _ _ d in
      subst (IsSigned s call) same (record {
        token = token;
        bearer = found;
        token_length = (long, short);
        token_digest = ground (arith, text_beq_iff (s.sha256 token) (s.sha256 s.gateway_token));
        timestamp = ct;
        timestamp_form = (is_timestamp_iff timestamp).0 cf;
        nonce = nt;
        nonce_form = (is_nonce_iff nonce).0 nf;
        job_id = jt;
        job_id_form = (is_job_id_iff job_id).0 jf;
        signature = signature;
        signed = gt;
        signature_form = (is_sha256_iff signature).0 gf;
        signature_digest = ground (
          arith,
          text_beq_iff (s.sha256 signature) (s.sha256 (create_gateway_signature s read_input)),
        );
        body = refl;
      })

  ok-of_IsSigned : IsSigned s call input → check_call s call ≡ ok input
  unfolding check_call safe_text_equal create_gateway_signature signature_payload
  ok-of_IsSigned signed =
      let b = of_parse_bearer signed.token (signed.token_length.0) (signed.token_length.1) in
      let t : text_beq (s.sha256 signed.token) (s.sha256 s.gateway_token) ≡ true =
        (text_beq_iff (s.sha256 signed.token) (s.sha256 s.gateway_token)).1 (signed.token_digest) in
      let c =
        of_required_pattern is_timestamp input.timestamp
          ((is_timestamp_iff _).1 (signed.timestamp_form)) in
      let n = of_required_pattern is_nonce input.nonce ((is_nonce_iff _).1 (signed.nonce_form)) in
      let j =
        of_required_pattern is_job_id input.job_id ((is_job_id_iff _).1 (signed.job_id_form)) in
      let g =
        of_required_pattern is_sha256 signed.signature
          ((is_sha256_iff _).1 (signed.signature_form)) in
      let low =
        is_timestamp-safe input.timestamp ((is_timestamp_iff _).1 (signed.timestamp_form)) in
      let low' : read input.timestamp ≤ max_safe = omega arith in
      let safe : leb (read input.timestamp) max_safe ≡ true = ground arith in
      let d : text_beq (s.sha256 signed.signature) (s.sha256 (create_gateway_signature s input))
          ≡ true =
        (text_beq_iff (s.sha256 signed.signature) (s.sha256 (create_gateway_signature s input))).1
          (signed.signature_digest) in
      rw
        (
          signed.bearer,
          b,
          t,
          signed.timestamp,
          c,
          signed.nonce,
          n,
          signed.job_id,
          j,
          signed.signed,
          g,
          safe,
          ← signed.body,
          d,
        )
        refl

-- A call passes the checks exactly if it carries the gateway's token as its bearer, the four values
-- in their form (a timestamp of 13 digits, a nonce of 16 to 128 and a job of 8 to 256 of their
-- characters, a signature of 64 hexadecimal digits), and as its signature the HMAC, under the token,
-- of its timestamp, nonce, job and the digest of its body, one to a line: token and signature are
-- compared by their digests.
pub check_call_iff :
    (s : Setup) (call : SignedGatewayCall) (input : SignatureInput)
    → (check_call s call ≡ ok input) ↔ IsSigned s call input
check_call_iff s call input = (IsSigned-of_ok s call input, ok-of_IsSigned s call input)

-- What is signed is the call: two calls that pass the checks and have the same signed payload have
-- the same timestamp, nonce, job and digest of the body.
pub signed_payload_determines :
    (s : Setup) (c d : SignedGatewayCall) (a b : SignatureInput)
    → check_call s c ≡ ok a
    → check_call s d ≡ ok b
    → signature_payload a ≡ signature_payload b
    → a ≡ b
signed_payload_determines s c d a b h k same =
    let p = IsSigned-of_ok s c a h in
    let q = IsSigned-of_ok s d b k in
    signature_payload-injective a b
      (is_timestamp-IsOneLine a.timestamp ((is_timestamp_iff _).1 (p.timestamp_form)))
      (is_nonce-IsOneLine a.nonce ((is_nonce_iff _).1 (p.nonce_form)))
      (is_job_id-IsOneLine a.job_id ((is_job_id_iff _).1 (p.job_id_form)))
      (is_timestamp-IsOneLine b.timestamp ((is_timestamp_iff _).1 (q.timestamp_form)))
      (is_nonce-IsOneLine b.nonce ((is_nonce_iff _).1 (q.nonce_form)))
      (is_job_id-IsOneLine b.job_id ((is_job_id_iff _).1 (q.job_id_form))) same
