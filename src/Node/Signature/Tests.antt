-- ===== src/Node/Signature/Tests.antt =====
-- Runs of the verification, and the theorems at inputs (apps/supplier-node/src/signature.ts).
use token_streaming.Common.{◌≡◌, ◌≢◌, ◌↔◌, refl, false, some, [], ◌∷◌, arith, List}
use token_streaming.Common.Outcome.{ok, err}
use token_streaming.Js.Texts.{text}
use token_streaming.Node.Errors.{refusal, signature_invalid}
use token_streaming.Node.Journal.File.{Journal, replaced, nonce_line}
use token_streaming.Node.Journal.{up}
use token_streaming.Node.Code.{code}
use token_streaming.Node.Journal.Events.{Event, compacted, restarted, run}
use token_streaming.Node.Journal.Tests.{node, node-HexDigests, digest, good_disk, empty_journal}
use token_streaming.Node.Signature.{
  SignedGatewayCall, SignatureInput, Guard, create_gateway_signature, check_call,
  verify_signed_gateway_call,
}
use token_streaming.Node.Signature.Checked.{IsSigned, check_call_iff, signed_payload_determines}
use token_streaming.Node.Signature.Verified.{verify_signed_gateway_call_once}

abbrev input : SignatureInput
input = record {
  timestamp = text "1700000000000";
  nonce = text "nonce-0123456789";
  job_id = text "job-00001";
  body_sha256 = digest (text "{}");
}

abbrev call : SignedGatewayCall
call = record {
  authorization = some (text "Bearer token");
  timestamp = some (text "1700000000000");
  nonce = some (text "nonce-0123456789");
  job_id = some (text "job-00001");
  signature = some (create_gateway_signature node input);
  raw_body = text "{}";
}

call_passes : check_call node call ≡ ok input
unfolding code
call_passes = refl

-- The job of the call is not the one that was signed.
altered :
    check_call node (record call { job_id = some (text "job-00003") })
    ≡ err (refusal signature_invalid 401)
unfolding code
altered = refl

check_call_iff_example : (check_call node call ≡ ok input) ↔ IsSigned node call input
check_call_iff_example = check_call_iff node call input

signed_payload_determines_example : input ≡ input
signed_payload_determines_example =
    signed_payload_determines node call call input input call_passes call_passes refl

abbrev new_guard : Guard
new_guard = record { seen = []; journal = empty_journal }

abbrev restart : List Event
restart = compacted good_disk 1_700_000_000_200 ∷ restarted replaced 1_700_000_000_300 ∷ []

abbrev kept_journal : Journal
kept_journal = record {
  nonces = (digest (text "nonce-0123456789"), 1_700_000_300_000) ∷ [];
  requests = [];
  appended_since_compaction = 0;
  last_compacted_at = 1_700_000_000_300;
  terminal_failure = false;
  file = nonce_line (digest (text "nonce-0123456789")) 1_700_000_300_000 ∷ [];
}

verified : (verify_signed_gateway_call node good_disk call 1_700_000_000_100 new_guard).1 ≡ ok input
unfolding code
verified = refl

kept :
    run node restart
      (up (verify_signed_gateway_call node good_disk call 1_700_000_000_100 new_guard).0.journal)
    ≡ up kept_journal
unfolding code
kept = refl

verify_signed_gateway_call_once_example :
    (verify_signed_gateway_call node good_disk call 1_700_000_000_500
      (record { seen = []; journal = kept_journal })).1
    ≢ ok input
verify_signed_gateway_call_once_example =
    verify_signed_gateway_call_once node node-HexDigests good_disk good_disk call call input input
      1_700_000_000_100 1_700_000_000_500 new_guard (record { seen = []; journal = kept_journal })
      restart verified (omega arith, (omega arith, tt)) kept refl refl
