-- ===== src/Node/Journal/Tests.antt =====
-- Runs of the journal, and the theorems at inputs (apps/supplier-node/src/replay-journal.ts).
use token_streaming.Common.{
  ℕ, ◌+◌, ◌%◌, ◌≤◌, ◌≡◌, refl, true, false, some, List, [], ◌∷◌, ◌++◌, arith, ◌==◌, if◌then◌else◌,
}
use token_streaming.Common.Outcome.{ok, err}
use token_streaming.Js.Texts.{Text, text, text_eq}
use token_streaming.Js.Maps.{prune_map}
use token_streaming.Node.Errors.{refusal, replay_detected, idempotency_conflict}
use token_streaming.Node.Journal.File.{
  Setup, Journal, Disk, written, broken, replaced, unreadable, file_bytes, keyed_commitment,
  nonce_line, request_line, unavailable, maximum_journal_bytes,
}
use token_streaming.Node.Journal.{up, claim_nonce, claim_request, load, open_journal, down}
use token_streaming.Node.Code.{code}
use token_streaming.Node.Journal.Records.{is_sha256}
use token_streaming.Node.Journal.Events.{
  Event, nonce_claimed, request_claimed, compacted, restarted, run,
}
use token_streaming.Node.Journal.Accepted.{HexDigests}
use token_streaming.Node.Journal.Once.{claim_nonce_once, claim_request_once}
use token_streaming.Node.Journal.Reloading.{nonce_expiry, entry_expiry}
use token_streaming.Node.Journal.Restored.{restored, running_file, open_journal_restores}

abbrev sum : Text → ℕ
sum [] = 0
sum (c ∷ t) = c + sum t

-- A digest for tests: zeros, and the last digit of the sum of the units.
abbrev pub zeros : Text
zeros = text "000000000000000000000000000000000000000000000000000000000000000"

abbrev pub digest : Text → Text
digest t = zeros ++ (b'0' + sum t % 10) ∷ []

abbrev pub node : Setup
node = record {
  sha256 = digest;
  hmac = λ key t. digest t;
  line_bytes = λ line. 100;
  gateway_token = text "token";
  compaction_interval = 300_000;
}

digest_form : (t : Text) → is_sha256 (digest t) ≡ true
unfolding code
digest_form t = ground arith

pub node-HexDigests : HexDigests node
node-HexDigests = record { sha256 = digest_form; hmac = λ key t. digest_form t }

abbrev pub good_disk : Disk
good_disk = record {
  first_stat = true;
  first_compaction = replaced;
  second_stat = true;
  writing = written;
  last_stat = true;
  last_compaction = replaced;
}

abbrev full_disk : Disk
full_disk = record good_disk { writing = broken (unreadable ∷ []) }

abbrev pub empty_journal : Journal
empty_journal = record {
  nonces = [];
  requests = [];
  appended_since_compaction = 0;
  last_compacted_at = 1_000;
  terminal_failure = false;
  file = [];
}

abbrev afternoon : List Event
afternoon =
    nonce_claimed good_disk (text "another-nonce-00") 400_000 2_000
    ∷ compacted good_disk 3_000
    ∷ restarted replaced 4_000
    ∷ []

claimed : (claim_nonce node good_disk (text "nonce") 301_000 1_000 empty_journal).1 ≡ ok tt
unfolding code
claimed = refl

-- The journal after the claim and the afternoon.
abbrev evening : Journal
evening = record {
  nonces = (digest (text "nonce"), 301_000) ∷ (digest (text "another-nonce-00"), 400_000) ∷ [];
  requests = [];
  appended_since_compaction = 0;
  last_compacted_at = 4_000;
  terminal_failure = false;
  file =
      nonce_line (digest (text "nonce")) 301_000
      ∷ nonce_line (digest (text "another-nonce-00")) 400_000
      ∷ [];
}

evening_comes :
    run node afternoon
      (up (claim_nonce node good_disk (text "nonce") 301_000 1_000 empty_journal).0)
    ≡ up evening
unfolding code
evening_comes = refl

nonce_is_refused :
    (claim_nonce node good_disk (text "nonce") 500_000 5_000 evening).1
    ≡ err (refusal replay_detected 409)
nonce_is_refused =
    claim_nonce_once node node-HexDigests good_disk good_disk (text "nonce") 301_000 500_000 1_000
      5_000 empty_journal evening afternoon (omega arith) (omega arith) claimed
      (omega arith, (omega arith, (omega arith, tt))) evening_comes (omega arith)

abbrev body : Text
body = zeros ++ text "a"

abbrev other_body : Text
other_body = zeros ++ text "b"

abbrev night : List Event
night =
    request_claimed good_disk (text "job-0001") other_body 900_000 2_000
    ∷ restarted replaced 3_000
    ∷ []

abbrev morning : Journal
morning = record {
  nonces = [];
  requests =
      (
        digest (text "job-1"),
        record { body_commitment = keyed_commitment node body; expires_at = 901_000 },
      )
      ∷ (
        digest (text "job-0001"),
        record { body_commitment = keyed_commitment node other_body; expires_at = 900_000 },
      )
      ∷ [];
  appended_since_compaction = 0;
  last_compacted_at = 3_000;
  terminal_failure = false;
  file =
      request_line (digest (text "job-1"))
        (record { body_commitment = keyed_commitment node body; expires_at = 901_000 })
      ∷ request_line (digest (text "job-0001"))
          (record { body_commitment = keyed_commitment node other_body; expires_at = 900_000 })
      ∷ [];
}

request_claim_returns :
    (claim_request node good_disk (text "job-1") body 901_000 1_000 empty_journal).1 ≡ ok tt
unfolding code
request_claim_returns = refl

morning_comes :
    run node night
      (up (claim_request node good_disk (text "job-1") body 901_000 1_000 empty_journal).0)
    ≡ up morning
unfolding code
morning_comes = refl

other_form : is_sha256 other_body ≡ true
unfolding code
other_form = refl

claim_request_once_example :
    (claim_request node good_disk (text "job-1") other_body 950_000 4_000 morning).1
    ≡ err (
        if keyed_commitment node body == keyed_commitment node other_body
        then refusal replay_detected 409
        else refusal idempotency_conflict 409)
claim_request_once_example =
    claim_request_once node node-HexDigests good_disk good_disk (text "job-1") body other_body
      901_000 950_000 1_000 4_000 empty_journal morning night (omega arith) (omega arith)
      request_claim_returns (omega arith, (omega arith, tt)) morning_comes (omega arith) other_form

-- A node that starts without claims, and its journal after the afternoon.
abbrev quiet : Journal
quiet = record {
  nonces = (digest (text "another-nonce-00"), 400_000) ∷ [];
  requests = [];
  appended_since_compaction = 0;
  last_compacted_at = 4_000;
  terminal_failure = false;
  file = nonce_line (digest (text "another-nonce-00")) 400_000 ∷ [];
}

quiet_comes : run node afternoon (open_journal node replaced 1_000 []) ≡ up quiet
unfolding code
quiet_comes = refl

running_file_example :
    (file_bytes node quiet.file ≤ maximum_journal_bytes)
    × (load node 5_000 quiet.file ([], [])
        ≡ some (
          prune_map nonce_expiry 5_000 quiet.nonces,
          prune_map entry_expiry 5_000 quiet.requests,
        ))
running_file_example =
    running_file node node-HexDigests [] replaced 1_000 afternoon quiet 5_000
      (omega arith, omega arith, (omega arith, tt, (omega arith, tt, tt))) quiet_comes refl
      (omega arith)

open_journal_restores_example :
    open_journal node replaced 5_000 quiet.file ≡ up (restored 5_000 quiet)
open_journal_restores_example =
    open_journal_restores node node-HexDigests [] replaced 1_000 afternoon quiet 5_000 (omega arith)
      (omega arith) (omega arith, omega arith, (omega arith, tt, (omega arith, tt, tt))) quiet_comes
      refl (omega arith)

-- The disk breaks off a line: the claim is refused, and the node does not start on such a file.
breaks : (claim_nonce node full_disk (text "nonce") 301_000 1_000 empty_journal).1 ≡ err unavailable
unfolding code
breaks = refl

stays_down :
    run node
      (restarted replaced 2_000 ∷ [])
      (up (claim_nonce node full_disk (text "nonce") 301_000 1_000 empty_journal).0)
    ≡ down (unreadable ∷ [])
unfolding code
stays_down = refl
