-- ===== src/Node/Journal.antt =====
-- apps/supplier-node/src/replay-journal.ts: the journal that remembers, across restarts, which nonces
-- and which requests a node has accepted. Here its claims and how it is opened.
pub mod File
pub mod Records
pub mod Keeping
pub mod Loading
pub mod Reloading
pub mod Sound
pub mod Growing
pub mod Formed
pub mod Healthy
pub mod Upkeep
pub mod Restored
pub mod Tests
pub mod Events
pub mod Claims
pub mod Remembered
pub mod Accepted
pub mod Once
use token_streaming.Common.{
  ℕ, suc, ◌+◌, ◌*◌, Bool, true, false, not, ◌&&◌, ◌||◌, Option, none, some, List, [], ◌∷◌, ◌++◌,
  map, all, length, ltb, leb, nat_eq, ◌==◌, if◌then◌else◌, is_some,
}
use token_streaming.Common.Outcome.{Outcome, ok, err}
use token_streaming.Js.{natural}
use token_streaming.Js.Texts.{Text, text, text_eq}
use token_streaming.Js.Maps.{lookup, set, prune_map}
use token_streaming.Js.Json.{Json, str, num, object, field, end}
use token_streaming.Node.Errors.{
  Thrown, coded, plain, refusal, internal_error, replay_detected, idempotency_conflict,
}
use Records.{Record, nonce, request, parse_record, Commitment, is_sha256}
use token_streaming.Node.Journal.File.{
  Disk, Entry, Journal, Line, Replacing, Setup, append, compact, create_body_commitment, file_bytes,
  maximum_journal_bytes, maybe_compact_after_append, nonce_line, parsed, prune_journal,
  request_line, unavailable, unreadable,
}

-- What a claim does once its line is appended.
abbrev pub then_keep :
    Setup
    → Disk
    → ℕ
    → (Journal → Journal)
    → Journal × Outcome Thrown (Unit {0})
    → Journal × Outcome Thrown (Unit {0})
then_keep s disk now keep (j, ok _) = maybe_compact_after_append s disk now (keep j)
then_keep s disk now keep (j, err e) = (j, err e)

abbrev pub keep_nonce : Text → ℕ → Journal → Journal
keep_nonce key expires_at j = record j { nonces = set key expires_at j.nonces }

abbrev pub keep_request : Text → Entry → Journal → Journal
keep_request key entry j = record j { requests = set key entry j.requests }

-- `(this.nonces.get(key) ?? -1) >= nowMs`
abbrev pub is_live : ℕ → Option ℕ → Bool
is_live now none = false
is_live now (some expires_at) = leb now expires_at

unfoldable pub claim_nonce :
    Setup → Disk → Text → ℕ → ℕ → Journal → Journal × Outcome Thrown (Unit {0})
claim_nonce s disk nonce_text expires_at now j =
    let pruned = prune_journal now j in
    let key = s.sha256 nonce_text in
    if j.terminal_failure
    then (j, err unavailable)
    else if is_live now (lookup key pruned.nonces)
    then (pruned, err (refusal replay_detected 409))
    else then_keep s disk now (keep_nonce key expires_at)
        (append s disk now (nonce_line key expires_at) pruned)

-- The error for a prior claim, if it is live.
abbrev pub prior_claim : ℕ → Text → Option Entry → Option Thrown
prior_claim now commitment none = none
prior_claim now commitment (some prior) =
    if leb now prior.expires_at
    then some (
        if prior.body_commitment == commitment
        then refusal replay_detected 409
        else refusal idempotency_conflict 409)
    else none

abbrev pub unless_prior :
    Option Thrown
    → Journal
    → Journal × Outcome Thrown (Unit {0})
    → Journal × Outcome Thrown (Unit {0})
unless_prior (some e) j claimed = (j, err e)
unless_prior none j claimed = claimed

-- `claimRequest`, once the commitment is made.
unfoldable pub claim_commitment :
    Setup → Disk → Text → Text → ℕ → ℕ → Journal → Journal × Outcome Thrown (Unit {0})
claim_commitment s disk key commitment expires_at now pruned =
    let entry : Entry = record { body_commitment = commitment; expires_at = expires_at } in
    unless_prior (prior_claim now commitment (lookup key pruned.requests)) pruned (
      then_keep s disk now (keep_request key entry)
        (append s disk now (request_line key entry) pruned))

abbrev pub claim_made :
    Setup → Disk → Text → Option Text → ℕ → ℕ → Journal → Journal × Outcome Thrown (Unit {0})
claim_made s disk key none expires_at now pruned = (pruned, err plain)
claim_made s disk key (some commitment) expires_at now pruned =
    claim_commitment s disk key commitment expires_at now pruned

unfoldable pub claim_request :
    Setup → Disk → Text → Text → ℕ → ℕ → Journal → Journal × Outcome Thrown (Unit {0})
claim_request s disk request_id body_sha256 expires_at now j =
    if j.terminal_failure
    then (j, err unavailable)
    else claim_made s disk (s.sha256 request_id) (create_body_commitment s body_sha256) expires_at
        now (prune_journal now j)

unfoldable pub is_healthy : Journal → Bool
is_healthy j = not j.terminal_failure

-- The two maps of a journal.
abbrev pub Kept : Type 0
Kept = List (Text × ℕ) × List (Text × Entry)

-- The commitment of a record: a record of version 1 holds the digest of the body.
unfoldable pub record_commitment : Setup → Commitment → Option Text
record_commitment s (Commitment.body_sha256 digest) = create_body_commitment s digest
record_commitment s (Commitment.body_commitment commitment) = some commitment

-- One round of `load`, `none` where it throws.
unfoldable pub load_record : Setup → ℕ → Record → Kept → Option Kept
load_record s now (nonce key expires_at) (nonces, requests) =
    if ltb expires_at now
    then some (nonces, requests)
    else if is_some (lookup key nonces)
    then none
    else some (set key expires_at nonces, requests)
load_record s now (request key body expires_at) (nonces, requests) =
    if ltb expires_at now then some (nonces, requests) else (elim (record_commitment s body) [
      | none ↦ none
      | some commitment ↦
          if is_some (lookup key requests)
          then none
          else some (
            nonces,
            set key (record { body_commitment = commitment; expires_at = expires_at }) requests,
          )
    ])

unfoldable pub load_line : Setup → ℕ → Line → Kept → Option Kept
load_line s now unreadable kept = none
load_line s now (parsed value) kept = elim (parse_record value) [
  | none ↦ none
  | some r ↦ load_record s now r kept
]

unfoldable pub load : Setup → ℕ → List Line → Kept → Option Kept
load s now [] kept = some kept
load s now (line ∷ lines) kept = elim (load_line s now line kept) [
  | none ↦ none
  | some next ↦ load s now lines next
]

-- A node on its machine: with its journal, or only with the file.
pub data Host : Type 0 where
  down : List Line → Host
  up : Journal → Host

abbrev pub opened : Journal × Bool → Host
opened (j, true) = up j
opened (j, false) = down j.file

abbrev pub loaded_journal : ℕ → List Line → Kept → Journal
loaded_journal now file (nonces, requests) = record {
  nonces = nonces;
  requests = requests;
  appended_since_compaction = 0;
  last_compacted_at = now;
  terminal_failure = false;
  file = file;
}

abbrev pub started : Setup → Replacing → ℕ → List Line → Option Kept → Host
started s disk now file none = down file
started s disk now file (some kept) = opened (compact s disk now (loaded_journal now file kept))

-- The constructor, from the size test on; `down` where it throws.
unfoldable pub open_journal : Setup → Replacing → ℕ → List Line → Host
open_journal s disk now file =
    if ltb s.compaction_interval 1_000
      || ltb 3_600_000 s.compaction_interval
      || ltb maximum_journal_bytes (file_bytes s file)
    then down file
    else started s disk now file (load s now file ([], []))
