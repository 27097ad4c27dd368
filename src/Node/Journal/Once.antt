-- ===== src/Node/Journal/Once.antt =====
-- A nonce and a request are accepted once (apps/supplier-node/src/replay-journal.ts).
use token_streaming.Common.{ℕ, ◌≤◌, ◌≡◌, subst, true, List, ◌++◌, All, ◌==◌, if◌then◌else◌}
use token_streaming.Common.Outcome.{ok, err}
use token_streaming.Js.{max_safe}
use token_streaming.Js.Texts.{Text, text_eq}
use token_streaming.Node.Errors.{refusal, replay_detected, idempotency_conflict}
use token_streaming.Node.Journal.File.{
  Setup, Entry, Journal, Disk, unavailable, body_commitment_domain, keyed_commitment,
}
use token_streaming.Node.Journal.{up, claim_nonce, claim_request}
use token_streaming.Node.Journal.Records.{is_sha256}
use token_streaming.Node.Journal.Keeping.{nonce_claim, request_claim, Keeps}
use token_streaming.Node.Journal.Events.{Event, event_time, run}
use token_streaming.Node.Journal.Remembered.{Remembers, run-Remembers}
use token_streaming.Node.Journal.Accepted.{
  HexDigests, Returned-at, claim_nonce-Returned, refused_nonce, claim_request-Returned,
  refused_request,
}

module _ (s : Setup) (hex : HexDigests s) where
  -- A nonce is accepted once: after a claim that returns, whatever claims, compactions and restarts
  -- follow, however the disk takes them, as long as no clock reading is past the expiry, a running
  -- node refuses the nonce as replayed, or refuses all once its journal has failed. (The expiry is
  -- not before the claim and is a safe integer; digests are 64 hexadecimal digits.)
  pub claim_nonce_once :
      (first second : Disk) (nonce : Text) (expires_at e now later : ℕ) (j k : Journal)
      (events : List Event)
      → now ≤ expires_at
      → expires_at ≤ max_safe
      → (claim_nonce s first nonce expires_at now j).1 ≡ ok tt
      → All (λ event. event_time event ≤ expires_at) events
      → run s events (up (claim_nonce s first nonce expires_at now j).0) ≡ up k
      → later ≤ expires_at
      → (claim_nonce s second nonce e later k).1
        ≡ err (if k.terminal_failure then unavailable else refusal replay_detected 409)
  claim_nonce_once first second nonce expires_at e now later j k events live safe accepted times
        reached until =
      let claim = nonce_claim (s.sha256 nonce) expires_at in
      let claimed = claim_nonce s first nonce expires_at now j in
      let kept =
        Returned-at (Keeps claim) claimed (claim_nonce-Returned s first nonce expires_at now j live)
          accepted in
      let after = run-Remembers s claim (hex.sha256 nonce, safe) events (up claimed.0) times kept in
      refused_nonce s second nonce expires_at e later k until
        (subst (Remembers claim) reached after)

  -- A request is accepted once: after a claim that returns, whatever claims, compactions and
  -- restarts follow, however the disk takes them, as long as no clock reading is past the expiry, a
  -- running node refuses the identifier: as replayed where the commitment to the body is the same, as
  -- a conflict where it differs, or as all else once its journal has failed. (The expiry is not
  -- before the claim and is a safe integer; digests are 64 hexadecimal digits.)
  pub claim_request_once :
      (first second : Disk) (request_id body other : Text) (expires_at e now later : ℕ)
      (j k : Journal) (events : List Event)
      → now ≤ expires_at
      → expires_at ≤ max_safe
      → (claim_request s first request_id body expires_at now j).1 ≡ ok tt
      → All (λ event. event_time event ≤ expires_at) events
      → run s events (up (claim_request s first request_id body expires_at now j).0) ≡ up k
      → later ≤ expires_at
      → is_sha256 other ≡ true
      → (claim_request s second request_id other e later k).1
        ≡ err (
            if k.terminal_failure
            then unavailable
            else if keyed_commitment s body == keyed_commitment s other
            then refusal replay_detected 409
            else refusal idempotency_conflict 409)
  claim_request_once first second request_id body other expires_at e now later j k events live safe
        accepted times reached until digest =
      let entry : Entry = record {
        body_commitment = keyed_commitment s body;
        expires_at = expires_at;
      } in
      let claim = request_claim (s.sha256 request_id) entry in
      let claimed = claim_request s first request_id body expires_at now j in
      let kept =
        Returned-at (Keeps claim) claimed
          (claim_request-Returned s first request_id body expires_at now j live) accepted in
      let after =
        run-Remembers s claim
          (hex.sha256 request_id, hex.hmac s.gateway_token (body_commitment_domain ++ body), safe)
          events (up claimed.0) times kept in
      refused_request s second request_id body other expires_at e later k until digest
        (subst (Remembers claim) reached after)
