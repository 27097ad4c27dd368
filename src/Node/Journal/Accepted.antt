-- ===== src/Node/Journal/Accepted.antt =====
-- What a claim that returned leaves, and what a kept claim refuses
-- (apps/supplier-node/src/replay-journal.ts).
use token_streaming.Common.{
  ℕ, ◌≤◌, ◌≡◌, ◌⊎◌, refl, Bool, true, false, Option, none, some, Memᴰ, inl, inr, arith, ◌==◌,
  if-holds, if◌then◌else◌,
}
use mathlib.Core.List.Memᴰ
use token_streaming.Common.Outcome.{Outcome, ok, err}
use token_streaming.Js.Texts.{Text, text_eq}
use token_streaming.Js.Maps.{lookup, lookup-set_self}
use token_streaming.Node.Errors.{Thrown, refusal, replay_detected, idempotency_conflict}
use token_streaming.Node.Journal.File.{
  Setup, Entry, Journal, Line, Disk, Writing, written, broken, nonce_line, request_line,
  prune_journal, make_room, write_if, write_line, append, maybe_compact_after_append, unavailable,
  create_body_commitment, keyed_commitment,
}
use token_streaming.Node.Journal.{
  then_keep, keep_nonce, keep_request, is_live, unless_prior, claim_nonce, claim_commitment,
  claim_made, claim_request,
}
use token_streaming.Node.Journal.Records.{is_sha256}
use token_streaming.Node.Journal.Keeping.{
  Claim, nonce_claim, request_claim, claim_expiry, claim_line, Keeps, prune_journal-Keeps,
  maybe_compact_after_append-Keeps,
}

-- The digests are written as 64 hexadecimal digits.
pub record HexDigests (s : Setup) : Type 0 where
  pub sha256 : (t : Text) → is_sha256 (s.sha256 t) ≡ true
  pub hmac : (key t : Text) → is_sha256 (s.hmac key t) ≡ true

-- What an operation that returned leaves.
abbrev Returned : (Journal → Type 0) → Journal × Outcome Thrown (Unit {0}) → Type 0
Returned P (j, ok _) = P j
Returned P (j, err _) = Unit

pub Returned-at :
    (P : Journal → Type 0) (r : Journal × Outcome Thrown (Unit {0}))
    → Returned P r
    → r.1 ≡ ok tt
    → P r.0
Returned-at P (j, ok _) p h = p
Returned-at P (j, err e) p h = cc

Returned-of_all :
    (P : Journal → Type 0) (r : Journal × Outcome Thrown (Unit {0})) → P r.0 → Returned P r
Returned-of_all P (j, ok _) p = p
Returned-of_all P (j, err _) p = tt

write_if-Returned :
    (writing : Writing) (line : Line) (r : Journal × Bool)
    → Returned (λ k. Memᴰ line k.file) (write_if writing line r)
unfolding write_line
write_if-Returned written line (j, true) = Memᴰ.append_right j.file (Memᴰ.head refl)
write_if-Returned (broken left) line (j, true) = tt
write_if-Returned writing line (j, false) = tt

append-Returned :
    (s : Setup) (disk : Disk) (now : ℕ) (line : Line) (j : Journal)
    → Returned (λ k. Memᴰ line k.file) (append s disk now line j)
unfolding append
append-Returned s disk now line j =
    if-holds (Returned (λ k. Memᴰ line k.file)) disk.first_stat _ _
      (λ _. write_if-Returned disk.writing line (make_room s disk now line j)) (λ _. tt)

then_keep-Returned :
    (s : Setup) (disk : Disk) (now : ℕ) (claim : Claim) (keep : Journal → Journal)
    (r : Journal × Outcome Thrown (Unit {0}))
    → now ≤ claim_expiry claim
    → ((k : Journal) → Memᴰ (claim_line claim) k.file → Keeps claim (keep k))
    → Returned (λ k. Memᴰ (claim_line claim) k.file) r
    → Returned (Keeps claim) (then_keep s disk now keep r)
then_keep-Returned s disk now claim keep (j, ok u) live kept m =
    Returned-of_all (Keeps claim) (maybe_compact_after_append s disk now (keep j))
      (maybe_compact_after_append-Keeps s claim now live disk (keep j) (kept j m))
then_keep-Returned s disk now claim keep (j, err e) live kept m = tt

module _ (s : Setup) where
  pub claim_nonce-Returned :
      (disk : Disk) (nonce : Text) (expires_at now : ℕ) (j : Journal)
      → now ≤ expires_at
      → Returned
          (Keeps (nonce_claim (s.sha256 nonce) expires_at))
          (claim_nonce s disk nonce expires_at now j)
  unfolding claim_nonce
  claim_nonce-Returned disk nonce expires_at now j live =
      let key = s.sha256 nonce in
      let claim = nonce_claim key expires_at in
      if-holds (Returned (Keeps claim)) j.terminal_failure _ _ (λ _. tt)
        (λ _.
          if-holds (Returned (Keeps claim)) (is_live now (lookup key (prune_journal now j).nonces))
            _ _ (λ _. tt)
            (λ _.
              then_keep-Returned s disk now claim (keep_nonce key expires_at)
                (append s disk now (nonce_line key expires_at) (prune_journal now j)) live
                (λ k m. record { held = lookup-set_self key expires_at k.nonces; filed = m })
                (append-Returned s disk now (nonce_line key expires_at) (prune_journal now j))))

  pub refused_nonce :
      (disk : Disk) (nonce : Text) (expires_at e now : ℕ) (j : Journal)
      → now ≤ expires_at
      → Keeps (nonce_claim (s.sha256 nonce) expires_at) j
      → (claim_nonce s disk nonce e now j).1
        ≡ err (if j.terminal_failure then unavailable else refusal replay_detected 409)
  unfolding claim_nonce
  refused_nonce disk nonce expires_at e now j live keeps =
      let kept = prune_journal-Keeps s (nonce_claim (s.sha256 nonce) expires_at) now live j keeps in
      let held = kept.held in ground arith

  Returned-unless_prior :
      (P : Journal → Type 0) (prior : Option Thrown) (j : Journal)
      (claimed : Journal × Outcome Thrown (Unit {0}))
      → Returned P claimed
      → Returned P (unless_prior prior j claimed)
  Returned-unless_prior P (some e) j claimed p = tt
  Returned-unless_prior P none j claimed p = p

  claim_commitment-Returned :
      (disk : Disk) (key commitment : Text) (expires_at now : ℕ) (j : Journal)
      → now ≤ expires_at
      → Returned
          (Keeps
            (request_claim key (record { body_commitment = commitment; expires_at = expires_at })))
          (claim_commitment s disk key commitment expires_at now j)
  unfolding claim_commitment
  claim_commitment-Returned disk key commitment expires_at now j live =
      let entry : Entry = record { body_commitment = commitment; expires_at = expires_at } in
      Returned-unless_prior (Keeps (request_claim key entry)) _ j _ (
        then_keep-Returned s disk now (request_claim key entry) (keep_request key entry)
          (append s disk now (request_line key entry) j) live
          (λ k m. record { held = lookup-set_self key entry k.requests; filed = m })
          (append-Returned s disk now (request_line key entry) j))

  claim_made-Returned :
      (disk : Disk) (key body : Text) (made : Option Text) (expires_at now : ℕ) (j : Journal)
      → now ≤ expires_at
      → (made ≡ none) ⊎ (made ≡ some (keyed_commitment s body))
      → Returned
          (Keeps (
            request_claim key
              (record { body_commitment = keyed_commitment s body; expires_at = expires_at })))
          (claim_made s disk key made expires_at now j)
  claim_made-Returned disk key body none expires_at now j live made = tt
  claim_made-Returned disk key body (some c) expires_at now j live (inl missing) = cc
  claim_made-Returned disk key body (some c) expires_at now j live (inr same) =
      let here : c ≡ keyed_commitment s body = cc in
      rw here (claim_commitment-Returned disk key (keyed_commitment s body) expires_at now j live)

  pub claim_request-Returned :
      (disk : Disk) (request_id body : Text) (expires_at now : ℕ) (j : Journal)
      → now ≤ expires_at
      → Returned
          (Keeps (
            request_claim
              (s.sha256 request_id)
              (record { body_commitment = keyed_commitment s body; expires_at = expires_at })))
          (claim_request s disk request_id body expires_at now j)
  unfolding claim_request create_body_commitment
  claim_request-Returned disk request_id body expires_at now j live =
      let entry : Entry = record {
        body_commitment = keyed_commitment s body;
        expires_at = expires_at;
      } in
      if-holds (Returned (Keeps (request_claim (s.sha256 request_id) entry))) j.terminal_failure _ _
        (λ _. tt)
        (λ _.
          claim_made-Returned disk (s.sha256 request_id) body
            (if is_sha256 body then some (keyed_commitment s body) else none) expires_at now
            (prune_journal now j) live (ground arith))

  -- A claim of a request that returned is kept.
  pub claim_request-Returned_at :
      (disk : Disk) (request_id body : Text) (expires_at now : ℕ) (j : Journal)
      → now ≤ expires_at
      → (claim_request s disk request_id body expires_at now j).1 ≡ ok tt
      → Keeps
          (request_claim
            (s.sha256 request_id)
            (record { body_commitment = keyed_commitment s body; expires_at = expires_at }))
          (claim_request s disk request_id body expires_at now j).0
  claim_request-Returned_at disk request_id body expires_at now j live accepted =
      Returned-at
        (Keeps (
          request_claim (s.sha256 request_id)
            (record { body_commitment = keyed_commitment s body; expires_at = expires_at })))
        (claim_request s disk request_id body expires_at now j)
        (claim_request-Returned disk request_id body expires_at now j live) accepted

  pub refused_request :
      (disk : Disk) (request_id body other : Text) (expires_at e now : ℕ) (j : Journal)
      → now ≤ expires_at
      → is_sha256 other ≡ true
      → Keeps
          (request_claim
            (s.sha256 request_id)
            (record { body_commitment = keyed_commitment s body; expires_at = expires_at }))
          j
      → (claim_request s disk request_id other e now j).1
        ≡ err (
            if j.terminal_failure
            then unavailable
            else if keyed_commitment s body == keyed_commitment s other
            then refusal replay_detected 409
            else refusal idempotency_conflict 409)
  unfolding claim_request create_body_commitment claim_commitment
  refused_request disk request_id body other expires_at e now j live hex keeps =
      let entry : Entry = record {
        body_commitment = keyed_commitment s body;
        expires_at = expires_at;
      } in
      let kept =
        prune_journal-Keeps s (request_claim (s.sha256 request_id) entry) now live j keeps in
      let held = kept.held in ground arith
