-- ===== src/Node/Journal/Claims.antt =====
-- A live claim stays through the operations of the journal
-- (apps/supplier-node/src/replay-journal.ts).
use token_streaming.Common.{
  ℕ, ◌≤◌, ◌≡◌, ◌≢◌, refl, subst, false, Option, none, some, arith, if-holds,
}
use token_streaming.Common.Outcome.{Outcome}
use token_streaming.Js.Texts.{Text}
use token_streaming.Js.Maps.{lookup}
use token_streaming.Node.Errors.{Thrown}
use token_streaming.Node.Journal.File.{
  Setup, Entry, Journal, Disk, nonce_line, request_line, prune_journal, compact, compact_now,
  append, create_body_commitment,
}
use token_streaming.Node.Journal.{
  keep_nonce, keep_request, is_live, prior_claim, unless_prior, claim_nonce, claim_commitment,
  claim_made, claim_request,
}
use token_streaming.Node.Journal.Keeping.{
  Claim, nonce_claim, request_claim, claim_expiry, Holds, maps, Keeps, keep_nonce-Keeps,
  keep_request-Keeps, prune_journal-Keeps, compact-Keeps, guarded-Keeps, append-Keeps,
  then_keep-Keeps,
}

abbrev After : Claim → Journal × Outcome Thrown (Unit {0}) → Type 0
After claim (j, out) = Keeps claim j

module _ (s : Setup) (claim : Claim) (now : ℕ) (live : now ≤ claim_expiry claim) where
  fresh_nonce :
      (key : Text) (j : Journal)
      → is_live now (lookup key j.nonces) ≡ false
      → Keeps claim j
      → (e : ℕ) → claim ≢ nonce_claim key e
  fresh_nonce key j fresh keeps e same =
      let held = subst (λ c. Holds c (maps j)) same (keeps.held) in
      let alive = subst (λ c. now ≤ claim_expiry c) same live in ground arith

  fresh_request :
      (key commitment : Text) (j : Journal)
      → prior_claim now commitment (lookup key j.requests) ≡ none
      → Keeps claim j
      → (e : Entry) → claim ≢ request_claim key e
  fresh_request key commitment j fresh keeps e same =
      let held = subst (λ c. Holds c (maps j)) same (keeps.held) in
      let alive = subst (λ c. now ≤ claim_expiry c) same live in ground arith

  unless_prior-Keeps :
      (prior : Option Thrown) (j : Journal) (claimed : Journal × Outcome Thrown (Unit {0}))
      → Keeps claim j
      → (prior ≡ none → Keeps claim claimed.0)
      → Keeps claim (unless_prior prior j claimed).0
  unless_prior-Keeps (some e) j claimed keeps kept = keeps
  unless_prior-Keeps none j claimed keeps kept = kept refl

  pub claim_nonce-Keeps :
      (disk : Disk) (nonce : Text) (expires_at : ℕ) (j : Journal)
      → Keeps claim j
      → Keeps claim (claim_nonce s disk nonce expires_at now j).0
  unfolding claim_nonce
  claim_nonce-Keeps disk nonce expires_at j keeps =
      let kept = prune_journal-Keeps s claim now live j keeps in
      let key = s.sha256 nonce in
      let appended = append s disk now (nonce_line key expires_at) (prune_journal now j) in
      if-holds (After claim) j.terminal_failure _ _ (λ _. keeps)
        (λ _.
          if-holds (After claim) (is_live now (lookup key (prune_journal now j).nonces)) _ _
            (λ _. kept)
            (λ fresh.
              then_keep-Keeps s claim now live disk (keep_nonce key expires_at) (appended.0)
                (appended.1)
                (λ k.
                  keep_nonce-Keeps claim key expires_at k
                    (fresh_nonce key (prune_journal now j) fresh kept))
                (append-Keeps s claim now live disk (nonce_line key expires_at)
                  (prune_journal now j) kept)))

  claim_commitment-Keeps :
      (disk : Disk) (key commitment : Text) (expires_at : ℕ) (j : Journal)
      → Keeps claim j
      → Keeps claim (claim_commitment s disk key commitment expires_at now j).0
  unfolding claim_commitment
  claim_commitment-Keeps disk key commitment expires_at j keeps =
      let entry : Entry = record { body_commitment = commitment; expires_at = expires_at } in
      let appended = append s disk now (request_line key entry) j in
      unless_prior-Keeps (prior_claim now commitment (lookup key j.requests)) j _ keeps (λ fresh.
        then_keep-Keeps s claim now live disk (keep_request key entry) (appended.0) (appended.1)
          (λ k. keep_request-Keeps claim key entry k (fresh_request key commitment j fresh keeps))
          (append-Keeps s claim now live disk (request_line key entry) j keeps))

  claim_made-Keeps :
      (disk : Disk) (key : Text) (commitment : Option Text) (expires_at : ℕ) (j : Journal)
      → Keeps claim j
      → Keeps claim (claim_made s disk key commitment expires_at now j).0
  claim_made-Keeps disk key none expires_at j keeps = keeps
  claim_made-Keeps disk key (some commitment) expires_at j keeps =
      claim_commitment-Keeps disk key commitment expires_at j keeps

  pub claim_request-Keeps :
      (disk : Disk) (request_id body_sha256 : Text) (expires_at : ℕ) (j : Journal)
      → Keeps claim j
      → Keeps claim (claim_request s disk request_id body_sha256 expires_at now j).0
  unfolding claim_request
  claim_request-Keeps disk request_id body_sha256 expires_at j keeps =
      let kept = prune_journal-Keeps s claim now live j keeps in
      if-holds (After claim) j.terminal_failure _ _ (λ _. keeps)
        (λ _.
          claim_made-Keeps disk (s.sha256 request_id) (create_body_commitment s body_sha256)
            expires_at (prune_journal now j) kept)

  pub compact_now-Keeps :
      (disk : Disk) (j : Journal) → Keeps claim j → Keeps claim (compact_now s disk now j).0
  unfolding compact_now
  compact_now-Keeps disk j keeps =
      if-holds (After claim) j.terminal_failure _ _ (λ _. keeps)
        (λ _.
          guarded-Keeps s claim now live ((compact s disk.last_compaction now j).0)
            ((compact s disk.last_compaction now j).1)
            (compact-Keeps s claim now live disk.last_compaction j keeps))
