-- ===== src/Node/Journal/Upkeep.antt =====
-- Claims and compactions keep a journal sound (apps/supplier-node/src/replay-journal.ts).
use token_streaming.Common.{
  ℕ, ◌≤◌, ◌≡◌, ◌∙◌, refl, ap, false, Option, none, some, ◌++◌, if-holds, Option-cases, inl, inr,
  arith,
}
use token_streaming.Common.Outcome.{Outcome}
use token_streaming.Js.{max_safe}
use token_streaming.Js.Texts.{Text}
use token_streaming.Js.Maps.{lookup, prune_map}
use token_streaming.Js.Maps.Distinct.{lookup-prune_none, lookup_live}
use token_streaming.Node.Errors.{Thrown}
use token_streaming.Node.Journal.File.{
  Setup, Entry, Journal, nonce_line, request_line, prune_journal, compact, Replacing, replaced,
  not_replaced, replaced_badly, Disk, append, compact_now, create_body_commitment, keyed_commitment,
  body_commitment_domain,
}
use token_streaming.Node.Journal.{
  keep_nonce, keep_request, is_live, prior_claim, unless_prior, claim_nonce, claim_commitment,
  claim_made, claim_request,
}
use token_streaming.Node.Journal.Records.{is_sha256}
use token_streaming.Node.Journal.Reloading.{nonce_expiry, entry_expiry}
use token_streaming.Node.Journal.Sound.{IsSound, compact-IsSound, prune_journal-IsSound}
use token_streaming.Node.Journal.Growing.{keep_nonce-IsSound, keep_request-IsSound}
use token_streaming.Node.Journal.Healthy.{
  Healthy, Lasts, guarded-Healthy, then_keep-Healthy, append-Settled,
}
use token_streaming.Node.Journal.Accepted.{HexDigests}

nonces-compact :
    (s : Setup) (disk : Replacing) (now : ℕ) (j : Journal)
    → (compact s disk now j).0.nonces ≡ (prune_journal now j).nonces
unfolding compact
nonces-compact s replaced now j = ground arith
nonces-compact s not_replaced now j = ground arith
nonces-compact s replaced_badly now j = ground arith

requests-compact :
    (s : Setup) (disk : Replacing) (now : ℕ) (j : Journal)
    → (compact s disk now j).0.requests ≡ (prune_journal now j).requests
unfolding compact
requests-compact s replaced now j = ground arith
requests-compact s not_replaced now j = ground arith
requests-compact s replaced_badly now j = ground arith

Lasts-absent_nonce : (s : Setup) (key : Text) → Lasts s (λ k. lookup key k.nonces ≡ none)
unfolding prune_journal
Lasts-absent_nonce s key disk now j absent =
    ap (lookup key) (nonces-compact s disk now j)
    ∙ lookup-prune_none nonce_expiry now key j.nonces absent

Lasts-absent_request : (s : Setup) (key : Text) → Lasts s (λ k. lookup key k.requests ≡ none)
unfolding prune_journal
Lasts-absent_request s key disk now j absent =
    ap (lookup key) (requests-compact s disk now j)
    ∙ lookup-prune_none entry_expiry now key j.requests absent

absent_nonce :
    (now : ℕ) (key : Text) (j : Journal)
    → is_live now (lookup key (prune_journal now j).nonces) ≡ false
    → lookup key (prune_journal now j).nonces ≡ none
unfolding prune_journal
absent_nonce now key j fresh = elim (Option-cases (lookup key (prune_map (λ e. e) now j.nonces))) [
  | inl gone ↦ gone
  | inr (e, found) ↦ let live = lookup_live nonce_expiry now key e j.nonces found in ground arith
]

absent_request :
    (now : ℕ) (key commitment : Text) (j : Journal)
    → prior_claim now commitment (lookup key (prune_journal now j).requests) ≡ none
    → lookup key (prune_journal now j).requests ≡ none
unfolding prune_journal
absent_request now key commitment j fresh =
    elim (Option-cases (lookup key (prune_map (λ (e : Entry). e.expires_at) now j.requests))) [
      | inl gone ↦ gone
      | inr (e, found) ↦
          let live = lookup_live entry_expiry now key e j.requests found in ground arith
    ]

module _ (s : Setup) (hex : HexDigests s) (last now : ℕ) (le : last ≤ now) where
  module _ (j : Journal) (sound : j.terminal_failure ≡ false → IsSound s last j) where
    pruned-IsSound : j.terminal_failure ≡ false → IsSound s now (prune_journal now j)
    pruned-IsSound healthy = prune_journal-IsSound s last now j le (sound healthy)

    pub claim_nonce-Healthy :
        (disk : Disk) (nonce : Text) (expires_at : ℕ)
        → expires_at ≤ max_safe
        → Healthy (IsSound s now) (claim_nonce s disk nonce expires_at now j)
    unfolding claim_nonce
    claim_nonce-Healthy disk nonce expires_at safe =
        let key = s.sha256 nonce in
        if-holds (Healthy (IsSound s now)) j.terminal_failure _ _ (λ failed h. cc)
          (λ healthy.
            if-holds (Healthy (IsSound s now))
              (is_live now (lookup key (prune_journal now j).nonces)) _ _
              (λ _ _. pruned-IsSound healthy)
              (λ fresh.
                then_keep-Healthy s now disk (keep_nonce key expires_at)
                  (append s disk now (nonce_line key expires_at) (prune_journal now j))
                  (append-Settled s now (λ k. lookup key k.nonces ≡ none) (Lasts-absent_nonce s key)
                    (nonce_line key expires_at) disk (prune_journal now j)
                    (λ k. IsSound s now (keep_nonce key expires_at k)) (pruned-IsSound healthy)
                    (absent_nonce now key j fresh)
                    (λ k good absent fits.
                      keep_nonce-IsSound s now k good key expires_at absent (hex.sha256 nonce, safe)
                        fits))))

    claim_commitment-Healthy :
        (disk : Disk) (request_id body : Text) (expires_at : ℕ)
        → expires_at ≤ max_safe
        → j.terminal_failure ≡ false
        → Healthy (IsSound s now) (
            claim_commitment s disk
              (s.sha256 request_id)
              (keyed_commitment s body)
              expires_at
              now
              (prune_journal now j))
    unfolding claim_commitment
    claim_commitment-Healthy disk request_id body expires_at safe healthy =
        let key = s.sha256 request_id in
        let entry : Entry = record {
          body_commitment = keyed_commitment s body;
          expires_at = expires_at;
        } in
        unless_prior-Healthy
          (prior_claim now (keyed_commitment s body) (lookup key (prune_journal now j).requests)) _
          (pruned-IsSound healthy)
          (λ fresh.
            then_keep-Healthy s now disk (keep_request key entry)
              (append s disk now (request_line key entry) (prune_journal now j))
              (append-Settled s now (λ k. lookup key k.requests ≡ none) (Lasts-absent_request s key)
                (request_line key entry) disk (prune_journal now j)
                (λ k. IsSound s now (keep_request key entry k)) (pruned-IsSound healthy)
                (absent_request now key (keyed_commitment s body) j fresh)
                (λ k good absent fits.
                  keep_request-IsSound s now k good key entry absent
                    (
                      hex.sha256 request_id,
                      hex.hmac s.gateway_token (body_commitment_domain ++ body),
                      safe,
                    )
                    fits)))
      where
        unless_prior-Healthy :
            (prior : Option Thrown) (claimed : Journal × Outcome Thrown (Unit {0}))
            → IsSound s now (prune_journal now j)
            → (prior ≡ none → Healthy (IsSound s now) claimed)
            → Healthy (IsSound s now) (unless_prior prior (prune_journal now j) claimed)
        unless_prior-Healthy (some e) claimed good next = λ h. good
        unless_prior-Healthy none claimed good next = next refl

    pub claim_request-Healthy :
        (disk : Disk) (request_id body : Text) (expires_at : ℕ)
        → expires_at ≤ max_safe
        → Healthy (IsSound s now) (claim_request s disk request_id body expires_at now j)
    unfolding claim_request create_body_commitment
    claim_request-Healthy disk request_id body expires_at safe =
        if-holds (Healthy (IsSound s now)) j.terminal_failure _ _ (λ failed h. cc)
          (λ healthy.
            if-holds
              (λ made.
                Healthy (IsSound s now) (
                  claim_made s disk (s.sha256 request_id) made expires_at now
                    (prune_journal now j)))
              (is_sha256 body) _ _
              (λ _. claim_commitment-Healthy disk request_id body expires_at safe healthy)
              (λ _ _. pruned-IsSound healthy))

    pub compact_now-Healthy : (disk : Disk) → Healthy (IsSound s now) (compact_now s disk now j)
    unfolding compact_now
    compact_now-Healthy disk =
        if-holds (Healthy (IsSound s now)) j.terminal_failure _ _ (λ failed h. cc)
          (λ healthy.
            guarded-Healthy (IsSound s now) (compact s disk.last_compaction now j)
              (compact-IsSound s disk.last_compaction now j ((sound healthy).formed)))
