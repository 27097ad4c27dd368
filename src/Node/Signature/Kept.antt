-- ===== src/Node/Signature/Kept.antt =====
-- The verification of a call keeps the claims of the journal (apps/supplier-node/src/signature.ts).
use token_streaming.Common.{ℕ, ◌+◌, ◌≤◌, length, leb, ltb, if-holds, is_some}
use token_streaming.Common.Outcome.{Outcome, ok, err}
use token_streaming.Js.Texts.{Text, text_eq}
use token_streaming.Js.Decimal.{read}
use token_streaming.Js.Maps.{lookup, prune_map}
use token_streaming.Node.Errors.{Thrown}
use token_streaming.Node.Journal.File.{Setup, Journal, Disk}
use token_streaming.Node.Journal.{claim_nonce}
use token_streaming.Node.Journal.Keeping.{Claim, claim_expiry, Keeps}
use token_streaming.Node.Journal.Claims.{claim_nonce-Keeps}
use token_streaming.Node.Signature.{
  SignedGatewayCall, SignatureInput, Guard, check_call, replay_window, maximum_entries, distance,
  guard_claimed, verify_and_record, and_return, verify_checked, verify_signed_gateway_call,
}

-- A claim for a time stays in the journal through the verification of a call.
module _ (s : Setup) (claim : Claim) (now : ℕ) (live : now ≤ claim_expiry claim) where
  guard_claimed-Keeps :
      (nonce : Text) (expires_at : ℕ) (g : Guard) (r : Journal × Outcome Thrown (Unit {0}))
      → Keeps claim r.0
      → Keeps claim (guard_claimed nonce expires_at g r).0.journal
  guard_claimed-Keeps nonce expires_at g (j, ok u) keeps = keeps
  guard_claimed-Keeps nonce expires_at g (j, err e) keeps = keeps

  abbrev GuardKeeps {ℓ} : {A : Type ℓ} → Guard × A → Type 0
  GuardKeeps (g, a) = Keeps claim g.journal

  verify_and_record-Keeps :
      (disk : Disk) (nonce : Text) (timestamp : ℕ) (g : Guard)
      → Keeps claim g.journal
      → GuardKeeps (verify_and_record s disk nonce timestamp now g)
  unfolding verify_and_record
  verify_and_record-Keeps disk nonce timestamp g keeps =
      let pruned : Guard = record g { seen = prune_map (λ e. e) now g.seen } in
      if-holds GuardKeeps (ltb replay_window (distance now timestamp)) _ _ (λ _. keeps)
        (λ _.
          if-holds GuardKeeps (is_some (lookup nonce pruned.seen)) _ _ (λ _. keeps)
            (λ _.
              if-holds GuardKeeps (leb maximum_entries (length pruned.seen)) _ _ (λ _. keeps)
                (λ _.
                  guard_claimed-Keeps nonce (timestamp + replay_window) pruned
                    (claim_nonce s disk nonce (timestamp + replay_window) now g.journal)
                    (claim_nonce-Keeps s claim now live disk nonce (timestamp + replay_window)
                      g.journal keeps))))

  and_return-Keeps :
      (input : SignatureInput) (r : Guard × Outcome Thrown (Unit {0}))
      → GuardKeeps r
      → GuardKeeps (and_return input r)
  and_return-Keeps input (g, ok u) keeps = keeps
  and_return-Keeps input (g, err e) keeps = keeps

  verify_checked-Keeps :
      (disk : Disk) (checked : Outcome Thrown SignatureInput) (g : Guard)
      → Keeps claim g.journal
      → GuardKeeps (verify_checked s disk checked now g)
  verify_checked-Keeps disk (err e) g keeps = keeps
  verify_checked-Keeps disk (ok input) g keeps =
      and_return-Keeps input (verify_and_record s disk input.nonce (read input.timestamp) now g)
        (verify_and_record-Keeps disk input.nonce (read input.timestamp) g keeps)

  pub verify_signed_gateway_call-Keeps :
      (disk : Disk) (call : SignedGatewayCall) (g : Guard)
      → Keeps claim g.journal
      → Keeps claim (verify_signed_gateway_call s disk call now g).0.journal
  unfolding verify_signed_gateway_call
  verify_signed_gateway_call-Keeps disk call g keeps =
      verify_checked-Keeps disk (check_call s call) g keeps
