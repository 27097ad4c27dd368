-- ===== src/Node/Signature/Verified.antt =====
-- A signed call is taken once (apps/supplier-node/src/signature.ts).
use token_streaming.Common.{
  ℕ, ◌+◌, ◌≤◌, ◌≡◌, ◌≢◌, ◌∙◌, refl, sym, ap, subst, List, [], ◌∷◌, length, ltb, leb, All, if-holds,
  is_some, arith,
}
use token_streaming.Common.Outcome.{Outcome, ok, err, ok-injective}
use token_streaming.Js.Texts.{Text}
use token_streaming.Js.Decimal.{read}
use token_streaming.Js.Maps.{lookup, prune_map}
use token_streaming.Node.Errors.{Thrown}
use token_streaming.Node.Journal.File.{Setup, Journal, Disk}
use token_streaming.Node.Journal.{up, claim_nonce}
use token_streaming.Node.Journal.Events.{Event, event_time, run}
use token_streaming.Node.Journal.Accepted.{HexDigests}
use token_streaming.Node.Journal.Once.{claim_nonce_once}
use token_streaming.Node.Signature.{
  SignedGatewayCall, SignatureInput, Guard, check_call, replay_window, maximum_entries, distance,
  guard_claimed, verify_and_record, and_return, verify_checked, verify_signed_gateway_call,
}
use token_streaming.Node.Signature.Payload.{is_timestamp-safe}
use token_streaming.Node.Signature.Checked.{is_timestamp_iff, IsSigned-of_ok}

-- What a call of the guard that returned has done.
abbrev pub Recorded :
    Setup → Disk → Text → ℕ → ℕ → Guard → Guard × Outcome Thrown (Unit {0}) → Type 0
Recorded s disk nonce timestamp now g r =
    r.1 ≡ ok tt
    → (distance now timestamp ≤ replay_window)
      × ((claim_nonce s disk nonce (timestamp + replay_window) now g.journal).1 ≡ ok tt)
      × (r.0.journal ≡ (claim_nonce s disk nonce (timestamp + replay_window) now g.journal).0)

guard_claimed-ok :
    (nonce : Text) (expires_at : ℕ) (g : Guard) (r : Journal × Outcome Thrown (Unit {0}))
    → (guard_claimed nonce expires_at g r).1 ≡ ok tt
    → (r.1 ≡ ok tt) × ((guard_claimed nonce expires_at g r).0.journal ≡ r.0)
guard_claimed-ok nonce expires_at g (j, ok u) h = (refl, refl)
guard_claimed-ok nonce expires_at g (j, err e) h = cc

verify_and_record-ok :
    (s : Setup) (disk : Disk) (nonce : Text) (timestamp now : ℕ) (g : Guard)
    → Recorded s disk nonce timestamp now g (verify_and_record s disk nonce timestamp now g)
unfolding verify_and_record
verify_and_record-ok s disk nonce timestamp now g =
    let P = Recorded s disk nonce timestamp now g in
    let pruned : Guard = record g { seen = prune_map (λ e. e) now g.seen } in
    if-holds P (ltb replay_window (distance now timestamp)) _ _ (λ _ h. cc)
      (λ near.
        if-holds P (is_some (lookup nonce pruned.seen)) _ _ (λ _ h. cc)
          (λ _.
            if-holds P (leb maximum_entries (length pruned.seen)) _ _ (λ _ h. cc)
              (λ _ h.
                let (claimed, left) =
                  guard_claimed-ok nonce (timestamp + replay_window) pruned
                    (claim_nonce s disk nonce (timestamp + replay_window) now g.journal) h in
                (ground arith, claimed, left))))

and_return-ok :
    (input value : SignatureInput) (r : Guard × Outcome Thrown (Unit {0}))
    → (and_return input r).1 ≡ ok value
    → (input ≡ value) × (r.1 ≡ ok tt) × ((and_return input r).0.journal ≡ r.0.journal)
and_return-ok input value (g, ok u) h = (ok-injective h, refl, refl)
and_return-ok input value (g, err e) h = cc

-- A call is verified: it passed the checks, and the guard recorded it.
pub verified-ok :
    (s : Setup) (disk : Disk) (checked : Outcome Thrown SignatureInput) (now : ℕ) (g : Guard)
    (input : SignatureInput)
    → (verify_checked s disk checked now g).1 ≡ ok input
    → (checked ≡ ok input)
      × (distance now (read input.timestamp) ≤ replay_window)
      × ((claim_nonce s disk input.nonce (read input.timestamp + replay_window) now g.journal).1
          ≡ ok tt)
      × ((verify_checked s disk checked now g).0.journal
          ≡ (claim_nonce s disk input.nonce (read input.timestamp + replay_window) now g.journal).0)
verified-ok s disk (err e) now g input h = cc
verified-ok s disk (ok found) now g input h =
    let recorded = verify_and_record s disk found.nonce (read found.timestamp) now g in
    let (same, returned, left) = and_return-ok found input recorded h in
    let (near, claimed, kept) =
      verify_and_record-ok s disk found.nonce (read found.timestamp) now g returned in
    subst
      (λ (i : SignatureInput).
        ◌≡◌ {A = Outcome Thrown SignatureInput} (ok found) (ok i)
        × (distance now (read i.timestamp) ≤ replay_window)
        × ((claim_nonce s disk i.nonce (read i.timestamp + replay_window) now g.journal).1 ≡ ok tt)
        × ((and_return found recorded).0.journal
            ≡ (claim_nonce s disk i.nonce (read i.timestamp + replay_window) now g.journal).0))
      same (refl, near, claimed, left ∙ kept)

within :
    (later until : ℕ) (events : List Event)
    → later ≤ until
    → All (λ event. event_time event ≤ later) events
    → All (λ event. event_time event ≤ until) events
within later until [] le times = tt
within later until (event ∷ events) le times =
    let first = times.0 in (omega arith, within later until events le (times.1))

module _ (s : Setup) (hex : HexDigests s) where
  -- A signed call is taken once: after a call is verified, whatever claims, compactions and restarts
  -- follow, no call with its nonce and its timestamp is verified at any later time, whatever the map
  -- of the guard holds then: within the window the journal refuses it, after the window it is expired.
  -- (No clock reading is past the later time; digests are 64 hexadecimal digits.)
  pub verify_signed_gateway_call_once :
      (first second : Disk) (call again : SignedGatewayCall) (input other : SignatureInput)
      (now later : ℕ) (g h : Guard) (events : List Event)
      → (verify_signed_gateway_call s first call now g).1 ≡ ok input
      → All (λ event. event_time event ≤ later) events
      → run s events (up (verify_signed_gateway_call s first call now g).0.journal) ≡ up h.journal
      → other.nonce ≡ input.nonce
      → other.timestamp ≡ input.timestamp
      → (verify_signed_gateway_call s second again later h).1 ≢ ok other
  unfolding verify_signed_gateway_call
  verify_signed_gateway_call_once first second call again input other now later g h events verified
        times reached same_nonce same_timestamp replayed =
      let (checked, near, claimed, left) =
        verified-ok s first (check_call s call) now g input verified in
      let (checked', near', claimed', left') =
        verified-ok s second (check_call s again) later h other replayed in
      let signed = IsSigned-of_ok s call input checked in
      let expires_at = read input.timestamp + replay_window in
      let safe =
        is_timestamp-safe input.timestamp ((is_timestamp_iff _).1 (signed.timestamp_form)) in
      let soon = subst (λ t. distance later (read t) ≤ replay_window) same_timestamp near' in
      let until : later ≤ expires_at = omega arith in
      let started : now ≤ expires_at = omega arith in
      let again_claimed =
        subst
          (λ n.
            (claim_nonce s second n (read other.timestamp + replay_window) later h.journal).1
            ≡ ok tt)
          same_nonce claimed' in
      let refused =
        claim_nonce_once s hex first second input.nonce expires_at
          (read other.timestamp + replay_window) now later g.journal h.journal events started safe
          claimed (within later expires_at events until times)
          (ap (λ j. run s events (up j)) (sym left) ∙ reached) until in
      cc
