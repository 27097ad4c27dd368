-- ===== src/Marketplace/Supplier/Induction.antt =====
-- Induction over the histories that are accepted (packages/marketplace-domain/src/supplier.ts).
use mathlib.Core.List.{append-nil, append_assoc}
use token_streaming.Common.{sym, subst, ◌∙◌, ◌≡◌, refl, List, [], ◌∷◌, ◌++◌, ℕ}
use token_streaming.Common.Outcome.{ok, >>=-eq-ok, ok-injective}
use token_streaming.Js.{Engine}
use token_streaming.Marketplace.Protocol.{SupplierEvent, SupplierState}
use token_streaming.Marketplace.Supplier.History.{Replay, start, replay_event, replay_events}
use token_streaming.Marketplace.Supplier.Accepts.{
  Accepts, after, Accepts-of_replay_event, replay_events-append, replay_one,
}

module _ (js : Engine) (P : List SupplierEvent → Replay → Type 0)
    (step : (events : List SupplierEvent) (replay : Replay) (event : SupplierEvent) (at : ℕ)
        (state : SupplierState)
      → replay_events js start events ≡ ok replay
      → P events replay
      → Accepts js replay event at state
      → P (events ++ event ∷ []) (after replay event at state)) where
  go :
      (before events : List SupplierEvent) (replay last : Replay)
      → replay_events js start before ≡ ok replay
      → P before replay
      → replay_events js replay events ≡ ok last
      → P (before ++ events) last
  unfolding replay_events
  go before [] replay last run p h =
      let same : replay ≡ last = ok-injective h in rw (append-nil before) (subst (P before) same p)
  go before (event ∷ events) replay last run p h =
      let (next, accepted, h') = >>=-eq-ok (replay_event js replay event) _ h in
      let (at, state, a, same) = Accepts-of_replay_event js replay next event accepted in
      let kept = step before replay event at state run p a in
      let run' =
        replay_events-append js start replay before (event ∷ []) run
        ∙ replay_one js replay event next accepted in
      let all =
        go (before ++ event ∷ []) events next last run'
          (subst (P (before ++ event ∷ [])) (sym same) kept) h' in
      subst (λ l. P l last) (append_assoc before (event ∷ []) events) all

  -- What holds of the empty history, and of each accepted event after a history, holds of all.
  pub history_induction :
      (events : List SupplierEvent) (last : Replay)
      → P [] start
      → replay_events js start events ≡ ok last
      → P events last
  unfolding replay_events
  history_induction events last p h = go [] events start last refl p h
