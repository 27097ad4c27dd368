-- ===== src/Marketplace/Supplier/Accepts.antt =====
-- When a history accepts one more event (packages/marketplace-domain/src/supplier.ts).
use token_streaming.Common.{
  subst, sym, ap, ℕ, ◌+◌, ◌≡◌, refl, false, not, ◌||◌, some, List, [], ◌∷◌, ◌++◌, contains, ltb,
  leb, ◌==◌, nat_eq, arith, Option-cases, inl, inr,
}
use token_streaming.Common.Outcome.{ok, throw_if, >>=-eq-ok, throw_if-eq-ok}
use token_streaming.Js.{Engine, max_safe}
use token_streaming.Js.Texts.{Text, text_eq}
use token_streaming.Marketplace.Errors.{invalid_event_history}
use token_streaming.Marketplace.Protocol.{SupplierEvent, SupplierState}
use token_streaming.Marketplace.Validation.{timestamp_of}
use token_streaming.Marketplace.Supplier.History.{
  Replay, version_of, is_before, is_wrong_start, is_misnamed, is_foreign, is_foreign_envelope,
  assert_envelope_identifiers, history_timestamp, apply_supplier_event, replay_event, replay_events,
}

pub record Accepts (js : Engine) (replay : Replay) (event : SupplierEvent) (at : ℕ)
    (state : SupplierState) : Type 0 where
  pub own_envelope : is_foreign_envelope event ≡ false
  pub identified : assert_envelope_identifiers event ≡ ok tt
  pub version_safe :
      (not (leb event.aggregate_version max_safe) || not (ltb 0 event.aggregate_version)) ≡ false
  pub timed : timestamp_of js event.occurred_at ≡ some at
  pub ordered : is_before at replay.previous ≡ false
  pub fresh_event : contains replay.event_ids event.event_id ≡ false
  pub fresh_causation : contains replay.causation_ids event.causation_id ≡ false
  pub next_version : event.aggregate_version ≡ version_of replay.state + 1
  pub right_start : is_wrong_start replay.state event.payload ≡ false
  pub named : is_misnamed event.aggregate_id event.payload ≡ false
  pub own : is_foreign event replay.state ≡ false
  pub applied : apply_supplier_event js replay.state event ≡ ok state

-- The replay after an accepted event.
abbrev pub after : Replay → SupplierEvent → ℕ → SupplierState → Replay
after replay event at state = record {
  state = some state;
  event_ids = event.event_id ∷ replay.event_ids;
  causation_ids = event.causation_id ∷ replay.causation_ids;
  previous = some at;
}

history_timestamp_iff-ok :
    (js : Engine) (s : Text) (at : ℕ) → history_timestamp js s ≡ ok at → timestamp_of js s ≡ some at
unfolding history_timestamp
history_timestamp_iff-ok js s at h = elim (Option-cases (timestamp_of js s)) [
  | inl missing ↦ cc (rw (missing, history_timestamp) at h)
  | inr (found, e) ↦ let same = rw (e, history_timestamp) at h in cc
]

history_timestamp-some :
    (js : Engine) (s : Text) (at : ℕ) → timestamp_of js s ≡ some at → history_timestamp js s ≡ ok at
unfolding history_timestamp
history_timestamp-some js s at h = rw (h, history_timestamp)

pub replay_event-of_Accepts :
    (js : Engine) (replay : Replay) (event : SupplierEvent) (at : ℕ) (state : SupplierState)
    → Accepts js replay event at state
    → replay_event js replay event ≡ ok (after replay event at state)
unfolding replay_event
replay_event-of_Accepts js replay event at state a =
    rw
      (
        a.own_envelope,
        a.identified,
        a.version_safe,
        history_timestamp-some js event.occurred_at at a.timed,
        a.ordered,
        a.fresh_event,
        a.fresh_causation,
        (nat_eq.beq_iff event.aggregate_version (version_of replay.state + 1)).1 a.next_version,
        a.right_start,
        a.named,
        a.own,
        a.applied,
      )
      refl

next_of_test : (a b : ℕ) → not (a == b) ≡ false → a ≡ b
next_of_test a b h = ground arith

pub Accepts-of_replay_event :
    (js : Engine) (replay next : Replay) (event : SupplierEvent)
    → replay_event js replay event ≡ ok next
    → (at : ℕ) × (state : SupplierState) × Accepts js replay event at state
      × (next ≡ after replay event at state)
unfolding replay_event
Accepts-of_replay_event js replay next event h =
    let (_, a1, h1) = >>=-eq-ok (throw_if (is_foreign_envelope event) invalid_event_history) _ h in
    let (_, a2, h2) = >>=-eq-ok (assert_envelope_identifiers event) _ h1 in
    let (_, a3, h3) =
      >>=-eq-ok
        (throw_if
          (not (leb event.aggregate_version max_safe) || not (ltb 0 event.aggregate_version))
          invalid_event_history)
        _ h2 in
    let (at, a4, h4) = >>=-eq-ok (history_timestamp js event.occurred_at) _ h3 in
    let (_, a5, h5) =
      >>=-eq-ok (throw_if (is_before at replay.previous) invalid_event_history) _ h4 in
    let (_, a6, h6) =
      >>=-eq-ok (throw_if (contains replay.event_ids event.event_id) invalid_event_history) _ h5 in
    let (_, a7, h7) =
      >>=-eq-ok (throw_if (contains replay.causation_ids event.causation_id) invalid_event_history)
        _ h6 in
    let (_, a8, h8) =
      >>=-eq-ok
        (throw_if (not (event.aggregate_version == version_of replay.state + 1))
          invalid_event_history)
        _ h7 in
    let (_, a9, h9) =
      >>=-eq-ok (throw_if (is_wrong_start replay.state event.payload) invalid_event_history) _ h8 in
    let (_, a10, h10) =
      >>=-eq-ok (throw_if (is_misnamed event.aggregate_id event.payload) invalid_event_history) _
        h9 in
    let (_, a11, h11) =
      >>=-eq-ok (throw_if (is_foreign event replay.state) invalid_event_history) _ h10 in
    let (state, a12, h12) = >>=-eq-ok (apply_supplier_event js replay.state event) _ h11 in
    (
      at,
      state,
      record {
        own_envelope = throw_if-eq-ok _ _ a1;
        identified = a2;
        version_safe = throw_if-eq-ok _ _ a3;
        timed = history_timestamp_iff-ok js event.occurred_at at a4;
        ordered = throw_if-eq-ok _ _ a5;
        fresh_event = throw_if-eq-ok _ _ a6;
        fresh_causation = throw_if-eq-ok _ _ a7;
        next_version =
            next_of_test event.aggregate_version (version_of replay.state + 1)
              (throw_if-eq-ok _ _ a8);
        right_start = throw_if-eq-ok _ _ a9;
        named = throw_if-eq-ok _ _ a10;
        own = throw_if-eq-ok _ _ a11;
        applied = a12;
      },
      cc,
    )

-- Induction over a history.
pub replay_events-keeps :
    (js : Engine) (P : Replay → Type 0)
    → ((replay : Replay) (event : SupplierEvent) (at : ℕ) (state : SupplierState)
        → P replay
        → Accepts js replay event at state
        → P (after replay event at state))
    → (replay last : Replay) (events : List SupplierEvent) → P replay
    → replay_events js replay events ≡ ok last
    → P last
unfolding replay_events
replay_events-keeps js P step replay last [] p h = let same : replay ≡ last = cc in subst P same p
replay_events-keeps js P step replay last (event ∷ events) p h =
    let (next, accepted, h') = >>=-eq-ok (replay_event js replay event) _ h in
    let (at, state, a, same) = Accepts-of_replay_event js replay next event accepted in
    replay_events-keeps js P step next last events
      (subst P (sym same) (step replay event at state p a)) h'

pub replay_events-append :
    (js : Engine) (replay last : Replay) (events more : List SupplierEvent)
    → replay_events js replay events ≡ ok last
    → replay_events js replay (events ++ more) ≡ replay_events js last more
unfolding replay_events
replay_events-append js replay last [] more h =
    let same : replay ≡ last = cc in ap (λ r. replay_events js r more) same
replay_events-append js replay last (event ∷ events) more h =
    let (next, accepted, h') = >>=-eq-ok (replay_event js replay event) _ h in
    rw accepted (replay_events-append js next last events more h')

pub replay_one :
    (js : Engine) (replay : Replay) (event : SupplierEvent) (next : Replay)
    → replay_event js replay event ≡ ok next
    → replay_events js replay (event ∷ []) ≡ ok next
unfolding replay_events
replay_one js replay event next h = rw h refl
