-- ===== src/Marketplace/Supplier/Fresh.antt =====
-- A new event at the end of a history (packages/marketplace-domain/src/supplier.ts).
use token_streaming.Common.{
  sym, subst, ap, ◌∙◌, ℕ, ◌+◌, ◌≤◌, ◌≡◌, refl, Bool, false, not, ◌||◌, Option, none, some, List, [],
  ◌∷◌, ◌++◌, any, contains, ◌==◌, arith, nat_eq,
}
use token_streaming.Common.Outcome.{ok, >>=-eq-ok, ok-injective}
use token_streaming.Js.{Engine, max_safe}
use token_streaming.Js.Texts.{Text, text, text_eq, text_beq_iff}
use token_streaming.Marketplace.Protocol.{Context, SupplierPayload, SupplierEvent, SupplierState}
use token_streaming.Marketplace.Validation.{timestamp_of}
use token_streaming.Marketplace.Supplier.Commands.{supplier_event}
use token_streaming.Marketplace.Supplier.History.{
  Replay, start, is_before, apply_supplier_event, replay_event, replay_events, rehydrate_supplier,
}
use token_streaming.Marketplace.Supplier.Accepts.{Accepts, after, Accepts-of_replay_event}
use token_streaming.Marketplace.Supplier.Consistent.{Fits, ok_of_identifiers}
use token_streaming.Marketplace.Supplier.Effects.{Command, Emits}

-- No event of the history has the identifier or the cause of `event`.
pub record IsFresh (event : SupplierEvent) (events : List SupplierEvent) : Type 0 where
  pub by_id : any (λ (e : SupplierEvent). e.event_id == event.event_id) events ≡ false
  pub by_cause : any (λ (e : SupplierEvent). e.causation_id == event.causation_id) events ≡ false

or_false : (a b : Bool) → (a || b) ≡ false → (a ≡ false) × (b ≡ false)
or_false a b h = ground arith

both_false : (a b : Bool) → a ≡ false → b ≡ false → (a || b) ≡ false
both_false a b h k = ground arith

-- The sets of the loop hold no identifier that no event has.
replay_events-fresh :
    (js : Engine) (replay last : Replay) (events : List SupplierEvent) (id cause : Text)
    → replay_events js replay events ≡ ok last
    → any (λ (e : SupplierEvent). e.event_id == id) events ≡ false
    → any (λ (e : SupplierEvent). e.causation_id == cause) events ≡ false
    → contains replay.event_ids id ≡ false
    → contains replay.causation_ids cause ≡ false
    → (contains last.event_ids id ≡ false) × (contains last.causation_ids cause ≡ false)
unfolding replay_events
replay_events-fresh js replay last [] id cause h a b c d =
    let same : replay ≡ last = ok-injective h in
    subst
      (λ (r : Replay). (contains r.event_ids id ≡ false) × (contains r.causation_ids cause ≡ false))
      same (c, d)
replay_events-fresh js replay last (event ∷ events) id cause h a b c d =
    let (next, accepted, h') = >>=-eq-ok (replay_event js replay event) _ h in
    let (at, state, _, same) = Accepts-of_replay_event js replay next event accepted in
    let (a1, a2) = or_false (event.event_id == id) _ a in
    let (b1, b2) = or_false (event.causation_id == cause) _ b in
    replay_events-fresh js (after replay event at state) last events id cause
      (subst (λ r. replay_events js r events ≡ ok last) same h') a2 b2
      (both_false (event.event_id == id) _ a1 c) (both_false (event.causation_id == cause) _ b1 d)

pub text_same : (s t : Text) → s ≡ t → not (s == t) ≡ false
text_same s t h = rw ((text_beq_iff s t).1 h)

order_fits :
    (js : Engine) (previous : Option ℕ) (updated at : ℕ) (t : Option ℕ)
    → previous ≡ t
    → t ≡ some updated
    → updated ≤ at
    → is_before at previous ≡ false
order_fits js none updated at t h e le = refl
order_fits js (some p) updated at t h e le =
    let same : some p ≡ some updated = h ∙ e in ground arith

-- An emitted event is accepted by every replay that ends in the state it was decided on.
pub Accepts-of_Emits :
    (js : Engine) (last : Replay) (before : SupplierState) (command : Command)
    (event : SupplierEvent) (e : Emits js before command event)
    → last.state ≡ some before
    → Fits js last.previous (some before)
    → before.version + 1 ≤ max_safe
    → contains last.event_ids e.context.event_id ≡ false
    → contains last.causation_ids e.context.command_id ≡ false
    → Accepts js last (supplier_event before e.context e.payload) e.at e.state
unfolding supplier_event apply_supplier_event
Accepts-of_Emits js last before command event e here fits safe fresh_event fresh_cause =
    let valid = e.for_state.valid in
    record {
      own_envelope = rw ((text_beq_iff (text "supplier") (text "supplier")).1 refl) refl;
      identified =
          ok_of_identifiers (supplier_event before e.context e.payload) valid.event valid.tenant
            valid.actor valid.command fits.0;
      version_safe = ground arith;
      timed = valid.timed;
      ordered =
          order_fits js last.previous e.for_state.updated e.at (timestamp_of js before.updated_at)
            fits.1 e.for_state.last_update e.for_state.in_order;
      fresh_event = fresh_event;
      fresh_causation = fresh_cause;
      next_version = rw here refl;
      right_start = rw here refl;
      named = e.later;
      own = rw here (
          both_false _ _ (text_same before.supplier_id before.supplier_id refl)
            (text_same e.context.tenant_id before.tenant_id (sym (e.for_state.own_tenant))));
      applied = rw here (e.applied);
    }

pub emitted_version :
    (before : SupplierState) (context : Context) (payload : SupplierPayload)
    → (supplier_event before context payload).aggregate_version ≡ before.version + 1
unfolding supplier_event
emitted_version before context payload = refl

pub fresh_of_shape :
    (js : Engine) (before : SupplierState) (command : Command) (event : SupplierEvent)
    (e : Emits js before command event) (events : List SupplierEvent) (last : Replay)
    → replay_events js start events ≡ ok last
    → IsFresh event events
    → (contains last.event_ids e.context.event_id ≡ false)
      × (contains last.causation_ids e.context.command_id ≡ false)
unfolding supplier_event
fresh_of_shape js before command event e events last replayed fresh =
    let moved = subst (λ x. IsFresh x events) (e.shape) fresh in
    replay_events-fresh js start last events e.context.event_id e.context.command_id replayed
      (moved.by_id) (moved.by_cause) refl refl

pub extended :
    (js : Engine) (events : List SupplierEvent) (emitted event : SupplierEvent)
    (state : SupplierState) (next : Replay)
    → emitted ≡ event
    → replay_events js start (events ++ emitted ∷ []) ≡ ok next
    → next.state ≡ some state
    → rehydrate_supplier js (events ++ event ∷ []) ≡ ok (some state)
unfolding rehydrate_supplier
extended js events emitted event state next same run found =
    subst (λ x. rehydrate_supplier js (events ++ x ∷ []) ≡ ok (some state)) same
      (rw run (ap ok found))
