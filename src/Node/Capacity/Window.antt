-- ===== src/Node/Capacity/Window.antt =====
-- What a gate admits within a minute (apps/supplier-node/src/capacity.ts).
use token_streaming.Common.{
  ℕ, suc, ◌+◌, ◌-◌, Option, none, some, ◌≤◌, ◌≡◌, refl, sym, ap, ◌∙◌, subst, Bool, true, false, inl,
  inr, List, [], ◌∷◌, ◌++◌, length, All, All-append, arith,
}
use mathlib.Core.List.{append_assoc, append-nil}
use token_streaming.Common.Outcome.{Outcome, ok, err}
use token_streaming.Node.Errors.{NodeError}
use token_streaming.Node.Capacity.{
  CapacityEntry, NodeLimits, Gate, closed_gate, prune, used_tokens, acquire, released_at, mark,
  release, Use, acquired, released,
}
use token_streaming.Node.Capacity.Admission.{acquire-cases}
use token_streaming.Node.Capacity.Minutes.{
  minute_requests, minute_tokens, Gone, Gone-later, prune-split, one_more, total-tokens,
  total-length,
}

abbrev pub admission : ℕ → ℕ → Outcome NodeError ℕ → List CapacityEntry
admission estimated_tokens now (ok lease) =
    record { occurred_at = now; tokens = estimated_tokens } ∷ []
admission estimated_tokens now (err e) = []

-- The requests that a run admits.
abbrev pub admissions : NodeLimits → List Use → Gate → List CapacityEntry
admissions limits [] gate = []
admissions limits (acquired estimated_tokens now ∷ uses) gate =
    admission estimated_tokens now ((acquire limits estimated_tokens now gate).1)
    ++ admissions limits uses ((acquire limits estimated_tokens now gate).0)
admissions limits (released lease ∷ uses) gate = admissions limits uses (release lease gate)

-- The clock does not go back.
abbrev pub IsOrdered : ℕ → List Use → Type 0
IsOrdered last [] = Unit
IsOrdered last (acquired estimated_tokens now ∷ uses) = (last ≤ now) × IsOrdered now uses
IsOrdered last (released lease ∷ uses) = IsOrdered last uses

-- The gate holds the end of the log, what it dropped is gone, and every minute of the log is within
-- the limits.
record Follows (limits : NodeLimits) (entries log : List CapacityEntry) (last : ℕ) : Type 0 where
  dropped : List CapacityEntry
  split : log ≡ dropped ++ entries
  gone : All (Gone last) dropped
  requests : (t : ℕ) → minute_requests t log ≤ limits.requests_per_minute
  tokens : (t : ℕ) → minute_tokens t log ≤ limits.tokens_per_minute

pruned-Follows :
    (limits : NodeLimits) (entries log : List CapacityEntry) (last now : ℕ)
    → last ≤ now
    → Follows limits entries log last
    → Follows limits (prune now entries) log now
pruned-Follows limits entries log last now le f =
    let (expired, same, gone) = prune-split now entries in
    record {
      dropped = f.dropped ++ expired;
      split =
          f.split
          ∙ ap (λ l. f.dropped ++ l) same
          ∙ sym (append_assoc f.dropped expired (prune now entries));
      gone =
          All-append (Gone now) f.dropped expired (Gone-later last now f.dropped le (f.gone)) gone;
      requests = f.requests;
      tokens = f.tokens;
    }

admitted-Follows :
    (limits : NodeLimits) (kept log : List CapacityEntry) (now estimated_tokens : ℕ)
    → suc (length kept) ≤ limits.requests_per_minute
    → used_tokens kept + estimated_tokens ≤ limits.tokens_per_minute
    → Follows limits kept log now
    → Follows limits
        (kept ++ record { occurred_at = now; tokens = estimated_tokens } ∷ [])
        (log ++ record { occurred_at = now; tokens = estimated_tokens } ∷ [])
        now
admitted-Follows limits kept log now estimated_tokens few light f =
    let entry : CapacityEntry = record { occurred_at = now; tokens = estimated_tokens } in
    let counted = total-length kept in
    let weighed = total-tokens kept in
    record {
      dropped = f.dropped;
      split = ap (λ l. l ++ entry ∷ []) (f.split) ∙ append_assoc f.dropped kept (entry ∷ []);
      gone = f.gone;
      requests = λ t.
          subst (λ l. minute_requests t (l ++ entry ∷ []) ≤ limits.requests_per_minute)
            (sym (f.split))
            (one_more (λ e. 1) t now limits.requests_per_minute f.dropped kept entry refl (f.gone)
              (subst (λ l. minute_requests t l ≤ limits.requests_per_minute) (f.split)
                (f.requests t))
              (omega (arith, counted, few)));
      tokens = λ t.
          subst (λ l. minute_tokens t (l ++ entry ∷ []) ≤ limits.tokens_per_minute) (sym (f.split))
            (one_more (λ e. e.tokens) t now limits.tokens_per_minute f.dropped kept entry refl
              (f.gone)
              (subst (λ l. minute_tokens t l ≤ limits.tokens_per_minute) (f.split) (f.tokens t))
              (omega (arith, weighed, light)));
    }

entries-release : (lease : ℕ) (gate : Gate) → (release lease gate).entries ≡ gate.entries
unfolding release
entries-release lease gate = go (released_at gate.leases lease)
  where
    next : Option Bool → Gate
    next none = gate
    next (some true) = gate
    next (some false) = record gate { active = gate.active - 1; leases = mark gate.leases lease }

    go : (o : Option Bool) → (next o).entries ≡ gate.entries
    go none = refl
    go (some true) = refl
    go (some false) = refl

module _ (limits : NodeLimits) where
  acquire-Follows :
      (estimated_tokens now last : ℕ) (gate : Gate) (log : List CapacityEntry)
      → last ≤ now
      → Follows limits gate.entries log last
      → Follows limits
          ((acquire limits estimated_tokens now gate).0.entries)
          (log ++ admission estimated_tokens now ((acquire limits estimated_tokens now gate).1))
          now
  acquire-Follows estimated_tokens now last gate log le f =
      let pruned = pruned-Follows limits gate.entries log last now le f in
      elim (acquire-cases limits estimated_tokens now gate) [
        | inl refused ↦ rw (refused, append-nil log) pruned
        | inr (free, admitted) ↦ rw admitted (
            admitted-Follows limits (prune now gate.entries) log now estimated_tokens
              (free.requests) (free.tokens) pruned)
      ]

  run-Follows :
      (uses : List Use) (gate : Gate) (log : List CapacityEntry) (last : ℕ)
      → IsOrdered last uses
      → Follows limits gate.entries log last
      → (t : ℕ)
      → (minute_requests t (log ++ admissions limits uses gate) ≤ limits.requests_per_minute)
        × (minute_tokens t (log ++ admissions limits uses gate) ≤ limits.tokens_per_minute)
  run-Follows [] gate log last ordered f t = rw (append-nil log) (f.requests t, f.tokens t)
  run-Follows (acquired estimated_tokens now ∷ uses) gate log last ordered f t =
      let next = acquire-Follows estimated_tokens now last gate log (ordered.0) f in
      let gate' = (acquire limits estimated_tokens now gate).0 in
      let new = admission estimated_tokens now ((acquire limits estimated_tokens now gate).1) in
      let rest = run-Follows uses gate' (log ++ new) now (ordered.1) next t in
      let same = append_assoc log new (admissions limits uses gate') in
      subst
        (λ l.
          (minute_requests t l ≤ limits.requests_per_minute)
          × (minute_tokens t l ≤ limits.tokens_per_minute))
        same rest
  run-Follows (released lease ∷ uses) gate log last ordered f t =
      run-Follows uses (release lease gate) log last ordered
        (subst (λ es. Follows limits es log last) (sym (entries-release lease gate)) f) t

-- While the clock does not go back, no minute holds more admitted requests than the requests per
-- minute, nor more of their estimated tokens than the tokens per minute: for every run of a new gate
-- and every `t`, over the 60 000 milliseconds that end at `t`.
pub admissions_within_minute :
    (limits : NodeLimits) (uses : List Use) (first t : ℕ)
    → IsOrdered first uses
    → (minute_requests t (admissions limits uses closed_gate) ≤ limits.requests_per_minute)
      × (minute_tokens t (admissions limits uses closed_gate) ≤ limits.tokens_per_minute)
admissions_within_minute limits uses first t ordered =
    run-Follows limits uses closed_gate [] first ordered
      (record {
        dropped = [];
        split = refl;
        gone = tt;
        requests = λ s. omega arith;
        tokens = λ s. omega arith;
      })
      t
