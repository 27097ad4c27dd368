-- ===== src/Node/Capacity/Counts.antt =====
-- The counts of a gate (apps/supplier-node/src/capacity.ts).
use token_streaming.Common.{
  ℕ, zero, suc, ◌+◌, ◌-◌, ◌≤◌, ◌≡◌, ◌≢◌, refl, ap, Bool, true, false, inl, inr, Option, none, some,
  List, [], ◌∷◌, ◌++◌, length, length-append, arith,
}
use token_streaming.Node.Capacity.{
  CapacityEntry, NodeLimits, Gate, closed_gate, prune, used_tokens, acquire, released_at, mark,
  release, Use, acquired, released, run_gate,
}
use token_streaming.Node.Capacity.Admission.{pruned_gate, admitted_gate, IsFree, acquire-cases}

-- How many leases are not released.
abbrev pub open_leases : List Bool → ℕ
open_leases [] = 0
open_leases (false ∷ leases) = suc (open_leases leases)
open_leases (true ∷ leases) = open_leases leases

-- What a gate never exceeds.
pub record IsWithinNode (limits : NodeLimits) (gate : Gate) : Type 0 where
  pub counted : gate.active ≡ open_leases gate.leases
  pub parallel : gate.active ≤ limits.concurrency
  pub requests : length gate.entries ≤ limits.requests_per_minute
  pub tokens : used_tokens gate.entries ≤ limits.tokens_per_minute

length-prune :
    (now : ℕ) (entries : List CapacityEntry) → length (prune now entries) ≤ length entries
unfolding prune
length-prune now [] = omega arith
length-prune now (entry ∷ entries) = let below = length-prune now entries in ground arith

used-prune :
    (now : ℕ) (entries : List CapacityEntry) → used_tokens (prune now entries) ≤ used_tokens entries
unfolding prune
used-prune now [] = omega arith
used-prune now (entry ∷ entries) = let below = used-prune now entries in ground arith

pub used-append :
    (xs ys : List CapacityEntry) → used_tokens (xs ++ ys) ≡ used_tokens xs + used_tokens ys
used-append [] ys = omega arith
used-append (x ∷ xs) ys = omega (arith, used-append xs ys)

open-append : (leases : List Bool) → open_leases (leases ++ false ∷ []) ≡ suc (open_leases leases)
open-append [] = refl
open-append (false ∷ leases) = ap (λ n. suc n) (open-append leases)
open-append (true ∷ leases) = open-append leases

open-mark :
    (leases : List Bool) (n : ℕ)
    → released_at leases n ≡ some false
    → suc (open_leases (mark leases n)) ≡ open_leases leases
unfolding released_at mark
open-mark [] n h = cc
open-mark (false ∷ leases) zero h = refl
open-mark (true ∷ leases) zero h = cc
open-mark (false ∷ leases) (suc n) h = ap (λ k. suc k) (open-mark leases n h)
open-mark (true ∷ leases) (suc n) h = open-mark leases n h

pruned-IsWithinNode :
    (limits : NodeLimits) (now : ℕ) (gate : Gate)
    → IsWithinNode limits gate
    → IsWithinNode limits (pruned_gate now gate)
pruned-IsWithinNode limits now gate w = record {
  counted = w.counted;
  parallel = w.parallel;
  requests = omega (arith, length-prune now gate.entries, w.requests);
  tokens = omega (arith, used-prune now gate.entries, w.tokens);
}

admitted-IsWithinNode :
    (limits : NodeLimits) (estimated_tokens now : ℕ) (gate : Gate)
    → IsWithinNode limits gate
    → IsFree limits estimated_tokens now gate
    → IsWithinNode limits (admitted_gate estimated_tokens now gate)
admitted-IsWithinNode limits estimated_tokens now gate w free =
    let entry : CapacityEntry = record { occurred_at = now; tokens = estimated_tokens } in
    let kept = prune now gate.entries in
    record {
      counted = omega (arith, w.counted, open-append gate.leases);
      parallel = free.parallel;
      requests = omega (arith, length-append kept (entry ∷ []), free.requests);
      tokens = omega (arith, used-append kept (entry ∷ []), free.tokens);
    }

acquire-IsWithinNode :
    (limits : NodeLimits) (estimated_tokens now : ℕ) (gate : Gate)
    → IsWithinNode limits gate
    → IsWithinNode limits ((acquire limits estimated_tokens now gate).0)
acquire-IsWithinNode limits estimated_tokens now gate w =
    elim (acquire-cases limits estimated_tokens now gate) [
      | inl refused ↦ rw refused (pruned-IsWithinNode limits now gate w)
      | inr (free, admitted) ↦
          rw admitted (admitted-IsWithinNode limits estimated_tokens now gate w free)
    ]

release-IsWithinNode :
    (limits : NodeLimits) (lease : ℕ) (gate : Gate)
    → IsWithinNode limits gate
    → IsWithinNode limits (release lease gate)
unfolding release
release-IsWithinNode limits lease gate w = go (released_at gate.leases lease) refl
  where
    go :
        (o : Option Bool)
        → released_at gate.leases lease ≡ o
        → IsWithinNode limits (elim o [
          | none ↦ gate
          | some true ↦ gate
          | some false ↦ record gate { active = gate.active - 1; leases = mark gate.leases lease }
        ])
    go none h = w
    go (some true) h = w
    go (some false) h =
        let one = open-mark gate.leases lease h in
        record {
          counted = omega (arith, w.counted, one);
          parallel = omega (arith, w.parallel);
          requests = w.requests;
          tokens = w.tokens;
        }

run-IsWithinNode :
    (limits : NodeLimits) (uses : List Use) (gate : Gate)
    → IsWithinNode limits gate
    → IsWithinNode limits (run_gate limits uses gate)
run-IsWithinNode limits [] gate w = w
run-IsWithinNode limits (acquired estimated_tokens now ∷ uses) gate w =
    run-IsWithinNode limits uses _ (acquire-IsWithinNode limits estimated_tokens now gate w)
run-IsWithinNode limits (released lease ∷ uses) gate w =
    run-IsWithinNode limits uses _ (release-IsWithinNode limits lease gate w)

-- Whatever is acquired and released, in any order and at any times: the count of a gate is the number
-- of its leases that are not released, it is at most the concurrency, and the entries stay within the
-- requests and the tokens of a minute.
pub run_gate-IsWithinNode :
    (limits : NodeLimits) (uses : List Use) → IsWithinNode limits (run_gate limits uses closed_gate)
run_gate-IsWithinNode limits uses = run-IsWithinNode limits uses closed_gate (record {
  counted = refl;
  parallel = omega arith;
  requests = omega arith;
  tokens = omega arith;
})

marked :
    (leases : List Bool) (n : ℕ)
    → released_at leases n ≡ some false
    → released_at (mark leases n) n ≡ some true
unfolding released_at mark
marked [] n h = cc
marked (b ∷ leases) zero h = refl
marked (b ∷ leases) (suc n) h = marked leases n h

release_again :
    (lease : ℕ) (gate : Gate)
    → released_at gate.leases lease ≢ some false
    → release lease gate ≡ gate
unfolding release
release_again lease gate h = go (released_at gate.leases lease) h
  where
    go :
        (o : Option Bool)
        → o ≢ some false
        → elim o [
          | none ↦ gate
          | some true ↦ gate
          | some false ↦ record gate { active = gate.active - 1; leases = mark gate.leases lease }
        ]
          ≡ gate
    go none k = refl
    go (some true) k = refl
    go (some false) k = elim (k refl) [ ]

-- To release a lease once more changes nothing.
pub release-release :
    (lease : ℕ) (gate : Gate) → release lease (release lease gate) ≡ release lease gate
unfolding release
release-release lease gate = go (released_at gate.leases lease) refl
  where
    next : Option Bool → Gate
    next none = gate
    next (some true) = gate
    next (some false) = record gate { active = gate.active - 1; leases = mark gate.leases lease }

    go : (o : Option Bool) → released_at gate.leases lease ≡ o → release lease (next o) ≡ next o
    go none h = release_again lease gate (λ e. cc)
    go (some true) h = release_again lease gate (λ e. cc)
    go (some false) h =
        release_again lease (next (some false))
          (λ e. let now_true = marked gate.leases lease h in cc)
